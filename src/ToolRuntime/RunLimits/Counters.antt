-- ===== src/ToolRuntime/RunLimits/Counters.antt =====
-- run_limits.rs: the counters stay within the limits, and no call is reserved twice.
use git_client.Prelude.{
  ℕ, ◌≤◌, ◌≡◌, refl, false, List, [], ◌∷◌, Text, text_eq, any, length, ltb, leb, arith, Result,
  fail_if, bind_cases,
}
use git_client.ToolRuntime.Schema.{ToolExecutionError}
use git_client.ToolRuntime.RunLimits.{
  ToolRunLimits, ToolRunCounters, default_counters, Moment, check_active, count, begin_model_round,
  reserve_call, commit_result_bytes, next_approval_id,
}

abbrev pub Distinct : List Text → Type 0
Distinct [] = Unit
Distinct (id ∷ ids) = (any (text_eq id) ids ≡ false) × Distinct ids

pub record IsWithin (limits : ToolRunLimits) (c : ToolRunCounters) : Type 0 where
  pub rounds : c.model_rounds ≤ limits.max_model_rounds
  pub calls : c.tool_calls ≤ limits.max_tool_calls
  pub bytes : c.result_bytes ≤ limits.max_result_bytes
  pub counted : c.tool_calls ≡ length c.call_ids
  pub distinct : Distinct c.call_ids

-- The calls of a run's methods, with what they read of the clock.
pub data Call : Type 0 where
  rounds : Moment → Call
  reserves : Moment → Text → Call
  approves : Text → Call
  commits : ℕ → Call

module _ (limits : ToolRunLimits) where
  pub step : ToolRunCounters → Call → ToolRunCounters
  step c (rounds at) = (begin_model_round limits at c).0
  step c (reserves at id) = (reserve_call limits at id c).0
  step c (approves namespace) = (next_approval_id namespace c).0
  step c (commits bytes) = (commit_result_bytes limits bytes c).0

  pub run : ToolRunCounters → List Call → ToolRunCounters
  run c [] = c
  run c (k ∷ ks) = run (step c k) ks

  -- A step whose every success is within the limits.
  Kept : ToolRunCounters → Result ToolExecutionError ToolRunCounters → Type 0
  Kept c r = IsWithin limits (count c r).0

  begin_model_round-IsWithin :
      (at : Moment) (c : ToolRunCounters)
      → IsWithin limits c
      → IsWithin limits (begin_model_round limits at c).0
  unfolding begin_model_round Kept count
  begin_model_round-IsWithin at c w =
      bind_cases (Kept c) (check_active limits at) _ (λ _. w)
        λ _ _.
          bind_cases (Kept c) (fail_if (leb limits.max_model_rounds c.model_rounds) _) _ (λ _. w)
            λ _ room. record {
              rounds = ground (arith, room);
              calls = w.calls;
              bytes = w.bytes;
              counted = w.counted;
              distinct = w.distinct;
            }

  pub reserve_call-IsWithin :
      (at : Moment) (id : Text) (c : ToolRunCounters)
      → IsWithin limits c
      → IsWithin limits (reserve_call limits at id c).0
  unfolding reserve_call Kept count
  reserve_call-IsWithin at id c w =
      bind_cases (Kept c) (check_active limits at) _ (λ _. w)
        λ _ _.
          bind_cases (Kept c) (fail_if (leb limits.max_tool_calls c.tool_calls) _) _ (λ _. w)
            λ _ room.
              bind_cases (Kept c) (fail_if (any (text_eq id) c.call_ids) _) _ (λ _. w)
                λ _ new. record {
                  rounds = w.rounds;
                  calls = ground (arith, room);
                  bytes = w.bytes;
                  counted = omega (arith, w.counted);
                  distinct = (ground (arith, new), w.distinct);
                }

  pub commit_result_bytes-IsWithin :
      (bytes : ℕ) (c : ToolRunCounters)
      → IsWithin limits c
      → IsWithin limits (commit_result_bytes limits bytes c).0
  unfolding commit_result_bytes Kept count
  commit_result_bytes-IsWithin bytes c w =
      bind_cases (Kept c) (fail_if (ltb limits.max_result_bytes _) _) _ (λ _. w)
        λ _ room. record {
          rounds = w.rounds;
          calls = w.calls;
          bytes = ground (arith, room);
          counted = w.counted;
          distinct = w.distinct;
        }

  pub next_approval_id-IsWithin :
      (namespace : Text) (c : ToolRunCounters)
      → IsWithin limits c
      → IsWithin limits (next_approval_id namespace c).0
  unfolding next_approval_id
  next_approval_id-IsWithin namespace c w = record {
    rounds = w.rounds;
    calls = w.calls;
    bytes = w.bytes;
    counted = w.counted;
    distinct = w.distinct;
  }

  step-IsWithin : (c : ToolRunCounters) (k : Call) → IsWithin limits c → IsWithin limits (step c k)
  unfolding step
  step-IsWithin c (rounds at) w = begin_model_round-IsWithin at c w
  step-IsWithin c (reserves at id) w = reserve_call-IsWithin at id c w
  step-IsWithin c (approves namespace) w = next_approval_id-IsWithin namespace c w
  step-IsWithin c (commits bytes) w = commit_result_bytes-IsWithin bytes c w

  run_from-IsWithin :
      (c : ToolRunCounters) (ks : List Call) → IsWithin limits c → IsWithin limits (run c ks)
  unfolding run
  run_from-IsWithin c [] w = w
  run_from-IsWithin c (k ∷ ks) w = run_from-IsWithin (step c k) ks (step-IsWithin c k w)

  -- After any calls of a new run's methods, refused ones among them, the rounds, the calls and the
  -- result bytes are within the limits, and the calls counted are those of distinct identifiers.
  pub run-IsWithin : (ks : List Call) → IsWithin limits (run default_counters ks)
  run-IsWithin ks = run_from-IsWithin default_counters ks (record {
    rounds = omega arith;
    calls = omega arith;
    bytes = omega arith;
    counted = refl;
    distinct = tt;
  })
