-- ===== src/ToolRuntime/RunLimits.antt =====
-- tool_runtime/run_limits.rs: the budgets of a run. A method takes the counters and returns them
-- beside its result. The clock and the cancellation are arguments: what a method reads of them.
-- Durations and instants are in nanoseconds.
pub mod Counters
mod Tests
use Prim.Native.Nat.{bit_xor}
use git_client.Prelude.{
  ℕ, zero, suc, ◌+◌, ◌*◌, ◌-◌, ◌/◌, ◌%◌, ◌^◌, Bool, true, false, List, [], ◌∷◌, ◌++◌, Option, none,
  some, Text, text_eq, codes, any, ltb, leb, ◌==◌, if◌then◌else◌, min, Result, ok, err, ◌>>=◌, ◌>>◌,
  fail_if, utf8, saturating_add,
}
use git_client.ToolRuntime.Schema.{
  ToolExecutionError, invalid_call, budget_exceeded, cancelled, timeout,
}

pub record ToolRunLimits : Type 0 where
  pub max_model_rounds : ℕ
  pub max_tool_calls : ℕ
  pub max_result_bytes : ℕ
  pub max_tool_timeout : ℕ
  pub deadline : Option ℕ

-- `ToolRunLimits::default()`.
abbrev pub default_limits : ToolRunLimits
default_limits = record {
  max_model_rounds = 10;
  max_tool_calls = 8;
  max_result_bytes = 300000;
  max_tool_timeout = 30 * 1000000000;
  deadline = none;
}

-- `call_ids` is the set, its elements in the order of their insertion, the newest first.
pub record ToolRunCounters : Type 0 where
  pub model_rounds : ℕ
  pub tool_calls : ℕ
  pub result_bytes : ℕ
  pub call_ids : List Text
  pub next_approval_id : ℕ

abbrev pub default_counters : ToolRunCounters
default_counters = record {
  model_rounds = 0;
  tool_calls = 0;
  result_bytes = 0;
  call_ids = [];
  next_approval_id = 0;
}

-- What `check_active` reads: `is_cancelled()` and `Instant::now()`.
pub record Moment : Type 0 where
  pub is_cancelled : Bool
  pub now : ℕ

is_past : Option ℕ → ℕ → Bool
is_past none now = false
is_past (some deadline) now = leb deadline now

pub check_active : ToolRunLimits → Moment → Result ToolExecutionError (Unit {0})
unfolding is_past
check_active limits at = do
  fail_if at.is_cancelled cancelled
  fail_if (is_past limits.deadline at.now) timeout

-- The clock is read again behind `check_active`.
remaining_until : Option ℕ → ℕ → ℕ → ℕ
remaining_until none later cap = cap
remaining_until (some deadline) later cap = min (deadline - later) cap

pub effective_timeout : ToolRunLimits → Moment → ℕ → ℕ → Result ToolExecutionError ℕ
unfolding remaining_until
effective_timeout limits at later cap = do
  check_active limits at
  fail_if (remaining_until limits.deadline later cap == 0) timeout
  ok (remaining_until limits.deadline later cap)

-- A step that fails leaves the counters alone.
pub count :
    ToolRunCounters
    → Result ToolExecutionError ToolRunCounters
    → ToolRunCounters × Result ToolExecutionError (Unit {0})
count counters (err e) = (counters, err e)
count counters (ok counters') = (counters', ok tt)

pub begin_model_round :
    ToolRunLimits
    → Moment
    → ToolRunCounters
    → ToolRunCounters × Result ToolExecutionError (Unit {0})
unfolding count
begin_model_round limits at counters = count counters (do
  check_active limits at
  fail_if (leb limits.max_model_rounds counters.model_rounds)
      (budget_exceeded (codes "model_rounds"))
  ok (record counters { model_rounds = counters.model_rounds + 1 }))

pub reserve_call :
    ToolRunLimits
    → Moment
    → Text
    → ToolRunCounters
    → ToolRunCounters × Result ToolExecutionError (Unit {0})
unfolding count
reserve_call limits at call_id counters = count counters (do
  check_active limits at
  fail_if (leb limits.max_tool_calls counters.tool_calls) (budget_exceeded (codes "tool_calls"))
  fail_if (any (text_eq call_id) counters.call_ids) (invalid_call (codes "duplicate_call_id"))
  ok (record counters {
    call_ids = call_id ∷ counters.call_ids;
    tool_calls = counters.tool_calls + 1;
  }))

pub remaining_result_bytes : ToolRunLimits → ToolRunCounters → ℕ
remaining_result_bytes limits counters = limits.max_result_bytes - counters.result_bytes

pub commit_result_bytes :
    ToolRunLimits → ℕ → ToolRunCounters → ToolRunCounters × Result ToolExecutionError (Unit {0})
unfolding count
commit_result_bytes limits bytes counters =
    let next = saturating_add counters.result_bytes bytes in
    count counters (do
      fail_if (ltb limits.max_result_bytes next) (budget_exceeded (codes "result_bytes"))
      ok (record counters { result_bytes = next }))

-- `{hash:016x}`: the lowest hexadecimal digits of a number, the highest one first.
hex_digit : ℕ → ℕ
hex_digit d = if ltb d 10 then b'0' + d else b'a' + (d - 10)

hex_digits : ℕ → ℕ → Text → Text
unfolding hex_digit
hex_digits zero n acc = acc
hex_digits (suc k) n acc = hex_digits k (n / 16) (hex_digit (n % 16) ∷ acc)

-- Written out, since `2 ^ 64` and the prime of the hash are numerals.
pub hash_from : ℕ → List ℕ → ℕ
hash_from hash [] = hash
hash_from hash (byte ∷ bytes) = hash_from (bit_xor (hash * 0x10000_0001b3 % 2 ^ 64) byte) bytes

pub stable_hash : Text → Text
unfolding hash_from hex_digits
stable_hash value = hex_digits 16 (hash_from 0xcbf29ce484222325 (utf8 value)) []

-- A number in decimal. Each digit divides it by ten, so as many rounds as the number are enough.
decimal_from : ℕ → ℕ → Text → Text
decimal_from zero n acc = (b'0' + n % 10) ∷ acc
decimal_from (suc f) n acc =
    let rest = decimal_from f (n / 10) ((b'0' + n % 10) ∷ acc) in
    if ltb n 10 then (b'0' + n) ∷ acc else rest

pub decimal : ℕ → Text
unfolding decimal_from
decimal n = decimal_from n n []

pub next_approval_id : Text → ToolRunCounters → ToolRunCounters × Text
next_approval_id namespace counters =
    let next = saturating_add counters.next_approval_id 1 in
    (
      record counters { next_approval_id = next },
      codes "approval-" ++ (stable_hash namespace ++ (codes "-" ++ decimal next)),
    )
