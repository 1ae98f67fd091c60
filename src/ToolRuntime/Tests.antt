-- ===== src/ToolRuntime/Tests.antt =====
-- The theorems on the run limits, the truncation and the executor at concrete inputs.
use git_client.Prelude.{ℕ, ◌≡◌, refl, ◌≤◌, true, false, List, [], ◌∷◌, none, some, codes, len, ok}
use git_client.ToolRuntime.{write, observation, allow, ask, ToolCall}
use git_client.ToolRuntime.Policy.{exact}
use git_client.ToolRuntime.RunLimits.{default_limits, default_counters, Moment}
use git_client.ToolRuntime.RunLimits.Counters.{
  IsWithin, Call, rounds, reserves, approves, commits, run, run-IsWithin,
}
use git_client.ToolRuntime.Truncation.{truncate_utf8_with_marker}
use git_client.ToolRuntime.Truncation.Bounds.{marked, truncate_utf8_with_marker-marked}
use git_client.ToolRuntime.Executor.{resolved, RegisteredTool, ToolRun, ToolExecutor, Surroundings}
use git_client.ToolRuntime.Executor.Effects.{Guarded}
use git_client.ToolRuntime.Executor.Execute.{execute}
use git_client.ToolRuntime.Executor.Execute.Authorised.{Authorised, execute-Guarded}

abbrev moment : Moment
moment = record { is_cancelled = false; now = 5 }

abbrev calls : List Call
calls =
    rounds moment
    ∷ reserves moment (codes "call-1")
    ∷ reserves moment (codes "call-1")
    ∷ approves (codes "run-1")
    ∷ commits 200000
    ∷ commits 200000
    ∷ []

run-IsWithin_example : IsWithin default_limits (run default_limits default_counters calls)
run-IsWithin_example = run-IsWithin default_limits calls

truncate_utf8_with_marker-marked_example :
    (truncate_utf8_with_marker (codes "提交提交") 7 ≡ some (marked (codes "提交提交") 7))
    × (len (marked (codes "提交提交") 7).0 ≤ 7)
truncate_utf8_with_marker-marked_example = truncate_utf8_with_marker-marked (codes "提交提交") 7

whole_characters : marked (codes "提交提交") 7 ≡ (codes "提交", true)
whole_characters = refl

-- A tool whose arguments are a number.
abbrev echo : RegisteredTool ℕ
echo = record {
  definition = record {
    name = codes "test.echo";
    risk = write;
    timeout_ms = 100;
    max_result_bytes = 64;
  };
  validate = λ n. ok tt;
  summarize_arguments = λ n. some (codes "echo");
  prepare_intent = λ id n. some (record {
    resource = none;
    before_digest = none;
    expected_after_digest = none;
    replay_policy = none;
  });
  sanitize_result = λ t. t;
}

abbrev executor : ToolExecutor ℕ
executor = record {
  registry = (codes "test.echo", echo) ∷ [];
  policy = record { matcher = exact (codes "test.echo"); risk = some write; decision = ask } ∷ [];
  redact_sensitive_text = λ t. t;
}

abbrev tool_run : ToolRun
tool_run = record {
  run_id = codes "run-1";
  execution_namespace = codes "run-1";
  limits = default_limits;
  run_policy = none;
}

abbrev surroundings : Surroundings ℕ
surroundings = record {
  reserving = moment;
  approving = moment;
  approving_later = 6;
  approval = λ request limit. resolved allow;
  preparing = moment;
  running = moment;
  running_later = 7;
  handler = λ intent limit. resolved (
      ok (record {
        sanitized_content = codes "done";
        receipt = observation (codes "r") (codes "v1");
      }));
  intent_persists = λ intent. true;
  receipt_persists = λ intent receipt. true;
  no_effect_persists = λ intent outcome. true;
  duration_ms = 3;
}

abbrev tool_call : ToolCall ℕ
tool_call = record { call_id = codes "call-1"; name = codes "test.echo"; arguments = 1 }

execute-Guarded_example :
    Guarded
      (Authorised executor tool_run surroundings tool_call)
      (execute executor tool_run surroundings tool_call default_counters).1
execute-Guarded_example = execute-Guarded executor tool_run surroundings tool_call default_counters
