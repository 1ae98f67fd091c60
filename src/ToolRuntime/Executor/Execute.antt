-- ===== src/ToolRuntime/Executor/Execute.antt =====
-- tool_runtime/executor.rs: the steps of `ToolExecutor::execute`, in the order of the source.
pub mod Authorised
use git_client.Prelude.{
  ℕ, ◌*◌, Bool, true, false, not, ◌||◌, List, [], ◌∷◌, ◌++◌, Option, none, some, Text, codes, len,
  is_empty, trim_start, lookup, ◌==◌, if◌then◌else◌, min, Result, ok, err, ok_or,
}
use mathlib.Core.Option
use git_client.ToolRuntime.{
  ToolRisk, read_only, write, destructive, external, ToolOutcome, ToolReceipt, ToolResult,
  ToolIntentPrecondition, ToolIntent, ToolHandlerOutput, PermissionDecision, allow, deny, ask,
  ToolApprovalRequest, ToolCall,
}
use git_client.ToolRuntime.Schema.{
  ToolExecutionError, invalid_call, unknown_tool, budget_exceeded, intent_persistence,
  receipt_persistence, intent_resolution_persistence,
}
use git_client.ToolRuntime.Policy.{decide}
use git_client.ToolRuntime.RunLimits.{
  check_active, effective_timeout, reserve_call, next_approval_id, remaining_result_bytes,
  commit_result_bytes, stable_hash,
}
use git_client.ToolRuntime.Truncation.Bounds.{truncated, cut_to}
use git_client.ToolRuntime.Executor.{
  validation_failed, approval_requested, approval_resolved, started, completed, Waited, interrupted,
  elapsed, resolved, RegisteredTool, ToolRun, ToolExecutor, Surroundings, record_intent,
  record_receipt, record_no_effect, handler_execute, emit, Exec, ◌>>=◌, ◌>>◌, pure, lift, effect,
  counting, fail_unless,
}

code_of : ToolExecutionError → Text
code_of (ToolExecutionError.invalid_input path code) = code
code_of e = codes "invalid_input"

-- An approver that asks again denies.
pub settled : PermissionDecision → PermissionDecision
settled allow = allow
settled deny = deny
settled ask = deny

pub waited : {A : Type 0} → Waited A → Result ToolExecutionError A
waited interrupted = err ToolExecutionError.cancelled
waited elapsed = err ToolExecutionError.timeout
waited (resolved a) = ok a

is_read_only : ToolRisk → Bool
is_read_only read_only = true
is_read_only write = false
is_read_only destructive = false
is_read_only external = false

abbrev pub hard_max_result_bytes : ℕ
hard_max_result_bytes = 1024 * 1024

module _ {V : Type 0} (executor : ToolExecutor V) (run : ToolRun) (env : Surroundings V) where
  module _ (tool : RegisteredTool V) (call : ToolCall V) where
    pub result_of : ToolOutcome → Text → Bool → Option ToolReceipt → ToolResult
    result_of outcome content truncated receipt = record {
      call_id = call.call_id;
      name = call.name;
      outcome = outcome;
      content = content;
      truncated = truncated;
      content_bytes = len content;
      receipt = receipt;
    }

    pub report_invalid : Result ToolExecutionError (Unit {0}) → Exec V (Unit {0})
    unfolding code_of
    report_invalid (ok _) = pure tt
    report_invalid (err e) =
        effect (emit (validation_failed call.call_id (code_of e))) >> lift (err e)

    pub validated : Exec V (Unit {0})
    unfolding report_invalid
    validated = report_invalid (tool.validate call.arguments)

    pub request_of : Text → ToolApprovalRequest
    request_of approval_id = record {
      run_id = run.run_id;
      approval_id = approval_id;
      call_id = call.call_id;
      tool_name = call.name;
      risk = tool.definition.risk;
      summary =
          Option.map (λ s. cut_to (executor.redact_sensitive_text s) 512)
            (tool.summarize_arguments call.arguments);
    }

    pub time_cap : ℕ
    time_cap = min (tool.definition.timeout_ms * 1000000) run.limits.max_tool_timeout

    pub resolve_approval : Exec V (PermissionDecision × Option Text)
    unfolding request_of time_cap waited settled
    resolve_approval = do
      timeout ← lift (effective_timeout run.limits env.approving env.approving_later time_cap)
      approval_id ←
          counting (λ c. let (c', id) = next_approval_id run.execution_namespace c in (c', ok id))
      effect (emit (approval_requested (request_of approval_id)))
      answer ← lift (waited (env.approval (request_of approval_id) timeout))
      effect (emit (approval_resolved approval_id call.call_id (settled answer)))
      pure (settled answer, some approval_id)

    pub permitted : PermissionDecision → Exec V (PermissionDecision × Option Text)
    unfolding resolve_approval
    permitted allow = pure (allow, none)
    permitted deny = pure (deny, none)
    permitted ask = resolve_approval

    pub emit_completed : ToolOutcome → ℕ → ℕ → Bool → Exec V (Unit {0})
    emit_completed outcome duration_ms content_bytes truncated =
        effect (emit (completed call.call_id call.name outcome duration_ms content_bytes truncated))

    pub refused : Exec V ToolResult
    unfolding emit_completed result_of
    refused = do
      emit_completed ToolOutcome.denied 0 (len (codes "Tool permission denied.")) false
      pure (result_of ToolOutcome.denied (codes "Tool permission denied.") false none)

    pub unprepared : Exec V ToolResult
    unfolding emit_completed result_of
    unprepared = do
      counting (commit_result_bytes run.limits (len (codes "Tool preparation failed.")))
      emit_completed ToolOutcome.failed 0 (len (codes "Tool preparation failed.")) false
      pure (result_of ToolOutcome.failed (codes "Tool preparation failed.") false none)

    pub execution_id : Text
    execution_id =
        codes "exec-"
        ++ stable_hash (run.execution_namespace ++ (0 ∷ (call.call_id ++ (0 ∷ call.name))))

    pub intent_of : Option Text → ToolIntentPrecondition → ToolIntent V
    unfolding execution_id
    intent_of approval_id preparation = record {
      execution_id = execution_id;
      run_id = run.run_id;
      call_id = call.call_id;
      tool_name = call.name;
      risk = tool.definition.risk;
      arguments = call.arguments;
      approval_id = approval_id;
      approved = true;
      resource = preparation.resource;
      before_digest = preparation.before_digest;
      expected_after_digest = preparation.expected_after_digest;
      replay_policy = preparation.replay_policy;
    }

    -- `resolve_read_only_without_effect`.
    pub without_effect : ToolIntent V → ToolOutcome → Exec V (Unit {0})
    unfolding is_read_only
    without_effect intent outcome =
        if is_read_only intent.risk
        then (effect (record_no_effect intent outcome (env.no_effect_persists intent outcome))
            >> fail_unless (env.no_effect_persists intent outcome) intent_resolution_persistence)
        else pure tt

    -- From the redaction of the content on.
    pub deliver : ToolOutcome → Text → Option ToolReceipt → Exec V ToolResult
    unfolding emit_completed result_of
    deliver outcome content receipt = do
      cap ← counting (λ c. (
        c,
        ok (
            min (min tool.definition.max_result_bytes (remaining_result_bytes run.limits c))
              hard_max_result_bytes),
      ))
      fail_unless (not (cap == 0)) (budget_exceeded (codes "result_bytes"))
      let (text, cut) = truncated (executor.redact_sensitive_text content) cap
      counting (commit_result_bytes run.limits (len text))
      emit_completed outcome env.duration_ms (len text) cut
      pure (result_of outcome text cut receipt)

    pub handled : ToolIntent V → Waited (Result (Option Text) ToolHandlerOutput) → Exec V ToolResult
    unfolding without_effect emit_completed deliver
    handled intent interrupted = do
      without_effect intent ToolOutcome.cancelled
      emit_completed ToolOutcome.cancelled env.duration_ms 0 false
      lift (err ToolExecutionError.cancelled)
    handled intent elapsed = do
      without_effect intent ToolOutcome.timeout
      emit_completed ToolOutcome.timeout env.duration_ms 0 false
      lift (err ToolExecutionError.timeout)
    handled intent (resolved (ok output)) = do
      effect (record_receipt intent output.receipt (env.receipt_persists intent output.receipt))
      fail_unless (env.receipt_persists intent output.receipt) receipt_persistence
      deliver ToolOutcome.success (tool.sanitize_result output.sanitized_content)
          (some output.receipt)
    handled intent (resolved (err none)) = do
      without_effect intent ToolOutcome.failed
      deliver ToolOutcome.failed (codes "Tool execution failed.") none
    handled intent (resolved (err (some content))) = do
      without_effect intent ToolOutcome.failed
      deliver ToolOutcome.failed content none

    pub call_handler : ToolIntent V → Result ToolExecutionError ℕ → Exec V ToolResult
    unfolding handled
    call_handler intent limit = do
      timeout ← lift limit
      effect (handler_execute intent)
      handled intent (env.handler intent timeout)

    -- The intent is persisted before the handler runs.
    pub start_persisted : ToolIntent V → Bool → Exec V ToolResult
    unfolding call_handler time_cap
    start_persisted intent persists = do
      effect (record_intent intent persists)
      fail_unless persists intent_persistence
      effect (emit (started call.call_id call.name tool.definition.risk))
      call_handler intent (effective_timeout run.limits env.running env.running_later time_cap)

    pub journaled : ToolIntent V → Exec V ToolResult
    unfolding start_persisted
    journaled intent = start_persisted intent (env.intent_persists intent)

    pub prepared : Option Text → Option ToolIntentPrecondition → Exec V ToolResult
    unfolding unprepared journaled intent_of
    prepared approval_id none = unprepared
    prepared approval_id (some preparation) = journaled (intent_of approval_id preparation)

    pub decided : PermissionDecision × Option Text → Exec V ToolResult
    unfolding refused prepared execution_id
    decided (deny, approval_id) = refused
    decided (ask, approval_id) = refused
    decided (allow, approval_id) = do
      lift (check_active run.limits env.preparing)
      prepared approval_id (tool.prepare_intent execution_id call.arguments)

  pub execute : ToolCall V → Exec V ToolResult
  unfolding validated permitted decided
  execute call = do
    fail_unless (not (is_empty (trim_start call.call_id) || is_empty (trim_start call.name)))
        (invalid_call (codes "identity"))
    tool ← lift (ok_or (lookup call.name executor.registry) unknown_tool)
    counting (reserve_call run.limits env.reserving call.call_id)
    validated tool call
    decision ←
        permitted tool call (decide executor.policy run.run_policy call.name tool.definition.risk)
    decided tool call decision
