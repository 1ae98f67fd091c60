-- ===== src/ToolRuntime/Executor.antt =====
-- tool_runtime/executor.rs: `ToolExecutor::execute`. An execution takes the counters of its run and
-- returns them, with the effects in their order and its result. `Surroundings` is what it reads of
-- the clock, the approvals, the journal and the handler, which are traits of the source or outside.
pub mod Effects
pub mod Execute
use git_client.Prelude.{
  ℕ, ◌*◌, Bool, true, false, ◌||◌, List, [], ◌∷◌, ◌++◌, Option, none, some, Text, codes, len,
  is_empty, trim_start, lookup, Map, ◌==◌, if◌then◌else◌, min, Result, ok, err,
}
use git_client.ToolRuntime.{
  ToolRisk, read_only, ToolOutcome, ToolReceipt, ToolResult, ToolIntentPrecondition, ToolIntent,
  ToolHandlerOutput, PermissionDecision, allow, deny, ask, ToolApprovalRequest, ToolCall,
  ToolDefinition,
}
use git_client.ToolRuntime.Schema.{
  ToolExecutionError, invalid_call, unknown_tool, invalid_input, budget_exceeded,
  intent_persistence, receipt_persistence, intent_resolution_persistence,
}
use git_client.ToolRuntime.Policy.{PermissionPolicy, decide}
use git_client.ToolRuntime.RunLimits.{
  ToolRunLimits, ToolRunCounters, Moment, check_active, effective_timeout, reserve_call,
  next_approval_id, remaining_result_bytes, commit_result_bytes, stable_hash,
}
use git_client.ToolRuntime.Truncation.{truncate_utf8}
use git_client.ToolRuntime.Truncation.Bounds.{truncated, cut_to}

pub data ToolExecutionEvent : Type 0 where
  validation_failed : (call_id code : Text) → ToolExecutionEvent
  approval_requested : ToolApprovalRequest → ToolExecutionEvent
  approval_resolved :
      (approval_id call_id : Text) (decision : PermissionDecision) → ToolExecutionEvent
  started : (call_id name : Text) (risk : ToolRisk) → ToolExecutionEvent
  completed :
      (call_id name : Text) (outcome : ToolOutcome) (duration_ms content_bytes : ℕ)
      (truncated : Bool)
      → ToolExecutionEvent

-- How a `select!` over the cancellation and a `timeout` ends.
pub data Waited (A : Type 0) : Type 0 where
  interrupted elapsed : Waited A
  resolved : A → Waited A

-- A tool of the registry. `validate` is its compiled schema; the other fields are the methods of its
-- handler that do not wait.
pub record RegisteredTool (V : Type 0) : Type 0 where
  pub definition : ToolDefinition
  pub validate : V → Result ToolExecutionError (Unit {0})
  pub summarize_arguments : V → Option Text
  pub prepare_intent : Text → V → Option ToolIntentPrecondition
  pub sanitize_result : Text → Text

pub record ToolRun : Type 0 where
  pub run_id : Text
  pub execution_namespace : Text
  pub limits : ToolRunLimits
  pub run_policy : Option PermissionPolicy

pub record ToolExecutor (V : Type 0) : Type 0 where
  pub registry : Map (RegisteredTool V)
  pub policy : PermissionPolicy
  pub redact_sensitive_text : Text → Text

-- What one execution reads, by the place that reads it. A call of the journal persists or fails.
pub record Surroundings (V : Type 0) : Type 0 where
  pub reserving : Moment
  pub approving : Moment
  pub approving_later : ℕ
  pub approval : ToolApprovalRequest → ℕ → Waited PermissionDecision
  pub preparing : Moment
  pub running : Moment
  pub running_later : ℕ
  pub handler : ToolIntent V → ℕ → Waited (Result (Option Text) ToolHandlerOutput)
  pub intent_persists : ToolIntent V → Bool
  pub receipt_persists : ToolIntent V → ToolReceipt → Bool
  pub no_effect_persists : ToolIntent V → ToolOutcome → Bool
  pub duration_ms : ℕ

pub data Effect (V : Type 0) : Type 0 where
  record_intent : ToolIntent V → Bool → Effect V
  record_receipt : ToolIntent V → ToolReceipt → Bool → Effect V
  record_no_effect : ToolIntent V → ToolOutcome → Bool → Effect V
  handler_execute : ToolIntent V → Effect V
  emit : ToolExecutionEvent → Effect V

abbrev pub Output : Type 0 → Type 0 → Type 0
Output V A = ToolRunCounters × List (Effect V) × Result ToolExecutionError A

abbrev pub Exec : Type 0 → Type 0 → Type 0
Exec V A = ToolRunCounters → Output V A

module _ {V : Type 0} where
  -- `?`: an error ends the execution with the effects so far.
  abbrev pub behind : {A B : Type 0} → Output V A → (A → Exec V B) → Output V B
  behind (c, t, err e) f = (c, t, err e)
  behind (c, t, ok a) f = let (c', t', r) = f a c in (c', t ++ t', r)

  infixl 5 ◌>>=◌ ◌>>◌
  pub ◌>>=◌ : {A B : Type 0} → Exec V A → (A → Exec V B) → Exec V B
  (m >>= f) c = behind (m c) f

  abbrev pub ◌>>◌ : {A B : Type 0} → Exec V A → Exec V B → Exec V B
  m >> k = m >>= λ _. k

  pub pure : {A : Type 0} → A → Exec V A
  pure a c = (c, [], ok a)

  pub lift : {A : Type 0} → Result ToolExecutionError A → Exec V A
  lift r c = (c, [], r)

  pub effect : Effect V → Exec V (Unit {0})
  effect e c = (c, e ∷ [], ok tt)

  pub counting :
      {A : Type 0} → (ToolRunCounters → ToolRunCounters × Result ToolExecutionError A) → Exec V A
  counting f c = let (c', r) = f c in (c', [], r)

  pub fail_unless : Bool → ToolExecutionError → Exec V (Unit {0})
  fail_unless true e c = (c, [], ok tt)
  fail_unless false e c = (c, [], err e)
