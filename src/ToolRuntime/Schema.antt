-- ===== src/ToolRuntime/Schema.antt =====
-- tool_runtime/schema.rs: the errors of an execution.
use git_client.Prelude.{Text}

pub data ToolExecutionError : Type 0 where
  invalid_call : Text → ToolExecutionError
  unknown_tool : ToolExecutionError
  invalid_input : (path code : Text) → ToolExecutionError
  budget_exceeded : Text → ToolExecutionError
  cancelled timeout : ToolExecutionError
  intent_persistence receipt_persistence : ToolExecutionError
  intent_resolution_persistence intent_preparation : ToolExecutionError
