-- ===== src/ToolRuntime.antt =====
-- crates/agent-runtime/src/tool_runtime: the data that the policy, the run limits and the executor
-- share. `V` is the JSON value of serde_json, of which nothing is used.
pub mod Schema
pub mod Policy
pub mod RunLimits
pub mod Truncation
pub mod Executor
mod Tests
use git_client.Prelude.{ℕ, Bool, Option, Text, ℤ}

pub data ToolRisk : Type 0 where
  read_only write destructive external : ToolRisk

pub data ToolOutcome : Type 0 where
  success denied failed timeout cancelled invalid_input : ToolOutcome

pub data ProcessReplayPolicy : Type 0 where
  never user_approved : ProcessReplayPolicy

pub data ToolReceipt : Type 0 where
  observation : (resource version_digest : Text) → ToolReceipt
  mutation : (execution_id resource before_digest after_digest : Text) → ToolReceipt
  artifact : (execution_id artifact_id content_digest : Text) → ToolReceipt
  process :
      (execution_id program : Text) (exit_code : ℤ) (replay_policy : ProcessReplayPolicy)
      → ToolReceipt

pub record ToolResult : Type 0 where
  pub call_id : Text
  pub name : Text
  pub outcome : ToolOutcome
  pub content : Text
  pub truncated : Bool
  pub content_bytes : ℕ
  pub receipt : Option ToolReceipt

pub record ToolIntentPrecondition : Type 0 where
  pub resource : Option Text
  pub before_digest : Option Text
  pub expected_after_digest : Option Text
  pub replay_policy : Option ProcessReplayPolicy

pub record ToolIntent (V : Type 0) : Type 0 where
  pub execution_id : Text
  pub run_id : Text
  pub call_id : Text
  pub tool_name : Text
  pub risk : ToolRisk
  pub arguments : V
  pub approval_id : Option Text
  pub approved : Bool
  pub resource : Option Text
  pub before_digest : Option Text
  pub expected_after_digest : Option Text
  pub replay_policy : Option ProcessReplayPolicy

pub record ToolHandlerOutput : Type 0 where
  pub sanitized_content : Text
  pub receipt : ToolReceipt

pub data PermissionDecision : Type 0 where
  allow deny ask : PermissionDecision

pub record ToolApprovalRequest : Type 0 where
  pub run_id : Text
  pub approval_id : Text
  pub call_id : Text
  pub tool_name : Text
  pub risk : ToolRisk
  pub summary : Option Text

pub record ToolCall (V : Type 0) : Type 0 where
  pub call_id : Text
  pub name : Text
  pub arguments : V

-- The fields of `ToolDefinition` that the executor reads.
pub record ToolDefinition : Type 0 where
  pub name : Text
  pub risk : ToolRisk
  pub timeout_ms : ℕ
  pub max_result_bytes : ℕ
