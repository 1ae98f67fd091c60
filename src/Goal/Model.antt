-- ===== src/Goal/Model.antt =====
-- goal.rs: the data of a goal and of a durable session, and the methods on a goal. `V` is the JSON
-- value of serde_json, of which nothing is used. `TranscriptItem` is of agent-runtime/src/lib.rs.
use git_client.Prelude.{
  ℕ, ◌*◌, Bool, true, false, not, ◌&&◌, ◌||◌, List, [], ◌∷◌, map, Option, none, some, Text, len,
  is_empty, any, length, Map, lookup, ltb, leb, if◌then◌else◌, Result, ok, err, ok_or,
  saturating_add,
}
use git_client.Session.{SessionMessage}
use git_client.ToolRuntime.{ToolReceipt, observation, ToolIntent, ToolCall}
use git_client.Goal.{GoalError, invalid_content, invalid_budget}
use git_client.Goal.Budget.{ModelUsage, no_usage, AgentBudgetAccount}
use git_client.Goal.Verdict.{VerificationResult}
use git_client.Goal.Progress.{ProgressTracker, no_progress_yet}

pub data AgentGoalStatus : Type 0 where
  queued running awaiting_approval pausing paused blocked : AgentGoalStatus
  completed failed cancelled : AgentGoalStatus

abbrev pub is_terminal : AgentGoalStatus → Bool
is_terminal completed = true
is_terminal failed = true
is_terminal cancelled = true
is_terminal _ = false

abbrev pub is_blocked : AgentGoalStatus → Bool
is_blocked blocked = true
is_blocked _ = false

pub data PauseReason : Type 0 where
  by_user app_restarted budget provider_unavailable : PauseReason

pub data BlockReason : Type 0 where
  workspace_conflict ambiguous_tool_effect no_progress verifier_rejected : BlockReason
  completion_candidate_invalid model_response_invalid runtime_invariant : BlockReason
  checkpoint_corrupt storage_locked runaway_guard : BlockReason

pub record SteeringMessage : Type 0 where
  pub sequence : ℕ
  pub created_at_ms : ℕ
  pub content : Text
  pub injected : Bool

pub record WorkingEvidence : Type 0 where
  pub source : Text
  pub digest : Text
  pub content : Option Text

pub data TranscriptItem (V : Type 0) : Type 0 where
  system : Text → TranscriptItem V
  user_text : Text → TranscriptItem V
  assistant_text : Text → TranscriptItem V
  assistant_tool_calls : List (ToolCall V) → TranscriptItem V
  tool_result : (name call_id content : Text) (counts_toward_budget : Bool) → TranscriptItem V

pub record AgentCheckpoint (V : Type 0) : Type 0 where
  pub slice_index : ℕ
  pub checkpoint_sequence : ℕ
  pub model_responses : ℕ
  pub used_tools : Bool
  pub slice_usage : ModelUsage
  pub slice_active_ms : ℕ
  pub slice_tool_result_bytes : ℕ
  pub working_summary : Text
  pub recent_transcript : List (TranscriptItem V)
  pub evidence : List WorkingEvidence
  pub pending_intents : List (ToolIntent V)
  pub receipts : List ToolReceipt
  pub superseded_execution_ids : List Text
  pub verifier_gaps : List Text
  pub next_actions : List Text
  pub progress : ProgressTracker
  pub repository_digest : Text
  pub saved_at_ms : ℕ

pub record AgentCompletionCandidate : Type 0 where
  pub text : Text
  pub remaining_work : List Text
  pub created_at_ms : ℕ
  pub model_responses : ℕ
  pub used_tools : Bool
  pub verification : Option VerificationResult

pub record AgentGoalResult : Type 0 where
  pub text : Text
  pub committed_at_ms : ℕ
  pub verifier : Option VerificationResult

pub record AgentGoal (V : Type 0) : Type 0 where
  pub goal_id : Text
  pub session_id : Text
  pub objective : Text
  pub model_id : Text
  pub repository_identity : Text
  pub created_at_ms : ℕ
  pub updated_at_ms : ℕ
  pub revision : ℕ
  pub status : AgentGoalStatus
  pub pause_reason : Option PauseReason
  pub block_reason : Option BlockReason
  pub usage_by_model : Map AgentBudgetAccount
  pub steering_messages : List SteeringMessage
  pub checkpoint : AgentCheckpoint V
  pub completion_candidate : Option AgentCompletionCandidate
  pub result : Option AgentGoalResult

pub record DurableAgentSession (V : Type 0) : Type 0 where
  pub format_version : ℕ
  pub session_id : Text
  pub repository_identity : Text
  pub revision : ℕ
  pub memory_summary : Option Text
  pub recent_messages : List SessionMessage
  pub active_goal : Option (AgentGoal V)

unfoldable pub without_content : WorkingEvidence → WorkingEvidence
without_content e = record e { content = none }

-- All but the last two.
compacted : List WorkingEvidence → List WorkingEvidence
unfolding without_content
compacted [] = []
compacted (e ∷ es) =
    let rest = compacted es in if leb 2 (length es) then without_content e ∷ rest else e ∷ rest

is_effect : ToolReceipt → Bool
is_effect (observation resource digest) = false
is_effect _ = true

unfoldable pub cleared_message : SteeringMessage → SteeringMessage
cleared_message m = record m { content = []; injected = true }

module _ {V : Type 0} where
  -- `AgentCheckpoint::empty`.
  pub empty_checkpoint : Text → ℕ → AgentCheckpoint V
  empty_checkpoint repository_digest now = record {
    slice_index = 0;
    checkpoint_sequence = 0;
    model_responses = 0;
    used_tools = false;
    slice_usage = no_usage;
    slice_active_ms = 0;
    slice_tool_result_bytes = 0;
    working_summary = [];
    recent_transcript = [];
    evidence = [];
    pending_intents = [];
    receipts = [];
    superseded_execution_ids = [];
    verifier_gaps = [];
    next_actions = [];
    progress = no_progress_yet;
    repository_digest = repository_digest;
    saved_at_ms = now;
  }

  -- `AgentCheckpoint::validate`.
  pub validate : AgentCheckpoint V → Result GoalError (Unit {0})
  validate c =
      if ltb (64 * 1024) (len c.working_summary)
        || ltb 512 (length c.evidence)
        || ltb 512 (length c.receipts)
        || ltb 512 (length c.superseded_execution_ids)
        || ltb 512 (length c.pending_intents)
        || is_empty c.repository_digest
      then err invalid_content
      else ok tt

  pub compact_covered_evidence : AgentCheckpoint V → AgentCheckpoint V
  unfolding compacted
  compact_covered_evidence c = record c { evidence = compacted c.evidence }

  unfoldable pub reset_slice_counters : AgentCheckpoint V → AgentCheckpoint V
  reset_slice_counters c = record c {
    slice_usage = no_usage;
    slice_active_ms = 0;
    slice_tool_result_bytes = 0;
  }

  pub active_budget : AgentGoal V → Result GoalError AgentBudgetAccount
  active_budget g = ok_or (lookup g.model_id g.usage_by_model) invalid_budget

  calls_tools : TranscriptItem V → Bool
  calls_tools (assistant_tool_calls calls) = true
  calls_tools _ = false

  requires_with : AgentGoal V → AgentCompletionCandidate → Bool
  unfolding is_effect calls_tools
  requires_with g candidate =
      candidate.used_tools
      || ltb 1 candidate.model_responses
      || g.checkpoint.used_tools
      || ltb 0 g.checkpoint.model_responses
      || any calls_tools g.checkpoint.recent_transcript
      || ltb 0 g.checkpoint.slice_index
      || ltb 0 (length g.steering_messages)
      || any is_effect g.checkpoint.receipts

  pub requires_independent_verifier : AgentGoal V → Bool
  unfolding requires_with
  requires_independent_verifier g = elim g.completion_candidate [
    | none ↦ false
    | some candidate ↦ requires_with g candidate
  ]

  unfoldable pub unapproved : ToolIntent V → ToolIntent V
  unapproved i = record i { approval_id = none; approved = false }

  unfoldable pub prepare_for_restart : AgentGoal V → ℕ → AgentGoal V
  unfolding unapproved
  prepare_for_restart g now =
      if not (is_terminal g.status) && not (is_blocked g.status)
      then record g {
        status = paused;
        pause_reason = some app_restarted;
        block_reason = none;
        revision = saturating_add g.revision 1;
        updated_at_ms = now;
        checkpoint = record g.checkpoint {
          pending_intents = map unapproved g.checkpoint.pending_intents;
        };
      }
      else g

  unfoldable pub clear_active_working_data : AgentGoal V → AgentGoal V
  unfolding cleared_message reset_slice_counters without_content
  clear_active_working_data g = record g {
    completion_candidate = none;
    checkpoint = record (reset_slice_counters g.checkpoint) {
      pending_intents = [];
      recent_transcript = [];
      working_summary = [];
      next_actions = [];
      verifier_gaps = [];
      evidence = map without_content g.checkpoint.evidence;
    };
    steering_messages = map cleared_message g.steering_messages;
  }

  -- `DurableAgentSession::new`.
  pub new_session : Text → Text → DurableAgentSession V
  new_session session_id repository_identity = record {
    format_version = 1;
    session_id = session_id;
    repository_identity = repository_identity;
    revision = 0;
    memory_summary = none;
    recent_messages = [];
    active_goal = none;
  }
