-- ===== src/Goal.antt =====
-- crates/agent-session/src/goal.rs: the errors and checks that the goal's parts share.
pub mod Budget
pub mod Progress
pub mod Verdict
pub mod Model
pub mod Repository
mod Tests
use git_client.Prelude.{
  ℕ, Bool, true, false, not, ◌&&◌, ◌||◌, Text, len, is_empty, trim_start, all, any, ltb, leb, ◌==◌,
  if◌then◌else◌, Result, ok, err,
}
use git_client.Session.Store.{is_id_byte}

pub data GoalError : Type 0 where
  invalid_id invalid_content invalid_budget busy session_not_loaded goal_not_found : GoalError
  revision_conflict terminal capacity key_unavailable storage_locked : GoalError
  checkpoint_corrupt unsupported_version storage_unavailable : GoalError

pub validate_id : Text → Result GoalError (Unit {0})
validate_id value =
    if not (is_empty value) && leb (len value) 128 && all is_id_byte value
    then ok tt
    else err invalid_id

-- `value.trim().is_empty()` holds if nothing is left behind the leading white space.
pub validate_content : Text → ℕ → Result GoalError (Unit {0})
validate_content value max_bytes =
    if is_empty (trim_start value) || ltb max_bytes (len value) || any (λ c. c == 0) value
    then err invalid_content
    else ok tt
