-- ===== src/Goal/Repository/Changes.antt =====
-- goal.rs: the methods of the repository that change a goal in place.
pub mod Calls
pub mod Locking
pub mod Failures
pub mod Finality
pub mod Committed
pub mod Restart
mod Tests
use git_client.Prelude.{
  ℕ, ◌+◌, ◌*◌, ◌-◌, Bool, true, false, not, ◌&&◌, ◌||◌, List, [], ◌∷◌, ◌++◌, Option, none, some,
  Text, text_eq, length, drop, Map, lookup, insert, ltb, leb, ◌==◌, if◌then◌else◌, Result, ok, err,
  ◌>>=◌, ◌>>◌, fail_if, ok_or, max_u64, saturating_add,
}
use git_client.Session.{user, assistant, SessionMessage}
use git_client.Goal.{
  GoalError, busy, session_not_loaded, goal_not_found, revision_conflict, terminal, capacity,
  unsupported_version, validate_id, validate_content,
}
use git_client.Goal.Budget.{AgentBudgetAccount}
use git_client.Goal.Model.{
  is_terminal, queued, completed, SteeringMessage, AgentGoal, AgentGoalResult, DurableAgentSession,
  empty_checkpoint, prepare_for_restart, clear_active_working_data, new_session,
}
use git_client.Goal.Repository.{GoalPersistence, GoalRepository, Written, saved, on_session}

-- The last sixteen messages, with the turn that the goal was.
recent : List SessionMessage → Text → Text → List SessionMessage
recent messages asked answered =
    let all =
      messages
      ++ record { role = user; content = asked }
        ∷ record { role = assistant; content = answered }
        ∷ [] in
    if ltb 16 (length all) then drop (length all - 16) all else all

module _ {V : Type 0} where
  pub steered : Text → ℕ → AgentGoal V → AgentGoal V × Result GoalError SteeringMessage
  steered content now g =
      let message : SteeringMessage = record {
        sequence = length g.steering_messages + 1;
        created_at_ms = now;
        content = content;
        injected = false;
      } in
      if is_terminal g.status
      then (g, err terminal)
      else (record g { steering_messages = g.steering_messages ++ message ∷ [] }, ok message)

  -- The goal of `commit_goal_result`, up to its revision and what follows that.
  resolved : AgentGoal V → AgentGoalResult → AgentGoal V
  resolved g result = record g {
    result = some result;
    status = completed;
    pause_reason = none;
    block_reason = none;
  }

  -- The session of `commit_goal_result`, up to its revision.
  committed : DurableAgentSession V → AgentGoal V → AgentGoalResult → ℕ → DurableAgentSession V
  unfolding resolved recent
  committed s g result now = record s {
    active_goal = some (
        clear_active_working_data
          (record (resolved g result) { revision = g.revision + 1; updated_at_ms = now }));
    recent_messages = recent s.recent_messages g.objective result.text;
  }

module _ {V D : Type 0} (p : GoalPersistence V D) where
  -- The end of a mutation that did not fail, on the session `before` it and the mutated goal.
  counted : {A : Type 0} → ℕ → D → DurableAgentSession V → AgentGoal V → A → Written V D A
  unfolding saved
  counted now d before g a =
      if g.revision == max_u64
      then record {
        disk = d;
        session = record before { active_goal = some g };
        result = err capacity;
      }
      else let s = record before {
        active_goal = some (record g { revision = g.revision + 1; updated_at_ms = now });
      } in
        if before.revision == max_u64
        then record { disk = d; session = s; result = err capacity }
        else saved p d before (record s { revision = before.revision + 1 }) a

  -- What the closure did to the goal stays where it fails.
  mutated :
      {A : Type 0}
      → ℕ
      → D
      → DurableAgentSession V
      → AgentGoal V × Result GoalError A
      → Written V D A
  unfolding counted
  mutated now d before (g, err e) = record {
    disk = d;
    session = record before { active_goal = some g };
    result = err e;
  }
  mutated now d before (g, ok a) = counted now d before g a

  mutate_in :
      {A : Type 0}
      → (AgentGoal V → Bool)
      → ℕ
      → (AgentGoal V → AgentGoal V × Result GoalError A)
      → D
      → DurableAgentSession V
      → Written V D A
  unfolding mutated
  mutate_in expected now mutation d s = elim s.active_goal [
    | none ↦ record { disk = d; session = s; result = err goal_not_found }
    | some g ↦
        if not (expected g)
        then record { disk = d; session = s; result = err revision_conflict }
        else mutated now d s (mutation g)
  ]

  pub mutate_goal :
      {A : Type 0}
      → GoalRepository V D
      → Text
      → ℕ
      → ℕ
      → (AgentGoal V → AgentGoal V × Result GoalError A)
      → GoalRepository V D × Result GoalError A
  unfolding mutate_in on_session
  mutate_goal r session_id expected_revision now mutation =
      on_session p r session_id (mutate_in (λ g. g.revision == expected_revision) now mutation)

  pub mutate_goal_current :
      {A : Type 0}
      → GoalRepository V D
      → Text
      → ℕ
      → (AgentGoal V → AgentGoal V × Result GoalError A)
      → GoalRepository V D × Result GoalError A
  unfolding mutate_in on_session
  mutate_goal_current r session_id now mutation =
      on_session p r session_id (mutate_in (λ g. true) now mutation)

  pub steer :
      GoalRepository V D
      → Text
      → ℕ
      → Text
      → ℕ
      → GoalRepository V D × Result GoalError SteeringMessage
  unfolding mutate_goal steered
  steer r session_id expected_revision content now = elim (validate_content content (64 * 1024)) [
    | err e ↦ (r, err e)
    | ok _ ↦ mutate_goal r session_id expected_revision now (steered content now)
  ]

  commit_in : AgentGoalResult → ℕ → D → DurableAgentSession V → Written V D (DurableAgentSession V)
  unfolding committed saved
  commit_in result now d s = elim s.active_goal [
    | none ↦ record { disk = d; session = s; result = err goal_not_found }
    | some g ↦
        if is_terminal g.status
        then record { disk = d; session = s; result = err terminal }
        else if g.revision == max_u64
        then record {
          disk = d;
          session = record s { active_goal = some (resolved g result) };
          result = err capacity;
        }
        else if s.revision == max_u64
        then record { disk = d; session = committed s g result now; result = err capacity }
        else let next = record (committed s g result now) { revision = s.revision + 1 } in
          saved p d s next next
  ]

  pub commit_goal_result :
      GoalRepository V D
      → Text
      → AgentGoalResult
      → ℕ
      → GoalRepository V D × Result GoalError (DurableAgentSession V)
  unfolding commit_in on_session
  commit_goal_result r session_id result now = on_session p r session_id (commit_in result now)

  restart_in : ℕ → D → DurableAgentSession V → Written V D (Unit {0})
  unfolding saved
  restart_in now d s = elim s.active_goal [
    | none ↦ record { disk = d; session = s; result = ok tt }
    | some g ↦
        let g' = prepare_for_restart g now in
        let s' = record s { active_goal = some g' } in
        if g'.revision == g.revision
        then record { disk = d; session = s'; result = ok tt }
        else saved p d s (record s' { revision = saturating_add s.revision 1 }) tt
  ]

  -- The first session that cannot be saved ends the loop.
  restart_all :
      D → ℕ → Map (DurableAgentSession V) → GoalRepository V D × Result GoalError (Unit {0})
  unfolding restart_in
  restart_all d now [] = (record { persistence = d; sessions = [] }, ok tt)
  restart_all d now ((id, s) ∷ rest) =
      let w = restart_in now d s in
      let (r, result) = restart_all w.disk now rest in
      elim w.result [
        | err e ↦ (record { persistence = w.disk; sessions = (id, w.session) ∷ rest }, err e)
        | ok _ ↦ (record r { sessions = (id, w.session) ∷ r.sessions }, result)
      ]

  pub prepare_loaded_sessions_for_restart :
      GoalRepository V D → ℕ → GoalRepository V D × Result GoalError (Unit {0})
  unfolding restart_all
  prepare_loaded_sessions_for_restart r now = restart_all r.persistence now r.sessions
