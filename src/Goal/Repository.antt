-- ===== src/Goal/Repository.antt =====
-- goal.rs: the repository of durable sessions. A method takes the table and the storage and returns
-- both beside its result; the mutex makes each call one step. The storage `D` with its three
-- operations is a parameter, as the trait `GoalPersistence` is. A method that works on a session in
-- place returns the session as it leaves it, on its error paths too.
pub mod Sessions
pub mod Changes
use git_client.Prelude.{
  ℕ, ◌+◌, ◌*◌, ◌-◌, Bool, true, false, not, ◌&&◌, ◌||◌, List, [], ◌∷◌, ◌++◌, Option, none, some,
  Text, text_eq, length, drop, Map, lookup, insert, ltb, leb, ◌==◌, if◌then◌else◌, Result, ok, err,
  ◌>>=◌, ◌>>◌, fail_if, ok_or, max_u64, saturating_add,
}
use git_client.Session.{user, assistant, SessionMessage}
use git_client.Goal.{
  GoalError, busy, session_not_loaded, goal_not_found, revision_conflict, terminal, capacity,
  unsupported_version, validate_id, validate_content,
}
use git_client.Goal.Budget.{AgentBudgetAccount}
use git_client.Goal.Model.{
  is_terminal, queued, completed, SteeringMessage, AgentGoal, AgentGoalResult, DurableAgentSession,
  empty_checkpoint, prepare_for_restart, clear_active_working_data, new_session,
}

pub record GoalPersistence (V D : Type 0) : Type 0 where
  pub load : D → Text → Result GoalError (Option (DurableAgentSession V))
  pub save : D → DurableAgentSession V → D × Result GoalError (Unit {0})
  pub remove : D → Text → D × Result GoalError (Unit {0})

pub record GoalRepository (V D : Type 0) : Type 0 where
  pub persistence : D
  pub sessions : Map (DurableAgentSession V)

-- What a method leaves of the storage and of its session, and what it returns.
pub record Written (V D A : Type 0) : Type 0 where
  pub disk : D
  pub session : DurableAgentSession V
  pub result : Result GoalError A

module _ {V : Type 0} where
  -- `unwrap_or`.
  stored_or : DurableAgentSession V → Option (DurableAgentSession V) → DurableAgentSession V
  stored_or fresh none = fresh
  stored_or fresh (some s) = s

  pub has_running : DurableAgentSession V → Bool
  has_running s = elim s.active_goal [ none ↦ false | some g ↦ not (is_terminal g.status) ]

  pub new_goal : Text → Text → Text → Text → Text → AgentBudgetAccount → Text → ℕ → AgentGoal V
  new_goal session_id repository_identity goal_id objective model_id account repository_digest now =
      record {
        goal_id = goal_id;
        session_id = session_id;
        objective = objective;
        model_id = model_id;
        repository_identity = repository_identity;
        created_at_ms = now;
        updated_at_ms = now;
        revision = 0;
        status = queued;
        pause_reason = none;
        block_reason = none;
        usage_by_model = (model_id, account) ∷ [];
        steering_messages = [];
        checkpoint = empty_checkpoint repository_digest now;
        completion_candidate = none;
        result = none;
      }

  cleared : DurableAgentSession V → ℕ → DurableAgentSession V
  cleared s revision = record s {
    active_goal = none;
    memory_summary = none;
    recent_messages = [];
    revision = revision;
  }

  pub snapshot : {D : Type 0} → GoalRepository V D → Text → Result GoalError (DurableAgentSession V)
  snapshot r session_id = ok_or (lookup session_id r.sessions) session_not_loaded

module _ {V D : Type 0} (p : GoalPersistence V D) where
  -- The save at the end of a method, and what takes the session back where it fails.
  pub saved : {A : Type 0} → D → DurableAgentSession V → DurableAgentSession V → A → Written V D A
  saved d fallback s a =
      let (d', result) = p.save d s in
      elim result [
        | ok _ ↦ record { disk = d'; session = s; result = ok a }
        | err e ↦ record { disk = d'; session = fallback; result = err e }
      ]

  pub on_session :
      {A : Type 0}
      → GoalRepository V D
      → Text
      → (D → DurableAgentSession V → Written V D A)
      → GoalRepository V D × Result GoalError A
  on_session r id f = elim (lookup id r.sessions) [
    | none ↦ (r, err session_not_loaded)
    | some s ↦
        let w = f r.persistence s in
        (record { persistence = w.disk; sessions = insert id w.session r.sessions }, w.result)
  ]

  -- `load_or_create` on a session that is not in the table.
  found : GoalRepository V D → Text → Text → Result GoalError (DurableAgentSession V)
  found r session_id repository_identity = do
    stored ← p.load r.persistence session_id
    let s = stored_or (new_session session_id repository_identity) stored
    fail_if (not (s.format_version == 1) || not (text_eq s.repository_identity repository_identity))
        unsupported_version
    ok s

  loaded :
      GoalRepository V D
      → Text
      → Result GoalError (DurableAgentSession V)
      → GoalRepository V D × Result GoalError (DurableAgentSession V)
  loaded r session_id (err e) = (r, err e)
  loaded r session_id (ok s) = (record r { sessions = insert session_id s r.sessions }, ok s)

  pub load_or_create :
      GoalRepository V D
      → Text
      → Text
      → GoalRepository V D × Result GoalError (DurableAgentSession V)
  unfolding loaded found stored_or
  load_or_create r session_id repository_identity =
      elim (validate_id session_id >> validate_id repository_identity) [
        | err e ↦ (r, err e)
        | ok _ ↦ elim (lookup session_id r.sessions) [
          | some s ↦ (r, ok s)
          | none ↦ loaded r session_id (found r session_id repository_identity)
        ]
      ]

  -- The rollback of `create_goal` takes the goal away and the revision back; it does not bring back
  -- a goal that was there before.
  create_in : AgentGoal V → D → DurableAgentSession V → Written V D (AgentGoal V)
  unfolding saved has_running
  create_in goal d s =
      if has_running s
      then record { disk = d; session = s; result = err busy }
      else if s.revision == max_u64
      then record {
        disk = d;
        session = record s { active_goal = some goal };
        result = err capacity;
      }
      else saved d (record s { active_goal = none })
          (record s { active_goal = some goal; revision = s.revision + 1 }) goal

  pub create_goal :
      GoalRepository V D
      → Text
      → Text
      → Text
      → Text
      → Text
      → AgentBudgetAccount
      → Text
      → ℕ
      → GoalRepository V D × Result GoalError (AgentGoal V)
  unfolding create_in on_session new_goal
  create_goal r session_id repository_identity goal_id objective model_id account repository_digest
        now =
      elim (validate_id goal_id >> validate_id model_id >> validate_content objective (64 * 1024)) [
        | err e ↦ (r, err e)
        | ok _ ↦ on_session r session_id (
            create_in (
              new_goal session_id repository_identity goal_id objective model_id account
                repository_digest now))
      ]

  reset_in : D → DurableAgentSession V → Written V D (DurableAgentSession V)
  unfolding saved has_running cleared
  reset_in d s =
      if has_running s
      then record { disk = d; session = s; result = err busy }
      else if s.revision == max_u64
      then record { disk = d; session = cleared s s.revision; result = err capacity }
      else saved d s (cleared s (s.revision + 1)) (cleared s (s.revision + 1))

  pub reset_session :
      GoalRepository V D → Text → GoalRepository V D × Result GoalError (DurableAgentSession V)
  unfolding reset_in on_session
  reset_session r session_id = on_session r session_id reset_in
