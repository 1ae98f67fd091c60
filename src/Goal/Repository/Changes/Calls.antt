-- ===== src/Goal/Repository/Changes/Calls.antt =====
-- goal.rs: the calls of the repository, as values, for theorems on any sequence of them.
use git_client.Prelude.{ℕ, Text, List, [], ◌∷◌, Result, ok, err}
use git_client.Goal.{GoalError}
use git_client.Goal.Budget.{AgentBudgetAccount}
use git_client.Goal.Model.{AgentGoal, AgentGoalResult}
use git_client.Goal.Repository.{
  GoalPersistence, GoalRepository, load_or_create, create_goal, reset_session,
}
use git_client.Goal.Repository.Changes.{
  mutate_goal, mutate_goal_current, steer, commit_goal_result, prepare_loaded_sessions_for_restart,
}

-- A mutation may change the goal in any way and fail; the value it returns makes no difference here.
abbrev pub Mutation : Type 0 → Type 0
Mutation V = AgentGoal V → AgentGoal V × Result GoalError (Unit {0})

pub data Call (V : Type 0) : Type 0 where
  loads : (session_id repository_identity : Text) → Call V
  creates :
      (session_id repository_identity goal_id objective model_id : Text)
      (account : AgentBudgetAccount) (repository_digest : Text) (now : ℕ)
      → Call V
  resets : (session_id : Text) → Call V
  steers : (session_id : Text) (expected_revision : ℕ) (content : Text) (now : ℕ) → Call V
  commits : (session_id : Text) (result : AgentGoalResult) (now : ℕ) → Call V
  restarts : (now : ℕ) → Call V
  mutates : (session_id : Text) (expected_revision now : ℕ) (mutation : Mutation V) → Call V
  mutates_current : (session_id : Text) (now : ℕ) (mutation : Mutation V) → Call V

-- The result without its value.
abbrev pub outcome : {R A : Type 0} → R × Result GoalError A → R × Result GoalError (Unit {0})
outcome (r, ok a) = (r, ok tt)
outcome (r, err e) = (r, err e)

module _ {V D : Type 0} (p : GoalPersistence V D) where
  unfoldable pub call :
      GoalRepository V D → Call V → GoalRepository V D × Result GoalError (Unit {0})
  call r (loads id identity) = outcome (load_or_create p r id identity)
  call r (creates id identity goal_id objective model_id account digest now) =
      outcome (create_goal p r id identity goal_id objective model_id account digest now)
  call r (resets id) = outcome (reset_session p r id)
  call r (steers id revision content now) = outcome (steer p r id revision content now)
  call r (commits id result now) = outcome (commit_goal_result p r id result now)
  call r (mutates id revision now mutation) = outcome (mutate_goal p r id revision now mutation)
  call r (mutates_current id now mutation) = outcome (mutate_goal_current p r id now mutation)
  call r (restarts now) = outcome (prepare_loaded_sessions_for_restart p r now)

  unfoldable pub calls : GoalRepository V D → List (Call V) → GoalRepository V D
  unfolding call
  calls r [] = r
  calls r (c ∷ cs) = calls (call r c).0 cs
