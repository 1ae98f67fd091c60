-- ===== src/Goal/Repository/Changes/Finality.antt =====
-- goal.rs: a goal that has ended stays as it ended.
use git_client.Prelude.{
  ℕ, ◌≡◌, refl, true, false, none, some, Text, text_eq, text_eq_iff, Option, inl, inr, Option-cases,
  ◌==◌, List, [], ◌∷◌, All, Map, Result, ok, err, arith, lookup, lookup-insert,
}
use git_client.Goal.{GoalError}
use git_client.Goal.Budget.{AgentBudgetAccount}
use git_client.Goal.Model.{
  is_terminal, AgentGoal, AgentGoalResult, DurableAgentSession, prepare_for_restart,
}
use git_client.Goal.Repository.{
  GoalPersistence, GoalRepository, Written, on_session, load_or_create, loaded, found, new_goal,
  create_in, create_goal, reset_in, reset_session,
}
use git_client.Goal.Repository.Sessions.{on_session-some, on_session-none}
use git_client.Goal.Repository.Changes.{
  mutated, mutate_in, mutate_goal, mutate_goal_current, steered, steer, commit_in,
  commit_goal_result, restart_in, restart_all, prepare_loaded_sessions_for_restart,
}
use git_client.Goal.Repository.Changes.Calls.{
  Call, loads, creates, resets, steers, commits, restarts, mutates, mutates_current, outcome, call,
  calls,
}

abbrev pub goal_of : {V : Type 0} → Text → Map (DurableAgentSession V) → Option (AgentGoal V)
goal_of id m = elim (lookup id m) [ none ↦ none | some s ↦ s.active_goal ]

-- What can replace or change the goal that has ended: a new goal of the same session, its reset, and
-- a mutation of its goal, which is the caller's own.
unfoldable pub Spares : {V : Type 0} → Text → Call V → Type 0
Spares id (creates other identity goal_id objective model_id account digest now) =
    text_eq other id ≡ false
Spares id (resets other) = text_eq other id ≡ false
Spares id (mutates other revision now mutation) = text_eq other id ≡ false
Spares id (mutates_current other now mutation) = text_eq other id ≡ false
Spares id _ = Unit

module _ {V D : Type 0} (p : GoalPersistence V D) where
  on_session-goal_of :
      {A : Type 0} (r : GoalRepository V D) (id other : Text) (g : AgentGoal V)
      (f : D → DurableAgentSession V → Written V D A)
      → ((s : DurableAgentSession V)
          → text_eq other id ≡ true
          → s.active_goal ≡ some g
          → (f r.persistence s).session.active_goal ≡ some g)
      → goal_of id r.sessions ≡ some g
      → goal_of id (on_session p r other f).0.sessions ≡ some g
  on_session-goal_of r id other g f keeps w = elim (Option-cases (lookup other r.sessions)) [
    | inl n ↦ rw (on_session-none p r other f n) w
    | inr (s, l) ↦ rw (on_session-some p r other f s l) (
        ground (
          arith,
          lookup-insert other id (f r.persistence s).session r.sessions,
          keeps s,
          text_eq_iff other id,
        ))
  ]

  steer_in-active :
      (revision now : ℕ) (content : Text) (d : D) (s : DurableAgentSession V) (g : AgentGoal V)
      → s.active_goal ≡ some g
      → is_terminal g.status ≡ true
      → (mutate_in p
          (λ g. g.revision == revision)
          now
          (steered content now)
          d
          s).session.active_goal
        ≡ some g
  unfolding mutate_in mutated steered
  steer_in-active revision now content d s g a t = ground arith

  commit_in-active :
      (result : AgentGoalResult) (now : ℕ) (d : D) (s : DurableAgentSession V) (g : AgentGoal V)
      → s.active_goal ≡ some g
      → is_terminal g.status ≡ true
      → (commit_in p result now d s).session.active_goal ≡ some g
  unfolding commit_in
  commit_in-active result now d s g a t = ground arith

  restart_in-active :
      (now : ℕ) (d : D) (s : DurableAgentSession V) (g : AgentGoal V)
      → s.active_goal ≡ some g
      → is_terminal g.status ≡ true
      → (restart_in p now d s).session.active_goal ≡ some g
  unfolding restart_in prepare_for_restart
  restart_in-active now d s g a t = ground arith

  restart_all-active :
      (now : ℕ) (d : D) (m : Map (DurableAgentSession V)) (id : Text) (g : AgentGoal V)
      → goal_of id m ≡ some g
      → is_terminal g.status ≡ true
      → goal_of id (restart_all p d now m).0.sessions ≡ some g
  unfolding restart_all lookup
  restart_all-active now d [] id g a t = cc
  restart_all-active now d ((j, u) ∷ m) id g a t = ground (
    arith,
    restart_in-active now d u g,
    restart_all-active now (restart_in p now d u).disk m id g,
  )

  loaded-goal_of :
      (r : GoalRepository V D) (other id : Text) (q : Result GoalError (DurableAgentSession V))
      (g : AgentGoal V)
      → lookup other r.sessions ≡ none
      → goal_of id r.sessions ≡ some g
      → goal_of id (loaded p r other q).0.sessions ≡ some g
  unfolding loaded
  loaded-goal_of r other id (err e) g n h = h
  loaded-goal_of r other id (ok s) g n h =
      ground (arith, lookup-insert other id s r.sessions, text_eq_iff other id)

  load_or_create-goal_of :
      (r : GoalRepository V D) (other identity id : Text) (g : AgentGoal V)
      → goal_of id r.sessions ≡ some g
      → goal_of id (load_or_create p r other identity).0.sessions ≡ some g
  unfolding load_or_create
  load_or_create-goal_of r other identity id g h =
      ground (arith, loaded-goal_of r other id (found p r other identity) g)

  steer-goal_of :
      (r : GoalRepository V D) (other id : Text) (revision : ℕ) (content : Text) (now : ℕ)
      (g : AgentGoal V)
      → is_terminal g.status ≡ true
      → goal_of id r.sessions ≡ some g
      → goal_of id (steer p r other revision content now).0.sessions ≡ some g
  unfolding steer mutate_goal
  steer-goal_of r other id revision content now g t h = ground (
    arith,
    on_session-goal_of r id other g
        (mutate_in p (λ g. g.revision == revision) now (steered content now))
        (λ s _ a. steer_in-active revision now content r.persistence s g a t) h,
  )

  create_goal-goal_of :
      (r : GoalRepository V D) (other identity goal_id objective model_id : Text)
      (account : AgentBudgetAccount) (digest : Text) (now : ℕ) (id : Text) (g : AgentGoal V)
      → text_eq other id ≡ false
      → goal_of id r.sessions ≡ some g
      → goal_of id
          (create_goal p r other identity goal_id objective model_id account digest now).0.sessions
        ≡ some g
  unfolding create_goal
  create_goal-goal_of r other identity goal_id objective model_id account digest now id g b h =
      let new : AgentGoal V =
        new_goal other identity goal_id objective model_id account digest now in
      ground (arith, on_session-goal_of r id other g (create_in p new) (λ s c _. absurd (cc)) h)

  outcome-fst : {R A : Type 0} (q : R × Result GoalError A) → (outcome q).0 ≡ q.0
  outcome-fst (r, ok a) = refl
  outcome-fst (r, err e) = refl

  call-goal_of :
      (r : GoalRepository V D) (c : Call V) (id : Text) (g : AgentGoal V)
      → Spares id c
      → is_terminal g.status ≡ true
      → goal_of id r.sessions ≡ some g
      → goal_of id (call p r c).0.sessions ≡ some g
  unfolding call Spares reset_session commit_goal_result mutate_goal mutate_goal_current
      prepare_loaded_sessions_for_restart
  call-goal_of r (loads other identity) id g n t h =
      rw (outcome-fst (load_or_create p r other identity))
        (load_or_create-goal_of r other identity id g h)
  call-goal_of r (creates other identity goal_id objective model_id account digest now) id g n t h =
      rw
        (outcome-fst (create_goal p r other identity goal_id objective model_id account digest now))
        (create_goal-goal_of r other identity goal_id objective model_id account digest now id g n
          h)
  call-goal_of r (resets other) id g n t h =
      rw (outcome-fst (reset_session p r other))
        (on_session-goal_of r id other g (reset_in p) (λ s c _. absurd (cc)) h)
  call-goal_of r (steers other revision content now) id g n t h =
      rw (outcome-fst (steer p r other revision content now))
        (steer-goal_of r other id revision content now g t h)
  call-goal_of r (commits other result now) id g n t h =
      rw (outcome-fst (commit_goal_result p r other result now)) (
        on_session-goal_of r id other g (commit_in p result now)
          (λ s _ a. commit_in-active result now r.persistence s g a t) h)
  call-goal_of r (mutates other revision now mutation) id g n t h =
      rw (outcome-fst (mutate_goal p r other revision now mutation)) (
        on_session-goal_of r id other g (mutate_in p (λ g. g.revision == revision) now mutation)
          (λ s c _. absurd (cc)) h)
  call-goal_of r (mutates_current other now mutation) id g n t h =
      rw (outcome-fst (mutate_goal_current p r other now mutation)) (
        on_session-goal_of r id other g (mutate_in p (λ g. true) now mutation)
          (λ s c _. absurd (cc)) h)
  call-goal_of r (restarts now) id g n t h =
      rw (outcome-fst (prepare_loaded_sessions_for_restart p r now))
        (restart_all-active now r.persistence r.sessions id g h t)

  -- A goal that has ended is final: after any calls, failing ones among them, that do not create a
  -- goal of its session, reset that session or apply a mutation to its goal, the session's goal is still the very same.
  pub calls-goal_of :
      (r : GoalRepository V D) (cs : List (Call V)) (id : Text) (g : AgentGoal V)
      → All (Spares id) cs
      → is_terminal g.status ≡ true
      → goal_of id r.sessions ≡ some g
      → goal_of id (calls p r cs).sessions ≡ some g
  unfolding calls
  calls-goal_of r [] id g n t h = h
  calls-goal_of r (c ∷ cs) id g n t h =
      calls-goal_of (call p r c).0 cs id g n.1 t (call-goal_of r c id g n.0 t h)
