-- ===== src/Goal/Repository/Changes/Failures.antt =====
-- goal.rs: what a method that fails leaves behind.
use git_client.Prelude.{
  ℕ, Bool, ◌≡◌, ◌≢◌, refl, sym, ap, ◌∙◌, true, none, some, Text, inl, inr, Option-cases, Bool-cases,
  ◌==◌, Result, ok, err, arith, lookup, insert, insert-lookup,
}
use git_client.Goal.{GoalError, capacity}
use git_client.Goal.Budget.{AgentBudgetAccount}
use git_client.Goal.Model.{AgentGoal, AgentGoalResult, DurableAgentSession}
use git_client.Goal.Repository.{
  GoalPersistence, GoalRepository, Written, saved, on_session, load_or_create, loaded, new_goal,
  create_in, create_goal, reset_in, reset_session, has_running,
}
use git_client.Goal.Repository.Sessions.{on_session-some, on_session-none}
use git_client.Goal.Repository.Changes.{
  counted, mutated, mutate_in, mutate_goal, mutate_goal_current, steered, steer, commit_in,
  commit_goal_result,
}
use git_client.Goal.Repository.Changes.Calls.{
  Call, loads, creates, resets, steers, commits, restarts, mutates, mutates_current, outcome, call,
}

module _ {V D : Type 0} (p : GoalPersistence V D) where
  -- A failure other than a full counter leaves the session `s`.
  abbrev Restores : {A : Type 0} → DurableAgentSession V → Written V D A → Type 0
  Restores s w = (e : GoalError) → w.result ≡ err e → e ≢ capacity → w.session ≡ s

  saved-Restores :
      {A : Type 0} (d : D) (before s : DurableAgentSession V) (a : A)
      → Restores before (saved p d before s a)
  unfolding saved
  saved-Restores d before s a e h k = ground arith

  reset_in-Restores : (d : D) (s : DurableAgentSession V) → Restores s (reset_in p d s)
  unfolding reset_in saved
  reset_in-Restores d s e h k = ground arith

  create_in-Restores :
      (g : AgentGoal V) (d : D) (s : DurableAgentSession V)
      → s.active_goal ≡ none
      → Restores s (create_in p g d s)
  unfolding create_in has_running saved
  create_in-Restores g d s n e h k = ground arith

  commit_in-Restores :
      (result : AgentGoalResult) (now : ℕ) (d : D) (s : DurableAgentSession V)
      → Restores s (commit_in p result now d s)
  unfolding commit_in saved
  commit_in-Restores result now d s e h k = ground arith

  counted-Restores :
      {A : Type 0} (now : ℕ) (d : D) (s : DurableAgentSession V) (g : AgentGoal V) (a : A)
      → Restores s (counted p now d s g a)
  unfolding counted saved
  counted-Restores now d s g a e h k = ground arith

  steered-keeps :
      (content : Text) (now : ℕ) (g : AgentGoal V) (e : GoalError)
      → (steered content now g).1 ≡ err e
      → (steered content now g).0 ≡ g
  unfolding steered
  steered-keeps content now g e h = ground arith

  -- A mutation that leaves the goal alone where it fails.
  abbrev pub Faithful : {A : Type 0} → (AgentGoal V → AgentGoal V × Result GoalError A) → Type 0
  Faithful m = (g : AgentGoal V) (e : GoalError) → (m g).1 ≡ err e → (m g).0 ≡ g

  mutated-Restores :
      {A : Type 0} (now : ℕ) (d : D) (s : DurableAgentSession V) (g : AgentGoal V)
      (out : AgentGoal V × Result GoalError A)
      → s.active_goal ≡ some g
      → ((e : GoalError) → out.1 ≡ err e → out.0 ≡ g)
      → Restores s (mutated p now d s out)
  unfolding mutated
  mutated-Restores now d s g (g', err x) a keeps e h k =
      ap (λ o. record s { active_goal = o }) (ap some (keeps x refl) ∙ sym a)
  mutated-Restores now d s g (g', ok y) a keeps e h k = counted-Restores now d s g' y e h k

  mutate_in-applied :
      {A : Type 0} (expected : AgentGoal V → Bool) (now : ℕ)
      (m : AgentGoal V → AgentGoal V × Result GoalError A) (d : D) (s : DurableAgentSession V)
      (g : AgentGoal V)
      → s.active_goal ≡ some g
      → expected g ≡ true
      → mutate_in p expected now m d s ≡ mutated p now d s (m g)
  unfolding mutate_in
  mutate_in-applied expected now m d s g a b = ground arith

  mutate_in-Restores :
      {A : Type 0} (expected : AgentGoal V → Bool) (now : ℕ)
      (m : AgentGoal V → AgentGoal V × Result GoalError A) (d : D) (s : DurableAgentSession V)
      → ((g : AgentGoal V) (e : GoalError) → (m g).1 ≡ err e → (m g).0 ≡ g)
      → Restores s (mutate_in p expected now m d s)
  unfolding mutate_in
  mutate_in-Restores expected now m d s keeps e h k = elim (Option-cases s.active_goal) [
    | inl n ↦ ground arith
    | inr (g, a) ↦ elim (Bool-cases (expected g)) [
      | inl b ↦
          let q = mutate_in-applied expected now m d s g a b in
          ap (λ w. w.session) q
          ∙ mutated-Restores now d s g (m g) a (keeps g) e (sym (ap (λ w. w.result) q) ∙ h) k
      | inr b ↦ ground arith
    ]
  ]

  on_session-Restores :
      {A : Type 0} (r : GoalRepository V D) (id : Text)
      (f : D → DurableAgentSession V → Written V D A) (e : GoalError)
      → ((s : DurableAgentSession V)
          → lookup id r.sessions ≡ some s
          → Restores s (f r.persistence s))
      → (on_session p r id f).1 ≡ err e
      → e ≢ capacity
      → (on_session p r id f).0.sessions ≡ r.sessions
  on_session-Restores r id f e restores h k = elim (Option-cases (lookup id r.sessions)) [
    | inl n ↦ ap (λ q. q.0.sessions) (on_session-none p r id f n)
    | inr (s, l) ↦
        let q = on_session-some p r id f s l in
        let w = restores s l e (ground (arith, q, h)) k in
        ap (λ q. q.0.sessions) q
        ∙ ap (λ x. insert id x r.sessions) w
        ∙ insert-lookup id s r.sessions l
  ]

  -- What a call needs for its failure to leave the table alone: a restart stops half-way, a new goal
  -- takes the place of an earlier one, and what a mutation did before it failed stays.
  unfoldable pub IsRestoring : GoalRepository V D → Call V → Type 0
  IsRestoring r (creates id identity goal_id objective model_id account digest now) =
      (s : DurableAgentSession V) → lookup id r.sessions ≡ some s → s.active_goal ≡ none
  IsRestoring r (restarts now) = ⊥
  IsRestoring r (mutates id revision now mutation) = Faithful mutation
  IsRestoring r (mutates_current id now mutation) = Faithful mutation
  IsRestoring r _ = Unit

  load_or_create-Restores :
      (r : GoalRepository V D) (id identity : Text) (e : GoalError)
      → (load_or_create p r id identity).1 ≡ err e
      → (load_or_create p r id identity).0 ≡ r
  unfolding load_or_create loaded
  load_or_create-Restores r id identity e h = ground arith

  steer-Restores :
      (r : GoalRepository V D) (id : Text) (revision : ℕ) (content : Text) (now : ℕ) (e : GoalError)
      → (steer p r id revision content now).1 ≡ err e
      → e ≢ capacity
      → (steer p r id revision content now).0.sessions ≡ r.sessions
  unfolding steer mutate_goal
  steer-Restores r id revision content now e h k = ground (arith, changed)
    where
      changed :
          (on_session p r id
              (mutate_in p (λ g. g.revision == revision) now (steered content now))).1
            ≡ err e
          → (on_session p r id
              (mutate_in p (λ g. g.revision == revision) now (steered content now))).0.sessions
            ≡ r.sessions
      changed x =
          on_session-Restores r id
            (mutate_in p (λ g. g.revision == revision) now (steered content now)) e
            (λ s _.
              mutate_in-Restores (λ g. g.revision == revision) now (steered content now)
                r.persistence s (steered-keeps content now))
            x k

  create_goal-Restores :
      (r : GoalRepository V D) (id identity goal_id objective model_id : Text)
      (account : AgentBudgetAccount) (digest : Text) (now : ℕ) (e : GoalError)
      → ((s : DurableAgentSession V) → lookup id r.sessions ≡ some s → s.active_goal ≡ none)
      → (create_goal p r id identity goal_id objective model_id account digest now).1 ≡ err e
      → e ≢ capacity
      → (create_goal p r id identity goal_id objective model_id account digest now).0.sessions
        ≡ r.sessions
  unfolding create_goal
  create_goal-Restores r id identity goal_id objective model_id account digest now e i h k =
      ground (arith, made (new_goal id identity goal_id objective model_id account digest now))
    where
      made :
          (g : AgentGoal V)
          → (on_session p r id (create_in p g)).1 ≡ err e
          → (on_session p r id (create_in p g)).0.sessions ≡ r.sessions
      made g x =
          on_session-Restores r id (create_in p g) e
            (λ s l. create_in-Restores g r.persistence s (i s l)) x k

  outcome-err :
      {R A : Type 0} (q : R × Result GoalError A) (e : GoalError)
      → (outcome q).1 ≡ err e
      → (q.1 ≡ err e) × ((outcome q).0 ≡ q.0)
  outcome-err (r, ok a) e h = cc
  outcome-err (r, err x) e h = (cc, refl)

  -- A call of the repository that reports an error other than `capacity`, a refused write of the
  -- storage among them, leaves the table of sessions as it was. This leaves out a restart, which stops
  -- half-way, the creation of a goal where there was an earlier one, and a mutation by a closure that
  -- changes the goal and then fails.
  pub call-Restores :
      (r : GoalRepository V D) (c : Call V) (e : GoalError)
      → IsRestoring r c
      → (call p r c).1 ≡ err e
      → e ≢ capacity
      → (call p r c).0.sessions ≡ r.sessions
  unfolding call IsRestoring reset_session commit_goal_result mutate_goal mutate_goal_current
  call-Restores r (loads id identity) e i h k =
      let (x, y) = outcome-err (load_or_create p r id identity) e h in
      ap (λ q. q.sessions) (y ∙ load_or_create-Restores r id identity e x)
  call-Restores r (creates id identity goal_id objective model_id account digest now) e i h k =
      let (x, y) =
        outcome-err (create_goal p r id identity goal_id objective model_id account digest now) e
          h in
      ap (λ q. q.sessions) y
      ∙ create_goal-Restores r id identity goal_id objective model_id account digest now e i x k
  call-Restores r (resets id) e i h k =
      let (x, y) = outcome-err (reset_session p r id) e h in
      ap (λ q. q.sessions) y
      ∙ on_session-Restores r id (reset_in p) e (λ s _. reset_in-Restores r.persistence s) x k
  call-Restores r (steers id revision content now) e i h k =
      let (x, y) = outcome-err (steer p r id revision content now) e h in
      ap (λ q. q.sessions) y ∙ steer-Restores r id revision content now e x k
  call-Restores r (commits id result now) e i h k =
      let (x, y) = outcome-err (commit_goal_result p r id result now) e h in
      ap (λ q. q.sessions) y
      ∙ on_session-Restores r id (commit_in p result now) e
          (λ s _. commit_in-Restores result now r.persistence s) x k
  call-Restores r (mutates id revision now m) e i h k =
      let (x, y) = outcome-err (mutate_goal p r id revision now m) e h in
      ap (λ q. q.sessions) y
      ∙ on_session-Restores r id (mutate_in p (λ g. g.revision == revision) now m) e
          (λ s _. mutate_in-Restores (λ g. g.revision == revision) now m r.persistence s i) x k
  call-Restores r (mutates_current id now m) e i h k =
      let (x, y) = outcome-err (mutate_goal_current p r id now m) e h in
      ap (λ q. q.sessions) y
      ∙ on_session-Restores r id (mutate_in p (λ g. true) now m) e
          (λ s _. mutate_in-Restores (λ g. true) now m r.persistence s i) x k
  call-Restores r (restarts now) e i h k = absurd i
