-- ===== src/Goal/Repository/Changes/Locking.antt =====
-- goal.rs: the expected revision of `mutate_goal` is an optimistic lock.
use git_client.Prelude.{
  ℕ, ◌+◌, ◌≡◌, refl, some, Text, ◌==◌, inl, inr, Bool-cases, Option-cases, Result, ok, err, arith,
  lookup-insert_self,
}
use git_client.Goal.{GoalError, revision_conflict}
use git_client.Goal.Model.{AgentGoal, DurableAgentSession}
use git_client.Goal.Repository.{GoalPersistence, GoalRepository, saved}
use git_client.Goal.Repository.Sessions.{on_session-ok, on_session-refused}
use git_client.Goal.Repository.Changes.{counted, mutated, mutate_in, mutate_goal}

module _ {V D : Type 0} (p : GoalPersistence V D) where
  counted-goal :
      {A : Type 0} (now : ℕ) (d : D) (s : DurableAgentSession V) (g : AgentGoal V) (a b : A)
      → (counted p now d s g a).result ≡ ok b
      → (g' : AgentGoal V) × ((counted p now d s g a).session.active_goal ≡ some g')
        × (g'.revision ≡ g.revision + 1)
  unfolding counted saved
  counted-goal now d s g a b h =
      (record g { revision = g.revision + 1; updated_at_ms = now }, ground arith, refl)

  mutated-goal :
      {A : Type 0} (now : ℕ) (d : D) (s : DurableAgentSession V)
      (out : AgentGoal V × Result GoalError A) (b : A)
      → (mutated p now d s out).result ≡ ok b
      → (g' : AgentGoal V) × ((mutated p now d s out).session.active_goal ≡ some g')
        × (g'.revision ≡ out.0.revision + 1)
  unfolding mutated
  mutated-goal now d s (g, err e) b h = cc
  mutated-goal now d s (g, ok a) b h = counted-goal now d s g a b h

  mutate_in-goal :
      {A : Type 0} (expected now : ℕ) (m : AgentGoal V → AgentGoal V × Result GoalError A) (d : D)
      (s : DurableAgentSession V) (a : A)
      → ((g : AgentGoal V) → (m g).0.revision ≡ g.revision)
      → (mutate_in p (λ g. g.revision == expected) now m d s).result ≡ ok a
      → (g' : AgentGoal V) × ((mutate_in p
            (λ g. g.revision == expected)
            now
            m
            d
            s).session.active_goal
          ≡ some g')
        × (g'.revision ≡ expected + 1)
  unfolding mutate_in mutated
  mutate_in-goal expected now m d s a keeps h = elim (Option-cases s.active_goal) [
    | inl e ↦ absurd (ground arith)
    | inr (g, e) ↦ elim (Bool-cases (g.revision == expected)) [
      | inl b ↦
          let (g', x, y) = mutated-goal now d s (m g) a (ground arith) in
          (g', ground arith, ground (arith, keeps g))
      | inr b ↦ absurd (ground arith)
    ]
  ]

  conflict :
      {A : Type 0} (expected now : ℕ) (m : AgentGoal V → AgentGoal V × Result GoalError A) (d : D)
      (s : DurableAgentSession V) (g : AgentGoal V)
      → s.active_goal ≡ some g
      → g.revision ≡ expected + 1
      → mutate_in p (λ g. g.revision == expected) now m d s
        ≡ record { disk = d; session = s; result = err revision_conflict }
  unfolding mutate_in
  conflict expected now m d s g e h = ground arith

  -- Two writers that expect the same revision: if the first one's mutation, which leaves the
  -- revision alone, was written, the second one is refused with `revision_conflict`, whatever it
  -- wanted to do, and changes nothing.
  pub mutate_goal-twice :
      {A B : Type 0} (r : GoalRepository V D) (id : Text) (expected now later : ℕ)
      (first : AgentGoal V → AgentGoal V × Result GoalError A)
      (second : AgentGoal V → AgentGoal V × Result GoalError B) (a : A)
      → ((g : AgentGoal V) → (first g).0.revision ≡ g.revision)
      → (mutate_goal p r id expected now first).1 ≡ ok a
      → let r' = (mutate_goal p r id expected now first).0 in
        mutate_goal p r' id expected later second ≡ (r', err revision_conflict)
  unfolding mutate_goal
  mutate_goal-twice r id expected now later first second a keeps h =
      let (s, e, k, w) =
        on_session-ok p r id (mutate_in p (λ g. g.revision == expected) now first) a h in
      let (g, x, y) = mutate_in-goal expected now first r.persistence s a keeps k in
      rw w (
        on_session-refused p _ id (mutate_in p (λ g. g.revision == expected) later second) _
          revision_conflict (lookup-insert_self id _ r.sessions)
          (conflict expected later second _ _ g x y))
