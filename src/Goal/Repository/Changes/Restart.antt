-- ===== src/Goal/Repository/Changes/Restart.antt =====
-- goal.rs: what a restart finds.
use git_client.Prelude.{
  ℕ, ◌≡◌, ◌⊎◌, refl, sym, subst, true, false, none, some, Text, Option, inl, inr, Bool-cases,
  Option-cases, List, [], ◌∷◌, All, map, Map, ok, arith,
}
use git_client.ToolRuntime.{ToolIntent}
use git_client.Goal.Model.{
  is_terminal, is_blocked, paused, app_restarted, AgentGoal, DurableAgentSession,
  prepare_for_restart, unapproved,
}
use git_client.Goal.Repository.{GoalPersistence, GoalRepository, saved}
use git_client.Goal.Repository.Changes.{
  restart_in, restart_all, prepare_loaded_sessions_for_restart,
}

module _ {V : Type 0} where
  abbrev pub IsUnapproved : ToolIntent V → Type 0
  IsUnapproved i = (i.approval_id ≡ none) × (i.approved ≡ false)

  -- Nothing of the goal can go on by itself.
  abbrev pub IsStopped : AgentGoal V → Type 0
  IsStopped g =
      (is_terminal g.status ≡ true)
      ⊎ (is_blocked g.status ≡ true)
      ⊎ ((g.status ≡ paused)
          × (g.pause_reason ≡ some app_restarted)
          × (g.block_reason ≡ none)
          × All IsUnapproved g.checkpoint.pending_intents)

  abbrev pub Rests : Option (AgentGoal V) → Type 0
  Rests none = Unit
  Rests (some g) = IsStopped g

  unapproved-IsUnapproved : (is : List (ToolIntent V)) → All IsUnapproved (map unapproved is)
  unfolding unapproved
  unapproved-IsUnapproved [] = tt
  unapproved-IsUnapproved (i ∷ is) = ((refl, refl), unapproved-IsUnapproved is)

  prepare_for_restart-IsStopped :
      (g : AgentGoal V) (now : ℕ) → IsStopped (prepare_for_restart g now)
  unfolding prepare_for_restart
  prepare_for_restart-IsStopped g now = elim (Bool-cases (is_terminal g.status)) [
    | inl t ↦ inl (ground arith)
    | inr t ↦ elim (Bool-cases (is_blocked g.status)) [
      | inl b ↦ inr (inl (ground arith))
      | inr b ↦
          rw (t, b)
            (inr (inr (refl, refl, refl, unapproved-IsUnapproved g.checkpoint.pending_intents)))
    ]
  ]

module _ {V D : Type 0} (p : GoalPersistence V D) where
  restart_in-Rests :
      (now : ℕ) (d : D) (s : DurableAgentSession V)
      → (restart_in p now d s).result ≡ ok tt
      → Rests (restart_in p now d s).session.active_goal
  unfolding restart_in saved
  restart_in-Rests now d s h = elim (Option-cases s.active_goal) [
    | inl n ↦ subst Rests (unchanged n) tt
    | inr (g, e) ↦ subst Rests (prepared g e) (prepare_for_restart-IsStopped g now)
  ]
    where
      unchanged : s.active_goal ≡ none → none ≡ (restart_in p now d s).session.active_goal
      unchanged n = ground arith

      prepared :
          (g : AgentGoal V)
          → s.active_goal ≡ some g
          → some (prepare_for_restart g now) ≡ (restart_in p now d s).session.active_goal
      prepared g e = ground arith

  restart_all-ok :
      (now : ℕ) (d : D) (id : Text) (s : DurableAgentSession V) (m : Map (DurableAgentSession V))
      → (restart_all p d now ((id, s) ∷ m)).1 ≡ ok tt
      → ((restart_in p now d s).result ≡ ok tt)
        × ((restart_all p (restart_in p now d s).disk now m).1 ≡ ok tt)
        × ((restart_all p d now ((id, s) ∷ m)).0.sessions
            ≡ (id, (restart_in p now d s).session)
              ∷ (restart_all p (restart_in p now d s).disk now m).0.sessions)
  unfolding restart_all
  restart_all-ok now d id s m h = ground arith

  restart_all-Rests :
      (now : ℕ) (d : D) (m : Map (DurableAgentSession V))
      → (restart_all p d now m).1 ≡ ok tt
      → All (λ q. Rests q.1.active_goal) (restart_all p d now m).0.sessions
  unfolding restart_all
  restart_all-Rests now d [] h = tt
  restart_all-Rests now d ((id, s) ∷ m) h =
      let (x, y, z) = restart_all-ok now d id s m h in
      subst (All (λ q. Rests q.1.active_goal)) (sym z)
        (restart_in-Rests now d s x, restart_all-Rests now (restart_in p now d s).disk m y)

  -- After a restart that reports no error, in every session there is no goal, or it has ended or is
  -- blocked, or it is paused for the restart and none of its pending tool calls is approved.
  pub restart-Rests :
      (r : GoalRepository V D) (now : ℕ)
      → (prepare_loaded_sessions_for_restart p r now).1 ≡ ok tt
      → All (λ q. Rests q.1.active_goal) (prepare_loaded_sessions_for_restart p r now).0.sessions
  unfolding prepare_loaded_sessions_for_restart
  restart-Rests r now h = restart_all-Rests now r.persistence r.sessions h
