-- ===== src/RepoContext/Undoing.antt =====
-- repo_context.rs: undo, redo and jumps never lose uncommitted work and keep to the timeline.
use git_client.Prelude.{
  ℕ, ◌+◌, ◌-◌, ◌≡◌, refl, ap, ◌≢◌, ◌⊎◌, inl, inr, Bool, true, false, Outcome, value, panic, Text,
  ltb, arith, Result, ok, err,
}
use git_client.GitError.{GitError, nothing_to_undo, nothing_to_redo}
use git_client.Undo.{UndoKind}
use git_client.UndoNav.{
  UndoNav, NavStep, commit_undo, commit_redo, commit_goto, can_undo, can_redo, point_at,
}
use git_client.RepoContext.{
  RepoContext, GitBackend, ResetMode, soft, hard, bootstrap_hint, reset_to, apply_nav, conclude,
  take_step, synced, proceed, offered, undo, redo, goto,
}

module _ {R : Type 0} (git : GitBackend R) where
  -- `reset'` does what the backend does, but for hard resets of a worktree with changes.
  abbrev pub SparesDirty : (R → Text → ResetMode → R × Result GitError (Unit {0})) → Type 0
  SparesDirty reset' =
      (r : R) (t : Text) (m : ResetMode)
      → (m ≢ hard) ⊎ (git.dirty r ≡ ok 0)
      → reset' r t m ≡ git.reset r t m

  abbrev pub with_reset : (R → Text → ResetMode → R × Result GitError (Unit {0})) → GitBackend R
  with_reset reset' = record git { reset = reset' }

  reset_to-spared :
      (reset' : R → Text → ResetMode → R × Result GitError (Unit {0})) (r : R) (t : Text) (h : Bool)
      → SparesDirty reset'
      → (h ≡ false) ⊎ (git.dirty r ≡ ok 0)
      → reset_to (with_reset reset') r t h ≡ reset_to git r t h
  unfolding reset_to
  reset_to-spared reset' r t true s (inl p) = cc
  reset_to-spared reset' r t true s (inr p) = rw (s r t hard (inr p))
  reset_to-spared reset' r t false s p = rw (s r t soft (inl (λ e. cc)))

  apply_nav-spared :
      (reset' : R → Text → ResetMode → R × Result GitError (Unit {0})) (r : R) (t : Text)
      (kind : UndoKind) (force : Bool)
      → SparesDirty reset'
      → apply_nav (with_reset reset') r t kind force ≡ apply_nav git r t kind force
  unfolding apply_nav
  apply_nav-spared reset' r t kind force s =
      ground (arith, reset_to-spared reset' r t true s, reset_to-spared reset' r t false s)

module _ {R V : Type 0} (git : GitBackend R)
    (reset' : R → Text → ResetMode → R × Result GitError (Unit {0}))
    (spares : SparesDirty git reset') where
  take_step-spared :
      (ctx : RepoContext R V) (force : Bool) (commit : UndoNav → UndoNav)
      (q : Outcome (Result GitError NavStep))
      → take_step (with_reset git reset') ctx force commit q ≡ take_step git ctx force commit q
  unfolding take_step
  take_step-spared ctx force commit panic = refl
  take_step-spared ctx force commit (value (err e)) = refl
  take_step-spared ctx force commit (value (ok s)) =
      ap (λ r. value (conclude git ctx s commit r))
        (apply_nav-spared git reset' ctx.repo s.target_oid s.kind force spares)

  proceed-spared :
      (query : UndoNav → Outcome (Result GitError NavStep)) (force : UndoNav → Bool)
      (commit : UndoNav → UndoNav) (start : RepoContext R V × Result GitError (Unit {0}))
      → proceed (with_reset git reset') query force commit start
        ≡ proceed git query force commit start
  unfolding proceed
  proceed-spared query force commit (ctx, err e) = refl
  proceed-spared query force commit (ctx, ok _) =
      take_step-spared ctx (force ctx.nav) commit (query ctx.nav)

  -- Undo, redo and jumps never make a hard reset while the worktree has changes or its status
  -- cannot be read: they do the same with any backend that differs in such resets alone.
  pub spares_dirty_worktree :
      (ctx : RepoContext R V) (index : ℕ)
      → (undo (with_reset git reset') ctx ≡ undo git ctx)
        × (redo (with_reset git reset') ctx ≡ redo git ctx)
        × (goto (with_reset git reset') ctx index ≡ goto git ctx index)
  unfolding undo redo goto synced bootstrap_hint
  spares_dirty_worktree ctx index = (
    proceed-spared (λ nav. offered (can_undo nav) nothing_to_undo) (λ _. false) commit_undo
        (synced git ctx),
    proceed-spared (λ nav. offered (can_redo nav) nothing_to_redo) (λ _. false) commit_redo
        (synced git ctx),
    proceed-spared (λ nav. offered (point_at nav index) nothing_to_undo)
        (λ nav. ltb 1 ((index - nav.cursor) + (nav.cursor - index))) (λ nav. commit_goto nav index)
        (synced git ctx),
  )
