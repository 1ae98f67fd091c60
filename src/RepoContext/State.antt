-- ===== src/RepoContext/State.antt =====
-- repo_context.rs: `undo_state`, what the undo and redo buttons announce.
pub mod Walking
pub mod Announced
use mathlib.Core.Option
use git_client.Prelude.{
  Bool, true, false, Option, none, some, Outcome, value, panic, Text, Result, ok, err,
}
use git_client.GitError.{GitError}
use git_client.Undo.{UndoKind}
use git_client.UndoNav.{NavStep, is_aligned, sync, can_undo, can_redo}
use git_client.RepoContext.{
  GitBackend, RepoContext, UndoStepDto, UndoStateDto, is_restore, short, head_oid_opt,
  bootstrap_hint,
}

-- `to_dto`.
abbrev pub preview : NavStep → UndoStepDto
preview s = record {
  label = s.label;
  target_short = short s.target_oid;
  worktree_restored = is_restore s.kind;
}

module _ {R : Type 0} (git : GitBackend R) where
  -- The reflog is read only if the timeline is not aligned.
  pub hint_unless : Bool → R → Result GitError (Option (Text × Text × UndoKind))
  hint_unless true r = ok none
  hint_unless false r = bootstrap_hint git r

module _ {R V : Type 0} (git : GitBackend R) where
  states :
      RepoContext R V
      → Outcome (Option NavStep)
      → Outcome (Option NavStep)
      → Outcome (RepoContext R V × Result GitError UndoStateDto)
  states ctx panic r = panic
  states ctx (value u) panic = panic
  states ctx (value u) (value r) =
      value (ctx, ok (record { can_undo = Option.map preview u; can_redo = Option.map preview r }))

  pub state_with :
      RepoContext R V
      → Text
      → Result GitError (Option (Text × Text × UndoKind))
      → Outcome (RepoContext R V × Result GitError UndoStateDto)
  unfolding states
  state_with ctx head (err e) = value (ctx, err e)
  state_with ctx head (ok boot) =
      let nav = sync ctx.nav head boot (git.now ctx.repo) in
      states (record ctx { nav = nav }) (can_undo nav) (can_redo nav)

  state_at :
      RepoContext R V → Option Text → Outcome (RepoContext R V × Result GitError UndoStateDto)
  unfolding state_with hint_unless
  state_at ctx none = value (ctx, ok (record { can_undo = none; can_redo = none }))
  state_at ctx (some head) =
      state_with ctx head (hint_unless git (is_aligned ctx.nav head) ctx.repo)

  pub undo_state : RepoContext R V → Outcome (RepoContext R V × Result GitError UndoStateDto)
  unfolding state_at
  undo_state ctx = state_at ctx (head_oid_opt git ctx.repo)
