-- ===== src/RepoContext.antt =====
-- crates/app-service/src/repo_context.rs, its undo and redo over the operation timeline, with the
-- calls of crates/app-service/src/lib.rs that it makes. The backend is a parameter: a record of the
-- `GitBackend` calls over an abstract repository. A method returns its result and the new context.
pub mod Cache
pub mod Undoing
pub mod Walks
pub mod Recorded
pub mod State
mod Tests
use git_client.Prelude.{
  ℕ, ◌+◌, ◌-◌, Bool, true, false, ◌||◌, List, [], ◌∷◌, Option, none, some, Outcome, value, panic, ℤ,
  Text, codes, is_empty, trim_start, ltb, if◌then◌else◌, take, Result, ok, err, ◌>>=◌, to_option,
}
use git_client.GitError.{
  GitError, no_head, nothing_to_undo, nothing_to_redo, uncommitted_changes, backend,
}
use git_client.Undo.{UndoKind, uncommit, restore, classify_undoable}
use git_client.UndoNav
use git_client.UndoNav.{
  UndoNav, NavStep, sync, record_op, point_at, can_undo, can_redo, commit_undo, commit_redo,
  commit_goto,
}
use Cache.{RepoCache, after_write}

pub data ResetMode : Type 0 where
  soft mixed hard : ResetMode

pub record ReflogEntry : Type 0 where
  pub new_oid : Text
  pub message : Text

-- The backend over a repository `R`. A write returns the repository that it leaves, also where it
-- fails; `dirty` is the number of entries of `status`, `now` the clock.
pub record GitBackend (R : Type 0) : Type 0 where
  pub head_commit : R → Result GitError Text
  pub reflog : R → ℕ → Result GitError (List ReflogEntry)
  pub dirty : R → Result GitError ℕ
  pub reset : R → Text → ResetMode → R × Result GitError (Unit {0})
  pub now : R → ℤ

pub record RepoContext (R V : Type 0) : Type 0 where
  pub repo : R
  pub cache : RepoCache V
  pub nav : UndoNav

pub record UndoStepDto : Type 0 where
  pub label : Text
  pub target_short : Text
  pub worktree_restored : Bool

pub record UndoStateDto : Type 0 where
  pub can_undo : Option UndoStepDto
  pub can_redo : Option UndoStepDto

pub is_restore : UndoKind → Bool
is_restore uncommit = false
is_restore restore = true

-- `RepoContext::short`: the first seven characters.
pub short : Text → Text
short oid = take 7 oid

hint_of : List ReflogEntry → Option (Text × Text × UndoKind)
hint_of [] = none
hint_of (top ∷ []) = none
hint_of (top ∷ prev ∷ rest) = elim (classify_undoable top.message) [
  | none ↦ none
  | some (label, kind) ↦ some (prev.new_oid, label, kind)
]

-- A panic of the timeline does not return; it is passed on.
offered : Outcome (Option NavStep) → GitError → Outcome (Result GitError NavStep)
offered panic e = panic
offered (value none) e = value (err e)
offered (value (some s)) e = value (ok s)

module _ {R : Type 0} (git : GitBackend R) where
  open git use {head_commit, reflog, dirty, reset}

  pub head_oid_opt : R → Option Text
  head_oid_opt r = to_option (head_commit r)

  -- `RepoService::reset`.
  pub service_reset : R → Text → ResetMode → R × Result GitError (Unit {0})
  service_reset r commit_id mode =
      if is_empty (trim_start commit_id)
      then (r, err (backend (codes "提交 ID 不能为空")))
      else reset r commit_id mode

  pub bootstrap_hint : R → Result GitError (Option (Text × Text × UndoKind))
  unfolding hint_of
  bootstrap_hint r = do entries ← reflog r 2; ok (hint_of entries)

  reset_to : R → Text → Bool → R × Result GitError Bool
  unfolding service_reset
  reset_to r target h =
      let (r', done) = service_reset r target (if h then hard else soft) in (r', done >>= λ _. ok h)

  pub apply_nav : R → Text → UndoKind → Bool → R × Result GitError Bool
  unfolding is_restore
  apply_nav r target kind force_hard =
      if force_hard || is_restore kind
      then elim (dirty r) [
        | err e ↦ (r, err e)
        | ok n ↦ if ltb 0 n then (r, err (uncommitted_changes n)) else reset_to r target true
      ]
      else reset_to r target false

module _ {R V : Type 0} (git : GitBackend R) where
  pub record_nav : RepoContext R V → Option Text → Text → UndoKind → RepoContext R V
  unfolding head_oid_opt
  record_nav ctx before label kind = elim (head_oid_opt git ctx.repo) [
    | none ↦ ctx
    | some after ↦ record ctx { nav = record_op ctx.nav before after label kind (git.now ctx.repo) }
  ]

  -- The timeline moves, and the caches are cleared, only if the reset succeeded.
  conclude :
      RepoContext R V
      → NavStep
      → (UndoNav → UndoNav)
      → R × Result GitError Bool
      → RepoContext R V × Result GitError UndoStepDto
  unfolding short
  conclude ctx s commit (r, err e) = (record ctx { repo = r }, err e)
  conclude ctx s commit (r, ok restored) = (
    record { repo = r; cache = after_write ctx.cache true true; nav = commit ctx.nav },
    ok (record {
      label = s.label;
      target_short = short s.target_oid;
      worktree_restored = restored;
    }),
  )

  -- `head_oid_opt().ok_or(NoHead)?`, `bootstrap_hint()?` and `nav.sync`.
  pub synced : RepoContext R V → RepoContext R V × Result GitError (Unit {0})
  unfolding head_oid_opt
  synced ctx = elim (head_oid_opt git ctx.repo) [
    | none ↦ (ctx, err no_head)
    | some head ↦ elim (bootstrap_hint git ctx.repo) [
      | err e ↦ (ctx, err e)
      | ok boot ↦ (record ctx { nav = sync ctx.nav head boot (git.now ctx.repo) }, ok tt)
    ]
  ]

  take_step :
      RepoContext R V
      → Bool
      → (UndoNav → UndoNav)
      → Outcome (Result GitError NavStep)
      → Outcome (RepoContext R V × Result GitError UndoStepDto)
  unfolding conclude
  take_step ctx force commit panic = panic
  take_step ctx force commit (value (err e)) = value (ctx, err e)
  take_step ctx force commit (value (ok s)) =
      value (conclude ctx s commit (apply_nav git ctx.repo s.target_oid s.kind force))

  -- The common body of `undo`, `redo` and `goto`.
  proceed :
      (UndoNav → Outcome (Result GitError NavStep))
      → (UndoNav → Bool)
      → (UndoNav → UndoNav)
      → RepoContext R V × Result GitError (Unit {0})
      → Outcome (RepoContext R V × Result GitError UndoStepDto)
  unfolding take_step
  proceed query force commit (ctx, err e) = value (ctx, err e)
  proceed query force commit (ctx, ok _) = take_step ctx (force ctx.nav) commit (query ctx.nav)

  pub undo : RepoContext R V → Outcome (RepoContext R V × Result GitError UndoStepDto)
  unfolding proceed offered
  undo ctx =
      proceed (λ nav. offered (can_undo nav) nothing_to_undo) (λ _. false) commit_undo (synced ctx)

  pub redo : RepoContext R V → Outcome (RepoContext R V × Result GitError UndoStepDto)
  unfolding proceed offered
  redo ctx =
      proceed (λ nav. offered (can_redo nav) nothing_to_redo) (λ _. false) commit_redo (synced ctx)

  -- `index.abs_diff(cur) > 1`.
  pub goto : RepoContext R V → ℕ → Outcome (RepoContext R V × Result GitError UndoStepDto)
  unfolding proceed offered
  goto ctx index =
      proceed (λ nav. offered (point_at nav index) nothing_to_undo)
        (λ nav. ltb 1 ((index - nav.cursor) + (nav.cursor - index))) (λ nav. commit_goto nav index)
        (synced ctx)

  -- A write of the backend that moves HEAD, as `commit`, `cherry_pick` and their like call it.
  pub recorded {ℓ} :
      {A : Type ℓ}
      → (R → R × Result GitError A)
      → Text
      → UndoKind
      → RepoContext R V
      → RepoContext R V × Result GitError A
  unfolding record_nav head_oid_opt
  recorded write label kind ctx =
      let (r, done) = write ctx.repo in
      elim done [
        | err e ↦ (record ctx { repo = r }, err e)
        | ok a ↦ (
          record_nav (record ctx { repo = r; cache = after_write ctx.cache true true })
              (head_oid_opt git ctx.repo) label kind,
          ok a,
        )
      ]

  -- `write` is the call of the service with its arguments.
  module _ {ℓ} {A : Type ℓ} (write : R → R × Result GitError A) (ctx : RepoContext R V) where
    abbrev pub commit : RepoContext R V × Result GitError A
    unfolding recorded
    commit = recorded write (codes "提交") uncommit ctx

    abbrev pub amend_commit : RepoContext R V × Result GitError A
    unfolding recorded
    amend_commit = recorded write (codes "修改提交(amend)") uncommit ctx

    abbrev pub merge_branch : RepoContext R V × Result GitError A
    unfolding recorded
    merge_branch = recorded write (codes "合并(merge)") restore ctx

    abbrev pub pull : RepoContext R V × Result GitError A
    unfolding recorded
    pull = recorded write (codes "拉取(pull)") restore ctx

    abbrev pub cherry_pick : RepoContext R V × Result GitError A
    unfolding recorded
    cherry_pick = recorded write (codes "cherry-pick") restore ctx

    abbrev pub revert : RepoContext R V × Result GitError A
    unfolding recorded
    revert = recorded write (codes "回退提交(revert)") restore ctx

    abbrev pub interactive_rebase : RepoContext R V × Result GitError A
    unfolding recorded
    interactive_rebase = recorded write (codes "变基(rebase)") restore ctx

  abbrev pub reset_head :
      RepoContext R V → Text → ResetMode → RepoContext R V × Result GitError (Unit {0})
  unfolding recorded service_reset
  reset_head ctx commit_id mode =
      recorded (λ r. service_reset git r commit_id mode) (codes "重置(reset)") restore ctx
