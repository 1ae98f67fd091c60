-- ===== src/RepoContext/Tests.antt =====
-- Tests of repo_context.rs over a small backend, and the theorems at it.
use git_client.Prelude.{
  ℕ, zero, suc, ◌≡◌, ◌≢◌, ◌⊎◌, true, false, refl, inl, inr, List, [], ◌∷◌, none, some, value, pos,
  Text, codes, trim_start, is_whitespace, take, Result, ok, err, arith,
}
use git_client.GitError.{GitError, no_head}
use git_client.Undo.{uncommit, classify_undoable, first_token}
use git_client.UndoNav.{NavStep, default, is_aligned, commit_undo, commit_redo, can_undo, can_redo}
use git_client.RepoContext.Cache.{RepoCache}
use git_client.RepoContext.{
  RepoContext, GitBackend, ReflogEntry, ResetMode, soft, mixed, hard, head_oid_opt, service_reset,
  bootstrap_hint, record_nav, synced, UndoStateDto, UndoStepDto, undo, redo, goto, recorded, short,
  is_restore,
}
use git_client.RepoContext.Undoing.{spares_dirty_worktree, with_reset}
use git_client.RepoContext.Walks.{Returns, mode_of, undo-redo_walk}
use git_client.RepoContext.Recorded.{recorded-undo}
use git_client.RepoContext.State.{preview, undo_state}
use git_client.RepoContext.State.Announced.{undo_state-in_line, undo_state-announces}
use git_client.RepoContext.State.Walking.{side}
use git_client.UndoNav.Valid.{IsValid, record_op-IsValid}
use git_client.UndoNav.Navigation.{record-undo}

-- A repository: its reflog, newest first, and the number of changed files.
record Repo : Type 0 where
  entries : List ReflogEntry
  changes : ℕ

abbrev head_of : List ReflogEntry → Result GitError Text
head_of [] = err no_head
head_of (e ∷ es) = ok e.new_oid

abbrev move_head : Repo → Text → Text → Repo
move_head r oid message = record r {
  entries = record { new_oid = oid; message = message } ∷ r.entries;
}

abbrev demo : GitBackend Repo
demo = record {
  head_commit = λ r. head_of r.entries;
  reflog = λ r n. ok (take n r.entries);
  dirty = λ r. ok r.changes;
  reset = λ r t m. (move_head r t (codes "reset: moving"), ok tt);
  now = λ r. pos 0;
}

abbrev no_cache : RepoCache ℕ
no_cache = record {
  commit_files = [];
  commit_diff = [];
  status = some 1;
  working_diff = [];
  graph = [];
  log = [];
  refs = none;
  branches = none;
  current_branch = none;
  ahead_behind = none;
  compare_files = [];
  compare_diff = [];
  file_history = [];
  line_history = [];
  pickaxe = [];
  blame = [];
}

abbrev at_a : RepoContext Repo ℕ
at_a = record {
  repo = record {
    entries = record { new_oid = codes "a"; message = codes "checkout: x" } ∷ [];
    changes = 2;
  };
  cache = no_cache;
  nav = default;
}

abbrev make_b : Repo → Repo × Result GitError (Unit {0})
make_b r = (move_head r (codes "b") (codes "commit: b"), ok tt)

-- Instead of a hard reset over changes, this backend would drop the history.
abbrev reckless_reset : ResetMode → ℕ → Repo → Text → Repo × Result GitError (Unit {0})
reckless_reset hard (suc n) r t = (record r { entries = [] }, ok tt)
reckless_reset _ _ r t = demo.reset r t soft

reckless-spares :
    (r : Repo) (t : Text) (m : ResetMode)
    → (m ≢ hard) ⊎ (demo.dirty r ≡ ok 0)
    → reckless_reset m r.changes r t ≡ demo.reset r t m
reckless-spares r t soft h = refl
reckless-spares r t mixed h = refl
reckless-spares r t hard h = go r.changes h
  where
    go :
        (n : ℕ)
        → (hard ≢ hard) ⊎ (◌≡◌ {A = Result GitError ℕ} (ok n) (ok 0))
        → reckless_reset hard n r t ≡ demo.reset r t hard
    go zero h = refl
    go (suc n) (inl h) = absurd (h refl)
    go (suc n) (inr h) = ground arith

spares_dirty_worktree_example :
    let other = with_reset demo (λ r t m. reckless_reset m r.changes r t) in
    (undo other at_a ≡ undo demo at_a)
    × (redo other at_a ≡ redo demo at_a)
    × (goto other at_a 0 ≡ goto demo at_a 0)
spares_dirty_worktree_example =
    spares_dirty_worktree demo (λ r t m. reckless_reset m r.changes r t) reckless-spares at_a 0

undo-redo_walk_example :
    Returns demo at_a can_undo commit_undo (undo demo at_a)
    × Returns demo at_a can_redo commit_redo (redo demo at_a)
    × ((head : Text)
        → head_oid_opt demo at_a.repo ≡ some head
        → is_aligned at_a.nav head ≡ true
        → (synced demo at_a).0.nav ≡ at_a.nav)
undo-redo_walk_example = undo-redo_walk demo at_a (inr (refl, refl))

abbrev committed : RepoContext Repo ℕ
committed = (recorded demo make_b (codes "提交") uncommit at_a).0

abbrev answer : UndoStepDto
answer = record { label = codes "提交"; target_short = short (codes "a"); worktree_restored = false }

abbrev Undone : Type 0
Undone =
    (c : RepoContext Repo ℕ) × (undo demo committed
      ≡ value (
        c,
        ok (record {
          label = codes "提交";
          target_short = short (codes "a");
          worktree_restored = false;
        }),
      ))
    × (c.repo ≡ (demo.reset (make_b at_a.repo).0 (codes "a") soft).0)
    × (is_aligned committed.nav (codes "b") ≡ true)

recorded-undo_example : Undone
unfolding head_oid_opt bootstrap_hint service_reset classify_undoable first_token is_whitespace
    trim_start is_restore
recorded-undo_example =
    recorded-undo demo make_b (codes "提交") uncommit at_a (make_b at_a.repo).0
      (demo.reset (make_b at_a.repo).0 (codes "a") soft).0 tt (codes "a") (codes "b")
      (some (codes "a", codes "提交", uncommit)) (inr (refl, refl)) refl refl refl refl refl refl
      (λ e. cc)

undone : Undone
unfolding head_oid_opt bootstrap_hint service_reset classify_undoable first_token is_whitespace
    trim_start is_restore
undone =
    recorded-undo demo make_b (codes "提交") uncommit at_a (make_b at_a.repo).0
      (demo.reset (make_b at_a.repo).0 (codes "a") soft).0 tt (codes "a") (codes "b")
      (some (codes "a", codes "提交", uncommit)) (inr (refl, refl)) refl refl refl refl refl refl
      (λ e. cc)

committed-IsValid : IsValid committed.nav
unfolding recorded record_nav head_oid_opt
committed-IsValid =
    record_op-IsValid default (some (codes "a")) (codes "b") (codes "提交") uncommit (pos 0)
      (inr (refl, refl))

abbrev announced : UndoStateDto
announced = record { can_undo = some answer; can_redo = none }

shown : undo_state demo committed ≡ value (committed, ok announced)
unfolding recorded record_nav head_oid_opt is_restore
shown =
    let (u, r, a) =
      record-undo default (codes "a") (codes "b") (codes "提交") uncommit (pos 0) (inr (refl, refl))
        refl in
    undo_state-in_line demo committed (codes "b") _ none refl a u r

undo_state-announces_example :
    (side demo committed false announced ≡ some answer)
    × (t : NavStep) × (can_undo committed.nav ≡ value (some t))
    × (preview t ≡ answer)
    × (service_reset demo committed.repo t.target_oid (mode_of (is_restore t.kind))
        ≡ (undone.0.repo, ok tt))
undo_state-announces_example =
    undo_state-announces demo false committed committed undone.0 announced answer committed-IsValid
      shown undone.1
