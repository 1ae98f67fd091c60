-- ===== src/RepoContext/Recorded.antt =====
-- repo_context.rs: an operation that moved HEAD is undone by a reset to where HEAD was.
use git_client.Prelude.{
  ◌≡◌, refl, ap, ◌∙◌, true, false, Option, some, value, Text, text_eq, arith, Result, ok, ◌>>=◌,
}
use git_client.GitError.{GitError, nothing_to_undo}
use git_client.Undo.{UndoKind, uncommit, restore}
use git_client.UndoNav.{UndoNav, record_op, is_aligned, can_undo, commit_undo}
use git_client.UndoNav.Valid.{IsValid}
use git_client.UndoNav.Navigation.{record-undo, sync-aligned}
use git_client.RepoContext.Cache.{after_write}
use git_client.RepoContext.Walks.{mode_of}
use git_client.RepoContext.{
  RepoContext, GitBackend, head_oid_opt, service_reset, bootstrap_hint, reset_to, apply_nav,
  conclude, take_step, synced, proceed, offered, is_restore, undo, short, recorded, record_nav,
}

module _ {R : Type 0} (git : GitBackend R) where
  apply_nav-done :
      (r r' : R) (t : Text) (kind : UndoKind)
      → service_reset git r t (mode_of (is_restore kind)) ≡ (r', ok tt)
      → (is_restore kind ≡ true → git.dirty r ≡ ok 0)
      → apply_nav git r t kind false ≡ (r', ok (is_restore kind))
  unfolding apply_nav reset_to
  apply_nav-done r r' t uncommit e d = ap (λ p. (p.0, p.1 >>= λ _. ok false)) e
  apply_nav-done r r' t restore e d =
      rw (d refl, apply_nav) (ap (λ p. (p.0, p.1 >>= λ _. ok true)) e)

module _ {R V : Type 0} (git : GitBackend R) where
  -- A context at `after` whose timeline offers to go back to `before`.
  undo-done :
      (ctx : RepoContext R V) (r' : R) (before after label : Text) (kind : UndoKind)
      (boot : Option (Text × Text × UndoKind))
      → head_oid_opt git ctx.repo ≡ some after
      → bootstrap_hint git ctx.repo ≡ ok boot
      → is_aligned ctx.nav after ≡ true
      → can_undo ctx.nav ≡ value (some (record { label = label; target_oid = before; kind = kind }))
      → service_reset git ctx.repo before (mode_of (is_restore kind)) ≡ (r', ok tt)
      → (is_restore kind ≡ true → git.dirty ctx.repo ≡ ok 0)
      → undo git ctx
        ≡ value (
          record { repo = r'; cache = after_write ctx.cache true true; nav = commit_undo ctx.nav },
          ok (record {
            label = label;
            target_short = short before;
            worktree_restored = is_restore kind;
          }),
        )
  unfolding undo
  undo-done ctx r' before after label kind boot h b al q e d =
      ap (proceed git (λ nav. offered (can_undo nav) nothing_to_undo) (λ _. false) commit_undo)
        start
      ∙ step
    where
      start : synced git ctx ≡ (ctx, ok tt)
      start =
          unfold synced in
          ground (arith, h, b, sync-aligned ctx.nav after boot (git.now ctx.repo) al)

      step :
          take_step git ctx false commit_undo (offered (can_undo ctx.nav) nothing_to_undo)
          ≡ value (
            record {
              repo = r';
              cache = after_write ctx.cache true true;
              nav = commit_undo ctx.nav;
            },
            ok (record {
              label = label;
              target_short = short before;
              worktree_restored = is_restore kind;
            }),
          )
      step =
          ap (λ o. take_step git ctx false commit_undo (offered o nothing_to_undo)) q
          ∙ ap
              (λ p. value (
                conclude git ctx (record { label = label; target_oid = before; kind = kind })
                  commit_undo p))
              (apply_nav-done git ctx.repo r' before kind e d)

  -- If an operation such as a commit moved HEAD from `before` to `after`, and the backend then takes
  -- back a reset to `before` (soft for a commit, hard, with a clean worktree, for the operations
  -- that rewrite), then an undo right after it makes that reset, under the operation's label, and
  -- says whether the worktree was restored.
  pub recorded-undo {ℓ} :
      {A : Type ℓ} (write : R → R × Result GitError A) (label : Text) (kind : UndoKind)
      (ctx : RepoContext R V) (r r' : R) (a : A) (before after : Text)
      (boot : Option (Text × Text × UndoKind))
      → IsValid ctx.nav
      → write ctx.repo ≡ (r, ok a)
      → head_oid_opt git ctx.repo ≡ some before
      → head_oid_opt git r ≡ some after
      → text_eq before after ≡ false
      → bootstrap_hint git r ≡ ok boot
      → service_reset git r before (mode_of (is_restore kind)) ≡ (r', ok tt)
      → (is_restore kind ≡ true → git.dirty r ≡ ok 0)
      → (c : RepoContext R V) × (undo git (recorded git write label kind ctx).0
          ≡ value (
            c,
            ok (record {
              label = label;
              target_short = short before;
              worktree_restored = is_restore kind;
            }),
          ))
        × (c.repo ≡ r')
        × (is_aligned (recorded git write label kind ctx).0.nav after ≡ true)
  recorded-undo write label kind ctx r r' a before after boot v w hb ha ne b e d =
      let nav' : UndoNav = record_op ctx.nav (some before) after label kind (git.now r) in
      let ctx' : RepoContext R V = record {
        repo = r;
        cache = after_write ctx.cache true true;
        nav = nav';
      } in
      let (u, _, al) = record-undo ctx.nav before after label kind (git.now r) v ne in
      (
        record { repo = r'; cache = after_write ctx'.cache true true; nav = commit_undo nav' },
        ap (λ c. undo git c) recorded_lem
            ∙ undo-done ctx' r' before after label kind boot ha b al u e d,
        refl,
        ap (λ c. is_aligned c.nav after) recorded_lem ∙ al,
      )
    where
      recorded_lem : (recorded git write label kind ctx).0 ≡ record {
        repo = r;
        cache = after_write ctx.cache true true;
        nav = record_op ctx.nav (some before) after label kind (git.now r);
      }
      recorded_lem = unfold recorded record_nav in ground (arith, w, hb, ha)
