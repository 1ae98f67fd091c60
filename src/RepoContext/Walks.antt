-- ===== src/RepoContext/Walks.antt =====
-- repo_context.rs: what an undo or a redo has done when it returns.
use git_client.Prelude.{
  ℕ, zero, suc, ◌≡◌, refl, sym, ap, ◌∙◌, ◌⊎◌, inl, inr, Bool, true, false, Option, none, some,
  Outcome, value, Text, if◌then◌else◌, arith, Result, ok, err, ◌>>=◌, Result-cases,
}
use git_client.GitError.{GitError, no_head, nothing_to_undo, nothing_to_redo, uncommitted_changes}
use git_client.Undo.{UndoKind, uncommit, restore}
use git_client.UndoNav.{
  UndoNav, NavStep, sync, is_aligned, commit_undo, commit_redo, can_undo, can_redo,
}
use git_client.UndoNav.Valid.{IsValid, sync-IsValid}
use git_client.UndoNav.Line.{view}
use git_client.UndoNav.Navigation.{offers, undo_offer, redo_offer, sync-aligned}
use git_client.RepoContext.Cache.{after_write}
use git_client.RepoContext.{
  RepoContext, GitBackend, UndoStepDto, ResetMode, soft, hard, head_oid_opt, service_reset,
  bootstrap_hint, reset_to, apply_nav, conclude, take_step, synced, proceed, offered, is_restore,
  undo, redo, short,
}

abbrev pub mode_of : Bool → ResetMode
mode_of h = if h then hard else soft

-- Either the call was refused, and the timeline is as `synced` brought it in line with HEAD, with no
-- step made, and the caches are as they were; or the reset
-- that the offered step asks for succeeded, a hard one in a clean worktree only, and the timeline
-- made the step.
pub data Walked {R V : Type 0} (git : GitBackend R) (ctx : RepoContext R V)
    (query : UndoNav → Outcome (Option NavStep)) (commit : UndoNav → UndoNav) (c : RepoContext R V)
    (result : Result GitError UndoStepDto) : Type 0 where
  refused :
      (e : GitError)
      → result ≡ err e
      → c.cache ≡ ctx.cache
      → c.nav ≡ (synced git ctx).0.nav
      → Walked git ctx query commit c result
  moved :
      (s : NavStep)
      → query (synced git ctx).0.nav ≡ value (some s)
      → service_reset git ctx.repo s.target_oid (mode_of (is_restore s.kind)) ≡ (c.repo, ok tt)
      → (is_restore s.kind ≡ true → git.dirty ctx.repo ≡ ok 0)
      → c.nav ≡ commit (synced git ctx).0.nav
      → c.cache ≡ after_write ctx.cache true true
      → result
        ≡ ok (record {
          label = s.label;
          target_short = short s.target_oid;
          worktree_restored = is_restore s.kind;
        })
      → Walked git ctx query commit c result

module _ {R : Type 0} (git : GitBackend R) where
  reset_to-cases :
      (r : R) (t : Text) (h : Bool)
      → ((e : GitError) × ((reset_to git r t h).1 ≡ err e))
        ⊎ (((reset_to git r t h).1 ≡ ok h)
            × (service_reset git r t (mode_of h) ≡ ((reset_to git r t h).0, ok tt)))
  unfolding reset_to
  reset_to-cases r t h = go (service_reset git r t (mode_of h)) refl
    where
      go :
          (p : R × Result GitError (Unit {0}))
          → service_reset git r t (mode_of h) ≡ p
          → ((e : GitError) × ((reset_to git r t h).1 ≡ err e))
            ⊎ (((reset_to git r t h).1 ≡ ok h)
                × (service_reset git r t (mode_of h) ≡ ((reset_to git r t h).0, ok tt)))
      go (r', ok _) e =
          inr
            (ap (λ p. p.1 >>= λ _. ok h) e, e ∙ ap (λ (q : R). (q, ok tt)) (sym (ap (λ p. p.0) e)))
      go (r', err x) e = inl (x, ap (λ p. p.1 >>= λ _. ok h) e)

  apply_nav-cases :
      (r : R) (t : Text) (kind : UndoKind)
      → ((e : GitError) × ((apply_nav git r t kind false).1 ≡ err e))
        ⊎ (((apply_nav git r t kind false).1 ≡ ok (is_restore kind))
            × (service_reset git r t (mode_of (is_restore kind))
                ≡ ((apply_nav git r t kind false).0, ok tt))
            × (is_restore kind ≡ true → git.dirty r ≡ ok 0))
  unfolding apply_nav
  apply_nav-cases r t uncommit = elim (reset_to-cases r t false) [
    | inl h ↦ inl h
    | inr (h, k) ↦ inr (h, k, λ e. cc)
  ]
  apply_nav-cases r t restore = go (git.dirty r) refl
    where
      go :
          (d : Result GitError ℕ)
          → git.dirty r ≡ d
          → ((e : GitError) × ((apply_nav git r t restore false).1 ≡ err e))
            ⊎ (((apply_nav git r t restore false).1 ≡ ok true)
                × (service_reset git r t hard ≡ ((apply_nav git r t restore false).0, ok tt))
                × (true ≡ true → git.dirty r ≡ ok 0))
      go (err x) e = inl (x, ground (arith, e))
      go (ok zero) e = elim (reset_to-cases r t true) [
        | inl (x, h) ↦ inl (x, ground (arith, e, h))
        | inr (h, k) ↦ inr (rw (e, apply_nav) h, rw (e, apply_nav) k, λ _. e)
      ]
      go (ok (suc n)) e = inl (uncommitted_changes (suc n), ground (arith, e))

module _ {R V : Type 0} (git : GitBackend R) (ctx : RepoContext R V) where
  abbrev Applied : NavStep → R × Result GitError Bool → Type 0
  Applied s p =
      ((e : GitError) × (p.1 ≡ err e))
      ⊎ ((p.1 ≡ ok (is_restore s.kind))
          × (service_reset git ctx.repo s.target_oid (mode_of (is_restore s.kind)) ≡ (p.0, ok tt))
          × (is_restore s.kind ≡ true → git.dirty ctx.repo ≡ ok 0))

  conclude-Walked :
      (query : UndoNav → Outcome (Option NavStep)) (commit : UndoNav → UndoNav) (n : UndoNav)
      (s : NavStep) (p : R × Result GitError Bool)
      → n ≡ (synced git ctx).0.nav
      → query n ≡ value (some s)
      → Applied s p
      → let out = conclude git (record ctx { nav = n }) s commit p in
        Walked git ctx query commit out.0 out.1
  unfolding conclude
  conclude-Walked query commit n s (r, err e) en q h = refused e refl refl en
  conclude-Walked query commit n s (r, ok b) en q (inl (x, h)) = absurd (cc)
  conclude-Walked query commit n s (r, ok b) en q (inr (h, k, d)) =
      moved s (ap query (sym en) ∙ q) k d (ap commit en) refl (ground (arith, h))

  take_step-Walked :
      (query : UndoNav → Outcome (Option NavStep)) (commit : UndoNav → UndoNav)
      (none_left : GitError) (n : UndoNav) (o : Option NavStep)
      → n ≡ (synced git ctx).0.nav
      → query n ≡ value o
      → (c : RepoContext R V) × (result : Result GitError UndoStepDto) × (take_step git
            (record ctx { nav = n })
            false
            commit
            (offered (query n) none_left)
          ≡ value (c, result))
        × Walked git ctx query commit c result
  unfolding take_step offered
  take_step-Walked query commit none_left n none en q =
      (record ctx { nav = n }, err none_left, rw (q, take_step), refused none_left refl refl en)
  take_step-Walked query commit none_left n (some s) en q =
      let p = apply_nav git ctx.repo s.target_oid s.kind false in
      let out = conclude git (record ctx { nav = n }) s commit p in
      (
        out.0,
        out.1,
        rw (q, take_step),
        conclude-Walked query commit n s p en q (apply_nav-cases git ctx.repo s.target_oid s.kind),
      )

  pub synced-cases :
      ((e : GitError) × (synced git ctx ≡ (ctx, err e)))
      ⊎ ((n : UndoNav) × (synced git ctx ≡ (record ctx { nav = n }, ok tt))
          × (IsValid ctx.nav → IsValid n))
  unfolding synced
  synced-cases = heads (head_oid_opt git ctx.repo) refl
    where
      hints :
          (head : Text) (h : Result GitError (Option (Text × Text × UndoKind)))
          → head_oid_opt git ctx.repo ≡ some head
          → bootstrap_hint git ctx.repo ≡ h
          → ((e : GitError) × (synced git ctx ≡ (ctx, err e)))
            ⊎ ((n : UndoNav) × (synced git ctx ≡ (record ctx { nav = n }, ok tt))
                × (IsValid ctx.nav → IsValid n))
      hints head (err e) p q = inl (e, ground (arith, p, q))
      hints head (ok boot) p q = inr (
        sync ctx.nav head boot (git.now ctx.repo),
        ground (arith, p, q),
        sync-IsValid ctx.nav head boot (git.now ctx.repo),
      )

      heads :
          (o : Option Text)
          → head_oid_opt git ctx.repo ≡ o
          → ((e : GitError) × (synced git ctx ≡ (ctx, err e)))
            ⊎ ((n : UndoNav) × (synced git ctx ≡ (record ctx { nav = n }, ok tt))
                × (IsValid ctx.nav → IsValid n))
      heads none p = inl (no_head, ground (arith, p))
      heads (some head) p = hints head (bootstrap_hint git ctx.repo) p refl

  -- The call returns, and has walked.
  abbrev pub Returns :
      (UndoNav → Outcome (Option NavStep))
      → (UndoNav → UndoNav)
      → Outcome (RepoContext R V × Result GitError UndoStepDto)
      → Type 0
  Returns query commit out =
      (c : RepoContext R V) × (result : Result GitError UndoStepDto) × (out ≡ value (c, result))
      × Walked git ctx query commit c result

  proceed-Returns :
      (query : UndoNav → Outcome (Option NavStep)) (commit : UndoNav → UndoNav)
      (none_left : GitError)
      → ((n : UndoNav) → IsValid n → (o : Option NavStep) × (query n ≡ value o))
      → IsValid ctx.nav
      → Returns query commit
          (proceed git (λ nav. offered (query nav) none_left) (λ _. false) commit (synced git ctx))
  unfolding proceed
  proceed-Returns query commit none_left total v = elim synced-cases [
    | inl (e, h) ↦ (
      ctx,
      err e,
      ap (proceed git (λ nav. offered (query nav) none_left) (λ _. false) commit) h,
      refused e refl refl (sym (ap (λ p. p.0.nav) h)),
    )
    | inr (n, h, keeps) ↦
        let (o, q) = total n (keeps v) in
        let (c, result, e, w) =
          take_step-Walked query commit none_left n o (sym (ap (λ p. p.0.nav) h)) q in
        (
          c,
          result,
          ap (proceed git (λ nav. offered (query nav) none_left) (λ _. false) commit) h ∙ e,
          w,
        )
  ]

  -- A timeline that HEAD agrees with is left as it is.
  synced-in_line :
      (head : Text)
      → head_oid_opt git ctx.repo ≡ some head
      → is_aligned ctx.nav head ≡ true
      → (synced git ctx).0.nav ≡ ctx.nav
  synced-in_line head p a = elim (Result-cases (bootstrap_hint git ctx.repo)) [
    | inl (e, q) ↦ ap (λ x. x.0.nav) (failing e q)
    | inr (boot, q) ↦
        ap (λ x. x.0.nav) (passing boot q) ∙ sync-aligned ctx.nav head boot (git.now ctx.repo) a
  ]
    where
      failing : (e : GitError) → bootstrap_hint git ctx.repo ≡ err e → synced git ctx ≡ (ctx, err e)
      failing e q = unfold synced in ground (arith, p, q)

      passing :
          (boot : Option (Text × Text × UndoKind))
          → bootstrap_hint git ctx.repo ≡ ok boot
          → synced git ctx ≡ (record ctx { nav = sync ctx.nav head boot (git.now ctx.repo) }, ok tt)
      passing boot q = unfold synced in ground (arith, p, q)

  -- From a valid timeline, `undo` and `redo` return, without a panic. Each either reports an error,
  -- and then it made no step on the timeline, which is as bringing it in line with HEAD left it, and
  -- cleared no cache; or the reset to the step offered there succeeded, by the mode of the step's kind
  -- and in a clean worktree if that is hard, the cursor made that step, both caches were cleared, and
  -- the reply says whether the worktree was restored. If HEAD already was at the cursor, bringing the
  -- timeline in line changed nothing, so a refused call left it as it was.
  pub undo-redo_walk :
      IsValid ctx.nav
      → Returns can_undo commit_undo (undo git ctx)
        × Returns can_redo commit_redo (redo git ctx)
        × ((head : Text)
            → head_oid_opt git ctx.repo ≡ some head
            → is_aligned ctx.nav head ≡ true
            → (synced git ctx).0.nav ≡ ctx.nav)
  unfolding undo redo
  undo-redo_walk v = (
    proceed-Returns can_undo commit_undo nothing_to_undo
        (λ n k. (undo_offer (view n), (offers n k).0)) v,
    proceed-Returns can_redo commit_redo nothing_to_redo
        (λ n k. (redo_offer (view n), (offers n k).1)) v,
    synced-in_line,
  )
