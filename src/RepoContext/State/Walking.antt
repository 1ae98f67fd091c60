-- ===== src/RepoContext/State/Walking.antt =====
-- repo_context.rs: what `undo_state` answers in the context in which an undo or redo succeeded.
use mathlib.Core.Option
use git_client.Prelude.{
  ◌≢◌, ◌≡◌, refl, sym, ap, subst, ◌∙◌, ◌⊎◌, inl, inr, Bool, true, false, Option, none, some,
  Outcome, value, Text, Result, ok, err, arith,
}
use git_client.GitError.{GitError, no_head}
use git_client.Undo.{UndoKind}
use git_client.UndoNav.{UndoNav, NavStep, is_aligned, sync, can_undo, can_redo}
use git_client.UndoNav.Valid.{IsValid}
use git_client.UndoNav.Navigation.{offers, sync-aligned}
use git_client.RepoContext.{
  GitBackend, RepoContext, UndoStepDto, UndoStateDto, head_oid_opt, bootstrap_hint, service_reset,
  is_restore, synced, undo, redo, proceed,
}
use git_client.RepoContext.Walks.{Walked, mode_of, refused, moved, undo-redo_walk, synced-cases}
use git_client.RepoContext.State.{preview, hint_unless, states, state_with, state_at, undo_state}

module _ {R V : Type 0} (git : GitBackend R) (ctx : RepoContext R V) where
  synced-some :
      (head : Text) (boot : Option (Text × Text × UndoKind))
      → head_oid_opt git ctx.repo ≡ some head
      → bootstrap_hint git ctx.repo ≡ ok boot
      → synced git ctx ≡ (record ctx { nav = sync ctx.nav head boot (git.now ctx.repo) }, ok tt)
  unfolding synced
  synced-some head boot p q = ground (arith, p, q)

  -- A hint that is not read makes no difference.
  state_with-some :
      (head : Text) (boot : Option (Text × Text × UndoKind)) (b : Bool)
      → is_aligned ctx.nav head ≡ b
      → bootstrap_hint git ctx.repo ≡ ok boot
      → state_with git ctx head (hint_unless git b ctx.repo) ≡ state_with git ctx head (ok boot)
  unfolding state_with hint_unless
  state_with-some head boot false a q = ap (state_with git ctx head) q
  state_with-some head boot true a q =
      ap (λ n. states git (record ctx { nav = n }) (can_undo n) (can_redo n))
        (sync-aligned ctx.nav head none (git.now ctx.repo) a
          ∙ sym (sync-aligned ctx.nav head boot (git.now ctx.repo) a))

  -- The state of a context whose timeline could be brought in line.
  abbrev Shown : RepoContext R V × Result GitError (Unit {0}) → Type 0
  Shown p = p.1 ≡ ok tt → undo_state git ctx ≡ states git p.0 (can_undo p.0.nav) (can_redo p.0.nav)

  state_with-states :
      (head : Text) (boot : Option (Text × Text × UndoKind))
      → let n = sync ctx.nav head boot (git.now ctx.repo) in
        state_with git ctx head (ok boot)
        ≡ states git (record ctx { nav = n }) (can_undo n) (can_redo n)
  unfolding state_with
  state_with-states head boot = refl

  pub undo_state-some :
      (head : Text)
      → head_oid_opt git ctx.repo ≡ some head
      → undo_state git ctx
        ≡ state_with git ctx head (hint_unless git (is_aligned ctx.nav head) ctx.repo)
  unfolding undo_state state_at
  undo_state-some head p = rw p refl

  synced-err :
      (head : Text) (e : GitError)
      → head_oid_opt git ctx.repo ≡ some head
      → bootstrap_hint git ctx.repo ≡ err e
      → synced git ctx ≡ (ctx, err e)
  unfolding synced
  synced-err head e p q = ground (arith, p, q)

  synced-none : head_oid_opt git ctx.repo ≡ none → synced git ctx ≡ (ctx, err no_head)
  unfolding synced
  synced-none p = ground (arith, p)

  undo_state-hint :
      (head : Text) (h : Result GitError (Option (Text × Text × UndoKind)))
      → head_oid_opt git ctx.repo ≡ some head
      → bootstrap_hint git ctx.repo ≡ h
      → Shown (synced git ctx)
  undo_state-hint head (err e) p q = subst Shown (sym (synced-err head e p q)) (λ h. absurd (cc))
  undo_state-hint head (ok boot) p q = subst Shown (sym (synced-some head boot p q)) (λ _.
      undo_state-some head p
      ∙ state_with-some head boot (is_aligned ctx.nav head) refl q
      ∙ state_with-states head boot)

  undo_state-head : (o : Option Text) → head_oid_opt git ctx.repo ≡ o → Shown (synced git ctx)
  undo_state-head none p = subst Shown (sym (synced-none p)) (λ h. absurd (cc))
  undo_state-head (some head) p = undo_state-hint head (bootstrap_hint git ctx.repo) p refl

  -- What `undo_state` announces, given what the timeline offers.
  announces :
      (u r : Option NavStep)
      → (synced git ctx).1 ≡ ok tt
      → can_undo (synced git ctx).0.nav ≡ value u
      → can_redo (synced git ctx).0.nav ≡ value r
      → undo_state git ctx
        ≡ value (
          (synced git ctx).0,
          ok (record { can_undo = Option.map preview u; can_redo = Option.map preview r }),
        )
  unfolding states
  announces u r h p q = undo_state-head (head_oid_opt git ctx.repo) refl h ∙ rw (p, q) refl

  -- What a walk that succeeded by the offers of `query` and answered `d` did from `ctx` to `c`.
  abbrev pub Stepped :
      (UndoNav → Outcome (Option NavStep)) → RepoContext R V → UndoStepDto → NavStep → Type 0
  Stepped query c d s =
      (query (synced git ctx).0.nav ≡ value (some s))
      × (preview s ≡ d)
      × (service_reset git ctx.repo s.target_oid (mode_of (is_restore s.kind)) ≡ (c.repo, ok tt))

  walked-step :
      (query : UndoNav → Outcome (Option NavStep)) (commit : UndoNav → UndoNav)
      (c : RepoContext R V) (result : Result GitError UndoStepDto) (d : UndoStepDto)
      → Walked git ctx query commit c result
      → result ≡ ok d
      → (s : NavStep) × Stepped query c d s
  walked-step query commit c result d (refused e r k n) h = absurd (cc)
  walked-step query commit c result d (moved s q k g n a r) h =
      let same : ok (preview s) ≡ ok d = sym r ∙ h in (s, (q, ground (arith, same), k))

  -- A walk that succeeded had brought the timeline in line, and left it valid.
  abbrev Aligned : Type 0
  Aligned = ((synced git ctx).1 ≡ ok tt) × IsValid (synced git ctx).0.nav

  aligned-or_fails :
      IsValid ctx.nav
      → Aligned
        ⊎ ((e : GitError) × (undo git ctx ≡ value (ctx, err e))
            × (redo git ctx ≡ value (ctx, err e)))
  unfolding undo redo proceed
  aligned-or_fails v = elim (synced-cases git ctx) [
    | inl (e, h) ↦ inr (e, rw h refl, rw h refl)
    | inr (n, h, keeps) ↦ inl (
      ap (λ p. p.1) h,
      subst (λ (p : RepoContext R V × Result GitError (Unit {0})). IsValid p.0.nav) (sym h)
          (keeps v),
    )
  ]

  abbrev pub walk : Bool → Outcome (RepoContext R V × Result GitError UndoStepDto)
  walk false = undo git ctx
  walk true = redo git ctx

  abbrev pub side : Bool → UndoStateDto → Option UndoStepDto
  side false s = s.can_undo
  side true s = s.can_redo

  abbrev pub offer : Bool → UndoNav → Outcome (Option NavStep)
  offer false = can_undo
  offer true = can_redo

  pub same-result :
      {A B : Type 0} {c c' : A} {r r' : B}
      → ◌≡◌ {A = Outcome (A × B)} (value (c, r)) (value (c', r'))
      → (c ≡ c') × (r ≡ r')
  same-result h = (ground arith, ground arith)

  -- What was announced is what the walk did.
  unfoldable pub Kept : Bool → RepoContext R V → UndoStepDto → Type 0
  Kept redoing c d =
      (s : UndoStateDto) × (undo_state git ctx ≡ value ((synced git ctx).0, ok s))
      × (side redoing s ≡ some d)
      × (t : NavStep) × Stepped (offer redoing) c d t

  announced-steps :
      (redoing : Bool) (c : RepoContext R V) (d : UndoStepDto)
      → IsValid ctx.nav
      → walk redoing ≡ value (c, ok d)
      → Aligned
      → Kept redoing c d
  unfolding Kept
  announced-steps false c d v h (a, valid) =
      let (c', result, e, w) = (undo-redo_walk git ctx v).0 in
      let (here, same) = same-result (sym e ∙ h) in
      let (s, (q, p, k)) = walked-step _ _ c' result d w same in
      (
        _,
        announces (some s) _ a q (offers (synced git ctx).0.nav valid).1,
        ap some p,
        s,
        (q, p, k ∙ ap (λ (x : RepoContext R V). (x.repo, ok tt)) here),
      )
  announced-steps true c d v h (a, valid) =
      let (c', result, e, w) = (undo-redo_walk git ctx v).1 in
      let (here, same) = same-result (sym e ∙ h) in
      let (s, (q, p, k)) = walked-step _ _ c' result d w same in
      (
        _,
        announces _ (some s) a (offers (synced git ctx).0.nav valid).0 q,
        ap some p,
        s,
        (q, p, k ∙ ap (λ (x : RepoContext R V). (x.repo, ok tt)) here),
      )

  failed_is-err :
      (redoing : Bool) (c : RepoContext R V) (d : UndoStepDto) (e : GitError)
      → undo git ctx ≡ value (ctx, err e)
      → redo git ctx ≡ value (ctx, err e)
      → walk redoing ≢ value (c, ok d)
  failed_is-err false c d e u r h = (let b = (same-result (sym u ∙ h)).1 in cc)
  failed_is-err true c d e u r h = (let b = (same-result (sym r ∙ h)).1 in cc)

  pub walked-Kept :
      (redoing : Bool) (c : RepoContext R V) (d : UndoStepDto)
      → IsValid ctx.nav
      → walk redoing ≡ value (c, ok d)
      → Kept redoing c d
  walked-Kept redoing c d v h = elim (aligned-or_fails v) [
    | inl a ↦ announced-steps redoing c d v h a
    | inr (e, u, r) ↦ absurd (failed_is-err redoing c d e u r h)
  ]
