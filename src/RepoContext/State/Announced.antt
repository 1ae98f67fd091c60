-- ===== src/RepoContext/State/Announced.antt =====
-- repo_context.rs: an undo or redo that succeeds does what the buttons announced.
use mathlib.Core.Option
use git_client.Prelude.{
  ◌≡◌, refl, sym, ap, subst, ◌∙◌, Bool, true, Option, none, some, Outcome, value, panic, Text,
  Result, ok, err, arith,
}
use git_client.GitError.{GitError}
use git_client.Undo.{UndoKind}
use git_client.UndoNav.{NavStep, is_aligned, sync, can_undo, can_redo}
use git_client.UndoNav.Valid.{IsValid, sync-IsValid}
use git_client.UndoNav.Navigation.{sync-aligned, is_aligned-sync}
use git_client.RepoContext.{
  GitBackend, RepoContext, UndoStepDto, UndoStateDto, head_oid_opt, service_reset, is_restore,
}
use git_client.RepoContext.Walks.{mode_of}
use git_client.RepoContext.State.{preview, hint_unless, states, state_with, state_at, undo_state}
use git_client.RepoContext.State.Walking.{
  undo_state-some, walk, side, offer, same-result, Kept, walked-Kept,
}

module _ {R V : Type 0} (git : GitBackend R) where
  states-keeps :
      (c c' : RepoContext R V) (u r : Outcome (Option NavStep)) (s : UndoStateDto)
      → states git c u r ≡ value (c', ok s)
      → c ≡ c'
  unfolding states
  states-keeps c c' panic r s h = absurd (cc)
  states-keeps c c' (value u) panic s h = absurd (cc)
  states-keeps c c' (value u) (value r) s h = ground arith

  -- Asking again, from the context that was left, gives the same answer and leaves it alone.
  Settled : RepoContext R V → UndoStateDto → Type 0
  Settled c s = (undo_state git c ≡ value (c, ok s)) × IsValid c.nav

  in_line :
      (c : RepoContext R V) (head : Text)
      → head_oid_opt git c.repo ≡ some head
      → is_aligned c.nav head ≡ true
      → undo_state git c ≡ states git c (can_undo c.nav) (can_redo c.nav)
  unfolding hint_unless state_with
  in_line c head p a =
      undo_state-some git c head p
      ∙ ap (λ b. state_with git c head (hint_unless git b c.repo)) a
      ∙ ap (λ n. states git (record c { nav = n }) (can_undo n) (can_redo n))
          (sync-aligned c.nav head none (git.now c.repo) a)

  -- The answer where HEAD is at the cursor.
  pub undo_state-in_line :
      (c : RepoContext R V) (head : Text) (u r : Option NavStep)
      → head_oid_opt git c.repo ≡ some head
      → is_aligned c.nav head ≡ true
      → can_undo c.nav ≡ value u
      → can_redo c.nav ≡ value r
      → undo_state git c
        ≡ value
            (c, ok (record { can_undo = Option.map preview u; can_redo = Option.map preview r }))
  unfolding states
  undo_state-in_line c head u r h a p q = in_line c head h a ∙ rw (p, q) refl

  Settled-hint :
      (c c' : RepoContext R V) (s : UndoStateDto) (head : Text)
      (h : Result GitError (Option (Text × Text × UndoKind)))
      → head_oid_opt git c.repo ≡ some head
      → IsValid c.nav
      → state_with git c head h ≡ value (c', ok s)
      → Settled c' s
  unfolding state_with Settled
  Settled-hint c c' s head (err e) p v h = absurd (cc)
  Settled-hint c c' s head (ok boot) p v h =
      let n = sync c.nav head boot (git.now c.repo) in
      let same : record c { nav = n } ≡ c' = states-keeps _ _ (can_undo n) (can_redo n) s h in
      subst (λ x. (undo_state git x ≡ value (x, ok s)) × IsValid x.nav) same
        (
          in_line (record c { nav = n }) head p (is_aligned-sync c.nav head boot (git.now c.repo))
              ∙ h
              ∙ ap (λ (x : RepoContext R V). value (x, ok s)) (sym same),
          sync-IsValid c.nav head boot (git.now c.repo) v,
        )

  settles :
      (c c' : RepoContext R V) (s : UndoStateDto) (o : Option Text)
      → head_oid_opt git c.repo ≡ o
      → IsValid c.nav
      → undo_state git c ≡ value (c', ok s)
      → Settled c' s
  unfolding Settled
  settles c c' s none p v h =
      let here : undo_state git c ≡ value (c, ok (record { can_undo = none; can_redo = none })) =
        unfold undo_state state_at in rw p refl in
      let same : c ≡ c' = (same-result git c (sym here ∙ h)).0 in
      subst (λ x. (undo_state git x ≡ value (x, ok s)) × IsValid x.nav) same
        (h ∙ ap (λ (x : RepoContext R V). value (x, ok s)) (sym same), v)
  settles c c' s (some head) p v h =
      Settled-hint c c' s head (hint_unless git (is_aligned c.nav head) c.repo) p v
        (sym (undo_state-some git c head p) ∙ h)

  -- From a valid timeline, `undo_state` and then, from the context it left, an undo that succeeds: the
  -- reply is the step that `undo_state` announced, with its label, short hash and whether the worktree
  -- is restored; it describes the step that the timeline offered in that context, and the repository
  -- was reset to that step's full commit, in the mode announced. So too for a redo.
  pub undo_state-announces :
      (redoing : Bool) (ctx shown c : RepoContext R V) (s : UndoStateDto) (d : UndoStepDto)
      → IsValid ctx.nav
      → undo_state git ctx ≡ value (shown, ok s)
      → walk git shown redoing ≡ value (c, ok d)
      → (side git shown redoing s ≡ some d)
        × (t : NavStep) × (offer git shown redoing shown.nav ≡ value (some t))
        × (preview t ≡ d)
        × (service_reset git shown.repo t.target_oid (mode_of (is_restore t.kind))
            ≡ (c.repo, ok tt))
  unfolding Settled Kept
  undo_state-announces redoing ctx shown c s d v h w =
      let (again, valid) = settles ctx shown s (head_oid_opt git ctx.repo) refl v h in
      let (s', e, announced, t, (q, p, k)) = walked-Kept git shown redoing c d valid w in
      let (there, same) = same-result git shown (sym e ∙ again) in
      (
        subst (λ (x : UndoStateDto). side git shown redoing x ≡ some d) (ground (arith, same))
            announced,
        t,
        ap (λ (x : RepoContext R V). offer git shown redoing x.nav) (sym there) ∙ q,
        p,
        k,
      )
