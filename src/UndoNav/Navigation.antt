-- ===== src/UndoNav/Navigation.antt =====
-- undo_nav.rs: what `can_undo`, `can_redo` and `point_at` offer, and that an undo is undone by a
-- redo.
use git_client.Prelude.{
  ℕ, zero, suc, ◌+◌, ◌≤◌, ◌<◌, ◌≡◌, refl, sym, ap, ◌∙◌, ◌⊎◌, inl, inr, true, false, List, [], ◌∷◌,
  Option, none, some, value, ℤ, Text, arith, length, get_elem?, text_eq, text_eq_iff, ltb,
  Bool-cases,
}
use git_client.Undo.{UndoKind}
use git_client.UndoNav.{
  NavPoint, NavStep, UndoNav, sync, record_op, commit_undo, commit_redo, can_undo, can_redo,
  rebuild, is_aligned,
}
use git_client.UndoNav.Valid.{IsValid, record_op-IsValid}
use git_client.UndoNav.Line.{Line, blank, at, stands_at, record_line, split, view}
use git_client.UndoNav.Refinement.{view-record_op, stands_at-split}

abbrev pub offer : NavPoint → NavPoint → NavStep
offer op target = record { label = op.label; target_oid = target.oid; kind = op.kind }

-- The step back of a line carries the label of the current point, the step forward that of the
-- point it goes to.
abbrev pub undo_offer : Line → Option NavStep
undo_offer blank = none
undo_offer (at [] p fs) = none
undo_offer (at (q ∷ ps) p fs) = some (offer p q)

abbrev pub redo_offer : Line → Option NavStep
redo_offer blank = none
redo_offer (at ps p []) = none
redo_offer (at ps p (q ∷ fs)) = some (offer q q)

-- The point at the cursor, the one before it and the one after it, in the timeline and in the line.
split-near :
    (tl : List NavPoint) (c : ℕ) (ps : List NavPoint)
    → suc c < length tl
    → (qs : List NavPoint) × (q p : NavPoint) × (fs : List NavPoint) × (split tl c ps
        ≡ at qs q (p ∷ fs))
      × (split tl (suc c) ps ≡ at (q ∷ qs) p fs)
      × (get_elem? tl c ≡ some q)
      × (get_elem? tl (suc c) ≡ some p)
split-near [] c ps h = elim h [ ]
split-near (p ∷ []) zero ps h = absurd (omega arith)
split-near (p ∷ q ∷ fs) zero ps h = (ps, p, q, fs, refl, refl, refl, refl)
split-near (p ∷ fs) (suc c) ps h = split-near fs c (p ∷ ps) (omega arith)

split-last :
    (tl : List NavPoint) (c : ℕ) (ps : List NavPoint)
    → length tl ≤ suc c
    → redo_offer (split tl c ps) ≡ none
split-last [] c ps h = refl
split-last (p ∷ []) zero ps h = refl
split-last (p ∷ q ∷ fs) zero ps h = absurd (omega arith)
split-last (p ∷ fs) (suc c) ps h = split-last fs c (p ∷ ps) (omega arith)

can_undo-at :
    (tl : List NavPoint) (c : ℕ)
    → (c < length tl) ⊎ ((c ≡ 0) × (length tl ≡ 0))
    → can_undo (record { timeline = tl; cursor = c }) ≡ value (undo_offer (split tl c []))
unfolding can_undo
can_undo-at [] zero v = refl
can_undo-at (p ∷ fs) zero v = refl
can_undo-at tl (suc c) (inr h) = absurd (omega arith)
can_undo-at tl (suc c) (inl h) =
    let (qs, q, p, fs, e, e', g, g') = split-near tl c [] h in ground (arith, e', g, g')

can_redo-at :
    (tl : List NavPoint) (c : ℕ)
    → can_redo (record { timeline = tl; cursor = c }) ≡ value (redo_offer (split tl c []))
unfolding can_redo
can_redo-at tl c = elim (Bool-cases (ltb (suc c) (length tl))) [
  | inl h ↦
      let (qs, q, p, fs, e, e', g, g') = split-near tl c [] (ground arith) in
      let s : c + 1 ≡ suc c = omega arith in rw (s, e) (ground (arith, g'))
  | inr h ↦
      let s : c + 1 ≡ suc c = omega arith in
      rw (s, split-last tl c [] (ground arith)) (ground arith)
]

-- On a valid timeline neither query panics, and both offer what the abstract line offers.
pub offers :
    (nav : UndoNav)
    → IsValid nav
    → (can_undo nav ≡ value (undo_offer (view nav)))
      × (can_redo nav ≡ value (redo_offer (view nav)))
unfolding view
offers nav v = (can_undo-at nav.timeline nav.cursor v, can_redo-at nav.timeline nav.cursor)

undo_offer-record :
    (l : Line) (b : Text) (q : NavPoint) (now : ℤ)
    → text_eq b q.oid ≡ false
    → (undo_offer (record_line l (some b) q now)
        ≡ some (record { label = q.label; target_oid = b; kind = q.kind }))
      × (redo_offer (record_line l (some b) q now) ≡ none)
      × (stands_at (record_line l (some b) q now) q.oid ≡ true)
undo_offer-record blank b q now h = ground (arith, text_eq_iff q.oid q.oid)
undo_offer-record (at ps p fs) b q now h =
    ground (arith, text_eq_iff q.oid q.oid, text_eq_iff p.oid b)

stands_at-view : (nav : UndoNav) (oid : Text) → stands_at (view nav) oid ≡ is_aligned nav oid
unfolding view is_aligned
stands_at-view nav oid = stands_at-split nav.timeline nav.cursor [] oid

-- After an operation that moved HEAD from `before` to `after` is recorded, on a valid timeline, the
-- timeline is aligned with `after`, the undo offered goes back to `before` under the operation's
-- label and kind, and nothing can be redone. So it is whether or not the timeline was at `before`.
pub record-undo :
    (nav : UndoNav) (before after label : Text) (kind : UndoKind) (now : ℤ)
    → IsValid nav
    → text_eq before after ≡ false
    → let nav' = record_op nav (some before) after label kind now in
      (can_undo nav' ≡ value (some (record { label = label; target_oid = before; kind = kind })))
      × (can_redo nav' ≡ value none)
      × (is_aligned nav' after ≡ true)
record-undo nav before after label kind now v h =
    let q : NavPoint = record { oid = after; label = label; kind = kind; timestamp = now } in
    let nav' : UndoNav = record_op nav (some before) after label kind now in
    let (u, r, s) = undo_offer-record (view nav) before q now h in
    let (cu, cr) = offers nav' (record_op-IsValid nav (some before) after label kind now v) in
    let e = view-record_op nav (some before) after label kind now in
    (
      cu ∙ ap value (ap undo_offer e ∙ u),
      cr ∙ ap value (ap redo_offer e ∙ r),
      sym (stands_at-view nav' after) ∙ ap (λ l. stands_at l after) e ∙ s,
    )

undo-redo_at :
    (tl : List NavPoint) (c : ℕ) (s : NavStep) (head : Text)
    → let nav : UndoNav = record { timeline = tl; cursor = c } in
      IsValid nav
      → is_aligned nav head ≡ true
      → can_undo nav ≡ value (some s)
      → (commit_redo (commit_undo nav) ≡ nav)
        × (can_redo (commit_undo nav)
            ≡ value (some (record { label = s.label; target_oid = head; kind = s.kind })))
        × (is_aligned (commit_undo nav) s.target_oid ≡ true)
unfolding can_undo can_redo is_aligned commit_undo commit_redo
undo-redo_at tl zero s head v al h = cc
undo-redo_at tl (suc c) s head (inr v) al h = absurd (omega arith)
undo-redo_at tl (suc c) s head (inl v) al h =
    let (qs, q, p, fs, e, e', g, g') = split-near tl c [] v in
    ground (arith, g, g', text_eq_iff p.oid head, text_eq_iff q.oid q.oid)

-- A redo after an undo restores the timeline and its cursor. In between, the redo that is offered
-- has the label and the kind of the undo and leads back to the commit that the undo left, and the
-- timeline is aligned with the undo's target.
pub undo-redo :
    (nav : UndoNav) (s : NavStep) (head : Text)
    → IsValid nav
    → is_aligned nav head ≡ true
    → can_undo nav ≡ value (some s)
    → (commit_redo (commit_undo nav) ≡ nav)
      × (can_redo (commit_undo nav)
          ≡ value (some (record { label = s.label; target_oid = head; kind = s.kind })))
      × (is_aligned (commit_undo nav) s.target_oid ≡ true)
undo-redo nav s head v al h = undo-redo_at nav.timeline nav.cursor s head v al h

-- An aligned timeline is left as it is.
pub sync-aligned :
    (nav : UndoNav) (head : Text) (boot : Option (Text × Text × UndoKind)) (now : ℤ)
    → is_aligned nav head ≡ true
    → sync nav head boot now ≡ nav
unfolding sync
sync-aligned nav head boot now h = rw h

-- A timeline that was brought in line is aligned.
pub is_aligned-sync :
    (nav : UndoNav) (head : Text) (boot : Option (Text × Text × UndoKind)) (now : ℤ)
    → is_aligned (sync nav head boot now) head ≡ true
unfolding sync rebuild is_aligned
is_aligned-sync nav head none now = ground (arith, text_eq_iff head head)
is_aligned-sync nav head (some (prev, label, kind)) now = ground (arith, text_eq_iff head head)
