-- ===== src/UndoNav/Refinement.antt =====
-- undo_nav.rs: the timeline with a cursor behaves as the line of `UndoNav.Line`.
use git_client.Prelude.{
  ℕ, zero, suc, ◌+◌, ◌-◌, ◌≤◌, ◌<◌, ◌≡◌, refl, ◌∙◌, ◌⊎◌, inl, inr, true, List, [], ◌∷◌, ◌++◌,
  Option, none, some, ℤ, Text, arith, length, length-append, take, length-take, get_elem?, text_eq,
  ltb, if◌then◌else◌, Bool-cases,
}
use git_client.Undo.{UndoKind}
use git_client.UndoNav.{
  NavPoint, UndoNav, Call, syncs, records, undoes, redoes, jumps, sync, record_op, commit_undo,
  commit_redo, commit_goto, step, run, default, at_oid,
}
use git_client.UndoNav.Valid.{IsValid, step-IsValid}
use git_client.UndoNav.Line.{
  Line, blank, at, back, forward, times, jump, stands_at, push, record_line, align, line_step,
  split, view,
}

split-at :
    (tl : List NavPoint) (c : ℕ) (ps : List NavPoint)
    → c < length tl
    → (qs : List NavPoint) × (p : NavPoint) × (fs : List NavPoint) × (split tl c ps ≡ at qs p fs)
      × (length qs ≡ c + length ps)
      × (length qs + length fs + 1 ≡ length tl + length ps)
split-at [] c ps h = elim h [ ]
split-at (p ∷ fs) zero ps h = (ps, p, fs, refl, omega arith, omega arith)
split-at (p ∷ fs) (suc c) ps h =
    let (qs, q, gs, e, l, m) = split-at fs c (p ∷ ps) (omega arith) in
    (qs, q, gs, e, omega arith, omega arith)

pub stands_at-split :
    (tl : List NavPoint) (c : ℕ) (ps : List NavPoint) (oid : Text)
    → stands_at (split tl c ps) oid ≡ at_oid (get_elem? tl c) oid
unfolding at_oid
stands_at-split [] c ps oid = refl
stands_at-split (p ∷ fs) zero ps oid = refl
stands_at-split (p ∷ fs) (suc c) ps oid = stands_at-split fs c (p ∷ ps) oid

split-push :
    (tl : List NavPoint) (c : ℕ) (ps : List NavPoint) (q : NavPoint)
    → c < length tl
    → split (take (suc c) tl ++ q ∷ []) (suc c) ps ≡ push (split tl c ps) q
split-push [] c ps q h = elim h [ ]
split-push (p ∷ fs) zero ps q h = refl
split-push (p ∷ fs) (suc c) ps q h = split-push fs c (p ∷ ps) q (omega arith)

forward-split :
    (tl : List NavPoint) (c : ℕ) (ps : List NavPoint)
    → suc c < length tl
    → forward (split tl c ps) ≡ split tl (suc c) ps
forward-split [] c ps h = elim h [ ]
forward-split (p ∷ []) zero ps h = absurd (omega arith)
forward-split (p ∷ q ∷ fs) zero ps h = refl
forward-split (p ∷ fs) (suc c) ps h = forward-split fs c (p ∷ ps) (omega arith)

forward-split_end :
    (tl : List NavPoint) (c : ℕ) (ps : List NavPoint)
    → length tl ≤ suc c
    → forward (split tl c ps) ≡ split tl c ps
forward-split_end [] c ps h = refl
forward-split_end (p ∷ []) zero ps h = refl
forward-split_end (p ∷ q ∷ fs) zero ps h = absurd (omega arith)
forward-split_end (p ∷ fs) (suc c) ps h = forward-split_end fs c (p ∷ ps) (omega arith)

back-split :
    (tl : List NavPoint) (c : ℕ) (ps : List NavPoint)
    → suc c < length tl
    → back (split tl (suc c) ps) ≡ split tl c ps
back-split [] c ps h = elim h [ ]
back-split (p ∷ []) zero ps h = absurd (omega arith)
back-split (p ∷ q ∷ fs) zero ps h = refl
back-split (p ∷ fs) (suc c) ps h = back-split fs c (p ∷ ps) (omega arith)

times-forward :
    (k : ℕ) (tl : List NavPoint) (c d : ℕ)
    → d ≡ k + c
    → d < length tl
    → times k forward (split tl c []) ≡ split tl d []
times-forward zero tl c d e h = let e' : c ≡ d = omega arith in rw e'
times-forward (suc k) tl c d e h =
    rw (forward-split tl c [] (omega arith)) (times-forward k tl (suc c) d (omega arith) h)

times-back :
    (k : ℕ) (tl : List NavPoint) (c d : ℕ)
    → c ≡ k + d
    → c < length tl
    → times k back (split tl c []) ≡ split tl d []
times-back zero tl c d e h = let e' : c ≡ d = omega arith in rw e'
times-back (suc k) tl zero d e h = absurd (omega arith)
times-back (suc k) tl (suc c) d e h =
    rw (back-split tl c [] h) (times-back k tl c d (omega arith) (omega arith))

view-sync :
    (nav : UndoNav) (head : Text) (boot : Option (Text × Text × UndoKind)) (now : ℤ)
    → view (sync nav head boot now) ≡ align (view nav) head boot now
unfolding view sync
view-sync nav head none now = ground (arith, stands_at-split nav.timeline nav.cursor [] head)
view-sync nav head (some (prev, label, kind)) now =
    ground (arith, stands_at-split nav.timeline nav.cursor [] head)

-- Behind an aligned cursor there is a point.
at_oid-lt :
    (tl : List NavPoint) (c : ℕ) (oid : Text) → at_oid (get_elem? tl c) oid ≡ true → c < length tl
unfolding at_oid
at_oid-lt [] c oid h = cc
at_oid-lt (p ∷ fs) zero oid h = omega arith
at_oid-lt (p ∷ fs) (suc c) oid h = omega (arith, at_oid-lt fs c oid h)

view-push :
    (nav : UndoNav) (q : NavPoint)
    → nav.cursor < length nav.timeline
    → split
        (take (nav.cursor + 1) nav.timeline ++ q ∷ [])
        (length (take (nav.cursor + 1) nav.timeline ++ q ∷ []) - 1)
        []
      ≡ push (split nav.timeline nav.cursor []) q
view-push nav q h =
    let e : nav.cursor + 1 ≡ suc nav.cursor = omega arith in
    let l : length (take (suc nav.cursor) nav.timeline ++ q ∷ []) - 1 ≡ suc nav.cursor = omega (
      arith,
      length-append (take (suc nav.cursor) nav.timeline) (q ∷ []),
      length-take (suc nav.cursor) nav.timeline,
    ) in
    rw (e, l) (split-push nav.timeline nav.cursor [] q h)

pub view-record_op :
    (nav : UndoNav) (before : Option Text) (after label : Text) (kind : UndoKind) (now : ℤ)
    → view (record_op nav before after label kind now)
      ≡ record_line
          (view nav)
          before
          (record { oid = after; label = label; kind = kind; timestamp = now })
          now
unfolding view record_op
view-record_op nav none after label kind now = refl
view-record_op nav (some b) after label kind now = elim (Bool-cases (text_eq b after)) [
  | inl same ↦ rw same
  | inr moved ↦ elim (Bool-cases (at_oid (get_elem? nav.timeline nav.cursor) b)) [
    | inl on ↦
        rw (moved, stands_at-split nav.timeline nav.cursor [] b, on)
          (view-push nav _ (at_oid-lt nav.timeline nav.cursor b on))
    | inr off ↦ rw (moved, stands_at-split nav.timeline nav.cursor [] b, off)
  ]
]

view-commit_redo : (nav : UndoNav) → view (commit_redo nav) ≡ forward (view nav)
unfolding view commit_redo
view-commit_redo nav =
    let e : nav.cursor + 1 ≡ suc nav.cursor = omega arith in
    rw e (
      ground (
        arith,
        forward-split nav.timeline nav.cursor [],
        forward-split_end nav.timeline nav.cursor [],
      ))

view-commit_undo : (nav : UndoNav) → IsValid nav → view (commit_undo nav) ≡ back (view nav)
unfolding view commit_undo
view-commit_undo nav v = undone nav.timeline nav.cursor v
  where
    undone :
        (tl : List NavPoint) (c : ℕ)
        → (c < length tl) ⊎ ((c ≡ 0) × (length tl ≡ 0))
        → view (
            if ltb 0 c
            then record { timeline = tl; cursor = c - 1 }
            else record { timeline = tl; cursor = c })
          ≡ back (split tl c [])
    undone [] zero v = refl
    undone (p ∷ fs) zero v = refl
    undone tl (suc c) (inl h) = ground (arith, back-split tl c [] h)
    undone tl (suc c) (inr h) = absurd (omega arith)

view-commit_goto :
    (nav : UndoNav) (i : ℕ) → IsValid nav → view (commit_goto nav i) ≡ jump i (view nav)
unfolding view commit_goto
view-commit_goto nav i (inr v) = emptied nav.timeline nav.cursor v
  where
    emptied :
        (tl : List NavPoint) (c : ℕ)
        → (c ≡ 0) × (length tl ≡ 0)
        → view (
            if ltb i (length tl)
            then record { timeline = tl; cursor = i }
            else record { timeline = tl; cursor = c })
          ≡ jump i (split tl c [])
    emptied [] c v = ground arith
    emptied (p ∷ fs) c v = absurd (omega arith)
view-commit_goto nav i (inl h) =
    let (qs, p, fs, e, l, m) = split-at nav.timeline nav.cursor [] h in
    rw e (
      ground (
        arith,
        e,
        l,
        m,
        times-back (nav.cursor - i) nav.timeline nav.cursor i,
        times-forward (i - nav.cursor) nav.timeline nav.cursor i,
      ))

view-step : (nav : UndoNav) (c : Call) → IsValid nav → view (step nav c) ≡ line_step (view nav) c
unfolding step line_step
view-step nav (syncs head boot now) v = view-sync nav head boot now
view-step nav (records before after label kind now) v =
    view-record_op nav before after label kind now
view-step nav undoes v = view-commit_undo nav v
view-step nav redoes v = view-commit_redo nav
view-step nav (jumps i) v = view-commit_goto nav i v

abbrev pub run_line : Line → List Call → Line
run_line l [] = l
run_line l (c ∷ cs) = run_line (line_step l c) cs

view-run_from :
    (nav : UndoNav) (cs : List Call) → IsValid nav → view (run nav cs) ≡ run_line (view nav) cs
unfolding run
view-run_from nav [] v = refl
view-run_from nav (c ∷ cs) v =
    rw (view-run_from (step nav c) cs (step-IsValid nav c v), view-step nav c v)

-- After any calls, from the empty timeline on, the timeline and its cursor show exactly the line
-- that the abstract undo and redo reach by the same calls.
pub view-run : (cs : List Call) → view (run default cs) ≡ run_line blank cs
view-run cs = view-run_from default cs (inr (refl, refl)) ∙ start
  where
    start : run_line (view default) cs ≡ run_line blank cs
    start = unfold view in refl
