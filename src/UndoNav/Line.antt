-- ===== src/UndoNav/Line.antt =====
-- What undo and redo promise, with no index in sight: the points behind the current one, nearest
-- first, and those ahead of it. `view` reads an `UndoNav` so.
use git_client.Prelude.{
  ℕ, zero, suc, ◌+◌, ◌-◌, Bool, false, List, [], ◌∷◌, Option, none, some, ℤ, Text, text_eq, ltb,
  if◌then◌else◌, length,
}
use git_client.Undo.{UndoKind}
use git_client.UndoNav.{NavPoint, UndoNav, Call, syncs, records, undoes, redoes, jumps, base_point}

pub data Line : Type 0 where
  blank : Line
  at : List NavPoint → NavPoint → List NavPoint → Line

abbrev pub back : Line → Line
back blank = blank
back (at [] p fs) = at [] p fs
back (at (q ∷ ps) p fs) = at ps q (p ∷ fs)

abbrev pub forward : Line → Line
forward blank = blank
forward (at ps p []) = at ps p []
forward (at ps p (q ∷ fs)) = at (p ∷ ps) q fs

abbrev pub times {ℓ} : {A : Type ℓ} → ℕ → (A → A) → A → A
times zero f a = a
times (suc n) f a = times n f (f a)

-- A jump is as many steps as the index is away; one past the end is ignored.
abbrev pub jump : ℕ → Line → Line
jump i blank = blank
jump i (at ps p fs) =
    if ltb i (length ps)
    then times (length ps - i) back (at ps p fs)
    else if ltb (length ps + length fs) i
    then at ps p fs
    else times (i - length ps) forward (at ps p fs)

-- Whether the current point is at the commit `oid`.
abbrev pub stands_at : Line → Text → Bool
stands_at blank oid = false
stands_at (at ps p fs) oid = text_eq p.oid oid

-- A new operation drops what could be redone.
abbrev pub push : Line → NavPoint → Line
push blank q = at [] q []
push (at ps p fs) q = at (p ∷ ps) q []

abbrev pub restart : Option Text → NavPoint → ℤ → Line
restart none q now = at [] q []
restart (some b) q now = at (base_point b now ∷ []) q []

abbrev pub record_line : Line → Option Text → NavPoint → ℤ → Line
record_line l none q now = restart none q now
record_line l (some b) q now =
    if text_eq b q.oid then l else if stands_at l b then push l q else restart (some b) q now

abbrev pub align : Line → Text → Option (Text × Text × UndoKind) → ℤ → Line
align l head none now = if stands_at l head then l else at [] (base_point head now) []
align l head (some (prev, label, kind)) now =
    if stands_at l head
    then l
    else at (base_point prev now ∷ [])
        (record { oid = head; label = label; kind = kind; timestamp = now }) []

unfoldable pub line_step : Line → Call → Line
line_step l (syncs head boot now) = align l head boot now
line_step l (records before after label kind now) =
    record_line l before (record { oid = after; label = label; kind = kind; timestamp = now }) now
line_step l undoes = back l
line_step l redoes = forward l
line_step l (jumps i) = jump i l

abbrev pub split : List NavPoint → ℕ → List NavPoint → Line
split [] c ps = blank
split (p ∷ fs) zero ps = at ps p fs
split (p ∷ fs) (suc c) ps = split fs c (p ∷ ps)

unfoldable pub view : UndoNav → Line
view nav = split nav.timeline nav.cursor []
