-- ===== src/UndoNav/Valid.antt =====
-- undo_nav.rs: the cursor stays on the timeline, so no query of it panics.
use git_client.Prelude.{
  ◌+◌, ◌<◌, ◌≡◌, ◌⊎◌, List, [], ◌∷◌, Option, ℤ, Text, arith, length, length-append, take,
}
use git_client.Undo.{UndoKind}
use git_client.UndoNav.{
  UndoNav, Call, syncs, records, undoes, redoes, jumps, sync, record_op, commit_undo, commit_redo,
  commit_goto, step, run,
}

-- The cursor is on a point, or the timeline is still empty.
abbrev pub IsValid : UndoNav → Type 0
IsValid nav = (nav.cursor < length nav.timeline) ⊎ ((nav.cursor ≡ 0) × (length nav.timeline ≡ 0))

pub sync-IsValid :
    (nav : UndoNav) (head : Text) (boot : Option (Text × Text × UndoKind)) (now : ℤ)
    → IsValid nav
    → IsValid (sync nav head boot now)
unfolding sync
sync-IsValid nav head boot now v = ground arith

pub record_op-IsValid :
    (nav : UndoNav) (before : Option Text) (after label : Text) (kind : UndoKind) (now : ℤ)
    → IsValid nav
    → IsValid (record_op nav before after label kind now)
unfolding record_op
record_op-IsValid nav before after label kind now v =
    ground (arith, length-append (take (nav.cursor + 1) nav.timeline))

pub step-IsValid : (nav : UndoNav) (c : Call) → IsValid nav → IsValid (step nav c)
unfolding step commit_undo commit_redo commit_goto
step-IsValid nav (syncs head boot now) v = sync-IsValid nav head boot now v
step-IsValid nav (records before after label kind now) v =
    record_op-IsValid nav before after label kind now v
step-IsValid nav undoes v = ground arith
step-IsValid nav redoes v = ground arith
step-IsValid nav (jumps index) v = ground arith

-- Any calls keep a valid timeline valid: the cursor stands on a point of the timeline, or both are
-- empty and zero.
pub run-IsValid : (nav : UndoNav) (cs : List Call) → IsValid nav → IsValid (run nav cs)
unfolding run
run-IsValid nav [] v = v
run-IsValid nav (c ∷ cs) v = run-IsValid (step nav c) cs (step-IsValid nav c v)
