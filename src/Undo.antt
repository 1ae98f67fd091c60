-- ===== src/Undo.antt =====
-- crates/git-core/src/undo.rs: which reflog entries can be undone by a reset, and by which one.
pub mod Classify
mod Tests
use git_client.Prelude.{
  ℕ, Bool, true, false, ◌||◌, List, [], ◌∷◌, Option, none, some, Text, codes, text_eq, starts_with,
  trim_start, ◌==◌, if◌then◌else◌,
}

pub data UndoKind : Type 0 where
  uncommit restore : UndoKind

-- `msg.split([' ', ':']).next()`: the text up to the first blank or colon.
unfoldable pub first_token : Text → Text
first_token [] = []
first_token (c ∷ s) = if c == 32 || c == b':' then [] else c ∷ first_token s

-- The `match head` of `classify_undoable`, with the guard of its first arm as an argument.
classify_head : Text → Bool → Option (Text × UndoKind)
classify_head head amend =
    if text_eq head (codes "commit")
    then (if amend then some (codes "修改提交(amend)", uncommit) else some (codes "提交", uncommit))
    else if text_eq head (codes "cherry-pick")
    then some (codes "cherry-pick", restore)
    else if text_eq head (codes "revert")
    then some (codes "回退提交(revert)", restore)
    else if text_eq head (codes "merge")
    then some (codes "合并", restore)
    else if text_eq head (codes "rebase")
    then some (codes "变基(rebase)", restore)
    else if text_eq head (codes "reset")
    then some (codes "重置(reset)", restore)
    else if text_eq head (codes "pull")
    then some (codes "拉取(pull)", restore)
    else none

unfoldable pub classify_undoable : Text → Option (Text × UndoKind)
unfolding classify_head
classify_undoable reflog_message =
    let msg = trim_start reflog_message in
    classify_head (first_token msg) (starts_with (codes "commit (amend)") msg)

label_of : Option (Text × UndoKind) → Option Text
label_of none = none
label_of (some (label, kind)) = some label

pub undoable_op_label : Text → Option Text
unfolding label_of classify_undoable
undoable_op_label reflog_message = label_of (classify_undoable reflog_message)
