-- ===== src/UndoNav.antt =====
-- crates/app-service/src/undo_nav.rs: the timeline of HEAD positions with a cursor. A method that
-- takes `&mut self` returns the new `UndoNav`; an indexing `timeline[i]` may panic.
pub mod Valid
pub mod Line
pub mod Refinement
pub mod Navigation
mod Tests
use git_client.Prelude.{
  ℕ, zero, suc, ◌+◌, ◌-◌, Bool, true, false, ◌||◌, List, [], ◌∷◌, ◌++◌, map, Option, none, some,
  Outcome, value, panic, ℤ, Text, codes, text_eq, ltb, leb, ◌==◌, if◌then◌else◌, length, get_elem?,
  take,
}
use git_client.Undo.{UndoKind, restore}

pub record NavPoint : Type 0 where
  pub oid : Text
  pub label : Text
  pub kind : UndoKind
  pub timestamp : ℤ

pub record NavStep : Type 0 where
  pub label : Text
  pub target_oid : Text
  pub kind : UndoKind

pub record OpLogItem : Type 0 where
  pub label : Text
  pub oid : Text
  pub timestamp : ℤ

pub record UndoNav : Type 0 where
  pub timeline : List NavPoint
  pub cursor : ℕ

-- `UndoNav::default()`.
abbrev pub default : UndoNav
default = record { timeline = []; cursor = 0 }

pub at_oid : Option NavPoint → Text → Bool
at_oid none head = false
at_oid (some p) head = text_eq p.oid head

pub is_aligned : UndoNav → Text → Bool
unfolding at_oid
is_aligned nav head = at_oid (get_elem? nav.timeline nav.cursor) head

-- The point at which a rebuilt timeline starts.
abbrev pub base_point : Text → ℤ → NavPoint
base_point oid now = record { oid = oid; label = codes "起点"; kind = restore; timestamp = now }

rebuild : Text → Option (Text × Text × UndoKind) → ℤ → UndoNav
rebuild head (some (prev, label, kind)) now = record {
  timeline =
      base_point prev now ∷ record { oid = head; label = label; kind = kind; timestamp = now } ∷ [];
  cursor = 1;
}
rebuild head none now = record { timeline = base_point head now ∷ []; cursor = 0 }

pub sync : UndoNav → Text → Option (Text × Text × UndoKind) → ℤ → UndoNav
unfolding rebuild is_aligned
sync nav head boot now = if is_aligned nav head then nav else rebuild head boot now

-- The timeline after an operation that moved HEAD.
extend : UndoNav → Option Text → NavPoint → ℤ → List NavPoint
extend nav none p now = p ∷ []
extend nav (some b) p now =
    if at_oid (get_elem? nav.timeline nav.cursor) b
    then take (nav.cursor + 1) nav.timeline ++ p ∷ []
    else base_point b now ∷ p ∷ []

unmoved : Option Text → Text → Bool
unmoved none after = false
unmoved (some b) after = text_eq b after

-- The names in this module may not be `record`, which is reserved.
pub record_op : UndoNav → Option Text → Text → Text → UndoKind → ℤ → UndoNav
unfolding extend unmoved at_oid
record_op nav before after label kind now = if unmoved before after then nav else moved
  where
    point : NavPoint
    point = record { oid = after; label = label; kind = kind; timestamp = now }

    moved : UndoNav
    moved = record {
      timeline = extend nav before point now;
      cursor = length (extend nav before point now) - 1;
    }

step_between : Option NavPoint → Option NavPoint → Outcome (Option NavStep)
step_between (some op) (some target) =
    value (some (record { label = op.label; target_oid = target.oid; kind = op.kind }))
step_between none target = panic
step_between (some op) none = panic

pub point_at : UndoNav → ℕ → Outcome (Option NavStep)
unfolding step_between
point_at nav index =
    if index == cursor || leb (length timeline) index
    then value none
    else step_between (get_elem? timeline (if ltb index cursor then cursor else index))
        (get_elem? timeline index)
  where
    open nav use {timeline, cursor}

-- `self.cursor.checked_sub(1)?`, then `point_at`.
undo_from : ℕ → UndoNav → Outcome (Option NavStep)
undo_from zero nav = value none
undo_from (suc c) nav = point_at nav c

pub can_undo : UndoNav → Outcome (Option NavStep)
unfolding undo_from point_at
can_undo nav = undo_from nav.cursor nav

pub can_redo : UndoNav → Outcome (Option NavStep)
unfolding point_at
can_redo nav = point_at nav (nav.cursor + 1)

pub commit_undo : UndoNav → UndoNav
commit_undo nav = if ltb 0 nav.cursor then record nav { cursor = nav.cursor - 1 } else nav

pub commit_redo : UndoNav → UndoNav
commit_redo nav =
    if ltb (nav.cursor + 1) (length nav.timeline)
    then record nav { cursor = nav.cursor + 1 }
    else nav

pub commit_goto : UndoNav → ℕ → UndoNav
commit_goto nav index =
    if ltb index (length nav.timeline) then record nav { cursor = index } else nav

pub items : UndoNav → List OpLogItem
items nav = map (λ p. record { label = p.label; oid = p.oid; timestamp = p.timestamp }) nav.timeline

-- The calls that `RepoContext` makes.
pub data Call : Type 0 where
  syncs : Text → Option (Text × Text × UndoKind) → ℤ → Call
  records : Option Text → Text → Text → UndoKind → ℤ → Call
  undoes redoes : Call
  jumps : ℕ → Call

unfoldable pub step : UndoNav → Call → UndoNav
step nav (syncs head boot now) = sync nav head boot now
step nav (records before after label kind now) = record_op nav before after label kind now
step nav undoes = commit_undo nav
step nav redoes = commit_redo nav
step nav (jumps index) = commit_goto nav index

unfoldable pub run : UndoNav → List Call → UndoNav
run nav [] = nav
run nav (c ∷ cs) = run (step nav c) cs
