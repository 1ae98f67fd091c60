-- ===== src/Graph.antt =====
-- crates/app-service/src/graph.rs: the lanes of the commit graph. The rows are data of
-- crates/ipc-types; of a commit its identifier and its parents are kept. `usize as u32` is `as_u32`.
pub mod Lanes
pub mod Spawning
pub mod Rows
mod Tests
use git_client.Prelude.{
  ℕ, zero, suc, ◌+◌, ◌-◌, ◌%◌, ◌^◌, Bool, true, false, not, ◌&&◌, ◌||◌, List, [], ◌∷◌, ◌++◌, Option,
  none, some, Text, text_eq, length, any, get_elem?, ltb, ◌==◌, if◌then◌else◌,
}

pub record Commit : Type 0 where
  pub id : Text
  pub parents : List Text

pub record GraphSegDto : Type 0 where
  pub from : ℕ
  pub to : ℕ
  pub color : ℕ

pub record GraphRowDto : Type 0 where
  pub commit : Commit
  pub column : ℕ
  pub color : ℕ
  pub top : List GraphSegDto
  pub bottom : List GraphSegDto
  pub refs : List Text
  pub sync : Text

pub record Lane : Type 0 where
  pub sha : Text
  pub color : ℕ

-- `LayoutState`: column `k` waits for the commit of its lane, or is free.
abbrev pub LayoutState : Type 0
LayoutState = List (Option Lane)

abbrev pub as_u32 : ℕ → ℕ
as_u32 n = n % 2 ^ 32

abbrev pub is_active : Option Lane → Bool
is_active none = false
is_active (some l) = true

abbrev pub awaits : Text → Option Lane → Bool
awaits sha none = false
awaits sha (some l) = text_eq l.sha sha

-- `iter().position(p)`.
pub position : (Option Lane → Bool) → LayoutState → Option ℕ
position p [] = none
position p (l ∷ ls) =
    let later : Option ℕ = elim (position p ls) [ none ↦ none | some k ↦ some (suc k) ] in
    if p l then some zero else later

abbrev pub unwrap_or : Option ℕ → ℕ → ℕ
unwrap_or none n = n
unwrap_or (some k) n = k

pub first_free : LayoutState → ℕ
first_free ls = unwrap_or (position (λ l. not (is_active l)) ls) (length ls)

free_lanes : ℕ → LayoutState
free_lanes zero = []
free_lanes (suc n) = none ∷ free_lanes n

pub ensure_len : LayoutState → ℕ → LayoutState
unfolding free_lanes
ensure_len ls n = if ltb (length ls) n then ls ++ free_lanes (n - length ls) else ls

-- The lane in a column; there is none in a column behind the last one.
abbrev pub lane_at : LayoutState → ℕ → Option Lane
lane_at [] k = none
lane_at (l ∷ ls) zero = l
lane_at (l ∷ ls) (suc k) = lane_at ls k

pub was_active : LayoutState → ℕ → Bool
was_active before k = is_active (lane_at before k)

-- The write `lanes[k] = l`, at a column that is there.
pub set_lane : ℕ → Option Lane → LayoutState → LayoutState
set_lane k l [] = []
set_lane zero l (x ∷ ls) = l ∷ ls
set_lane (suc k) l (x ∷ ls) = x ∷ set_lane k l ls

uses_color : ℕ → Option Lane → Bool
uses_color c none = false
uses_color c (some l) = l.color == c

-- The first color from `c` on, of those left, that no lane has.
color_from : ℕ → ℕ → LayoutState → ℕ
unfolding uses_color
color_from zero c ls = 0
color_from (suc left) c ls =
    let next = color_from left (suc c) ls in if any (uses_color c) ls then next else c

pub pick_color : LayoutState → ℕ
unfolding color_from
pick_color ls = color_from 8 0 ls

-- The column of a commit, and its color.
pub node_column : Text → LayoutState → ℕ
node_column id ls = unwrap_or (position (awaits id) ls) (first_free ls)

pub node_color : LayoutState → ℕ → ℕ
node_color ls column = elim (lane_at ls column) [ some l ↦ l.color | none ↦ pick_color ls ]

-- `merging`, from column `k` on.
pub columns_awaiting : Text → ℕ → LayoutState → List ℕ
columns_awaiting id k [] = []
columns_awaiting id k (l ∷ ls) =
    let later = columns_awaiting id (suc k) ls in if awaits id l then k ∷ later else later

pub clear_columns : List ℕ → LayoutState → LayoutState
unfolding set_lane
clear_columns [] ls = ls
clear_columns (k ∷ ks) ls = clear_columns ks (set_lane k none ls)

abbrev pub contains : List ℕ → ℕ → Bool
contains ks k = any (λ j. j == k) ks

module _ (column color : ℕ) where
  -- What a parent leads to: the lanes behind it, and the column and the color of its segment.
  pub spawn : Bool → Text → LayoutState → LayoutState × (ℕ × ℕ)
  unfolding set_lane ensure_len
  spawn first parent ls = elim (position (awaits parent) ls) [
    | some k ↦ (ls, (k, color))
    | none ↦
        if first
        then (set_lane column (some (record { sha = parent; color = color })) ls, (column, color))
        else let k = first_free ls in
          let longer = ensure_len ls (k + 1) in
          let fresh = pick_color longer in
          (set_lane k (some (record { sha = parent; color = fresh })) longer, (k, fresh))
  ]

  pub spawns : Bool → List Text → LayoutState → LayoutState × List (ℕ × ℕ)
  unfolding spawn
  spawns first [] ls = (ls, [])
  spawns first (p ∷ ps) ls =
      let (ls', s) = spawn first p ls in let (ls'', ss) = spawns false ps ls' in (ls'', s ∷ ss)

  -- The upper half of a row: every lane before it, from column `k` on.
  pub top_from : List ℕ → ℕ → LayoutState → List GraphSegDto
  top_from merging k [] = []
  top_from merging k (none ∷ ls) = top_from merging (suc k) ls
  top_from merging k (some l ∷ ls) =
      record {
        from = as_u32 k;
        to = as_u32 (if contains merging k then column else k);
        color = l.color;
      }
      ∷ top_from merging (suc k) ls

  pub spawned : List (ℕ × ℕ) → List GraphSegDto
  spawned [] = []
  spawned ((to, c) ∷ ss) = record { from = as_u32 column; to = as_u32 to; color = c } ∷ spawned ss

  -- The lanes that the row leaves alone, from column `k` on.
  pub through : LayoutState → List ℕ → ℕ → LayoutState → List GraphSegDto
  through before merging k [] = []
  through before merging k (none ∷ ls) = through before merging (suc k) ls
  through before merging k (some l ∷ ls) =
      let later = through before merging (suc k) ls in
      if k == column || contains merging k || not (was_active before k)
      then later
      else record { from = as_u32 k; to = as_u32 k; color = l.color } ∷ later

-- One round of `layout_into`.
pub layout_row : LayoutState → Commit → LayoutState × GraphRowDto
unfolding node_column node_color columns_awaiting clear_columns spawns top_from spawned through
layout_row before c =
    let column = node_column c.id before in
    let lanes = ensure_len before (column + 1) in
    let color = node_color lanes column in
    let merging = columns_awaiting c.id 0 before in
    let (after, ss) = spawns column color true c.parents (clear_columns merging lanes) in
    (
      after,
      record {
        commit = c;
        column = as_u32 column;
        color = color;
        top = top_from column color merging 0 before;
        bottom = spawned column color ss ++ through column color before merging 0 after;
        refs = [];
        sync = [];
      },
    )

pub layout_into : List Commit → LayoutState → LayoutState × List GraphRowDto
unfolding layout_row
layout_into [] ls = (ls, [])
layout_into (c ∷ cs) ls =
    let (ls', row) = layout_row ls c in let (ls'', rows) = layout_into cs ls' in (ls'', row ∷ rows)

pub layout : List Commit → List GraphRowDto
unfolding layout_into
layout cs = (layout_into cs []).1
