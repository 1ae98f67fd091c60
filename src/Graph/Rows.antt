-- ===== src/Graph/Rows.antt =====
-- graph.rs: the lanes around one row.
pub mod Continuity
pub mod Arrival
pub mod Straight
use git_client.Prelude.{
  ℕ, zero, suc, ◌+◌, ◌≤◌, ◌<◌, ◌≡◌, ◌⊎◌, refl, sym, ap, subst, ◌∙◌, inl, inr, Bool, true, false,
  not, List, [], ◌∷◌, ◌++◌, Option, none, some, Text, text_eq, text_eq_iff, length, map, All, any,
  ltb, leb, ◌==◌, ==_iff, if◌then◌else◌, Bool-cases, Option-cases, arith,
}
use git_client.Graph.{
  Lane, LayoutState, Commit, GraphSegDto, GraphRowDto, as_u32, is_active, awaits, position,
  ensure_len, lane_at, contains, node_column, node_color, columns_awaiting, clear_columns, spawn,
  spawns, top_from, layout_row, layout_into, layout, unwrap_or,
}
use git_client.Graph.Lanes.{
  position-some, awaits-sha, contains-columns_awaiting, lane_at-ensure_len, length-ensure_len,
  lane_at-clear_columns, length-clear_columns, node_column-lane,
}
use git_client.Graph.Spawning.{Distinct, AreSpawned, spawns-AreSpawned}

-- The lanes of a row once those that wait for its commit are freed.
abbrev pub freed : LayoutState → Text → LayoutState
freed ls id = clear_columns (columns_awaiting id 0 ls) (ensure_len ls (node_column id ls + 1))

pub lane_at-freed :
    (ls : LayoutState) (id : Text) (j : ℕ)
    → lane_at (freed ls id) j ≡ (if awaits id (lane_at ls j) then none else lane_at ls j)
lane_at-freed ls id j =
    rw
      (
        lane_at-clear_columns (columns_awaiting id 0 ls) (ensure_len ls (node_column id ls + 1)) j,
        contains-columns_awaiting id ls j,
        lane_at-ensure_len ls (node_column id ls + 1) j,
      )
      refl

pub freed_column :
    (ls : LayoutState) (id : Text)
    → (node_column id ls < length (freed ls id))
      × (is_active (lane_at (freed ls id) (node_column id ls)) ≡ false)
freed_column ls id = (
  omega (
    arith,
    length-ensure_len ls (node_column id ls + 1),
    length-clear_columns (columns_awaiting id 0 ls) (ensure_len ls (node_column id ls + 1)),
  ),
  elim (node_column-lane id ls) [
    | inl f ↦ ground (arith, lane_at-freed ls id (node_column id ls))
    | inr w ↦ ground (arith, lane_at-freed ls id (node_column id ls))
  ],
)

abbrev pub color_of : LayoutState → Text → ℕ
color_of ls id = node_color (ensure_len ls (node_column id ls + 1)) (node_column id ls)

-- Where the row's parents went.
abbrev pub ways : LayoutState → Commit → List (ℕ × ℕ)
ways ls c = (spawns (node_column c.id ls) (color_of ls c.id) true c.parents (freed ls c.id)).1

pub row-AreSpawned :
    (ls : LayoutState) (c : Commit)
    → AreSpawned c.parents (freed ls c.id) (layout_row ls c).0 (ways ls c)
unfolding layout_row
row-AreSpawned ls c =
    spawns-AreSpawned (node_column c.id ls) (color_of ls c.id) true c.parents (freed ls c.id)
      (λ _. freed_column ls c.id)

pub row-Distinct : (ls : LayoutState) (c : Commit) → Distinct ls → Distinct (layout_row ls c).0
unfolding Distinct
row-Distinct ls c d =
    (row-AreSpawned ls c).distinct (λ i j a b x y e. d i j a b (was c.id i a x) (was c.id j b y) e)
  where
    was : (id : Text) (k : ℕ) (a : Lane) → lane_at (freed ls id) k ≡ some a → lane_at ls k ≡ some a
    was id k a h = ground (arith, lane_at-freed ls id k)

-- A lane that waits for another commit stays.
pub row_keeps :
    (ls : LayoutState) (c : Commit) (k : ℕ)
    → is_active (lane_at ls k) ≡ true
    → awaits c.id (lane_at ls k) ≡ false
    → lane_at (layout_row ls c).0 k ≡ lane_at ls k
row_keeps ls c k a w =
    let f = lane_at-freed ls c.id k in
    let s = row-AreSpawned ls c in s.kept k (ground arith) ∙ ground arith

pub layout_into-Distinct :
    (cs : List Commit) (ls : LayoutState) → Distinct ls → Distinct (layout_into cs ls).0
unfolding layout_into
layout_into-Distinct [] ls d = d
layout_into-Distinct (c ∷ cs) ls d =
    layout_into-Distinct cs (layout_row ls c).0 (row-Distinct ls c d)

pub empty-Distinct : Distinct []
unfolding Distinct
empty-Distinct i j a b x y e = cc

pub awaits-some :
    (id : Text) (l : Option Lane) → awaits id l ≡ true → (a : Lane) × (l ≡ some a) × (a.sha ≡ id)
awaits-some id none h = absurd (cc)
awaits-some id (some a) h = (a, refl, (text_eq_iff a.sha id).0 h)

-- The one lane that waits for a commit is in the commit's column.
pub awaits-node_column :
    (ls : LayoutState) (id : Text) (k : ℕ)
    → Distinct ls
    → awaits id (lane_at ls k) ≡ true
    → node_column id ls ≡ k
unfolding Distinct node_column
awaits-node_column ls id k d w = elim (Option-cases (position (awaits id) ls)) [
  | inl n ↦ absurd (ground (arith, awaits-sha id ls n k))
  | inr (j, e) ↦
      let (a, x, p) = awaits-some id (lane_at ls j) (position-some (awaits id) ls j e).0 in
      let (b, y, q) = awaits-some id (lane_at ls k) w in rw e (d j k a b x y (p ∙ sym q))
]
