-- ===== src/Graph/Rows/Straight.antt =====
-- graph.rs: the upper segments of a row.
use git_client.Prelude.{
  ℕ, suc, ◌≡◌, refl, sym, ◌∙◌, inl, inr, true, List, [], ◌∷◌, none, some, All, if◌then◌else◌,
  Bool-cases,
}
use git_client.Graph.{
  LayoutState, Commit, GraphSegDto, as_u32, contains, node_column, columns_awaiting, top_from,
  layout_row, layout_into, layout,
}
use git_client.Graph.Lanes.{contains-columns_awaiting}
use git_client.Graph.Spawning.{Distinct}
use git_client.Graph.Rows.{color_of, row-Distinct, empty-Distinct, awaits-node_column}

abbrev pub IsStraight : GraphSegDto → Type 0
IsStraight s = s.from ≡ s.to

top_from-IsStraight :
    (column color : ℕ) (merging : List ℕ) (k : ℕ) (ls : LayoutState)
    → ((j : ℕ) → contains merging j ≡ true → column ≡ j)
    → All IsStraight (top_from column color merging k ls)
unfolding top_from
top_from-IsStraight column color merging k [] h = tt
top_from-IsStraight column color merging k (none ∷ ls) h =
    top_from-IsStraight column color merging (suc k) ls h
top_from-IsStraight column color merging k (some l ∷ ls) h =
    (straight, top_from-IsStraight column color merging (suc k) ls h)
  where
    straight : as_u32 k ≡ as_u32 (if contains merging k then column else k)
    straight = elim (Bool-cases (contains merging k)) [
      | inl b ↦ rw (b, h k b) refl
      | inr b ↦ rw b refl
    ]

rows-IsStraight :
    (cs : List Commit) (ls : LayoutState)
    → Distinct ls
    → All (λ r. All IsStraight r.top) (layout_into cs ls).1
unfolding layout_into layout_row
rows-IsStraight [] ls d = tt
rows-IsStraight (c ∷ cs) ls d = (
  top_from-IsStraight (node_column c.id ls) (color_of ls c.id) (columns_awaiting c.id 0 ls) 0 ls
      (λ j h. awaits-node_column ls c.id j d (sym (contains-columns_awaiting c.id ls j) ∙ h)),
  rows-IsStraight cs (layout_row ls c).0 (row-Distinct ls c d),
)

-- No two lanes ever wait for the same commit, so the upper half of a row has vertical lines only:
-- branches meet in the lower half of a row, above the commit that they have in common.
pub layout-IsStraight : (cs : List Commit) → All (λ r. All IsStraight r.top) (layout cs)
unfolding layout
layout-IsStraight cs = rows-IsStraight cs [] empty-Distinct
