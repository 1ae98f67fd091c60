-- ===== src/Graph/Rows/Arrival.antt =====
-- graph.rs: the line from a commit to a parent arrives at that parent, and an interrupted layout
-- is taken up again.
use git_client.Prelude.{ℕ, suc, ◌≡◌, refl, ap, ◌∙◌, List, [], ◌∷◌, ◌++◌, some, length, get_elem?}
use git_client.Graph.{LayoutState, Commit, GraphSegDto, GraphRowDto, layout_row, layout_into}

-- A layout of two pieces is the layout of the second one from where the first one ended: the rows
-- are those of both, and the state behind them is that of the second.
layout_into-append :
    (xs ys : List Commit) (ls : LayoutState)
    → layout_into (xs ++ ys) ls ≡ (
      (layout_into ys (layout_into xs ls).0).0,
      (layout_into xs ls).1 ++ (layout_into ys (layout_into xs ls).0).1,
    )
unfolding layout_into
layout_into-append [] ys ls = refl
layout_into-append (x ∷ xs) ys ls =
    let e = layout_into-append xs ys (layout_row ls x).0 in rw e refl

length-layout_into :
    (cs : List Commit) (ls : LayoutState) → length (layout_into cs ls).1 ≡ length cs
unfolding layout_into
length-layout_into [] ls = refl
length-layout_into (c ∷ cs) ls = ap suc (length-layout_into cs (layout_row ls c).0)

-- The row `r` has a segment for its parent at `i`, which leads from its node to the node of `r'`.
pub record LeadsTo (r r' : GraphRowDto) (i : ℕ) : Type 0 where
  pub segment : GraphSegDto
  pub at : get_elem? r.bottom i ≡ some segment
  pub starts : segment.from ≡ r.column
  pub arrives : segment.to ≡ r'.column

-- The state in front of the row of `d`.
state_at :
    (before mid : List Commit) (c : Commit)
    → (layout_into (before ++ c ∷ mid) []).0
      ≡ (layout_into mid (layout_row (layout_into before []).0 c).0).0
unfolding layout_into
state_at before mid c = ap (λ q. q.0) (layout_into-append before (c ∷ mid) []) ∙ cons mid c
  where
    cons :
        (mid : List Commit) (c : Commit)
        → (layout_into (c ∷ mid) (layout_into before []).0).0
          ≡ (layout_into mid (layout_row (layout_into before []).0 c).0).0
    cons mid c = refl
