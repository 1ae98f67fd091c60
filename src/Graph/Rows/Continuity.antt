-- ===== src/Graph/Rows/Continuity.antt =====
-- graph.rs: the segments of neighbouring rows meet.
use git_client.Prelude.{
  ℕ, zero, suc, ◌+◌, ◌<◌, ◌≡◌, refl, sym, ap, subst, ◌∙◌, inl, inr, Bool, true, false, not, ◌&&◌,
  ◌||◌, List, [], ◌∷◌, ◌++◌, none, some, map, ◌==◌, ==_iff, if◌then◌else◌, Bool-cases, arith,
}
use mathlib.Core.List.{map-append}
use git_client.Graph.{
  LayoutState, Commit, GraphSegDto, GraphRowDto, as_u32, is_active, lane_at, contains, node_column,
  columns_awaiting, spawned, through, was_active, top_from, layout_row, layout_into,
}
use git_client.Graph.Lanes.{contains-columns_awaiting}
use git_client.Graph.Spawning.{columns_of}
use git_client.Graph.Rows.{lane_at-freed, freed_column, color_of, ways, row-AreSpawned}

-- The active columns, from column `k` on.
active_from : ℕ → LayoutState → List ℕ
active_from k [] = []
active_from k (none ∷ ls) = active_from (suc k) ls
active_from k (some l ∷ ls) = k ∷ active_from (suc k) ls

active_below : (o : ℕ) (ls : LayoutState) (n : ℕ) → n < o → contains (active_from o ls) n ≡ false
unfolding active_from
active_below o [] n h = refl
active_below o (none ∷ ls) n h = active_below (suc o) ls n (omega arith)
active_below o (some l ∷ ls) n h = ground (arith, active_below (suc o) ls n (omega arith))

active_at :
    (o : ℕ) (ls : LayoutState) (k : ℕ)
    → contains (active_from o ls) (o + k) ≡ is_active (lane_at ls k)
unfolding active_from
active_at o [] k = refl
active_at o (none ∷ ls) zero = ground (arith, active_below (suc o) ls o (omega arith))
active_at o (none ∷ ls) (suc k) = ground (arith, active_at (suc o) ls k)
active_at o (some l ∷ ls) zero = ground (arith, active_below (suc o) ls o (omega arith))
active_at o (some l ∷ ls) (suc k) = ground (arith, active_at (suc o) ls k)

-- The active columns that are not skipped, from column `k` on.
module _ (skips : ℕ → Bool) where
  through_from : ℕ → LayoutState → List ℕ
  through_from k [] = []
  through_from k (none ∷ ls) = through_from (suc k) ls
  through_from k (some l ∷ ls) =
      let later = through_from (suc k) ls in if skips k then later else k ∷ later

  through_below :
      (o : ℕ) (ls : LayoutState) (n : ℕ) → n < o → contains (through_from o ls) n ≡ false
  unfolding through_from
  through_below o [] n h = refl
  through_below o (none ∷ ls) n h = through_below (suc o) ls n (omega arith)
  through_below o (some l ∷ ls) n h = ground (arith, through_below (suc o) ls n (omega arith))

  through_at :
      (o : ℕ) (ls : LayoutState) (k m : ℕ)
      → m ≡ o + k
      → contains (through_from o ls) m ≡ (is_active (lane_at ls k) && not (skips m))
  unfolding through_from
  through_at o [] k m h = refl
  through_at o (none ∷ ls) zero m h = through_below (suc o) ls m (omega (arith, h))
  through_at o (none ∷ ls) (suc k) m h = through_at (suc o) ls k m (omega (arith, h))
  through_at o (some l ∷ ls) zero m h =
      let e : m ≡ o = omega (arith, h) in
      rw e (ground (arith, through_below (suc o) ls o (omega arith)))
  through_at o (some l ∷ ls) (suc k) m h =
      ground (arith, through_at (suc o) ls k m (omega (arith, h)))

map_choice :
    (b : Bool) (s : GraphSegDto) (k : ℕ) (segs : List GraphSegDto) (ks : List ℕ)
    → s.to ≡ as_u32 k
    → map (λ s. s.to) segs ≡ map as_u32 ks
    → map (λ s. s.to) (if b then segs else s ∷ segs) ≡ map as_u32 (if b then ks else k ∷ ks)
map_choice true s k segs ks e h = h
map_choice false s k segs ks e h = rw (e, h) refl

map_both :
    (ss ts : List GraphSegDto) (xs ys : List ℕ)
    → map (λ s. s.to) ss ≡ map as_u32 xs
    → map (λ s. s.to) ts ≡ map as_u32 ys
    → map (λ s. s.to) (ss ++ ts) ≡ map as_u32 (xs ++ ys)
map_both ss ts xs ys h k = rw (map-append (λ s. s.to) ss ts, map-append as_u32 xs ys, h, k) refl

contains-append :
    (xs ys : List ℕ) (k : ℕ) → contains (xs ++ ys) k ≡ (contains xs k || contains ys k)
contains-append [] ys k = refl
contains-append (x ∷ xs) ys k = ground (arith, contains-append xs ys k)

module _ (f : ℕ → ℕ) where
  image :
      (xs : List ℕ) (n : ℕ)
      → contains (map f xs) n ≡ true
      → (k : ℕ) × (contains xs k ≡ true) × (f k ≡ n)
  image [] n h = absurd (cc)
  image (x ∷ xs) n h = elim (Bool-cases (f x == n)) [
    | inl e ↦ (x, ground arith, (==_iff (f x) n).0 e)
    | inr e ↦ let (k, c, q) = image xs n (ground arith) in (k, ground arith, q)
  ]

  contains-map : (xs : List ℕ) (k : ℕ) → contains xs k ≡ true → contains (map f xs) (f k) ≡ true
  contains-map [] k h = cc
  contains-map (x ∷ xs) k h = elim (Bool-cases (x == k)) [
    | inl e ↦ rw ((==_iff x k).0 e) (ground arith)
    | inr e ↦ ground (arith, contains-map xs k)
  ]

  image_le :
      (xs ys : List ℕ)
      → ((k : ℕ) → contains xs k ≡ contains ys k)
      → (n : ℕ) → contains (map f xs) n ≡ true
      → contains (map f ys) n ≡ true
  image_le xs ys same n h =
      let (k, c, e) = image xs n h in
      subst (λ n. contains (map f ys) n ≡ true) e (contains-map ys k (sym (same k) ∙ c))

  same_image :
      (xs ys : List ℕ)
      → ((k : ℕ) → contains xs k ≡ contains ys k)
      → (n : ℕ) → contains (map f xs) n ≡ contains (map f ys) n
  same_image xs ys same n =
      ground (arith, image_le xs ys same n, image_le ys xs (λ k. sym (same k)) n)

module _ (column color : ℕ) where
  from-top_from :
      (merging : List ℕ) (k : ℕ) (ls : LayoutState)
      → map (λ s. s.from) (top_from column color merging k ls) ≡ map as_u32 (active_from k ls)
  unfolding top_from active_from
  from-top_from merging k [] = refl
  from-top_from merging k (none ∷ ls) = from-top_from merging (suc k) ls
  from-top_from merging k (some l ∷ ls) = ap (◌∷◌ (as_u32 k)) (from-top_from merging (suc k) ls)

  to-spawned :
      (ss : List (ℕ × ℕ)) → map (λ s. s.to) (spawned column color ss) ≡ map as_u32 (columns_of ss)
  unfolding spawned
  to-spawned [] = refl
  to-spawned ((k, c) ∷ ss) = ap (◌∷◌ (as_u32 k)) (to-spawned ss)

  module _ (before : LayoutState) (merging : List ℕ) where
    abbrev skipped : ℕ → Bool
    skipped k = k == column || contains merging k || not (was_active before k)

    to-through :
        (k : ℕ) (ls : LayoutState)
        → map (λ s. s.to) (through column color before merging k ls)
          ≡ map as_u32 (through_from skipped k ls)
    unfolding through through_from
    to-through k [] = refl
    to-through k (none ∷ ls) = to-through (suc k) ls
    to-through k (some l ∷ ls) =
        map_choice (skipped k) (record { from = as_u32 k; to = as_u32 k; color = l.color }) k _ _
          refl (to-through (suc k) ls)

-- Where the segments of a row start at its upper edge and end at its lower one.
abbrev pub starts : GraphRowDto → List ℕ
starts r = map (λ s. s.from) r.top

abbrev pub ends : GraphRowDto → List ℕ
ends r = map (λ s. s.to) r.bottom

module _ (ls : LayoutState) (c : Commit) where
  abbrev column : ℕ
  column = node_column c.id ls

  abbrev after : LayoutState
  after = (layout_row ls c).0

  abbrev passing : ℕ → Bool
  passing = skipped column (color_of ls c.id) ls (columns_awaiting c.id 0 ls)

  end_columns : List ℕ
  end_columns = columns_of (ways ls c) ++ through_from passing 0 after

  ends-end_columns : ends (layout_row ls c).1 ≡ map as_u32 end_columns
  unfolding layout_row end_columns
  ends-end_columns =
      map_both _ _ (columns_of (ways ls c)) (through_from passing 0 after)
        (to-spawned column (color_of ls c.id) (ways ls c))
        (to-through column (color_of ls c.id) ls (columns_awaiting c.id 0 ls) 0 after)

  starts-active : starts (layout_row ls c).1 ≡ map as_u32 (active_from 0 ls)
  unfolding layout_row
  starts-active = from-top_from column (color_of ls c.id) (columns_awaiting c.id 0 ls) 0 ls

  -- A lane behind the row that no parent leads to passes the row.
  passes :
      (k : ℕ)
      → contains (columns_of (ways ls c)) k ≡ false
      → is_active (lane_at after k) ≡ true
      → passing k ≡ false
  unfolding was_active
  passes k n a =
      let o = (row-AreSpawned ls c).others k n in
      let f = lane_at-freed ls c.id k in
      let w = contains-columns_awaiting c.id ls k in
      let apart : (k ≡ column → ⊥) = λ e. ground (arith, freed_column ls c.id) in ground arith

  contains-end_columns : (k : ℕ) → contains end_columns k ≡ is_active (lane_at after k)
  unfolding end_columns
  contains-end_columns k = ground (
    arith,
    contains-append (columns_of (ways ls c)) (through_from passing 0 after) k,
    through_at passing 0 after k k (omega arith),
    passes k,
    (row-AreSpawned ls c).reached k,
  )

-- Each row's segments end where those of the next one start.
pub Joined : List GraphRowDto → Type 0
Joined [] = Unit
Joined (r ∷ []) = Unit
Joined (r ∷ r' ∷ rs) = ((n : ℕ) → contains (ends r) n ≡ contains (starts r') n) × Joined (r' ∷ rs)

ends-starts :
    (ls : LayoutState) (c d : Commit) (n : ℕ)
    → contains (ends (layout_row ls c).1) n
      ≡ contains (starts (layout_row (layout_row ls c).0 d).1) n
ends-starts ls c d n =
    let after = (layout_row ls c).0 in
    ap (λ xs. contains xs n) (ends-end_columns ls c)
    ∙ same_image as_u32 (end_columns ls c) (active_from 0 after)
        (λ k.
          contains-end_columns ls c k
          ∙ sym (
              subst (λ m. contains (active_from 0 after) m ≡ is_active (lane_at after k))
                (omega arith) (active_at 0 after k)))
        n
    ∙ ap (λ xs. contains xs n) (sym (starts-active after d))

-- From any state on, the lower segments of each row end in exactly the columns in which the upper
-- segments of the next row start: no line breaks off between two rows, and none begins there.
pub layout_into-Joined : (cs : List Commit) (ls : LayoutState) → Joined (layout_into cs ls).1
unfolding layout_into Joined
layout_into-Joined [] ls = tt
layout_into-Joined (c ∷ []) ls = tt
layout_into-Joined (c ∷ d ∷ cs) ls =
    (ends-starts ls c d, layout_into-Joined (d ∷ cs) (layout_row ls c).0)
