-- ===== src/Graph/Lanes.antt =====
-- graph.rs: columns and lanes, by the lane that each column holds.
use git_client.Prelude.{
  ℕ, zero, suc, ◌+◌, ◌-◌, ◌≤◌, ◌<◌, ◌≡◌, refl, ap, subst, ◌∙◌, ◌⊎◌, inl, inr, Bool, true, false,
  not, List, [], ◌∷◌, ◌++◌, Option, none, some, Text, length, length-append, ltb, ◌==◌,
  if◌then◌else◌, Bool-cases, Option-cases, ltb→lt, arith,
}
use git_client.Graph.{
  Lane, LayoutState, is_active, awaits, position, first_free, free_lanes, ensure_len, lane_at,
  set_lane, node_column, columns_awaiting, clear_columns, contains,
}

pub position-some :
    (p : Option Lane → Bool) (ls : LayoutState) (k : ℕ)
    → position p ls ≡ some k
    → (p (lane_at ls k) ≡ true) × (k < length ls)
unfolding position
position-some p [] k h = absurd (cc)
position-some p (l ∷ ls) zero h = ground arith
position-some p (l ∷ ls) (suc k) h =
    let (x, y) = position-some p ls k (ground arith) in (x, omega (arith, y))

position-none :
    (p : Option Lane → Bool) (ls : LayoutState)
    → position p ls ≡ none
    → (k : ℕ) → k < length ls
    → p (lane_at ls k) ≡ false
unfolding position
position-none p [] h k b = elim b [ ]
position-none p (l ∷ ls) h zero b = ground arith
position-none p (l ∷ ls) h (suc k) b = position-none p ls (ground arith) k (omega arith)

pub lane_at-behind : (ls : LayoutState) (k : ℕ) → length ls ≤ k → lane_at ls k ≡ none
lane_at-behind [] k h = refl
lane_at-behind (l ∷ ls) zero h = elim h [ ]
lane_at-behind (l ∷ ls) (suc k) h = lane_at-behind ls k (omega arith)

lane_at-free : (n k : ℕ) → lane_at (free_lanes n) k ≡ none
unfolding free_lanes
lane_at-free zero k = refl
lane_at-free (suc n) zero = refl
lane_at-free (suc n) (suc k) = lane_at-free n k

lane_at-append_free : (ls : LayoutState) (n k : ℕ) → lane_at (ls ++ free_lanes n) k ≡ lane_at ls k
lane_at-append_free [] n k = lane_at-free n k
lane_at-append_free (l ∷ ls) n zero = refl
lane_at-append_free (l ∷ ls) n (suc k) = lane_at-append_free ls n k

pub lane_at-ensure_len : (ls : LayoutState) (n k : ℕ) → lane_at (ensure_len ls n) k ≡ lane_at ls k
unfolding ensure_len
lane_at-ensure_len ls n k = ground (arith, lane_at-append_free ls (n - length ls) k)

length-free_lanes : (n : ℕ) → length (free_lanes n) ≡ n
unfolding free_lanes
length-free_lanes zero = refl
length-free_lanes (suc n) = ap suc (length-free_lanes n)

pub length-ensure_len : (ls : LayoutState) (n : ℕ) → n ≤ length (ensure_len ls n)
unfolding ensure_len
length-ensure_len ls n =
    ground (arith, length-append ls (free_lanes (n - length ls)), length-free_lanes (n - length ls))

pub length-ensure_len_ge : (ls : LayoutState) (n : ℕ) → length ls ≤ length (ensure_len ls n)
unfolding ensure_len
length-ensure_len_ge ls n = ground (arith, length-append ls (free_lanes (n - length ls)))

pub lane_at-set_lane :
    (k : ℕ) (l : Option Lane) (ls : LayoutState) (j : ℕ)
    → k < length ls
    → lane_at (set_lane k l ls) j ≡ (if k == j then l else lane_at ls j)
unfolding set_lane
lane_at-set_lane k l [] j h = elim h [ ]
lane_at-set_lane zero l (x ∷ ls) zero h = refl
lane_at-set_lane zero l (x ∷ ls) (suc j) h = ground arith
lane_at-set_lane (suc k) l (x ∷ ls) zero h = ground arith
lane_at-set_lane (suc k) l (x ∷ ls) (suc j) h =
    ground (arith, lane_at-set_lane k l ls j (omega arith))

-- Freeing a column that is not there changes nothing either.
pub lane_at-set_lane-none :
    (k : ℕ) (ls : LayoutState) (j : ℕ)
    → lane_at (set_lane k none ls) j ≡ (if k == j then none else lane_at ls j)
unfolding set_lane
lane_at-set_lane-none k [] j = ground arith
lane_at-set_lane-none zero (x ∷ ls) zero = refl
lane_at-set_lane-none zero (x ∷ ls) (suc j) = ground arith
lane_at-set_lane-none (suc k) (x ∷ ls) zero = ground arith
lane_at-set_lane-none (suc k) (x ∷ ls) (suc j) = ground (arith, lane_at-set_lane-none k ls j)

pub length-set_lane :
    (k : ℕ) (l : Option Lane) (ls : LayoutState) → length (set_lane k l ls) ≡ length ls
unfolding set_lane
length-set_lane k l [] = refl
length-set_lane zero l (x ∷ ls) = refl
length-set_lane (suc k) l (x ∷ ls) = ap suc (length-set_lane k l ls)

pub lane_at-clear_columns :
    (ks : List ℕ) (ls : LayoutState) (j : ℕ)
    → lane_at (clear_columns ks ls) j ≡ (if contains ks j then none else lane_at ls j)
unfolding clear_columns
lane_at-clear_columns [] ls j = refl
lane_at-clear_columns (k ∷ ks) ls j =
    ground (arith, lane_at-clear_columns ks (set_lane k none ls) j, lane_at-set_lane-none k ls j)

pub length-clear_columns :
    (ks : List ℕ) (ls : LayoutState) → length (clear_columns ks ls) ≡ length ls
unfolding clear_columns
length-clear_columns [] ls = refl
length-clear_columns (k ∷ ks) ls =
    length-clear_columns ks (set_lane k none ls) ∙ length-set_lane k none ls

columns_below :
    (id : Text) (o : ℕ) (ls : LayoutState) (n : ℕ)
    → n < o
    → contains (columns_awaiting id o ls) n ≡ false
unfolding columns_awaiting
columns_below id o [] n h = refl
columns_below id o (l ∷ ls) n h = ground (arith, columns_below id (suc o) ls n (omega arith))

columns_from :
    (id : Text) (o : ℕ) (ls : LayoutState) (k : ℕ)
    → contains (columns_awaiting id o ls) (o + k) ≡ awaits id (lane_at ls k)
unfolding columns_awaiting
columns_from id o [] k = refl
columns_from id o (l ∷ ls) zero = ground (arith, columns_below id (suc o) ls o (omega arith))
columns_from id o (l ∷ ls) (suc k) = ground (arith, columns_from id (suc o) ls k)

pub contains-columns_awaiting :
    (id : Text) (ls : LayoutState) (k : ℕ)
    → contains (columns_awaiting id 0 ls) k ≡ awaits id (lane_at ls k)
contains-columns_awaiting id ls k =
    subst (λ n. contains (columns_awaiting id 0 ls) n ≡ awaits id (lane_at ls k)) (omega arith)
      (columns_from id 0 ls k)

pub first_free-free : (ls : LayoutState) → is_active (lane_at ls (first_free ls)) ≡ false
unfolding first_free
first_free-free ls = elim (Option-cases (position (λ l. not (is_active l)) ls)) [
  | inl n ↦ rw (n, lane_at-behind ls (length ls) (omega arith)) refl
  | inr (k, e) ↦ rw e (ground (arith, (position-some (λ l. not (is_active l)) ls k e).0))
]

-- The column of a commit is free or waits for the commit.
pub node_column-lane :
    (id : Text) (ls : LayoutState)
    → (is_active (lane_at ls (node_column id ls)) ≡ false)
      ⊎ (awaits id (lane_at ls (node_column id ls)) ≡ true)
unfolding node_column
node_column-lane id ls = elim (Option-cases (position (awaits id) ls)) [
  | inl n ↦ rw n (inl (first_free-free ls))
  | inr (k, e) ↦ rw e (inr (position-some (awaits id) ls k e).0)
]

pub awaits-sha :
    (sha : Text) (ls : LayoutState)
    → position (awaits sha) ls ≡ none
    → (k : ℕ) → awaits sha (lane_at ls k) ≡ false
awaits-sha sha ls h k = elim (Bool-cases (ltb k (length ls))) [
  | inl b ↦ position-none (awaits sha) ls h k (ltb→lt k (length ls) b)
  | inr b ↦ rw (lane_at-behind ls k (ground arith)) refl
]
