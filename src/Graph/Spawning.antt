-- ===== src/Graph/Spawning.antt =====
-- graph.rs: what the parents of a commit do to the lanes.
use git_client.Prelude.{
  ℕ, ◌+◌, ◌≤◌, ◌<◌, ◌≡◌, ◌⊎◌, refl, sym, ◌∙◌, inl, inr, Bool, true, false, List, [], ◌∷◌, Option,
  none, some, Text, text_eq_iff, length, map, ◌==◌, if◌then◌else◌, Bool-cases, Option-cases, arith,
}
use git_client.Graph.{
  Lane, LayoutState, is_active, awaits, position, first_free, ensure_len, lane_at, set_lane,
  contains, spawn, spawns, pick_color,
}
use git_client.Graph.Lanes.{
  position-some, awaits-sha, lane_at-ensure_len, length-ensure_len, length-ensure_len_ge,
  lane_at-set_lane, length-set_lane, first_free-free,
}

-- No two lanes wait for the same commit.
unfoldable pub Distinct : LayoutState → Type 0
Distinct ls =
    (i j : ℕ) (a b : Lane) → lane_at ls i ≡ some a → lane_at ls j ≡ some b → a.sha ≡ b.sha → i ≡ j

-- What a parent leaves: its lane at the column returned, and every other lane as it was.
pub record IsSpawned (parent : Text) (ls ls' : LayoutState) (k : ℕ) : Type 0 where
  pub grown : length ls ≤ length ls'
  pub waits : awaits parent (lane_at ls' k) ≡ true
  pub others : (j : ℕ) → (k ≡ j → ⊥) → lane_at ls' j ≡ lane_at ls j
  -- The lane is new, or it was there.
  pub origin :
      (lane_at ls' k ≡ lane_at ls k)
      ⊎ ((is_active (lane_at ls k) ≡ false) × ((j : ℕ) → awaits parent (lane_at ls j) ≡ false))

put-IsSpawned :
    (parent : Text) (ls longer : LayoutState) (k color : ℕ)
    → position (awaits parent) ls ≡ none
    → length ls ≤ length longer
    → k < length longer
    → ((j : ℕ) → lane_at longer j ≡ lane_at ls j)
    → is_active (lane_at ls k) ≡ false
    → IsSpawned parent ls (set_lane k (some (record { sha = parent; color = color })) longer) k
put-IsSpawned parent ls longer k color n g b same free = record {
  grown = rw (length-set_lane k (some (record { sha = parent; color = color })) longer) g;
  waits = rw (written k) (ground (arith, text_eq_iff parent parent));
  others = λ j d. other j d;
  origin = inr (free, awaits-sha parent ls n);
}
  where
    lane : Option Lane
    lane = some (record { sha = parent; color = color })

    written :
        (j : ℕ) → lane_at (set_lane k lane longer) j ≡ (if k == j then lane else lane_at longer j)
    written j = lane_at-set_lane k lane longer j b

    other : (j : ℕ) → (k ≡ j → ⊥) → lane_at (set_lane k lane longer) j ≡ lane_at ls j
    other j d = ground (arith, written j, same j)

module _ (column color : ℕ) where
  pub spawn-IsSpawned :
      (first : Bool) (parent : Text) (ls : LayoutState)
      → (first ≡ true → (column < length ls) × (is_active (lane_at ls column) ≡ false))
      → IsSpawned parent ls
          (spawn column color first parent ls).0
          (spawn column color first parent ls).1.0
  unfolding spawn
  spawn-IsSpawned first parent ls room = elim (Option-cases (position (awaits parent) ls)) [
    | inr (k, e) ↦
        rw (e, spawn)
          (record {
            grown = omega arith;
            waits = (position-some (awaits parent) ls k e).0;
            others = λ j d. refl;
            origin = inl refl;
          })
    | inl n ↦ elim (Bool-cases first) [
      | inl f ↦
          rw (n, spawn, f)
            (put-IsSpawned parent ls ls column color n (omega arith) (room f).0 (λ j. refl)
              (room f).1)
      | inr f ↦
          rw (n, spawn, f)
            (put-IsSpawned parent ls (ensure_len ls (first_free ls + 1)) (first_free ls)
              (pick_color (ensure_len ls (first_free ls + 1))) n
              (length-ensure_len_ge ls (first_free ls + 1))
              (omega (arith, length-ensure_len ls (first_free ls + 1)))
              (lane_at-ensure_len ls (first_free ls + 1)) (first_free-free ls))
    ]
  ]

module _ (parent : Text) (ls ls' : LayoutState) (k : ℕ) (s : IsSpawned parent ls ls' k)
    (d : Distinct ls) where
  apart :
      (j : ℕ) (a b : Lane)
      → (k ≡ j → ⊥)
      → lane_at ls' k ≡ some a
      → lane_at ls' j ≡ some b
      → a.sha ≡ b.sha
      → ⊥
  unfolding Distinct
  apart j a b n x y e = elim s.origin [
    | inl o ↦ n (d k j a b (sym o ∙ x) (sym (s.others j n) ∙ y) e)
    | inr (free, w) ↦
        ground
          (arith, w j, s.others j n, s.waits, text_eq_iff a.sha parent, text_eq_iff b.sha parent)
  ]

  pub IsSpawned-Distinct : Distinct ls'
  unfolding Distinct
  IsSpawned-Distinct i j a b x y e = elim (Bool-cases (k == i)) [
    | inl p ↦ elim (Bool-cases (k == j)) [
      | inl q ↦ ground arith
      | inr q ↦ absurd (apart j a b (ground arith) (ground arith) y e)
    ]
    | inr p ↦ elim (Bool-cases (k == j)) [
      | inl q ↦ absurd (apart i b a (ground arith) (ground arith) x (sym e))
      | inr q ↦
          d i j a b (sym (s.others i (ground arith)) ∙ x) (sym (s.others j (ground arith)) ∙ y) e
    ]
  ]

-- What all parents leave, at the columns of `ss`.
unfoldable pub Leads : LayoutState → List Text → List (ℕ × ℕ) → Type 0
Leads ls [] [] = Unit
Leads ls (p ∷ ps) ((k, c) ∷ ss) = (awaits p (lane_at ls k) ≡ true) × Leads ls ps ss
Leads ls [] (s ∷ ss) = ⊥
Leads ls (p ∷ ps) [] = ⊥

abbrev pub columns_of : List (ℕ × ℕ) → List ℕ
columns_of ss = map (λ s. s.0) ss

pub record AreSpawned (parents : List Text) (ls ls' : LayoutState) (ss : List (ℕ × ℕ))
    : Type 0 where
  pub grown : length ls ≤ length ls'
  pub leads : Leads ls' parents ss
  pub kept : (j : ℕ) → is_active (lane_at ls j) ≡ true → lane_at ls' j ≡ lane_at ls j
  pub others : (j : ℕ) → contains (columns_of ss) j ≡ false → lane_at ls' j ≡ lane_at ls j
  pub reached : (j : ℕ) → contains (columns_of ss) j ≡ true → is_active (lane_at ls' j) ≡ true
  pub distinct : Distinct ls → Distinct ls'

awaits-is_active : (p : Text) (l : Option Lane) → awaits p l ≡ true → is_active l ≡ true
awaits-is_active p none h = h
awaits-is_active p (some l) h = refl

spawn_kept :
    (p : Text) (ls ls' : LayoutState) (k : ℕ)
    → IsSpawned p ls ls' k
    → (j : ℕ) → is_active (lane_at ls j) ≡ true
    → lane_at ls' j ≡ lane_at ls j
spawn_kept p ls ls' k s j a = elim (Bool-cases (k == j)) [
  | inl e ↦ elim s.origin [ inl o ↦ ground arith | inr (free, w) ↦ absurd (ground arith) ]
  | inr e ↦ s.others j (ground arith)
]

cons-AreSpawned :
    (p : Text) (ps : List Text) (ls one rest : LayoutState) (k c : ℕ) (ss : List (ℕ × ℕ))
    → IsSpawned p ls one k
    → AreSpawned ps one rest ss
    → AreSpawned (p ∷ ps) ls rest ((k, c) ∷ ss)
unfolding Leads
cons-AreSpawned p ps ls one rest k c ss s r = record {
  grown = omega (arith, s.grown, r.grown);
  leads = (ground (arith, waits, s.waits), r.leads);
  kept = λ j a. keeps j a;
  others = λ j h. ground (arith, r.others j, s.others j);
  reached = λ j h. reaches j h;
  distinct = λ d. r.distinct (IsSpawned-Distinct p ls one k s d);
}
  where
    waits : lane_at rest k ≡ lane_at one k
    waits = r.kept k (awaits-is_active p (lane_at one k) s.waits)

    keeps : (j : ℕ) → is_active (lane_at ls j) ≡ true → lane_at rest j ≡ lane_at ls j
    keeps j a = let e = spawn_kept p ls one k s j a in r.kept j (ground arith) ∙ e

    reaches :
        (j : ℕ) → contains (columns_of ((k, c) ∷ ss)) j ≡ true → is_active (lane_at rest j) ≡ true
    reaches j h = elim (Bool-cases (k == j)) [
      | inl e ↦ ground (arith, waits, awaits-is_active p (lane_at one k) s.waits)
      | inr e ↦ r.reached j (ground arith)
    ]

module _ (column color : ℕ) where
  pub spawns-AreSpawned :
      (first : Bool) (parents : List Text) (ls : LayoutState)
      → (first ≡ true → (column < length ls) × (is_active (lane_at ls column) ≡ false))
      → AreSpawned parents ls
          (spawns column color first parents ls).0
          (spawns column color first parents ls).1
  unfolding spawns Leads
  spawns-AreSpawned first [] ls room = record {
    grown = omega arith;
    leads = tt;
    kept = λ j a. refl;
    others = λ j c. refl;
    reached = λ j c. absurd (cc);
    distinct = λ d. d;
  }
  spawns-AreSpawned first (p ∷ ps) ls room =
      let (one, (k, c)) = spawn column color first p ls in
      cons-AreSpawned p ps ls one (spawns column color false ps one).0 k c
        (spawns column color false ps one).1 (spawn-IsSpawned column color first p ls room)
        (spawns-AreSpawned false ps one (λ e. absurd (cc)))
