-- ===== src/ToolRuntime/Truncation/Bounds.antt =====
-- executor.rs: a truncated result never ends inside a character, and fits its bytes.
use mathlib.Core.Option
use git_client.Prelude.{
  ℕ, zero, suc, ◌+◌, ◌-◌, ◌≤◌, ◌<◌, ◌≡◌, refl, ap, ◌∙◌, inl, inr, Bool, true, false, [], ◌∷◌, ◌++◌,
  some, Text, len, len_utf8, len-append, leb, leb→le, min, if◌then◌else◌, arith, Bool-cases,
  len_utf8_bounds, is_char_boundary-shift, is_char_boundary-inside,
}
use git_client.ToolRuntime.Truncation.{
  truncation_marker, last_boundary, slice_to, truncate_utf8, truncate_utf8_with_marker,
}

-- The longest prefix of whole characters within `m` bytes.
abbrev pub prefix_within : Text → ℕ → Text
prefix_within [] m = []
prefix_within (c ∷ s) m =
    let rest = prefix_within s (m - len_utf8 c) in if leb (len_utf8 c) m then c ∷ rest else []

len-prefix_within : (s : Text) (m : ℕ) → len (prefix_within s m) ≤ m
len-prefix_within [] m = omega arith
len-prefix_within (c ∷ s) m = ground (arith, len-prefix_within s (m - len_utf8 c))

last_boundary-inside : (c : ℕ) (s : Text) (e : ℕ) → e < len_utf8 c → last_boundary (c ∷ s) e ≡ 0
unfolding last_boundary
last_boundary-inside c s zero h = refl
last_boundary-inside c s (suc e) h =
    rw (is_char_boundary-inside c s (suc e) (omega arith) h)
      (last_boundary-inside c s e (omega arith))

last_boundary-shift :
    (c : ℕ) (s : Text) (e d : ℕ)
    → e ≡ len_utf8 c + d
    → last_boundary (c ∷ s) e ≡ len_utf8 c + last_boundary s d
unfolding last_boundary
last_boundary-shift c s zero d h = absurd (omega (arith, len_utf8_bounds c))
last_boundary-shift c s (suc e) zero h =
    let back : suc e - len_utf8 c ≡ 0 = omega arith in
    rw (is_char_boundary-shift c s (suc e) (omega arith), back) h
last_boundary-shift c s (suc e) (suc d) h =
    let back : suc e - len_utf8 c ≡ suc d = omega arith in
    rw (is_char_boundary-shift c s (suc e) (omega arith), back)
      (ground (arith, last_boundary-shift c s e d (omega arith)))

slice_to-shift :
    (c : ℕ) (s : Text) (b : ℕ)
    → len_utf8 c ≤ b
    → slice_to (c ∷ s) b ≡ Option.map (◌∷◌ c) (slice_to s (b - len_utf8 c))
unfolding slice_to
slice_to-shift c s zero h = absurd (omega (arith, len_utf8_bounds c))
slice_to-shift c s (suc b) h = ground arith

slice_to-last :
    (s : Text) (e : ℕ) → e ≤ len s → slice_to s (last_boundary s e) ≡ some (prefix_within s e)
slice_to-last [] zero h = unfold slice_to last_boundary in refl
slice_to-last [] (suc e) h = absurd (omega arith)
slice_to-last (c ∷ s) e h = elim (Bool-cases (leb (len_utf8 c) e)) [
  | inl whole ↦
      let n = last_boundary s (e - len_utf8 c) in
      let back : len_utf8 c + n - len_utf8 c ≡ n = omega arith in
      ap (slice_to (c ∷ s)) (last_boundary-shift c s e (e - len_utf8 c) (ground (arith, whole)))
      ∙ slice_to-shift c s (len_utf8 c + n) (omega arith)
      ∙ ap (λ k. Option.map (◌∷◌ c) (slice_to s k)) back
      ∙ ap (Option.map (◌∷◌ c)) (slice_to-last s (e - len_utf8 c) (ground (arith, whole)))
      ∙ rw whole refl
  | inr cut ↦
      ap (slice_to (c ∷ s)) (last_boundary-inside c s e (ground arith))
      ∙ (unfold slice_to in rw cut refl)
]

-- What `truncate_utf8` returns.
abbrev pub cut : Text → ℕ → Text × Bool
cut content m = if leb (len content) m then (content, false) else (prefix_within content m, true)

slice_to-over :
    (content : Text) (m : ℕ)
    → leb (len content) m ≡ false
    → slice_to content (last_boundary content (min m (len content)))
      ≡ some (prefix_within content m)
slice_to-over content m over =
    let least : min m (len content) ≡ m = ground (arith, over) in
    ap (λ e. slice_to content (last_boundary content e)) least
    ∙ slice_to-last content m (ground (arith, over))

pub truncate_utf8-cut : (content : Text) (m : ℕ) → truncate_utf8 content m ≡ some (cut content m)
unfolding truncate_utf8
truncate_utf8-cut content m = elim (Bool-cases (leb (len content) m)) [
  | inl fits ↦ rw fits refl
  | inr over ↦ rw (over, slice_to-over content m over) refl
]

-- What `truncate_utf8_with_marker` returns.
abbrev pub marked : Text → ℕ → Text × Bool
marked content m =
    if leb (len content) m
    then (content, false)
    else if leb m (len truncation_marker)
    then (prefix_within content m, true)
    else (prefix_within content (m - len truncation_marker) ++ truncation_marker, true)

-- `truncate_utf8_with_marker` does not panic and never cuts a character in two: a content that fits is
-- returned as it is, any other is cut to its longest prefix of whole characters that fits, with the
-- marker behind it if the marker is shorter than `m` bytes. What it returns has at most `m` bytes.
pub truncate_utf8_with_marker-marked :
    (content : Text) (m : ℕ)
    → (truncate_utf8_with_marker content m ≡ some (marked content m))
      × (len (marked content m).0 ≤ m)
unfolding truncate_utf8_with_marker
truncate_utf8_with_marker-marked content m = elim (Bool-cases (leb (len content) m)) [
  | inl fits ↦ (rw fits refl, rw fits (leb→le _ _ fits))
  | inr over ↦ elim (Bool-cases (leb m (len truncation_marker))) [
    | inl short ↦ (
      rw (over, short, slice_to-over content m over) refl,
      rw (over, short) (len-prefix_within content m),
    )
    | inr room ↦
        let k = m - len truncation_marker in
        let long : leb (len content) k ≡ false = ground (arith, over) in
        (
          rw (over, room, truncate_utf8-cut content k, long) refl,
          rw (over, room)
              (ground (
                arith,
                len-append (prefix_within content k) truncation_marker,
                len-prefix_within content k,
              )),
        )
  ]
]

truncate_total :
    (content : Text) (m : ℕ)
    → (p : Text × Bool) × (truncate_utf8_with_marker content m ≡ some p) × (len p.0 ≤ m)
truncate_total content m =
    let (e, b) = truncate_utf8_with_marker-marked content m in (marked content m, e, b)

-- What `truncate_utf8_with_marker` returns, and `truncate_utf8`, which by the above do not panic.
pub truncated : Text → ℕ → Text × Bool
truncated content m = (truncate_total content m).0

pub len-truncated : (content : Text) (m : ℕ) → len (truncated content m).0 ≤ m
unfolding truncated
len-truncated content m = (truncate_total content m).2

pub cut_total : (content : Text) (m : ℕ) → (p : Text × Bool) × (truncate_utf8 content m ≡ some p)
cut_total content m = (cut content m, truncate_utf8-cut content m)

abbrev pub cut_to : Text → ℕ → Text
cut_to content m = (cut_total content m).0.0
