-- ===== src/Session/Compactor/Truncation.antt =====
-- session.rs: `truncate_utf8_suffix` cuts at a character, and as little as it has to.
use git_client.Prelude.{
  is_char_boundary, len_utf8_bounds, is_char_boundary-shift, is_char_boundary-inside, ℕ, zero, suc,
  ◌+◌, ◌-◌, ◌≤◌, ◌<◌, ◌≡◌, refl, sym, ap, ◌∙◌, inl, inr, [], ◌∷◌, some, Text, len, len_utf8, ltb,
  leb, leb→le, if◌then◌else◌, arith, Bool-cases,
}
use git_client.Session.Compactor.{slice_from, next_boundary, truncate_utf8_suffix}

-- The longest suffix of whole characters within `m` bytes.
abbrev pub suffix_within : Text → ℕ → Text
suffix_within [] m = []
suffix_within (c ∷ s) m = if leb (len (c ∷ s)) m then c ∷ s else suffix_within s m

suffix_within_all : (s : Text) (m : ℕ) → len s ≤ m → suffix_within s m ≡ s
suffix_within_all [] m h = refl
suffix_within_all (c ∷ s) m h = ground arith

slice_from-shift :
    (c : ℕ) (s : Text) (b : ℕ)
    → len_utf8 c ≤ b
    → slice_from (c ∷ s) b ≡ slice_from s (b - len_utf8 c)
unfolding slice_from
slice_from-shift c s zero h = absurd (omega (arith, len_utf8_bounds c))
slice_from-shift c s (suc b) h = ground arith

next_boundary-shift :
    (f : ℕ) (c : ℕ) (s : Text) (b d : ℕ)
    → b ≡ len_utf8 c + d
    → next_boundary f (c ∷ s) b ≡ len_utf8 c + next_boundary f s d
unfolding next_boundary
next_boundary-shift zero c s b d e = e
next_boundary-shift (suc f) c s b d e =
    let db : b - len_utf8 c ≡ d = omega arith in
    let shift = is_char_boundary-shift c s b (omega arith) ∙ ap (is_char_boundary s) db in
    let rest = next_boundary-shift f c s (b + 1) (d + 1) (omega arith) in
    ground (arith, shift, rest)

-- From a byte behind the first character on, the search is that of the rest.
slice_next-shift :
    (f : ℕ) (c : ℕ) (s : Text) (b : ℕ)
    → len_utf8 c ≤ b
    → slice_from (c ∷ s) (next_boundary f (c ∷ s) b)
      ≡ slice_from s (next_boundary f s (b - len_utf8 c))
slice_next-shift f c s b h =
    let n = next_boundary f s (b - len_utf8 c) in
    let back : len_utf8 c + n - len_utf8 c ≡ n = omega arith in
    ap (slice_from (c ∷ s)) (next_boundary-shift f c s b (b - len_utf8 c) (omega arith))
    ∙ slice_from-shift c s (len_utf8 c + n) (omega arith)
    ∙ ap (slice_from s) back

suffix_within-shift :
    (c : ℕ) (s : Text) (b : ℕ)
    → len_utf8 c ≤ b
    → b ≤ len (c ∷ s)
    → suffix_within (c ∷ s) (len (c ∷ s) - b) ≡ suffix_within s (len s - (b - len_utf8 c))
suffix_within-shift c s b h k =
    let e : len (c ∷ s) - b ≡ len s - (b - len_utf8 c) = omega arith in
    ground (arith, e, len_utf8_bounds c)

next_boundary-zero : (f : ℕ) (s : Text) → next_boundary f s 0 ≡ 0
unfolding next_boundary is_char_boundary
next_boundary-zero zero s = refl
next_boundary-zero (suc f) s = ground arith

next_boundary-inside :
    (f c : ℕ) (s : Text) (b : ℕ)
    → 0 < b
    → b < len_utf8 c
    → next_boundary (suc f) (c ∷ s) b ≡ next_boundary f (c ∷ s) (suc b)
unfolding next_boundary
next_boundary-inside f c s b h k =
    let e : b + 1 ≡ suc b = omega arith in
    let inside = is_char_boundary-inside c s b h k in rw (inside, e) (ground arith)

-- Whatever byte of the first character is cut, that character goes and the rest stays.
suffix_within-inside :
    (c : ℕ) (s : Text) (b : ℕ)
    → 0 < b
    → b ≤ len_utf8 c
    → suffix_within (c ∷ s) (len (c ∷ s) - b) ≡ s
suffix_within-inside c s b h k =
    ground (arith, suffix_within_all s (len (c ∷ s) - b), len_utf8_bounds c)

truncated :
    (s : Text) (f b : ℕ)
    → b ≤ len s
    → len s ≤ b + f
    → slice_from s (next_boundary f s b) ≡ some (suffix_within s (len s - b))
truncated [] zero zero h k = unfold slice_from next_boundary in refl
truncated [] (suc f) zero h k = unfold slice_from next_boundary in ground arith
truncated [] f (suc b) h k = absurd (omega arith)
truncated (c ∷ s) f zero h k =
    ap (slice_from (c ∷ s)) (next_boundary-zero f (c ∷ s))
    ∙ (unfold slice_from in
        ap some (sym (suffix_within_all (c ∷ s) (len (c ∷ s) - 0) (omega arith))))
truncated (c ∷ s) zero (suc b) h k =
    slice_next-shift zero c s (suc b) (omega arith)
    ∙ truncated s zero (suc b - len_utf8 c) (omega arith) (omega arith)
    ∙ ap some (sym (suffix_within-shift c s (suc b) (omega arith) h))
truncated (c ∷ s) (suc f) (suc b) h k = elim (Bool-cases (ltb (suc b) (len_utf8 c))) [
  | inl inside ↦
      ap (slice_from (c ∷ s)) (next_boundary-inside f c s (suc b) (omega arith) (ground arith))
      ∙ truncated (c ∷ s) f (suc (suc b)) (ground arith) (omega arith)
      ∙ ap some (
          suffix_within-inside c s (suc (suc b)) (omega arith) (ground arith)
          ∙ sym (suffix_within-inside c s (suc b) (omega arith) (ground arith)))
  | inr behind ↦
      slice_next-shift (suc f) c s (suc b) (ground arith)
      ∙ truncated s (suc f) (suc b - len_utf8 c) (omega arith) (omega arith)
      ∙ ap some (sym (suffix_within-shift c s (suc b) (ground arith) h))
]

-- `truncate_utf8_suffix` never cuts a character in two, so its slice does not panic, and it returns
-- the longest suffix of whole characters that fits `max_bytes`.
pub truncate_utf8_suffix_lem :
    (value : Text) (max_bytes : ℕ)
    → truncate_utf8_suffix value max_bytes ≡ some (suffix_within value max_bytes)
unfolding truncate_utf8_suffix
truncate_utf8_suffix_lem value max_bytes = elim (Bool-cases (leb (len value) max_bytes)) [
  | inl fits ↦ rw fits (ap some (sym (suffix_within_all value max_bytes (leb→le _ _ fits))))
  | inr over ↦
      let e : len value - (len value - max_bytes) ≡ max_bytes = ground arith in
      rw over (
        truncated value max_bytes (len value - max_bytes) (omega arith) (omega arith)
        ∙ ap (λ m. some (suffix_within value m)) e)
]

pub len-suffix_within : (s : Text) (m : ℕ) → len (suffix_within s m) ≤ m
len-suffix_within [] m = omega arith
len-suffix_within (c ∷ s) m = ground (arith, len-suffix_within s m)
