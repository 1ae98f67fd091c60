-- ===== src/Session/Compactor/Extractive.antt =====
-- session.rs: the extractive compactor always returns, and within its bytes.
use git_client.Prelude.{
  ℕ, ◌≢◌, ◌⊎◌, ==_iff, ◌-◌, ◌≤◌, ◌<◌, ◌≡◌, refl, ap, ◌∙◌, inl, inr, false, List, [], ◌∷◌, ◌++◌, map,
  Option, some, Text, codes, len, len-append, is_empty, leb, leb→le, ◌==◌, if◌then◌else◌, arith,
  Bool-cases, Result, ok, err,
}
use git_client.Session.{
  SessionRole, user, assistant, SessionMessage, SessionError, compaction, MemoryCompactor,
}
use git_client.Session.Compactor.{
  compact, fit, normalize_whitespace, marker, join, message_section, existing_sections, role_name,
}
use git_client.Session.Compactor.Truncation.{
  suffix_within, truncate_utf8_suffix_lem, len-suffix_within,
}

-- What does not fit is cut to the marker and the longest suffix of whole characters beside it.
fitted : Text → ℕ → Result SessionError Text
fitted combined n =
    if leb (len combined) n
    then ok combined
    else if leb n (len marker)
    then err compaction
    else ok (marker ++ suffix_within combined (n - len marker))

fit_lem : (combined : Text) (n : ℕ) → fit combined n ≡ some (fitted combined n)
unfolding fit fitted
fit_lem combined n = rw (truncate_utf8_suffix_lem combined (n - len marker)) (ground arith)

-- The text that `compact` fits into the bytes.
combined_of : Option Text → List SessionMessage → Text
combined_of existing messages =
    join (codes "\n") (existing_sections existing ++ map message_section messages)

abbrev compacted : Option Text → List SessionMessage → ℕ → Result SessionError Text
compacted existing messages n =
    if n == 0 then err compaction else fitted (combined_of existing messages) n

compact_lem :
    (existing : Option Text) (messages : List SessionMessage) (n : ℕ)
    → compact existing messages n ≡ some (compacted existing messages n)
unfolding compact combined_of
compact_lem existing messages n = rw (fit_lem (combined_of existing messages) n) (ground arith)

-- `ExtractiveMemoryCompactor` as a `MemoryCompactor`: by `compact_total` its slice never panics.
compact_total :
    (existing : Option Text) (messages : List SessionMessage) (n : ℕ)
    → (r : Result SessionError Text) × (compact existing messages n ≡ some r)
compact_total existing messages n = (compacted existing messages n, compact_lem existing messages n)

pub extractive : MemoryCompactor
unfolding compact_total
extractive existing messages n = (compact_total existing messages n).0

len-join :
    (sep : Text) (ws : List Text) (w : Text) (rest : List Text)
    → len w ≤ len (join sep (ws ++ w ∷ rest))
unfolding join
len-join sep [] w [] = omega arith
len-join sep [] w (v ∷ rest) = omega (arith, len-append w (sep ++ join sep (v ∷ rest)))
len-join sep (x ∷ []) w rest = omega (
  arith,
  len-append x (sep ++ join sep (w ∷ rest)),
  len-append sep (join sep (w ∷ rest)),
  len-join sep [] w rest,
)
len-join sep (x ∷ y ∷ ws) w rest = omega (
  arith,
  len-append x (sep ++ join sep (y ∷ (ws ++ w ∷ rest))),
  len-append sep (join sep (y ∷ (ws ++ w ∷ rest))),
  len-join sep (y ∷ ws) w rest,
)

len-role_name : (r : SessionRole) → 1 ≤ len (role_name r)
unfolding role_name
len-role_name user = omega arith
len-role_name assistant = omega arith

len-message_section : (m : SessionMessage) → 1 ≤ len (message_section m)
unfolding message_section
len-message_section m = omega (
  arith,
  len-append (role_name m.role) (codes ": " ++ normalize_whitespace m.content),
  len-role_name m.role,
)

len-combined :
    (existing : Option Text) (m : SessionMessage) (ms : List SessionMessage)
    → 1 ≤ len (combined_of existing (m ∷ ms))
unfolding combined_of
len-combined existing m ms = omega (
  arith,
  len-join (codes "\n") (existing_sections existing) (message_section m) (map message_section ms),
  len-message_section m,
)

not_empty : (s : Text) → 1 ≤ len s → is_empty s ≡ false
not_empty [] h = absurd (omega arith)
not_empty (c ∷ s) h = refl

fitted_bounds :
    (combined : Text) (n : ℕ)
    → 1 ≤ len combined
    → len marker < n
    → (s : Text) × (fitted combined n ≡ ok s) × (len s ≤ n) × (1 ≤ len s)
unfolding fitted
fitted_bounds combined n h k = elim (Bool-cases (leb (len combined) n)) [
  | inl fits ↦ (combined, rw fits, leb→le _ _ fits, h)
  | inr over ↦
      let suffix = suffix_within combined (n - len marker) in
      let room : leb n (len marker) ≡ false = ground arith in
      (
        marker ++ suffix,
        rw (over, room),
        omega (arith, len-append marker suffix, len-suffix_within combined (n - len marker)),
        omega (arith, len-append marker suffix),
      )
]

-- With room beside the marker there is always a summary, and it is not empty.
pub extractive_succeeds :
    (existing : Option Text) (m : SessionMessage) (ms : List SessionMessage) (n : ℕ)
    → len marker < n
    → (s : Text) × (compact existing (m ∷ ms) n ≡ some (ok s))
      × (extractive existing (m ∷ ms) n ≡ ok s)
      × (len s ≤ n)
      × (is_empty s ≡ false)
unfolding extractive
extractive_succeeds existing m ms n h =
    let (s, e, b, p) =
      fitted_bounds (combined_of existing (m ∷ ms)) n (len-combined existing m ms) h in
    let positive : (n == 0) ≡ false = ground arith in
    let c : compacted existing (m ∷ ms) n ≡ ok s = rw positive e in
    (s, compact_lem existing (m ∷ ms) n ∙ ap some c, c, b, not_empty s p)

-- What does not fit beside the marker is an error.
fitted-cases :
    (combined : Text) (n : ℕ)
    → ((fitted combined n ≡ err compaction) × (n ≤ len marker))
      ⊎ ((s : Text) × (fitted combined n ≡ ok s)
          × (len s ≤ n)
          × (1 ≤ len combined → is_empty s ≡ false))
unfolding fitted
fitted-cases combined n = elim (Bool-cases (leb (len combined) n)) [
  | inl fits ↦ inr (combined, rw fits, leb→le _ _ fits, not_empty combined)
  | inr over ↦ elim (Bool-cases (leb n (len marker))) [
    | inl small ↦ inl (rw (over, small), leb→le _ _ small)
    | inr room ↦
        let suffix = suffix_within combined (n - len marker) in
        inr (
          marker ++ suffix,
          rw (over, room),
          ground
              (arith, len-append marker suffix, len-suffix_within combined (n - len marker), room),
          λ h. not_empty (marker ++ suffix) (omega (arith, len-append marker suffix)),
        )
  ]
]

-- How the compactor ends on `messages` with `n` bytes.
pub data IsBounded (messages : List SessionMessage) (n : ℕ) (r : Result SessionError Text)
    : Type 0 where
  fails : r ≡ err compaction → n ≤ len marker → IsBounded messages n r
  summarises :
      (s : Text)
      → r ≡ ok s
      → len s ≤ n
      → (messages ≢ [] → is_empty s ≡ false)
      → IsBounded messages n r

combined-positive :
    (existing : Option Text) (messages : List SessionMessage)
    → messages ≢ []
    → 1 ≤ len (combined_of existing messages)
combined-positive existing [] h = absurd (h refl)
combined-positive existing (m ∷ ms) h = len-combined existing m ms

compacted-IsBounded :
    (existing : Option Text) (messages : List SessionMessage) (n : ℕ)
    → IsBounded messages n (compacted existing messages n)
compacted-IsBounded existing messages n = elim (Bool-cases (n == 0)) [
  | inl z ↦ fails (rw z refl) (let e = (==_iff n 0).0 z in omega (arith, e))
  | inr p ↦ elim (fitted-cases (combined_of existing messages) n) [
    | inl (e, small) ↦ fails (rw p e) small
    | inr (s, e, b, full) ↦
        summarises s (rw p e) b λ h. full (combined-positive existing messages h)
  ]
]

-- For any summary, messages and `n`, the extractive compactor returns without a panic. Either it
-- fails with `compaction`, and then `n` is at most the marker's length; or it succeeds with at most
-- `n` bytes, which are not empty if there is a message. So it succeeds whenever `n` is larger.
pub extractive_bounds :
    (existing : Option Text) (messages : List SessionMessage) (n : ℕ)
    → (compact existing messages n ≡ some (extractive existing messages n))
      × IsBounded messages n (extractive existing messages n)
unfolding extractive
extractive_bounds existing messages n =
    (compact_lem existing messages n, compacted-IsBounded existing messages n)
