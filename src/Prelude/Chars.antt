-- ===== src/Prelude/Chars.antt =====
-- Rust's `String` and `&str` as lists of Unicode scalar values. `len` is the length of the UTF-8
-- encoding, as in Rust; `trim`, `split_whitespace` and `lines` follow the standard library.
use Prim.Native.Nat.{ℕ, zero, suc, ◌+◌, ◌-◌, ◌≤◌, ◌<◌, ◌/◌, ◌%◌}
use Prim.Native.Char.{code}
use Prim.Native.String.{String}
use mathlib.Core.Path.{◌≡◌, refl}
use mathlib.Core.Logic.{◌↔◌}
use mathlib.Core.Bool.{Bool, true, false, ◌&&◌, ◌||◌}
use mathlib.Core.List.{List, [], ◌∷◌, ◌++◌}
use native.Mathlib.Omega.{arith}
use git_client.Prelude.Tests.{◌==◌, ltb, leb, if◌then◌else◌}

abbrev pub Text : Type 0
Text = List ℕ

abbrev pub codes : String → Text
codes String.[] = []
codes (String.◌∷◌ c s) = code c ∷ codes s

-- `==` on strings.
abbrev pub text_eq : Text → Text → Bool
text_eq [] [] = true
text_eq [] (d ∷ t) = false
text_eq (c ∷ s) [] = false
text_eq (c ∷ s) (d ∷ t) = c == d && text_eq s t

pub text_eq_iff : (s t : Text) → (text_eq s t ≡ true) ↔ (s ≡ t)
text_eq_iff [] [] = (λ _. refl, λ _. refl)
text_eq_iff [] (d ∷ t) = (λ h. cc, λ h. cc)
text_eq_iff (c ∷ s) [] = (λ h. cc, λ h. cc)
text_eq_iff (c ∷ s) (d ∷ t) = ground (arith, text_eq_iff s t)

-- `str::is_empty`, `str::starts_with`.
abbrev pub is_empty : Text → Bool
is_empty [] = true
is_empty (c ∷ s) = false

abbrev pub starts_with : Text → Text → Bool
starts_with [] s = true
starts_with (c ∷ p) [] = false
starts_with (c ∷ p) (d ∷ s) = c == d && starts_with p s

-- `char::len_utf8`.
abbrev pub len_utf8 : ℕ → ℕ
len_utf8 c = if ltb c 0x80 then 1 else if ltb c 0x800 then 2 else if ltb c 0x1_0000 then 3 else 4

-- `str::len`, in bytes.
abbrev pub len : Text → ℕ
len [] = 0
len (c ∷ s) = len_utf8 c + len s

pub len-append : (s t : Text) → len (s ++ t) ≡ len s + len t
len-append [] t = omega arith
len-append (c ∷ s) t = ground (arith, len-append s t)

-- `char::is_whitespace`: the Unicode property White_Space.
unfoldable pub is_whitespace : ℕ → Bool
is_whitespace c =
    (leb 0x9 c && leb c 0xd)
    || c == 0x20
    || c == 0x85
    || c == 0xa0
    || c == 0x1680
    || (leb 0x2000 c && leb c 0x200a)
    || c == 0x2028
    || c == 0x2029
    || c == 0x202f
    || c == 0x205f
    || c == 0x3000

unfoldable pub trim_start : Text → Text
trim_start [] = []
trim_start (c ∷ s) = if is_whitespace c then trim_start s else c ∷ s

-- The bytes of a scalar value in UTF-8.
unfoldable pub encode_utf8 : ℕ → List ℕ
encode_utf8 c =
    if ltb c 0x80
    then c ∷ []
    else if ltb c 0x800
    then (0xc0 + c / 64) ∷ (0x80 + c % 64) ∷ []
    else if ltb c 0x1_0000
    then (0xe0 + c / 4096) ∷ (0x80 + c / 64 % 64) ∷ (0x80 + c % 64) ∷ []
    else (0xf0 + c / 262144) ∷ (0x80 + c / 4096 % 64) ∷ (0x80 + c / 64 % 64) ∷ (0x80 + c % 64) ∷ []

-- `str::bytes`.
unfoldable pub utf8 : Text → List ℕ
unfolding encode_utf8
utf8 [] = []
utf8 (c ∷ s) = encode_utf8 c ++ utf8 s

-- `str::is_char_boundary`.
unfoldable pub is_char_boundary : Text → ℕ → Bool
is_char_boundary s zero = true
is_char_boundary [] (suc b) = false
is_char_boundary (c ∷ s) (suc b) =
    let rest = is_char_boundary s (suc b - len_utf8 c) in leb (len_utf8 c) (suc b) && rest

pub len_utf8_bounds : (c : ℕ) → (1 ≤ len_utf8 c) × (len_utf8 c ≤ 4)
len_utf8_bounds c = ground arith

pub is_char_boundary-shift :
    (c : ℕ) (s : Text) (b : ℕ)
    → len_utf8 c ≤ b
    → is_char_boundary (c ∷ s) b ≡ is_char_boundary s (b - len_utf8 c)
unfolding is_char_boundary
is_char_boundary-shift c s zero h = absurd (omega (arith, len_utf8_bounds c))
is_char_boundary-shift c s (suc b) h = ground arith

pub is_char_boundary-inside :
    (c : ℕ) (s : Text) (b : ℕ) → 0 < b → b < len_utf8 c → is_char_boundary (c ∷ s) b ≡ false
unfolding is_char_boundary
is_char_boundary-inside c s zero h k = absurd (omega arith)
is_char_boundary-inside c s (suc b) h k = ground arith

pub starts_with-append : (p s : Text) → starts_with p (p ++ s) ≡ true
starts_with-append [] s = refl
starts_with-append (c ∷ p) s = ground (arith, starts_with-append p s)
