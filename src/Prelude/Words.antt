-- ===== src/Prelude/Words.antt =====
-- Arithmetic on 64-bit words, as the standard library has it.
use Prim.Native.Nat.{ℕ, ◌+◌, ◌*◌, ◌-◌, ◌^◌, min}

-- `usize` and `u64` hold numbers up to this one.
abbrev pub max_u64 : ℕ
max_u64 = 2 ^ 64 - 1

-- Written out, since `2 ^ 64` is a numeral.
abbrev pub saturating_add : ℕ → ℕ → ℕ
saturating_add a b = min (a + b) max_u64

abbrev pub saturating_mul : ℕ → ℕ → ℕ
saturating_mul a b = min (a * b) max_u64
