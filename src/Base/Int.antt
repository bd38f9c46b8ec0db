-- ===== src/Base/Int.antt =====
-- Signed results. `negsuc n` is -(n + 1), so the -1 of a failed call is `minus_one`.
use Prim.Native.Nat.{ℕ, zero, suc, ◌-◌, ◌+◌, ◌%◌}
use mathlib.Core.Bool.{Bool, true, false}
use pony_os.Base.Tests.{leb, if◌then◌else◌}

pub data ℤ : Type 0 where
  pos : ℕ → ℤ
  negsuc : ℕ → ℤ

abbrev pub minus_one : ℤ
minus_one = negsuc 0

-- a - b, as an integer.
abbrev pub sub_ℕ : ℕ → ℕ → ℤ
sub_ℕ a b = if leb b a then pos (a - b) else negsuc (b - a - 1)

-- The difference of two bytes read as `int8_t`: adding 128 modulo 256 keeps their signed order.
abbrev pub sub_int8 : ℕ → ℕ → ℤ
sub_int8 a b = sub_ℕ ((a + 128) % 256) ((b + 128) % 256)

abbrev pub is_zero : ℤ → Bool
is_zero (pos zero) = true
is_zero (pos (suc n)) = false
is_zero (negsuc n) = false

abbrev pub is_minus_one : ℤ → Bool
is_minus_one (pos n) = false
is_minus_one (negsuc zero) = true
is_minus_one (negsuc (suc n)) = false
