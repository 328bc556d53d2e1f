-- ===== src/Common/Int.antt =====
-- The C type `int` over the native numbers: a signed integer and its 32-bit range.
use Prim.Native.Nat.{ℕ, ◌^◌}
use mathlib.Core.Bool.{Bool}
use mohican.Common.Tests.{ltb, ◌==◌}
use mathlib.Core.Bool.{false}

-- `negsuc n` is -(n + 1).
pub data ℤ : Type 0 where
  pos : ℕ → ℤ
  negsuc : ℕ → ℤ

-- INT_MIN <= i <= INT_MAX
abbrev pub in_int_range : ℤ → Bool
in_int_range (pos n) = ltb n (2 ^ 31)
in_int_range (negsuc n) = ltb n (2 ^ 31)

-- i == n for a literal n that is not negative
abbrev pub is_int : ℤ → ℕ → Bool
is_int (pos m) n = m == n
is_int (negsuc m) n = false
