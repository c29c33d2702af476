-- ===== src/Prelude/Integers.antt =====
-- The integers over the native numbers, under the library's names.
use Prim.Native.Nat.{ℕ, zero, suc}
use mathlib.Core.Bool.{Bool, true, false}

pub data ℤ : Type 0 where
  pos : ℕ → ℤ
  negsuc : ℕ → ℤ

abbrev pub is_nonnegative : ℤ → Bool
is_nonnegative (pos n) = true
is_nonnegative (negsuc n) = false

abbrev pub is_above_zero : ℤ → Bool
is_above_zero (pos zero) = false
is_above_zero (pos (suc n)) = true
is_above_zero (negsuc n) = false
