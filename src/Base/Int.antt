-- ===== src/Base/Int.antt =====
-- Go's `int` where it may fall below zero: an integer, with its successor and predecessor. The
-- counts of this program stay far from the ends of 64 bits.
use Prim.Native.Nat.{ℕ, zero, suc}
use mathlib.Core.Bool.{Bool, true, false}

-- `negsuc n` is -(n + 1).
pub data ℤ : Type 0 where
  pos : ℕ → ℤ
  negsuc : ℕ → ℤ

-- n++
unfoldable pub inc : ℤ → ℤ
inc (pos n) = pos (suc n)
inc (negsuc zero) = pos 0
inc (negsuc (suc n)) = negsuc n

-- n--
unfoldable pub dec : ℤ → ℤ
dec (pos zero) = negsuc 0
dec (pos (suc n)) = pos n
dec (negsuc n) = negsuc (suc n)

-- n == 0
unfoldable pub is_zero : ℤ → Bool
is_zero (pos zero) = true
is_zero _ = false
