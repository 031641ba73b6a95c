-- ===== src/Base/Int.antt =====
-- Go's `int` and `int64`: an integer, with the wrap-around of a 64-bit word written out.
use Prim.Native.Nat.{ℕ, zero, suc, ◌+◌, ◌-◌, ◌%◌, ◌^◌, ◌<◌, ◌≤◌}
use mathlib.Core.Path.{◌≡◌}
use mathlib.Core.Bool.{Bool, true, false}
use native.Mathlib.Omega.{arith}
use model_interface_gateway.Base.Tests.{ltb, leb, if◌then◌else◌}

-- `negsuc n` is -(n + 1).
pub data ℤ : Type 0 where
  pos : ℕ → ℤ
  negsuc : ℕ → ℤ

abbrev pub pos_part : ℤ → ℕ
pos_part (pos n) = n
pos_part (negsuc n) = 0

abbrev pub neg_part : ℤ → ℕ
neg_part (pos n) = 0
neg_part (negsuc n) = suc n

infix 50 ◌≤ℤ◌
abbrev pub ◌≤ℤ◌ : ℤ → ℤ → Type 0
a ≤ℤ b = pos_part a + neg_part b ≤ pos_part b + neg_part a

-- `a <= b`.
abbrev pub leb_ℤ : ℤ → ℤ → Bool
leb_ℤ a b = leb (pos_part a + neg_part b) (pos_part b + neg_part a)

-- `a <= 0`.
abbrev pub is_le_zero : ℤ → Bool
is_le_zero (pos zero) = true
is_le_zero (pos (suc n)) = false
is_le_zero (negsuc n) = true

abbrev pub max_int64 : ℕ
max_int64 = 2 ^ 63 - 1

-- `x++` on an `int64`: past the largest value it wraps to the smallest.
unfoldable pub increment : ℤ → ℤ
increment (pos n) = if ltb n max_int64 then pos (n + 1) else negsuc max_int64
increment (negsuc zero) = pos 0
increment (negsuc (suc n)) = negsuc n

-- `int64(n)` for the number of entries of a slice.
unfoldable pub to_int64 : ℕ → ℤ
to_int64 n = let m = n % 2 ^ 64 in if leb m max_int64 then pos m else negsuc (2 ^ 64 - 1 - m)

pub to_int64-pos : (n : ℕ) → n ≤ max_int64 → to_int64 n ≡ pos n
unfolding to_int64
to_int64-pos n h = ground arith

pub increment-pos : (n : ℕ) → n < max_int64 → increment (pos n) ≡ pos (n + 1)
unfolding increment
increment-pos n h = ground arith

-- The pattern of a 64-bit word that stands for an integer in range.
abbrev word : ℤ → ℕ
word (pos n) = n
word (negsuc n) = 2 ^ 64 - 1 - n

-- `a + b` on `int64`.
unfoldable pub add_int64 : ℤ → ℤ → ℤ
unfolding to_int64
add_int64 a b = to_int64 (word a + word b)

pub add_int64-pos : (a b : ℕ) → a + b ≤ max_int64 → add_int64 (pos a) (pos b) ≡ pos (a + b)
unfolding add_int64
add_int64-pos a b h = to_int64-pos (a + b) h

-- Counting wraps as the conversion of a count does.
pub increment-to_int64 : (n : ℕ) → increment (to_int64 n) ≡ to_int64 (n + 1)
unfolding increment to_int64
increment-to_int64 n = ground arith
