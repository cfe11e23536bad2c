-- ===== src/Base/Int.antt =====
-- Integers over the native numbers; a sum or a difference is determined by its two parts.
use Prim.Native.Nat.{ℕ, zero, suc, ◌+◌, ◌-◌, ◌*◌, ◌/◌, ◌%◌}
use mathlib.Core.Path.{◌≡◌, refl}
use mathlib.Core.Bool.{Bool, true, false}
use native.Mathlib.Omega.{arith}
use boltdb_cpp.Base.Tests.{leb, ◌==◌, if◌then◌else◌}

-- `negsuc n` is -(n + 1).
pub data ℤ : Type 0 where
  pos negsuc : ℕ → ℤ

-- An integer is its part above 0 less its part below.
abbrev pub above : ℤ → ℕ
above (pos n) = n
above (negsuc n) = 0

abbrev pub below : ℤ → ℕ
below (pos n) = 0
below (negsuc n) = suc n

abbrev pub from_parts : ℕ → ℕ → ℤ
from_parts p n = if leb n p then pos (p - n) else negsuc (n - p - 1)

infixl 65 ◌+ℤ◌ ◌-ℤ◌
infixl 70 ◌*ℤ◌
unfoldable pub ◌+ℤ◌ : ℤ → ℤ → ℤ
x +ℤ y = from_parts (above x + above y) (below x + below y)

unfoldable pub ◌-ℤ◌ : ℤ → ℤ → ℤ
x -ℤ y = from_parts (above x + below y) (below x + above y)

unfoldable pub ◌*ℤ◌ : ℤ → ℤ → ℤ
x *ℤ y = from_parts (above x * above y + below x * below y) (above x * below y + below x * above y)

abbrev pub same_ℤ : ℤ → ℤ → Bool
same_ℤ x y = if above x == above y then below x == below y else false

abbrev pub magnitude : ℤ → ℕ
magnitude x = above x + below x

-- The quotient and the remainder of C++, which round towards 0; the divisor is not 0.
unfoldable pub quot : ℤ → ℤ → ℤ
quot (pos m) (pos n) = pos (m / n)
quot (pos m) (negsuc n) = from_parts 0 (m / suc n)
quot (negsuc m) (pos n) = from_parts 0 (suc m / n)
quot (negsuc m) (negsuc n) = pos (suc m / suc n)

unfoldable pub rem : ℤ → ℤ → ℤ
rem (pos m) y = pos (m % magnitude y)
rem (negsuc m) y = from_parts 0 (suc m % magnitude y)

pub same_ℤ→eq : (x y : ℤ) → same_ℤ x y ≡ true → x ≡ y
same_ℤ→eq x y h = ground (arith, h)

pub parts-add : (x y : ℤ) → above (x +ℤ y) + below x + below y ≡ below (x +ℤ y) + above x + above y
unfolding ◌+ℤ◌
parts-add x y = ground arith

pub parts-sub : (x y : ℤ) → above (x -ℤ y) + below x + above y ≡ below (x -ℤ y) + above x + below y
unfolding ◌-ℤ◌
parts-sub x y = ground arith

pub eq_of_parts : (x y : ℤ) → above x + below y ≡ above y + below x → x ≡ y
eq_of_parts x y h = ground (arith, h)

-- One factor more is one summand more.
pub mul_suc : (x : ℤ) (n : ℕ) → x *ℤ pos (suc n) ≡ x +ℤ x *ℤ pos n
unfolding ◌+ℤ◌ ◌*ℤ◌
mul_suc (pos k) n = grind arith
mul_suc (negsuc k) n = grind arith

pub mul_zero : (x : ℤ) → x *ℤ pos 0 ≡ pos 0
unfolding ◌*ℤ◌
mul_zero (pos k) = ground arith
mul_zero (negsuc k) = ground arith

pub mul_pos : (k n : ℕ) → pos k *ℤ pos n ≡ pos (k * n)
unfolding ◌*ℤ◌
mul_pos k n = ground arith

pub mul_negsuc : (k n : ℕ) → negsuc k *ℤ pos n ≡ from_parts 0 (suc k * n)
unfolding ◌*ℤ◌
mul_negsuc k n = ground arith

pub mul_nonzero : (x : ℤ) (n : ℕ) → x *ℤ pos (suc n) ≡ pos 0 → x ≡ pos 0
mul_nonzero (pos zero) n e = refl
mul_nonzero (pos (suc k)) n e = absurd (grind (arith, mul_pos (suc k) (suc n), e))
mul_nonzero (negsuc k) n e = absurd (grind (arith, mul_negsuc k (suc n), e))
