-- ===== src/Base/Bits.antt =====
-- `bit_or` at variables: numbers that share no bit add up.
use Prim.Native.Nat.{ℕ, zero, suc, ◌+◌, ◌*◌, ◌/◌, ◌%◌, ◌^◌, ◌<◌, max, bit_or, bit_or-bitwise}
use mathlib.Core.Path.{◌≡◌, ap, ◌∙◌}
use native.Mathlib.Omega.{arith}
use native.Mathlib.Nat.{pow-suc}
use boltdb_cpp.Base.Digits.{lowest_digit}

pub zero-bit_or : (b : ℕ) → bit_or 0 b ≡ b
zero-bit_or b = bit_or-bitwise 0 b

pub bit_or_step : (a b : ℕ) → bit_or a b ≡ bit_or (a / 2) (b / 2) * 2 + max (a % 2) (b % 2)
bit_or_step zero b = zero-bit_or b ∙ omega (arith, zero-bit_or (b / 2))
bit_or_step (suc a) b = omega (
  arith,
  bit_or-bitwise (suc a) b,
  bit_or-bitwise (suc a / 2) (b / 2),
  lowest_digit (λ d. d) max a b,
)

pub pow_double : (k b : ℕ) → b * 2 ^ suc k ≡ b * 2 ^ k * 2
pow_double k b = omega (arith, ap (λ (t : ℕ). b * t) (pow-suc 2 k))

pub bit_or_disjoint : (k a b : ℕ) → a < 2 ^ k → bit_or a (b * 2 ^ k) ≡ a + b * 2 ^ k
bit_or_disjoint zero zero b h = omega (arith, zero-bit_or (b * 2 ^ 0))
bit_or_disjoint zero (suc a) b h = absurd (omega arith)
bit_or_disjoint (suc k) a b h =
    let half : b * 2 ^ suc k / 2 ≡ b * 2 ^ k = omega (arith, pow_double k b) in
    bit_or_step a (b * 2 ^ suc k)
    ∙ rw half
        (omega (arith, pow_double k b, bit_or_disjoint k (a / 2) b (omega (arith, pow_double k 1))))
