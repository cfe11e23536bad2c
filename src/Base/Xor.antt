-- ===== src/Base/Xor.antt =====
-- `bit_xor` at variables.
use Prim.Native.Nat.{
  ℕ, zero, suc, ◌+◌, ◌*◌, ◌/◌, ◌%◌, ◌^◌, ◌≤◌, ◌<◌, min, differ, bit_xor, bit_and, bit_xor-bitwise,
  bit_and-bitwise,
}
use mathlib.Core.Path.{◌≡◌, refl, ap, sym, ◌∙◌}
use native.Mathlib.Omega.{arith}
use boltdb_cpp.Base.Digits.{lowest_digit}
use boltdb_cpp.Base.Bits.{pow_double}

pub xor_zero_left : (b : ℕ) → bit_xor 0 b ≡ b
xor_zero_left b = bit_xor-bitwise 0 b

differ_digits : (x y : ℕ) → x < 2 → y < 2 → differ x y ≡ (x + y) % 2
differ_digits zero y h k = omega arith
differ_digits (suc zero) zero h k = refl
differ_digits (suc zero) (suc zero) h k = refl
differ_digits (suc zero) (suc (suc y)) h k = absurd (omega arith)
differ_digits (suc (suc x)) y h k = absurd (omega arith)

pub xor_step : (a b : ℕ) → bit_xor a b ≡ bit_xor (a / 2) (b / 2) * 2 + (a % 2 + b % 2) % 2
xor_step zero b = xor_zero_left b ∙ omega (arith, xor_zero_left (b / 2))
xor_step (suc a) b = omega (
  arith,
  bit_xor-bitwise (suc a) b,
  bit_xor-bitwise (suc a / 2) (b / 2),
  lowest_digit (λ d. d) differ a b,
  differ_digits (suc a % 2) (b % 2) (omega arith) (omega arith),
)

xor_comm_to : (n a b : ℕ) → a ≤ n → b ≤ n → bit_xor a b ≡ bit_xor b a
xor_comm_to zero zero zero p q = refl
xor_comm_to zero zero (suc b) p q = absurd (omega arith)
xor_comm_to zero (suc a) b p q = absurd (omega arith)
xor_comm_to (suc n) a b p q =
    omega
      (arith, xor_step a b, xor_step b a, xor_comm_to n (a / 2) (b / 2) (omega arith) (omega arith))

pub xor_comm : (a b : ℕ) → bit_xor a b ≡ bit_xor b a
xor_comm a b = xor_comm_to (a + b) a b (omega arith) (omega arith)

xor_assoc_to :
    (n a b c : ℕ) → a ≤ n → b ≤ n → c ≤ n → bit_xor (bit_xor a b) c ≡ bit_xor a (bit_xor b c)
xor_assoc_to zero zero b c p q r =
    ap (λ x. bit_xor x c) (xor_zero_left b) ∙ sym (xor_zero_left (bit_xor b c))
xor_assoc_to zero (suc a) b c p q r = absurd (omega arith)
xor_assoc_to (suc n) a b c p q r =
    let ab : bit_xor a b / 2 ≡ bit_xor (a / 2) (b / 2) = omega (arith, xor_step a b) in
    let bc : bit_xor b c / 2 ≡ bit_xor (b / 2) (c / 2) = omega (arith, xor_step b c) in
    let left : bit_xor (bit_xor a b / 2) (c / 2) ≡ bit_xor (bit_xor (a / 2) (b / 2)) (c / 2) =
      ap (λ x. bit_xor x (c / 2)) ab in
    let right : bit_xor (a / 2) (bit_xor b c / 2) ≡ bit_xor (a / 2) (bit_xor (b / 2) (c / 2)) =
      ap (bit_xor (a / 2)) bc in
    omega (
      arith,
      left,
      right,
      xor_step (bit_xor a b) c,
      xor_step a (bit_xor b c),
      xor_step a b,
      xor_step b c,
      xor_assoc_to n (a / 2) (b / 2) (c / 2) (omega arith) (omega arith) (omega arith),
    )

pub xor_assoc : (a b c : ℕ) → bit_xor (bit_xor a b) c ≡ bit_xor a (bit_xor b c)
xor_assoc a b c = xor_assoc_to (a + b + c) a b c (omega arith) (omega arith) (omega arith)

xor_self_to : (n a : ℕ) → a ≤ n → bit_xor a a ≡ 0
xor_self_to zero zero p = refl
xor_self_to zero (suc a) p = absurd (omega arith)
xor_self_to (suc n) a p = omega (arith, xor_step a a, xor_self_to n (a / 2) (omega arith))

pub xor_self : (a : ℕ) → bit_xor a a ≡ 0
xor_self a = xor_self_to a a (omega arith)

pub xor_bound : (k a b : ℕ) → a < 2 ^ k → b < 2 ^ k → bit_xor a b < 2 ^ k
xor_bound zero zero zero h l = omega (arith, xor_zero_left 0)
xor_bound zero zero (suc b) h l = absurd (omega arith)
xor_bound zero (suc a) b h l = absurd (omega arith)
xor_bound (suc k) a b h l = omega (
  arith,
  pow_double k 1,
  xor_step a b,
  xor_bound k (a / 2) (b / 2) (omega (arith, pow_double k 1)) (omega (arith, pow_double k 1)),
)

-- The digits above and below a place do not mix.
pub xor_split :
    (k h l h' l' : ℕ)
    → l < 2 ^ k
    → l' < 2 ^ k
    → bit_xor (h * 2 ^ k + l) (h' * 2 ^ k + l') ≡ bit_xor h h' * 2 ^ k + bit_xor l l'
xor_split zero h zero h' zero p q =
    let e : h * 2 ^ 0 + 0 ≡ h = omega arith in
    let e' : h' * 2 ^ 0 + 0 ≡ h' = omega arith in
    let last : bit_xor h h' ≡ bit_xor h h' * 2 ^ 0 + bit_xor 0 0 = omega (arith, xor_zero_left 0) in
    ap (λ x. bit_xor x (h' * 2 ^ 0 + 0)) e ∙ ap (bit_xor h) e' ∙ last
xor_split zero h zero h' (suc l') p q = absurd (omega arith)
xor_split zero h (suc l) h' l' p q = absurd (omega arith)
xor_split (suc k) h l h' l' p q =
    let a = h * 2 ^ suc k + l in
    let b = h' * 2 ^ suc k + l' in
    let ha : a / 2 ≡ h * 2 ^ k + l / 2 = omega (arith, pow_double k h) in
    let hb : b / 2 ≡ h' * 2 ^ k + l' / 2 = omega (arith, pow_double k h') in
    let halves : bit_xor (a / 2) (b / 2) ≡ bit_xor (h * 2 ^ k + l / 2) (h' * 2 ^ k + l' / 2) =
      ap (λ x. bit_xor x (b / 2)) ha ∙ ap (bit_xor (h * 2 ^ k + l / 2)) hb in
    omega (
      arith,
      halves,
      xor_step a b,
      xor_step l l',
      pow_double k h,
      pow_double k h',
      pow_double k (bit_xor h h'),
      xor_split k h (l / 2) h' (l' / 2) (omega (arith, pow_double k 1))
          (omega (arith, pow_double k 1)),
    )

and_step : (a b : ℕ) → bit_and a b ≡ bit_and (a / 2) (b / 2) * 2 + min (a % 2) (b % 2)
and_step zero b = omega (arith, bit_and-bitwise 0 b, bit_and-bitwise 0 (b / 2))
and_step (suc a) b = omega (
  arith,
  bit_and-bitwise (suc a) b,
  bit_and-bitwise (suc a / 2) (b / 2),
  lowest_digit (λ d. 0) min a b,
)

and_zero_to : (n a : ℕ) → a ≤ n → bit_and a 0 ≡ 0
and_zero_to zero zero h = refl
and_zero_to zero (suc a) h = absurd (omega arith)
and_zero_to (suc n) a h = omega (arith, and_step a 0, and_zero_to n (a / 2) (omega arith))

and_1 : (a : ℕ) → bit_and a 1 ≡ a % 2
and_1 a = omega (arith, and_step a 1, and_zero_to (a / 2) (a / 2) (omega arith))

and_3 : (a : ℕ) → bit_and a 3 ≡ a % 4
and_3 a = omega (arith, and_step a 3, and_1 (a / 2))

and_7 : (a : ℕ) → bit_and a 7 ≡ a % 8
and_7 a = omega (arith, and_step a 7, and_3 (a / 2))

and_15 : (a : ℕ) → bit_and a 15 ≡ a % 16
and_15 a = omega (arith, and_step a 15, and_7 (a / 2))

and_31 : (a : ℕ) → bit_and a 31 ≡ a % 32
and_31 a = omega (arith, and_step a 31, and_15 (a / 2))

and_63 : (a : ℕ) → bit_and a 63 ≡ a % 64
and_63 a = omega (arith, and_step a 63, and_31 (a / 2))

and_127 : (a : ℕ) → bit_and a 127 ≡ a % 128
and_127 a = omega (arith, and_step a 127, and_63 (a / 2))

-- Masking with the low byte is a remainder.
pub and_255 : (a : ℕ) → bit_and a 255 ≡ a % 256
and_255 a = omega (arith, and_step a 255, and_127 (a / 2))
