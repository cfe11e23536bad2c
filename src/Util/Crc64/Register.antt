-- ===== src/Util/Crc64/Register.antt =====
-- The register of 64 bits in which a checksum with the polynomial of ECMA-182 is computed bit by bit.
use Prim.Native.Nat.{bit_xor}
use boltdb_cpp.Base.{ℕ, zero, suc, ◌+◌, ◌*◌, ◌/◌, ◌%◌, ◌^◌, ◌<◌, ◌≡◌, refl, sym, ap, ◌∙◌, arith}
use boltdb_cpp.Base.Xor.{xor_zero_left, xor_step, xor_comm, xor_assoc, xor_bound, xor_split}

-- The polynomial without its highest term.
abbrev pub polynomial : ℕ
polynomial = 0x42F0E1EBA9EA3693

-- One bit: the register moves left, and the polynomial is taken away where a bit moves out.
abbrev pub feedback : ℕ → ℕ
feedback zero = 0
feedback (suc t) = polynomial

unfoldable pub shift : ℕ → ℕ
shift a = bit_xor (a % 2 ^ 63 * 2) (feedback (a / 2 ^ 63))

abbrev pub shifts : ℕ → ℕ → ℕ
shifts zero a = a
shifts (suc n) a = shifts n (shift a)

abbrev pub shift_8 : ℕ → ℕ
shift_8 a = shifts 8 a

feedback_bound : (t : ℕ) → feedback t < 2 ^ 64
feedback_bound zero = omega arith
feedback_bound (suc t) = omega arith

pub xor_zero_right : (a : ℕ) → bit_xor a 0 ≡ a
xor_zero_right a = xor_comm a 0 ∙ xor_zero_left a

shift_bound : (a : ℕ) → shift a < 2 ^ 64
unfolding shift
shift_bound a =
    xor_bound 64 (a % 2 ^ 63 * 2) (feedback (a / 2 ^ 63)) (omega arith)
      (feedback_bound (a / 2 ^ 63))

shift_low : (a : ℕ) → a < 2 ^ 63 → shift a ≡ a * 2
unfolding shift
shift_low a h =
    let high : a / 2 ^ 63 ≡ 0 = omega (arith, h) in
    ap (λ t. bit_xor (a % 2 ^ 63 * 2) (feedback t)) high
    ∙ omega (arith, h, xor_zero_right (a % 2 ^ 63 * 2))

feedback_xor :
    (s t : ℕ) → s < 2 → t < 2 → feedback (bit_xor s t) ≡ bit_xor (feedback s) (feedback t)
feedback_xor zero t h k = ap feedback (xor_zero_left t) ∙ sym (xor_zero_left (feedback t))
feedback_xor (suc zero) zero h k = refl
feedback_xor (suc zero) (suc zero) h k = refl
feedback_xor (suc zero) (suc (suc t)) h k = absurd (omega arith)
feedback_xor (suc (suc s)) t h k = absurd (omega arith)

shuffle : (p q f g : ℕ) → bit_xor (bit_xor p q) (bit_xor f g) ≡ bit_xor (bit_xor p f) (bit_xor q g)
shuffle p q f g =
    xor_assoc p q (bit_xor f g)
    ∙ ap (bit_xor p)
        (sym (xor_assoc q f g) ∙ ap (λ x. bit_xor x g) (xor_comm q f) ∙ xor_assoc f q g)
    ∙ sym (xor_assoc p f (bit_xor q g))

xor_double : (a b : ℕ) → bit_xor a b * 2 ≡ bit_xor (a * 2) (b * 2)
xor_double a b =
    let x : a * 2 / 2 ≡ a = omega arith in
    let y : b * 2 / 2 ≡ b = omega arith in
    let halves : bit_xor (a * 2 / 2) (b * 2 / 2) ≡ bit_xor a b =
      ap (λ z. bit_xor z (b * 2 / 2)) x ∙ ap (bit_xor a) y in
    omega (arith, xor_step (a * 2) (b * 2), halves)

-- `bit_xor` of two numbers, taken apart at a place.
parted :
    (k a b : ℕ)
    → a % 2 ^ k < 2 ^ k
    → b % 2 ^ k < 2 ^ k
    → a ≡ a / 2 ^ k * 2 ^ k + a % 2 ^ k
    → b ≡ b / 2 ^ k * 2 ^ k + b % 2 ^ k
    → bit_xor a b ≡ bit_xor (a / 2 ^ k) (b / 2 ^ k) * 2 ^ k + bit_xor (a % 2 ^ k) (b % 2 ^ k)
parted k a b la lb ea eb =
    ap (λ x. bit_xor x b) ea
    ∙ ap (bit_xor (a / 2 ^ k * 2 ^ k + a % 2 ^ k)) eb
    ∙ xor_split k (a / 2 ^ k) (a % 2 ^ k) (b / 2 ^ k) (b % 2 ^ k) la lb

shift_xor : (a b : ℕ) → a < 2 ^ 64 → b < 2 ^ 64 → shift (bit_xor a b) ≡ bit_xor (shift a) (shift b)
unfolding shift
shift_xor a b h k =
    let parts = parted 63 a b (omega arith) (omega arith) (omega arith) (omega arith) in
    let la = a % 2 ^ 63 in
    let lb = b % 2 ^ 63 in
    let ta = a / 2 ^ 63 in
    let tb = b / 2 ^ 63 in
    let low = xor_bound 63 la lb (omega arith) (omega arith) in
    let low' : bit_xor a b % 2 ^ 63 * 2 ≡ bit_xor (la * 2) (lb * 2) =
      omega (arith, parts, low, xor_double la lb) in
    let high : bit_xor a b / 2 ^ 63 ≡ bit_xor ta tb = omega (arith, parts, low) in
    ap (λ x. bit_xor x (feedback (bit_xor a b / 2 ^ 63))) low'
    ∙ ap (λ t. bit_xor (bit_xor (la * 2) (lb * 2)) (feedback t)) high
    ∙ ap (bit_xor (bit_xor (la * 2) (lb * 2)))
        (feedback_xor ta tb (omega (arith, h)) (omega (arith, k)))
    ∙ shuffle (la * 2) (lb * 2) (feedback ta) (feedback tb)

pub shifts_xor :
    (n a b : ℕ)
    → a < 2 ^ 64
    → b < 2 ^ 64
    → shifts n (bit_xor a b) ≡ bit_xor (shifts n a) (shifts n b)
shifts_xor zero a b h k = refl
shifts_xor (suc n) a b h k =
    ap (shifts n) (shift_xor a b h k)
    ∙ shifts_xor n (shift a) (shift b) (shift_bound a) (shift_bound b)

pub shifts_bound : (n a : ℕ) → a < 2 ^ 64 → shifts n a < 2 ^ 64
shifts_bound zero a h = h
shifts_bound (suc n) a h = shifts_bound n (shift a) (shift_bound a)

-- A number below 2 ^ 56 meets no feedback.
pub shift_8_low : (a : ℕ) → a < 2 ^ 56 → shift_8 a ≡ a * 2 ^ 8
shift_8_low a h =
    ap (shifts 7) (shift_low a (omega arith))
    ∙ ap (shifts 6) (shift_low (a * 2) (omega arith))
    ∙ ap (shifts 5) (shift_low (a * 2 * 2) (omega arith))
    ∙ ap (shifts 4) (shift_low (a * 2 * 2 * 2) (omega arith))
    ∙ ap (shifts 3) (shift_low (a * 2 * 2 * 2 * 2) (omega arith))
    ∙ ap (shifts 2) (shift_low (a * 2 * 2 * 2 * 2 * 2) (omega arith))
    ∙ ap (shifts 1) (shift_low (a * 2 * 2 * 2 * 2 * 2 * 2) (omega arith))
    ∙ shift_low (a * 2 * 2 * 2 * 2 * 2 * 2 * 2) (omega arith)
    ∙ omega arith
