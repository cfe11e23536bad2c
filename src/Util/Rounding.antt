-- ===== src/Util/Rounding.antt =====
-- `round_up_to_power_of_two` of include/boltdb/util/util.hpp.
use Prim.Native.Nat.{bit_or}
use boltdb_cpp.Base.Bits.{bit_or_step}
use boltdb_cpp.Base.{ℕ, zero, suc, ◌≤◌, ◌<◌, arith, ◌-◌, ◌+◌, ◌/◌, ◌^◌}

-- `x |= x >> k`
abbrev pub or_shifted : ℕ → ℕ → ℕ
or_shifted k x = bit_or x (x / 2 ^ k)

-- The argument is positive. A result of 2 ^ 31 or more does not fit an `int`.
unfoldable pub round_up_to_power_of_two : ℕ → ℕ
round_up_to_power_of_two x =
    or_shifted 16 (or_shifted 8 (or_shifted 4 (or_shifted 2 (or_shifted 1 (x - 1))))) + 1

bit_or_bound : (n a b : ℕ) → a ≤ n → a ≤ bit_or a b
bit_or_bound zero a b h = omega arith
bit_or_bound (suc n) zero b h = omega arith
bit_or_bound (suc n) (suc a) b h =
    omega (arith, bit_or_step (suc a) b, bit_or_bound n (suc a / 2) (b / 2) (omega arith))

or_shifted_bound : (k x : ℕ) → x ≤ or_shifted k x
or_shifted_bound k x = bit_or_bound x x (x / 2 ^ k) (omega arith)

pub round_up_bound : (x : ℕ) → 0 < x → x ≤ round_up_to_power_of_two x
unfolding round_up_to_power_of_two
round_up_bound x pos =
    let x₁ = or_shifted 1 (x - 1) in
    let x₂ = or_shifted 2 x₁ in
    let x₄ = or_shifted 4 x₂ in
    let x₈ = or_shifted 8 x₄ in
    omega (
      arith,
      pos,
      or_shifted_bound 1 (x - 1),
      or_shifted_bound 2 x₁,
      or_shifted_bound 4 x₂,
      or_shifted_bound 8 x₄,
      or_shifted_bound 16 x₈,
    )
