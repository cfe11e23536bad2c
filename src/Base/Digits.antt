-- ===== src/Base/Digits.antt =====
-- The native operations on bits go through the digits on fuel. Here is what they do at the lowest digit.
use Prim.Native.Nat.{ℕ, zero, suc, ◌+◌, ◌*◌, ◌/◌, ◌%◌, ◌≤◌, digits, bitwise}
use mathlib.Core.Path.{◌≡◌, refl, ap, sym, ◌∙◌}
use mathlib.Core.Logic.{inl, inr}
use native.Mathlib.Omega.{arith}
use boltdb_cpp.Base.Tests.{leb, Bool-cases}

module _ (rest : ℕ → ℕ) (op : ℕ → ℕ → ℕ) where
  -- A round that is not needed changes nothing.
  idle_round : (fuel a b : ℕ) → a ≤ fuel → digits rest op (suc fuel) a b ≡ digits rest op fuel a b
  idle_round zero zero b h = refl
  idle_round (suc fuel) zero b h = refl
  idle_round zero (suc a) b h = absurd (omega arith)
  idle_round (suc fuel) (suc a) b h =
      ap (λ d. d * 2 + op (suc a % 2) (b % 2)) (idle_round fuel (suc a / 2) (b / 2) (omega arith))

  enough : (fuel a b : ℕ) → a ≤ fuel → digits rest op fuel a b ≡ bitwise rest op a b
  enough zero zero b h = refl
  enough zero (suc a) b h = absurd (omega arith)
  enough (suc fuel) a b h = elim (Bool-cases (leb a fuel)) [
    | inl e ↦
        let less : a ≤ fuel = ground (arith, e) in idle_round fuel a b less ∙ enough fuel a b less
    | inr e ↦ let all : a ≡ suc fuel = ground (arith, e) in ap (λ n. digits rest op n a b) (sym all)
  ]

  pub lowest_digit :
      (a b : ℕ)
      → bitwise rest op (suc a) b ≡ bitwise rest op (suc a / 2) (b / 2) * 2 + op (suc a % 2) (b % 2)
  lowest_digit a b =
      ap (λ d. d * 2 + op (suc a % 2) (b % 2)) (enough a (suc a / 2) (b / 2) (omega arith))
