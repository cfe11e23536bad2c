-- ===== src/Util/IRange/Walk.antt =====
-- A loop over a range of include/boltdb/util/irange.hpp visits the values between its bounds.
use boltdb_cpp.Base.{
  ℕ, zero, suc, ◌≡◌, ◌≢◌, refl, ap, ◌∙◌, inl, inr, true, false, List, [], ◌∷◌, some, ◌==◌, arith,
  Bool-cases,
}
use boltdb_cpp.Base.Int.{
  ℤ, pos, above, below, ◌+ℤ◌, ◌*ℤ◌, same_ℤ, same_ℤ→eq, parts-add, eq_of_parts, mul_suc, mul_zero,
  mul_nonzero,
}
use boltdb_cpp.Util.IRange.{increment, equals, walk}

-- `first`, `first + step`, … of `n` values.
abbrev pub values : ℕ → ℤ → ℤ → List ℤ
values zero first step = []
values (suc n) first step = first ∷ values n (first +ℤ step) step

same_refl : (x : ℤ) → same_ℤ x x ≡ true
same_refl x = ground arith

at_end : (n : ℕ) (x s : ℤ) → s ≢ pos 0 → same_ℤ x (x +ℤ s *ℤ pos n) ≡ (n == 0)
at_end zero x s ne =
    let same : x +ℤ s *ℤ pos 0 ≡ x =
      ap (λ z. x +ℤ z) (mul_zero s)
      ∙ eq_of_parts (x +ℤ pos 0) x (omega (arith, parts-add x (pos 0))) in
    rw same (same_refl x)
at_end (suc n) x s ne = elim (Bool-cases (same_ℤ x (x +ℤ s *ℤ pos (suc n)))) [
  | inl q ↦ absurd (
      ne (
        mul_nonzero s n (
          eq_of_parts (s *ℤ pos (suc n)) (pos 0) (
            omega (
              arith,
              parts-add x (s *ℤ pos (suc n)),
              ap above (same_ℤ→eq x (x +ℤ s *ℤ pos (suc n)) q),
              ap below (same_ℤ→eq x (x +ℤ s *ℤ pos (suc n)) q),
            )))))
  | inr q ↦ rw q (ground arith)
]

equals_end :
    (n : ℕ) (x s : ℤ)
    → s ≢ pos 0
    → equals (record { first = x; step = s }) (record { first = x +ℤ s *ℤ pos n; step = s })
      ≡ (n == 0)
unfolding equals
equals_end n x s ne = rw (at_end n x s ne) (ground (arith, same_refl s))

next_end : (n : ℕ) (x s : ℤ) → x +ℤ s *ℤ pos (suc n) ≡ (x +ℤ s) +ℤ s *ℤ pos n
next_end n x s = rw (mul_suc s n) (
    eq_of_parts (x +ℤ (s +ℤ s *ℤ pos n)) ((x +ℤ s) +ℤ s *ℤ pos n) (
      omega (
        arith,
        parts-add x (s +ℤ s *ℤ pos n),
        parts-add s (s *ℤ pos n),
        parts-add (x +ℤ s) (s *ℤ pos n),
        parts-add x s,
      )))

-- A loop that starts `n` steps ahead of the end visits `n` values, and ends.
pub walk_lem :
    (n : ℕ) (x s : ℤ)
    → s ≢ pos 0
    → walk (suc n) (record { first = x; step = s }) (record { first = x +ℤ s *ℤ pos n; step = s })
      ≡ some (values n x s)
unfolding walk increment
walk_lem zero x s ne = rw (equals_end zero x s ne) refl
walk_lem (suc n) x s ne =
    let going : (suc n == 0) ≡ false = ground arith in
    rw (equals_end (suc n) x s ne, going) (rw (next_end n x s) (rw (walk_lem n (x +ℤ s) s ne) refl))
