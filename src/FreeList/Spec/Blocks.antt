-- ===== src/FreeList/Spec/Blocks.antt =====
-- When the free ids of src/page/freelist.cpp hold every page of a block, they hold the block.
use boltdb_cpp.Base.{
  ℕ, zero, suc, ◌+◌, ◌≤◌, ◌<◌, ◌≡◌, refl, subst, ap, ◌∙◌, inl, inr, true, List, [], ◌∷◌, ◌++◌,
  arith, ltb, Bool-cases, count, count_below, Ascending,
}
use boltdb_cpp.FreeList.Effects.{in_range}
use boltdb_cpp.FreeList.Blocks.{run}

-- Ids that ascend, each once, start with a block when they start no lower and hold all of it.
starts_with :
    (n x : ℕ) (ids : List ℕ)
    → Ascending x ids
    → ((p : ℕ) → count p ids ≤ 1)
    → ((p : ℕ) → in_range n x p ≡ true → 0 < count p ids)
    → (b : List ℕ) × (ids ≡ run n x ++ b)
starts_with zero x ids asc once h = (ids, refl)
starts_with (suc n) x [] asc once h = absurd (omega (arith, h x (ground arith)))
starts_with (suc n) x (y ∷ ids) asc once h =
    let same : y ≡ x = ground (arith, asc, count_below x y ids asc.1, h x (ground arith)) in
    let gone : count x ids ≡ 0 = ground (arith, same, once x) in
    let (b, e) =
      starts_with n (x + 1) ids (above x ids (subst (λ z. Ascending z ids) same asc.1) gone)
        (λ p. ground (arith, once p)) (λ p q. ground (arith, same, q, h p)) in
    (b, ap (◌∷◌ y) e ∙ ap (λ z. z ∷ (run n (x + 1) ++ b)) same)
  where
    above : (x : ℕ) (ids : List ℕ) → Ascending x ids → count x ids ≡ 0 → Ascending (x + 1) ids
    above x [] a c = tt
    above x (z ∷ ids) a c = (ground (arith, a, c), a.1)

pub has_block :
    (n x lo : ℕ) (ids : List ℕ)
    → 0 < n
    → Ascending lo ids
    → ((p : ℕ) → count p ids ≤ 1)
    → ((p : ℕ) → in_range n x p ≡ true → 0 < count p ids)
    → (a : List ℕ) × (b : List ℕ) × (ids ≡ a ++ (run n x ++ b))
has_block n x lo [] pos asc once h = absurd (omega (arith, h x (ground arith)))
has_block n x lo (y ∷ ids) pos asc once h = elim (Bool-cases (ltb y x)) [
  | inl q ↦
      let (a, b, e) =
        has_block n x y ids pos asc.1 (λ p. ground (arith, once p))
          (λ p r. ground (arith, q, r, h p)) in
      (y ∷ a, b, ap (◌∷◌ y) e)
  | inr q ↦ let (b, e) = starts_with n x (y ∷ ids) (ground (arith, q), asc.1) once h in ([], b, e)
]
