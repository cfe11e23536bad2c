-- ===== src/Util/RefCount/Sharing.antt =====
-- Who shares a counter of src/util/ref_count.cpp, and which pointers a call leaves, for an object that holds
-- a counter as a part.
use boltdb_cpp.Base.{
  ℕ, suc, ◌+◌, ◌<◌, ◌≡◌, ◌≢◌, refl, sym, ap, ◌∙◌, inl, inr, true, false, List, [], ◌∷◌, Option,
  none, some, ◌==◌, length, set, entry_beyond, entry-set, entry-set_other, arith, Bool-cases,
}
use boltdb_cpp.Util.RefCount.{RefCounts, counter, pointer, unique}
use boltdb_cpp.Util.RefCount.Owners.{IsValid, points, uses, uses-pos, uses-set}

unique-counter :
    (i c : ℕ) (s : RefCounts) → pointer s.owners i ≡ some c → unique i s ≡ (counter s.counts c == 1)
unfolding unique
unique-counter i c s e = rw (e, unique) refl

-- The pointers to a counter but for that of one owner.
uses-others :
    (i c : ℕ) (ps : List (Option ℕ))
    → pointer ps i ≡ some c
    → uses c (set ps i none) + 1 ≡ uses c ps
uses-others i c ps e =
    let (_, lt) = uses-pos c i ps e in
    let here : points c (pointer ps i) ≡ 1 = ap (points c) e ∙ ground arith in
    omega (arith, uses-set c i none ps lt, here)

-- An object with the only pointer to its counter.
pub unique-alone :
    (i c : ℕ) (s : RefCounts)
    → IsValid s
    → pointer s.owners i ≡ some c
    → unique i s ≡ true
    → (k : ℕ) → pointer s.owners k ≡ some c
    → k ≡ i
unique-alone i c s v e u k h = elim (Bool-cases (i == k)) [
  | inl q ↦ ground (arith, q)
  | inr q ↦
      let (more, _) =
        uses-pos c k (set s.owners i none)
          (entry-set_other none s.owners i k none (ground (arith, q)) ∙ h) in
      let one : (counter s.counts c == 1) ≡ true = sym (unique-counter i c s e) ∙ u in
      absurd (ground (arith, one, v c, uses-others i c s.owners e, more))
]

uses-somewhere : (c : ℕ) (ps : List (Option ℕ)) → 0 < uses c ps → (k : ℕ) × (pointer ps k ≡ some c)
uses-somewhere c [] h = absurd (omega (arith, h))
uses-somewhere c (none ∷ ps) h = let (k, e) = uses-somewhere c ps (omega (arith, h)) in (suc k, e)
uses-somewhere c (some d ∷ ps) h = elim (Bool-cases (d == c)) [
  | inl q ↦ (0, ap some (ground (arith, q)))
  | inr q ↦ let (k, e) = uses-somewhere c ps (ground (arith, h, q)) in (suc k, e)
]

pub unique-another :
    (i c : ℕ) (s : RefCounts)
    → IsValid s
    → pointer s.owners i ≡ some c
    → unique i s ≡ false
    → (k : ℕ) × (k ≢ i) × (pointer s.owners k ≡ some c)
unique-another i c s v e u =
    let shared : (counter s.counts c == 1) ≡ false = sym (unique-counter i c s e) ∙ u in
    let rest : 0 < uses c (set s.owners i none) =
      ground (arith, shared, v c, uses-others i c s.owners e, uses-pos c i s.owners e) in
    let (_, lt) = uses-pos c i s.owners e in
    let (k, p) = uses-somewhere c (set s.owners i none) rest in
    elim (entry-set none s.owners i k none lt) [
      | inl (_, gone) ↦ absurd (cc (gone, p))
      | inr (ne, same) ↦ (k, (λ x. ne (sym x)), sym same ∙ p)
    ]

-- A counter that is not made yet has no owner.
pub unused : (s : RefCounts) (k : ℕ) → IsValid s → pointer s.owners k ≢ some (length s.counts)
unused s k v e =
    let (used, _) = uses-pos (length s.counts) k s.owners e in
    omega
      (arith, v (length s.counts), entry_beyond 0 s.counts (length s.counts) (omega arith), used)
