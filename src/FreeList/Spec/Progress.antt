-- ===== src/FreeList/Spec/Progress.antt =====
-- Pages that src/page/freelist.cpp has taken back are allocated again.
use boltdb_cpp.Base.{
  some, ℕ, zero, suc, ◌+◌, ◌-◌, ◌%◌, ◌≤◌, ◌<◌, ◌≡◌, refl, ap, ◌∙◌, if◌then◌else◌, subst, inl, inr,
  true, false, List, [], ◌∷◌, arith, leb, ◌==◌, Bool-cases, length, count, All,
}
use boltdb_cpp.FreeList.{
  FreeList, returns, u64_mod, allocate_contiguous, find_block, release, is_pending, free_count,
}
use boltdb_cpp.FreeList.Pages.{IsPage}
use boltdb_cpp.FreeList.Release.{release-IsValid}
use boltdb_cpp.FreeList.History.{Reach, Reach-IsValid, pending_once}
use boltdb_cpp.FreeList.Spec.{free_page, pending_for, Shows}
use boltdb_cpp.FreeList.Spec.Statuses.{released-Shows}

-- The object after `k` requests for one page.
unfoldable pub after : ℕ → FreeList → FreeList
after zero f = f
after (suc k) f = after k (allocate_contiguous 1 f).1

first_found :
    (x : ℕ) (rest : List ℕ) → IsPage x → find_block 1 [] [] 0 (x ∷ rest) ≡ returns (some (x, rest))
unfolding find_block
first_found x rest page =
    let big : leb x 1 ≡ false = ground (arith, page) in
    elim (Bool-cases ((x + u64_mod - 0) % u64_mod == 1)) [
      | inl q ↦ rw (big, q) refl
      | inr q ↦ rw (big, q) refl
    ]

one_page :
    (f : FreeList) (x : ℕ) (rest : List ℕ)
    → f.ids ≡ x ∷ rest
    → IsPage x
    → ((allocate_contiguous 1 f).0 ≡ returns x) × ((allocate_contiguous 1 f).1.ids ≡ rest)
unfolding allocate_contiguous
one_page f x rest e page =
    let found : find_block 1 [] [] 0 f.ids ≡ returns (some (x, rest)) =
      ap (find_block 1 [] [] 0) e ∙ first_found x rest page in
    rw (found, allocate_contiguous) (refl, refl)

in_turn :
    (p : ℕ) (ids : List ℕ) (f : FreeList)
    → f.ids ≡ ids
    → All IsPage ids
    → 0 < count p ids
    → (k : ℕ) × (k < length ids) × ((allocate_contiguous 1 (after k f)).0 ≡ returns p)
unfolding after
in_turn p [] f e pages c = absurd (omega (arith, c))
in_turn p (x ∷ ids) f e (page, pages) c =
    let (out, left) = one_page f x ids e page in
    elim (Bool-cases (p == x)) [
      | inl q ↦
          let same : x ≡ p = ground (arith, q) in
          (0, omega arith, subst (λ y. (allocate_contiguous 1 f).0 ≡ returns y) same out)
      | inr q ↦
          let (k, lt, r) =
            in_turn p ids (allocate_contiguous 1 f).1 left pages (ground (arith, c, q)) in
          (suc k, omega (arith, lt), r)
    ]

-- In a state that can be reached, let a page be pending for the transaction `t`. After the release of
-- `t` or of a later transaction, requests for one page at a time give that page before as many are made
-- as there are free pages.
pub pending_page_returns :
    (t u p : ℕ) (f : FreeList)
    → Reach f
    → is_pending t p f ≡ true
    → t ≤ u
    → (k : ℕ) × (k < free_count (release u f))
      × ((allocate_contiguous 1 (after k (release u f))).0 ≡ returns p)
pending_page_returns t u p f r h le =
    let v = Reach-IsValid r in
    let member = pending_once f t p r h in
    let shown = released-Shows u p f (pending_for t) v (member.0, h) in
    let later : leb t u ≡ true = ground (arith, le) in
    let (_, one) =
      subst (Shows (release u f) p) (ap (λ b. if b then free_page else pending_for t) later)
        shown in
    in_turn p (release u f).ids (release u f) refl (release-IsValid u f v).free_pages
      (omega (arith, one))
