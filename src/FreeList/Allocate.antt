-- ===== src/FreeList/Allocate.antt =====
-- `FreeList::allocate_contiguous` of src/page/freelist.cpp as seen from outside.
use boltdb_cpp.Base.{
  ℕ, zero, suc, ◌+◌, ◌%◌, ◌≤◌, ◌<◌, ◌≡◌, ◌≢◌, subst, ◌⊎◌, inl, inr, Bool, true, false, List, [],
  ◌∷◌, ◌++◌, arith, if◌then◌else◌, count, count-append, All, All-append, All-append_inv, Ascending,
  Ascending-mono,
}
use boltdb_cpp.Base.Map
use boltdb_cpp.Base.Map.{Map}
use boltdb_cpp.FreeList.{
  FreeList, Result, returns, u64_mod, erase_run, allocate_contiguous, is_freed,
}
use boltdb_cpp.FreeList.Pages.{IsPage, IsValid}
use boltdb_cpp.FreeList.Effects.{in_range}
use boltdb_cpp.FreeList.Blocks.{run, find_block_cases}

-- The object after the block of `n` pages from `x` on was taken from between `a` and `b`.
abbrev pub taken : ℕ → ℕ → List ℕ → List ℕ → FreeList → FreeList
taken n x a b f = record f { ids = a ++ b; cache = erase_run n x f.cache }

abbrev pub AllocateOutcome : ℕ → FreeList → Result ℕ × FreeList → Type 0
AllocateOutcome n f r =
    ((x : ℕ) × (a : List ℕ) × (b : List ℕ) × IsPage x
      × (f.ids ≡ a ++ (run n x ++ b))
      × (r ≡ (returns x, taken n x a b f)))
    ⊎ (((a b : List ℕ) (x : ℕ) → f.ids ≢ a ++ (run n x ++ b)) × (r ≡ (returns 0, f)))

-- On free ids that are all ids of pages, a request for at least one page takes a block of that many
-- consecutive ids out of them and returns its first id, or returns 0 and changes nothing, and then
-- there is no such block.
pub allocate_cases :
    (n : ℕ) (f : FreeList)
    → 0 < n
    → All IsPage f.ids
    → AllocateOutcome n f (allocate_contiguous n f)
unfolding allocate_contiguous
allocate_cases n f pos pages = elim (find_block_cases n f.ids pos pages) [
  | inl (x, a, b, page, e, r) ↦ inl (x, a, b, page, e, rw (r, allocate_contiguous))
  | inr ((h, _), r) ↦ inr (h, rw (r, allocate_contiguous))
]

pub count-run : (p n x : ℕ) → count p (run n x) ≡ (if in_range n x p then 1 else 0)
count-run p zero x = ground arith
count-run p (suc n) x = ground (arith, count-run p n (x + 1))

run_fits : (n x : ℕ) → x ≤ u64_mod → All IsPage (run n x) → x + n ≤ u64_mod
run_fits zero x h a = omega arith
run_fits (suc n) x h a = omega (arith, run_fits n (x + 1) (omega (arith, a.0)) a.1)

pub contains-erase_run :
    (p n x : ℕ) (cache : Map Bool)
    → x + n ≤ u64_mod
    → Map.contains p (erase_run n x cache)
      ≡ (if in_range n x p then false else Map.contains p cache)
unfolding erase_run
contains-erase_run p zero x cache h = ground arith
contains-erase_run p (suc zero) x cache h = ground (arith, Map.contains-erase p x cache)
contains-erase_run p (suc (suc n)) x cache h =
    let e : (x + 1) % u64_mod ≡ x + 1 = omega arith in
    rw e (
      ground (
        arith,
        contains-erase_run p (suc n) (x + 1) (Map.erase x cache) (omega arith),
        Map.contains-erase p x cache,
      ))

Ascending-tail : (lo : ℕ) (a b : List ℕ) → Ascending lo (a ++ b) → Ascending lo b
Ascending-tail lo [] b h = h
Ascending-tail lo (x ∷ a) b h = Ascending-mono x lo b h.0 (Ascending-tail x a b h.1)

Ascending-cut : (lo : ℕ) (a m b : List ℕ) → Ascending lo (a ++ (m ++ b)) → Ascending lo (a ++ b)
Ascending-cut lo [] m b h = Ascending-tail lo m b h
Ascending-cut lo (x ∷ a) m b h = (h.0, Ascending-cut x a m b h.1)

module _ (n x : ℕ) (a b : List ℕ) (f : FreeList) (v : IsValid f)
    (e : f.ids ≡ a ++ (run n x ++ b)) where
  parts : All IsPage a × All IsPage (run n x) × All IsPage b
  parts =
      let (l, r) = All-append_inv IsPage a (run n x ++ b) (subst (All IsPage) e v.free_pages) in
      let (m, t) = All-append_inv IsPage (run n x) b r in (l, m, t)

  pub block_fits : IsPage x → x + n ≤ u64_mod
  block_fits page = run_fits n x (omega (arith, page)) parts.1

  pub count_parts : (p : ℕ) → count p f.ids ≡ count p (a ++ b) + (if in_range n x p then 1 else 0)
  count_parts p = rw e (
      omega (
        arith,
        count-append p a (run n x ++ b),
        count-append p (run n x) b,
        count-append p a b,
        count-run p n x,
      ))

  taken-IsValid : IsPage x → IsValid (taken n x a b f)
  taken-IsValid page = record {
    exact = λ p.
        ground
          (arith, v.exact p, count_parts p, contains-erase_run p n x f.cache (block_fits page));
    sorted = Ascending-cut 2 a (run n x) b (subst (Ascending 2) e v.sorted);
    free_pages = All-append IsPage a b parts.0 parts.2;
    pending_pages = v.pending_pages;
    keys = v.keys;
  }

-- `allocate_contiguous` keeps the object valid.
pub allocate-IsValid :
    (n : ℕ) (f : FreeList) → 0 < n → IsValid f → IsValid (allocate_contiguous n f).1
allocate-IsValid n f pos v = elim (allocate_cases n f pos v.free_pages) [
  | inl (x, a, b, page, e, r) ↦ rw r (taken-IsValid n x a b f v e page)
  | inr (h, r) ↦ rw r v
]

-- The pages of a block that is allocated from a valid free list, of at least one page, were free
-- and are not freed any more; every other page stands as before.
allocate_takes :
    (n x : ℕ) (f f' : FreeList)
    → 0 < n
    → IsValid f
    → allocate_contiguous n f ≡ (returns x, f')
    → x ≢ 0
    → (p : ℕ)
    → (is_freed p f' ≡ (if in_range n x p then false else is_freed p f))
      × (in_range n x p ≡ true → is_freed p f ≡ true)
unfolding is_freed
allocate_takes n x f f' pos v run_to nonzero p = elim (allocate_cases n f pos v.free_pages) [
  | inl (y, a, b, page, e, r) ↦
      let same : y ≡ x = cc (r, run_to) in
      let state : taken n y a b f ≡ f' = cc (r, run_to) in
      rw (← same, ← state)
        (
          contains-erase_run p n y f.cache (block_fits n y a b f v e page),
          λ h. ground (arith, h, v.exact p, count_parts n y a b f v e p),
        )
  | inr (h, r) ↦ absurd (nonzero (cc (r, run_to)))
]

-- Two blocks of at least one page that are allocated one after the other from a valid free list
-- share no page.
pub allocate_disjoint :
    (n m x y : ℕ) (f g h : FreeList)
    → 0 < n
    → 0 < m
    → IsValid f
    → allocate_contiguous n f ≡ (returns x, g)
    → allocate_contiguous m g ≡ (returns y, h)
    → x ≢ 0
    → y ≢ 0
    → (x + n ≤ y) ⊎ (y + m ≤ x)
allocate_disjoint n m x y f g h npos mpos v first second xnz ynz =
    let v' : IsValid g =
      subst (λ (s : Result ℕ × FreeList). IsValid s.1) first (allocate-IsValid n f npos v) in
    ground (
      arith,
      allocate_takes n x f g npos v first xnz x,
      allocate_takes n x f g npos v first xnz y,
      allocate_takes m y g h mpos v' second ynz x,
      allocate_takes m y g h mpos v' second ynz y,
    )
