-- ===== src/FreeList/History.antt =====
-- Sequences of allocations, frees, releases and rollbacks on a FreeList (src/page/freelist.cpp), from the
-- default constructor on. They are what transactions do; the constructor from a vector of ids and the
-- methods that read a page, `read_from` and `reload`, are not among them.
use boltdb_cpp.Base.{
  ℕ, suc, ◌+◌, ◌≤◌, ◌<◌, ◌≡◌, ◌≢◌, sym, subst, inl, inr, true, false, List, [], ◌∷◌, some, arith,
  leb, Bool-cases, count, count-append,
}
use boltdb_cpp.Base.Map
use boltdb_cpp.Base.Map.{Map, KeysFrom}
use boltdb_cpp.FreeList.{
  FreeList, Result, empty, u64_mod, allocate_contiguous, free, release, rollback, is_freed,
  is_pending, ids_of,
}
use boltdb_cpp.FreeList.Pages.{IsValid, pending_ids, empty-IsValid, contains_id-count}
use boltdb_cpp.FreeList.Free.{free_cases, free_run}
use boltdb_cpp.FreeList.Effects.{free_run-IsValid, rollback-IsValid}
use boltdb_cpp.FreeList.Release.{release-IsValid}
use boltdb_cpp.FreeList.Allocate.{allocate-IsValid}

-- One call. A caller asks for at least one page, and frees pages whose ids, with their overflow, stay
-- below the greatest 64-bit number. A call that throws leaves the object as it is then.
pub data Step : FreeList → FreeList → Type 0 where
  allocates : (n : ℕ) (f : FreeList) → 0 < n → Step f (allocate_contiguous n f).1
  frees :
      (txn_id pgid overflow : ℕ) (f g : FreeList) (r : Result (Unit {0}))
      → pgid + overflow + 1 < u64_mod
      → free txn_id pgid overflow f ≡ some (r, g)
      → Step f g
  releases : (txn_id : ℕ) (f : FreeList) → Step f (release txn_id f)
  rolls_back : (txn_id : ℕ) (f : FreeList) → Step f (rollback txn_id f)

pub data Reach : FreeList → Type 0 where
  start : Reach empty
  next : {f g : FreeList} → Reach f → Step f g → Reach g

-- `free` keeps the object valid, whether it returns or throws.
pub free-IsValid :
    (txn_id pgid overflow : ℕ) (f g : FreeList) (r : Result (Unit {0}))
    → pgid + overflow + 1 < u64_mod
    → free txn_id pgid overflow f ≡ some (r, g)
    → IsValid f
    → IsValid g
free-IsValid txn_id pgid overflow f g r small e v = elim (Bool-cases (leb pgid 1)) [
  | inl low ↦ let same : f ≡ g = unfold free in ground (arith, low, e) in subst IsValid same v
  | inr page ↦ elim (free_cases txn_id pgid overflow f (ground (arith, page)) small) [
    | inl (h, q) ↦
        let same : free_run (overflow + 1) txn_id pgid f ≡ g = cc (q, e) in
        subst IsValid same
          (free_run-IsValid (overflow + 1) txn_id pgid f (ground (arith, page)) (omega arith) h v)
    | inr (k, lt, h, hit, q) ↦
        let same : free_run k txn_id pgid f ≡ g = cc (q, e) in
        subst IsValid same
          (free_run-IsValid k txn_id pgid f (ground (arith, page)) (omega arith) h v)
  ]
]

pub Step-IsValid : {f g : FreeList} → Step f g → IsValid f → IsValid g
Step-IsValid (allocates n f pos) v = allocate-IsValid n f pos v
Step-IsValid (frees txn_id pgid overflow f g r small e) v =
    free-IsValid txn_id pgid overflow f g r small e v
Step-IsValid (releases txn_id f) v = release-IsValid txn_id f v
Step-IsValid (rolls_back txn_id f) v = rollback-IsValid txn_id f v

-- After any sequence of `allocate_contiguous`, `free`, `release` and `rollback` on an object of the default
-- constructor, those that throw included, the cache holds exactly the ids that are free or pending, each
-- of which stands in one place, and the free ids ascend. The requests are for at least one page, and
-- the pages that are freed stay below the greatest 64-bit number.
pub Reach-IsValid : {f : FreeList} → Reach f → IsValid f
Reach-IsValid start = empty-IsValid
Reach-IsValid (next r s) = Step-IsValid s (Reach-IsValid r)

count-two_txns :
    (p t u lo : ℕ) (m : Map (List ℕ))
    → KeysFrom lo m
    → t ≢ u
    → count p (ids_of (Map.find t m)) + count p (ids_of (Map.find u m)) ≤ count p (pending_ids m)
unfolding Map.find
count-two_txns p t u lo [] k ne = omega arith
count-two_txns p t u lo ((j, v) ∷ m) k ne = ground (
  arith,
  count-two_txns p t u (suc j) m k.1,
  Map.find_below t (suc j) m k.1,
  Map.find_below u (suc j) m k.1,
  count-append p v (pending_ids m),
)

-- In a state that can be reached a page that is pending for one transaction is not pending for
-- another and not free, and `is_freed` holds of it.
pub pending_once :
    (f : FreeList) (t p : ℕ)
    → Reach f
    → is_pending t p f ≡ true
    → (is_freed p f ≡ true) × (count p f.ids ≡ 0) × ((u : ℕ) → u ≢ t → is_pending u p f ≡ false)
unfolding is_pending is_freed
pending_once f t p r h =
    let v = Reach-IsValid r in
    let one = v.exact p in
    let here = count-two_txns p t (suc t) 0 f.pending v.keys (λ e. omega (arith, e)) in
    let member = contains_id-count p (ids_of (Map.find t f.pending)) in
    (
      ground (arith, h, one, here, member),
      ground (arith, h, one, here, member),
      λ u ne. ground (
        arith,
        h,
        one,
        member,
        count-two_txns p t u 0 f.pending v.keys (λ e. ne (sym e)),
        contains_id-count p (ids_of (Map.find u f.pending)),
      ),
    )
