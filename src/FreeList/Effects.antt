-- ===== src/FreeList/Effects.antt =====
-- What the pages that `FreeList::free` marks, and those that `rollback` gives up, do to the object:
-- its invariant, `is_freed` and `is_pending` (src/page/freelist.cpp).
use boltdb_cpp.Base.{
  ℕ, zero, suc, ◌+◌, ◌≤◌, ◌≡◌, refl, Bool, true, false, ◌&&◌, ◌||◌, List, [], ◌∷◌, ◌++◌, Option,
  none, some, arith, ltb, leb, ◌==◌, if◌then◌else◌, count-append,
}
use boltdb_cpp.Base.Map
use boltdb_cpp.Base.Map.{Map, KeysFrom}
use boltdb_cpp.FreeList.{
  FreeList, u64_mod, push_back, free_one, is_freed, is_pending, rollback, ids_of, contains_id,
}
use boltdb_cpp.FreeList.Pages.{
  IsPage, IsValid, count-push, push-IsPage, count-erase, erase-IsPage, contains-erase_all,
  contains_id-count,
}
use boltdb_cpp.FreeList.Free.{free_run, InUse, InUse-tail}

free_one-IsValid :
    (txn_id i : ℕ) (f : FreeList)
    → IsPage i
    → Map.contains i f.cache ≡ false
    → IsValid f
    → IsValid (free_one txn_id i f)
free_one-IsValid txn_id i f page clear v = record {
  exact = λ p. ground (
    arith,
    v.exact p,
    clear,
    count-push p txn_id i f.pending,
    Map.contains-assign p i true f.cache,
  );
  sorted = v.sorted;
  free_pages = v.free_pages;
  pending_pages = push-IsPage txn_id i f.pending page v.pending_pages;
  keys = Map.alter-KeysFrom txn_id 0 (push_back i) f.pending (omega arith) v.keys;
}

-- Freeing pages that are in use keeps the object valid.
pub free_run-IsValid :
    (n txn_id i : ℕ) (f : FreeList)
    → 2 ≤ i
    → i + n ≤ u64_mod
    → InUse n i f
    → IsValid f
    → IsValid (free_run n txn_id i f)
unfolding free_run
free_run-IsValid zero txn_id i f lo hi h v = v
free_run-IsValid (suc n) txn_id i f lo hi h v =
    free_run-IsValid n txn_id (i + 1) (free_one txn_id i f) (omega arith) (omega arith)
      (InUse-tail n i txn_id f h)
      (free_one-IsValid txn_id i f (omega arith) (h i (omega arith) (omega arith)) v)

-- `p` is one of the `n` numbers from `i` on.
abbrev pub in_range : ℕ → ℕ → ℕ → Bool
in_range n i p = leb i p && ltb p (i + n)

pub is_freed-free_run :
    (p n txn_id i : ℕ) (f : FreeList)
    → is_freed p (free_run n txn_id i f) ≡ (in_range n i p || is_freed p f)
unfolding is_freed free_run
is_freed-free_run p zero txn_id i f = ground arith
is_freed-free_run p (suc n) txn_id i f = ground (
  arith,
  is_freed-free_run p n txn_id (i + 1) (free_one txn_id i f),
  Map.contains-assign p i true f.cache,
)

contains_id-push :
    (p i : ℕ) (o : Option (List ℕ))
    → contains_id p (push_back i o) ≡ (i == p || contains_id p (ids_of o))
contains_id-push p i none = ground arith
contains_id-push p i (some pgids) = ground (
  arith,
  contains_id-count p (pgids ++ (i ∷ [])),
  contains_id-count p pgids,
  count-append p pgids (i ∷ []),
)

is_pending-free_one :
    (txn_id p t i : ℕ) (f : FreeList)
    → KeysFrom 0 f.pending
    → is_pending txn_id p (free_one t i f) ≡ ((t == txn_id && i == p) || is_pending txn_id p f)
unfolding is_pending
is_pending-free_one txn_id p t i f k = ground (
  arith,
  Map.find-alter txn_id t 0 (push_back i) f.pending k,
  contains_id-push p i (Map.find t f.pending),
)

pub is_pending-free_run :
    (txn_id p n t i : ℕ) (f : FreeList)
    → KeysFrom 0 f.pending
    → is_pending txn_id p (free_run n t i f)
      ≡ ((t == txn_id && in_range n i p) || is_pending txn_id p f)
unfolding free_run
is_pending-free_run txn_id p zero t i f k = ground arith
is_pending-free_run txn_id p (suc n) t i f k = ground (
  arith,
  is_pending-free_run txn_id p n t (i + 1) (free_one t i f)
      (Map.alter-KeysFrom t 0 (push_back i) f.pending (omega arith) k),
  is_pending-free_one txn_id p t i f k,
)

erase-alter {ℓ} :
    {V : Type ℓ} (k : ℕ) (g : Option V → V) (m : Map V)
    → Map.erase k (Map.alter k g m) ≡ Map.erase k m
unfolding Map.erase Map.alter
erase-alter k g [] = ground arith
erase-alter k g ((j, v) ∷ m) = ground (arith, erase-alter k g m)

-- `rollback` keeps the object valid.
pub rollback-IsValid : (txn_id : ℕ) (f : FreeList) → IsValid f → IsValid (rollback txn_id f)
unfolding rollback
rollback-IsValid txn_id f v = rw (erase-alter txn_id ids_of f.pending) (record {
  exact = λ p. ground (
    arith,
    v.exact p,
    count-erase p txn_id 0 f.pending v.keys,
    contains-erase_all p (ids_of (Map.find txn_id f.pending)) f.cache,
    contains_id-count p (ids_of (Map.find txn_id f.pending)),
  );
  sorted = v.sorted;
  free_pages = v.free_pages;
  pending_pages = erase-IsPage txn_id f.pending v.pending_pages;
  keys = Map.erase-KeysFrom txn_id 0 f.pending v.keys;
})

-- After `rollback` the transaction has no pending page, and the pages that it had freed are in use again. The
-- free ids are those from before, in the same order, and what the other transactions have pending stays
-- pending for them; `is_freed` answers as before for every page that was not pending for the transaction.
pub rollback_lem :
    (txn_id : ℕ) (f : FreeList)
    → (p t : ℕ)
    → (is_freed p (rollback txn_id f) ≡ (if is_pending txn_id p f then false else is_freed p f))
      × (is_pending t p (rollback txn_id f) ≡ (if txn_id == t then false else is_pending t p f))
      × ((rollback txn_id f).ids ≡ f.ids)
      × (Map.find t (rollback txn_id f).pending
          ≡ (if txn_id == t then none else Map.find t f.pending))
unfolding rollback is_freed is_pending
rollback_lem txn_id f p t = rw (erase-alter txn_id ids_of f.pending) (
  contains-erase_all p (ids_of (Map.find txn_id f.pending)) f.cache,
  ground (arith, Map.find-erase t txn_id f.pending),
  refl,
  Map.find-erase t txn_id f.pending,
)
