-- ===== src/FreeList/Pages.antt =====
-- What holds of a FreeList of src/page/freelist.cpp between its operations: the free ids ascend, and
-- the cache holds exactly the ids that are free or pending, each of which stands in one place.
use boltdb_cpp.Base.{
  ℕ, ◌+◌, ◌≤◌, ◌<◌, ◌≡◌, refl, Bool, false, List, [], ◌∷◌, ◌++◌, foldl, arith, ◌==◌, ltb,
  if◌then◌else◌, count, count-append, All, All-append, All-append_inv, Ascending,
}
use boltdb_cpp.Base.Map
use boltdb_cpp.Base.Map.{Map, KeysFrom}
use boltdb_cpp.FreeList.{FreeList, push_back, ids_of, u64_mod, empty, contains_id}

-- A page that can be freed: not one of the two meta pages.
abbrev pub IsPage : ℕ → Type 0
IsPage p = (2 ≤ p) × (p < u64_mod)

-- The ids that wait for a transaction to end, in the order of the map.
abbrev pub pending_ids : Map (List ℕ) → List ℕ
pending_ids [] = []
pending_ids ((t, pgids) ∷ m) = pgids ++ pending_ids m

pub record IsValid (f : FreeList) : Type 0 where
  pub exact :
      (p : ℕ)
      → count p f.ids + count p (pending_ids f.pending) ≡ (if Map.contains p f.cache then 1 else 0)
  pub sorted : Ascending 2 f.ids
  pub free_pages : All IsPage f.ids
  pub pending_pages : All IsPage (pending_ids f.pending)
  pub keys : KeysFrom 0 f.pending

-- The default constructor gives a valid object.
pub empty-IsValid : IsValid empty
unfolding Map.contains
empty-IsValid = record {
  exact = λ p. refl;
  sorted = tt;
  free_pages = tt;
  pending_pages = tt;
  keys = tt;
}

pub count-push :
    (p t i : ℕ) (m : Map (List ℕ))
    → count p (pending_ids (Map.alter t (push_back i) m))
      ≡ (if i == p then 1 else 0) + count p (pending_ids m)
unfolding Map.alter
count-push p t i [] = ground arith
count-push p t i ((k, v) ∷ m) = ground (
  arith,
  count-push p t i m,
  count-append p v (pending_ids m),
  count-append p v (pending_ids (Map.alter t (push_back i) m)),
  count-append p (v ++ (i ∷ [])) (pending_ids m),
  count-append p v (i ∷ []),
)

pub push-IsPage :
    (t i : ℕ) (m : Map (List ℕ))
    → IsPage i
    → All IsPage (pending_ids m)
    → All IsPage (pending_ids (Map.alter t (push_back i) m))
unfolding Map.alter
push-IsPage t i [] h a = (h, tt)
push-IsPage t i ((k, v) ∷ m) h a =
    let parts = All-append_inv IsPage v (pending_ids m) a in
    ground (
      arith,
      h,
      a,
      All-append IsPage (v ++ (i ∷ [])) (pending_ids m)
          (All-append IsPage v (i ∷ []) parts.0 (h, tt)) parts.1,
      All-append IsPage v (pending_ids (Map.alter t (push_back i) m)) parts.0
          (push-IsPage t i m h parts.1),
    )

-- `erase` of a key takes out what `find` gives.
pub count-erase :
    (p t lo : ℕ) (m : Map (List ℕ))
    → KeysFrom lo m
    → count p (ids_of (Map.find t m)) + count p (pending_ids (Map.erase t m))
      ≡ count p (pending_ids m)
unfolding Map.find Map.erase
count-erase p t lo [] a = refl
count-erase p t lo ((k, v) ∷ m) a = ground (
  arith,
  count-erase p t (k + 1) m,
  Map.erase_below t (k + 1) m,
  count-append p v (pending_ids m),
  count-append p v (pending_ids (Map.erase t m)),
)

pub erase-IsPage :
    (t : ℕ) (m : Map (List ℕ))
    → All IsPage (pending_ids m)
    → All IsPage (pending_ids (Map.erase t m))
unfolding Map.erase
erase-IsPage t [] a = tt
erase-IsPage t ((k, v) ∷ m) a =
    let parts = All-append_inv IsPage v (pending_ids m) a in
    ground (
      arith,
      erase-IsPage t m parts.1,
      All-append IsPage v (pending_ids (Map.erase t m)) parts.0 (erase-IsPage t m parts.1),
    )

-- Erasing the ids of a list from the cache.
pub contains-erase_all :
    (p : ℕ) (pgids : List ℕ) (cache : Map Bool)
    → Map.contains p (foldl (λ m id. Map.erase id m) cache pgids)
      ≡ (if contains_id p pgids then false else Map.contains p cache)
contains-erase_all p [] cache = refl
contains-erase_all p (x ∷ xs) cache =
    ground (arith, contains-erase_all p xs (Map.erase x cache), Map.contains-erase p x cache)

pub contains_id-count : (p : ℕ) (xs : List ℕ) → contains_id p xs ≡ ltb 0 (count p xs)
contains_id-count p [] = refl
contains_id-count p (x ∷ xs) = ground (arith, contains_id-count p xs)
