-- ===== src/FreeList/Release.antt =====
-- `FreeList::release` of src/page/freelist.cpp, and the walk over the pending ids under it.
use boltdb_cpp.Base.{
  ℕ, ◌+◌, ◌≤◌, ◌≡◌, refl, true, false, List, [], ◌∷◌, ◌++◌, foldl, Option, none, some, arith, leb,
  if◌then◌else◌, count, count-append, All, append-nil, append_assoc, sort, merge, count-sort,
  count-merge, sort-Ascending, merge-Ascending, count_of_All, All_of_count, count_of_All_either,
  All-map_of,
}
use boltdb_cpp.Base.Map
use boltdb_cpp.Base.Map.{Map, KeysFrom}
use boltdb_cpp.FreeList.{
  FreeList, note_txn, copy_if, collect, release, is_freed, is_pending, ids_of, contains_id,
}
use boltdb_cpp.FreeList.Pages.{IsPage, IsValid, pending_ids}

-- The pending ids of the transactions up to `txn_id`.
abbrev pub old_ids : ℕ → Map (List ℕ) → List ℕ
old_ids txn_id [] = []
old_ids txn_id ((t, pgids) ∷ m) = (if leb t txn_id then pgids else []) ++ old_ids txn_id m

-- Each page id notes its transaction.
abbrev repeat : ℕ → List ℕ → List ℕ
repeat t [] = []
repeat t (x ∷ xs) = t ∷ repeat t xs

abbrev noted : ℕ → Map (List ℕ) → List ℕ
noted txn_id [] = []
noted txn_id ((t, pgids) ∷ m) = (if leb t txn_id then repeat t pgids else []) ++ noted txn_id m

copy_if-note_txn :
    (txn_id t : ℕ) (acc pgids : List ℕ)
    → copy_if (note_txn txn_id t) acc pgids
      ≡ (if leb t txn_id then (pgids, acc ++ repeat t pgids) else ([], acc))
unfolding copy_if
copy_if-note_txn txn_id t acc [] = ground (arith, append-nil acc)
copy_if-note_txn txn_id t acc (x ∷ xs) = ground (
  arith,
  copy_if-note_txn txn_id t (acc ++ (t ∷ [])) xs,
  copy_if-note_txn txn_id t acc xs,
  append_assoc acc (t ∷ []) (repeat t xs),
)

collect-note_txn :
    (txn_id : ℕ) (acc : List ℕ) (m : Map (List ℕ))
    → collect (note_txn txn_id) acc m ≡ (old_ids txn_id m, acc ++ noted txn_id m)
unfolding collect
collect-note_txn txn_id acc [] = ground (arith, append-nil acc)
collect-note_txn txn_id acc ((t, pgids) ∷ m) = ground (
  arith,
  copy_if-note_txn txn_id t acc pgids,
  collect-note_txn txn_id acc m,
  collect-note_txn txn_id (acc ++ repeat t pgids) m,
  append_assoc acc (repeat t pgids) (noted txn_id m),
)

-- `release` in one step: the old ids, sorted, are merged into the free ones.
release-old_ids :
    (txn_id : ℕ) (f : FreeList)
    → release txn_id f ≡ record f {
      ids = merge (sort (old_ids txn_id f.pending)) f.ids;
      pending = foldl (λ m id. Map.erase id m) f.pending (noted txn_id f.pending);
    }
unfolding release
release-old_ids txn_id f = rw (collect-note_txn txn_id [] f.pending)

abbrev erase_keys : List ℕ → Map (List ℕ) → Map (List ℕ)
erase_keys ts m = foldl (λ m id. Map.erase id m) m ts

erase_keys-KeysFrom : (ts : List ℕ) (m : Map (List ℕ)) → KeysFrom 0 m → KeysFrom 0 (erase_keys ts m)
erase_keys-KeysFrom [] m k = k
erase_keys-KeysFrom (t ∷ ts) m k =
    erase_keys-KeysFrom ts (Map.erase t m) (Map.erase-KeysFrom t 0 m k)

find-erase_keys :
    (t : ℕ) (ts : List ℕ) (m : Map (List ℕ))
    → Map.find t (erase_keys ts m) ≡ (if contains_id t ts then none else Map.find t m)
find-erase_keys t [] m = refl
find-erase_keys t (x ∷ ts) m =
    ground (arith, find-erase_keys t ts (Map.erase x m), Map.find-erase t x m)

erase_keys-cons :
    (ts : List ℕ) (k : ℕ) (v : List ℕ) (m : Map (List ℕ))
    → erase_keys ts ((k, v) ∷ m)
      ≡ (if contains_id k ts then erase_keys ts m else (k, v) ∷ erase_keys ts m)
unfolding Map.erase
erase_keys-cons [] k v m = refl
erase_keys-cons (t ∷ ts) k v m = ground (arith, erase_keys-cons ts k v (Map.erase t m))

erase_keys-nil : (ts : List ℕ) → erase_keys ts [] ≡ []
unfolding Map.erase
erase_keys-nil [] = refl
erase_keys-nil (t ∷ ts) = erase_keys-nil ts

-- The erased keys are those of old entries, but for old entries that hold nothing.
abbrev Covers : ℕ → List ℕ → Map (List ℕ) → Type 0
Covers txn_id ts [] = Unit {0}
Covers txn_id ts ((t, []) ∷ m) = Covers txn_id ts m
Covers txn_id ts ((t, p ∷ pgids) ∷ m) = (contains_id t ts ≡ leb t txn_id) × Covers txn_id ts m

count-erase_keys :
    (p txn_id : ℕ) (ts : List ℕ) (m : Map (List ℕ))
    → Covers txn_id ts m
    → count p (old_ids txn_id m) + count p (pending_ids (erase_keys ts m)) ≡ count p (pending_ids m)
count-erase_keys p txn_id ts [] c = ground (arith, erase_keys-nil ts)
count-erase_keys p txn_id ts ((t, []) ∷ m) c =
    ground (arith, erase_keys-cons ts t [] m, count-erase_keys p txn_id ts m c)
count-erase_keys p txn_id ts ((t, x ∷ xs) ∷ m) c = ground (
  arith,
  c.0,
  erase_keys-cons ts t (x ∷ xs) m,
  count-erase_keys p txn_id ts m c.1,
  count-append p (x ∷ xs) (pending_ids m),
  count-append p (x ∷ xs) (old_ids txn_id m),
  count-append p (x ∷ xs) (pending_ids (erase_keys ts m)),
)

contains_id-append :
    (p : ℕ) (xs ys : List ℕ)
    → contains_id p (xs ++ ys) ≡ (if contains_id p xs then true else contains_id p ys)
contains_id-append p [] ys = refl
contains_id-append p (x ∷ xs) ys = ground (arith, contains_id-append p xs ys)

contains_id-repeat : (p t : ℕ) (xs : List ℕ) → contains_id p (repeat t xs) ≡ true → p ≡ t
contains_id-repeat p t [] h = absurd (cc)
contains_id-repeat p t (x ∷ xs) h = ground (arith, contains_id-repeat p t xs)

noted_old :
    (txn_id t : ℕ) (m : Map (List ℕ)) → contains_id t (noted txn_id m) ≡ true → leb t txn_id ≡ true
noted_old txn_id t [] h = absurd (cc)
noted_old txn_id t ((k, v) ∷ m) h = ground (
  arith,
  noted_old txn_id t m,
  contains_id-append t (repeat k v) (noted txn_id m),
  contains_id-repeat t k v,
)

Covers-noted :
    (txn_id : ℕ) (ts : List ℕ) (m : Map (List ℕ))
    → ((t : ℕ) → contains_id t ts ≡ true → leb t txn_id ≡ true)
    → ((t : ℕ) → contains_id t (noted txn_id m) ≡ true → contains_id t ts ≡ true)
    → Covers txn_id ts m
Covers-noted txn_id ts [] old all = tt
Covers-noted txn_id ts ((t, []) ∷ m) old all =
    Covers-noted txn_id ts m old (λ k h. all k (ground (arith, h)))
Covers-noted txn_id ts ((t, x ∷ xs) ∷ m) old all = (
  ground (arith, old t, all t),
  Covers-noted txn_id ts m old
      (λ k h. all k (ground (arith, h, contains_id-append k (t ∷ repeat t xs) (noted txn_id m)))),
)

count-released :
    (p txn_id : ℕ) (f : FreeList)
    → count p (merge (sort (old_ids txn_id f.pending)) f.ids)
      ≡ count p (old_ids txn_id f.pending) + count p f.ids
count-released p txn_id f = omega (
  arith,
  count-merge p (sort (old_ids txn_id f.pending)) f.ids,
  count-sort p (old_ids txn_id f.pending),
)

module _ (txn_id : ℕ) (f : FreeList) where
  abbrev still_pending : Map (List ℕ)
  still_pending = erase_keys (noted txn_id f.pending) f.pending

  covers : Covers txn_id (noted txn_id f.pending) f.pending
  covers = Covers-noted txn_id _ f.pending (λ t. noted_old txn_id t f.pending) (λ t h. h)

  split_pending :
      (p : ℕ)
      → count p (old_ids txn_id f.pending) + count p (pending_ids still_pending)
        ≡ count p (pending_ids f.pending)
  split_pending p = count-erase_keys p txn_id _ f.pending covers

  released-IsPage : IsValid f → All IsPage (old_ids txn_id f.pending)
  released-IsPage v = All_of_count IsPage _ (λ p h.
      count_of_All p IsPage (pending_ids f.pending) v.pending_pages
        (omega (arith, split_pending p, h)))

-- `release` keeps the object valid.
pub release-IsValid : (txn_id : ℕ) (f : FreeList) → IsValid f → IsValid (release txn_id f)
release-IsValid txn_id f v = rw (release-old_ids txn_id f) (record {
  exact = λ p. omega (arith, v.exact p, count-released p txn_id f, split_pending txn_id f p);
  sorted =
      merge-Ascending 2 _ f.ids
        (sort-Ascending 2 _
          (All-map_of IsPage (λ x. 2 ≤ x) _ (λ p h. h.0) (released-IsPage txn_id f v)))
        v.sorted;
  free_pages = All_of_count IsPage _ (λ p h.
      count_of_All_either p IsPage _ f.ids (released-IsPage txn_id f v) v.free_pages
        (omega (arith, count-released p txn_id f, h)));
  pending_pages = All_of_count IsPage _ (λ p h.
      count_of_All p IsPage (pending_ids f.pending) v.pending_pages
        (omega (arith, split_pending txn_id f p, h)));
  keys = erase_keys-KeysFrom (noted txn_id f.pending) f.pending v.keys;
})

noted_found :
    (txn_id t x : ℕ) (xs : List ℕ) (m : Map (List ℕ))
    → Map.find t m ≡ some (x ∷ xs)
    → t ≤ txn_id
    → contains_id t (noted txn_id m) ≡ true
unfolding Map.find
noted_found txn_id t x xs [] e h = absurd (cc)
noted_found txn_id t x xs ((k, v) ∷ m) e h =
    ground (arith, contains_id-append t (repeat k v) (noted txn_id m), noted_found txn_id t x xs m)

still_pending_ids :
    (txn_id t : ℕ) (f : FreeList) (o : Option (List ℕ))
    → Map.find t f.pending ≡ o
    → (p : ℕ)
    → contains_id p (ids_of (if contains_id t (noted txn_id f.pending) then none else o))
      ≡ (if leb t txn_id then false else contains_id p (ids_of o))
still_pending_ids txn_id t f none e p = ground arith
still_pending_ids txn_id t f (some []) e p = ground arith
still_pending_ids txn_id t f (some (x ∷ xs)) e p =
    ground (arith, noted_found txn_id t x xs f.pending e, noted_old txn_id t f.pending)

-- `release` moves exactly the pending ids of the transactions up to `txn_id` to the free ids; the
-- ids of later transactions stay pending, and `is_freed` answers as before.
pub release_lem :
    (txn_id : ℕ) (f : FreeList)
    → (p t : ℕ)
    → (is_freed p (release txn_id f) ≡ is_freed p f)
      × (is_pending t p (release txn_id f) ≡ (if leb t txn_id then false else is_pending t p f))
      × (count p (release txn_id f).ids ≡ count p f.ids + count p (old_ids txn_id f.pending))
unfolding is_freed is_pending
release_lem txn_id f p t = rw (release-old_ids txn_id f) (
  refl,
  rw (find-erase_keys t (noted txn_id f.pending) f.pending)
      (still_pending_ids txn_id t f (Map.find t f.pending) refl p),
  omega (arith, count-released p txn_id f),
)
