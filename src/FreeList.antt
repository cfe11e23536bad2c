-- ===== src/FreeList.antt =====
-- FreeList of include/boltdb/page/freelist.hpp and src/page/freelist.cpp: the page ids that can be
-- allocated, and those that transactions have freed and that readers may still use.
-- A method returns its result and the object that it leaves behind, also where it throws.
-- A vector of page ids is taken to be shorter than 2 ^ 31, so that an `int` holds its size.
pub mod Pages
pub mod Free
pub mod Effects
pub mod Outcomes
pub mod Release
pub mod Blocks
pub mod Allocate
pub mod Persist
pub mod History
pub mod Spec
mod Tests
use boltdb_cpp.Base.{
  ℕ, zero, suc, ◌+◌, ◌-◌, ◌*◌, ◌%◌, ◌^◌, Bool, true, false, List, [], ◌∷◌, ◌++◌, foldl, Option,
  none, some, ltb, leb, ◌==◌, if◌then◌else◌, length, sort, merge,
}
use boltdb_cpp.Page.{page_header_size}
use boltdb_cpp.Base.Map
use boltdb_cpp.Base.Map.{Map}

-- What `DBException` reports, with the number that its message shows.
pub data Exception : Type 0 where
  invalid_page_allocation : ℕ → Exception
  cannot_free : ℕ → Exception
  already_freed : ℕ → Exception

pub data Result {ℓ} (A : Type ℓ) : Type ℓ where
  returns : A → Result A
  throws : Exception → Result A

abbrev pub u64_mod : ℕ
u64_mod = 2 ^ 64

pub record FreeList : Type 0 where
  pub ids : List ℕ
  pub pending : Map (List ℕ)
  pub cache : Map Bool

-- `FreeList()`
abbrev pub empty : FreeList
empty = record { ids = []; pending = []; cache = [] }

-- `FreeList(ids)`
abbrev pub from_ids : List ℕ → FreeList
from_ids ids = record { ids = ids; pending = []; cache = [] }

abbrev pub free_count : FreeList → ℕ
free_count f = length f.ids

-- `std::accumulate` over the entries of `pending_`.
abbrev pub add_sizes : ℕ → Map (List ℕ) → ℕ
add_sizes init [] = init
add_sizes init ((t, pgids) ∷ m) = add_sizes (init + length pgids) m

abbrev pub pending_count : FreeList → ℕ
pending_count f = add_sizes 0 f.pending

abbrev pub count_ids : FreeList → ℕ
count_ids f = free_count f + pending_count f

abbrev pub special_count : ℕ
special_count = 0xFFFF

unfoldable pub byte_size : FreeList → ℕ
byte_size f =
    let n = count_ids f in
    let n' = if leb special_count n then n + 1 else n in page_header_size + 8 * n'

-- `for (j = 0; j < n; j++) cache_.erase(j + first_id)`
unfoldable pub erase_run : ℕ → ℕ → Map Bool → Map Bool
erase_run zero first_id cache = cache
erase_run (suc n) first_id cache = erase_run n ((first_id + 1) % u64_mod) (Map.erase first_id cache)

abbrev pub head_or : ℕ → List ℕ → ℕ
head_or d [] = d
head_or d (x ∷ xs) = x

-- The loop of `allocate_contiguous`. The iterators `first` and `iter` cut the vector in three:
-- `before` stands before `first`, `block` from there to `iter`, and the last list from `iter` on.
-- The result is the block's first id with the ids that stay, or `none` at the end of the vector.
unfoldable pub find_block : ℕ → List ℕ → List ℕ → ℕ → List ℕ → Result (Option (ℕ × List ℕ))
find_block n before block prev_id [] = returns none
find_block n before block prev_id (id ∷ rest) =
    let joined = (id + u64_mod - prev_id) % u64_mod == 1 in
    let before' = if joined then before else before ++ block in
    let block' = if joined then block else [] in
    let more = find_block n before' (block' ++ (id ∷ [])) id rest in
    if leb id 1
    then throws (invalid_page_allocation id)
    else if length block' + 1 == n
    then returns (some (head_or id block', before' ++ rest))
    else more

-- An `int n` that is not positive finds no block; such an `n` is 0 here.
unfoldable pub allocate_contiguous : ℕ → FreeList → Result ℕ × FreeList
allocate_contiguous n f = elim (find_block n [] [] 0 f.ids) [
  | returns none ↦ (returns 0, f)
  | returns (some (first_id, ids)) ↦
      (returns first_id, record f { ids = ids; cache = erase_run n first_id f.cache })
  | throws e ↦ (throws e, f)
]

-- `pending_[txn_id].push_back(i)`
abbrev pub push_back : ℕ → Option (List ℕ) → List ℕ
push_back i none = i ∷ []
push_back i (some pgids) = pgids ++ (i ∷ [])

abbrev pub free_one : ℕ → ℕ → FreeList → FreeList
free_one txn_id i f = record f {
  pending = Map.alter txn_id (push_back i) f.pending;
  cache = Map.assign i true f.cache;
}

-- `for (i = pgid; i <= last; i++)` on fuel; `none` means that the fuel ran out.
unfoldable pub free_loop : ℕ → ℕ → ℕ → ℕ → FreeList → Option (Result (Unit {0}) × FreeList)
free_loop zero txn_id i last f = none
free_loop (suc fuel) txn_id i last f =
    let rest = free_loop fuel txn_id ((i + 1) % u64_mod) last (free_one txn_id i f) in
    if ltb last i
    then some (returns tt, f)
    else if Map.contains i f.cache
    then some (throws (already_freed i), f)
    else rest

-- `free` of the page `pgid` with its overflow pages. The loop makes `overflow + 1` rounds and a last
-- test, unless `pgid + overflow` reaches the greatest 64-bit number.
unfoldable pub free : ℕ → ℕ → ℕ → FreeList → Option (Result (Unit {0}) × FreeList)
free txn_id pgid overflow f =
    if leb pgid 1
    then some (throws (cannot_free pgid), f)
    else free_loop (overflow + 2) txn_id pgid ((pgid + overflow) % u64_mod) f

-- `std::copy_if` with a predicate that may change the state `s` at each element.
unfoldable pub copy_if {ℓ} : {S : Type ℓ} → (S → Bool × S) → S → List ℕ → List ℕ × S
copy_if pred s [] = ([], s)
copy_if pred s (x ∷ xs) =
    let (keep, s') = pred s in
    let (ys, s'') = copy_if pred s' xs in (if keep then x ∷ ys else ys, s'')

unfoldable pub collect {ℓ} : {S : Type ℓ} → (ℕ → S → Bool × S) → S → Map (List ℕ) → List ℕ × S
collect pred s [] = ([], s)
collect pred s ((txn_id, pgids) ∷ m) =
    let (ys, s') = copy_if (pred txn_id) s pgids in
    let (zs, s'') = collect pred s' m in (ys ++ zs, s'')

unfoldable pub sorted_pending_pgids_impl {ℓ} :
    {S : Type ℓ} → (ℕ → S → Bool × S) → S → FreeList → List ℕ × S
sorted_pending_pgids_impl pred s f =
    let (result, s') = collect pred s f.pending in (sort result, s')

-- The overload with no argument, and the one for a transaction and those before it.
unfoldable pub sorted_pending_pgids : FreeList → List ℕ
unfolding sorted_pending_pgids_impl
sorted_pending_pgids f = (sorted_pending_pgids_impl {0} (λ txn_id s. (true, s)) tt f).0

unfoldable pub sorted_pending_pgids_until : ℕ → FreeList → List ℕ
unfolding sorted_pending_pgids_impl
sorted_pending_pgids_until txn_id f =
    (sorted_pending_pgids_impl {0} (λ tid s. (leb tid txn_id, s)) tt f).0

-- The lambda of `release`; the state is the vector `txn_ids`.
abbrev pub note_txn : ℕ → ℕ → List ℕ → Bool × List ℕ
note_txn txn_id id txn_ids =
    if leb id txn_id then (true, txn_ids ++ (id ∷ [])) else (false, txn_ids)

unfoldable pub release : ℕ → FreeList → FreeList
unfolding sorted_pending_pgids_impl
release txn_id f =
    let (pgids, txn_ids) = sorted_pending_pgids_impl (note_txn txn_id) [] f in
    record f { ids = merge pgids f.ids; pending = foldl (λ m id. Map.erase id m) f.pending txn_ids }

abbrev pub ids_of : Option (List ℕ) → List ℕ
ids_of none = []
ids_of (some pgids) = pgids

-- `pending_[txn_id]` creates an entry where there is none, and `erase` takes it out again.
unfoldable pub rollback : ℕ → FreeList → FreeList
rollback txn_id f =
    let pgids = ids_of (Map.find txn_id f.pending) in
    record f {
      cache = foldl (λ m id. Map.erase id m) f.cache pgids;
      pending = Map.erase txn_id (Map.alter txn_id ids_of f.pending);
    }

unfoldable pub is_freed : ℕ → FreeList → Bool
is_freed pgid f = Map.contains pgid f.cache

-- `std::find(...) != end()`
abbrev pub contains_id : ℕ → List ℕ → Bool
contains_id p [] = false
contains_id p (x ∷ xs) = if x == p then true else contains_id p xs

unfoldable pub is_pending : ℕ → ℕ → FreeList → Bool
is_pending txn_id pgid f = contains_id pgid (ids_of (Map.find txn_id f.pending))

abbrev pub mark : Map Bool → List ℕ → Map Bool
mark cache pgids = foldl (λ m id. Map.assign id true m) cache pgids

abbrev pub mark_pending : Map Bool → Map (List ℕ) → Map Bool
mark_pending cache pending = foldl (λ m entry. mark m entry.1) cache pending

unfoldable pub reindex : FreeList → FreeList
reindex f = record f { cache = mark_pending (mark f.cache f.ids) f.pending }
