-- ===== src/FreeList/Persist/RoundTrip.antt =====
-- Writing a FreeList to a page and reading it back (src/page/freelist.cpp), with fewer ids than the
-- 16-bit count of the header can tell.
use boltdb_cpp.Base.{
  ℕ, zero, suc, ◌+◌, ◌*◌, ◌%◌, ◌^◌, ◌≤◌, ◌<◌, ◌≡◌, refl, Bool, true, false, List, [], ◌∷◌, some,
  arith, ltb, ◌==◌, if◌then◌else◌, lt→ltb, length, length-append, All, All-map_of, All_of_count,
  count_of_All_either, sort, merge, count, count-sort, count-merge, length-sort, length-merge,
  sort-Ascending, Ascending, merge-Ascending, sort_sorted,
}
use boltdb_cpp.Base.Map
use boltdb_cpp.Base.Map.{Map}
use boltdb_cpp.Binary.Bytes.{u64, Fits}
use boltdb_cpp.Page.{Page, freelist_flag}
use boltdb_cpp.Page.Memory.{splice, store_bytes_fits, drop-splice_self}
use boltdb_cpp.FreeList.{
  FreeList, count_ids, add_sizes, special_count, copy_if, collect, sorted_pending_pgids, reindex,
  mark, empty,
}
use boltdb_cpp.FreeList.Pages.{IsPage, IsValid, pending_ids}
use boltdb_cpp.FreeList.Persist.{ids_bytes, load_ids, read_from, write_to}
use boltdb_cpp.FreeList.Persist.Words.{length-ids_bytes, load_ids_lem}

copy_if_all : (xs : List ℕ) → copy_if (λ (s : Unit {0}). (true, s)) tt xs ≡ (xs, tt)
unfolding copy_if
copy_if_all [] = refl
copy_if_all (x ∷ xs) = rw (copy_if_all xs)

collect_all :
    (m : Map (List ℕ)) → collect (λ txn_id (s : Unit {0}). (true, s)) tt m ≡ (pending_ids m, tt)
unfolding collect
collect_all [] = refl
collect_all ((t, pgids) ∷ m) = rw (copy_if_all pgids, collect_all m)

-- The ids that `write_to` puts on the page.
abbrev pub all_ids : FreeList → List ℕ
all_ids f = merge f.ids (sort (pending_ids f.pending))

pub written_ids : (f : FreeList) → merge f.ids (sorted_pending_pgids f) ≡ all_ids f
unfolding sorted_pending_pgids
written_ids f = rw (collect_all f.pending)

pub add_sizes-length :
    (init : ℕ) (m : Map (List ℕ)) → add_sizes init m ≡ init + length (pending_ids m)
add_sizes-length init [] = omega arith
add_sizes-length init ((t, pgids) ∷ m) =
    omega (arith, add_sizes-length (init + length pgids) m, length-append pgids (pending_ids m))

pub length-all_ids : (f : FreeList) → length (all_ids f) ≡ count_ids f
length-all_ids f = omega (
  arith,
  length-merge f.ids (sort (pending_ids f.pending)),
  length-sort (pending_ids f.pending),
  add_sizes-length 0 f.pending,
)

pub count-all_ids :
    (p : ℕ) (f : FreeList) → count p (all_ids f) ≡ count p f.ids + count p (pending_ids f.pending)
count-all_ids p f = omega (
  arith,
  count-merge p f.ids (sort (pending_ids f.pending)),
  count-sort p (pending_ids f.pending),
)

all_ids-IsPage : (f : FreeList) → IsValid f → All IsPage (all_ids f)
all_ids-IsPage f v = All_of_count IsPage _ (λ p h.
    count_of_All_either p IsPage f.ids (pending_ids f.pending) v.free_pages v.pending_pages
      (omega (arith, count-all_ids p f, h)))

all_ids-Ascending : (f : FreeList) → IsValid f → Ascending 2 (all_ids f)
all_ids-Ascending f v =
    merge-Ascending 2 f.ids _ v.sorted
      (sort-Ascending 2 _ (All-map_of IsPage (λ x. 2 ≤ x) _ (λ p h. h.0) v.pending_pages))

-- The page after `write_to`.
abbrev pub written : FreeList → Page → Page
written f page = record page {
  flag = freelist_flag;
  count = count_ids f;
  body = splice 0 (ids_bytes (all_ids f)) page.body;
}

pub write_to_small :
    (f : FreeList) (page : Page)
    → count_ids f < special_count
    → 8 * count_ids f ≤ length page.body
    → write_to f page ≡ some (written f page)
unfolding write_to
write_to_small f page small fits =
    let e : count_ids f % 2 ^ 16 ≡ count_ids f = omega arith in
    let room : 0 + length (ids_bytes (all_ids f)) ≤ length page.body =
      omega (arith, length-ids_bytes (all_ids f), length-all_ids f) in
    rw (written_ids f) (
      rw (lt→ltb (count_ids f) special_count small)
        (rw (store_bytes_fits 0 (ids_bytes (all_ids f)) page.body room) (rw e)))

load_written :
    (f : FreeList) (body : List ℕ)
    → IsValid f
    → 8 * count_ids f ≤ length body
    → load_ids (count_ids f) 0 (splice 0 (ids_bytes (all_ids f)) body) ≡ some (all_ids f)
load_written f body v fits = rw (← length-all_ids f) (
    load_ids_lem (all_ids f) 0 _ _
      (All-map_of IsPage (Fits u64) _ (λ p h. h.1) (all_ids-IsPage f v))
      (drop-splice_self 0 (ids_bytes (all_ids f)) body
        (omega (arith, length-ids_bytes (all_ids f), length-all_ids f))))

pub contains-mark :
    (p : ℕ) (xs : List ℕ) (cache : Map Bool)
    → Map.contains p (mark cache xs) ≡ (if ltb 0 (count p xs) then true else Map.contains p cache)
contains-mark p [] cache = refl
contains-mark p (x ∷ xs) cache =
    ground (arith, contains-mark p xs (Map.assign x true cache), Map.contains-assign p x true cache)

-- The free list that a fresh object reads.
abbrev pub restored : List ℕ → FreeList
restored ids = reindex (record empty { ids = ids })

restored-IsValid : (f : FreeList) → IsValid f → IsValid (restored (all_ids f))
unfolding reindex Map.contains
restored-IsValid f v = record {
  exact = λ p. ground (arith, contains-mark p (all_ids f) [], count-all_ids p f, v.exact p);
  sorted = all_ids-Ascending f v;
  free_pages = all_ids-IsPage f v;
  pending_pages = tt;
  keys = tt;
}

load_or_clear :
    (n at : ℕ) (mem : List ℕ) → (if n == 0 then some [] else load_ids n at mem) ≡ load_ids n at mem
unfolding load_ids
load_or_clear zero at mem = refl
load_or_clear (suc n) at mem = ground arith

read_written :
    (f : FreeList) (page : Page)
    → IsValid f
    → count_ids f < special_count
    → 8 * count_ids f ≤ length page.body
    → read_from (written f page) empty ≡ some (restored (all_ids f))
unfolding read_from
read_written f page v small fits =
    let not_special : (count_ids f == special_count) ≡ false = ground arith in
    rw not_special (
      rw (load_or_clear (count_ids f) 0 (splice 0 (ids_bytes (all_ids f)) page.body)) (
        rw (load_written f page.body v fits)
          (rw (sort_sorted 2 (all_ids f) (all_ids-Ascending f v)))))

-- A valid free list with fewer than 0xFFFF ids, written to a page that has room for them and read
-- into a fresh object, gives a valid object: all ids that were free or pending are free, in ascending
-- order, and no other id is.
pub read_from-write_to :
    (f : FreeList) (page : Page)
    → IsValid f
    → count_ids f < special_count
    → 8 * count_ids f ≤ length page.body
    → (out : Page) × (g : FreeList) × (write_to f page ≡ some out)
      × (read_from out empty ≡ some g)
      × IsValid g
      × (g.pending ≡ [])
      × ((p : ℕ) → count p g.ids ≡ count p f.ids + count p (pending_ids f.pending))
unfolding reindex
read_from-write_to f page v small fits = (
  written f page,
  restored (all_ids f),
  write_to_small f page small fits,
  read_written f page v small fits,
  restored-IsValid f v,
  refl,
  λ p. count-all_ids p f,
)
