-- ===== src/FreeList/Persist.antt =====
-- `FreeList::read_from`, `write_to` and `reload` of src/page/freelist.cpp: the ids on a page.
-- `none` is an access outside the page's buffer, or a negative count, on which `resize` throws.
pub mod Words
pub mod Bounds
pub mod RoundTrip
pub mod Reload
use boltdb_cpp.Base.{
  ℕ, zero, suc, ◌+◌, ◌*◌, ◌%◌, ◌^◌, Bool, true, false, not, List, [], ◌∷◌, ◌++◌, Option, none, some,
  ◌>>=◌, ltb, leb, ◌==◌, if◌then◌else◌, sort, merge,
}
use boltdb_cpp.Base.Map
use boltdb_cpp.Base.Map.{Map}
use boltdb_cpp.Binary.Bytes.{u64}
use boltdb_cpp.Binary.LittleEndian
use boltdb_cpp.Page.{Page, freelist_flag}
use boltdb_cpp.Page.Memory.{load, store, store_bytes}
use boltdb_cpp.FreeList.{
  FreeList, count_ids, special_count, sorted_pending_pgids, reindex, mark_pending,
}

-- The bytes of an array of page ids.
abbrev pub ids_bytes : List ℕ → List ℕ
ids_bytes [] = []
ids_bytes (x ∷ xs) = LittleEndian.encoded u64 x ++ ids_bytes xs

-- `std::copy(first, first + n, …)` from the array of page ids at `at`.
unfoldable pub load_ids : ℕ → ℕ → List ℕ → Option (List ℕ)
load_ids zero at mem = some []
load_ids (suc n) at mem = do id ← load u64 mem at; rest ← load_ids n (at + 8) mem; some (id ∷ rest)

-- The count and the offset of the first id; `int count = *reinterpret_cast<PageID*>(base)` keeps 32
-- bits.
abbrev read_count : Page → Option (ℕ × ℕ)
read_count page =
    if page.count == special_count
    then (do
      word ← load u64 page.body 0
      let count = word % 2 ^ 32
      if ltb count (2 ^ 31) then some (count, 8) else none)
    else some (page.count, 0)

unfoldable pub read_from : Page → FreeList → Option FreeList
read_from page f = do
  (count, base) ← read_count page
  ids ← if count == 0 then some [] else load_ids count base page.body
  some (reindex (record f { ids = sort ids }))

-- `std::next(first, sizeof(PageID))` on a pointer to page ids goes on by eight ids.
abbrev pub first_after_count : ℕ
first_after_count = 8 * 8

abbrev write_count : ℕ → List ℕ → Option (ℕ × ℕ × List ℕ)
write_count n body =
    if ltb n special_count
    then some (n % 2 ^ 16, 0, body)
    else do body' ← store u64 0 n body; some (special_count, first_after_count, body')

unfoldable pub write_to : FreeList → Page → Option Page
write_to f out_page = do
  (count, first, body) ← write_count (count_ids f) out_page.body
  body' ← store_bytes first (ids_bytes (merge f.ids (sorted_pending_pgids f))) body
  some (record out_page { flag = freelist_flag; count = count; body = body' })

-- `std::copy_if` of the ids that the map does not have.
abbrev pub keep_absent : Map Bool → List ℕ → List ℕ
keep_absent pcache [] = []
keep_absent pcache (x ∷ xs) =
    if not (Map.contains x pcache) then x ∷ keep_absent pcache xs else keep_absent pcache xs

unfoldable pub reload : Page → FreeList → Option FreeList
reload page f = do
  f' ← read_from page f
  let pcache = mark_pending [] f'.pending
  some (reindex (record f' { ids = keep_absent pcache f'.ids }))
