-- ===== src/FreeList/Persist/Bounds.antt =====
-- Where `FreeList::write_to` of src/page/freelist.cpp stays inside the page, against the size that
-- `byte_size` announces.
use boltdb_cpp.Base.{◌+◌, ◌*◌, ◌≤◌, ◌<◌, ◌≡◌, ◌≢◌, ◌∙◌, none, some, arith, le→ltb, length}
use boltdb_cpp.Binary.Bytes.{u64}
use boltdb_cpp.Binary.LittleEndian
use boltdb_cpp.Page.{Page, page_header_size, freelist_flag}
use boltdb_cpp.Page.Memory.{
  store, splice, length-splice, store_bytes_fits, store_bytes_overruns, slice, slice-splice_before,
  slice-splice_after,
}
use boltdb_cpp.FreeList.{FreeList, count_ids, special_count, byte_size}
use boltdb_cpp.FreeList.Persist.{ids_bytes, write_to}
use boltdb_cpp.FreeList.Persist.Words.{length-ids_bytes}
use boltdb_cpp.FreeList.Persist.RoundTrip.{all_ids, length-all_ids, written_ids, write_to_small}

-- With 0xFFFF ids or more, on a page with room for them, `write_to` leaves the seven words behind the
-- count as they were, where `read_from` looks for the first seven ids.
pub write_to_large :
    (f : FreeList) (page : Page)
    → special_count ≤ count_ids f
    → 64 + 8 * count_ids f ≤ length page.body
    → (out : Page) × (write_to f page ≡ some out) × (slice 8 56 out.body ≡ slice 8 56 page.body)
unfolding write_to store
write_to_large f page large fits =
    let head = LittleEndian.encoded u64 (count_ids f) in
    let first_room : 0 + length head ≤ length page.body =
      omega (arith, LittleEndian.length-encoded u64 (count_ids f)) in
    let room : 64 + length (ids_bytes (all_ids f)) ≤ length (splice 0 head page.body) =
      omega
        (arith, length-ids_bytes (all_ids f), length-all_ids f, length-splice 0 head page.body) in
    (
      record page {
        flag = freelist_flag;
        count = special_count;
        body = splice 64 (ids_bytes (all_ids f)) (splice 0 head page.body);
      },
      rw (written_ids f) (
          rw (le→ltb (count_ids f) special_count large) (
            rw (store_bytes_fits 0 head page.body first_room)
              (rw (store_bytes_fits 64 (ids_bytes (all_ids f)) (splice 0 head page.body) room)))),
      slice-splice_before 8 56 64 (ids_bytes (all_ids f)) (splice 0 head page.body) (omega arith)
          ∙ slice-splice_after 8 56 0 head page.body
              (omega (arith, LittleEndian.length-encoded u64 (count_ids f))),
    )

-- With 0xFFFF ids or more `write_to` does not stay inside a page that is as large as `byte_size` says:
-- it leaves seven unused words behind the count.
pub write_to_overruns :
    (f : FreeList) (page : Page)
    → special_count ≤ count_ids f
    → page_header_size + length page.body ≡ byte_size f
    → write_to f page ≡ none
unfolding write_to store byte_size
write_to_overruns f page large size =
    let head = LittleEndian.encoded u64 (count_ids f) in
    let body : length page.body ≡ 8 * (count_ids f + 1) = ground (arith, size) in
    let first_room : 0 + length head ≤ length page.body =
      omega (arith, LittleEndian.length-encoded u64 (count_ids f)) in
    rw (written_ids f) (
      rw (le→ltb (count_ids f) special_count large) (
        rw (store_bytes_fits 0 head page.body first_room) (
          rw (
            store_bytes_overruns 64 (ids_bytes (all_ids f)) (splice 0 head page.body) (
              omega (
                arith,
                length-ids_bytes (all_ids f),
                length-all_ids f,
                length-splice 0 head page.body,
              ))))))

-- With fewer than 0xFFFF ids a page as large as `byte_size` says has exactly the room that is needed.
write_to_fits :
    (f : FreeList) (page : Page)
    → count_ids f < special_count
    → page_header_size + length page.body ≡ byte_size f
    → (8 * count_ids f ≡ length page.body) × (write_to f page ≢ none)
unfolding byte_size
write_to_fits f page small size =
    let body : 8 * count_ids f ≡ length page.body = ground (arith, size) in
    (body, λ e. cc (e, write_to_small f page small (omega arith)))
