-- ===== src/Db/Open.antt =====
-- `DB::init` and `open_db` of src/db/db.cpp. What the program asks of the system is the parameter that
-- src/fs/file_system.cpp has. The buffers that the allocator gives are parameters too.
pub mod Writes
pub mod Reopen
use Prim.Native.Nat.{bit_or}
use Prim.Native.String.{String, ◌++◌ as ◌<>◌}
use boltdb_cpp.Base.{
  ℕ, zero, suc, ◌+◌, ◌*◌, ◌≡◌, Bool, true, false, ◌⊎◌, inl, inr, List, [], ◌∷◌, ◌++◌, Option, none,
  some, ◌>>=◌, ◌==◌, if◌then◌else◌, take, drop, length,
}
use boltdb_cpp.Binary.Bytes.{Width, u32, u64}
use boltdb_cpp.Binary.LittleEndian
use boltdb_cpp.Util.Status.{Status, ok_status, failed, status_err, status_corrupt, is_ok}
use boltdb_cpp.Page.{Page, new_page, page_data, meta_flag, freelist_flag, leaf_flag}
use boltdb_cpp.Page.Memory.{store_bytes}
use boltdb_cpp.Fs.FileSystem.{
  Posix, IoException, FileHandle, read, write, fdatasync, flock, open_file, file_size, close,
  lock_sh, lock_ex,
}
use boltdb_cpp.Db.Options.{Options, create}
use boltdb_cpp.Db.Meta.{
  Meta, BucketMeta, db_magic, db_version, integers, sum64, deserialize, validate,
}

-- The assignments of `init` to the meta object of page `i`, in their order.
unfoldable pub initial_meta : ℕ → ℕ → Meta
initial_meta page_size i =
    let meta : Meta = record {
      magic = db_magic;
      version = db_version;
      page_size = page_size;
      flags = 0;
      root = record { root = 3; sequence = 0 };
      freelist = 2;
      pgid = i;
      txid = i;
      checksum = 0;
    } in
    record meta { checksum = sum64 meta }

-- The object as it stands in memory: its fields are aligned without padding.
abbrev pub object_bytes : Meta → List ℕ
object_bytes m = LittleEndian.append_variadic_uint [] (integers m ++ ((u64, m.checksum) ∷ []))

-- A meta page, made in a buffer that held `body`.
unfoldable pub meta_page : ℕ → ℕ → List ℕ → Option Page
meta_page page_size i body = do
  body' ← store_bytes 0 (object_bytes (initial_meta page_size i)) body
  some (new_page i meta_flag page_size body')

-- What the allocator left in the buffers of the four pages.
pub record Buffers : Type 0 where
  pub meta_0 : List ℕ
  pub meta_1 : List ℕ
  pub freelist : List ℕ
  pub leaf : List ℕ

unfoldable pub initial_pages : ℕ → Buffers → Option (List Page)
initial_pages page_size b = do
  p₀ ← meta_page page_size 0 b.meta_0
  p₁ ← meta_page page_size 1 b.meta_1
  some (
      p₀
      ∷ p₁
      ∷ new_page 2 freelist_flag page_size b.freelist
      ∷ new_page 3 leaf_flag page_size b.leaf
      ∷ [])

abbrev pub short_write : Status
short_write = failed status_corrupt "write: expect written %d bytes, got %d bytes"

-- `DB`, by the fields that are set here.
pub record Db (D : Type 0) : Type 0 where
  pub file_handle : FileHandle
  pub options : Options D
  pub page_size : ℕ

-- The page size that a read of the first page gives; what is not read stays as the allocator left it.
-- `none` is a buffer that is too short.
unfoldable pub stored_page_size : ℕ → List ℕ → Option ℕ
stored_page_size system_page_size buffer = do
  meta ← deserialize buffer
  some (if is_ok (validate meta) then meta.page_size else system_page_size)

abbrev opened : {D : Type 0} → FileHandle → Options D → ℕ → Status × Option (Db D)
opened f options page_size =
    (ok_status, some (record { file_handle = f; options = options; page_size = page_size }))

module _ {W D : Type 0} (os : Posix W D) where
  -- The loop of `init` over the pages. The text of an exception is not part of the model.
  unfoldable pub write_pages : FileHandle → ℕ → List Page → ℕ → W → Status × W
  write_pages f page_size [] offset w = (ok_status, (fdatasync os f w).1)
  write_pages f page_size (page ∷ pages) offset w =
      let (bytes_written, w') = write os f (take page_size (page_data page)) offset w in
      let rest = write_pages f page_size pages (offset + page_size) w' in
      elim bytes_written [
        | inl e ↦ (failed status_err "IOException", w')
        | inr n ↦ if n == page_size then rest else (short_write, w')
      ]

  unfoldable pub init : ℕ → Buffers → FileHandle → W → Option (Status × W)
  init page_size b f w = do
    pages ← initial_pages page_size b
    some (write_pages f page_size pages 0 w)

  -- The read of the first meta page; the exception of a read is not caught.
  unfoldable pub read_page_size : ℕ → List ℕ → FileHandle → W → Option ((IoException ⊎ ℕ) × W)
  read_page_size system_page_size buffer f w =
      let (bytes_read, w') = read os f (length buffer) 0 w in
      elim bytes_read [
        | inl e ↦ some (inl e, w')
        | inr bs ↦
            stored_page_size system_page_size (bs ++ drop (length bs) buffer) >>= λ page_size.
            some (inr page_size, w')
      ]

  -- The handle is destroyed, which closes it.
  abbrev closed :
      {A : Type 0} → ℕ → FileHandle → IoException ⊎ A → W → Option ((IoException ⊎ A) × W)
  closed fuel f out w = close os fuel f w >>= λ w'. some (out, w')

  unfoldable pub open_file_db :
      ℕ
      → ℕ
      → Buffers
      → List ℕ
      → Options D
      → FileHandle
      → W
      → Option ((IoException ⊎ (Status × Option (Db D))) × W)
  open_file_db fuel system_page_size b buffer options f w =
      let (size, w₁) = file_size os f w in
      if size == 0
      then (init system_page_size b f w₁ >>= λ r.
          if is_ok r.0
          then some (inr (opened f options system_page_size), r.1)
          else closed fuel f (inr (r.0, none)) r.1)
      else (read_page_size system_page_size buffer f w₁ >>= λ r. elim (r.0) [
        | inl e ↦ closed fuel f (inl e) r.1
        | inr page_size ↦ some (inr (opened f options page_size), r.1)
      ])

  -- The file is locked for as long as it is open. `flocked` is what the memory of the new handle held
  -- in that field, `fuel` bounds the rounds of each lock.
  unfoldable pub open_db :
      ℕ
      → Bool
      → ℕ
      → Buffers
      → List ℕ
      → String
      → Options D
      → W
      → Option ((IoException ⊎ (Status × Option (Db D))) × W)
  open_db fuel flocked system_page_size b buffer path options w =
      let (handle, w₁) =
        open_file os flocked path (bit_or options.open_flag create) options.permission w in
      let operation = if options.read_only then lock_sh else lock_ex in
      elim handle [
        | none ↦ some (inr (failed status_err ("error: fail to open " <> path), none), w₁)
        | some f ↦ flock os fuel f operation options.timeout w₁ >>= λ r.
            if is_ok r.0
            then open_file_db fuel system_page_size b buffer options r.1 r.2
            else closed fuel r.1 (inr (r.0, none)) r.2
      ]
