-- ===== src/Db/Tests.antt =====
-- Runs of the meta page and of opening a database (src/db/db.cpp).
use boltdb_cpp.Base.{
  ℕ, zero, suc, ◌≡◌, ◌≢◌, ◌↔◌, refl, true, false, List, [], ◌∷◌, ◌++◌, some, arith, length, take,
  inr,
}
use boltdb_cpp.Binary.LittleEndian
use boltdb_cpp.Util.Status.{is_ok, ok_status, status_corrupt}
use boltdb_cpp.Page.{Page, new_page, page_data, meta_flag}
use boltdb_cpp.Page.Memory.{splice, store_bytes}
use boltdb_cpp.Fs.FileSystem.{Posix, FileHandle, read, file_size, set_file_pointer}
use boltdb_cpp.Db.Options.{default_options}
use boltdb_cpp.Db.Meta.{
  Meta, InRange, serialize, deserialize, validate, sum64, db_magic, db_version,
}
use boltdb_cpp.Db.Meta.RoundTrip.{deserialize-serialize}
use boltdb_cpp.Db.Meta.Validity.{validate_cases}
use boltdb_cpp.Db.Open.{Buffers, initial_meta, object_bytes, meta_page, write_pages, open_file_db}
use boltdb_cpp.Db.Open.Writes.{WriteOutcome, write_pages_cases}
use boltdb_cpp.Db.Open.Reopen.{reopen_lem}

abbrev meta : Meta
meta = record {
  magic = db_magic;
  version = db_version;
  page_size = 4096;
  flags = 0;
  root = record { root = 3; sequence = 0 };
  freelist = 2;
  pgid = 1;
  txid = 1;
  checksum = 5;
}

meta-InRange : InRange meta
meta-InRange = record {
  magic = omega arith;
  version = omega arith;
  page_size = omega arith;
  flags = omega arith;
  root = omega arith;
  sequence = omega arith;
  freelist = omega arith;
  pgid = omega arith;
  txid = omega arith;
  checksum = omega arith;
}

deserialize-serialize_example : deserialize (serialize meta ++ (7 ∷ [])) ≡ some meta
deserialize-serialize_example = deserialize-serialize meta (7 ∷ []) meta-InRange

validate_cases_example :
    ((is_ok (validate meta) ≡ true)
      ↔ ((meta.magic ≡ db_magic) × (meta.version ≡ db_version) × (meta.checksum ≡ sum64 meta)))
    × (((validate meta).status_type ≡ status_corrupt)
        ↔ ((meta.magic ≡ db_magic) × (meta.version ≡ db_version) × (meta.checksum ≢ sum64 meta)))
validate_cases_example = validate_cases meta

-- A system with one file, whose bytes are the world.
abbrev disk : Posix (List ℕ) ℕ
disk = record {
  open_file = λ path oflag permission w. (some 3, w);
  lseek = λ fd offset w. (some offset, w);
  read = λ fd nbytes w. (some (take nbytes w), w);
  write = λ fd bs w. (some (length bs), w ++ bs);
  fdatasync = λ fd w. (0, w);
  flock = λ fd operation w. (0, w);
  close = λ fd w. w;
  fstat = λ fd w. (some (length w), w);
  access = λ path w. (0, w);
  remove = λ path w. (some 0, w);
  error = λ w. "";
  strerror = λ n. "";
  sleep = λ w. w;
  is_timeout = λ timeout start w. false;
  is_positive = λ timeout. false;
  seconds = λ n. n;
  would_block = 11;
}

abbrev file : FileHandle
file = record { path = "data.db"; fd = 3; flocked = true }

abbrev zeros : ℕ → List ℕ
zeros zero = []
zeros (suc n) = 0 ∷ zeros n

abbrev buffers : Buffers
buffers = record { meta_0 = zeros 80; meta_1 = zeros 80; freelist = zeros 80; leaf = zeros 80 }

-- The meta page 0 for pages of 96 bytes.
abbrev first_page : Page
first_page = new_page 0 meta_flag 96 (splice 0 (object_bytes (initial_meta 96 0)) (zeros 80))

write_pages_cases_example :
    WriteOutcome disk file 96
      (first_page ∷ [])
      0
      []
      (write_pages disk file 96 (first_page ∷ []) 0 [])
write_pages_cases_example = write_pages_cases disk file 96 (first_page ∷ []) 0 []

first_page_test : meta_page 96 0 (zeros 80) ≡ some first_page
unfolding meta_page store_bytes initial_meta LittleEndian.append_variadic_uint
    LittleEndian.append_uint
first_page_test = refl

-- The file after `init` with pages of 96 bytes.
abbrev disk_file : List ℕ
disk_file = page_data first_page ++ zeros 32

reopen_lem_example :
    open_file_db disk 1 4096 buffers (zeros 128) (default_options 0) file disk_file
    ≡ some (
      inr (
        ok_status,
        some (record { file_handle = file; options = default_options 0; page_size = 4096 }),
      ),
      disk_file,
    )
unfolding file_size read set_file_pointer page_data new_page splice initial_meta
    LittleEndian.append_variadic_uint LittleEndian.append_uint
reopen_lem_example =
    reopen_lem disk 1 4096 96 buffers (zeros 80) (zeros 128) (zeros 32) (default_options 0) file
      disk_file disk_file first_page first_page_test (λ e. omega (arith, e)) (omega arith) refl refl
