-- ===== src/Db/Meta.antt =====
-- `Meta` of include/boltdb/db/db_meta.hpp, with its methods in src/db/db.cpp: the meta page as bytes.
-- Only what a byte slice holds is modelled; `ByteSlice` shares its buffer, which nothing here observes.
pub mod RoundTrip
pub mod Validity
use boltdb_cpp.Base.{
  ℕ, ◌+◌, ◌<◌, ◌^◌, ◌≡◌, ◌↔◌, refl, Bool, true, false, ◌&&◌, List, [], ◌∷◌, ◌++◌, Option, none,
  some, ◌>>=◌, arith, ◌==◌, if◌then◌else◌, drop,
}
use boltdb_cpp.Binary.Bytes.{Width, u32, u64, bytes, Fits}
use boltdb_cpp.Binary.BigEndian
use boltdb_cpp.Util.Crc64.{crc64_be}
use boltdb_cpp.Util.Status.{Status, ok_status, StatusType, status_err, status_corrupt, failed}

pub record BucketMeta : Type 0 where
  pub root : ℕ
  pub sequence : ℕ

pub record Meta : Type 0 where
  pub magic : ℕ
  pub version : ℕ
  pub page_size : ℕ
  pub flags : ℕ
  pub root : BucketMeta
  pub freelist : ℕ
  pub pgid : ℕ
  pub txid : ℕ
  pub checksum : ℕ

-- `DB::kMagic` and `DB::kVersion`
abbrev pub db_magic : ℕ
db_magic = 0xED0CDAED

abbrev pub db_version : ℕ
db_version = 1

-- The integers that `write_aux` appends, with the widths of their types.
abbrev pub integers : Meta → List (Width × ℕ)
integers m =
    (u32, m.magic)
    ∷ (u32, m.version)
    ∷ (u32, m.page_size)
    ∷ (u32, m.flags)
    ∷ (u64, m.root.root)
    ∷ (u64, m.root.sequence)
    ∷ (u64, m.freelist)
    ∷ (u64, m.pgid)
    ∷ (u64, m.txid)
    ∷ []

unfoldable pub write_aux : Meta → List ℕ → List ℕ
write_aux m slice = BigEndian.append_variadic_uint slice (integers m)

unfoldable pub write : Meta → List ℕ → List ℕ
write m slice = BigEndian.append_uint u64 (write_aux m slice) m.checksum

unfoldable pub serialize : Meta → List ℕ
serialize meta = write meta []

-- `deserialize_aux` gives the number and the slice behind it.
unfoldable pub deserialize_aux : Width → List ℕ → Option (ℕ × List ℕ)
deserialize_aux w slice = do v ← BigEndian.uint w slice; some (v, drop (bytes w) slice)

unfoldable pub deserialize : List ℕ → Option Meta
deserialize slice = do
  (magic, slice₁) ← deserialize_aux u32 slice
  (version, slice₂) ← deserialize_aux u32 slice₁
  (page_size, slice₃) ← deserialize_aux u32 slice₂
  (flags, slice₄) ← deserialize_aux u32 slice₃
  (root, slice₅) ← deserialize_aux u64 slice₄
  (sequence, slice₆) ← deserialize_aux u64 slice₅
  (freelist, slice₇) ← deserialize_aux u64 slice₆
  (pgid, slice₈) ← deserialize_aux u64 slice₇
  (txid, slice₉) ← deserialize_aux u64 slice₈
  (checksum, _) ← deserialize_aux u64 slice₉
  some (record {
    magic = magic;
    version = version;
    page_size = page_size;
    flags = flags;
    root = record { root = root; sequence = sequence };
    freelist = freelist;
    pgid = pgid;
    txid = txid;
    checksum = checksum;
  })

unfoldable pub sum64 : Meta → ℕ
sum64 m = crc64_be 0 (write_aux m [])

unfoldable pub validate : Meta → Status
validate m =
    if m.magic == db_magic
    then if m.version == db_version
      then if m.checksum == sum64 m then ok_status else failed status_corrupt "Invalid checksum"
      else failed status_err "Invalid version"
    else failed status_err "Invalid magic"

unfoldable pub equals : Meta → Meta → Bool
equals m other =
    m.magic == other.magic
    && m.version == other.version
    && m.page_size == other.page_size
    && m.flags == other.flags
    && m.root.root == other.root.root
    && m.root.sequence == other.root.sequence
    && m.freelist == other.freelist
    && m.pgid == other.pgid
    && m.txid == other.txid
    && m.checksum == other.checksum

-- Every field is in the range of its type.
pub record InRange (m : Meta) : Type 0 where
  pub magic : Fits u32 m.magic
  pub version : Fits u32 m.version
  pub page_size : Fits u32 m.page_size
  pub flags : Fits u32 m.flags
  pub root : Fits u64 m.root.root
  pub sequence : Fits u64 m.root.sequence
  pub freelist : Fits u64 m.freelist
  pub pgid : Fits u64 m.pgid
  pub txid : Fits u64 m.txid
  pub checksum : Fits u64 m.checksum
