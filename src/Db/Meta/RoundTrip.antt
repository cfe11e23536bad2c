-- ===== src/Db/Meta/RoundTrip.antt =====
-- `Meta::serialize` and `Meta::deserialize` of src/db/db.cpp against one another.
use boltdb_cpp.Base.{ℕ, ◌≡◌, List, ◌++◌, some, append_assoc, append-nil}
use boltdb_cpp.Binary.Bytes.{Width, u32, u64, Fits}
use boltdb_cpp.Binary.BigEndian
use boltdb_cpp.Db.Meta.{Meta, write_aux, write, serialize, deserialize_aux, deserialize, InRange}

-- The bytes of a meta object.
abbrev pub layout : Meta → List ℕ → List ℕ
layout m rest =
    BigEndian.encoded u32 m.magic
    ++ (BigEndian.encoded u32 m.version
        ++ (BigEndian.encoded u32 m.page_size
            ++ (BigEndian.encoded u32 m.flags
                ++ (BigEndian.encoded u64 m.root.root
                    ++ (BigEndian.encoded u64 m.root.sequence
                        ++ (BigEndian.encoded u64 m.freelist
                            ++ (BigEndian.encoded u64 m.pgid
                                ++ (BigEndian.encoded u64 m.txid
                                    ++ (BigEndian.encoded u64 m.checksum ++ rest)))))))))

serialize-layout : (m : Meta) (rest : List ℕ) → serialize m ++ rest ≡ layout m rest
unfolding serialize write write_aux
serialize-layout m rest =
    rw (BigEndian.append_uint-encoded, BigEndian.append_variadic_uint-encoded)
      (simp (append_assoc, append-nil))

deserialize_aux-encoded :
    (w : Width) (v : ℕ) (rest : List ℕ)
    → Fits w v
    → deserialize_aux w (BigEndian.encoded w v ++ rest) ≡ some (v, rest)
unfolding deserialize_aux
deserialize_aux-encoded w v rest h =
    rw (BigEndian.uint-encoded w v rest h) (rw (BigEndian.drop-encoded w v rest))

-- Reading gives back the object that was written, whatever bytes follow, if every field is in the
-- range of its type.
pub deserialize-serialize :
    (m : Meta) (rest : List ℕ) → InRange m → deserialize (serialize m ++ rest) ≡ some m
unfolding deserialize
deserialize-serialize m rest r = rw (serialize-layout m rest) (
    simp (
      deserialize_aux-encoded u32 m.magic _ r.magic,
      deserialize_aux-encoded u32 m.version _ r.version,
      deserialize_aux-encoded u32 m.page_size _ r.page_size,
      deserialize_aux-encoded u32 m.flags _ r.flags,
      deserialize_aux-encoded u64 m.root.root _ r.root,
      deserialize_aux-encoded u64 m.root.sequence _ r.sequence,
      deserialize_aux-encoded u64 m.freelist _ r.freelist,
      deserialize_aux-encoded u64 m.pgid _ r.pgid,
      deserialize_aux-encoded u64 m.txid _ r.txid,
      deserialize_aux-encoded u64 m.checksum _ r.checksum,
    ))
