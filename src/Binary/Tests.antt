-- ===== src/Binary/Tests.antt =====
-- Runs of the byte orders of include/boltdb/util/binary.hpp.
use boltdb_cpp.Base.{ℕ, ◌≡◌, refl, List, [], ◌∷◌, ◌++◌, some, arith, length, drop}
use boltdb_cpp.Binary.Bytes.{u16, u32}
use boltdb_cpp.Binary.BigEndian
use boltdb_cpp.Binary.LittleEndian
use mathlib.Core.List.{reverse}
use boltdb_cpp.Binary.Orders.{append_uint_mirrored}

uint-append_uint_test :
    BigEndian.uint u32 (BigEndian.append_uint u32 [] 0xED0CDAED ++ (7 ∷ [])) ≡ some 0xED0CDAED
uint-append_uint_test = BigEndian.uint-append_uint u32 0xED0CDAED (7 ∷ []) (omega arith)

uint-put_uint_example :
    (s : List ℕ) × (BigEndian.put_uint u16 (0 ∷ 0 ∷ 9 ∷ []) 0x1234 ≡ some s)
    × (BigEndian.uint u16 s ≡ some 0x1234)
    × (length s ≡ 3)
    × (drop 2 s ≡ 9 ∷ [])
uint-put_uint_example =
    BigEndian.uint-put_uint u16 (0 ∷ 0 ∷ 9 ∷ []) 0x1234 (omega arith) (omega arith)

append_uint_mirrored_test :
    LittleEndian.append_uint u32 [] 0x12345678 ≡ reverse (BigEndian.append_uint u32 [] 0x12345678)
append_uint_mirrored_test = append_uint_mirrored u32 0x12345678

append_uint_test : BigEndian.append_uint u32 [] 0x12345678 ≡ 0x12 ∷ 0x34 ∷ 0x56 ∷ 0x78 ∷ []
unfolding BigEndian.append_uint
append_uint_test = refl
