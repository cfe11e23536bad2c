-- ===== src/Binary/Orders.antt =====
-- The two byte orders of include/boltdb/util/binary.hpp against one another.
use mathlib.Core.List.{reverse}
use boltdb_cpp.Base.{ℕ, ◌≡◌, refl, []}
use boltdb_cpp.Binary.Bytes.{Width, u8, u16, u32, u64}
use boltdb_cpp.Binary.BigEndian
use boltdb_cpp.Binary.LittleEndian

-- One order writes the bytes of the other backwards.
pub append_uint_mirrored :
    (w : Width) (v : ℕ) → LittleEndian.append_uint w [] v ≡ reverse (BigEndian.append_uint w [] v)
unfolding LittleEndian.append_uint BigEndian.append_uint
append_uint_mirrored u8 v = refl
append_uint_mirrored u16 v = refl
append_uint_mirrored u32 v = refl
append_uint_mirrored u64 v = refl
