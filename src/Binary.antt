-- ===== src/Binary.antt =====
-- include/boltdb/util/binary.hpp: fixed-width unsigned integers in slices, in both byte orders.
-- A slice is the list of its bytes; `Byte` is a `char`, and stands here for the number from 0 to 255
-- that `static_cast<UByte>` gives. `none` is a failed `assert` on an index or a size.
pub mod BigEndian
pub mod LittleEndian
pub mod Bytes
pub mod Orders
mod Tests
