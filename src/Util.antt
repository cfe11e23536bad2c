-- ===== src/Util.antt =====
-- include/boltdb/util and src/util.
pub mod Crc64
pub mod Status
pub mod RefCount
pub mod Slice
pub mod Rounding
pub mod IRange
mod Tests
