-- ===== src/Alloc.antt =====
-- The memory pool of include/boltdb/alloc, a component with two trackers.
pub mod Tracker
pub mod Leaks
pub mod Pool
pub mod RoundTrip
mod Tests
