-- ===== src/Db.antt =====
-- The database of include/boltdb/db and src/db: its meta page, its options, and how it is opened.
pub mod Meta
pub mod Options
pub mod Open
mod Tests
