-- ===== src/Fs.antt =====
-- The files of include/boltdb/fs and src/fs, and the locks on them.
pub mod FileSystem
pub mod Locks
mod Tests
