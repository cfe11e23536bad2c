-- ===== src/Fs/Tests.antt =====
-- Runs of the locks of src/fs/file_system.cpp on a system whose files are locked by others.
use boltdb_cpp.Base.{ℕ, ◌+◌, ◌≡◌, refl, true, ◌==◌, if◌then◌else◌, [], none, some, arith}
use boltdb_cpp.Fs.FileSystem.{Posix, FileHandle, flock, close}
use boltdb_cpp.Fs.Locks.{Documented, minus_one, Once, flock-Once, close_flocks}

-- The world counts the calls. A lock that may be waited for is had in the end; every other operation fails.
abbrev contended : Posix ℕ ℕ
contended = record {
  open_file = λ path oflag permission w. (some 3, w + 1);
  lseek = λ fd offset w. (some offset, w + 1);
  read = λ fd nbytes w. (some [], w + 1);
  write = λ fd bs w. (none, w + 1);
  fdatasync = λ fd w. (0, w + 1);
  flock = λ fd operation w. (if operation == 2 then 0 else minus_one, w + 1);
  close = λ fd w. w + 1;
  fstat = λ fd w. (some 0, w + 1);
  access = λ path w. (0, w + 1);
  remove = λ path w. (none, w + 1);
  error = λ w. "Resource temporarily unavailable";
  strerror = λ n. "Unknown error";
  sleep = λ w. w + 1;
  is_timeout = λ timeout start w. true;
  is_positive = λ timeout. true;
  seconds = λ n. n;
  would_block = 11;
}

contended-Documented : Documented contended
contended-Documented = record { result = λ fd operation w. ground arith; positive = omega arith }

-- `LOCK_EX | LOCK_NB`: the call does not wait, and returns -1 where the file is locked.
abbrev lock_ex_nb : ℕ
lock_ex_nb = 6

abbrev locked : FileHandle
locked = record { path = "data.db"; fd = 3; flocked = true }

flock-Once_example : Once contended locked lock_ex_nb 0 (flock contended 5 locked lock_ex_nb 60 0)
flock-Once_example = flock-Once contended 4 lock_ex_nb 60 locked 0 contended-Documented

close_flocks_test : close contended 5 locked 0 ≡ some (contended.close 3 (contended.flock 3 3 0).1)
close_flocks_test = close_flocks contended 4 locked 0 contended-Documented refl
