-- ===== src/Db/Options.antt =====
-- `Options` of include/boltdb/util/options.hpp. An `int` is a number here; a timeout, a `double`, is of a
-- type that is a parameter, with its zero.
use boltdb_cpp.Base.{ℕ, ◌*◌, Bool, true, false}

abbrev pub default_max_batch_size : ℕ
default_max_batch_size = 1000

abbrev pub default_max_batch_delay : ℕ
default_max_batch_delay = 10

abbrev pub default_alloc_size : ℕ
default_alloc_size = 16 * 1024 * 1024

-- `O_RDWR` and `O_CREAT`, as on Linux.
abbrev pub read_write : ℕ
read_write = 2

abbrev pub create : ℕ
create = 64

pub record Options (D : Type 0) : Type 0 where
  pub open_flag : ℕ
  pub permission : ℕ
  pub strict_mode : Bool
  pub no_sync : Bool
  pub no_grow_sync : Bool
  pub read_only : Bool
  pub timeout : D
  pub mmapflags : ℕ
  pub initial_mmap_size : ℕ
  pub max_batch_size : ℕ
  pub max_batch_delay : ℕ
  pub alloc_size : ℕ

abbrev pub default_options : {D : Type 0} → D → Options D
default_options zero_seconds = record {
  open_flag = read_write;
  permission = 438;
  strict_mode = false;
  no_sync = true;
  no_grow_sync = false;
  read_only = false;
  timeout = zero_seconds;
  mmapflags = 0;
  initial_mmap_size = 0;
  max_batch_size = default_max_batch_size;
  max_batch_delay = default_max_batch_delay;
  alloc_size = default_alloc_size;
}

abbrev pub set_open_flag : {D : Type 0} → ℕ → Options D → Options D
set_open_flag open_flag options = record options { open_flag = open_flag }

abbrev pub set_permission : {D : Type 0} → ℕ → Options D → Options D
set_permission permission options = record options { permission = permission }

abbrev pub set_strict_mode : {D : Type 0} → Bool → Options D → Options D
set_strict_mode strict_mode options = record options { strict_mode = strict_mode }

abbrev pub set_no_sync : {D : Type 0} → Bool → Options D → Options D
set_no_sync no_sync options = record options { no_sync = no_sync }

abbrev pub set_no_grow_sync : {D : Type 0} → Bool → Options D → Options D
set_no_grow_sync no_grow_sync options = record options { no_grow_sync = no_grow_sync }

abbrev pub set_read_only : {D : Type 0} → Bool → Options D → Options D
set_read_only read_only options = record options { read_only = read_only }

abbrev pub set_timeout : {D : Type 0} → D → Options D → Options D
set_timeout timeout options = record options { timeout = timeout }

abbrev pub set_mmap_flags : {D : Type 0} → ℕ → Options D → Options D
set_mmap_flags mmapflags options = record options { mmapflags = mmapflags }

abbrev pub set_initial_mmap_size : {D : Type 0} → ℕ → Options D → Options D
set_initial_mmap_size initial_mmap_size options = record options {
  initial_mmap_size = initial_mmap_size;
}

abbrev pub set_max_batch_size : {D : Type 0} → ℕ → Options D → Options D
set_max_batch_size max_batch_size options = record options { max_batch_size = max_batch_size }

abbrev pub set_max_batch_delay : {D : Type 0} → ℕ → Options D → Options D
set_max_batch_delay max_batch_delay options = record options { max_batch_delay = max_batch_delay }

abbrev pub set_alloc_size : {D : Type 0} → ℕ → Options D → Options D
set_alloc_size alloc_size options = record options { alloc_size = alloc_size }
