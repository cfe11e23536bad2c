-- ===== src/Alloc/Tests.antt =====
-- Runs of the memory pool of include/boltdb/alloc.
use boltdb_cpp.Base.{ℕ, ◌+◌, ◌≡◌, refl, [], ◌∷◌, some, arith}
use boltdb_cpp.Alloc.Tracker.{Resource, Tracker, do_allocate, do_deallocate, push_block}
use boltdb_cpp.Alloc.Leaks.{DeallocateOutcome, do_deallocate_cases}
use boltdb_cpp.Alloc.Pool.{MemoryPool, allocate, deallocate}
use boltdb_cpp.Alloc.RoundTrip.{PoolIsValid, GivenBack, deallocate-allocate}

-- It hands out the addresses in their order and takes nothing back.
abbrev bump : Resource ℕ
bump = record { allocate = λ n a u. some (u, u + n); deallocate = λ p n a u. u }

abbrev idle : Tracker ℕ
idle = record {
  upstream = 100;
  blocks = [];
  bytes_allocated = 0;
  bytes_outstanding = 0;
  bytes_highwater = 0;
}

abbrev busy : Tracker ℕ
busy = record {
  upstream = 400;
  blocks = record { ptr = 100; nbytes = 300; alignment = 1 } ∷ [];
  bytes_allocated = 300;
  bytes_outstanding = 300;
  bytes_highwater = 300;
}

abbrev pool_before : MemoryPool ℕ ℕ
pool_before = record { stack_tracker = idle; heap_tracker = idle }

abbrev pool_after : MemoryPool ℕ ℕ
pool_after = record { stack_tracker = idle; heap_tracker = busy }

allocate_test : allocate bump bump 300 pool_before ≡ some (100, pool_after)
unfolding allocate do_allocate push_block
allocate_test = refl

do_deallocate_cases_example :
    DeallocateOutcome bump 100 299 1 busy (do_deallocate bump 100 299 1 busy)
do_deallocate_cases_example = do_deallocate_cases bump 100 299 1 busy

deallocate-allocate_example :
    PoolIsValid pool_after × GivenBack pool_before (deallocate bump bump 100 300 pool_after)
deallocate-allocate_example =
    deallocate-allocate bump bump 300 100 pool_before pool_after
      (record {
        stack = record {
          exact = refl;
          peak = omega arith;
          total = omega arith;
          bounded = omega arith;
        };
        heap = record {
          exact = refl;
          peak = omega arith;
          total = omega arith;
          bounded = omega arith;
        };
      })
      (omega arith) (omega arith) allocate_test (record { stack = tt; heap = tt })
