-- ===== src/Alloc/Pool.antt =====
-- `MemoryPool` of include/boltdb/alloc/memory_pool.hpp. Both upstream resources, the monotonic buffer and
-- the default resource, are parameters. A `Byte` has size and alignment 1. `Void` and `none` stand for
-- exceptions: `none` for that of an upstream resource.
use boltdb_cpp.Base.{
  ℕ, ◌+◌, ◌/◌, ◌%◌, ◌^◌, Bool, ◌⊎◌, inl, inr, Option, some, ◌>>=◌, if◌then◌else◌, ltb,
}
use boltdb_cpp.Alloc.Tracker.{Tracker, Resource, InvalidArgument, do_allocate, do_deallocate}

abbrev pub page_size : ℕ
page_size = 2 ^ 10

pub record MemoryPool (S H : Type 0) : Type 0 where
  pub stack_tracker : Tracker S
  pub heap_tracker : Tracker H

abbrev pub is_small_size : ℕ → Bool
is_small_size nbytes = ltb nbytes (page_size / 4)

unfoldable pub allocate :
    {S H : Type 0} → Resource S → Resource H → ℕ → MemoryPool S H → Option (ℕ × MemoryPool S H)
allocate s h nbytes pool =
    if is_small_size nbytes
    then (do_allocate s nbytes 1 pool.stack_tracker >>= λ r.
        some (r.0, record pool { stack_tracker = r.1 }))
    else (do_allocate h nbytes 1 pool.heap_tracker >>= λ r.
        some (r.0, record pool { heap_tracker = r.1 }))

abbrev returned : {A B : Type 0} → (A → B) → InvalidArgument ⊎ A → InvalidArgument ⊎ B
returned f (inl e) = inl e
returned f (inr a) = inr (f a)

unfoldable pub deallocate :
    {S H : Type 0}
    → Resource S
    → Resource H
    → ℕ
    → ℕ
    → MemoryPool S H
    → InvalidArgument ⊎ MemoryPool S H
deallocate s h p nbytes pool =
    if is_small_size nbytes
    then returned (λ t. record pool { stack_tracker = t })
        (do_deallocate s p nbytes 1 pool.stack_tracker)
    else returned (λ t. record pool { heap_tracker = t })
        (do_deallocate h p nbytes 1 pool.heap_tracker)

unfoldable pub bytes_outstanding : {S H : Type 0} → MemoryPool S H → ℕ
bytes_outstanding pool =
    (pool.stack_tracker.bytes_outstanding + pool.heap_tracker.bytes_outstanding) % 2 ^ 64
