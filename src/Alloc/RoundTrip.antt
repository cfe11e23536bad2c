-- ===== src/Alloc/RoundTrip.antt =====
-- `allocate` and `deallocate` of the pool of include/boltdb/alloc/memory_pool.hpp, one after the other.
use boltdb_cpp.Alloc.Leaks.Allocate.{do_deallocate-do_allocate, do_allocate-IsValid}
use boltdb_cpp.Base.{
  ℕ, ◌+◌, ◌%◌, ◌^◌, ◌<◌, ◌≡◌, refl, sym, ap, subst, ◌⊎◌, inl, inr, Option, none, some, ◌>>=◌, arith,
  Bool-cases,
}
use boltdb_cpp.Alloc.Tracker.{Resource, InvalidArgument, do_allocate}
use boltdb_cpp.Alloc.Leaks.{IsValid, NotAt}
use boltdb_cpp.Alloc.Pool.{MemoryPool, is_small_size, allocate, deallocate, bytes_outstanding}

-- Both trackers count what is outstanding in them.
pub record PoolIsValid {S H : Type 0} (pool : MemoryPool S H) : Type 0 where
  pub stack : IsValid pool.stack_tracker
  pub heap : IsValid pool.heap_tracker

-- Neither tracker has a block at the pointer.
pub record Unused {S H : Type 0} (p : ℕ) (pool : MemoryPool S H) : Type 0 where
  pub stack : NotAt p pool.stack_tracker.blocks
  pub heap : NotAt p pool.heap_tracker.blocks

abbrev pub GivenBack : {S H : Type 0} → MemoryPool S H → InvalidArgument ⊎ MemoryPool S H → Type 0
GivenBack {S} {H} pool out =
    (pool' : MemoryPool S H) × (out ≡ inr pool')
    × (pool'.stack_tracker.blocks ≡ pool.stack_tracker.blocks)
    × (pool'.heap_tracker.blocks ≡ pool.heap_tracker.blocks)
    × (bytes_outstanding pool' ≡ bytes_outstanding pool)

some_step :
    {A B : Type 0}
    → (o : Option (ℕ × A)) (f : A → B) (p : ℕ) (b : B)
    → ◌>>=◌ {A = ℕ × A} {B = ℕ × B} o (λ r. some (r.0, f r.1)) ≡ some (p, b)
    → (a : A) × (o ≡ some (p, a)) × (b ≡ f a)
some_step none f p b e = absurd (cc)
some_step {A} {B} (some (q, a)) f p b e =
    (a, ap (λ x. some (x, a)) (ground (arith, e)), ground (arith, e))

-- An allocation, at a pointer that is not in use, of a pool whose trackers count what is outstanding and
-- whose totals do not overflow leaves such a pool. Giving the block back with its size succeeds, and
-- leaves the blocks and the number of outstanding bytes as they were before both.
pub deallocate-allocate :
    {S H : Type 0}
    → (s : Resource S) (h : Resource H) (nbytes p : ℕ) (pool pool' : MemoryPool S H)
    → PoolIsValid pool
    → pool.stack_tracker.bytes_allocated + nbytes < 2 ^ 64
    → pool.heap_tracker.bytes_allocated + nbytes < 2 ^ 64
    → allocate s h nbytes pool ≡ some (p, pool')
    → Unused p pool
    → PoolIsValid pool' × GivenBack pool (deallocate s h p nbytes pool')
unfolding allocate deallocate bytes_outstanding
deallocate-allocate {S} {H} s h nbytes p pool pool' v small large e n =
    elim (Bool-cases (is_small_size nbytes)) [
      | inl q ↦
          let (t, made, same) =
            some_step (do_allocate s nbytes 1 pool.stack_tracker)
              (λ t. record pool { stack_tracker = t }) p pool' (ground (arith, e, q)) in
          let (t', back, blocks, bytes) =
            do_deallocate-do_allocate s nbytes 1 p pool.stack_tracker t v.stack small made
              n.stack in
          subst (λ (x : MemoryPool S H). PoolIsValid x × GivenBack pool (deallocate s h p nbytes x))
            (sym same)
            (
              record {
                stack = do_allocate-IsValid s nbytes 1 p pool.stack_tracker t v.stack small made;
                heap = v.heap;
              },
              (
                record pool { stack_tracker = t' },
                rw (deallocate, q, back) refl,
                blocks,
                refl,
                ap (λ b. (b + pool.heap_tracker.bytes_outstanding) % 2 ^ 64) bytes,
              ),
            )
      | inr q ↦
          let (t, made, same) =
            some_step (do_allocate h nbytes 1 pool.heap_tracker)
              (λ t. record pool { heap_tracker = t }) p pool' (ground (arith, e, q)) in
          let (t', back, blocks, bytes) =
            do_deallocate-do_allocate h nbytes 1 p pool.heap_tracker t v.heap large made n.heap in
          subst (λ (x : MemoryPool S H). PoolIsValid x × GivenBack pool (deallocate s h p nbytes x))
            (sym same)
            (
              record {
                stack = v.stack;
                heap = do_allocate-IsValid h nbytes 1 p pool.heap_tracker t v.heap large made;
              },
              (
                record pool { heap_tracker = t' },
                rw (deallocate, q, back) refl,
                refl,
                blocks,
                ap (λ b. (pool.stack_tracker.bytes_outstanding + b) % 2 ^ 64) bytes,
              ),
            )
    ]
