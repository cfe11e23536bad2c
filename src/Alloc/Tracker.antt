-- ===== src/Alloc/Tracker.antt =====
-- `MemoryResourceTracker` of include/boltdb/alloc/memory_resource_tracker.hpp. The upstream resource is a
-- parameter with a state of its own; `none` is the exception that it throws. A `std::size_t` wraps at
-- 2 ^ 64.
use boltdb_cpp.Base.{
  ℕ, ◌+◌, ◌-◌, ◌%◌, ◌^◌, ◌⊎◌, inl, inr, not, List, [], ◌∷◌, ◌++◌, Option, none, some, ◌>>=◌, ◌==◌,
  if◌then◌else◌, ltb,
}

pub record Block : Type 0 where
  pub ptr : ℕ
  pub nbytes : ℕ
  pub alignment : ℕ

-- `std::pmr::memory_resource`
pub record Resource (U : Type 0) : Type 0 where
  pub allocate : ℕ → ℕ → U → Option (ℕ × U)
  pub deallocate : ℕ → ℕ → ℕ → U → U

pub record Tracker (U : Type 0) : Type 0 where
  pub upstream : U
  pub blocks : List Block
  pub bytes_allocated : ℕ
  pub bytes_outstanding : ℕ
  pub bytes_highwater : ℕ

-- The messages of `std::invalid_argument`.
pub data InvalidArgument : Type 0 where
  invalid_pointer : InvalidArgument
  size_mismatch : InvalidArgument
  alignment_mismatch : InvalidArgument

unfoldable pub bytes_deallocated : {U : Type 0} → Tracker U → ℕ
bytes_deallocated t = (t.bytes_allocated + 2 ^ 64 - t.bytes_outstanding) % 2 ^ 64

-- `std::max`
abbrev pub max : ℕ → ℕ → ℕ
max m n = if ltb m n then n else m

-- The bookkeeping of `do_allocate` for the block that the upstream resource gave.
unfoldable pub push_block : {U : Type 0} → Block → Tracker U → Tracker U
push_block b t =
    let outstanding = (t.bytes_outstanding + b.nbytes) % 2 ^ 64 in
    record t {
      blocks = t.blocks ++ (b ∷ []);
      bytes_allocated = (t.bytes_allocated + b.nbytes) % 2 ^ 64;
      bytes_outstanding = outstanding;
      bytes_highwater = max t.bytes_highwater outstanding;
    }

unfoldable pub do_allocate : {U : Type 0} → Resource U → ℕ → ℕ → Tracker U → Option (ℕ × Tracker U)
do_allocate r nbytes alignment t = do
  (p, u) ← r.allocate nbytes alignment t.upstream
  some (
    p,
    push_block (record { ptr = p; nbytes = nbytes; alignment = alignment })
        (record t { upstream = u }),
  )

-- `std::find_if`: the blocks before the first one at the pointer, this one, and those after it.
unfoldable pub find_pointer : ℕ → List Block → Option (List Block × Block × List Block)
find_pointer p [] = none
find_pointer p (b ∷ bs) =
    let rest = find_pointer p bs in
    if b.ptr == p then some ([], b, bs) else (rest >>= λ r. some (b ∷ r.0, r.1, r.2))

unfoldable pub do_deallocate :
    {U : Type 0} → Resource U → ℕ → ℕ → ℕ → Tracker U → InvalidArgument ⊎ Tracker U
do_deallocate r p nbytes alignment t = elim (find_pointer p t.blocks) [
  | none ↦ inl invalid_pointer
  | some i ↦
      if not (i.1.nbytes == nbytes)
      then inl size_mismatch
      else (if not (i.1.alignment == alignment)
          then inl alignment_mismatch
          else inr (record t {
            upstream = r.deallocate p i.1.nbytes i.1.alignment t.upstream;
            blocks = i.0 ++ i.2;
            bytes_outstanding = (t.bytes_outstanding + 2 ^ 64 - nbytes) % 2 ^ 64;
          }))
]
