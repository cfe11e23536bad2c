-- ===== src/FreeList/Free.antt =====
-- `FreeList::free` and `FreeList::rollback` of src/page/freelist.cpp.
use boltdb_cpp.Base.{
  ℕ, zero, suc, ◌+◌, ◌≤◌, ◌<◌, ◌≡◌, ◌⊎◌, inl, inr, true, false, Option, some, arith, ◌==◌,
  Bool-cases,
}
use boltdb_cpp.Base.Map
use boltdb_cpp.Base.Map.{KeysFrom}
use boltdb_cpp.FreeList.{
  FreeList, Result, returns, throws, already_freed, u64_mod, free_one, free_loop, free,
}

-- The state after `n` pages from `i` on were freed for a transaction.
unfoldable pub free_run : ℕ → ℕ → ℕ → FreeList → FreeList
free_run zero txn_id i f = f
free_run (suc n) txn_id i f = free_run n txn_id (i + 1) (free_one txn_id i f)

-- None of the `n` pages from `i` on is free or pending.
abbrev pub InUse : ℕ → ℕ → FreeList → Type 0
InUse n i f = (p : ℕ) → i ≤ p → p < i + n → Map.contains p f.cache ≡ false

-- What a call may come to: all pages are freed, or the first one that was freed before is reported
-- and those ahead of it stay freed.
abbrev pub FreeOutcome : ℕ → ℕ → ℕ → FreeList → Option (Result (Unit {0}) × FreeList) → Type 0
FreeOutcome n txn_id i f r =
    (InUse n i f × (r ≡ some (returns tt, free_run n txn_id i f)))
    ⊎ ((k : ℕ) × (k < n)
        × InUse k i f
        × (Map.contains (i + k) f.cache ≡ true)
        × (r ≡ some (throws (already_freed (i + k)), free_run k txn_id i f)))

pub InUse-tail :
    (n i txn_id : ℕ) (f : FreeList) → InUse (suc n) i f → InUse n (i + 1) (free_one txn_id i f)
InUse-tail n i txn_id f h p lo hi =
    ground (arith, Map.contains-assign p i true f.cache, h p (omega arith) (omega arith))

InUse-cons :
    (n i txn_id : ℕ) (f : FreeList)
    → Map.contains i f.cache ≡ false
    → InUse n (i + 1) (free_one txn_id i f)
    → InUse (suc n) i f
InUse-cons n i txn_id f e h p lo hi = elim (Bool-cases (i == p)) [
  | inl same ↦ ground (arith, e)
  | inr other ↦
      ground (arith, Map.contains-assign p i true f.cache, h p (ground arith) (omega arith))
]

step_outcome :
    (n fuel txn_id i last : ℕ) (f : FreeList)
    → i + suc n ≡ last + 1
    → last + 1 < u64_mod
    → Map.contains i f.cache ≡ false
    → FreeOutcome n txn_id
        (i + 1)
        (free_one txn_id i f)
        (free_loop fuel txn_id (i + 1) last (free_one txn_id i f))
    → FreeOutcome (suc n) txn_id i f (free_loop (suc fuel) txn_id i last f)
unfolding free_loop free_run
step_outcome n fuel txn_id i last f e small clear (inl (h, r)) =
    inl (InUse-cons n i txn_id f clear h, ground (arith, r))
step_outcome n fuel txn_id i last f e small clear (inr (k, lt, h, hit, r)) = inr (
  suc k,
  omega arith,
  InUse-cons k i txn_id f clear h,
  ground (arith, hit, Map.contains-assign (i + suc k) i true f.cache),
  ground (arith, r),
)

free_loop_outcome :
    (n fuel txn_id i last : ℕ) (f : FreeList)
    → i + n ≡ last + 1
    → last + 1 < u64_mod
    → n < fuel
    → FreeOutcome n txn_id i f (free_loop fuel txn_id i last f)
free_loop_outcome n zero txn_id i last f e small lt = absurd (omega arith)
free_loop_outcome zero (suc fuel) txn_id i last f e small lt =
    inl (λ p lo hi. absurd (omega arith), unfold free_loop free_run in ground arith)
free_loop_outcome (suc n) (suc fuel) txn_id i last f e small lt =
    elim (Bool-cases (Map.contains i f.cache)) [
      | inl hit ↦ inr (
        0,
        omega arith,
        λ p lo hi. absurd (omega arith),
        ground (arith, hit),
        unfold free_loop free_run in ground (arith, hit),
      )
      | inr clear ↦ step_outcome n fuel txn_id i last f e small clear (
          free_loop_outcome n fuel txn_id (i + 1) last (free_one txn_id i f) (omega arith) small
            (omega arith))
    ]

-- For a page from 2 on that with its overflow pages stays below the greatest 64-bit number `free`
-- ends. It frees the page with all its overflow pages unless one of them was freed before; then it
-- throws for the first such page, and those before it stay freed.
pub free_cases :
    (txn_id pgid overflow : ℕ) (f : FreeList)
    → 2 ≤ pgid
    → pgid + overflow + 1 < u64_mod
    → FreeOutcome (overflow + 1) txn_id pgid f (free txn_id pgid overflow f)
unfolding free
free_cases txn_id pgid overflow f lo hi = ground (
  arith,
  free_loop_outcome (overflow + 1) (overflow + 2) txn_id pgid (pgid + overflow) f (omega arith)
      (omega arith) (omega arith),
)
