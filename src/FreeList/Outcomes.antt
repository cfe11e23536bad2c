-- ===== src/FreeList/Outcomes.antt =====
-- What a caller sees of `FreeList::free` (src/page/freelist.cpp): its result, and the pages before and after.
use boltdb_cpp.Base.{
  ℕ, zero, suc, ◌+◌, ◌≤◌, ◌<◌, ◌≡◌, refl, ◌⊎◌, inl, inr, true, false, ◌&&◌, ◌||◌, Option, some,
  arith, leb, ◌==◌, if◌then◌else◌, count, Bool-cases,
}
use boltdb_cpp.Base.Map.{KeysFrom}
use boltdb_cpp.FreeList.{
  FreeList, Result, returns, throws, already_freed, cannot_free, u64_mod, free_one, free, is_freed,
  is_pending,
}
use boltdb_cpp.FreeList.Pages.{pending_ids, count-push}
use boltdb_cpp.FreeList.Free.{free_run, InUse, free_cases}
use boltdb_cpp.FreeList.Effects.{in_range, is_freed-free_run, is_pending-free_run}

-- The `n` pages from `i` on are pending for the transaction, once each; nothing else has changed.
pub record Freed (n txn_id i : ℕ) (f g : FreeList) : Type 0 where
  pub same_ids : g.ids ≡ f.ids
  pub marked : (p : ℕ) → is_freed p g ≡ (in_range n i p || is_freed p f)
  pub now_pending :
      (t p : ℕ) → is_pending t p g ≡ ((txn_id == t && in_range n i p) || is_pending t p f)
  pub once_more :
      (p : ℕ)
      → count p (pending_ids g.pending)
        ≡ (if in_range n i p then 1 else 0) + count p (pending_ids f.pending)

-- None of the `n` pages from `i` on is free or pending.
abbrev pub NotFreed : ℕ → ℕ → FreeList → Type 0
NotFreed n i f = (p : ℕ) → in_range n i p ≡ true → is_freed p f ≡ false

-- The branches of `free`: a meta page is refused; all pages are freed; or one of them was freed before.
abbrev pub Outcome : ℕ → ℕ → ℕ → FreeList → Option (Result (Unit {0}) × FreeList) → Type 0
Outcome txn_id pgid overflow f r =
    ((pgid ≤ 1) × (r ≡ some (throws (cannot_free pgid), f)))
    ⊎ ((2 ≤ pgid)
        × NotFreed (overflow + 1) pgid f
        × ((g : FreeList) × (r ≡ some (returns tt, g)) × Freed (overflow + 1) txn_id pgid f g))
    ⊎ ((2 ≤ pgid)
        × ((k : ℕ) × (g : FreeList) × (k ≤ overflow)
            × NotFreed k pgid f
            × (is_freed (pgid + k) f ≡ true)
            × (r ≡ some (throws (already_freed (pgid + k)), g))
            × Freed k txn_id pgid f g))

pub ids-free_run : (k t i : ℕ) (f : FreeList) → (free_run k t i f).ids ≡ f.ids
unfolding free_run
ids-free_run zero t i f = refl
ids-free_run (suc k) t i f = ids-free_run k t (i + 1) (free_one t i f)

count-free_run :
    (p k t i : ℕ) (f : FreeList)
    → count p (pending_ids (free_run k t i f).pending)
      ≡ (if in_range k i p then 1 else 0) + count p (pending_ids f.pending)
unfolding free_run
count-free_run p zero t i f = ground arith
count-free_run p (suc k) t i f =
    ground (arith, count-free_run p k t (i + 1) (free_one t i f), count-push p t i f.pending)

pub free_run-Freed :
    (n txn_id i : ℕ) (f : FreeList)
    → KeysFrom 0 f.pending
    → Freed n txn_id i f (free_run n txn_id i f)
free_run-Freed n txn_id i f k = record {
  same_ids = ids-free_run n txn_id i f;
  marked = λ p. is_freed-free_run p n txn_id i f;
  now_pending = λ t p. is_pending-free_run t p n txn_id i f k;
  once_more = λ p. count-free_run p n txn_id i f;
}

pub InUse-NotFreed : (n i : ℕ) (f : FreeList) → InUse n i f → NotFreed n i f
unfolding is_freed
InUse-NotFreed n i f h p q = h p (ground (arith, q)) (ground (arith, q))

-- Where the page with its overflow pages stays below the greatest 64-bit number, and no transaction has two
-- entries, `free` ends on every branch. For a meta page it throws and changes nothing. If none of the pages
-- was freed before, all of them become pending for the transaction, once each. Otherwise it throws for the
-- first one that was, and only the pages ahead of it have become pending. The free ids, and what was
-- pending, stay.
pub free_lem :
    (txn_id pgid overflow : ℕ) (f : FreeList)
    → KeysFrom 0 f.pending
    → pgid + overflow + 1 < u64_mod
    → Outcome txn_id pgid overflow f (free txn_id pgid overflow f)
free_lem txn_id pgid overflow f keys small = elim (Bool-cases (leb pgid 1)) [
  | inl low ↦ inl (ground (arith, low), unfold free in rw low refl)
  | inr page ↦ elim (free_cases txn_id pgid overflow f (ground (arith, page)) small) [
    | inl (used, q) ↦ inr (
        inl (
          ground (arith, page),
          InUse-NotFreed (overflow + 1) pgid f used,
          (
            free_run (overflow + 1) txn_id pgid f,
            q,
            free_run-Freed (overflow + 1) txn_id pgid f keys,
          ),
        ))
    | inr (k, lt, used, hit, q) ↦ inr (
        inr (
          ground (arith, page),
          (
            k,
            free_run k txn_id pgid f,
            omega (arith, lt),
            InUse-NotFreed k pgid f used,
            unfold is_freed in hit,
            q,
            free_run-Freed k txn_id pgid f keys,
          ),
        ))
  ]
]
