-- ===== src/FreeList/Spec.antt =====
-- What a FreeList (include/boltdb/page/freelist.hpp) promises, without its vectors and maps: every page is in
-- use, free, or pending for one transaction, and a call moves pages from one status to another.
pub mod Statuses
pub mod Blocks
pub mod Refinement
pub mod Progress
use boltdb_cpp.Base.{
  List, [], ◌∷◌, Option, some, ◌>>=◌, ◌<◌, ℕ, ◌+◌, ◌≡◌, ◌≢◌, ◌≤◌, Bool, true, false, leb, ◌==◌,
  if◌then◌else◌, count,
}
use boltdb_cpp.FreeList.{
  FreeList, Result, returns, throws, Exception, already_freed, cannot_free, u64_mod,
  allocate_contiguous, free, release, rollback, is_freed, is_pending,
}
use boltdb_cpp.FreeList.Effects.{in_range}

pub data PageStatus : Type 0 where
  in_use : PageStatus
  free_page : PageStatus
  pending_for : ℕ → PageStatus

abbrev pub Pages : Type 0
Pages = ℕ → PageStatus

-- When a transaction and those before it are over, what they had freed can be used again.
abbrev pub when_released : ℕ → PageStatus → PageStatus
when_released txn_id in_use = in_use
when_released txn_id free_page = free_page
when_released txn_id (pending_for t) = if leb t txn_id then free_page else pending_for t

-- When a transaction is taken back, what it had freed is in use.
abbrev pub when_rolled_back : ℕ → PageStatus → PageStatus
when_rolled_back txn_id in_use = in_use
when_rolled_back txn_id free_page = free_page
when_rolled_back txn_id (pending_for t) = if t == txn_id then in_use else pending_for t

abbrev pub when_in : ℕ → ℕ → PageStatus → ℕ → PageStatus → PageStatus
when_in n x new p old = if in_range n x p then new else old

-- The calls that transactions make, and what they are told.
pub data Call : Type 0 where
  allocates : ℕ → Call
  frees : ℕ → ℕ → ℕ → Call
  releases : ℕ → Call
  rolls_back : ℕ → Call

pub data Answer : Type 0 where
  page : ℕ → Answer
  done : Answer
  threw : Exception → Answer

-- The calls on statuses alone, each with its answer. A request is answered by a page from 2 on with which
-- a block starts that is free, and is refused with 0 only when no block of that size is free. A page is
-- freed with its overflow pages when all are in use; the first one that is not is reported, and those
-- ahead of it stay freed; a meta page is not freed.
pub data SpecStep (σ : Pages) : Call → Answer → Pages → Type 0 where
  may_allocate :
      (n x : ℕ)
      → 2 ≤ x
      → ((p : ℕ) → in_range n x p ≡ true → σ p ≡ free_page)
      → SpecStep σ (allocates n) (page x) (λ p. when_in n x in_use p (σ p))
  may_refuse :
      (n : ℕ)
      → ((x : ℕ) → ¬ ((p : ℕ) → in_range n x p ≡ true → σ p ≡ free_page))
      → SpecStep σ (allocates n) (page 0) σ
  may_free :
      (txn_id x overflow : ℕ)
      → 2 ≤ x
      → ((p : ℕ) → in_range (overflow + 1) x p ≡ true → σ p ≡ in_use)
      → SpecStep σ
          (frees txn_id x overflow)
          done
          (λ p. when_in (overflow + 1) x (pending_for txn_id) p (σ p))
  may_stop_freeing :
      (txn_id x overflow k : ℕ)
      → 2 ≤ x
      → k ≤ overflow
      → ((p : ℕ) → in_range k x p ≡ true → σ p ≡ in_use)
      → σ (x + k) ≢ in_use
      → SpecStep σ
          (frees txn_id x overflow)
          (threw (already_freed (x + k)))
          (λ p. when_in k x (pending_for txn_id) p (σ p))
  may_reject :
      (txn_id x overflow : ℕ)
      → x ≤ 1
      → SpecStep σ (frees txn_id x overflow) (threw (cannot_free x)) σ
  may_release : (txn_id : ℕ) → SpecStep σ (releases txn_id) done (λ p. when_released txn_id (σ p))
  may_roll_back :
      (txn_id : ℕ) → SpecStep σ (rolls_back txn_id) done (λ p. when_rolled_back txn_id (σ p))

-- A sequence of calls, with the answer to each.
pub data SpecRun : Pages → List Call → List Answer → Pages → Type 0 where
  no_calls : {σ : Pages} → SpecRun σ [] [] σ
  then_step :
      {σ τ υ : Pages} {c : Call} {a : Answer} {cs : List Call} {answers : List Answer}
      → SpecStep σ c a τ
      → SpecRun τ cs answers υ
      → SpecRun σ (c ∷ cs) (a ∷ answers) υ

-- The same calls on the object.
abbrev answer : Result ℕ → Answer
answer (returns x) = page x
answer (throws e) = threw e

abbrev outcome : Result (Unit {0}) → Answer
outcome (returns x) = done
outcome (throws e) = threw e

unfoldable pub call : Call → FreeList → Option (Answer × FreeList)
call (allocates n) f = let (r, g) = allocate_contiguous n f in some (answer r, g)
call (frees txn_id pgid overflow) f = do (r, g) ← free txn_id pgid overflow f; some (outcome r, g)
call (releases txn_id) f = some (done, release txn_id f)
call (rolls_back txn_id) f = some (done, rollback txn_id f)

unfoldable pub calls : List Call → FreeList → Option (List Answer × FreeList)
calls [] f = some ([], f)
calls (c ∷ cs) f = do (a, g) ← call c f; (answers, h) ← calls cs g; some (a ∷ answers, h)

-- A request is for at least one page, and the pages that are freed stay below the greatest 64-bit number.
abbrev pub Proper : Call → Type 0
Proper (allocates n) = 0 < n
Proper (frees txn_id pgid overflow) = pgid + overflow + 1 < u64_mod
Proper (releases txn_id) = Unit {0}
Proper (rolls_back txn_id) = Unit {0}

-- How the object shows the status of a page.
abbrev pub Shows : FreeList → ℕ → PageStatus → Type 0
Shows f p in_use = is_freed p f ≡ false
Shows f p free_page = (is_freed p f ≡ true) × (count p f.ids ≡ 1)
Shows f p (pending_for t) = (is_freed p f ≡ true) × (is_pending t p f ≡ true)

abbrev pub Represents : FreeList → Pages → Type 0
Represents f σ = (p : ℕ) → Shows f p (σ p)

-- What all methods together show of it: there is one status that fits.
abbrev pub ShowsOnly : FreeList → ℕ → PageStatus → Type 0
ShowsOnly f p in_use =
    (is_freed p f ≡ false) × (count p f.ids ≡ 0) × ((t : ℕ) → is_pending t p f ≡ false)
ShowsOnly f p free_page =
    (is_freed p f ≡ true) × (count p f.ids ≡ 1) × ((t : ℕ) → is_pending t p f ≡ false)
ShowsOnly f p (pending_for t) =
    (is_freed p f ≡ true)
    × (count p f.ids ≡ 0)
    × (is_pending t p f ≡ true)
    × ((u : ℕ) → u ≢ t → is_pending u p f ≡ false)
