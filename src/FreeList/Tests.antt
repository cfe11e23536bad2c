-- ===== src/FreeList/Tests.antt =====
-- Runs of the operations of src/page/freelist.cpp on small objects.
use boltdb_cpp.Base.{
  ℕ, zero, suc, ◌+◌, ◌*◌, ◌≡◌, ◌≤◌, ◌<◌, ◌⊎◌, refl, ap, subst, true, false, ◌||◌, List, [], ◌∷◌,
  ◌++◌, none, some, arith, length, count, ltb, leb, if◌then◌else◌, ◌==◌, All, Ascending, sort,
  merge,
}
use boltdb_cpp.Base.Map
use boltdb_cpp.Page.{Page, page_header_size}
use boltdb_cpp.FreeList.{
  FreeList, already_freed, collect, copy_if, erase_run, sorted_pending_pgids_impl, returns, empty,
  free, free_loop, release, rollback, reindex, allocate_contiguous, find_block, is_freed,
  is_pending, count_ids, special_count, byte_size, free_count,
}
use boltdb_cpp.FreeList.Pages.{IsValid, IsPage, pending_ids}
use boltdb_cpp.FreeList.Outcomes.{Outcome, free_lem}
use boltdb_cpp.FreeList.Effects.{rollback_lem}
use boltdb_cpp.FreeList.Release.{old_ids, release_lem}
use boltdb_cpp.FreeList.Blocks.{run, length-run}
use boltdb_cpp.FreeList.Allocate.{AllocateOutcome, allocate_cases, allocate_disjoint}
use boltdb_cpp.FreeList.History
use boltdb_cpp.FreeList.History.{Reach, start, next, Reach-IsValid}
use boltdb_cpp.Page.Memory.{load, load_bytes}
use boltdb_cpp.Binary.LittleEndian
use boltdb_cpp.FreeList.Spec.{
  Pages, in_use, Call, allocates, frees, releases, rolls_back, Answer, page, done, threw, call,
  calls, SpecRun, ShowsOnly,
}
use boltdb_cpp.FreeList.Spec.Refinement.{calls-SpecRun}
use boltdb_cpp.FreeList.Spec.Progress.{after, pending_page_returns}
use boltdb_cpp.FreeList.Persist.{load_ids, read_from, write_to, reload}
use boltdb_cpp.FreeList.Persist.RoundTrip.{read_from-write_to}
use boltdb_cpp.FreeList.Persist.Bounds.{write_to_overruns}
use boltdb_cpp.FreeList.Persist.Reload.{page_ids, reload_lem, reload_keeps_marks}

-- Transaction 5 has freed the pages 10 to 12.
abbrev freed : FreeList
freed = record {
  ids = [];
  pending = (5, 10 ∷ 11 ∷ 12 ∷ []) ∷ [];
  cache = (10, true) ∷ (11, true) ∷ (12, true) ∷ [];
}

-- They are free.
abbrev released : FreeList
released = record {
  ids = 10 ∷ 11 ∷ 12 ∷ [];
  pending = [];
  cache = (10, true) ∷ (11, true) ∷ (12, true) ∷ [];
}

free_test : free 5 10 2 empty ≡ some (returns tt, freed)
unfolding free free_loop Map.contains Map.alter
free_test = refl

release_test : release 5 freed ≡ released
unfolding release sorted_pending_pgids_impl collect copy_if sort merge Map.erase
release_test = refl

freed-Reach : Reach freed
freed-Reach = next start (History.frees 5 10 2 empty freed (returns tt) (omega arith) free_test)

released-Reach : Reach released
released-Reach = subst Reach release_test (next freed-Reach (History.releases 5 freed))

Reach-IsValid_example : IsValid released
Reach-IsValid_example = Reach-IsValid released-Reach

pages : All IsPage released.ids
pages = ((omega arith, omega arith), ((omega arith, omega arith), ((omega arith, omega arith), tt)))

-- Transaction 5 frees the page 10 with two overflow pages. After its release a block of two pages is asked for,
-- and transaction 6 frees the page 11, which is in use again, and then the page 12, which is still free.
abbrev session : List Call
session = frees 5 10 2 ∷ releases 5 ∷ allocates 2 ∷ frees 6 11 0 ∷ frees 6 12 0 ∷ rolls_back 6 ∷ []

session_test :
    calls session empty
    ≡ some (
      done ∷ done ∷ page 10 ∷ done ∷ threw (already_freed 12) ∷ done ∷ [],
      record { ids = 12 ∷ []; pending = []; cache = (12, true) ∷ [] },
    )
unfolding calls call free free_loop release rollback allocate_contiguous find_block erase_run
    sorted_pending_pgids_impl collect copy_if sort merge Map.find Map.erase Map.contains Map.alter
session_test = refl

calls-SpecRun_example :
    (answers : List Answer) × (f : FreeList) × (σ : Pages) × (calls session empty
      ≡ some (answers, f))
    × SpecRun (λ p. in_use) session answers σ
    × ((p : ℕ) → ShowsOnly f p (σ p))
calls-SpecRun_example =
    calls-SpecRun session (omega arith, (tt, (omega arith, (omega arith, (omega arith, (tt, tt))))))

pending_page_returns_example :
    (k : ℕ) × (k < free_count (release 6 freed))
    × ((allocate_contiguous 1 (after k (release 6 freed))).0 ≡ returns 11)
unfolding is_pending Map.find
pending_page_returns_example = pending_page_returns 5 6 11 freed freed-Reach refl (omega arith)

allocate_cases_example : AllocateOutcome 2 released (allocate_contiguous 2 released)
allocate_cases_example = allocate_cases 2 released (omega arith) pages

abbrev left_over : FreeList
left_over = record { ids = 12 ∷ []; pending = []; cache = (12, true) ∷ [] }

abbrev used_up : FreeList
used_up = record { ids = []; pending = []; cache = [] }

allocate_test : allocate_contiguous 2 released ≡ (returns 10, left_over)
unfolding allocate_contiguous find_block erase_run Map.erase
allocate_test = refl

allocate_again_test : allocate_contiguous 1 left_over ≡ (returns 12, used_up)
unfolding allocate_contiguous find_block erase_run Map.erase
allocate_again_test = refl

allocate_disjoint_example : (10 + 2 ≤ 12) ⊎ (12 + 1 ≤ 10)
allocate_disjoint_example =
    allocate_disjoint 2 1 10 12 released left_over used_up (omega arith) (omega arith)
      (Reach-IsValid released-Reach) allocate_test allocate_again_test (λ e. omega (arith, e))
      (λ e. omega (arith, e))

-- Page 13 is in use.
free_lem_example : Outcome 6 13 0 freed (free 6 13 0 freed)
free_lem_example = free_lem 6 13 0 freed (omega arith, tt) (omega arith)

release_lem_example :
    (is_freed 11 (release 5 freed) ≡ is_freed 11 freed)
    × (is_pending 5 11 (release 5 freed) ≡ (if leb 5 5 then false else is_pending 5 11 freed))
    × (count 11 (release 5 freed).ids ≡ count 11 freed.ids + count 11 (old_ids 5 freed.pending))
release_lem_example = release_lem 5 freed 11 5

rollback_lem_example :
    (is_freed 11 (rollback 5 freed) ≡ (if is_pending 5 11 freed then false else is_freed 11 freed))
    × (is_pending 5 11 (rollback 5 freed) ≡ (if 5 == 5 then false else is_pending 5 11 freed))
    × ((rollback 5 freed).ids ≡ freed.ids)
    × (Map.find 5 (rollback 5 freed).pending ≡ (if 5 == 5 then none else Map.find 5 freed.pending))
rollback_lem_example = rollback_lem 5 freed 11 5

abbrev zeros : ℕ → List ℕ
zeros zero = []
zeros (suc n) = 0 ∷ zeros n

length-zeros : (n : ℕ) → length (zeros n) ≡ n
length-zeros zero = refl
length-zeros (suc n) = ap suc (length-zeros n)

-- A page with room for `n` bytes behind its header.
abbrev blank : ℕ → Page
blank n = record {
  page_size = page_header_size + n;
  pgid = 2;
  flag = 8;
  count = 0;
  overflow = 0;
  body = zeros n;
}

read_from-write_to_example :
    (out : Page) × (g : FreeList) × (write_to released (blank 32) ≡ some out)
    × (read_from out empty ≡ some g)
    × IsValid g
    × (g.pending ≡ [])
    × ((p : ℕ) → count p g.ids ≡ count p released.ids + count p (pending_ids released.pending))
read_from-write_to_example =
    read_from-write_to released (blank 32) (Reach-IsValid released-Reach) (omega arith)
      (omega arith)

-- The page lists the page 20.
abbrev listed : Page
listed = record (blank 8) { count = 1; body = 20 ∷ zeros 7 }

page_ids_test : page_ids listed ≡ some (20 ∷ [])
unfolding load_ids load load_bytes LittleEndian.uint sort
page_ids_test = refl

reload_lem_example :
    (g : FreeList) × (reload listed freed ≡ some g)
    × (g.pending ≡ freed.pending)
    × Ascending 0 g.ids
    × ((p : ℕ)
        → (count p g.ids
            ≡ (if ltb 0 (count p (pending_ids freed.pending)) then 0 else count p (20 ∷ [])))
          × (is_freed p g ≡ (
              ltb 0 (count p (20 ∷ []))
              || ltb 0 (count p (pending_ids freed.pending))
              || is_freed p freed)))
reload_lem_example = reload_lem listed freed (20 ∷ []) page_ids_test

abbrev reloaded : FreeList
reloaded = record released { ids = 20 ∷ []; cache = released.cache ++ ((20, true) ∷ []) }

reload_test : reload listed released ≡ some reloaded
unfolding reload read_from reindex load_ids load load_bytes LittleEndian.uint sort Map.contains
    Map.alter
reload_test = refl

reload_keeps_marks_example :
    (is_freed 11 reloaded ≡ true)
    × (count 11 reloaded.ids ≡ 0)
    × (count 11 (pending_ids reloaded.pending) ≡ 0)
unfolding is_freed Map.contains
reload_keeps_marks_example =
    reload_keeps_marks listed released reloaded (20 ∷ []) 11 page_ids_test reload_test refl refl
      refl

-- As many free pages as the count in a page header cannot tell, and a page with room for `n` bytes.
unfoldable many : ℕ → FreeList
many n = record { ids = run n 2; pending = []; cache = [] }

unfoldable wide : ℕ → Page
wide n = blank n

count-many : (n : ℕ) → count_ids (many n) ≡ n
unfolding many
count-many n = omega (arith, length-run n 2)

byte_size-many : (n : ℕ) → special_count ≤ n → byte_size (many n) ≡ page_header_size + 8 * (n + 1)
unfolding byte_size many
byte_size-many n h = ground (arith, length-run n 2)

length-wide : (n : ℕ) → length (wide n).body ≡ n
unfolding wide
length-wide n = length-zeros n

write_to_overruns_example : write_to (many 0xFFFF) (wide 0x80000) ≡ none
write_to_overruns_example =
    write_to_overruns (many 0xFFFF) (wide 0x80000) (omega (arith, count-many 0xFFFF))
      (omega (arith, byte_size-many 0xFFFF (omega arith), length-wide 0x80000))
