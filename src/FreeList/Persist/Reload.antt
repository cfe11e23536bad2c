-- ===== src/FreeList/Persist/Reload.antt =====
-- What `FreeList::reload` of src/page/freelist.cpp makes of the ids on a page.
use boltdb_cpp.Base.{
  ℕ, ◌≡◌, refl, Bool, true, ◌||◌, List, [], ◌∷◌, Option, none, some, ◌>>=◌, arith, ltb, ◌==◌,
  if◌then◌else◌, count, count-append, count-sort, sort, sort-Ascending, Ascending, Ascending-mono,
  All_of_count,
}
use boltdb_cpp.Base.Map
use boltdb_cpp.Base.Map.{Map}
use boltdb_cpp.Page.{Page}
use boltdb_cpp.FreeList.{FreeList, is_freed, reindex, mark, mark_pending}
use boltdb_cpp.FreeList.Pages.{pending_ids}
use boltdb_cpp.FreeList.Persist.{read_count, load_ids, read_from, reload, keep_absent}
use boltdb_cpp.FreeList.Persist.RoundTrip.{contains-mark}

contains-mark_pending :
    (p : ℕ) (cache : Map Bool) (m : Map (List ℕ))
    → Map.contains p (mark_pending cache m)
      ≡ (if ltb 0 (count p (pending_ids m)) then true else Map.contains p cache)
contains-mark_pending p cache [] = refl
contains-mark_pending p cache ((t, pgids) ∷ m) = ground (
  arith,
  contains-mark_pending p (mark cache pgids) m,
  contains-mark p pgids cache,
  count-append p pgids (pending_ids m),
)

count-keep_absent :
    (p : ℕ) (pcache : Map Bool) (xs : List ℕ)
    → count p (keep_absent pcache xs) ≡ (if Map.contains p pcache then 0 else count p xs)
count-keep_absent p pcache [] = ground arith
count-keep_absent p pcache (x ∷ xs) = ground (arith, count-keep_absent p pcache xs)

keep_absent-Ascending :
    (lo : ℕ) (pcache : Map Bool) (xs : List ℕ)
    → Ascending lo xs
    → Ascending lo (keep_absent pcache xs)
keep_absent-Ascending lo pcache [] a = tt
keep_absent-Ascending lo pcache (x ∷ xs) a =
    ground
      (arith, keep_absent-Ascending x pcache xs a.1, Ascending-mono x lo (keep_absent pcache xs))

-- The ids that a page holds, as `read_from` finds them.
abbrev pub page_ids : Page → Option (List ℕ)
page_ids page = do
  (count, base) ← read_count page
  if count == 0 then some [] else load_ids count base page.body

-- Reading keeps the pending ids, and its marks are added to those of the object.
abbrev after_read : List ℕ → FreeList → FreeList
after_read ids f = reindex (record f { ids = sort ids })

bind_ids :
    (o : Option (ℕ × ℕ)) (k : ℕ × ℕ → Option (List ℕ)) (ids : List ℕ) (f : FreeList)
    → (o >>= k) ≡ some ids
    → (o >>= λ c. (k c >>= λ l. some (after_read l f))) ≡ some (after_read ids f)
bind_ids none k ids f e = cc
bind_ids (some c) k ids f e = rw e

read_from-page_ids :
    (page : Page) (f : FreeList) (ids : List ℕ)
    → page_ids page ≡ some ids
    → read_from page f ≡ some (after_read ids f)
unfolding read_from
read_from-page_ids page f ids e = bind_ids (read_count page) _ ids f e

is_freed-reindex :
    (p : ℕ) (f : FreeList)
    → is_freed p (reindex f)
      ≡ (ltb 0 (count p f.ids) || ltb 0 (count p (pending_ids f.pending)) || is_freed p f)
unfolding is_freed reindex
is_freed-reindex p f =
    ground
      (arith, contains-mark_pending p (mark f.cache f.ids) f.pending, contains-mark p f.ids f.cache)

abbrev kept_ids : List ℕ → FreeList → List ℕ
kept_ids ids f = keep_absent (mark_pending [] f.pending) (sort ids)

count-kept_ids :
    (p : ℕ) (ids : List ℕ) (f : FreeList)
    → count p (kept_ids ids f)
      ≡ (if ltb 0 (count p (pending_ids f.pending)) then 0 else count p ids)
unfolding Map.contains
count-kept_ids p ids f = ground (
  arith,
  count-keep_absent p (mark_pending [] f.pending) (sort ids),
  contains-mark_pending p [] f.pending,
  count-sort p ids,
)

abbrev after_reload : List ℕ → FreeList → FreeList
after_reload ids f = reindex (record (after_read ids f) { ids = kept_ids ids f })

is_freed-after_reload :
    (p : ℕ) (ids : List ℕ) (f : FreeList)
    → is_freed p (after_reload ids f)
      ≡ (ltb 0 (count p ids) || ltb 0 (count p (pending_ids f.pending)) || is_freed p f)
unfolding reindex is_freed
is_freed-after_reload p ids f = ground (
  arith,
  is_freed-reindex p (record (after_read ids f) { ids = kept_ids ids f }),
  is_freed-reindex p (record f { ids = sort ids }),
  count-kept_ids p ids f,
  count-sort p ids,
)

-- `reload` from a page whose ids can be read gives these ids, in ascending order, without those
-- that are pending. It leaves the pending ids alone; `is_freed` then holds of the ids of the page,
-- of the pending ones and of all of which it held before.
pub reload_lem :
    (page : Page) (f : FreeList) (ids : List ℕ)
    → page_ids page ≡ some ids
    → (g : FreeList) × (reload page f ≡ some g)
      × (g.pending ≡ f.pending)
      × Ascending 0 g.ids
      × ((p : ℕ)
          → (count p g.ids ≡ (if ltb 0 (count p (pending_ids f.pending)) then 0 else count p ids))
            × (is_freed p g
                ≡ (ltb 0 (count p ids) || ltb 0 (count p (pending_ids f.pending)) || is_freed p f)))
unfolding reload reindex
reload_lem page f ids e = (
  after_reload ids f,
  rw (read_from-page_ids page f ids e),
  refl,
  keep_absent-Ascending 0 _ (sort ids)
      (sort-Ascending 0 ids (All_of_count _ ids (λ p h. omega arith))),
  λ p. (count-kept_ids p ids f, is_freed-after_reload p ids f),
)

-- A page of which `is_freed` holds, that is not pending and that the page which is read does not
-- list, is still reported as freed after `reload`, though it is neither free nor pending: the marks
-- are not cleared.
pub reload_keeps_marks :
    (page : Page) (f g : FreeList) (ids : List ℕ) (p : ℕ)
    → page_ids page ≡ some ids
    → reload page f ≡ some g
    → is_freed p f ≡ true
    → count p ids ≡ 0
    → count p (pending_ids f.pending) ≡ 0
    → (is_freed p g ≡ true) × (count p g.ids ≡ 0) × (count p (pending_ids g.pending) ≡ 0)
reload_keeps_marks page f g ids p e q was gone idle =
    let (g', r, keeps, _, at) = reload_lem page f ids e in
    let same : g' ≡ g = cc (q, r) in ground (arith, same, keeps, was, gone, idle, at p)
