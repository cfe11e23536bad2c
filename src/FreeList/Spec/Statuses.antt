-- ===== src/FreeList/Spec/Statuses.antt =====
-- What each method of src/page/freelist.cpp does to the status that the object shows of a page.
use boltdb_cpp.Base.{
  ℕ, ◌+◌, ◌≤◌, ◌<◌, ◌≡◌, refl, ap, subst, ◌∙◌, inl, inr, true, false, List, [], ◌∷◌, ◌++◌, arith,
  leb, ◌==◌, count, count-append, Bool-cases,
}
use boltdb_cpp.Base.Map
use boltdb_cpp.Base.Map.{Map}
use boltdb_cpp.FreeList.{
  FreeList, u64_mod, release, rollback, is_freed, is_pending, ids_of, contains_id,
}
use boltdb_cpp.FreeList.Pages.{IsValid, contains_id-count}
use boltdb_cpp.FreeList.Free.{free_run}
use boltdb_cpp.FreeList.Outcomes.{ids-free_run}
use boltdb_cpp.FreeList.Effects.{in_range, is_freed-free_run, is_pending-free_run, rollback_lem}
use boltdb_cpp.FreeList.Blocks.{run}
use boltdb_cpp.FreeList.Release.{old_ids, release_lem, release-IsValid}
use boltdb_cpp.FreeList.Allocate.{taken, count_parts, contains-erase_run}
use boltdb_cpp.FreeList.History.{Reach, Reach-IsValid, pending_once}
use boltdb_cpp.FreeList.Spec.{
  PageStatus, in_use, free_page, pending_for, when_released, when_rolled_back, when_in, Shows,
  ShowsOnly,
}

-- A page shows the status `free_page` when it stands among the free ids.
pub listed-Shows :
    (f : FreeList) (p : ℕ) (st : PageStatus)
    → Reach f
    → Shows f p st
    → 0 < count p f.ids
    → st ≡ free_page
listed-Shows f p in_use r h c =
    let e = (Reach-IsValid r).exact p in unfold is_freed in absurd (ground (arith, e, h, c))
listed-Shows f p free_page r h c = refl
listed-Shows f p (pending_for t) r (h, k) c = absurd (omega (arith, (pending_once f t p r k).1, c))

pub unlisted-Shows :
    (f : FreeList) (p : ℕ) (st : PageStatus)
    → Reach f
    → Shows f p st
    → is_freed p f ≡ false
    → st ≡ in_use
unlisted-Shows f p in_use r h c = refl
unlisted-Shows f p free_page r h c = absurd (cc (h.0, c))
unlisted-Shows f p (pending_for t) r h c = absurd (cc (h.0, c))

-- In a state that can be reached the status that fits is the only one.
pub Shows-ShowsOnly :
    (f : FreeList) (p : ℕ) (st : PageStatus) → Reach f → Shows f p st → ShowsOnly f p st
Shows-ShowsOnly f p in_use r h = (
  h,
  (let e = (Reach-IsValid r).exact p in unfold is_freed in ground (arith, e, h)),
  λ t. elim (Bool-cases (is_pending t p f)) [
    | inl q ↦ absurd (cc (h, (pending_once f t p r q).0))
    | inr q ↦ q
  ],
)
Shows-ShowsOnly f p free_page r h = (
  h.0,
  h.1,
  λ t. elim (Bool-cases (is_pending t p f)) [
    | inl q ↦ absurd (omega (arith, h.1, (pending_once f t p r q).1))
    | inr q ↦ q
  ],
)
Shows-ShowsOnly f p (pending_for t) r h =
    let (freed, unlisted, others) = pending_once f t p r h.1 in (freed, unlisted, h.1, others)

pub taken-Shows :
    (n x : ℕ) (a b : List ℕ) (f : FreeList) (v : IsValid f)
    → (e : f.ids ≡ a ++ (run n x ++ b)) → x + n ≤ u64_mod
    → (p : ℕ) (st : PageStatus) → Shows f p st
    → (in_range n x p ≡ true → st ≡ free_page)
    → Shows (taken n x a b f) p (when_in n x in_use p st)
unfolding is_freed is_pending
taken-Shows n x a b f v e fits p st h listed = elim (Bool-cases (in_range n x p)) [
  | inl q ↦ rw q (ground (arith, q, contains-erase_run p n x f.cache fits))
  | inr q ↦ rw q (kept q st h)
]
  where
    kept : in_range n x p ≡ false → (st : PageStatus) → Shows f p st → Shows (taken n x a b f) p st
    kept q in_use h = ground (arith, q, h, contains-erase_run p n x f.cache fits)
    kept q free_page h = (
      ground (arith, q, h, contains-erase_run p n x f.cache fits),
      ground (arith, q, h, count_parts n x a b f v e p),
    )
    kept q (pending_for t) h = (ground (arith, q, h, contains-erase_run p n x f.cache fits), h.1)

pub allocated_listed :
    (n x : ℕ) (a b : List ℕ) (f : FreeList) (v : IsValid f)
    → f.ids ≡ a ++ (run n x ++ b)
    → (p : ℕ) → in_range n x p ≡ true
    → 0 < count p f.ids
allocated_listed n x a b f v e p q = ground (arith, q, count_parts n x a b f v e p)

pub freed-Shows :
    (k t i p : ℕ) (f : FreeList) (st : PageStatus)
    → IsValid f
    → Shows f p st
    → Shows (free_run k t i f) p (when_in k i (pending_for t) p st)
freed-Shows k t i p f st v h = elim (Bool-cases (in_range k i p)) [
  | inl q ↦ rw q (
    ground (arith, q, is_freed-free_run p k t i f),
    ground (arith, q, is_pending-free_run t p k t i f v.keys),
  )
  | inr q ↦ rw q (kept q st h)
]
  where
    kept : in_range k i p ≡ false → (st : PageStatus) → Shows f p st → Shows (free_run k t i f) p st
    kept q in_use h = ground (arith, q, h, is_freed-free_run p k t i f)
    kept q free_page h = (
      ground (arith, q, h, is_freed-free_run p k t i f),
      ap (count p) (ids-free_run k t i f) ∙ h.1,
    )
    kept q (pending_for u) h = (
      ground (arith, q, h, is_freed-free_run p k t i f),
      ground (arith, q, h, is_pending-free_run u p k t i f v.keys),
    )

-- The ids of a transaction that is over are among those that are released.
old_member :
    (p t txn_id : ℕ) (m : Map (List ℕ))
    → contains_id p (ids_of (Map.find t m)) ≡ true
    → leb t txn_id ≡ true
    → 0 < count p (old_ids txn_id m)
unfolding Map.find
old_member p t txn_id [] h k = absurd (cc)
old_member p t txn_id ((u, pgids) ∷ m) h k = ground (
  arith,
  h,
  k,
  old_member p t txn_id m,
  contains_id-count p pgids,
  count-append p pgids (old_ids txn_id m),
  count-append p [] (old_ids txn_id m),
)

pub released-Shows :
    (txn_id p : ℕ) (f : FreeList) (st : PageStatus)
    → IsValid f
    → Shows f p st
    → Shows (release txn_id f) p (when_released txn_id st)
released-Shows txn_id p f in_use v h = (release_lem txn_id f p 0).0 ∙ h
released-Shows txn_id p f free_page v h =
    let (same, _, more) = release_lem txn_id f p 0 in
    let one = (release-IsValid txn_id f v).exact p in (same ∙ h.0, ground (arith, more, h.1, one))
released-Shows txn_id p f (pending_for t) v h = elim (Bool-cases (leb t txn_id)) [
  | inl q ↦
      let (same, _, more) = release_lem txn_id f p t in
      let one = (release-IsValid txn_id f v).exact p in
      let old : 0 < count p (old_ids txn_id f.pending) =
        unfold is_pending in old_member p t txn_id f.pending h.1 q in
      rw q (same ∙ h.0, ground (arith, more, old, one))
  | inr q ↦
      let (same, pend, _) = release_lem txn_id f p t in
      rw q (same ∙ h.0, pend ∙ ground (arith, q, h.1))
]

pub rolled_back-Shows :
    (txn_id p : ℕ) (f : FreeList) (st : PageStatus)
    → Reach f
    → Shows f p st
    → Shows (rollback txn_id f) p (when_rolled_back txn_id st)
unfolding rollback
rolled_back-Shows txn_id p f in_use r h = ground (arith, h, rollback_lem txn_id f p 0)
rolled_back-Shows txn_id p f free_page r h = elim (Bool-cases (is_pending txn_id p f)) [
  | inl q ↦ absurd (omega (arith, h.1, (pending_once f txn_id p r q).1))
  | inr q ↦ (ground (arith, h, q, rollback_lem txn_id f p 0), h.1)
]
rolled_back-Shows txn_id p f (pending_for t) r h = elim (Bool-cases (t == txn_id)) [
  | inl q ↦
      let same : t ≡ txn_id = ground (arith, q) in
      rw q (
        ground (arith, q, subst (λ u. is_pending u p f ≡ true) same h.1, rollback_lem txn_id f p t))
  | inr q ↦
      let other : is_pending txn_id p f ≡ false =
        (pending_once f t p r h.1).2 txn_id (λ e. ground (arith, e, q)) in
      rw q (
        ground (arith, q, h, other, rollback_lem txn_id f p t),
        ground (arith, q, h, other, rollback_lem txn_id f p t),
      )
]
