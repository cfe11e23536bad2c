-- ===== src/FreeList/Spec/Refinement.antt =====
-- The methods of src/page/freelist.cpp do, and answer, what the statuses of the pages say.
use boltdb_cpp.Base.{
  ℕ, ◌+◌, ◌<◌, ◌≡◌, ◌≢◌, refl, subst, inl, inr, true, List, [], ◌∷◌, some, arith, leb, Bool-cases,
  All,
}
use boltdb_cpp.Base.Map
use boltdb_cpp.Base.Map.{Map}
use boltdb_cpp.FreeList.{
  FreeList, Result, empty, returns, throws, already_freed, cannot_free, u64_mod, free, release,
  rollback, is_freed,
}
use boltdb_cpp.FreeList.Free.{free_cases, free_run, InUse}
use boltdb_cpp.FreeList.Effects.{in_range}
use boltdb_cpp.FreeList.Allocate.{taken, allocate_cases, block_fits}
use boltdb_cpp.FreeList.History
use boltdb_cpp.FreeList.History.{Reach, start, next, Reach-IsValid}
use boltdb_cpp.FreeList.Spec.Blocks.{has_block}
use boltdb_cpp.FreeList.Spec.{
  in_use, free_page, pending_for, Pages, when_released, when_rolled_back, when_in, Call, allocates,
  frees, releases, rolls_back, Answer, page, done, threw, SpecStep, may_allocate, may_refuse,
  may_free, may_stop_freeing, may_reject, may_release, may_roll_back, SpecRun, no_calls, then_step,
  call, calls, Proper, Shows, ShowsOnly, Represents,
}
use boltdb_cpp.FreeList.Spec.Statuses.{
  Shows-ShowsOnly, listed-Shows, unlisted-Shows, taken-Shows, allocated_listed, freed-Shows,
  released-Shows, rolled_back-Shows,
}

-- A call ends, and its answer and the object that it leaves are those of a step on the statuses.
abbrev pub Follows : Pages → Call → FreeList → Type 0
Follows σ c f =
    (a : Answer) × (g : FreeList) × (τ : Pages) × (call c f ≡ some (a, g))
    × Reach g
    × SpecStep σ c a τ
    × Represents g τ

allocate-Follows :
    (n : ℕ) (f : FreeList) (σ : Pages)
    → 0 < n
    → Reach f
    → Represents f σ
    → Follows σ (allocates n) f
unfolding call
allocate-Follows n f σ pos r h =
    let v = Reach-IsValid r in
    let reached = next r (History.allocates n f pos) in
    elim (allocate_cases n f pos v.free_pages) [
      | inl (x, a, b, (from_2, below), e, q) ↦
          let listed : (p : ℕ) → in_range n x p ≡ true → σ p ≡ free_page =
            λ p i. listed-Shows f p (σ p) r (h p) (allocated_listed n x a b f v e p i) in
          let fits = block_fits n x a b f v e (from_2, below) in
          (
            page x,
            taken n x a b f,
            λ p. when_in n x in_use p (σ p),
            rw q refl,
            subst (λ (o : Result ℕ × FreeList). Reach o.1) q reached,
            may_allocate n x from_2 listed,
            λ p. taken-Shows n x a b f v e fits p (σ p) (h p) (listed p),
          )
      | inr (none_left, q) ↦
          let refused : (x : ℕ) → ¬ ((p : ℕ) → in_range n x p ≡ true → σ p ≡ free_page) =
            λ x all_free.
              let (a, b, e) =
                has_block n x 2 f.ids pos v.sorted (λ p. ground (arith, v.exact p))
                  (λ p i. omega (arith, (subst (Shows f p) (all_free p i) (h p)).1)) in
              none_left a b x e in
          (page 0, f, σ, rw q refl, r, may_refuse n refused, h)
    ]

module _ (k txn_id i : ℕ) (f : FreeList) (σ : Pages) (r : Reach f) (h : Represents f σ)
    (used : InUse k i f) where
  were_used : (p : ℕ) → in_range k i p ≡ true → σ p ≡ in_use
  unfolding is_freed
  were_used p q = unlisted-Shows f p (σ p) r (h p) (used p (ground (arith, q)) (ground (arith, q)))

  run-Represents :
      Represents (free_run k txn_id i f) (λ p. when_in k i (pending_for txn_id) p (σ p))
  run-Represents p = freed-Shows k txn_id i p f (σ p) (Reach-IsValid r) (h p)

  stopped : Map.contains (i + k) f.cache ≡ true → σ (i + k) ≢ in_use
  unfolding is_freed
  stopped hit e = let unused = subst (Shows f (i + k)) e (h (i + k)) in cc (hit, unused)

free-Follows :
    (txn_id pgid overflow : ℕ) (f : FreeList) (σ : Pages)
    → pgid + overflow + 1 < u64_mod
    → Reach f
    → Represents f σ
    → Follows σ (frees txn_id pgid overflow) f
unfolding call
free-Follows txn_id pgid overflow f σ small r h = elim (Bool-cases (leb pgid 1)) [
  | inl low ↦
      let run : free txn_id pgid overflow f ≡ some (throws (cannot_free pgid), f) =
        unfold free in rw low refl in
      (
        threw (cannot_free pgid),
        f,
        σ,
        rw run refl,
        r,
        may_reject txn_id pgid overflow (ground (arith, low)),
        h,
      )
  | inr high ↦ elim (free_cases txn_id pgid overflow f (ground (arith, high)) small) [
    | inl (used, q) ↦ (
      done,
      free_run (overflow + 1) txn_id pgid f,
      λ p. when_in (overflow + 1) pgid (pending_for txn_id) p (σ p),
      rw q refl,
      next r (History.frees txn_id pgid overflow f _ (returns tt) small q),
      may_free txn_id pgid overflow (ground (arith, high))
          (were_used (overflow + 1) txn_id pgid f σ r h used),
      run-Represents (overflow + 1) txn_id pgid f σ r h used,
    )
    | inr (k, lt, used, hit, q) ↦ (
      threw (already_freed (pgid + k)),
      free_run k txn_id pgid f,
      λ p. when_in k pgid (pending_for txn_id) p (σ p),
      rw q refl,
      next r (History.frees txn_id pgid overflow f _ (throws (already_freed (pgid + k))) small q),
      may_stop_freeing txn_id pgid overflow k (ground (arith, high)) (omega (arith, lt))
          (were_used k txn_id pgid f σ r h used) (stopped k txn_id pgid f σ r h used hit),
      run-Represents k txn_id pgid f σ r h used,
    )
  ]
]

pub call-Follows :
    (c : Call) (f : FreeList) (σ : Pages) → Proper c → Reach f → Represents f σ → Follows σ c f
call-Follows (allocates n) f σ pos r h = allocate-Follows n f σ pos r h
call-Follows (frees txn_id pgid overflow) f σ small r h =
    free-Follows txn_id pgid overflow f σ small r h
call-Follows (releases txn_id) f σ ok r h = (
  done,
  release txn_id f,
  λ p. when_released txn_id (σ p),
  unfold call in refl,
  next r (History.releases txn_id f),
  may_release txn_id,
  λ p. released-Shows txn_id p f (σ p) (Reach-IsValid r) (h p),
)
call-Follows (rolls_back txn_id) f σ ok r h = (
  done,
  rollback txn_id f,
  λ p. when_rolled_back txn_id (σ p),
  unfold call in refl,
  next r (History.rolls_back txn_id f),
  may_roll_back txn_id,
  λ p. rolled_back-Shows txn_id p f (σ p) r (h p),
)

calls-SpecRun_from :
    (cs : List Call) (f : FreeList) (σ : Pages)
    → All Proper cs
    → Reach f
    → Represents f σ
    → (answers : List Answer) × (g : FreeList) × (τ : Pages) × (calls cs f ≡ some (answers, g))
      × Reach g
      × SpecRun σ cs answers τ
      × Represents g τ
unfolding calls
calls-SpecRun_from [] f σ ok r h = ([], f, σ, refl, r, no_calls, h)
calls-SpecRun_from (c ∷ cs) f σ (proper, ok) r h =
    let (a, g, τ, here, reached, step, shown) = call-Follows c f σ proper r h in
    let (answers, k, υ, there, final, run, last) = calls-SpecRun_from cs g τ ok reached shown in
    (a ∷ answers, k, υ, rw here (rw there refl), final, then_step step run, last)

-- Every sequence of `allocate_contiguous`, `free`, `release` and `rollback` on an object of the default
-- constructor ends. Its answers, one for each call, are those that the promise allows for these calls from
-- all pages in use on, and the object then shows each page with the status that the promise gives
-- it, and with no other. The requests are for at least one page, and the pages that are freed stay
-- below the greatest 64-bit number.
pub calls-SpecRun :
    (cs : List Call)
    → All Proper cs
    → (answers : List Answer) × (f : FreeList) × (σ : Pages) × (calls cs empty ≡ some (answers, f))
      × SpecRun (λ p. in_use) cs answers σ
      × ((p : ℕ) → ShowsOnly f p (σ p))
unfolding is_freed
calls-SpecRun cs ok =
    let (answers, f, σ, e, r, run, h) =
      calls-SpecRun_from cs empty (λ p. in_use) ok start (λ p. unfold Map.contains in refl) in
    (answers, f, σ, e, run, λ p. Shows-ShowsOnly f p (σ p) r (h p))
