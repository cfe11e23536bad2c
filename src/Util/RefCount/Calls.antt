-- ===== src/Util/RefCount/Calls.antt =====
-- The calls of src/util/ref_count.cpp, and what they keep of the counters.
use boltdb_cpp.Base.{
  length-set, set-set, entry-set_self, entry-set_other, entry-append, entry-snoc, ℕ, ◌+◌, ◌-◌, ◌<◌,
  ◌≡◌, ◌≢◌, refl, sym, subst, ◌∙◌, inl, inr, List, [], ◌∷◌, ◌++◌, Option, none, some, ◌==◌, length,
  set, arith, Bool-cases,
}
use boltdb_cpp.Util.RefCount.{
  RefCounts, counter, pointer, decrease, decrease_and_try_release, copy_from, move_from, reset,
  declare, Call, construct, copy, move, copy_assign, move_assign, renew, destroy, run,
}
use boltdb_cpp.Util.RefCount.Owners.{
  IsValid, overwritten, released, released-IsValid, new_counter, shared_counter, moved_counter,
  uses-append,
}

-- The objects of a call are alive.
abbrev pub InBounds : Call → RefCounts → Type 0
InBounds construct s = Unit {0}
InBounds (copy other) s = other < length s.owners
InBounds (move other) s = other < length s.owners
InBounds (copy_assign o other) s = (o < length s.owners) × (other < length s.owners)
InBounds (move_assign o other) s = (o < length s.owners) × (other < length s.owners)
InBounds (renew o) s = o < length s.owners
InBounds (destroy o) s = o < length s.owners

abbrev with_owners : List ℕ → List (Option ℕ) → RefCounts
with_owners counts owners = record { counts = counts; owners = owners }

reset-IsValid : (o : ℕ) (s : RefCounts) → o < length s.owners → IsValid s → IsValid (reset o s)
unfolding reset
reset-IsValid o s h v =
    let s' = decrease_and_try_release o s in
    subst (λ ps. IsValid (with_owners (s'.counts ++ (1 ∷ [])) ps))
      (sym (overwritten o (some (length s'.counts)) s))
      (new_counter o (released o s) (omega (arith, length-set s.owners o none))
        (entry-set_self none s.owners o none h) (released-IsValid o s h v))

pub uses-declare : (s : RefCounts) → IsValid s → IsValid (declare s)
uses-declare s v d = omega (arith, v d, uses-append d s.owners (none ∷ []))

pub length-declare : (s : RefCounts) → length (declare s).owners ≡ length s.owners + 1
length-declare s = go s.owners
  where
    go : (ps : List (Option ℕ)) → length (ps ++ (none ∷ [])) ≡ length ps + 1
    go [] = omega arith
    go (p ∷ ps) = omega (arith, go ps)

-- After the call, if there is one, the state is valid.
abbrev pub Keeps : Option RefCounts → Type 0
Keeps none = Unit {0}
Keeps (some s) = IsValid s

copy_from-IsValid :
    (o other : ℕ) (s t : RefCounts)
    → t.counts ≡ s.counts
    → ((q : Option ℕ) → set s.owners o q ≡ set t.owners o q)
    → pointer s.owners other ≡ pointer t.owners other
    → o < length t.owners
    → pointer t.owners o ≡ none
    → IsValid t
    → Keeps (copy_from o other s)
unfolding copy_from
copy_from-IsValid o other s t same over seen h e v = go (pointer s.owners other) refl
  where
    go :
        (p : Option ℕ)
        → pointer s.owners other ≡ p
        → Keeps (elim p [
          | none ↦ none
          | some c ↦ some (record s {
            counts = set s.counts c (counter s.counts c + 1);
            owners = set s.owners o (some c);
          })
        ])
    go none k = tt
    go (some c) k =
        subst (λ ns. IsValid (with_owners (set ns c (counter ns c + 1)) (set s.owners o (some c))))
          same
          (subst (λ ps. IsValid (with_owners (set t.counts c (counter t.counts c + 1)) ps))
            (sym (over (some c))) (shared_counter o c other t h e (sym seen ∙ k) v))

pub others_kept :
    (o other : ℕ) (s : RefCounts)
    → o ≢ other
    → pointer (decrease_and_try_release o s).owners other ≡ pointer (released o s).owners other
unfolding decrease_and_try_release
others_kept o other s ne = go (pointer s.owners o)
  where
    go :
        (p : Option ℕ) → pointer (decrease o p s).owners other ≡ pointer (set s.owners o none) other
    go none = sym (entry-set_other none s.owners o other none ne)
    go (some c) = elim (Bool-cases (counter s.counts c - 1 == 0)) [
      | inl e ↦ rw e refl
      | inr e ↦ rw e (sym (entry-set_other none s.owners o other none ne))
    ]

pub run-IsValid : (call : Call) (s : RefCounts) → InBounds call s → IsValid s → Keeps (run call s)
unfolding run move_from
run-IsValid construct s h v =
    reset-IsValid (length s.owners) (declare s) (omega (arith, length-declare s)) (uses-declare s v)
run-IsValid (copy other) s h v =
    copy_from-IsValid (length s.owners) other (declare s) (declare s) refl (λ q. refl) refl
      (omega (arith, length-declare s)) (entry-snoc none s.owners none) (uses-declare s v)
run-IsValid (move other) s h v =
    moved_counter (length s.owners) other (declare s) (omega (arith, length-declare s))
      (omega (arith, length-declare s)) (entry-snoc none s.owners none) (uses-declare s v)
run-IsValid (copy_assign o other) s (h, k) v = elim (Bool-cases (o == other)) [
  | inl e ↦ rw e v
  | inr e ↦ rw e (
      copy_from-IsValid o other (decrease_and_try_release o s) (released o s) refl
        (λ q. overwritten o q s) (others_kept o other s (ground (arith, e)))
        (omega (arith, length-set s.owners o none)) (entry-set_self none s.owners o none h)
        (released-IsValid o s h v))
]
run-IsValid (move_assign o other) s (h, k) v = elim (Bool-cases (o == other)) [
  | inl e ↦
      let s' = decrease_and_try_release o s in
      let same : o ≡ other = ground (arith, e) in
      subst
        (λ k. IsValid (with_owners s'.counts (set (set s'.owners o (pointer s'.owners k)) k none)))
        same
        (subst (λ ps. IsValid (with_owners s'.counts ps))
          (sym (
            set-set s'.owners o (pointer s'.owners o) none
            ∙ overwritten o none s
            ∙ set-set s.owners o none none))
          (released-IsValid o s h v))
  | inr e ↦
      let s' = decrease_and_try_release o s in
      let t = released o s in
      let there = others_kept o other s (ground (arith, e)) in
      subst (λ (p : Option ℕ). IsValid (with_owners s'.counts (set (set s'.owners o p) other none)))
        (sym there)
        (subst (λ ps. IsValid (with_owners s'.counts (set ps other none)))
          (sym (overwritten o (pointer t.owners other) s))
          (moved_counter o other t (omega (arith, length-set s.owners o none))
            (omega (arith, length-set s.owners o none)) (entry-set_self none s.owners o none h)
            (released-IsValid o s h v)))
]
run-IsValid (renew o) s h v = reset-IsValid o s h v
run-IsValid (destroy o) s h v =
    subst (λ ps. IsValid (with_owners (decrease_and_try_release o s).counts ps))
      (sym (overwritten o none s ∙ set-set s.owners o none none)) (released-IsValid o s h v)

-- What a copying call copies is not null.
abbrev pub Copied : Call → RefCounts → Type 0
Copied construct s = Unit {0}
Copied (copy other) s = pointer s.owners other ≢ none
Copied (move other) s = Unit {0}
Copied (copy_assign o other) s = pointer s.owners other ≢ none
Copied (move_assign o other) s = Unit {0}
Copied (renew o) s = Unit {0}
Copied (destroy o) s = Unit {0}

copy_from_some :
    (o other : ℕ) (s : RefCounts) → pointer s.owners other ≢ none → copy_from o other s ≢ none
unfolding copy_from
copy_from_some o other s h = go (pointer s.owners other) refl
  where
    go :
        (p : Option ℕ)
        → pointer s.owners other ≡ p
        → ◌≢◌ {A = Option RefCounts}
            (elim p [
              | none ↦ none
              | some c ↦ some (record s {
                counts = set s.counts c (counter s.counts c + 1);
                owners = set s.owners o (some c);
              })
            ])
            none
    go none k = λ e. h k
    go (some c) k = λ e. cc

run_some : (call : Call) (s : RefCounts) → InBounds call s → Copied call s → run call s ≢ none
unfolding run
run_some construct s h k = λ e. cc
run_some (copy other) s h k =
    copy_from_some (length s.owners) other (declare s)
      (λ e. k (sym (entry-append none s.owners (none ∷ []) other h) ∙ e))
run_some (move other) s h k = λ e. cc
run_some (copy_assign o other) s h k = elim (Bool-cases (o == other)) [
  | inl e ↦ rw e (λ x. cc)
  | inr e ↦
      let ne : o ≢ other = ground (arith, e) in
      rw e (
        copy_from_some o other (decrease_and_try_release o s) (λ x.
          k (sym (others_kept o other s ne ∙ entry-set_other none s.owners o other none ne) ∙ x)))
]
run_some (move_assign o other) s h k = λ e. cc
run_some (renew o) s h k = λ e. cc
run_some (destroy o) s h k = λ e. cc

-- Each call on objects that are alive, which copies no null pointer, ends in a state where every counter
-- again is the number of objects that point to it, so that it is deleted exactly when there are none.
pub run_lem :
    (call : Call) (s : RefCounts)
    → InBounds call s
    → Copied call s
    → IsValid s
    → (s' : RefCounts) × (run call s ≡ some s') × IsValid s'
run_lem call s h k v = go (run call s) refl
  where
    go :
        (r : Option RefCounts)
        → run call s ≡ r
        → (s' : RefCounts) × (run call s ≡ some s') × IsValid s'
    go none e = absurd (run_some call s h k e)
    go (some s') e = (s', e, subst Keeps e (run-IsValid call s h v))
