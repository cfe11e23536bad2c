-- ===== src/Util/RefCount/Results.antt =====
-- The pointers that a call of src/util/ref_count.cpp leaves.
use boltdb_cpp.Base.{
  ℕ, ◌+◌, ◌<◌, ◌≡◌, ◌≢◌, refl, sym, ap, subst, ◌∙◌, inl, inr, false, List, [], ◌∷◌, Option, none,
  some, ◌==◌, length, set, entry-append, entry-snoc, set_same, entry-set_other, set-set, arith,
  Bool-cases,
}
use boltdb_cpp.Util.RefCount.{
  RefCounts, counter, pointer, decrease_and_try_release, copy_from, move_from, reset, declare, Call,
  construct, copy, copy_assign, move_assign, renew, destroy, run,
}
use boltdb_cpp.Util.RefCount.Owners.{IsValid, overwritten, released, released-IsValid}
use boltdb_cpp.Util.RefCount.Calls.{
  others_kept, length-declare, run-IsValid, Keeps, InBounds, uses-declare,
}
use boltdb_cpp.Util.RefCount.Sharing.{unused}

-- The call ends in a valid state with these owners.
abbrev pub EndsIn : Option RefCounts → List (Option ℕ) → Type 0
EndsIn r owners = (t : RefCounts) × (r ≡ some t) × IsValid t × (t.owners ≡ owners)

ends_in :
    (call : Call) (s t : RefCounts) (owners : List (Option ℕ))
    → InBounds call s
    → IsValid s
    → run call s ≡ some t
    → t.owners ≡ owners
    → EndsIn (run call s) owners
ends_in call s t owners h v e o = (t, e, subst Keeps e (run-IsValid call s h v), o)

copied :
    (o other c : ℕ) (s : RefCounts)
    → pointer s.owners other ≡ some c
    → copy_from o other s
      ≡ some (record s {
        counts = set s.counts c (counter s.counts c + 1);
        owners = set s.owners o (some c);
      })
unfolding copy_from
copied o other c s e = rw (copy_from, e) refl

module _ (s : RefCounts) (v : IsValid s) where
  last : length s.owners < length (declare s).owners
  last = omega (arith, length-declare s)

  bare : set (declare s).owners (length s.owners) none ≡ (declare s).owners
  bare =
      ap (set (declare s).owners (length s.owners)) (sym (entry-snoc none s.owners none))
      ∙ set_same none (declare s).owners (length s.owners)

  pub copy_new_ends :
      (j c : ℕ)
      → j < length s.owners
      → pointer s.owners j ≡ some c
      → EndsIn
          (run (copy j) s)
          (set (declare s).owners (length s.owners) (pointer (declare s).owners j))
  unfolding run
  copy_new_ends j c lt e =
      let seen : pointer (declare s).owners j ≡ some c =
        entry-append none s.owners (none ∷ []) j lt ∙ e in
      let n = length s.owners in
      ends_in (copy j) s
        (record s {
          counts = set s.counts c (counter s.counts c + 1);
          owners = set (declare s).owners n (some c);
        })
        (set (declare s).owners n (pointer (declare s).owners j)) lt v
        (copied n j c (declare s) seen) (ap (set (declare s).owners n) (sym seen))

  pub construct_ends :
      (c : ℕ) × EndsIn (run construct s) (set (declare s).owners (length s.owners) (some c))
      × ((k : ℕ) → pointer (declare s).owners k ≢ some c)
  unfolding run reset
  construct_ends =
      let n = length s.owners in
      let d = decrease_and_try_release n (declare s) in
      (
        length d.counts,
        ends_in construct s (reset n (declare s))
            (set (declare s).owners n (some (length d.counts))) tt v refl
            (overwritten n (some (length d.counts)) (declare s)
              ∙ set-set (declare s).owners n none (some (length d.counts))),
        λ k h.
            unused (released n (declare s)) k
              (released-IsValid n (declare s) last (uses-declare s v))
              (ap (λ ps. pointer ps k) bare ∙ h),
      )

  module _ (i : ℕ) (lt : i < length s.owners) where
    pub renew_ends :
        (c : ℕ) × EndsIn (run (renew i) s) (set (set s.owners i none) i (some c))
        × ((k : ℕ) → pointer (set s.owners i none) k ≢ some c)
    unfolding run reset
    renew_ends =
        let c = length (decrease_and_try_release i s).counts in
        (
          c,
          ends_in (renew i) s (reset i s) (set (set s.owners i none) i (some c)) lt v refl
              (overwritten i (some c) s),
          λ k. unused (released i s) k (released-IsValid i s lt v),
        )

    pub destroy_ends : EndsIn (run (destroy i) s) (set s.owners i none)
    unfolding run
    destroy_ends =
        ends_in (destroy i) s _ (set s.owners i none) lt v refl
          (overwritten i none s ∙ set-set s.owners i none none)

    module _ (j : ℕ) (lt' : j < length s.owners) where
      pub copy_ends :
          (c : ℕ)
          → i ≢ j
          → pointer s.owners j ≡ some c
          → EndsIn
              (run (copy_assign i j) s)
              (set (set s.owners i none) i (pointer (set s.owners i none) j))
      unfolding run
      copy_ends c ne e =
          let other : (i == j) ≡ false = ground (arith, ne) in
          let seen = others_kept i j s ne ∙ entry-set_other none s.owners i j none ne ∙ e in
          let result = copied i j c (decrease_and_try_release i s) seen in
          let d = decrease_and_try_release i s in
          ends_in (copy_assign i j) s
            (record d {
              counts = set d.counts c (counter d.counts c + 1);
              owners = set d.owners i (some c);
            })
            (set (set s.owners i none) i (pointer (set s.owners i none) j)) (lt, lt') v
            (rw other result)
            (overwritten i (some c) s
              ∙ ap (set (set s.owners i none) i)
                  (sym (entry-set_other none s.owners i j none ne ∙ e)))

      pub move_ends :
          EndsIn
            (run (move_assign i j) s)
            (set (set (set s.owners i none) i (pointer (set s.owners i none) j)) j none)
      unfolding run move_from
      move_ends =
          ends_in (move_assign i j) s _
            (set (set (set s.owners i none) i (pointer (set s.owners i none) j)) j none) (lt, lt') v
            refl
            (elim (Bool-cases (i == j)) [
              | inl q ↦
                  let d = (decrease_and_try_release i s).owners in
                  let r = set s.owners i none in
                  subst
                    (λ j. set (set d i (pointer d j)) j none ≡ set (set r i (pointer r j)) j none)
                    (ground (arith, q))
                    (set-set d i (pointer d i) none
                      ∙ overwritten i none s
                      ∙ sym (set-set r i (pointer r i) none))
              | inr q ↦
                  let d = (decrease_and_try_release i s).owners in
                  ap (λ p. set (set d i p) j none) (others_kept i j s (ground (arith, q)))
                  ∙ ap (λ ps. set ps j none) (overwritten i (pointer (set s.owners i none) j) s)
            ])
