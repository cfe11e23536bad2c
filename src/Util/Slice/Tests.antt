-- ===== src/Util/Slice/Tests.antt =====
-- Runs of the operations of src/util/slice.cpp on two slices that share a buffer.
use boltdb_cpp.Base.{ℕ, ◌≡◌, ◌≢◌, ◌⊎◌, inl, refl, subst, [], ◌∷◌, Option, none, some, arith, set}
use boltdb_cpp.Util.RefCount
use boltdb_cpp.Util.RefCount.{RefCounts}
use boltdb_cpp.Util.Rounding.{round_up_to_power_of_two}
use boltdb_cpp.Util.Slice.Buffers.{
  Slices, null, view, whole, content, construct, construct_from, construct_copy, try_deallocate,
  deallocate, destroy, append, push, write, overwrite, copy_from,
}
use boltdb_cpp.Util.Slice.Release.{IsValid}
use boltdb_cpp.Util.Slice.Appending.{append_lem, append_overwrites}
use boltdb_cpp.Util.Slice.Lifetimes.{Succeeds}
use boltdb_cpp.Util.Slice.Calls.{makes_from, copies, appends, destroys, call, call_lem}

abbrev nothing : Slices
nothing = record { buffers = []; views = []; refs = record { counts = []; owners = [] } }

nothing-IsValid : IsValid nothing
nothing-IsValid = record {
  counts = λ c. refl;
  shape = record {
    same_length = refl;
    fits = λ i. inl refl;
    counted = λ i e. refl;
    together = λ i k c e h. refl;
    apart = λ i k b e h. refl;
    held = λ b cells e. absurd (cc (e));
  };
}

succeeded : (r : Option Slices) (t : Slices) → Succeeds r → r ≡ some t → IsValid t
succeeded r t (s', e, ok) h = let same : s' ≡ t = cc (e, h) in subst IsValid same ok

-- The slice `a`, with room for one byte more.
abbrev one : Slices
one = record {
  buffers = some (some 97 ∷ none ∷ []) ∷ [];
  views = whole 0 1 2 ∷ [];
  refs = record { counts = 1 ∷ []; owners = some 0 ∷ [] };
}

make_test : call (makes_from (97 ∷ [])) nothing ≡ some one
unfolding construct construct_from RefCount.run RefCount.reset RefCount.decrease_and_try_release
    write overwrite round_up_to_power_of_two
make_test = refl

one-IsValid : IsValid one
one-IsValid =
    succeeded (call (makes_from (97 ∷ [])) nothing) one
      (call_lem (makes_from (97 ∷ [])) nothing tt nothing-IsValid) make_test

-- Two slices with the same byte `a`.
abbrev two : Slices
two = record {
  buffers = some (some 97 ∷ none ∷ []) ∷ [];
  views = whole 0 1 2 ∷ whole 0 1 2 ∷ [];
  refs = record { counts = 2 ∷ []; owners = some 0 ∷ some 0 ∷ [] };
}

copy_test : call (copies 0) one ≡ some two
unfolding construct_copy copy_from RefCount.run RefCount.copy_from RefCount.decrease_and_try_release
copy_test = refl

two-IsValid : IsValid two
two-IsValid =
    succeeded (call (copies 0) one) two
      (call_lem (copies 0) one (omega arith, (0, refl)) one-IsValid) copy_test

call_lem_example : Succeeds (call (destroys 0) two)
call_lem_example = call_lem (destroys 0) two (omega arith) two-IsValid

append_lem_example :
    (s' : Slices) × (append 0 98 two ≡ some s')
    × IsValid s'
    × (content (view s'.views 0) s'.buffers ≡ some (some 97 ∷ some 98 ∷ []))
    × ((k : ℕ)
        → 0 ≢ k
        → ((view two.views k).base ≢ (view two.views 0).base)
          ⊎ ((view two.views 0).tail ≡ (view two.views 0).cap)
        → content (view s'.views k) s'.buffers ≡ content (view two.views k) two.buffers)
unfolding content
append_lem_example = append_lem 0 98 two (some 97 ∷ []) (omega arith) two-IsValid refl

-- The first slice shows `ab`, the second one `a`.
abbrev ab : Slices
ab = record two {
  buffers = some (some 97 ∷ some 98 ∷ []) ∷ [];
  views = whole 0 2 2 ∷ whole 0 1 2 ∷ [];
}

append_test : call (appends 0 98) two ≡ some ab
unfolding append push write overwrite
append_test = refl

ab-IsValid : IsValid ab
ab-IsValid =
    succeeded (call (appends 0 98) two) ab (call_lem (appends 0 98) two (omega arith) two-IsValid)
      append_test

-- To append `c` to the second makes the first one `ac`.
append_overwrites_example :
    (s' : Slices) × (append 1 99 ab ≡ some s')
    × (content (view s'.views 0) s'.buffers ≡ some (set (some 97 ∷ some 98 ∷ []) 1 (some 99)))
unfolding content
append_overwrites_example =
    append_overwrites 1 0 99 1 ab (some 97 ∷ some 98 ∷ []) (omega arith) ab-IsValid refl
      (λ e. omega (arith, e)) refl (omega arith) (omega arith)

-- The destructor of the last slice frees the buffer.
destroy_test :
    call (destroys 0) one
    ≡ some (record {
      buffers = none ∷ [];
      views = null ∷ [];
      refs = record { counts = 0 ∷ []; owners = none ∷ [] };
    })
unfolding destroy try_deallocate deallocate RefCount.unique RefCount.run
    RefCount.decrease_and_try_release
destroy_test = refl
