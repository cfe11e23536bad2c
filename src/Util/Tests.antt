-- ===== src/Util/Tests.antt =====
-- Runs of the operations of src/util/slice.cpp, src/util/crc64.cpp and src/util/ref_count.cpp.
use boltdb_cpp.Base.{ℕ, List, zero, suc, ◌≡◌, refl, inl, [], ◌∷◌, some, arith, length, ltb}
use boltdb_cpp.Base.Int.{pos, negsuc, quot, rem, ◌+ℤ◌, ◌-ℤ◌}
use boltdb_cpp.Util.IRange.{IRange, make_irange, begin, end, size, steps, walk}
use boltdb_cpp.Util.IRange.Walk.{values}
use boltdb_cpp.Util.IRange.Bounds.{Covers, loop_visits}
use boltdb_cpp.Util.Slice.{slice_lt, slice_lt_lem}
use boltdb_cpp.Util.Crc64.{crc64_be}
use boltdb_cpp.Util.Crc64.Bitwise.{crc_bitwise, crc64_be-crc_bitwise}
use boltdb_cpp.Util.RefCount.{RefCounts, copy_assign, copy_from, run, decrease_and_try_release}
use boltdb_cpp.Util.RefCount.Owners.{IsValid}
use boltdb_cpp.Util.RefCount.Calls.{run_lem}

slice_lt_lem_example :
    slice_lt (1 ∷ []) (2 ∷ []) ≡ ltb (length {A = ℕ} (1 ∷ [])) (length {A = ℕ} (2 ∷ []))
slice_lt_lem_example = slice_lt_lem (1 ∷ []) (2 ∷ [])

-- Two objects share a counter, a third one has one of its own.
abbrev three : RefCounts
three = record { counts = 2 ∷ 1 ∷ []; owners = some 0 ∷ some 1 ∷ some 0 ∷ [] }

three-IsValid : IsValid three
three-IsValid zero = refl
three-IsValid (suc zero) = refl
three-IsValid (suc (suc c)) = ground arith

run_lem_example : (s' : RefCounts) × (run (copy_assign 1 2) three ≡ some s') × IsValid s'
run_lem_example = run_lem (copy_assign 1 2) three (omega arith, omega arith) (λ e. cc) three-IsValid

-- The assignment deletes the counter of the third object.
run_test :
    run (copy_assign 1 2) three
    ≡ some (record { counts = 3 ∷ 0 ∷ []; owners = some 0 ∷ some 0 ∷ some 0 ∷ [] })
unfolding run copy_from decrease_and_try_release
run_test = refl

abbrev threes : IRange
threes = make_irange (pos 1) (pos 11) (pos 3)

loop_visits_example :
    (n : ℕ) × Covers n 10 3
    × (walk (suc n) (begin threes) (end threes) ≡ some (values n (pos 1) (pos 3)))
unfolding ◌+ℤ◌
loop_visits_example =
    loop_visits threes 10 3 (omega arith) (inl (refl, refl)) (omega arith)
      (omega arith, omega arith) (omega arith, omega arith)

-- A range against its step, shorter than a step, has one value.
against_test : size (make_irange (pos 0) (negsuc 0) (pos 5)) ≡ 1
unfolding size steps quot rem ◌-ℤ◌ ◌+ℤ◌
against_test = refl

-- The check value of CRC-64/ECMA-182, the checksum of the text 123456789.
abbrev digits : List ℕ
digits = 49 ∷ 50 ∷ 51 ∷ 52 ∷ 53 ∷ 54 ∷ 55 ∷ 56 ∷ 57 ∷ []

check_value_test : crc64_be 0 digits ≡ 0x6C40DF5F0B497347
unfolding crc64_be
check_value_test = refl

crc64_be-crc_bitwise_example : crc64_be 0 (200 ∷ 7 ∷ []) ≡ crc_bitwise 0 (200 ∷ 7 ∷ [])
crc64_be-crc_bitwise_example =
    crc64_be-crc_bitwise 0 (200 ∷ 7 ∷ []) (omega arith) (omega arith, (omega arith, _))
