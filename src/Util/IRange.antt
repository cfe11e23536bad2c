-- ===== src/Util/IRange.antt =====
-- `IRange` and `IRangeIter` of include/boltdb/util/irange.hpp, at `T = int`. What the source adds up in an
-- `int` or a `ptrdiff_t` is taken to fit; the conversion of a size to `size_t` and that of the end back to
-- `int` are written out. A step of 0 divides by 0 in the source.
pub mod Walk
pub mod Bounds
use boltdb_cpp.Base.{
  ℕ, zero, suc, ◌+◌, ◌-◌, ◌*◌, ◌%◌, ◌^◌, Bool, true, false, not, List, [], ◌∷◌, Option, none, some,
  ◌>>=◌, ltb, ◌==◌, if◌then◌else◌,
}
use boltdb_cpp.Base.Int.{ℤ, pos, negsuc, ◌+ℤ◌, ◌-ℤ◌, ◌*ℤ◌, same_ℤ, quot, rem}

pub record IRange : Type 0 where
  pub first : ℤ
  pub last : ℤ
  pub step : ℤ

pub record IRangeIter : Type 0 where
  pub first : ℤ
  pub step : ℤ

-- The conversion to `size_t`, and that to `int` of what wraps around at 2 ^ 64.
abbrev pub to_size : ℤ → ℕ
to_size (pos n) = n % 2 ^ 64
to_size (negsuc n) = 2 ^ 64 - 1 - n % 2 ^ 64

abbrev pub to_int : ℤ → ℤ
to_int z = let n = to_size z % 2 ^ 32 in if ltb n (2 ^ 31) then pos n else negsuc (2 ^ 32 - 1 - n)

-- The `int n` of `size`.
unfoldable pub steps : IRange → ℤ
steps r =
    let diff = r.last -ℤ r.first in
    let n = quot diff r.step in if same_ℤ (rem diff r.step) (pos 0) then n else n +ℤ pos 1

unfoldable pub size : IRange → ℕ
size r = to_size (steps r)

-- `begin()` and `end()`, and the same as `cbegin()` and `cend()`.
abbrev pub begin : IRange → IRangeIter
begin r = record { first = r.first; step = r.step }

unfoldable pub end : IRange → IRangeIter
end r = record { first = to_int (r.first +ℤ r.step *ℤ pos (size r)); step = r.step }

-- `make_irange`
abbrev pub make_irange : ℤ → ℤ → ℤ → IRange
make_irange first last step = record { first = first; last = last; step = step }

-- `++`, `--`, `+=`, `-=` and `*`
unfoldable pub increment : IRangeIter → IRangeIter
increment it = record it { first = it.first +ℤ it.step }

unfoldable pub decrement : IRangeIter → IRangeIter
decrement it = record it { first = it.first -ℤ it.step }

unfoldable pub advance : IRangeIter → ℤ → IRangeIter
advance it n = record it { first = it.first +ℤ n *ℤ it.step }

-- The operators that work on a copy: the value with the iterator that stays.
abbrev pub post_increment : IRangeIter → IRangeIter × IRangeIter
post_increment it = (it, increment it)

abbrev pub post_decrement : IRangeIter → IRangeIter × IRangeIter
post_decrement it = (it, decrement it)

abbrev pub plus : IRangeIter → ℤ → IRangeIter
plus it n = advance it n

abbrev pub minus : IRangeIter → ℤ → IRangeIter
minus it n = plus it (pos 0 -ℤ n)

abbrev pub retreat : IRangeIter → ℤ → IRangeIter
retreat it n = advance it (pos 0 -ℤ n)

abbrev pub deref : IRangeIter → ℤ
deref it = it.first

unfoldable pub equals : IRangeIter → IRangeIter → Bool
equals lhs rhs = if same_ℤ lhs.first rhs.first then same_ℤ lhs.step rhs.step else false

abbrev pub differs : IRangeIter → IRangeIter → Bool
differs lhs rhs = not (equals lhs rhs)

-- `operator-` of two iterators
unfoldable pub distance : IRangeIter → IRangeIter → ℤ
distance lhs rhs = quot (lhs.first -ℤ rhs.first) rhs.step

-- `for (auto i : range)` on fuel: the values of `i`; `none` means that the fuel ran out.
unfoldable pub walk : ℕ → IRangeIter → IRangeIter → Option (List ℤ)
walk zero it last = none
walk (suc fuel) it last =
    let rest = walk fuel (increment it) last in
    if equals it last then some [] else do values ← rest; some (deref it ∷ values)
