-- ===== src/Util/Slice.antt =====
-- The comparisons of `ByteSlice` (include/boltdb/util/slice.hpp), on the bytes of a slice.
pub mod Buffers
pub mod Shape
pub mod Moves
pub mod Release
pub mod Growth
pub mod Bytes
pub mod Content
pub mod Room
pub mod Appending
pub mod Lifetimes
pub mod Assignments
pub mod Calls
mod Tests
use Prim.Native.Nat.{min}
use boltdb_cpp.Base.{
  ℕ, zero, suc, ◌≡◌, ◌↔◌, refl, Bool, true, false, not, List, [], ◌∷◌, arith, ltb, ◌==◌,
  if◌then◌else◌, length,
}

-- The sign of the result of `memcmp`.
pub data Sign : Type 0 where
  negative equal positive : Sign

-- `std::memcmp` of `n` bytes.
unfoldable pub memcmp : List ℕ → List ℕ → ℕ → Sign
memcmp xs ys zero = equal
memcmp [] ys (suc n) = equal
memcmp (x ∷ xs) [] (suc n) = equal
memcmp (x ∷ xs) (y ∷ ys) (suc n) =
    if ltb x y then negative else if ltb y x then positive else memcmp xs ys n

-- `std::equal` of two ranges.
abbrev pub equal_bytes : List ℕ → List ℕ → Bool
equal_bytes [] [] = true
equal_bytes [] (y ∷ ys) = false
equal_bytes (x ∷ xs) [] = false
equal_bytes (x ∷ xs) (y ∷ ys) = if x == y then equal_bytes xs ys else false

-- `operator==`
unfoldable pub slice_eq : List ℕ → List ℕ → Bool
slice_eq lhs rhs = if not (length lhs == length rhs) then false else equal_bytes lhs rhs

-- `operator<`; the source hands `lhs.head_` to `memcmp` twice.
unfoldable pub slice_lt : List ℕ → List ℕ → Bool
slice_lt lhs rhs =
    let sz1 = length lhs in
    let sz2 = length rhs in
    elim (memcmp lhs lhs (min sz1 sz2)) [ equal ↦ ltb sz1 sz2 | negative ↦ true | positive ↦ false ]

-- `operator>=`
unfoldable pub slice_ge : List ℕ → List ℕ → Bool
slice_ge lhs rhs = not (slice_lt lhs rhs)

equal_bytes→eq : (xs ys : List ℕ) → equal_bytes xs ys ≡ true → xs ≡ ys
equal_bytes→eq [] [] h = refl
equal_bytes→eq [] (y ∷ ys) h = cc
equal_bytes→eq (x ∷ xs) [] h = cc
equal_bytes→eq (x ∷ xs) (y ∷ ys) h = ground (arith, equal_bytes→eq xs ys)

equal_bytes_refl : (xs : List ℕ) → equal_bytes xs xs ≡ true
equal_bytes_refl [] = refl
equal_bytes_refl (x ∷ xs) = ground (arith, equal_bytes_refl xs)

slice_eq_refl : (xs : List ℕ) → slice_eq xs xs ≡ true
unfolding slice_eq
slice_eq_refl xs = ground (arith, equal_bytes_refl xs)

-- `operator==` tells whether two slices hold the same bytes.
pub slice_eq_iff : (xs ys : List ℕ) → (slice_eq xs ys ≡ true) ↔ (xs ≡ ys)
slice_eq_iff xs ys = (
  (λ h. unfold slice_eq in ground (arith, h, equal_bytes→eq xs ys)),
  λ e. rw (← e) (slice_eq_refl xs),
)

memcmp_self : (xs : List ℕ) (n : ℕ) → memcmp xs xs n ≡ equal
unfolding memcmp
memcmp_self xs zero = refl
memcmp_self [] (suc n) = refl
memcmp_self (x ∷ xs) (suc n) = ground (arith, memcmp_self xs n)

-- `operator<` looks at no byte: a slice is less than another exactly when it is shorter.
pub slice_lt_lem : (xs ys : List ℕ) → slice_lt xs ys ≡ ltb (length xs) (length ys)
unfolding slice_lt
slice_lt_lem xs ys = rw (memcmp_self xs (min (length xs) (length ys)), slice_lt)
