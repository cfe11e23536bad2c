-- ===== src/Base/Counts.antt =====
-- Lists of numbers seen as multisets, and the standard library's `std::sort` and `std::merge`.
use Prim.Native.Nat.{ℕ, suc, ◌+◌, ◌≤◌, ◌<◌}
use mathlib.Core.Path.{◌≡◌, refl, subst}
use mathlib.Core.Bool.{true, false}
use mathlib.Core.Logic.{inl, inr}
use mathlib.Core.List.{List, [], ◌∷◌, ◌++◌}
use native.Mathlib.Omega.{arith}
use boltdb_cpp.Base.Tests.{ltb, leb, ◌==◌, if◌then◌else◌, Bool-cases, ==_iff}
use boltdb_cpp.Base.Lists.{length, All}

-- How often a number stands in a list.
abbrev pub count : ℕ → List ℕ → ℕ
count p [] = 0
count p (x ∷ xs) = (if x == p then 1 else 0) + count p xs

pub count-append : (p : ℕ) (xs ys : List ℕ) → count p (xs ++ ys) ≡ count p xs + count p ys
count-append p [] ys = omega arith
count-append p (x ∷ xs) ys = omega (arith, count-append p xs ys)

-- Ascending from `lo` on, repetitions allowed.
abbrev pub Ascending : ℕ → List ℕ → Type 0
Ascending lo [] = Unit {0}
Ascending lo (x ∷ xs) = (lo ≤ x) × Ascending x xs

pub Ascending-mono : (lo lo' : ℕ) (xs : List ℕ) → lo' ≤ lo → Ascending lo xs → Ascending lo' xs
Ascending-mono lo lo' [] h a = tt
Ascending-mono lo lo' (x ∷ xs) h a = (omega arith, a.1)

pub count_below : (p lo : ℕ) (xs : List ℕ) → Ascending lo xs → p < lo → count p xs ≡ 0
count_below p lo [] a h = refl
count_below p lo (x ∷ xs) a h = ground (arith, count_below p x xs a.1)

abbrev pub insert_sorted : ℕ → List ℕ → List ℕ
insert_sorted x [] = x ∷ []
insert_sorted x (y ∷ ys) = if leb x y then x ∷ y ∷ ys else y ∷ insert_sorted x ys

-- `std::sort` on numbers: its result is determined by its contract.
unfoldable pub sort : List ℕ → List ℕ
sort [] = []
sort (x ∷ xs) = insert_sorted x (sort xs)

count-insert_sorted : (p x : ℕ) (ys : List ℕ) → count p (insert_sorted x ys) ≡ count p (x ∷ ys)
count-insert_sorted p x [] = refl
count-insert_sorted p x (y ∷ ys) = ground (arith, count-insert_sorted p x ys)

pub count-sort : (p : ℕ) (xs : List ℕ) → count p (sort xs) ≡ count p xs
unfolding sort
count-sort p [] = refl
count-sort p (x ∷ xs) = omega (arith, count-insert_sorted p x (sort xs), count-sort p xs)

insert_sorted-Ascending :
    (lo x : ℕ) (ys : List ℕ) → lo ≤ x → Ascending lo ys → Ascending lo (insert_sorted x ys)
insert_sorted-Ascending lo x [] h a = (h, tt)
insert_sorted-Ascending lo x (y ∷ ys) h a = ground (arith, insert_sorted-Ascending y x ys)

length-insert_sorted : (x : ℕ) (ys : List ℕ) → length (insert_sorted x ys) ≡ suc (length ys)
length-insert_sorted x [] = refl
length-insert_sorted x (y ∷ ys) = ground (arith, length-insert_sorted x ys)

pub length-sort : (xs : List ℕ) → length (sort xs) ≡ length xs
unfolding sort
length-sort [] = refl
length-sort (x ∷ xs) = omega (arith, length-insert_sorted x (sort xs), length-sort xs)

pub sort-Ascending : (lo : ℕ) (xs : List ℕ) → All (λ x. lo ≤ x) xs → Ascending lo (sort xs)
unfolding sort
sort-Ascending lo [] h = tt
sort-Ascending lo (x ∷ xs) h = insert_sorted-Ascending lo x (sort xs) h.0 (sort-Ascending lo xs h.1)

insert_sorted_first :
    (lo x : ℕ) (ys : List ℕ) → x ≤ lo → Ascending lo ys → insert_sorted x ys ≡ x ∷ ys
insert_sorted_first lo x [] h a = refl
insert_sorted_first lo x (y ∷ ys) h a = ground arith

pub sort_sorted : (lo : ℕ) (xs : List ℕ) → Ascending lo xs → sort xs ≡ xs
unfolding sort
sort_sorted lo [] a = refl
sort_sorted lo (x ∷ xs) a = rw (sort_sorted x xs a.1) (insert_sorted_first x x xs (omega arith) a.1)

-- `std::merge`: the second range gives an element only where it is smaller.
unfoldable pub merge : List ℕ → List ℕ → List ℕ
merge [] ys = ys
merge (x ∷ xs) [] = x ∷ xs
merge (x ∷ xs) (y ∷ ys) = elim (ltb y x) [
  | true ↦ y ∷ merge (x ∷ xs) ys
  | false ↦ x ∷ merge xs (y ∷ ys)
]

pub count-merge : (p : ℕ) (xs ys : List ℕ) → count p (merge xs ys) ≡ count p xs + count p ys
unfolding merge
count-merge p [] ys = omega arith
count-merge p (x ∷ xs) [] = omega arith
count-merge p (x ∷ xs) (y ∷ ys) =
    ground (arith, count-merge p (x ∷ xs) ys, count-merge p xs (y ∷ ys))

pub length-merge : (left right : List ℕ) → length (merge left right) ≡ length left + length right
unfolding merge
length-merge [] right = omega arith
length-merge (m ∷ left) [] = omega arith
length-merge (m ∷ left) (n ∷ right) =
    ground (arith, length-merge left (n ∷ right), length-merge (m ∷ left) right)

pub merge-Ascending :
    (lo : ℕ) (xs ys : List ℕ) → Ascending lo xs → Ascending lo ys → Ascending lo (merge xs ys)
unfolding merge
merge-Ascending lo [] ys a b = b
merge-Ascending lo (x ∷ xs) [] a b = a
merge-Ascending lo (x ∷ xs) (y ∷ ys) a b =
    ground (arith, merge-Ascending y (x ∷ xs) ys, merge-Ascending x xs (y ∷ ys))

-- A property of all elements, by what the list counts.
pub count_of_All : (p : ℕ) (P : ℕ → Type 0) (xs : List ℕ) → All P xs → 0 < count p xs → P p
count_of_All p P [] a h = absurd (omega arith)
count_of_All p P (x ∷ xs) a h = elim (Bool-cases (x == p)) [
  | inl e ↦ subst P ((==_iff x p).0 e) a.0
  | inr e ↦ count_of_All p P xs a.1 (ground (arith, h))
]

pub All_of_count : (P : ℕ → Type 0) (xs : List ℕ) → ((p : ℕ) → 0 < count p xs → P p) → All P xs
All_of_count P [] h = tt
All_of_count P (x ∷ xs) h = (h x (ground arith), All_of_count P xs (λ p c. h p (omega (arith, c))))

pub count_of_All_either :
    (p : ℕ) (P : ℕ → Type 0) (xs ys : List ℕ)
    → All P xs
    → All P ys
    → 0 < count p xs + count p ys
    → P p
count_of_All_either p P xs ys a b h = elim (Bool-cases (ltb 0 (count p xs))) [
  | inl e ↦ count_of_All p P xs a (ground (arith, e))
  | inr e ↦ count_of_All p P ys b (ground (arith, e, h))
]

pub All-map_of : (P Q : ℕ → Type 0) (xs : List ℕ) → ((p : ℕ) → P p → Q p) → All P xs → All Q xs
All-map_of P Q [] f a = tt
All-map_of P Q (x ∷ xs) f a = (f x a.0, All-map_of P Q xs f a.1)
