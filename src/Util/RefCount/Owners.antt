-- ===== src/Util/RefCount/Owners.antt =====
-- What the counters of src/util/ref_count.cpp count.
use boltdb_cpp.Base.{
  ltb, length-set, set-set, entry-set_self, entry-set_other, entry_beyond, ℕ, zero, suc, ◌+◌, ◌-◌,
  ◌<◌, ◌≡◌, ◌≢◌, refl, sym, ap, subst, inl, inr, List, [], ◌∷◌, ◌++◌, Option, none, some, ◌==◌,
  if◌then◌else◌, length, set, arith, Bool-cases,
}
use boltdb_cpp.Util.RefCount.{RefCounts, counter, pointer, decrease, decrease_and_try_release}

abbrev pub points : ℕ → Option ℕ → ℕ
points c none = 0
points c (some d) = if d == c then 1 else 0

-- How many objects point to a counter.
abbrev pub uses : ℕ → List (Option ℕ) → ℕ
uses c [] = 0
uses c (p ∷ ps) = points c p + uses c ps

-- Every counter counts the objects that point to it: it is deleted when there are none, and not before.
abbrev pub IsValid : RefCounts → Type 0
IsValid s = (c : ℕ) → counter s.counts c ≡ uses c s.owners

pub uses-append : (c : ℕ) (ps qs : List (Option ℕ)) → uses c (ps ++ qs) ≡ uses c ps + uses c qs
uses-append c [] qs = omega arith
uses-append c (p ∷ ps) qs = omega (arith, uses-append c ps qs)

pub uses-set :
    (c o : ℕ) (q : Option ℕ) (ps : List (Option ℕ))
    → o < length ps
    → uses c (set ps o q) + points c (pointer ps o) ≡ uses c ps + points c q
uses-set c o q [] h = absurd (omega arith)
uses-set c zero q (p ∷ ps) h = omega arith
uses-set c (suc o) q (p ∷ ps) h = omega (arith, uses-set c o q ps)

-- A counter that is not 0 is one of the list.
counter-set_self : (c v : ℕ) (ns : List ℕ) → 0 < counter ns c → counter (set ns c v) c ≡ v
counter-set_self c v ns h = elim (Bool-cases (ltb c (length ns))) [
  | inl q ↦ entry-set_self 0 ns c v (ground (arith, q))
  | inr q ↦ absurd (omega (arith, h, entry_beyond 0 ns c (ground (arith, q))))
]

counter-set_other : (c d v : ℕ) (ns : List ℕ) → c ≢ d → counter (set ns c v) d ≡ counter ns d
counter-set_other c d v ns h = entry-set_other 0 ns c d v h

counter-append :
    (ns : List ℕ) (d : ℕ)
    → counter (ns ++ (1 ∷ [])) d ≡ counter ns d + (if length ns == d then 1 else 0)
counter-append [] zero = refl
counter-append [] (suc d) = ground arith
counter-append (n ∷ ns) zero = ground arith
counter-append (n ∷ ns) (suc d) = ground (arith, counter-append ns d)

pub uses-pos :
    (c o : ℕ) (ps : List (Option ℕ)) → pointer ps o ≡ some c → (0 < uses c ps) × (o < length ps)
uses-pos c o [] e = absurd (cc)
uses-pos c zero (p ∷ ps) e = rw e (ground arith)
uses-pos c (suc o) (p ∷ ps) e =
    let (h, l) = uses-pos c o ps e in (omega (arith, h), omega (arith, l))

-- The object lets its counter go, and points to none.
abbrev pub released : ℕ → RefCounts → RefCounts
released o s = record s {
  counts = (decrease_and_try_release o s).counts;
  owners = set s.owners o none;
}

-- What is assigned to the pointer afterwards hides whether it was set to null.
pub overwritten :
    (o : ℕ) (q : Option ℕ) (s : RefCounts)
    → set (decrease_and_try_release o s).owners o q ≡ set (released o s).owners o q
unfolding decrease_and_try_release
overwritten o q s = go (pointer s.owners o)
  where
    go : (p : Option ℕ) → set (decrease o p s).owners o q ≡ set (set s.owners o none) o q
    go none = sym (set-set s.owners o none q)
    go (some c) = elim (Bool-cases (counter s.counts c - 1 == 0)) [
      | inl e ↦ rw e refl
      | inr e ↦ rw e (sym (set-set s.owners o none q))
    ]

less_counter :
    (c d : ℕ) (ns : List ℕ)
    → 0 < counter ns c
    → counter (set ns c (counter ns c - 1)) d + points d (some c) ≡ counter ns d
less_counter c d ns h = elim (Bool-cases (c == d)) [
  | inl e ↦
      let same : c ≡ d = ground (arith, e) in
      subst (λ d. counter (set ns c (counter ns c - 1)) d + points d (some c) ≡ counter ns d) same
        (ground (arith, counter-set_self c (counter ns c - 1) ns h))
  | inr e ↦ ground (arith, e, counter-set_other c d (counter ns c - 1) ns (ground (arith, e)))
]

more_counter :
    (c d : ℕ) (ns : List ℕ)
    → 0 < counter ns c
    → counter (set ns c (counter ns c + 1)) d ≡ counter ns d + points d (some c)
more_counter c d ns h = elim (Bool-cases (c == d)) [
  | inl e ↦
      let same : c ≡ d = ground (arith, e) in
      subst (λ d. counter (set ns c (counter ns c + 1)) d ≡ counter ns d + points d (some c)) same
        (ground (arith, counter-set_self c (counter ns c + 1) ns h))
  | inr e ↦ ground (arith, e, counter-set_other c d (counter ns c + 1) ns (ground (arith, e)))
]

pub released-IsValid :
    (o : ℕ) (s : RefCounts) → o < length s.owners → IsValid s → IsValid (released o s)
unfolding decrease_and_try_release
released-IsValid o s h v d = go (pointer s.owners o) refl
  where
    go :
        (p : Option ℕ)
        → pointer s.owners o ≡ p
        → counter (decrease o p s).counts d ≡ uses d (set s.owners o none)
    go none e = omega (arith, v d, uses-set d o none s.owners h, ap (points d) e)
    go (some c) e =
        let (used, _) = uses-pos c o s.owners e in
        omega (
          arith,
          v d,
          less_counter c d s.counts (omega (arith, v c, used)),
          uses-set d o none s.owners h,
          ap (points d) e,
        )

pub new_counter :
    (o : ℕ) (t : RefCounts)
    → o < length t.owners
    → pointer t.owners o ≡ none
    → IsValid t
    → IsValid (record t {
      counts = t.counts ++ (1 ∷ []);
      owners = set t.owners o (some (length t.counts));
    })
new_counter o t h e v d = omega (
  arith,
  v d,
  counter-append t.counts d,
  uses-set d o (some (length t.counts)) t.owners h,
  ap (points d) e,
)

pub shared_counter :
    (o c other : ℕ) (t : RefCounts)
    → o < length t.owners
    → pointer t.owners o ≡ none
    → pointer t.owners other ≡ some c
    → IsValid t
    → IsValid (record t {
      counts = set t.counts c (counter t.counts c + 1);
      owners = set t.owners o (some c);
    })
shared_counter o c other t h e k v d =
    let (used, _) = uses-pos c other t.owners k in
    omega (
      arith,
      v d,
      more_counter c d t.counts (omega (arith, v c, used)),
      uses-set d o (some c) t.owners h,
      ap (points d) e,
    )

pub moved_counter :
    (o other : ℕ) (t : RefCounts)
    → o < length t.owners
    → other < length t.owners
    → pointer t.owners o ≡ none
    → IsValid t
    → IsValid (record t { owners = set (set t.owners o (pointer t.owners other)) other none })
moved_counter o other t h k e v d =
    let p = pointer t.owners other in
    omega (
      arith,
      v d,
      uses-set d o p t.owners h,
      ap (points d) e,
      uses-set d other none (set t.owners o p) (omega (arith, length-set t.owners o p)),
      ap (points d) held,
    )
  where
    held : pointer (set t.owners o (pointer t.owners other)) other ≡ pointer t.owners other
    held = elim (Bool-cases (o == other)) [
      | inl q ↦
          let same : o ≡ other = ground (arith, q) in
          subst (λ k. pointer (set t.owners o (pointer t.owners k)) k ≡ pointer t.owners k) same
            (entry-set_self none t.owners o (pointer t.owners o) h)
      | inr q ↦ entry-set_other none t.owners o other (pointer t.owners other) (ground (arith, q))
    ]
