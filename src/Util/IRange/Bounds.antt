-- ===== src/Util/IRange/Bounds.antt =====
-- How many values a range of include/boltdb/util/irange.hpp has.
use native.Mathlib.Nat.{div-add-mod', mod-lt, div-le_self}
use boltdb_cpp.Base.{
  ℕ, zero, suc, ◌+◌, ◌*◌, ◌/◌, ◌%◌, ◌^◌, ◌≤◌, ◌<◌, ◌≡◌, ◌≢◌, refl, sym, ap, ◌∙◌, ◌⊎◌, inl, inr,
  some, ◌==◌, if◌then◌else◌, arith,
}
use boltdb_cpp.Base.Int.{
  ℤ, pos, negsuc, above, below, from_parts, ◌+ℤ◌, ◌-ℤ◌, ◌*ℤ◌, same_ℤ, quot, rem, parts-add,
  parts-sub, eq_of_parts, mul_pos, mul_negsuc,
}
use boltdb_cpp.Util.IRange.{IRange, to_int, steps, size, begin, end, walk}
use boltdb_cpp.Util.IRange.Walk.{values, walk_lem}

abbrev pub IsInt : ℤ → Type 0
IsInt z = (above z < 2 ^ 31) × (below z ≤ 2 ^ 31)

to_int_lem : (z : ℤ) → IsInt z → to_int z ≡ z
to_int_lem (pos n) h = ground (arith, h)
to_int_lem (negsuc n) h = ground (arith, h)

-- The steps of size `k` that it takes to cover a distance `d`.
abbrev pub Covers : ℕ → ℕ → ℕ → Type 0
Covers n d k = (d ≤ n * k) × (n * k < d + k)

rounded_up : (d k : ℕ) → 0 < k → Covers (if d % k == 0 then d / k else d / k + 1) d k
rounded_up d k pos' = grind (arith, div-add-mod' d k, mod-lt d pos')

-- The bound `last` lies `d` ahead of `first`, in the direction of the step, whose size is `k`.
abbrev pub Ahead : IRange → ℕ → ℕ → Type 0
Ahead r d k =
    ((r.step ≡ pos k) × (r.last ≡ r.first +ℤ pos d))
    ⊎ ((r.step ≡ pos 0 -ℤ pos k) × (r.last ≡ r.first -ℤ pos d))

neg_suc : (n : ℕ) → pos 0 -ℤ pos (suc n) ≡ negsuc n
unfolding ◌-ℤ◌
neg_suc n = ground arith

neg_zero : pos 0 -ℤ pos 0 ≡ pos 0
unfolding ◌-ℤ◌
neg_zero = refl

-- What `steps` makes of a distance and a step.
abbrev count_steps : ℤ → ℤ → ℤ
count_steps diff step =
    let n = quot diff step in if same_ℤ (rem diff step) (pos 0) then n else n +ℤ pos 1

abbrev rounded : ℕ → ℕ → ℕ
rounded d k = if d % k == 0 then d / k else d / k + 1

add_one : (n : ℕ) → pos n +ℤ pos 1 ≡ pos (n + 1)
unfolding ◌+ℤ◌
add_one n = ground arith

count_up : (d k : ℕ) → count_steps (pos d) (pos k) ≡ pos (rounded d k)
unfolding quot rem
count_up d k = ground (arith, add_one (d / k))

count_down : (d k : ℕ) → 0 < k → count_steps (pos 0 -ℤ pos d) (pos 0 -ℤ pos k) ≡ pos (rounded d k)
unfolding quot rem
count_down d zero pos' = absurd (omega arith)
count_down zero (suc k) pos' = rw (neg_zero, neg_suc k) (ground arith)
count_down (suc d) (suc k) pos' =
    rw (neg_suc d, neg_suc k) (ground (arith, add_one (suc d / suc k)))

steps_lem : (r : IRange) (d k : ℕ) → 0 < k → Ahead r d k → steps r ≡ pos (rounded d k)
unfolding steps
steps_lem r d k pos' (inl (up, at)) =
    let diff : r.last -ℤ r.first ≡ pos d = eq_of_parts (r.last -ℤ r.first) (pos d) (
      omega
        (arith, parts-sub r.last r.first, parts-add r.first (pos d), ap above at, ap below at)) in
    rw (diff, up) (count_up d k)
steps_lem r d k pos' (inr (down, at)) =
    let diff : r.last -ℤ r.first ≡ pos 0 -ℤ pos d =
      eq_of_parts (r.last -ℤ r.first) (pos 0 -ℤ pos d) (
        omega (
          arith,
          parts-sub r.last r.first,
          parts-sub r.first (pos d),
          parts-sub (pos 0) (pos d),
          ap above at,
          ap below at,
        )) in
    rw (diff, down) (count_down d k pos')

neg_from : (m : ℕ) → from_parts 0 m ≡ pos 0 -ℤ pos m
unfolding ◌-ℤ◌
neg_from m = ground arith

mul_neg : (k n : ℕ) → (pos 0 -ℤ pos k) *ℤ pos n ≡ pos 0 -ℤ pos (k * n)
mul_neg zero n =
    let none' : 0 * n ≡ 0 = omega arith in rw neg_zero (mul_pos 0 n ∙ rw none' (sym neg_zero))
mul_neg (suc k) n = rw (neg_suc k) (mul_negsuc k n ∙ neg_from (suc k * n))

rounded_small : (d k : ℕ) → d < 2 ^ 31 → rounded d k < 2 ^ 64
rounded_small d k h = ground (arith, div-le_self d k, h)

in_bounds : (z : ℤ) → above z < 2 ^ 31 + below z → below z ≤ 2 ^ 31 + above z → IsInt z
in_bounds (pos n) h k = (omega (arith, h), omega arith)
in_bounds (negsuc n) h k = (omega arith, omega (arith, k))

-- The value behind the last one is not past the bound by a step.
end_fits :
    (r : IRange) (n d k : ℕ)
    → Ahead r d k
    → n * k < d + k
    → IsInt r.first
    → IsInt (r.last +ℤ r.step)
    → IsInt (r.first +ℤ r.step *ℤ pos n)
end_fits r n d k (inl (up, at)) near low high =
    let p : r.step *ℤ pos n ≡ pos (k * n) = ap (λ s. s *ℤ pos n) up ∙ mul_pos k n in
    let z = r.first +ℤ r.step *ℤ pos n in
    let (less, more) : (above z < 2 ^ 31 + below z) × (below z ≤ 2 ^ 31 + above z) = ground (
      arith,
      near,
      low,
      high,
      parts-add r.first (r.step *ℤ pos n),
      parts-add r.last r.step,
      parts-add r.first (pos d),
      ap above p,
      ap below p,
      ap above up,
      ap below up,
      ap above at,
      ap below at,
    ) in
    in_bounds z less more
end_fits r n d k (inr (down, at)) near low high =
    let p : r.step *ℤ pos n ≡ pos 0 -ℤ pos (k * n) = ap (λ s. s *ℤ pos n) down ∙ mul_neg k n in
    let z = r.first +ℤ r.step *ℤ pos n in
    let (less, more) : (above z < 2 ^ 31 + below z) × (below z ≤ 2 ^ 31 + above z) = ground (
      arith,
      near,
      low,
      high,
      parts-add r.first (r.step *ℤ pos n),
      parts-add r.last r.step,
      parts-sub r.first (pos d),
      parts-sub (pos 0) (pos k),
      parts-sub (pos 0) (pos (k * n)),
      ap above p,
      ap below p,
      ap above down,
      ap below down,
      ap above at,
      ap below at,
    ) in
    in_bounds z less more

nonzero : (r : IRange) (d k : ℕ) → 0 < k → Ahead r d k → r.step ≢ pos 0
nonzero r d k pos' (inl (up, _)) e = omega (arith, pos', ap above (sym up ∙ e))
nonzero r d k pos' (inr (down, _)) e =
    omega (arith, pos', parts-sub (pos 0) (pos k), ap above (sym down ∙ e), ap below (sym down ∙ e))

end_lem :
    (r : IRange) (d k : ℕ)
    → 0 < k
    → Ahead r d k
    → d < 2 ^ 31
    → IsInt r.first
    → IsInt (r.last +ℤ r.step)
    → end r ≡ record { first = r.first +ℤ r.step *ℤ pos (rounded d k); step = r.step }
unfolding end size
end_lem r d k pos' ahead small low high =
    let n = rounded d k in
    let (_, near) = rounded_up d k pos' in
    let same : n % 2 ^ 64 ≡ n = omega (arith, rounded_small d k small) in
    rw (steps_lem r d k pos' ahead) (
      rw same (
        ap (λ x. record { first = x; step = r.step })
          (to_int_lem (r.first +ℤ r.step *ℤ pos n) (end_fits r n d k ahead near low high))))

-- For a range of `int` whose bound lies `d` ahead in the direction of its step, of size `k` from 1 on, and
-- where the bound and one step more is an `int`, the loop ends: it visits the first value and those at one
-- step from the one before, as many as steps cover the distance, and no step more.
pub loop_visits :
    (r : IRange) (d k : ℕ)
    → 0 < k
    → Ahead r d k
    → d < 2 ^ 31
    → IsInt r.first
    → IsInt (r.last +ℤ r.step)
    → (n : ℕ) × Covers n d k × (walk (suc n) (begin r) (end r) ≡ some (values n r.first r.step))
loop_visits r d k pos' ahead small low high = (
  rounded d k,
  rounded_up d k pos',
  rw (end_lem r d k pos' ahead small low high)
      (walk_lem (rounded d k) r.first r.step (nonzero r d k pos' ahead)),
)
