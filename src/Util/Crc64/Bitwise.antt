-- ===== src/Util/Crc64/Bitwise.antt =====
-- The checksum of src/util/crc64.cpp against the polynomial of ECMA-182, bit by bit.
use Prim.Native.Nat.{bit_xor, bit_and}
use boltdb_cpp.Base.{
  ℕ, zero, suc, ◌+◌, ◌-◌, ◌*◌, ◌/◌, ◌%◌, ◌^◌, ◌≤◌, ◌<◌, ◌≡◌, refl, sym, ap, ◌∙◌, inl, inr, List, [],
  ◌∷◌, some, All, arith, ltb, get_elem?, Bool-cases,
}
use boltdb_cpp.Base.Xor.{xor_zero_left, xor_bound, xor_split, and_255}
use boltdb_cpp.Util.Crc64.{widen, entry, crc_round, crc64_be}
use boltdb_cpp.Util.Crc64.Table.{crc64_table}
use boltdb_cpp.Util.Crc64.Register.{
  shift, shift_8, xor_zero_right, shifts_xor, shifts_bound, shift_8_low,
}

-- The checksum, bit by bit.
unfoldable pub crc_bitwise : ℕ → List ℕ → ℕ
crc_bitwise crc [] = crc
crc_bitwise crc (b ∷ p) = crc_bitwise (shift_8 (bit_xor crc (b * 2 ^ 56))) p

-- The remainders of the bytes from `t` on.
abbrev remainders : ℕ → ℕ → List ℕ
remainders zero t = []
remainders (suc n) t = shift_8 (t * 2 ^ 56) ∷ remainders n (t + 1)

table_lem : crc64_table ≡ remainders 256 0
unfolding crc64_table shift
table_lem = refl

get-remainders :
    (n i t : ℕ) → i < n → get_elem? (remainders n t) i ≡ some (shift_8 ((t + i) * 2 ^ 56))
get-remainders zero i t h = absurd (omega arith)
get-remainders (suc n) zero t h =
    let same : t ≡ t + 0 = omega arith in ap (λ k. some (shift_8 (k * 2 ^ 56))) same
get-remainders (suc n) (suc i) t h =
    let same : t + 1 + i ≡ t + suc i = omega arith in
    get-remainders n i (t + 1) (omega arith) ∙ ap (λ k. some (shift_8 (k * 2 ^ 56))) same

-- The index into the table is the top byte of the register against the byte of the buffer.
index_lem : (h b : ℕ) → h < 2 ^ 8 → b < 2 ^ 8 → bit_and (bit_xor h (widen b)) 0xFF ≡ bit_xor h b
index_lem h b p q =
    let t = bit_xor h b in
    let small : t < 2 ^ 8 = xor_bound 8 h b p q in
    let narrow : b < 128 → widen b ≡ b = λ k. ground (arith, k) in
    let wide : 128 ≤ b → widen b ≡ (2 ^ 56 - 1) * 2 ^ 8 + b = λ k. ground (arith, k) in
    elim (Bool-cases (ltb b 128)) [
      | inl e ↦
          ap (λ w. bit_and (bit_xor h w) 0xFF) (narrow (ground (arith, e)))
          ∙ omega (arith, and_255 t, small)
      | inr e ↦
          let above = xor_split 8 0 h (2 ^ 56 - 1) b p q in
          let low : 0 * 2 ^ 8 + h ≡ h = omega arith in
          let whole : bit_xor h ((2 ^ 56 - 1) * 2 ^ 8 + b) ≡ bit_xor 0 (2 ^ 56 - 1) * 2 ^ 8 + t =
            ap (λ l. bit_xor l ((2 ^ 56 - 1) * 2 ^ 8 + b)) (sym low) ∙ above in
          ap (λ w. bit_and (bit_xor h w) 0xFF) (wide (ground (arith, e)))
          ∙ omega (arith, and_255 (bit_xor h ((2 ^ 56 - 1) * 2 ^ 8 + b)), whole, small)
    ]

-- The register with the byte added at its top.
register_lem :
    (hi lo b : ℕ)
    → lo < 2 ^ 56
    → bit_xor (bit_xor hi b * 2 ^ 56) lo ≡ bit_xor (hi * 2 ^ 56 + lo) (b * 2 ^ 56)
register_lem hi lo b h =
    let t = bit_xor hi b in
    let x : t * 2 ^ 56 + 0 ≡ t * 2 ^ 56 = omega arith in
    let y : 0 * 2 ^ 56 + lo ≡ lo = omega arith in
    let z : b * 2 ^ 56 + 0 ≡ b * 2 ^ 56 = omega arith in
    let apart = xor_split 56 t 0 0 lo (omega arith) h in
    let added = xor_split 56 hi lo b 0 h (omega arith) in
    ap (λ i. bit_xor i lo) (sym x)
    ∙ ap (bit_xor (t * 2 ^ 56 + 0)) (sym y)
    ∙ omega (arith, apart, added, xor_zero_right t, xor_zero_right lo, xor_zero_left lo)
    ∙ ap (bit_xor (hi * 2 ^ 56 + lo)) z

-- One round of the table is eight rounds of the register.
round_lem :
    (crc b : ℕ) → crc < 2 ^ 64 → b < 2 ^ 8 → crc_round crc b ≡ shift_8 (bit_xor crc (b * 2 ^ 56))
unfolding crc_round
round_lem crc b p q =
    let hi = crc / 2 ^ 56 in
    let lo = crc % 2 ^ 56 in
    let t = bit_xor hi b in
    let top : hi < 2 ^ 8 = omega (arith, p) in
    let small : t < 2 ^ 8 = xor_bound 8 hi b top q in
    let within : lo < 2 ^ 56 = omega arith in
    let from_zero : 0 + t ≡ t = omega arith in
    let looked : get_elem? crc64_table t ≡ some (shift_8 (t * 2 ^ 56)) =
      ap (λ l. get_elem? l t) table_lem
      ∙ get-remainders 256 t 0 small
      ∙ ap (λ i. some (shift_8 (i * 2 ^ 56))) from_zero in
    let moved : crc * 2 ^ 8 % 2 ^ 64 ≡ shift_8 lo = omega (arith, shift_8_low lo within) in
    let whole : hi * 2 ^ 56 + lo ≡ crc = omega arith in
    let register : bit_xor (t * 2 ^ 56) lo ≡ bit_xor crc (b * 2 ^ 56) =
      register_lem hi lo b within ∙ ap (λ c. bit_xor c (b * 2 ^ 56)) whole in
    ap (λ i. bit_xor (entry (get_elem? crc64_table i)) (crc * 2 ^ 8 % 2 ^ 64))
      (index_lem hi b top q)
    ∙ ap (λ v. bit_xor (entry v) (crc * 2 ^ 8 % 2 ^ 64)) looked
    ∙ ap (bit_xor (shift_8 (t * 2 ^ 56))) moved
    ∙ sym (shifts_xor 8 (t * 2 ^ 56) lo (omega (arith, small)) (omega (arith, within)))
    ∙ ap shift_8 register

-- With a register of 64 bits and a buffer of bytes, the checksum that is computed with the table and on
-- signed characters is the one that is computed bit by bit with the polynomial of ECMA-182.
pub crc64_be-crc_bitwise :
    (crc : ℕ) (p : List ℕ)
    → crc < 2 ^ 64
    → All (λ b. b < 2 ^ 8) p
    → crc64_be crc p ≡ crc_bitwise crc p
unfolding crc64_be crc_bitwise
crc64_be-crc_bitwise crc [] h small = refl
crc64_be-crc_bitwise crc (b ∷ p) h (small, rest) =
    let register = bit_xor crc (b * 2 ^ 56) in
    let bound : register < 2 ^ 64 = xor_bound 64 crc (b * 2 ^ 56) h (omega (arith, small)) in
    ap (λ c. crc64_be c p) (round_lem crc b h small)
    ∙ crc64_be-crc_bitwise (shift_8 register) p (shifts_bound 8 register bound) rest
