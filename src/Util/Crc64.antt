-- ===== src/Util/Crc64.antt =====
-- include/boltdb/util/crc64.hpp and src/util/crc64.cpp: the checksum of a meta page.
pub mod Table
pub mod Register
pub mod Bitwise
use Prim.Native.Nat.{bit_and, bit_xor}
use boltdb_cpp.Base.{
  ℕ, ◌+◌, ◌-◌, ◌*◌, ◌/◌, ◌%◌, ◌^◌, ◌≡◌, refl, List, [], ◌∷◌, ◌++◌, Option, none, some, foldl, arith,
  ltb, if◌then◌else◌, get_elem?,
}
use Table.{crc64_table}

-- `*p` is a signed `char`, which is widened to 64 bits with its sign.
abbrev pub widen : ℕ → ℕ
widen b = if ltb b 128 then b else b + 2 ^ 64 - 256

abbrev pub entry : Option ℕ → ℕ
entry none = 0
entry (some v) = v

-- One round: `t` is below 256, so it is an index of the table.
unfoldable pub crc_round : ℕ → ℕ → ℕ
unfolding crc64_table
crc_round crc b =
    let t = bit_and (bit_xor (crc / 2 ^ 56) (widen b)) 0xFF in
    bit_xor (entry (get_elem? crc64_table t)) (crc * 2 ^ 8 % 2 ^ 64)

unfoldable pub crc64_be : ℕ → List ℕ → ℕ
unfolding crc_round
crc64_be crc [] = crc
crc64_be crc (b ∷ p) = crc64_be (crc_round crc b) p

-- The checksum of a buffer can be computed in pieces, each seeded with the one before.
pub crc64_be-append : (crc : ℕ) (p q : List ℕ) → crc64_be crc (p ++ q) ≡ crc64_be (crc64_be crc p) q
unfolding crc64_be
crc64_be-append crc [] q = refl
crc64_be-append crc (b ∷ p) q = crc64_be-append (crc_round crc b) p q
