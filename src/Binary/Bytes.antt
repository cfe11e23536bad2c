-- ===== src/Binary/Bytes.antt =====
-- The pieces that both byte orders of include/boltdb/util/binary.hpp are made of.
use Prim.Native.Nat.{bit_or}
use boltdb_cpp.Base.{ℕ, ◌+◌, ◌*◌, ◌/◌, ◌%◌, ◌^◌, ◌<◌, ◌≡◌, sym, ◌∙◌, List, [], ◌∷◌, ◌++◌, arith}
use native.Mathlib.Nat.{mod-eq_of_lt}
use boltdb_cpp.Base.Bits.{bit_or_disjoint}

-- The type that a template is instantiated with, by its size.
pub data Width : Type 0 where
  u8 u16 u32 u64 : Width

abbrev pub bytes : Width → ℕ
bytes u8 = 1
bytes u16 = 2
bytes u32 = 4
bytes u64 = 8

abbrev pub bits : Width → ℕ
bits w = 8 * bytes w

abbrev pub Fits : Width → ℕ → Type 0
Fits w v = v < 2 ^ bits w

abbrev pub IsByte : ℕ → Type 0
IsByte b = b < 256

-- `static_cast<Byte>(v >> k)`
abbrev pub byte : ℕ → ℕ → ℕ
byte v k = v / 2 ^ k % 256

-- `static_cast<UnsignedT>(b) << k`
abbrev pub shl : Width → ℕ → ℕ → ℕ
shl w b k = b * 2 ^ k % 2 ^ bits w

-- `slice.append(b)`
abbrev pub append : List ℕ → ℕ → List ℕ
append slice b = slice ++ (b ∷ [])

-- `|` of the bytes, in the order in which the source names them.
abbrev pub or_2 : ℕ → ℕ → ℕ
or_2 b₀ b₁ = bit_or b₀ (shl u16 b₁ 8)

abbrev pub or_4 : ℕ → ℕ → ℕ → ℕ → ℕ
or_4 b₀ b₁ b₂ b₃ = bit_or (bit_or (bit_or b₀ (shl u32 b₁ 8)) (shl u32 b₂ 16)) (shl u32 b₃ 24)

abbrev pub or_8 : ℕ → ℕ → ℕ → ℕ → ℕ → ℕ → ℕ → ℕ → ℕ
or_8 b₀ b₁ b₂ b₃ b₄ b₅ b₆ b₇ =
    bit_or
      (bit_or
        (bit_or
          (bit_or (bit_or (bit_or (bit_or b₀ (shl u64 b₁ 8)) (shl u64 b₂ 16)) (shl u64 b₃ 24))
            (shl u64 b₄ 32))
          (shl u64 b₅ 40))
        (shl u64 b₆ 48))
      (shl u64 b₇ 56)

or_shl :
    (w : Width) (a b k m : ℕ)
    → a < 2 ^ k
    → b * 2 ^ k < 2 ^ bits w
    → m ≡ a + b * 2 ^ k
    → bit_or a (shl w b k) ≡ m
or_shl w a b k m lt fits e = rw (mod-eq_of_lt fits) (bit_or_disjoint k a b lt ∙ sym e)

pub or_2_bytes : (v : ℕ) → Fits u16 v → or_2 (byte v 0) (byte v 8) ≡ v
or_2_bytes v h = or_shl u16 (byte v 0) (byte v 8) 8 v (omega arith) (omega arith) (omega arith)

-- One more byte of `v` on top of its lowest `k` bits.
or_next :
    (w : Width) (v k : ℕ)
    → v % 2 ^ k < 2 ^ k
    → byte v k * 2 ^ k < 2 ^ bits w
    → v % 2 ^ (k + 8) ≡ v % 2 ^ k + byte v k * 2 ^ k
    → bit_or (v % 2 ^ k) (shl w (byte v k) k) ≡ v % 2 ^ (k + 8)
or_next w v k lt fits e = or_shl w (v % 2 ^ k) (byte v k) k (v % 2 ^ (k + 8)) lt fits e

first_byte : (v : ℕ) → byte v 0 ≡ v % 2 ^ 8
first_byte v = omega arith

pub or_4_bytes : (v : ℕ) → Fits u32 v → or_4 (byte v 0) (byte v 8) (byte v 16) (byte v 24) ≡ v
or_4_bytes v h = rw (first_byte v) (
    rw (or_next u32 v 8 (omega arith) (omega arith) (omega arith)) (
      rw (or_next u32 v 16 (omega arith) (omega arith) (omega arith))
        (rw (or_next u32 v 24 (omega arith) (omega arith) (omega arith)) (omega arith))))

pub or_8_bytes :
    (v : ℕ)
    → Fits u64 v
    → or_8
        (byte v 0)
        (byte v 8)
        (byte v 16)
        (byte v 24)
        (byte v 32)
        (byte v 40)
        (byte v 48)
        (byte v 56)
      ≡ v
or_8_bytes v h = rw (first_byte v) (
    rw (or_next u64 v 8 (omega arith) (omega arith) (omega arith)) (
      rw (or_next u64 v 16 (omega arith) (omega arith) (omega arith)) (
        rw (or_next u64 v 24 (omega arith) (omega arith) (omega arith)) (
          rw (or_next u64 v 32 (omega arith) (omega arith) (omega arith)) (
            rw (or_next u64 v 40 (omega arith) (omega arith) (omega arith)) (
              rw (or_next u64 v 48 (omega arith) (omega arith) (omega arith)) (
                rw (or_next u64 v 56 (omega arith) (omega arith) (omega arith)) (omega arith))))))))
