-- ===== src/Binary/LittleEndian.antt =====
-- The class `LittleEndian` of include/boltdb/util/binary.hpp.
use boltdb_cpp.Base.{
  ℕ, ◌≤◌, ◌≡◌, refl, sym, ap, ◌∙◌, List, [], ◌∷◌, ◌++◌, Option, none, some, ◌>>=◌, arith, length,
  get_elem?, set, drop, length-drop, length-append, All, leb, le→leb, if◌then◌else◌, append_assoc,
  append-nil,
}
use boltdb_cpp.Binary.Bytes.{
  Width, u8, u16, u32, u64, bytes, Fits, IsByte, byte, append, or_2, or_4, or_8, or_2_bytes,
  or_4_bytes, or_8_bytes,
}

-- `uint<T>(slice)`
unfoldable pub uint : Width → List ℕ → Option ℕ
uint u8 slice = get_elem? slice 0
uint u16 slice = do b₀ ← get_elem? slice 0; b₁ ← get_elem? slice 1; some (or_2 b₀ b₁)
uint u32 slice = do
  b₀ ← get_elem? slice 0
  b₁ ← get_elem? slice 1
  b₂ ← get_elem? slice 2
  b₃ ← get_elem? slice 3
  some (or_4 b₀ b₁ b₂ b₃)
uint u64 slice = do
  b₀ ← get_elem? slice 0
  b₁ ← get_elem? slice 1
  b₂ ← get_elem? slice 2
  b₃ ← get_elem? slice 3
  b₄ ← get_elem? slice 4
  b₅ ← get_elem? slice 5
  b₆ ← get_elem? slice 6
  b₇ ← get_elem? slice 7
  some (or_8 b₀ b₁ b₂ b₃ b₄ b₅ b₆ b₇)

-- The assignments of `put_uint`.
unfoldable pub puts : Width → List ℕ → ℕ → List ℕ
puts u8 slice v = set slice 0 (byte v 0)
puts u16 slice v = set (set slice 1 (byte v 8)) 0 (byte v 0)
puts u32 slice v = set (set (set (set slice 3 (byte v 24)) 2 (byte v 16)) 1 (byte v 8)) 0 (byte v 0)
puts u64 slice v =
    set
      (set
        (set
          (set (set (set (set (set slice 7 (byte v 56)) 6 (byte v 48)) 5 (byte v 40)) 4 (byte v 32))
            3 (byte v 24))
          2 (byte v 16))
        1 (byte v 8))
      0 (byte v 0)

-- `put_uint(slice, v)`: the slice shares its bytes with the caller's, so the result is what the caller
-- sees.
unfoldable pub put_uint : Width → List ℕ → ℕ → Option (List ℕ)
unfolding puts
put_uint w slice v = if leb (bytes w) (length slice) then some (puts w slice v) else none

-- `append_uint(slice, v)`
unfoldable pub append_uint : Width → List ℕ → ℕ → List ℕ
append_uint u8 slice v = append slice (byte v 0)
append_uint u16 slice v = append (append slice (byte v 0)) (byte v 8)
append_uint u32 slice v =
    append (append (append (append slice (byte v 0)) (byte v 8)) (byte v 16)) (byte v 24)
append_uint u64 slice v =
    append
      (append
        (append
          (append
            (append (append (append (append slice (byte v 0)) (byte v 8)) (byte v 16)) (byte v 24))
            (byte v 32))
          (byte v 40))
        (byte v 48))
      (byte v 56)

-- `append_variadic_uint(slice, integers...)`: the arguments with the widths of their types.
unfoldable pub append_variadic_uint : List ℕ → List (Width × ℕ) → List ℕ
append_variadic_uint slice [] = slice
append_variadic_uint slice ((w, v) ∷ integers) =
    append_variadic_uint (append_uint w slice v) integers

-- What `append_uint` appends.
unfoldable pub encoded : Width → ℕ → List ℕ
encoded u8 v = byte v 0 ∷ []
encoded u16 v = byte v 0 ∷ byte v 8 ∷ []
encoded u32 v = byte v 0 ∷ byte v 8 ∷ byte v 16 ∷ byte v 24 ∷ []
encoded u64 v =
    byte v 0 ∷ byte v 8 ∷ byte v 16 ∷ byte v 24 ∷ byte v 32 ∷ byte v 40 ∷ byte v 48 ∷ byte v 56 ∷ []

pub append_uint-encoded :
    (w : Width) (slice : List ℕ) (v : ℕ) → append_uint w slice v ≡ slice ++ encoded w v
unfolding append_uint encoded
append_uint-encoded u8 slice v = refl
append_uint-encoded u16 slice v = simp append_assoc
append_uint-encoded u32 slice v = simp append_assoc
append_uint-encoded u64 slice v = simp append_assoc

pub uint-encoded :
    (w : Width) (v : ℕ) (rest : List ℕ) → Fits w v → uint w (encoded w v ++ rest) ≡ some v
unfolding uint encoded
uint-encoded u8 v rest h = ap some (omega arith)
uint-encoded u16 v rest h = ap some (or_2_bytes v h)
uint-encoded u32 v rest h = ap some (or_4_bytes v h)
uint-encoded u64 v rest h = ap some (or_8_bytes v h)

pub length-encoded : (w : Width) (v : ℕ) → length (encoded w v) ≡ bytes w
unfolding encoded
length-encoded u8 v = refl
length-encoded u16 v = refl
length-encoded u32 v = refl
length-encoded u64 v = refl

pub encoded-IsByte : (w : Width) (v : ℕ) → All IsByte (encoded w v)
unfolding encoded
encoded-IsByte u8 v = omega arith
encoded-IsByte u16 v = omega arith
encoded-IsByte u32 v = omega arith
encoded-IsByte u64 v = omega arith

-- Reading gives back what was appended to an empty slice, whatever follows it.
pub uint-append_uint :
    (w : Width) (v : ℕ) (rest : List ℕ) → Fits w v → uint w (append_uint w [] v ++ rest) ≡ some v
uint-append_uint w v rest h = rw (append_uint-encoded w [] v) (uint-encoded w v rest h)

pub drop-encoded : (w : Width) (v : ℕ) (rest : List ℕ) → drop (bytes w) (encoded w v ++ rest) ≡ rest
unfolding encoded
drop-encoded u8 v rest = refl
drop-encoded u16 v rest = refl
drop-encoded u32 v rest = refl
drop-encoded u64 v rest = refl

puts-encoded :
    (w : Width) (slice : List ℕ) (v : ℕ)
    → bytes w ≤ length slice
    → puts w slice v ≡ encoded w v ++ drop (bytes w) slice
unfolding puts encoded
puts-encoded u8 (a ∷ s) v h = refl
puts-encoded u16 (a ∷ b ∷ s) v h = refl
puts-encoded u32 (a ∷ b ∷ c ∷ d ∷ s) v h = refl
puts-encoded u64 (a ∷ b ∷ c ∷ d ∷ e ∷ f ∷ g ∷ i ∷ s) v h = refl
puts-encoded _ _ v h = absurd (omega arith)

-- A slice that is long enough takes the number at its front and keeps what stands behind it, and
-- reading gives the number back.
pub uint-put_uint :
    (w : Width) (slice : List ℕ) (v : ℕ)
    → bytes w ≤ length slice
    → Fits w v
    → (s : List ℕ) × (put_uint w slice v ≡ some s)
      × (uint w s ≡ some v)
      × (length s ≡ length slice)
      × (drop (bytes w) s ≡ drop (bytes w) slice)
unfolding put_uint
uint-put_uint w slice v h fits = (
  puts w slice v,
  rw (le→leb _ _ h),
  rw (puts-encoded w slice v h) (uint-encoded w v (drop (bytes w) slice) fits),
  rw (puts-encoded w slice v h) (
      omega (
        arith,
        length-append (encoded w v) (drop (bytes w) slice),
        length-encoded w v,
        length-drop (bytes w) slice,
      )),
  rw (puts-encoded w slice v h) (drop-encoded w v (drop (bytes w) slice)),
)

-- The bytes of several integers, one after the other.
abbrev pub encoded_all : List (Width × ℕ) → List ℕ
encoded_all [] = []
encoded_all ((w, v) ∷ integers) = encoded w v ++ encoded_all integers

pub append_variadic_uint-encoded :
    (integers : List (Width × ℕ)) (slice : List ℕ)
    → append_variadic_uint slice integers ≡ slice ++ encoded_all integers
unfolding append_variadic_uint
append_variadic_uint-encoded [] slice = sym (append-nil slice)
append_variadic_uint-encoded ((w, v) ∷ integers) slice =
    append_variadic_uint-encoded integers (append_uint w slice v)
    ∙ rw (append_uint-encoded w slice v) (append_assoc slice (encoded w v) (encoded_all integers))
