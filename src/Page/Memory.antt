-- ===== src/Page/Memory.antt =====
-- The buffer of a page (src/page/page.cpp reads and writes it through casts): bytes with loads and
-- stores in the machine's byte order, which is little-endian.
use boltdb_cpp.Base.{
  ℕ, zero, suc, ◌+◌, ◌≤◌, ◌<◌, ◌≡◌, refl, sym, ap, ◌∙◌, List, [], ◌∷◌, ◌++◌, Option, none, some,
  ◌>>=◌, arith, leb, le→leb, lt→leb, if◌then◌else◌, length, take, drop, length-drop, length-append,
  append-nil, subst,
}
use boltdb_cpp.Binary.Bytes.{Width, u8, u16, u32, u64, bytes, Fits}
use boltdb_cpp.Binary.LittleEndian

abbrev pub slice : ℕ → ℕ → List ℕ → List ℕ
slice at n mem = take n (drop at mem)

-- The bytes `bs` over those of `mem`.
abbrev pub over : List ℕ → List ℕ → List ℕ
over [] mem = mem
over (b ∷ bs) [] = []
over (b ∷ bs) (m ∷ mem) = b ∷ over bs mem

unfoldable pub splice : ℕ → List ℕ → List ℕ → List ℕ
splice zero bs mem = over bs mem
splice (suc at) bs [] = []
splice (suc at) bs (m ∷ mem) = m ∷ splice at bs mem

unfoldable pub load_bytes : ℕ → ℕ → List ℕ → Option (List ℕ)
load_bytes at n mem = if leb (at + n) (length mem) then some (slice at n mem) else none

unfoldable pub store_bytes : ℕ → List ℕ → List ℕ → Option (List ℕ)
store_bytes at bs mem = if leb (at + length bs) (length mem) then some (splice at bs mem) else none

-- `*reinterpret_cast<T*>(p)` on the right and on the left of an assignment.
unfoldable pub load : Width → List ℕ → ℕ → Option ℕ
load w mem at = do bs ← load_bytes at (bytes w) mem; LittleEndian.uint w bs

unfoldable pub store : Width → ℕ → ℕ → List ℕ → Option (List ℕ)
store w at v mem = store_bytes at (LittleEndian.encoded w v) mem

length-over : (bs mem : List ℕ) → length (over bs mem) ≡ length mem
length-over [] mem = refl
length-over (b ∷ bs) [] = refl
length-over (b ∷ bs) (m ∷ mem) = ap suc (length-over bs mem)

pub length-splice : (at : ℕ) (bs mem : List ℕ) → length (splice at bs mem) ≡ length mem
unfolding splice
length-splice zero bs mem = length-over bs mem
length-splice (suc at) bs [] = refl
length-splice (suc at) bs (m ∷ mem) = ap suc (length-splice at bs mem)

take-over : (bs mem : List ℕ) → length bs ≤ length mem → take (length bs) (over bs mem) ≡ bs
take-over [] mem h = refl
take-over (b ∷ bs) [] h = absurd (omega arith)
take-over (b ∷ bs) (m ∷ mem) h = ap (◌∷◌ b) (take-over bs mem (omega arith))

-- What was stored is read back.
pub slice-splice_self :
    (at : ℕ) (bs mem : List ℕ)
    → at + length bs ≤ length mem
    → slice at (length bs) (splice at bs mem) ≡ bs
unfolding splice
slice-splice_self zero bs mem h = take-over bs mem (omega arith)
slice-splice_self (suc at) [] [] h = refl
slice-splice_self (suc at) (b ∷ bs) [] h = absurd (omega arith)
slice-splice_self (suc at) bs (m ∷ mem) h = slice-splice_self at bs mem (omega arith)

-- A store leaves the bytes before it and behind it alone.
pub slice-splice_before :
    (o n at : ℕ) (bs mem : List ℕ) → o + n ≤ at → slice o n (splice at bs mem) ≡ slice o n mem
unfolding splice
slice-splice_before zero zero at bs mem h = refl
slice-splice_before zero (suc n) zero bs mem h = absurd (omega arith)
slice-splice_before zero (suc n) (suc at) bs [] h = refl
slice-splice_before zero (suc n) (suc at) bs (m ∷ mem) h =
    ap (◌∷◌ m) (slice-splice_before zero n at bs mem (omega arith))
slice-splice_before (suc o) n zero bs mem h = absurd (omega arith)
slice-splice_before (suc o) n (suc at) bs [] h = refl
slice-splice_before (suc o) n (suc at) bs (m ∷ mem) h =
    slice-splice_before o n at bs mem (omega arith)

drop-over : (o : ℕ) (bs mem : List ℕ) → length bs ≤ o → drop o (over bs mem) ≡ drop o mem
drop-over o [] mem h = refl
drop-over zero (b ∷ bs) mem h = absurd (omega arith)
drop-over (suc o) (b ∷ bs) [] h = refl
drop-over (suc o) (b ∷ bs) (m ∷ mem) h = drop-over o bs mem (omega arith)

pub drop-splice :
    (o at : ℕ) (bs mem : List ℕ) → at + length bs ≤ o → drop o (splice at bs mem) ≡ drop o mem
unfolding splice
drop-splice o zero bs mem h = drop-over o bs mem (omega arith)
drop-splice zero (suc at) bs mem h = absurd (omega arith)
drop-splice (suc o) (suc at) bs [] h = refl
drop-splice (suc o) (suc at) bs (m ∷ mem) h = drop-splice o at bs mem (omega arith)

pub slice-splice_after :
    (o n at : ℕ) (bs mem : List ℕ)
    → at + length bs ≤ o
    → slice o n (splice at bs mem) ≡ slice o n mem
slice-splice_after o n at bs mem h = ap (take n) (drop-splice o at bs mem h)

drop-over_self :
    (bs mem : List ℕ) → length bs ≤ length mem → over bs mem ≡ bs ++ drop (length bs) mem
drop-over_self [] mem h = refl
drop-over_self (b ∷ bs) [] h = absurd (omega arith)
drop-over_self (b ∷ bs) (m ∷ mem) h = ap (◌∷◌ b) (drop-over_self bs mem (omega arith))

-- From the place of a store on, the buffer shows the stored bytes and then what stood behind them.
pub drop-splice_self :
    (at : ℕ) (bs mem : List ℕ)
    → at + length bs ≤ length mem
    → drop at (splice at bs mem) ≡ bs ++ drop (length bs) (drop at mem)
unfolding splice
drop-splice_self zero bs mem h = drop-over_self bs mem (omega arith)
drop-splice_self (suc at) [] [] h = refl
drop-splice_self (suc at) (b ∷ bs) [] h = absurd (omega arith)
drop-splice_self (suc at) bs (m ∷ mem) h = drop-splice_self at bs mem (omega arith)

drop-nil : (n : ℕ) → drop {A = ℕ} n [] ≡ []
drop-nil zero = refl
drop-nil (suc n) = refl

pub drop-drop : (n m : ℕ) (xs : List ℕ) → drop (n + m) xs ≡ drop m (drop n xs)
drop-drop zero m xs = ground arith
drop-drop (suc n) m [] = drop-nil (suc n + m) ∙ sym (drop-nil m)
drop-drop (suc n) m (x ∷ xs) =
    let e : suc n + m ≡ suc (n + m) = omega arith in rw e (drop-drop n m xs)

pub take-append_length : (xs ys : List ℕ) → take (length xs) (xs ++ ys) ≡ xs
take-append_length [] ys = refl
take-append_length (x ∷ xs) ys = ap (◌∷◌ x) (take-append_length xs ys)

pub drop-append_length : (xs ys : List ℕ) → drop (length xs) (xs ++ ys) ≡ ys
drop-append_length [] ys = refl
drop-append_length (x ∷ xs) ys = drop-append_length xs ys

pub load_bytes_lem :
    (at n : ℕ) (mem bs rest : List ℕ)
    → drop at mem ≡ bs ++ rest
    → n ≡ length bs
    → 0 < n
    → load_bytes at n mem ≡ some bs
unfolding load_bytes
load_bytes_lem at n mem bs rest e same pos =
    let fits : at + n ≤ length mem =
      omega (arith, ap length e, length-drop at mem, length-append bs rest) in
    rw (le→leb _ _ fits) (rw (e, same) (ap some (take-append_length bs rest)))

bytes-pos : (w : Width) → 0 < bytes w
bytes-pos u8 = omega arith
bytes-pos u16 = omega arith
bytes-pos u32 = omega arith
bytes-pos u64 = omega arith

-- A load where the bytes of a number stand gives the number.
pub load_lem :
    (w : Width) (at v : ℕ) (mem rest : List ℕ)
    → drop at mem ≡ LittleEndian.encoded w v ++ rest
    → Fits w v
    → load w mem at ≡ some v
unfolding load
load_lem w at v mem rest e fits =
    rw
      (load_bytes_lem at (bytes w) mem (LittleEndian.encoded w v) rest e
        (sym (LittleEndian.length-encoded w v)) (bytes-pos w))
      (subst (λ (bs : List ℕ). LittleEndian.uint w bs ≡ some v)
        (append-nil (LittleEndian.encoded w v)) (LittleEndian.uint-encoded w v [] fits))

pub store_bytes_fits :
    (at : ℕ) (bs mem : List ℕ)
    → at + length bs ≤ length mem
    → store_bytes at bs mem ≡ some (splice at bs mem)
unfolding store_bytes
store_bytes_fits at bs mem h = rw (le→leb _ _ h)

pub store_bytes_overruns :
    (at : ℕ) (bs mem : List ℕ) → length mem < at + length bs → store_bytes at bs mem ≡ none
unfolding store_bytes
store_bytes_overruns at bs mem h = rw (lt→leb _ _ h)
