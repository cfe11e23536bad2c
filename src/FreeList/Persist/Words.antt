-- ===== src/FreeList/Persist/Words.antt =====
-- Arrays of page ids in the buffer of a page (src/page/freelist.cpp).
use boltdb_cpp.Base.{
  ℕ, ◌+◌, ◌*◌, ◌≡◌, refl, ap, ◌∙◌, List, [], ◌∷◌, ◌++◌, some, arith, length, length-append, drop,
  All, append_assoc,
}
use boltdb_cpp.Binary.Bytes.{u64, Fits}
use boltdb_cpp.Binary.LittleEndian
use boltdb_cpp.Page.Memory.{load_lem, drop-drop}
use boltdb_cpp.FreeList.Persist.{ids_bytes, load_ids}

pub length-ids_bytes : (xs : List ℕ) → length (ids_bytes xs) ≡ 8 * length xs
length-ids_bytes [] = refl
length-ids_bytes (x ∷ xs) = omega (
  arith,
  length-append (LittleEndian.encoded u64 x) (ids_bytes xs),
  LittleEndian.length-encoded u64 x,
  length-ids_bytes xs,
)

pub load_ids_lem :
    (xs : List ℕ) (at : ℕ) (mem rest : List ℕ)
    → All (Fits u64) xs
    → drop at mem ≡ ids_bytes xs ++ rest
    → load_ids (length xs) at mem ≡ some xs
unfolding load_ids
load_ids_lem [] at mem rest fits e = refl
load_ids_lem (x ∷ xs) at mem rest (fit, fits) e =
    let e' = e ∙ append_assoc (LittleEndian.encoded u64 x) (ids_bytes xs) rest in
    let next : drop (at + 8) mem ≡ ids_bytes xs ++ rest =
      drop-drop at 8 mem
      ∙ ap (drop 8) e'
      ∙ LittleEndian.drop-encoded u64 x (ids_bytes xs ++ rest) in
    rw (load_lem u64 at x mem (ids_bytes xs ++ rest) e' fit)
      (rw (load_ids_lem xs (at + 8) mem rest fits next))
