-- ===== src/Node/Serial/Element.antt =====
-- One element of a branch page as `Node::write` of src/page/node.cpp leaves it.
use boltdb_cpp.Base.{
  ℕ, ◌+◌, ◌-◌, ◌≤◌, ◌≡◌, subst, ◌∙◌, ◌⊎◌, inl, inr, List, [], some, length, arith, le→leb,
  append-nil,
}
use boltdb_cpp.Binary.Bytes.{Width, u32, u64, bytes, Fits}
use boltdb_cpp.Binary.LittleEndian
use boltdb_cpp.Page.Memory.{
  slice, splice, load, store, load_bytes, store_bytes_fits, length-splice, slice-splice_self,
  slice-splice_before, slice-splice_after,
}
use boltdb_cpp.Node.{Inode}
use boltdb_cpp.Node.Serial.{write_branch_element}

-- Where the bytes of a number stand, a load gives the number.
pub load-slice :
    (w : Width) (at v : ℕ) (mem : List ℕ)
    → at + bytes w ≤ length mem
    → slice at (bytes w) mem ≡ LittleEndian.encoded w v
    → Fits w v
    → load w mem at ≡ some v
unfolding load load_bytes
load-slice w at v mem h e fits = rw (le→leb _ _ h) (
    rw e (
      subst (λ (bs : List ℕ). LittleEndian.uint w bs ≡ some v)
        (append-nil (LittleEndian.encoded w v)) (LittleEndian.uint-encoded w v [] fits)))

-- A store that fits: what it leaves.
store_lem :
    (w : Width) (at v : ℕ) (mem : List ℕ)
    → at + bytes w ≤ length mem
    → (store w at v mem ≡ some (splice at (LittleEndian.encoded w v) mem))
      × (length (splice at (LittleEndian.encoded w v) mem) ≡ length mem)
      × (slice at (bytes w) (splice at (LittleEndian.encoded w v) mem) ≡ LittleEndian.encoded w v)
unfolding store
store_lem w at v mem h =
    let n = LittleEndian.length-encoded w v in
    (
      store_bytes_fits at (LittleEndian.encoded w v) mem (omega (arith, n)),
      length-splice at (LittleEndian.encoded w v) mem,
      subst (λ k. slice at k (splice at (LittleEndian.encoded w v) mem) ≡ LittleEndian.encoded w v)
          n (slice-splice_self at (LittleEndian.encoded w v) mem (omega (arith, n))),
    )

apart :
    (o n at : ℕ) (bs mem : List ℕ)
    → (o + n ≤ at) ⊎ (at + length bs ≤ o)
    → slice o n (splice at bs mem) ≡ slice o n mem
apart o n at bs mem (inl h) = slice-splice_before o n at bs mem h
apart o n at bs mem (inr h) = slice-splice_after o n at bs mem h

-- The element at `at` with its key at `base`.
pub record Element (at base : ℕ) (x : Inode) (mem : List ℕ) : Type 0 where
  pub pos : slice at 4 mem ≡ LittleEndian.encoded u32 (base - at)
  pub key_size : slice (at + 4) 4 mem ≡ LittleEndian.encoded u32 (length x.key)
  pub pgid : slice (at + 8) 8 mem ≡ LittleEndian.encoded u64 x.pgid
  pub key : slice base (length x.key) mem ≡ x.key

-- The bytes outside of the element and its key are those of before.
abbrev pub Frame : ℕ → ℕ → ℕ → List ℕ → List ℕ → Type 0
Frame at base size mem mem' =
    (o n : ℕ)
    → (o + n ≤ at) ⊎ ((at + 16 ≤ o) × (o + n ≤ base)) ⊎ ((base + size ≤ o) × (at + 16 ≤ base))
    → slice o n mem' ≡ slice o n mem

module _ (at base : ℕ) (x : Inode) (mem : List ℕ) (room : at + 16 ≤ base) where
  abbrev m₁ : List ℕ
  m₁ = splice at (LittleEndian.encoded u32 (base - at)) mem

  abbrev m₂ : List ℕ
  m₂ = splice (at + 4) (LittleEndian.encoded u32 (length x.key)) m₁

  abbrev pub m₃ : List ℕ
  m₃ = splice (at + 8) (LittleEndian.encoded u64 x.pgid) m₂

  abbrev pub m₄ : List ℕ
  m₄ = splice base x.key m₃

  length₁ : length (LittleEndian.encoded u32 (base - at)) ≡ 4
  length₁ = LittleEndian.length-encoded u32 (base - at)

  length₂ : length (LittleEndian.encoded u32 (length x.key)) ≡ 4
  length₂ = LittleEndian.length-encoded u32 (length x.key)

  length₃ : length (LittleEndian.encoded u64 x.pgid) ≡ 8
  length₃ = LittleEndian.length-encoded u64 x.pgid

  pub frame : Frame at base (length x.key) mem m₄
  frame o n (inl h) =
      apart o n base x.key m₃ (inl (omega arith))
      ∙ apart o n (at + 8) _ m₂ (inl (omega arith))
      ∙ apart o n (at + 4) _ m₁ (inl (omega arith))
      ∙ apart o n at _ mem (inl h)
  frame o n (inr (inl (h, k))) =
      apart o n base x.key m₃ (inl k)
      ∙ apart o n (at + 8) _ m₂ (inr (omega (arith, length₃)))
      ∙ apart o n (at + 4) _ m₁ (inr (omega (arith, length₂)))
      ∙ apart o n at _ mem (inr (omega (arith, length₁)))
  frame o n (inr (inr (h, k))) =
      apart o n base x.key m₃ (inr h)
      ∙ apart o n (at + 8) _ m₂ (inr (omega (arith, length₃)))
      ∙ apart o n (at + 4) _ m₁ (inr (omega (arith, length₂)))
      ∙ apart o n at _ mem (inr (omega (arith, length₁)))

  module _ (fits : base + length x.key ≤ length mem) where
    same₁ : length m₁ ≡ length mem
    same₁ = length-splice at _ mem

    same₂ : length m₂ ≡ length mem
    same₂ = length-splice (at + 4) _ m₁ ∙ same₁

    pub same₃ : length m₃ ≡ length mem
    same₃ = length-splice (at + 8) _ m₂ ∙ same₂

    pub written_element : write_branch_element at base x mem ≡ some m₄
    unfolding write_branch_element
    written_element =
        let (e₁, _, _) = store_lem u32 at (base - at) mem (omega arith) in
        let (e₂, _, _) = store_lem u32 (at + 4) (length x.key) m₁ (omega (arith, same₁)) in
        let (e₃, _, _) = store_lem u64 (at + 8) x.pgid m₂ (omega (arith, same₂)) in
        rw e₁ (rw e₂ (rw e₃ (store_bytes_fits base x.key m₃ (omega (arith, same₃)))))

    pub element : Element at base x m₄
    element =
        let (_, _, s₁) = store_lem u32 at (base - at) mem (omega arith) in
        let (_, _, s₂) = store_lem u32 (at + 4) (length x.key) m₁ (omega (arith, same₁)) in
        let (_, _, s₃) = store_lem u64 (at + 8) x.pgid m₂ (omega (arith, same₂)) in
        record {
          pos =
              apart at 4 base x.key m₃ (inl (omega arith))
              ∙ apart at 4 (at + 8) _ m₂ (inl (omega arith))
              ∙ apart at 4 (at + 4) _ m₁ (inl (omega arith))
              ∙ s₁;
          key_size =
              apart (at + 4) 4 base x.key m₃ (inl (omega arith))
              ∙ apart (at + 4) 4 (at + 8) _ m₂ (inl (omega arith))
              ∙ s₂;
          pgid = apart (at + 8) 8 base x.key m₃ (inl (omega arith)) ∙ s₃;
          key = slice-splice_self base x.key m₃ (omega (arith, same₃));
        }
