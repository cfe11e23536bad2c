-- ===== src/Node/Serial/Branch.antt =====
-- A branch node that `Node::write` of src/page/node.cpp puts on a page, as `Node::read` reads it.
use boltdb_cpp.Base.{
  ℕ, ◌+◌, ◌-◌, ◌*◌, ◌^◌, ◌≤◌, ◌<◌, ◌≡◌, refl, sym, ap, ◌∙◌, ◌⊎◌, inl, inr, List, [], ◌∷◌, some,
  length, arith, All, le→leb,
}
use boltdb_cpp.Binary.Bytes.{u32, u64, Fits}
use boltdb_cpp.Page.{branch_page_element, branch_key}
use boltdb_cpp.Page.Memory.{slice, load_bytes, length-splice}
use boltdb_cpp.Node.{Inode}
use boltdb_cpp.Node.Serial.{read_branch, write_branch}
use boltdb_cpp.Node.Serial.Element.{
  load-slice, Element, frame, element, written_element, same₃, m₃, m₄,
}

-- What a branch node has: page ids and keys only.
abbrev pub IsBranch : Inode → Type 0
IsBranch x = (x.flags ≡ 0) × (x.value ≡ []) × Fits u64 x.pgid

abbrev pub keys_size : List Inode → ℕ
keys_size [] = 0
keys_size (x ∷ xs) = length x.key + keys_size xs

element_of :
    (x : Inode) → IsBranch x → record { flags = 0; pgid = x.pgid; key = x.key; value = [] } ≡ x
element_of x (f, v, p) =
    λ i. record { flags = sym f i; pgid = x.pgid; key = x.key; value = sym v i }

read-Element :
    (i base : ℕ) (x : Inode) (mem : List ℕ)
    → Element (16 * i) base x mem
    → 16 * i + 16 ≤ base
    → base + length x.key ≤ length mem
    → length mem < 2 ^ 32
    → Fits u64 x.pgid
    → (branch_page_element mem i
        ≡ some (record { pos = base - 16 * i; key_size = length x.key; pgid = x.pgid }))
      × (branch_key mem i ≡ some x.key)
unfolding branch_page_element branch_key load_bytes
read-Element i base x mem e room fits small p =
    let l₁ = load-slice u32 (16 * i) (base - 16 * i) mem (omega arith) e.pos (omega arith) in
    let l₂ =
      load-slice u32 (16 * i + 4) (length x.key) mem (omega arith) e.key_size (omega arith) in
    let l₃ = load-slice u64 (16 * i + 8) x.pgid mem (omega arith) e.pgid p in
    let place : 16 * i + (base - 16 * i) ≡ base = omega arith in
    (
      rw l₁ (rw l₂ (rw l₃ refl)),
      rw l₁ (rw l₂ (rw l₃ (rw place (rw (le→leb _ _ fits) (ap some e.key))))),
    )

abbrev Kept : ℕ → ℕ → ℕ → List ℕ → List ℕ → Type 0
Kept first last base mem mem' =
    (o n : ℕ) → (o + n ≤ first) ⊎ ((last ≤ o) × (o + n ≤ base)) → slice o n mem' ≡ slice o n mem

-- The element stays where the rest of the loop keeps the bytes.
Element-Kept :
    (i base last : ℕ) (x : Inode) (mem mem' : List ℕ)
    → 16 * i + 16 ≤ base
    → last ≤ base
    → Kept (16 * (i + 1)) last (base + length x.key) mem mem'
    → Element (16 * i) base x mem
    → Element (16 * i) base x mem'
Element-Kept i base last x mem mem' room low kept e = record {
  pos = kept (16 * i) 4 (inl (omega arith)) ∙ e.pos;
  key_size = kept (16 * i + 4) 4 (inl (omega arith)) ∙ e.key_size;
  pgid = kept (16 * i + 8) 8 (inl (omega arith)) ∙ e.pgid;
  key = kept base (length x.key) (inr (low, omega arith)) ∙ e.key;
}

-- The bytes that an element and the rest of the loop keep.
Kept-after :
    (i base : ℕ) (x : Inode) (xs : List Inode) (mem mem' : List ℕ) (space : 16 * i + 16 ≤ base)
    → 16 * (i + length (x ∷ xs)) ≤ base
    → Kept
        (16 * (i + 1))
        (16 * (i + 1 + length xs))
        (base + length x.key)
        (m₄ (16 * i) base x mem space)
        mem'
    → Kept (16 * i) (16 * (i + length (x ∷ xs))) base mem mem'
Kept-after i base x xs mem mem' space room kept o n (inl k) =
    kept o n (inl (omega arith)) ∙ frame (16 * i) base x mem space o n (inl k)
Kept-after i base x xs mem mem' space room kept o n (inr (k, m)) =
    kept o n (inr (omega arith, omega arith))
    ∙ frame (16 * i) base x mem space o n (inr (inl (omega arith, m)))

pub write_branch_lem :
    (xs : List Inode) (i base : ℕ) (mem : List ℕ)
    → All IsBranch xs
    → 16 * (i + length xs) ≤ base
    → base + keys_size xs ≤ length mem
    → length mem < 2 ^ 32
    → (mem' : List ℕ) × (write_branch i base xs mem ≡ some mem')
      × (length mem' ≡ length mem)
      × Kept (16 * i) (16 * (i + length xs)) base mem mem'
      × (read_branch (length xs) i mem' ≡ some xs)
unfolding write_branch read_branch
write_branch_lem [] i base mem b room fits small = (mem, refl, refl, λ o n h. refl, refl)
write_branch_lem (x ∷ xs) i base mem (b, bs) room fits small =
    let at : ℕ = 16 * i in
    let space : at + 16 ≤ base = omega arith in
    let inside : base + length x.key ≤ length mem = omega arith in
    let mem₁ = m₄ at base x mem space in
    let same : length mem₁ ≡ length mem =
      length-splice base x.key (m₃ at base x mem space) ∙ same₃ at base x mem space inside in
    let e = element at base x mem space inside in
    let (mem', w, l, kept, r) =
      write_branch_lem xs (i + 1) (base + length x.key) mem₁ bs (omega arith) (omega (arith, same))
        (omega (arith, same)) in
    let e' : Element at base x mem' =
      Element-Kept i base (16 * (i + 1 + length xs)) x mem₁ mem' space (omega arith) kept e in
    let (q₁, q₂) =
      read-Element i base x mem' e' space (omega (arith, l, same)) (omega (arith, l, same)) b.2 in
    (
      mem',
      rw (written_element at base x mem space inside) w,
      l ∙ same,
      Kept-after i base x xs mem mem' space room kept,
      rw q₁ (rw q₂ (rw r (ap (λ y. some (y ∷ xs)) (element_of x b)))),
    )
