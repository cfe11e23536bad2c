-- ===== src/Node/Size.antt =====
-- The sizes of a `Node` (src/page/node.cpp).
use boltdb_cpp.Base.{
  ℕ, zero, suc, ◌+◌, ◌-◌, ◌%◌, ◌^◌, ◌≤◌, ◌<◌, ◌≡◌, refl, ◌∙◌, Bool, true, false, ◌&&◌, ◌||◌, List,
  [], ◌∷◌, foldl, Option, some, arith, ltb, leb, length, take, Bool-cases, inl, inr,
}
use boltdb_cpp.Page.{page_header_size, min_keys_per_page}
use boltdb_cpp.Node.{
  Node, Inode, inode_size, page_element_size, byte_size, size_loop, is_size_less_than, split_loop,
  split_index,
}

-- What a list of inodes adds to the size of a page.
abbrev pub inodes_size : ℕ → List Inode → ℕ
inodes_size elsz [] = 0
inodes_size elsz (inode ∷ inodes) = inode_size elsz inode + inodes_size elsz inodes

foldl-inodes_size :
    (elsz init : ℕ) (inodes : List Inode)
    → foldl (λ acc inode. acc + inode_size elsz inode) init inodes ≡ init + inodes_size elsz inodes
foldl-inodes_size elsz init [] = omega arith
foldl-inodes_size elsz init (inode ∷ inodes) =
    foldl-inodes_size elsz (init + inode_size elsz inode) inodes ∙ omega arith

-- The header and, for each inode, an element header, its key and its value.
pub byte_size_lem :
    (n : Node) → byte_size n ≡ page_header_size + inodes_size (page_element_size n) n.inodes
unfolding byte_size
byte_size_lem n = foldl-inodes_size (page_element_size n) page_header_size n.inodes

abbrev pub is_nil : List Inode → Bool
is_nil [] = true
is_nil (x ∷ xs) = false

size_loop_lem :
    (elsz v sz : ℕ) (inode : Inode) (inodes : List Inode)
    → size_loop elsz v sz (inode ∷ inodes) ≡ ltb (sz + inodes_size elsz (inode ∷ inodes)) v
size_loop_lem elsz v sz inode [] = ground arith
size_loop_lem elsz v sz inode (next ∷ inodes) =
    ground (arith, size_loop_lem elsz v (sz + inode_size elsz inode) next inodes)

-- `is_size_less_than` answers as a comparison of `byte_size` would, but for a node without inodes, of
-- which it says yes for every size.
pub is_size_less_than_lem :
    (v : ℕ) (n : Node) → is_size_less_than v n ≡ (is_nil n.inodes || ltb (byte_size n) v)
unfolding is_size_less_than
is_size_less_than_lem v n = rw (byte_size_lem n) (go n.inodes)
  where
    go :
        (inodes : List Inode)
        → size_loop (page_element_size n) v page_header_size inodes
          ≡ (is_nil inodes || ltb (page_header_size + inodes_size (page_element_size n) inodes) v)
    go [] = refl
    go (inode ∷ inodes) = size_loop_lem (page_element_size n) v page_header_size inode inodes

-- What `split_loop` ends with: `i` of the inodes are on the first page, with `sz` bytes. They are two
-- or fit, and the next one would not fit or is one of the last two.
abbrev pub SplitAt : ℕ → ℕ → ℕ → ℕ → ℕ → List Inode → Option (ℕ × ℕ) → Type 0
SplitAt elsz threshold bound i sz inodes r =
    (k : ℕ) × (r ≡ some (i + k, sz + inodes_size elsz (take k inodes)))
    × (i + k ≤ bound)
    × (2 ≤ i + k)
    × (2 < i + k → 0 < k → sz + inodes_size elsz (take k inodes) ≤ threshold)
    × (i + k < bound → threshold < sz + inodes_size elsz (take (suc k) inodes))

split_loop_lem :
    (elsz threshold bound i sz : ℕ) (inodes : List Inode)
    → i ≤ bound
    → 2 ≤ bound
    → bound ≤ i + length inodes
    → SplitAt elsz threshold bound i sz inodes (split_loop elsz threshold bound i sz inodes)
unfolding split_loop
split_loop_lem elsz threshold bound i sz [] le two len = (
  0,
  ground arith,
  ground arith,
  ground arith,
  (λ h p. absurd (omega (arith, p))),
  λ h. absurd (omega (arith, h)),
)
split_loop_lem elsz threshold bound i sz (inode ∷ inodes) le two len =
    elim (Bool-cases (ltb i bound)) [
      | inr done ↦ rw done (
        0,
        ground arith,
        omega arith,
        ground (arith, done),
        (λ h p. absurd (omega (arith, p))),
        λ h. absurd (ground (arith, done, h)),
      )
      | inl more ↦
          rw more
            (elim (Bool-cases
              (leb min_keys_per_page i && ltb threshold (sz + inode_size elsz inode))) [
                | inl full ↦ rw full (
                  0,
                  ground arith,
                  omega arith,
                  ground (arith, full),
                  (λ h p. absurd (omega (arith, p))),
                  λ h. ground (arith, full),
                )
                | inr room ↦
                    let (k, r, le', two', fits, next) =
                      split_loop_lem elsz threshold bound (i + 1) (sz + inode_size elsz inode)
                        inodes (ground (arith, more)) two (omega arith) in
                    rw room (
                      suc k,
                      r ∙ ground arith,
                      omega arith,
                      omega arith,
                      (λ h _. room_taken k room h (λ p. fits (omega (arith, h)) p)),
                      λ h. omega (arith, next (omega (arith, h))),
                    )
              ])
    ]
  where
    room_taken :
        (k : ℕ)
        → (leb min_keys_per_page i && ltb threshold (sz + inode_size elsz inode)) ≡ false
        → 2 < i + suc k
        → (0 < k → sz + inode_size elsz inode + inodes_size elsz (take k inodes) ≤ threshold)
        → sz + (inode_size elsz inode + inodes_size elsz (take k inodes)) ≤ threshold
    room_taken zero room h fits = ground (arith, room)
    room_taken (suc k) room h fits = omega (arith, fits (omega arith))

-- For a node with at least four and fewer than 2 ^ 64 inodes `split_index` ends. Each side gets two
-- inodes at least; the first side's size is returned, and it is within the threshold if it has more
-- than two inodes; and one more inode would exceed the threshold or leave fewer than two for the
-- other side.
pub split_index_lem :
    (threshold : ℕ) (n : Node)
    → 4 ≤ length n.inodes
    → length n.inodes < 2 ^ 64
    → (i : ℕ) × (split_index threshold n
        ≡ some (i, page_header_size + inodes_size (page_element_size n) (take i n.inodes)))
      × (2 ≤ i)
      × (i + 2 ≤ length n.inodes)
      × (2 < i → page_header_size + inodes_size (page_element_size n) (take i n.inodes) ≤ threshold)
      × (i + 2 < length n.inodes
          → threshold
            < page_header_size + inodes_size (page_element_size n) (take (suc i) n.inodes))
unfolding split_index
split_index_lem threshold n four small =
    let e : (length n.inodes + 2 ^ 64 - 2) % 2 ^ 64 ≡ length n.inodes - 2 = omega arith in
    let (k, r, le, two, fits, next) =
      split_loop_lem (page_element_size n) threshold (length n.inodes - 2) 0 page_header_size
        n.inodes (omega arith) (omega arith) (omega arith) in
    (
      k,
      rw e (r ∙ ground arith),
      omega arith,
      omega arith,
      (λ h. fits (omega (arith, h)) (omega (arith, h))),
      λ h. next (omega (arith, h)),
    )
