-- ===== src/Node/Split/Pieces.antt =====
-- What `Node::split` of src/page/node.cpp makes of the inodes of a node.
use boltdb_cpp.Base.{
  append_assoc, ℕ, zero, suc, ◌+◌, ◌^◌, ◌≤◌, ◌<◌, ◌≡◌, refl, ap, subst, ◌∙◌, ◌⊎◌, inl, inr, Bool,
  true, List, [], ◌∷◌, ◌++◌, Option, none, some, arith, leb, leb→le, length, take, drop, get_elem?,
  length-drop, Bool-cases,
}
use boltdb_cpp.Page.{page_header_size}
use boltdb_cpp.Node.{Node, Inode, new_node, is_size_less_than, page_element_size}
use boltdb_cpp.Node.Size.{inodes_size, split_index_lem}
use boltdb_cpp.Node.Split.{split_at, split_two, split_nodes, split}
use boltdb_cpp.Node.Split.Nodes.{Heap, size, deref, content, content_at}
use boltdb_cpp.Node.Split.At.{Extends, split_at_lem}

abbrev pub element_size : Bool → ℕ
element_size leaf = page_element_size (record (new_node 0 none) { is_leaf = leaf })

-- The bytes of a page with the inodes.
abbrev pub page_bytes : Bool → List Inode → ℕ
page_bytes leaf inodes = page_header_size + inodes_size (element_size leaf) inodes

-- The nodes `refs` hold the inodes in order. Each but the last has two inodes, or more that fit the
-- threshold, and leaves two at least to those behind it; the last has four at most or fits the page.
pub data Pieces (leaf : Bool) (page_size threshold : ℕ) (h : Heap)
    : List ℕ → List Inode → Type 0 where
  last :
      (r : ℕ) (n : Node) (inodes : List Inode)
      → deref r h ≡ some n
      → n.is_leaf ≡ leaf
      → n.inodes ≡ inodes
      → (length inodes ≤ 4) ⊎ (is_size_less_than page_size n ≡ true)
      → Pieces leaf page_size threshold h (r ∷ []) inodes
  more :
      (r i : ℕ) (rs : List ℕ) (inodes : List Inode)
      → content_at r h ≡ some (leaf, take i inodes)
      → 2 ≤ i
      → i + 2 ≤ length inodes
      → (2 < i → page_bytes leaf (take i inodes) ≤ threshold)
      → Pieces leaf page_size threshold h rs (drop i inodes)
      → Pieces leaf page_size threshold h (r ∷ rs) inodes

abbrev SplitTwo : ℕ → ℕ → ℕ → Node → Heap → Option (ℕ × Option ℕ × Heap) → Type 0
SplitTwo page_size threshold this node h r =
    ((r ≡ some (this, none, h))
      × ((length node.inodes ≤ 4) ⊎ (is_size_less_than page_size node ≡ true)))
    ⊎ ((i : ℕ) × (2 ≤ i)
        × (i + 2 ≤ length node.inodes)
        × (2 < i → page_bytes node.is_leaf (take i node.inodes) ≤ threshold)
        × (r ≡ some (this, some (split_at this i node h).0, (split_at this i node h).1)))

split_two_lem :
    (page_size threshold this : ℕ) (node : Node) (h : Heap)
    → deref this h ≡ some node
    → length node.inodes < 2 ^ 64
    → SplitTwo page_size threshold this node h (split_two page_size threshold this h)
unfolding split_two deref
split_two_lem page_size threshold this node h e small =
    rw e (elim (Bool-cases (leb (length node.inodes) 4)) [
      | inl few ↦ inl (rw few, inl (leb→le _ _ few))
      | inr many ↦ elim (Bool-cases (is_size_less_than page_size node)) [
        | inl fits ↦ inl (rw (many, fits), inr fits)
        | inr large ↦
            let (i, r, two, rest, fit, _) =
              split_index_lem threshold node (ground (arith, many)) small in
            inr (i, two, rest, fit, rw (many, large) (rw r))
      ]
    ])

deref-content :
    (o : Option Node) (leaf : Bool) (inodes : List Inode)
    → content o ≡ some (leaf, inodes)
    → (n : Node) × (o ≡ some n) × (n.is_leaf ≡ leaf) × (n.inodes ≡ inodes)
deref-content none leaf inodes e = absurd (cc)
deref-content (some n) leaf inodes e = (n, refl, ground (arith, e), ground (arith, e))

abbrev pub SplitsInto :
    Bool → ℕ → ℕ → ℕ → List ℕ → List Inode → Heap → Option (List ℕ × Heap) → Type 0
SplitsInto leaf page_size threshold this nodes inodes h r =
    (refs : List ℕ) × (h' : Heap) × (r ≡ some (nodes ++ refs, h'))
    × Extends this h h'
    × Pieces leaf page_size threshold h' refs inodes

same_content :
    (f : List Inode → List Inode)
    → {leaf leaf' : Bool} → {xs ys : List Inode} → leaf ≡ leaf'
    → xs ≡ ys
    → ◌≡◌ {A = Option (Bool × List Inode)} (some (leaf, f xs)) (some (leaf', f ys))
same_content f l c = λ i. some (l i, f (c i))

page_bytes_same :
    (f : List Inode → List Inode)
    → {leaf leaf' : Bool} → {xs ys : List Inode} → leaf ≡ leaf'
    → xs ≡ ys
    → page_bytes leaf (f xs) ≡ page_bytes leaf' (f ys)
page_bytes_same f l c = λ i. page_bytes (l i) (f (c i))

get-lt : (ns : List Node) (r : ℕ) (n : Node) → get_elem? ns r ≡ some n → r < length ns
get-lt [] r n e = absurd (cc)
get-lt (m ∷ ns) zero n e = omega arith
get-lt (m ∷ ns) (suc r) n e = omega (arith, get-lt ns r n e)

split_nodes_lem :
    (fuel page_size threshold this : ℕ) (nodes : List ℕ) (leaf : Bool) (inodes : List Inode)
    (h : Heap)
    → length inodes < fuel
    → length inodes < 2 ^ 64
    → this < size h
    → content_at this h ≡ some (leaf, inodes)
    → SplitsInto leaf page_size threshold this nodes inodes h
        (split_nodes fuel page_size threshold this nodes h)
unfolding split_nodes
split_nodes_lem zero page_size threshold this nodes leaf inodes h enough small lt e =
    absurd (omega arith)
split_nodes_lem (suc fuel) page_size threshold this nodes leaf inodes h enough small lt e =
    let (node, d, l, c) = deref-content (deref this h) leaf inodes e in
    elim (split_two_lem page_size threshold this node h d (omega (arith, ap length c))) [
      | inl (r, short) ↦ rw r (
        this ∷ [],
        h,
        refl,
        (omega arith, λ q k ne. refl),
        last this node inodes d l c (
            subst (λ (xs : List Inode). (length xs ≤ 4) ⊎ (is_size_less_than page_size node ≡ true))
              c short),
      )
      | inr (i, two, rest, fit, r) ↦
          let ((s, same), above, below, mine, next) = split_at_lem this i node h lt (rw (l, c) e) in
          let this₁ = split_at this i node h in
          let (refs, h₂, r', (grows, kept), pieces) =
            split_nodes_lem fuel page_size threshold this₁.0 (nodes ++ (this ∷ [])) leaf
              (drop i inodes) this₁.1 (omega (arith, length-drop i inodes, ap length c))
              (omega (arith, length-drop i inodes)) below (next ∙ same_content (drop i) l c) in
          (
            this ∷ refs,
            h₂,
            rw r (r' ∙ ap (λ ns. some (ns, h₂)) (append_assoc nodes (this ∷ []) refs)),
            (omega arith, λ q k ne. kept q (omega arith) (omega arith) ∙ same q k ne),
            more this i refs inodes
                (kept this (omega arith) (omega arith) ∙ mine ∙ same_content (take i) l c) two
                (omega (arith, ap length c))
                (λ k. omega (arith, fit k, page_bytes_same (take i) l c)) pieces,
          )
    ]

-- `split` of a node with fewer than 2 ^ 64 inodes ends. The nodes that it returns hold the inodes of the
-- node in their order: each but the last has two inodes, or more whose page is within the threshold, and
-- leaves at least two to those behind it; the last one has four inodes at most or passes
-- `is_size_less_than` for the page size. All other nodes keep their inodes.
pub split_lem :
    (page_size threshold this : ℕ) (node : Node) (h : Heap)
    → deref this h ≡ some node
    → length node.inodes < 2 ^ 64
    → SplitsInto node.is_leaf page_size threshold this [] node.inodes h
        (split page_size threshold this h)
unfolding split deref
split_lem page_size threshold this node h e small = rw e (
    split_nodes_lem (suc (length node.inodes)) page_size threshold this [] node.is_leaf node.inodes
      h (omega arith) small (get-lt h.nodes this node e) (ap content e))
