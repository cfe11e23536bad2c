-- ===== src/Node/Split/At.antt =====
-- One split of a node: the heap after the steps of `Node::split_two` (src/page/node.cpp).
use boltdb_cpp.Base.{
  ℕ, ◌+◌, ◌≤◌, ◌<◌, ◌≡◌, ◌≢◌, refl, sym, ap, ◌∙◌, [], ◌∷◌, ◌++◌, Option, none, some, arith, take,
  drop,
}
use boltdb_cpp.Node.{Node, new_node}
use boltdb_cpp.Node.Split.{ensure_parent, attach, split_at}
use boltdb_cpp.Node.Split.Nodes.{
  Heap, alloc, update, size, deref, content, content_at, replaced, size-update, size-alloc,
  alloc-ref, deref-alloc_old, deref-alloc_new, content-update_keep, content-set_inodes_self,
  content-set_inodes_other,
}

-- The heap `h'` has all nodes of `h`, and the same contents in them, but for `this`.
abbrev pub Extends : ℕ → Heap → Heap → Type 0
Extends this h h' =
    (size h ≤ size h') × ((q : ℕ) → q < size h → q ≢ this → content_at q h' ≡ content_at q h)

ensure_parent_lem :
    (this : ℕ) (parent : Option ℕ) (h : Heap)
    → (size h ≤ size (ensure_parent this parent h).1)
      × ((q : ℕ) → q < size h → content_at q (ensure_parent this parent h).1 ≡ content_at q h)
unfolding ensure_parent
ensure_parent_lem this (some p) h = (omega arith, λ q lt. refl)
ensure_parent_lem this none h =
    let fresh : Node = record (new_node 0 none) { children = this ∷ [] } in
    (
      omega (
        arith,
        size-alloc fresh h,
        size-update this (λ n. record n { parent = some (alloc fresh h).0 }) (alloc fresh h).1,
      ),
      λ q lt.
          content-update_keep this q (λ n. record n { parent = some (alloc fresh h).0 })
            (alloc fresh h).1 (λ n. refl)
          ∙ ap content (deref-alloc_old fresh h q lt),
    )

module _ (p this index : ℕ) (node : Node) (h : Heap) (lt : this < size h) where
  abbrev fresh : Node
  fresh = record (new_node 0 (some p)) { is_leaf = node.is_leaf }

  abbrev next : ℕ
  next = (alloc fresh h).0

  abbrev h₂ : Heap
  h₂ = (alloc fresh h).1

  abbrev h₃ : Heap
  h₃ = update p (λ n. record n { children = n.children ++ (next ∷ []) }) h₂

  abbrev h₄ : Heap
  h₄ = update next (λ n. record n { inodes = drop index node.inodes }) h₃

  abbrev h₅ : Heap
  h₅ = update this (λ n. record n { inodes = take index node.inodes }) h₄

  size_after : size h₅ ≡ size h + 1
  size_after = omega (
    arith,
    size-alloc fresh h,
    size-update p (λ n. record n { children = n.children ++ (next ∷ []) }) h₂,
    size-update next (λ n. record n { inodes = drop index node.inodes }) h₃,
    size-update this (λ n. record n { inodes = take index node.inodes }) h₄,
  )

  next-ne-old : (q : ℕ) → q < size h → q ≢ next
  next-ne-old q l e = omega (arith, alloc-ref fresh h, e)

  content_old : (q : ℕ) → q < size h → content_at q h₄ ≡ content_at q h
  content_old q l =
      content-set_inodes_other next q (drop index node.inodes) h₃ (next-ne-old q l)
      ∙ content-update_keep p q (λ n. record n { children = n.children ++ (next ∷ []) }) h₂
          (λ n. refl)
      ∙ ap content (deref-alloc_old fresh h q l)

  content_this :
      content_at this h ≡ some (node.is_leaf, node.inodes)
      → content_at this h₅ ≡ some (node.is_leaf, take index node.inodes)
  content_this e =
      content-set_inodes_self this (take index node.inodes) h₄
      ∙ ap (replaced (take index node.inodes)) (content_old this lt ∙ e)

  content_next : content_at next h₅ ≡ some (node.is_leaf, drop index node.inodes)
  content_next =
      content-set_inodes_other this next (take index node.inodes) h₄
        (λ e. next-ne-old this lt (sym e))
      ∙ content-set_inodes_self next (drop index node.inodes) h₃
      ∙ ap (replaced (drop index node.inodes)) (
          content-update_keep p next (λ n. record n { children = n.children ++ (next ∷ []) }) h₂
            (λ n. refl)
          ∙ ap content (deref-alloc_new fresh h))

  content_other : (q : ℕ) → q < size h → q ≢ this → content_at q h₅ ≡ content_at q h
  content_other q l ne =
      content-set_inodes_other this q (take index node.inodes) h₄ ne ∙ content_old q l

-- The first node has the inodes up to `index`, the second one the others; `h'` is the heap after it.
abbrev pub SplitsAt : ℕ → ℕ → Node → Heap → ℕ × Heap → Type 0
SplitsAt this index node h r =
    Extends this h r.1
    × (size h ≤ r.0)
    × (r.0 < size r.1)
    × (content_at this r.1 ≡ some (node.is_leaf, take index node.inodes))
    × (content_at r.0 r.1 ≡ some (node.is_leaf, drop index node.inodes))

attach_lem :
    (p this index : ℕ) (node : Node) (h : Heap)
    → this < size h
    → content_at this h ≡ some (node.is_leaf, node.inodes)
    → SplitsAt this index node h (attach p this index node h)
unfolding attach deref
attach_lem p this index node h lt e = (
  (omega (arith, size_after p this index node h lt), content_other p this index node h lt),
  omega (arith, alloc-ref (fresh p this index node h lt) h),
  omega (arith, alloc-ref (fresh p this index node h lt) h, size_after p this index node h lt),
  content_this p this index node h lt e,
  content_next p this index node h lt,
)

pub split_at_lem :
    (this index : ℕ) (node : Node) (h : Heap)
    → this < size h
    → content_at this h ≡ some (node.is_leaf, node.inodes)
    → SplitsAt this index node h (split_at this index node h)
unfolding split_at
split_at_lem this index node h lt e =
    let (p, h₁) = ensure_parent this node.parent h in
    let (grows, same) = ensure_parent_lem this node.parent h in
    let ((s, c), le, l, a, b) = attach_lem p this index node h₁ (omega arith) (same this lt ∙ e) in
    ((omega arith, λ q k ne. c q (omega (arith, k)) ne ∙ same q k), omega arith, l, a, b)
