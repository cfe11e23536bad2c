-- ===== src/Node/Split.antt =====
-- `Node::split_two` and `Node::split` of src/page/node.cpp, over the nodes that pointers reach.
-- `threshold` stands for `static_cast<int>(page_size * fill_percent)` with the bucket's fill percentage
-- between its bounds, a computation with `double`. `none` is a dangling pointer or an access outside
-- a vector.
pub mod Nodes
pub mod At
pub mod Pieces
use boltdb_cpp.Base.{
  ℕ, zero, suc, ◌+◌, ◌*◌, Bool, true, false, ◌||◌, List, [], ◌∷◌, ◌++◌, Option, none, some, ◌>>=◌,
  leb, if◌then◌else◌, length, take, drop, get_elem?,
}
use boltdb_cpp.Page.{min_keys_per_page}
use boltdb_cpp.Node.{Node, new_node, is_size_less_than, split_index}
use Nodes.{Heap, alloc, update}

-- `this->parent_`, which is made if there is none; the first child of a new parent is `this`.
unfoldable pub ensure_parent : ℕ → Option ℕ → Heap → ℕ × Heap
ensure_parent this (some p) h = (p, h)
ensure_parent this none h =
    let (p, h') = alloc (record (new_node 0 none) { children = this ∷ [] }) h in
    (p, update this (λ n. record n { parent = some p }) h')

-- `parent_->children_.push_back(next)`
abbrev add_child : ℕ → ℕ → Heap → Heap
add_child p next = update p (λ n. record n { children = n.children ++ (next ∷ []) })

-- The new node `next` behind `this`, under the parent `p`.
unfoldable pub attach : ℕ → ℕ → ℕ → Node → Heap → ℕ × Heap
attach p this index node h₁ =
    let (next, h₂) = alloc (record (new_node 0 (some p)) { is_leaf = node.is_leaf }) h₁ in
    let h₃ = add_child p next h₂ in
    let h₄ = update next (λ n. record n { inodes = drop index node.inodes }) h₃ in
    let h₅ = update this (λ n. record n { inodes = take index node.inodes }) h₄ in
    (next, record h₅ { splits = h₅.splits + 1 })

-- The split at `index`.
unfoldable pub split_at : ℕ → ℕ → Node → Heap → ℕ × Heap
unfolding attach
split_at this index node h =
    let (p, h₁) = ensure_parent this node.parent h in attach p this index node h₁

unfoldable pub split_two : ℕ → ℕ → ℕ → Heap → Option (ℕ × Option ℕ × Heap)
unfolding split_at
split_two page_size threshold this h = do
  node ← get_elem? h.nodes this
  if leb (length node.inodes) (2 * min_keys_per_page) || is_size_less_than page_size node
      then some (this, none, h)
      else (do
        (index, sz) ← split_index threshold node
        let (next, h') = split_at this index node h
        some (this, some next, h'))

-- The loop of `split` on fuel.
unfoldable pub split_nodes : ℕ → ℕ → ℕ → ℕ → List ℕ → Heap → Option (List ℕ × Heap)
split_nodes zero page_size threshold split_node nodes h = none
split_nodes (suc fuel) page_size threshold split_node nodes h =
    split_two page_size threshold split_node h >>= λ r. elim (r.1) [
      | none ↦ some (nodes ++ (r.0 ∷ []), r.2)
      | some right ↦ split_nodes fuel page_size threshold right (nodes ++ (r.0 ∷ [])) r.2
    ]

-- Each round leaves two inodes behind at least, so their number is fuel enough.
unfoldable pub split : ℕ → ℕ → ℕ → Heap → Option (List ℕ × Heap)
split page_size threshold this h = do
  node ← get_elem? h.nodes this
  split_nodes (suc (length node.inodes)) page_size threshold this [] h
