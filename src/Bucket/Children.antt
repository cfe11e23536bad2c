-- ===== src/Bucket/Children.antt =====
-- The children that `Node::child_at` of src/page/node.cpp collects.
use boltdb_cpp.Base.{
  ℕ, ◌≡◌, refl, ◌⊎◌, ◌==◌, if◌then◌else◌, false, [], ◌∷◌, ◌++◌, none, some, length, get_elem?, set,
}
use boltdb_cpp.Base.Map
use boltdb_cpp.Base.Map.{Map, KeysFrom}
use boltdb_cpp.Page.{Page}
use boltdb_cpp.Node.{Node, Inode, new_node}
use boltdb_cpp.Node.Serial.{read}
use boltdb_cpp.Bucket.{World, source_page, push_child, child, child_at}
use boltdb_cpp.Bucket.Cache.{with_node, node_created}

module _ {D : Type 0} (this index : ℕ) (w : World D) (parent : Node) (inode : Inode)
    (here : get_elem? w.nodes this ≡ some parent) (branch : parent.is_leaf ≡ false)
    (entry' : get_elem? parent.inodes index ≡ some inode) where
  abbrev pub with_child : Node → World D
  with_child m =
      let w' = with_node inode.pgid (some this) m w in
      record w' { nodes = push_child this parent (length w.nodes) w'.nodes }

  pub child_created :
      (p : Page) (m : Node)
      → Map.find inode.pgid w.bucket.node_cache ≡ none
      → source_page inode.pgid w ≡ some p
      → read p (new_node inode.pgid (some this)) ≡ some m
      → child_at this index w ≡ some (child (length w.nodes), with_child m)
  unfolding child_at
  child_created p m absent s r =
      let run = node_created inode.pgid (some this) p m w absent s r in
      rw (here, branch) (rw entry' (rw run refl))

-- The child `n` of the node `this` for a page: it was in the cache for that page, and nothing has changed; or
-- it was not, and is a node that was read from that page, with `this` as its parent, behind the nodes that
-- there were. Then it is the last child of `this`, and the cache has it for that page and is else the same.
abbrev pub ChildOf : {D : Type 0} → ℕ → Node → ℕ → World D → ℕ → World D → Type 0
ChildOf this parent pgid w n w' =
    ((Map.find pgid w.bucket.node_cache ≡ some n) × (w' ≡ w))
    ⊎ ((p : Page) × (m : Node) × (Map.find pgid w.bucket.node_cache ≡ none)
        × (source_page pgid w ≡ some p)
        × (read p (new_node pgid (some this)) ≡ some m)
        × (n ≡ length w.nodes)
        × (w'.nodes
            ≡ set (w.nodes ++ (m ∷ [])) this
                (record parent { children = parent.children ++ (n ∷ []) }))
        × ((q : ℕ)
            → Map.find q w'.bucket.node_cache
              ≡ (if pgid == q then some n else Map.find q w.bucket.node_cache)))
