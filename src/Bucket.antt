-- ===== src/Bucket.antt =====
-- `Bucket` of include/boltdb/db/bucket.hpp and src/db/bucket.cpp, and the methods of src/page/node.cpp that reach
-- other nodes through it. A pointer to a node is an index of `nodes`; `none` is a null or a dangling
-- pointer that is followed, or an access outside a vector. `node` hands a `Page*` to `read`, which takes
-- a reference: the page it points to is meant. Numbers of children and statistics fit an `int`.
pub mod Cache
pub mod Children
pub mod Siblings
pub mod Roots
mod Tests
use boltdb_cpp.Base.{
  ℕ, zero, suc, ◌+◌, ◌-◌, Bool, true, false, List, [], ◌∷◌, ◌++◌, Option, none, some, ◌>>=◌, leb,
  ltb, ◌==◌, if◌then◌else◌, length, get_elem?, set,
}
use boltdb_cpp.Base.Map
use boltdb_cpp.Base.Map.{Map}
use boltdb_cpp.Page.{Page}
use boltdb_cpp.Node.{Node, new_node, child_index}
use boltdb_cpp.Node.Serial.{read}
use boltdb_cpp.Transaction.Txn
use boltdb_cpp.Transaction.Txn.{Txn}

pub record Bucket : Type 0 where
  pub root : ℕ
  pub sequence : ℕ
  pub page : Option Page
  pub root_node : Option ℕ
  pub node_cache : Map ℕ

-- A bucket with its transaction and the nodes that exist.
pub record World (D : Type 0) : Type 0 where
  pub nodes : List Node
  pub bucket : Bucket
  pub txn : Txn D

-- A node, or the exception of a leaf.
pub data Child : Type 0 where
  child : ℕ → Child
  no_child : Child
  leaf_exception : ℕ → Child

-- `root_node_`, when the node `n` is made under `parent`.
abbrev pub root_node : Option ℕ → ℕ → Bucket → Option ℕ
root_node none n b = some n
root_node (some p) n b = b.root_node

-- `children_.push_back(n)` of the node `this`
abbrev pub push_child : ℕ → Node → ℕ → List Node → List Node
push_child this parent n nodes =
    set nodes this (record parent { children = parent.children ++ (n ∷ []) })

-- `num_children`
abbrev pub num_children : Node → ℕ
num_children n = length n.inodes

-- `root` of node.hpp, on fuel
unfoldable pub root : ℕ → List Node → ℕ → Option ℕ
root zero nodes this = none
root (suc fuel) nodes this = do
  n ← get_elem? nodes this
  elim n.parent [ none ↦ some this | some p ↦ root fuel nodes p ]

module _ {D : Type 0} where
  -- The inline page, else the page of the transaction.
  unfoldable pub source_page : ℕ → World D → Option Page
  source_page pgid w = elim w.bucket.page [ some p ↦ some p | none ↦ Txn.page pgid w.txn ]

  abbrev pub count_node : Txn D → Txn D
  count_node txn = record txn { stats = record txn.stats { node_count = txn.stats.node_count + 1 } }

  -- The part of `node` behind the lookup.
  unfoldable pub create : ℕ → Option ℕ → World D → Option (ℕ × World D)
  create pgid parent w = do
    let n = length w.nodes
    p ← source_page pgid w
    node ← read p (new_node pgid parent)
    some (
      n,
      record {
        nodes = w.nodes ++ (node ∷ []);
        bucket = record w.bucket {
          root_node = root_node parent n w.bucket;
          node_cache = Map.assign pgid n w.bucket.node_cache;
        };
        txn = count_node w.txn;
      },
    )

  -- `Bucket::node`: whether the node was in the cache, and the node.
  unfoldable pub node : ℕ → Option ℕ → World D → Option (Bool × ℕ × World D)
  node pgid parent w = elim (Map.find pgid w.bucket.node_cache) [
    | some n ↦ some (true, n, w)
    | none ↦ do (n, w') ← create pgid parent w; some (false, n, w')
  ]

  -- `Bucket::cursor`, less the cursor.
  abbrev pub cursor : World D → World D
  cursor w = record w {
    txn = record w.txn {
      stats = record w.txn.stats { cursor_count = w.txn.stats.cursor_count + 1 };
    };
  }

  abbrev pub is_writable : World D → Bool
  is_writable w = w.txn.is_writable

  -- `Node::child_at`, with the child that its body computes; the body has no `return`.
  unfoldable pub child_at : ℕ → ℕ → World D → Option (Child × World D)
  child_at this index w = do
    parent ← get_elem? w.nodes this
    if parent.is_leaf then some (leaf_exception index, w) else (do
      inode ← get_elem? parent.inodes index
      (cached, n, w') ← node inode.pgid (some this) w
      some
          (child n, if cached then w' else record w' { nodes = push_child this parent n w'.nodes }))

  unfoldable pub next_sibling : ℕ → World D → Option (Child × World D)
  next_sibling this w = do
    n ← get_elem? w.nodes this
    elim n.parent [
      | none ↦ some (no_child, w)
      | some p ↦ do
        parent ← get_elem? w.nodes p
        let index = child_index n parent + 1
        if leb (num_children parent) index then some (no_child, w) else child_at p index w
    ]

  -- An index below 0 is that of no sibling.
  unfoldable pub prev_sibling : ℕ → World D → Option (Child × World D)
  prev_sibling this w = do
    n ← get_elem? w.nodes this
    elim n.parent [
      | none ↦ some (no_child, w)
      | some p ↦ do
        parent ← get_elem? w.nodes p
        if child_index n parent == 0
            then some (no_child, w)
            else child_at p (child_index n parent - 1) w
    ]
