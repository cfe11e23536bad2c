-- ===== src/Bucket/Tests.antt =====
-- Runs of src/db/bucket.cpp and of the methods of src/page/node.cpp that use it.
use boltdb_cpp.Base.{
  ℕ, zero, suc, ◌≡◌, refl, true, List, [], ◌∷◌, none, some, leb, if◌then◌else◌, length, arith,
}
use boltdb_cpp.Base.Map
use boltdb_cpp.Page.{Page, leaf_flag}
use boltdb_cpp.Node.{Node, Inode, new_node}
use boltdb_cpp.Node.Serial.{read, read_leaf}
use boltdb_cpp.Transaction.Txn
use boltdb_cpp.Transaction.Txn.{Txn}
use boltdb_cpp.Bucket.{
  Bucket, World, source_page, child, no_child, child_at, next_sibling, prev_sibling, root,
}
use boltdb_cpp.Bucket.Roots.{Rising, parent_at, root-child_at}
use boltdb_cpp.Bucket.Siblings.{siblings_stuck}

abbrev Time : Type 0
Time = Unit {0}

abbrev item : ℕ → List ℕ → Inode
item pgid key = record { flags = 0; pgid = pgid; key = key; value = [] }

-- A branch node with two children, of the pages 7 and 8, that are not in memory yet.
abbrev top : Node
top = record (new_node 3 none) { inodes = item 7 (1 ∷ []) ∷ item 8 (2 ∷ []) ∷ [] }

-- A leaf page without elements.
abbrev leaf_page : Page
leaf_page = record {
  page_size = 4096;
  pgid = 7;
  flag = leaf_flag;
  count = 0;
  overflow = 0;
  body = [];
}

abbrev txn : Txn Time
txn = record {
  is_writable = true;
  meta_page_id = 9;
  pages = (7, leaf_page) ∷ [];
  stats = record {
    page_count = 0;
    page_alloc = 0;
    cursor_count = 0;
    node_count = 0;
    node_deref = 0;
    rebalance = 0;
    rebalance_time = tt;
    split = 0;
    spill = 0;
    spill_time = tt;
    write = 0;
    write_time = tt;
  };
}

abbrev bucket : Bucket
bucket = record {
  root = 3;
  sequence = 0;
  page = none;
  root_node = some 0;
  node_cache = (3, 0) ∷ [];
}

abbrev world : World Time
world = record { nodes = top ∷ []; bucket = bucket; txn = txn }

world-Rising : Rising world.nodes
world-Rising zero p e = absurd (cc (e))
world-Rising (suc i) p e = absurd (cc (e))

root-child_at_example :
    (w' : World Time) × (r : ℕ) × (child_at 0 0 world ≡ some (child 1, w'))
    × Rising w'.nodes
    × (parent_at world.nodes r ≡ some none)
    × (root 1 world.nodes 0 ≡ some r)
    × (root 2 w'.nodes 1 ≡ some r)
    × (root 1 w'.nodes 0 ≡ root 1 world.nodes 0)
unfolding Map.find source_page Txn.page read read_leaf
root-child_at_example =
    root-child_at 0 0 0 world top (item 7 (1 ∷ [])) leaf_page
      (record (new_node 7 (some 0)) { is_leaf = true }) refl refl refl world-Rising refl refl refl
      (omega arith)

-- The second child, in memory.
abbrev second : Node
second = record (new_node 8 (some 0)) { is_leaf = true; first_key = 2 ∷ [] }

abbrev loaded : World Time
loaded = record world {
  nodes = top ∷ second ∷ [];
  bucket = record bucket { node_cache = (3, 0) ∷ (8, 1) ∷ [] };
}

siblings_stuck_example :
    (prev_sibling 1 loaded ≡ some (no_child, loaded))
    × (next_sibling 1 loaded ≡ (
        if leb (length {A = Inode} (item 7 (1 ∷ []) ∷ item 8 (2 ∷ []) ∷ [])) 1
        then some (no_child, loaded)
        else child_at 0 1 loaded))
siblings_stuck_example =
    siblings_stuck 1 0 loaded second top (item 7 (1 ∷ [])) (item 8 (2 ∷ []) ∷ []) refl refl refl
      refl (omega arith)
