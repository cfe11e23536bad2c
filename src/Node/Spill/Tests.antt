-- ===== src/Node/Spill/Tests.antt =====
-- A run of the end of `Node::spill` (src/page/node.cpp).
use boltdb_cpp.Base.{refl, inl, inr, true, List, [], ◌∷◌, none, arith}
use boltdb_cpp.Base.Map
use boltdb_cpp.FreeList.{empty}
use boltdb_cpp.FreeList.Pages.{empty-IsValid}
use boltdb_cpp.Page.{leaf_flag}
use boltdb_cpp.Node.{Node, new_node}
use boltdb_cpp.Node.Spill.{free_pages}
use boltdb_cpp.Node.Spill.Freed.{Outcome, free_pages_lem}
use boltdb_cpp.Transaction.Txn
use boltdb_cpp.Transaction.Txn.{Txn}

abbrev Time : Type 0
Time = Unit {0}

-- A transaction with the page 7, which has one overflow page.
abbrev txn : Txn Time
txn = record {
  is_writable = true;
  meta_page_id = 9;
  pages =
      (
        7,
        record { page_size = 4096; pgid = 7; flag = leaf_flag; count = 0; overflow = 1; body = [] },
      )
      ∷ [];
  stats = record {
    page_count = 0;
    page_alloc = 0;
    cursor_count = 0;
    node_count = 0;
    node_deref = 0;
    rebalance = 0;
    rebalance_time = tt;
    split = 0;
    spill = 0;
    spill_time = tt;
    write = 0;
    write_time = tt;
  };
}

-- A node of that page, and a new one.
abbrev nodes : List Node
nodes = new_node 7 none ∷ new_node 0 none ∷ []

free_pages_lem_example :
    Outcome 5 txn (0 ∷ 1 ∷ []) nodes empty (free_pages 5 txn (0 ∷ 1 ∷ []) nodes empty)
unfolding Txn.page Map.find
free_pages_lem_example = free_pages_lem 5 txn (0 ∷ 1 ∷ []) nodes empty empty-IsValid (
  (new_node 7 none, refl, inr (_, refl, refl, omega arith, omega arith)),
  ((new_node 0 none, refl, inl refl), tt),
)
