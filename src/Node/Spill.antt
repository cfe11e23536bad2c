-- ===== src/Node/Spill.antt =====
-- The end of `Node::spill` (src/page/node.cpp): the pages of the nodes that `split` returned go to the free list, by
-- `Txn::free` (include/boltdb/transaction/txn.hpp), `DB::free` (include/boltdb/db/db.hpp) and `FreeList::free`. A
-- pointer to a node is an index of `nodes`; `none` is a null or a dangling pointer that is followed, or
-- the loop of `free` out of fuel. The function has no `return` behind the loop.
pub mod Freed
mod Tests
use boltdb_cpp.Base.{
  ℕ, List, [], ◌∷◌, Option, none, some, ◌>>=◌, ◌==◌, if◌then◌else◌, get_elem?, set,
}
use boltdb_cpp.FreeList
use boltdb_cpp.FreeList.{FreeList, Result, returns, throws}
use boltdb_cpp.Node.{Node}
use boltdb_cpp.Transaction.Txn
use boltdb_cpp.Transaction.Txn.{Txn}

module _ {D : Type 0} where
  -- `Txn::free`, and with it `DB::free`; `txid` is that of the transaction's meta page.
  unfoldable pub free : ℕ → Txn D → ℕ → FreeList → Option (Result (Unit {0}) × FreeList)
  free txid txn pgid f = do page ← Txn.page pgid txn; FreeList.free txid page.pgid page.overflow f

  -- The loop over `nodes`; an exception of `free` ends it.
  unfoldable pub free_pages :
      ℕ → Txn D → List ℕ → List Node → FreeList → Option (Result (Unit {0}) × List Node × FreeList)
  free_pages txid txn [] nodes f = some (returns tt, nodes, f)
  free_pages txid txn (r ∷ refs) nodes f = do
    n ← get_elem? nodes r
    if n.pgid == 0 then free_pages txid txn refs nodes f else (do
      (result, f') ← free txid txn n.pgid f
      elim result [
        | throws e ↦ some (throws e, nodes, f')
        | returns _ ↦ free_pages txid txn refs (set nodes r (record n { pgid = 0 })) f'
      ])
