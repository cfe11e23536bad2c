-- ===== src/Cursor.antt =====
-- `ElemRef` of include/boltdb/db/cursor.hpp and src/db/cursor.cpp: what a cursor points to is a page, or the
-- node that was made of it. A null pointer is `none`, and to follow one gives `none`.
pub mod Leaves
mod Tests
use boltdb_cpp.Base.{ℕ, Bool, Option, none, some, ◌>>=◌, ◌==◌}
use boltdb_cpp.Page.{Page, leaf_flag}
use boltdb_cpp.Node.{Node}

pub record ElemRef : Type 0 where
  pub page : Option Page
  pub node : Option Node
  pub index : ℕ

-- `ElemRef(p, n)`, with the index that is its default
abbrev pub elem_ref : Option Page → Option Node → ElemRef
elem_ref p n = record { page = p; node = n; index = 0 }

unfoldable pub is_leaf : ElemRef → Option Bool
is_leaf r = elim r.node [
  | some n ↦ some n.is_leaf
  | none ↦ r.page >>= λ p. some (p.flag == leaf_flag)
]
