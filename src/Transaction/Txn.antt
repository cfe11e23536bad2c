-- ===== src/Transaction/Txn.antt =====
-- `Txn` of include/boltdb/transaction/txn.hpp and src/transaction/txn.cpp, with what a bucket and its nodes use
-- of it. `DB::page` of src/db/db.cpp is a stub and gives the null pointer, which is `none`.
use boltdb_cpp.Base.{ℕ, Bool, Option, none, some}
use boltdb_cpp.Base.Map
use boltdb_cpp.Base.Map.{Map}
use boltdb_cpp.Page.{Page}
use boltdb_cpp.Transaction.Stats.{TxnStats}

pub record Txn (D : Type 0) : Type 0 where
  pub is_writable : Bool
  pub meta_page_id : ℕ
  pub pages : Map Page
  pub stats : TxnStats D

-- `DB::page`
abbrev pub db_page : ℕ → Option Page
db_page pgid = none

unfoldable pub page : {D : Type 0} → ℕ → Txn D → Option Page
page pgid txn = elim (Map.find pgid txn.pages) [ some p ↦ some p | none ↦ db_page pgid ]
