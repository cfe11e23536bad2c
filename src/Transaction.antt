-- ===== src/Transaction.antt =====
-- Transactions, include/boltdb/transaction/txn.hpp: their statistics and their pages.
pub mod Stats
pub mod Txn
