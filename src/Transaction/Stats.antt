-- ===== src/Transaction/Stats.antt =====
-- `TxnStats` of include/boltdb/transaction/txn.hpp. An `int` is 32 bits that wrap around, in two's
-- complement. A `Duration` counts in `double`, whose arithmetic is a parameter.
use boltdb_cpp.Base.{ℕ, ◌+◌, ◌-◌, ◌%◌, ◌^◌, ◌<◌, ◌≡◌, arith}

pub record Durations (D : Type 0) : Type 0 where
  pub add : D → D → D
  pub sub : D → D → D

pub record TxnStats (D : Type 0) : Type 0 where
  pub page_count : ℕ
  pub page_alloc : ℕ
  pub cursor_count : ℕ
  pub node_count : ℕ
  pub node_deref : ℕ
  pub rebalance : ℕ
  pub rebalance_time : D
  pub split : ℕ
  pub spill : ℕ
  pub spill_time : D
  pub write : ℕ
  pub write_time : D

abbrev pub add_int : ℕ → ℕ → ℕ
add_int m n = (m + n) % 2 ^ 32

abbrev pub sub_int : ℕ → ℕ → ℕ
sub_int m n = (m + 2 ^ 32 - n) % 2 ^ 32

-- `operator+` and `operator-`
unfoldable pub add : {D : Type 0} → Durations D → TxnStats D → TxnStats D → TxnStats D
add d lhs rhs = record {
  page_count = add_int lhs.page_count rhs.page_count;
  page_alloc = add_int lhs.page_alloc rhs.page_alloc;
  cursor_count = add_int lhs.cursor_count rhs.cursor_count;
  node_count = add_int lhs.node_count rhs.node_count;
  node_deref = add_int lhs.node_deref rhs.node_deref;
  rebalance = add_int lhs.rebalance rhs.rebalance;
  rebalance_time = d.add lhs.rebalance_time rhs.rebalance_time;
  split = add_int lhs.split rhs.split;
  spill = add_int lhs.spill rhs.spill;
  spill_time = d.add lhs.spill_time rhs.spill_time;
  write = add_int lhs.write rhs.write;
  write_time = d.add lhs.write_time rhs.write_time;
}

unfoldable pub sub : {D : Type 0} → Durations D → TxnStats D → TxnStats D → TxnStats D
sub d lhs rhs = record {
  page_count = sub_int lhs.page_count rhs.page_count;
  page_alloc = sub_int lhs.page_alloc rhs.page_alloc;
  cursor_count = sub_int lhs.cursor_count rhs.cursor_count;
  node_count = sub_int lhs.node_count rhs.node_count;
  node_deref = sub_int lhs.node_deref rhs.node_deref;
  rebalance = sub_int lhs.rebalance rhs.rebalance;
  rebalance_time = d.sub lhs.rebalance_time rhs.rebalance_time;
  split = sub_int lhs.split rhs.split;
  spill = sub_int lhs.spill rhs.spill;
  spill_time = d.sub lhs.spill_time rhs.spill_time;
  write = sub_int lhs.write rhs.write;
  write_time = d.sub lhs.write_time rhs.write_time;
}

-- The counters are in the range of their type.
pub record IsInt {D : Type 0} (s : TxnStats D) : Type 0 where
  pub page_count : s.page_count < 2 ^ 32
  pub page_alloc : s.page_alloc < 2 ^ 32
  pub cursor_count : s.cursor_count < 2 ^ 32
  pub node_count : s.node_count < 2 ^ 32
  pub node_deref : s.node_deref < 2 ^ 32
  pub rebalance : s.rebalance < 2 ^ 32
  pub split : s.split < 2 ^ 32
  pub spill : s.spill < 2 ^ 32
  pub write : s.write < 2 ^ 32

-- What the durations of the two statistics have to do: adding and taking away loses nothing.
pub record IsExact {D : Type 0} (d : Durations D) (s t : TxnStats D) : Type 0 where
  pub rebalance_time :
      d.sub (d.add s.rebalance_time t.rebalance_time) s.rebalance_time ≡ t.rebalance_time
  pub spill_time : d.sub (d.add s.spill_time t.spill_time) s.spill_time ≡ t.spill_time
  pub write_time : d.sub (d.add s.write_time t.write_time) s.write_time ≡ t.write_time

sub-add_int : (m n : ℕ) → m < 2 ^ 32 → n < 2 ^ 32 → sub_int (add_int m n) m ≡ n
sub-add_int m n h k = omega arith

-- Taking the earlier statistics away from the sum gives the later ones back, in all twelve fields, for
-- counters in the range of an `int` and durations whose sums are exact.
pub sub-add :
    {D : Type 0}
    → (d : Durations D) (s t : TxnStats D) → IsInt s
    → IsInt t
    → IsExact d s t
    → sub d (add d s t) s ≡ t
unfolding sub add
sub-add d s t v w e = λ i. record {
  page_count = sub-add_int s.page_count t.page_count v.page_count w.page_count i;
  page_alloc = sub-add_int s.page_alloc t.page_alloc v.page_alloc w.page_alloc i;
  cursor_count = sub-add_int s.cursor_count t.cursor_count v.cursor_count w.cursor_count i;
  node_count = sub-add_int s.node_count t.node_count v.node_count w.node_count i;
  node_deref = sub-add_int s.node_deref t.node_deref v.node_deref w.node_deref i;
  rebalance = sub-add_int s.rebalance t.rebalance v.rebalance w.rebalance i;
  rebalance_time = e.rebalance_time i;
  split = sub-add_int s.split t.split v.split w.split i;
  spill = sub-add_int s.spill t.spill v.spill w.spill i;
  spill_time = e.spill_time i;
  write = sub-add_int s.write t.write v.write w.write i;
  write_time = e.write_time i;
}
