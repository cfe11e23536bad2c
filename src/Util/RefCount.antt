-- ===== src/Util/RefCount.antt =====
-- include/boltdb/util/ref_count.hpp and src/util/ref_count.cpp. An object `RefCount` is an index into
-- `owners`, which holds its pointer `count_`; a counter is an index into `counts`, and one that is deleted
-- holds 0. An operation that copies a null pointer, which the source dereferences, gives `none`.
pub mod Owners
pub mod Calls
pub mod Sharing
pub mod Results
use boltdb_cpp.Base.{
  ℕ, zero, suc, ◌+◌, ◌-◌, Bool, true, false, List, [], ◌∷◌, ◌++◌, Option, none, some, ◌==◌,
  if◌then◌else◌, length, entry, set,
}

pub record RefCounts : Type 0 where
  pub counts : List ℕ
  pub owners : List (Option ℕ)

-- A counter's value.
abbrev pub counter : List ℕ → ℕ → ℕ
counter ns c = entry 0 ns c

-- The `count_` of an object.
abbrev pub pointer : List (Option ℕ) → ℕ → Option ℕ
pointer ps o = entry none ps o

-- `count()` and `unique()`
unfoldable pub count : ℕ → RefCounts → ℕ
count o s = elim (pointer s.owners o) [ none ↦ 0 | some c ↦ counter s.counts c ]

unfoldable pub unique : ℕ → RefCounts → Bool
unique o s = elim (pointer s.owners o) [ none ↦ false | some c ↦ counter s.counts c == 1 ]

abbrev pub decrease : ℕ → Option ℕ → RefCounts → RefCounts
decrease o none s = s
decrease o (some c) s =
    let n = counter s.counts c - 1 in
    record s {
      counts = set s.counts c n;
      owners = if n == 0 then set s.owners o none else s.owners;
    }

unfoldable pub decrease_and_try_release : ℕ → RefCounts → RefCounts
decrease_and_try_release o s = decrease o (pointer s.owners o) s

unfoldable pub copy_from : ℕ → ℕ → RefCounts → Option RefCounts
copy_from o other s = elim (pointer s.owners other) [
  | none ↦ none
  | some c ↦ some (record s {
    counts = set s.counts c (counter s.counts c + 1);
    owners = set s.owners o (some c);
  })
]

unfoldable pub move_from : ℕ → ℕ → RefCounts → RefCounts
move_from o other s = record s { owners = set (set s.owners o (pointer s.owners other)) other none }

unfoldable pub reset : ℕ → RefCounts → RefCounts
reset o s =
    let s' = decrease_and_try_release o s in
    record s' { counts = s'.counts ++ (1 ∷ []); owners = set s'.owners o (some (length s'.counts)) }

-- A new object, whose `count_` is null before its constructor runs.
abbrev pub declare : RefCounts → RefCounts
declare s = record s { owners = s.owners ++ (none ∷ []) }

-- The calls of a client: the constructors, the assignments, `reset` and the destructor.
pub data Call : Type 0 where
  construct : Call
  copy : ℕ → Call
  move : ℕ → Call
  copy_assign : ℕ → ℕ → Call
  move_assign : ℕ → ℕ → Call
  renew : ℕ → Call
  destroy : ℕ → Call

unfoldable pub run : Call → RefCounts → Option RefCounts
run construct s = some (reset (length s.owners) (declare s))
run (copy other) s = copy_from (length s.owners) other (declare s)
run (move other) s = some (move_from (length s.owners) other (declare s))
run (copy_assign o other) s =
    if o == other then some s else copy_from o other (decrease_and_try_release o s)
run (move_assign o other) s = some (move_from o other (decrease_and_try_release o s))
run (renew o) s = some (reset o s)
run (destroy o) s =
    let s' = decrease_and_try_release o s in some (record s' { owners = set s'.owners o none })
