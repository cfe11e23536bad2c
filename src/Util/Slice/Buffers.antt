-- ===== src/Util/Slice/Buffers.antt =====
-- The memory of `ByteSlice` (src/util/slice.cpp, include/boltdb/util/slice.hpp). A slice is an index into
-- `views`, which holds its four pointers, and into the owners of `RefCounts`, which hold its `ref_count_`.
-- A pointer is an offset into the buffer `base`; a null slice has no buffer and offsets 0. The byte of a
-- cell that was never written is `none`. An access outside a buffer or after it was freed, a wrong
-- deallocation, a failed `assert` and the copy of a null count give `none`. A buffer is taken to be shorter
-- than 2 ^ 31 bytes, and addresses are not used twice.
use Prim.Native.Nat.{max}
use boltdb_cpp.Base.{
  ℕ, zero, suc, ◌+◌, ◌-◌, ◌*◌, List, [], ◌∷◌, ◌++◌, map, Option, none, some, ◌>>=◌, ltb, leb, ◌==◌,
  Bool, if◌then◌else◌, length, entry, set, take, drop,
}
use boltdb_cpp.Util.RefCount
use boltdb_cpp.Util.RefCount.{RefCounts, unique}
use boltdb_cpp.Util.Rounding.{round_up_to_power_of_two}

abbrev pub Cells : Type 0
Cells = List (Option ℕ)

pub record View : Type 0 where
  pub base : Option ℕ
  pub head : ℕ
  pub tail : ℕ
  pub cap : ℕ

pub record Slices : Type 0 where
  pub buffers : List (Option Cells)
  pub views : List View
  pub refs : RefCounts

abbrev pub null : View
null = record { base = none; head = 0; tail = 0; cap = 0 }

abbrev pub view : List View → ℕ → View
view vs i = entry null vs i

abbrev pub buffer : List (Option Cells) → ℕ → Option Cells
buffer ms b = entry none ms b

-- `size()` and `cap()`
abbrev pub size : View → ℕ
size v = v.tail - v.head

abbrev pub blank : ℕ → Cells
blank zero = []
blank (suc n) = none ∷ blank n

-- `pool_.allocate(n)` and `pool_.deallocate(p, n)`
abbrev pub allocate : ℕ → List (Option Cells) → List (Option Cells)
allocate n ms = ms ++ (some (blank n) ∷ [])

unfoldable pub deallocate : ℕ → ℕ → List (Option Cells) → Option (List (Option Cells))
deallocate b n ms = elim (buffer ms b) [
  | none ↦ none
  | some cells ↦ if length cells == n then some (set ms b none) else none
]

-- The cells from an offset on are overwritten; `none` is a write behind the buffer's end.
unfoldable pub overwrite : ℕ → Cells → Cells → Option Cells
overwrite at [] cells = some cells
overwrite at (x ∷ xs) [] = none
overwrite zero (x ∷ xs) (c ∷ cells) = do rest ← overwrite zero xs cells; some (x ∷ rest)
overwrite (suc at) (x ∷ xs) (c ∷ cells) = do rest ← overwrite at (x ∷ xs) cells; some (c ∷ rest)

unfoldable pub write : ℕ → ℕ → Cells → List (Option Cells) → Option (List (Option Cells))
write b at xs ms = do
  cells ← buffer ms b
  cells' ← overwrite at xs cells
  some (set ms b (some cells'))

-- What a slice shows of its buffer. A null slice is empty.
abbrev pub shown : View → Option ℕ → List (Option Cells) → Option Cells
shown v none ms = some []
shown v (some b) ms = do
  cells ← buffer ms b
  if leb v.tail (length cells) then some (take (size v) (drop v.head cells)) else none

unfoldable pub content : View → List (Option Cells) → Option Cells
content v ms = shown v v.base ms

-- `clear`
abbrev pub clear : ℕ → Slices → Slices
clear i s = record s { views = set s.views i null }

abbrev pub try_free : ℕ → Slices → Option (List (Option Cells))
try_free i s = elim (view s.views i).base [
  | none ↦ some s.buffers
  | some b ↦ if unique i s.refs then deallocate b (view s.views i).cap s.buffers else some s.buffers
]

unfoldable pub try_deallocate : ℕ → Slices → Option Slices
try_deallocate i s = do ms ← try_free i s; some (clear i (record s { buffers = ms }))

unfoldable pub copy_from : ℕ → ℕ → Slices → Option Slices
copy_from i other s = do
  refs ← RefCount.run (RefCount.copy_assign i other) s.refs
  some (record s { views = set s.views i (view s.views other); refs = refs })

unfoldable pub move_from : ℕ → ℕ → Slices → Option Slices
move_from i other s = do
  refs ← RefCount.run (RefCount.move_assign i other) s.refs
  some (record s { views = set (set s.views i (view s.views other)) other null; refs = refs })

-- The view of a slice on a buffer's first `size` bytes.
abbrev pub whole : ℕ → ℕ → ℕ → View
whole b size cap = record { base = some b; head = 0; tail = size; cap = cap }

unfoldable pub grow : ℕ → ℕ → Slices → Option Slices
grow i new_cap s = do
  let v = view s.views i
  bytes ← content v s.buffers
  ms ← write (length s.buffers) 0 bytes (allocate new_cap s.buffers)
  s' ← try_deallocate i (record s { buffers = ms })
  refs ← RefCount.run (RefCount.renew i) s'.refs
  some (record s' {
    views = set s'.views i (whole (length s.buffers) (size v) new_cap);
    refs = refs;
  })

-- `*tail_++ = v`
unfoldable pub push : ℕ → ℕ → Slices → Option Slices
push i v s = do
  let w = view s.views i
  b ← w.base
  ms ← write b w.tail (some v ∷ []) s.buffers
  some (record s { buffers = ms; views = set s.views i (record w { tail = w.tail + 1 }) })

unfoldable pub append : ℕ → ℕ → Slices → Option Slices
append i v s = do
  let w = view s.views i
  s' ← if w.tail == w.cap then grow i (max 1 (w.cap * 2)) s else some s
  push i v s'

unfoldable pub reserve : ℕ → ℕ → Slices → Option Slices
reserve i sz s = if ltb (view s.views i).cap sz then grow i sz s else some s

unfoldable pub remove_prefix : ℕ → ℕ → Slices → Option Slices
remove_prefix i index s =
    let w = view s.views i in
    if leb index (size w)
    then some (record s { views = set s.views i (record w { head = w.head + index }) })
    else none

-- `slice[index] = v`
unfoldable pub set_byte : ℕ → ℕ → ℕ → Slices → Option Slices
set_byte i index v s = do
  let w = view s.views i
  b ← w.base
  ms ← if ltb index (size w) then write b (w.head + index) (some v ∷ []) s.buffers else none
  some (record s { buffers = ms })

-- A new object: its pointers are null.
abbrev pub declare : Slices → Slices
declare s = record s { views = s.views ++ (null ∷ []) }

unfoldable pub construct : Slices → Option Slices
construct s = do
  refs ← RefCount.run RefCount.construct s.refs
  some (record (declare s) { refs = refs })

unfoldable pub construct_from : List ℕ → Slices → Option Slices
construct_from bytes s = do
  s' ← construct s
  let alloc_size = round_up_to_power_of_two (length bytes + 1)
  let i = length s.views
  ms ← write (length s.buffers) 0 (map some bytes) (allocate alloc_size s'.buffers)
  some (record s' {
    buffers = ms;
    views = set s'.views i (whole (length s.buffers) (length bytes) alloc_size);
  })

unfoldable pub construct_copy : ℕ → Slices → Option Slices
construct_copy other s = do
  refs ← RefCount.run (RefCount.copy other) s.refs
  copy_from (length s.views) other (record (declare s) { refs = refs })

unfoldable pub construct_move : ℕ → Slices → Option Slices
construct_move other s = do s' ← construct s; move_from (length s.views) other s'

unfoldable pub assign : ℕ → ℕ → Slices → Option Slices
assign i other s = if i == other then some s else do s' ← try_deallocate i s; copy_from i other s'

unfoldable pub assign_move : ℕ → ℕ → Slices → Option Slices
assign_move i other s = do s' ← try_deallocate i s; move_from i other s'

unfoldable pub destroy : ℕ → Slices → Option Slices
destroy i s = do
  s' ← try_deallocate i s
  refs ← RefCount.run (RefCount.destroy i) s'.refs
  some (record s' { refs = refs })

-- The constructors from other sources hand a range to the one above.
abbrev pub repeated : ℕ → ℕ → List ℕ
repeated zero v = []
repeated (suc n) v = v ∷ repeated n v

abbrev pub construct_repeated : ℕ → ℕ → Slices → Option Slices
construct_repeated n v s = construct_from (repeated n v) s

-- The bytes before the first \0; without one, `strlen` reads behind the array's end.
abbrev pub before_nul : List ℕ → Option (List ℕ)
before_nul [] = none
before_nul (c ∷ cs) =
    let rest = before_nul cs in if c == 0 then some [] else do bytes ← rest; some (c ∷ bytes)

abbrev pub construct_from_cstring : List ℕ → Slices → Option Slices
construct_from_cstring cstring s = do bytes ← before_nul cstring; construct_from bytes s

-- `is_empty`, `operator[]` and `ref_count`
abbrev pub is_empty : View → Bool
is_empty v = v.head == v.tail

unfoldable pub get_byte : ℕ → ℕ → Slices → Option (Option ℕ)
get_byte i index s = do
  bytes ← content (view s.views i) s.buffers
  if ltb index (size (view s.views i)) then some (entry none bytes index) else none

abbrev pub ref_count : ℕ → Slices → ℕ
ref_count i s = RefCount.count i s.refs
