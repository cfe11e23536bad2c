-- ===== src/Node.antt =====
-- `Node` of include/boltdb/page/node.hpp and src/page/node.cpp: a page in memory.
-- A pointer to a node is a number, an index of the list of nodes of `Node.Split.Nodes`. An `int` is
-- taken to hold the byte sizes and the numbers of inodes.
pub mod Size
pub mod Put
pub mod Split
pub mod Serial
pub mod Spill
mod Tests
use boltdb_cpp.Base.{
  ℕ, zero, suc, ◌+◌, ◌-◌, ◌*◌, ◌%◌, ◌^◌, Bool, true, false, not, ◌&&◌, List, [], ◌∷◌, ◌++◌, foldl,
  Option, none, some, ltb, leb, ◌==◌, if◌then◌else◌, length, get_elem?,
}
use boltdb_cpp.Page.{
  page_header_size, branch_page_element_size, leaf_page_element_size, min_keys_per_page,
}
use boltdb_cpp.Util.Slice.{slice_eq, slice_lt}

pub record Inode : Type 0 where
  pub flags : ℕ
  pub pgid : ℕ
  pub key : List ℕ
  pub value : List ℕ

-- `Inode{}`
abbrev pub blank_inode : Inode
blank_inode = record { flags = 0; pgid = 0; key = []; value = [] }

-- The bucket is the same for all nodes that meet here, and is left out.
pub record Node : Type 0 where
  pub is_leaf : Bool
  pub unbalanced : Bool
  pub spilled : Bool
  pub pgid : ℕ
  pub parent : Option ℕ
  pub first_key : List ℕ
  pub children : List ℕ
  pub inodes : List Inode

-- `Node(pgid, bucket, parent)`
abbrev pub new_node : ℕ → Option ℕ → Node
new_node pgid parent = record {
  is_leaf = false;
  unbalanced = false;
  spilled = false;
  pgid = pgid;
  parent = parent;
  first_key = [];
  children = [];
  inodes = [];
}

unfoldable pub min_keys : Node → ℕ
min_keys n = if n.is_leaf then 1 else 2

abbrev pub page_element_size : Node → ℕ
page_element_size n = if n.is_leaf then leaf_page_element_size else branch_page_element_size

-- What one inode adds to the size of a page.
abbrev pub inode_size : ℕ → Inode → ℕ
inode_size elsz inode = elsz + length inode.key + length inode.value

unfoldable pub byte_size : Node → ℕ
byte_size n =
    foldl (λ init inode. init + inode_size (page_element_size n) inode) page_header_size n.inodes

-- The loop of `is_size_less_than`.
abbrev pub size_loop : ℕ → ℕ → ℕ → List Inode → Bool
size_loop elsz v sz [] = true
size_loop elsz v sz (inode ∷ inodes) =
    let sz' = sz + inode_size elsz inode in
    let rest = size_loop elsz v sz' inodes in if leb v sz' then false else rest

unfoldable pub is_size_less_than : ℕ → Node → Bool
is_size_less_than v n = size_loop (page_element_size n) v page_header_size n.inodes

-- `std::lower_bound` over the keys, by its contract: the first inode that is not less.
unfoldable pub lower_bound : List ℕ → List Inode → ℕ
lower_bound key [] = 0
lower_bound key (inode ∷ inodes) =
    if slice_lt inode.key key then suc (lower_bound key inodes) else 0

-- What the body of `index_of` computes; it has no `return`.
unfoldable pub index_of : List ℕ → Node → ℕ
index_of key n = lower_bound key n.inodes

unfoldable pub child_index : Node → Node → ℕ
child_index child n = lower_bound child.first_key n.inodes

-- What a `NodeException` reports.
pub data NodeException : Type 0 where
  above_high_mark : ℕ → ℕ → NodeException
  zero_length_old_key : NodeException
  zero_length_new_key : NodeException
  inode_overflow : ℕ → ℕ → NodeException

pub data Result {ℓ} (A : Type ℓ) : Type ℓ where
  returns : A → Result A
  throws : NodeException → Result A

-- `inodes_.insert(iter, inode)`
abbrev pub insert_at : ℕ → Inode → List Inode → List Inode
insert_at zero x xs = x ∷ xs
insert_at (suc i) x [] = x ∷ []
insert_at (suc i) x (y ∷ xs) = y ∷ insert_at i x xs

-- `inodes_.erase(iter)`
abbrev pub erase_at : ℕ → List Inode → List Inode
erase_at i [] = []
erase_at zero (x ∷ xs) = xs
erase_at (suc i) (x ∷ xs) = x ∷ erase_at i xs

-- The four assignments to `inodes_[index]`.
abbrev pub assign_at : ℕ → Inode → List Inode → List Inode
assign_at i v [] = []
assign_at zero v (x ∷ xs) =
    record x { flags = v.flags; pgid = v.pgid; key = v.key; value = v.value } ∷ xs
assign_at (suc i) v (x ∷ xs) = x ∷ assign_at i v xs

-- `index < inodes_.size() && inodes_[index].key == key`
abbrev pub key_at : ℕ → List ℕ → List Inode → Bool
key_at i key [] = false
key_at zero key (x ∷ xs) = slice_eq x.key key
key_at (suc i) key (x ∷ xs) = key_at i key xs

-- `high_mark` is the page id of the transaction's meta page.
unfoldable pub put : ℕ → List ℕ → List ℕ → List ℕ → ℕ → ℕ → Node → Result Node
put high_mark old_key new_key value pgid flags n =
    let index = index_of old_key n in
    let exist = key_at index old_key n.inodes in
    let inodes = if not exist then insert_at index blank_inode n.inodes else n.inodes in
    let v : Inode = record { flags = flags; pgid = pgid; key = new_key; value = value } in
    if leb high_mark pgid
    then throws (above_high_mark pgid high_mark)
    else if length old_key == 0
    then throws zero_length_old_key
    else if length new_key == 0
    then throws zero_length_new_key
    else returns (record n { inodes = assign_at index v inodes })

unfoldable pub remove : List ℕ → Node → Node
remove key n =
    let index = index_of key n in
    if not (key_at index key n.inodes)
    then n
    else record n { inodes = erase_at index n.inodes; unbalanced = true }

-- The loop of `split_index`; `none` is a read behind the last inode.
unfoldable pub split_loop : ℕ → ℕ → ℕ → ℕ → ℕ → List Inode → Option (ℕ × ℕ)
split_loop elsz threshold bound i sz [] = if ltb i bound then none else some (i, sz)
split_loop elsz threshold bound i sz (inode ∷ inodes) =
    let elsize = inode_size elsz inode in
    let rest = split_loop elsz threshold bound (i + 1) (sz + elsize) inodes in
    if ltb i bound
    then if leb min_keys_per_page i && ltb threshold (sz + elsize) then some (i, sz) else rest
    else some (i, sz)

-- `inodes_.size() - kMinKeysPerPage` is a 64-bit difference.
unfoldable pub split_index : ℕ → Node → Option (ℕ × ℕ)
split_index threshold n =
    split_loop (page_element_size n) threshold
      ((length n.inodes + 2 ^ 64 - min_keys_per_page) % 2 ^ 64) 0 page_header_size n.inodes
