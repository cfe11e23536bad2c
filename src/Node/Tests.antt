-- ===== src/Node/Tests.antt =====
-- Runs of the operations of src/page/node.cpp on small nodes.
use boltdb_cpp.Base.{
  length, ◌++◌, zero, All, false, ℕ, suc, ◌+◌, ◌≡◌, ◌≢◌, ◌≤◌, ◌<◌, ◌⊎◌, ◌↔◌, refl, true, ◌||◌, List,
  [], ◌∷◌, none, some, arith, take, ltb, get_elem?,
}
use boltdb_cpp.Page.{Page, page_header_size}
use boltdb_cpp.Util.Slice.{slice_lt, slice_eq, memcmp}
use boltdb_cpp.Node.{
  Inode, Node, new_node, above_high_mark, zero_length_old_key, zero_length_new_key, returns, throws,
  put, remove, index_of, lower_bound, split_index, byte_size, is_size_less_than, page_element_size,
}
use boltdb_cpp.Node.Size.{
  inodes_size, is_nil, byte_size_lem, is_size_less_than_lem, split_index_lem,
}
use boltdb_cpp.Node.Put.{Placed, OrderedFrom, written, Accepted, put_lem}
use boltdb_cpp.Node.Put.Undo.{put_throws, remove-put}
use boltdb_cpp.Node.Put.Hidden.{put_duplicates}
use boltdb_cpp.Node.Serial.{read, write}
use boltdb_cpp.Node.Serial.Branch.{IsBranch}
use boltdb_cpp.Node.Serial.RoundTrip.{read-write}
use boltdb_cpp.Node.Serial.Leaf.{none_left, both, write_loses_values}
use boltdb_cpp.Node.Split.{split}
use boltdb_cpp.Node.Split.Nodes.{Heap, deref}
use boltdb_cpp.Node.Split.Pieces.{SplitsInto, split_lem}

-- An inode with a key of one byte and a value of eight.
abbrev item : ℕ → Inode
item k = record { flags = 0; pgid = 0; key = k ∷ []; value = 1 ∷ 2 ∷ 3 ∷ 4 ∷ 5 ∷ 6 ∷ 7 ∷ 8 ∷ [] }

abbrev leaf : List Inode → Node
leaf inodes = record (new_node 7 none) { is_leaf = true; inodes = inodes }

abbrev six : Node
six = leaf (item 1 ∷ item 2 ∷ item 3 ∷ item 4 ∷ item 5 ∷ item 6 ∷ [])

abbrev one_node : Heap
one_node = record { nodes = six ∷ []; splits = 0 }

split_lem_example : SplitsInto true 128 80 0 [] six.inodes one_node (split 128 80 0 one_node)
unfolding deref
split_lem_example = split_lem 128 80 0 six one_node refl (omega arith)

split_index_lem_example :
    (i : ℕ) × (split_index 80 six
      ≡ some (i, page_header_size + inodes_size (page_element_size six) (take i six.inodes)))
    × (2 ≤ i)
    × (i + 2 ≤ 6)
    × (2 < i → page_header_size + inodes_size (page_element_size six) (take i six.inodes) ≤ 80)
    × (i + 2 < 6
        → 80 < page_header_size + inodes_size (page_element_size six) (take (suc i) six.inodes))
split_index_lem_example = split_index_lem 80 six (omega arith) (omega arith)

byte_size_lem_example :
    byte_size six ≡ page_header_size + inodes_size (page_element_size six) six.inodes
byte_size_lem_example = byte_size_lem six

is_size_less_than_lem_example :
    is_size_less_than 128 six ≡ (is_nil six.inodes || ltb (byte_size six) 128)
is_size_less_than_lem_example = is_size_less_than_lem 128 six

Accepted-key : Accepted 10 0 (5 ∷ []) (5 ∷ [])
Accepted-key = (omega arith, omega arith, omega arith)

put_lem_example :
    (n' : Node) × (a old b : List Inode) × (put 10 (5 ∷ []) (5 ∷ []) (9 ∷ []) 0 0 six ≡ returns n')
    × (six.inodes ≡ a ++ old)
    × (length a ≡ index_of (5 ∷ []) six)
    × Placed (5 ∷ []) old b
    × (n' ≡ record six { inodes = a ++ (written (5 ∷ []) (9 ∷ []) 0 0 ∷ b) })
    × (index_of (5 ∷ []) n' ≡ index_of (5 ∷ []) six)
    × (get_elem? n'.inodes (index_of (5 ∷ []) six) ≡ some (written (5 ∷ []) (9 ∷ []) 0 0))
    × OrderedFrom 0 n'.inodes
put_lem_example =
    put_lem 10 0 0 (5 ∷ []) (9 ∷ []) six Accepted-key
      (omega arith, (omega arith, (omega arith, (omega arith, (omega arith, (omega arith, tt))))))

put_throws_test : (put 10 [] (5 ∷ []) [] 0 0 six ≡ throws zero_length_old_key) ↔ (
    ((10 ≤ 0) × (zero_length_old_key ≡ above_high_mark 0 10))
    ⊎ ((0 < 10) × ◌≡◌ {A = List ℕ} [] [] × (zero_length_old_key ≡ zero_length_old_key))
    ⊎ ((0 < 10)
        × ◌≢◌ {A = List ℕ} [] []
        × ◌≡◌ {A = List ℕ} (5 ∷ []) []
        × (zero_length_old_key ≡ zero_length_new_key)))
put_throws_test = put_throws 10 0 0 [] (5 ∷ []) [] six zero_length_old_key

-- The key 5 stands behind the key 1, of the same length, and is not found.
put_duplicates_example :
    put 10 (5 ∷ []) (5 ∷ []) (9 ∷ []) 0 0 six
    ≡ returns (record six { inodes = written (5 ∷ []) (9 ∷ []) 0 0 ∷ six.inodes })
put_duplicates_example =
    put_duplicates 10 0 0 (5 ∷ []) (9 ∷ []) six [] (item 2 ∷ item 3 ∷ item 4 ∷ item 5 ∷ item 6 ∷ [])
      (item 1) Accepted-key refl tt refl (λ e. ground (arith, e))

abbrev two : Node
two = leaf (record (item 0) { key = 1 ∷ 1 ∷ [] } ∷ [])

abbrev put_in_two : Node
put_in_two = record two { inodes = written (5 ∷ []) (9 ∷ []) 0 0 ∷ two.inodes }

put_test : put 10 (5 ∷ []) (5 ∷ []) (9 ∷ []) 0 0 two ≡ returns put_in_two
unfolding put index_of lower_bound slice_lt slice_eq memcmp
put_test = refl

remove-put_example : remove (5 ∷ []) put_in_two ≡ record two { unbalanced = true }
unfolding index_of lower_bound slice_lt slice_eq memcmp
remove-put_example = remove-put 10 0 0 (5 ∷ []) (9 ∷ []) two put_in_two Accepted-key refl put_test

-- A branch node with two children.
abbrev branch_item : ℕ → ℕ → Inode
branch_item k pgid = record { flags = 0; pgid = pgid; key = k ∷ k ∷ []; value = [] }

abbrev branch : Node
branch = record (new_node 7 none) { inodes = branch_item 1 8 ∷ branch_item 2 9 ∷ [] }

abbrev zeros : ℕ → List ℕ
zeros zero = []
zeros (suc n) = 0 ∷ zeros n

abbrev blank : Page
blank = record { page_size = 64; pgid = 7; flag = 0; count = 0; overflow = 0; body = zeros 48 }

IsBranch-items : All IsBranch branch.inodes
IsBranch-items = ((refl, refl, omega arith), ((refl, refl, omega arith), tt))

read-write_example :
    (out : Page) × (n' : Node) × (write branch blank ≡ some (returns tt, out))
    × (read out (new_node 0 none) ≡ some n')
    × (n'.inodes ≡ branch.inodes)
    × (n'.is_leaf ≡ false)
read-write_example =
    read-write branch blank refl IsBranch-items (omega arith) (omega arith) (omega arith)
      (omega arith)

abbrev other_value : Inode
other_value = record (item 1) { value = 0 ∷ 0 ∷ 0 ∷ 0 ∷ 0 ∷ 0 ∷ 0 ∷ 0 ∷ [] }

write_loses_values_example :
    write (leaf (item 1 ∷ [])) blank ≡ write (leaf (other_value ∷ [])) blank
write_loses_values_example =
    write_loses_values (leaf (item 1 ∷ [])) blank (other_value ∷ []) refl
      (both (item 1) other_value [] [] refl refl refl none_left)
