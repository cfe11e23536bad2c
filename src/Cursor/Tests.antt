-- ===== src/Cursor/Tests.antt =====
-- Runs of src/db/cursor.cpp.
use boltdb_cpp.Base.{ℕ, ◌≡◌, refl, true, false, List, [], ◌∷◌, none, some}
use boltdb_cpp.Page.{leaf_page_element, leaf_key, leaf_value, Page, leaf_flag, invalid_flag}
use boltdb_cpp.Page.Memory.{load, load_bytes, store, store_bytes, splice}
use boltdb_cpp.Binary.LittleEndian.{uint, encoded}
use boltdb_cpp.Node.{Node, new_node, returns}
use boltdb_cpp.Node.Serial.{read, read_leaf, write, write_leaf, write_leaf_element}
use boltdb_cpp.Cursor.{is_leaf, elem_ref}
use boltdb_cpp.Cursor.Leaves.{is_leaf-write}

-- A leaf with one key, and the page before and after it is written.
abbrev one_key : Node
one_key = record (new_node 5 none) {
  is_leaf = true;
  inodes = record { flags = 0; pgid = 0; key = 9 ∷ []; value = [] } ∷ [];
}

abbrev page : ℕ → ℕ → List ℕ → Page
page flag count body = record {
  page_size = 33;
  pgid = 5;
  flag = flag;
  count = count;
  overflow = 0;
  body = body;
}

abbrev blank : Page
blank = page invalid_flag 0 (0 ∷ 0 ∷ 0 ∷ 0 ∷ 0 ∷ 0 ∷ 0 ∷ 0 ∷ 0 ∷ 0 ∷ 0 ∷ 0 ∷ 0 ∷ 0 ∷ 0 ∷ 0 ∷ 0 ∷ [])

abbrev written : Page
written = page leaf_flag 1 (0 ∷ 0 ∷ 0 ∷ 0 ∷ 16 ∷ 0 ∷ 0 ∷ 0 ∷ 1 ∷ 0 ∷ 0 ∷ 0 ∷ 0 ∷ 0 ∷ 0 ∷ 0 ∷ 9 ∷ [])

write_test : write one_key blank ≡ some (returns tt, written)
unfolding write write_leaf write_leaf_element store store_bytes splice encoded
write_test = refl

abbrev reread : Node
reread = record (new_node 5 none) {
  is_leaf = true;
  inodes = record { flags = 0; pgid = 0; key = 9 ∷ []; value = [] } ∷ [];
  first_key = 9 ∷ [];
}

read_test : read written (new_node 0 none) ≡ some reread
unfolding read read_leaf leaf_page_element load load_bytes uint leaf_key leaf_value
read_test = refl

is_leaf-write_example :
    (is_leaf (elem_ref (some written) none) ≡ some true)
    × (is_leaf (elem_ref (some written) (some reread)) ≡ some true)
is_leaf-write_example =
    is_leaf-write one_key (new_node 0 none) reread blank written (returns tt) write_test read_test

-- A page with two flags is a leaf to `Node::read`, and not to a cursor.
two_flags_test : is_leaf (elem_ref (some (page 3 0 [])) none) ≡ some false
unfolding is_leaf
two_flags_test = refl

two_flags_read_test :
    read (page 3 0 []) (new_node 0 none) ≡ some (record (new_node 5 none) { is_leaf = true })
unfolding read read_leaf
two_flags_read_test = refl
