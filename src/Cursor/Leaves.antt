-- ===== src/Cursor/Leaves.antt =====
-- `ElemRef::is_leaf` of src/db/cursor.cpp at a node, the page that it is written to, and the node that is
-- read from that page.
use Prim.Native.Nat.{bit_and}
use boltdb_cpp.Base.{◌≡◌, refl, ap, ◌∙◌, Bool, true, false, not, none, some, ◌==◌, if◌then◌else◌, ℕ}
use boltdb_cpp.Page.{Page, leaf_flag, branch_flag}
use boltdb_cpp.Node.{Node, Result}
use boltdb_cpp.Node.Serial.{read, write}
use boltdb_cpp.Node.Serial.Kept.{read-is_leaf, write-flag}
use boltdb_cpp.Cursor.{is_leaf, elem_ref}

abbrev flag_of : Bool → ℕ
flag_of leaf = if leaf then leaf_flag else branch_flag

flag_equal : (leaf : Bool) → (flag_of leaf == leaf_flag) ≡ leaf
flag_equal true = refl
flag_equal false = refl

flag_masked : (leaf : Bool) → not (bit_and (flag_of leaf) leaf_flag == 0) ≡ leaf
flag_masked true = refl
flag_masked false = refl

-- A reference of a cursor to a page that a node was written to, whether or not `write` threw, and one to a
-- node that was read from this page, both say that they are at a leaf exactly when the node is one.
pub is_leaf-write :
    (n m m' : Node) (p p' : Page) (r : Result (Unit {0}))
    → write n p ≡ some (r, p')
    → read p' m ≡ some m'
    → (is_leaf (elem_ref (some p') none) ≡ some n.is_leaf)
      × (is_leaf (elem_ref (some p') (some m')) ≡ some n.is_leaf)
unfolding is_leaf
is_leaf-write n m m' p p' r e h =
    let flag = write-flag n p p' r e in
    let masked = ap (λ f. not (bit_and f leaf_flag == 0)) flag in
    (
      ap some (ap (λ f. f == leaf_flag) flag ∙ flag_equal n.is_leaf),
      ap some (read-is_leaf p' m m' h ∙ masked ∙ flag_masked n.is_leaf),
    )
