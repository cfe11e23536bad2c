-- ===== src/Node/Serial/Leaf.antt =====
-- The values of a leaf node in `Node::write` of src/page/node.cpp.
use boltdb_cpp.Base.{
  ℕ, suc, ◌+◌, ◌*◌, ◌≡◌, refl, ap, ◌∙◌, true, List, [], ◌∷◌, Option, ◌>>=◌, length,
}
use boltdb_cpp.Page.{Page}
use boltdb_cpp.Node.{Node, Inode}
use boltdb_cpp.Node.Serial.{write_leaf, write_leaf_element, write}

-- The same keys and flags, and values of the same lengths.
pub data SameShape : List Inode → List Inode → Type 0 where
  none_left : SameShape [] []
  both :
      (x y : Inode) (xs ys : List Inode)
      → x.flags ≡ y.flags
      → x.key ≡ y.key
      → length x.value ≡ length y.value
      → SameShape xs ys
      → SameShape (x ∷ xs) (y ∷ ys)

length-SameShape : {xs ys : List Inode} → SameShape xs ys → length xs ≡ length ys
length-SameShape none_left = refl
length-SameShape (both x y xs ys f k v s) = ap suc (length-SameShape s)

write_leaf_same :
    {xs ys : List Inode}
    → (i base : ℕ) (body : List ℕ) → SameShape xs ys
    → write_leaf i base xs body ≡ write_leaf i base ys body
unfolding write_leaf write_leaf_element
write_leaf_same i base body none_left = refl
write_leaf_same i base body (both x y xs ys f k v s) =
    (λ j. write_leaf_element (16 * i) base (f j) (k j) (v j) body >>= λ body'.
    write_leaf (i + 1) (base + length (k j)) xs body')
    ∙ ap
        (λ (g : List ℕ → Option (List ℕ)).
          write_leaf_element (16 * i) base y.flags y.key (length y.value) body >>= g)
        (λ j body'. write_leaf_same (i + 1) (base + length y.key) body' s j)

-- A leaf node leaves the same page as one with the same keys and flags whose values have the same lengths
-- and other bytes: the bytes of a value do not get into the page.
pub write_loses_values :
    (n : Node) (page : Page) (ys : List Inode)
    → n.is_leaf ≡ true
    → SameShape n.inodes ys
    → write n page ≡ write (record n { inodes = ys }) page
unfolding write
write_loses_values n page ys leaf s =
    let e : write_leaf 0 (16 * length n.inodes) n.inodes page.body
        ≡ write_leaf 0 (16 * length ys) ys page.body =
      ap (λ k. write_leaf 0 (16 * k) n.inodes page.body) (length-SameShape s)
      ∙ write_leaf_same 0 (16 * length ys) page.body s in
    rw leaf (rw e (rw (length-SameShape s) refl))
