-- ===== src/Bucket/Siblings.antt =====
-- `next_sibling` and `prev_sibling` of src/page/node.cpp: the index of a child is sought with the comparison of
-- slices, which looks at lengths only.
use boltdb_cpp.Base.{
  ℕ, ◌≤◌, ◌≡◌, refl, ap, ◌∙◌, false, List, ◌∷◌, some, leb, if◌then◌else◌, length, get_elem?, arith,
}
use boltdb_cpp.Util.Slice.{slice_lt, slice_lt_lem}
use boltdb_cpp.Node.{Node, Inode, lower_bound, child_index}
use boltdb_cpp.Bucket.{World, no_child, child_at, next_sibling, prev_sibling}

first_found :
    (key : List ℕ) (inode : Inode) (inodes : List Inode)
    → length key ≤ length inode.key
    → lower_bound key (inode ∷ inodes) ≡ 0
unfolding lower_bound
first_found key inode inodes h =
    let long : slice_lt inode.key key ≡ false = slice_lt_lem inode.key key ∙ ground (arith, h) in
    rw long refl

-- For a child whose first key is no longer than the first key of its parent, as is the case of all
-- children when keys have one length, wherever it stands: `prev_sibling` finds no node, and
-- `next_sibling` is the child at index 1, if the parent has more than one inode.
pub siblings_stuck :
    {D : Type 0} (this p : ℕ) (w : World D) (n parent : Node) (inode : Inode) (inodes : List Inode)
    → get_elem? w.nodes this ≡ some n
    → n.parent ≡ some p
    → get_elem? w.nodes p ≡ some parent
    → parent.inodes ≡ inode ∷ inodes
    → length n.first_key ≤ length inode.key
    → (prev_sibling this w ≡ some (no_child, w))
      × (next_sibling this w
          ≡ (if leb (length parent.inodes) 1 then some (no_child, w) else child_at p 1 w))
unfolding prev_sibling next_sibling child_index
siblings_stuck this p w n parent inode inodes here up there e h =
    let index : child_index n parent ≡ 0 =
      ap (lower_bound n.first_key) e ∙ first_found n.first_key inode inodes h in
    (rw here (rw up (rw (there, index) refl)), rw here (rw up (rw (there, index) refl)))
