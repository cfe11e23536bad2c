-- ===== src/Node/Put/Undo.antt =====
-- What `Node::put` refuses, and `Node::remove` after it (src/page/node.cpp).
use boltdb_cpp.Base.{
  ℕ, zero, suc, ◌≤◌, ◌<◌, ◌≡◌, ◌≢◌, ◌↔◌, ◌⊎◌, refl, ap, ◌∙◌, true, false, List, [], ◌∷◌, some,
  arith, ltb, length, get_elem?, Bool-cases, inl, inr,
}
use boltdb_cpp.Util.Slice.{slice_eq, slice_eq_iff}
use boltdb_cpp.Node.{
  Node, Inode, lower_bound, index_of, NodeException, above_high_mark, zero_length_old_key,
  zero_length_new_key, returns, throws, erase_at, key_at, put, remove,
}
use boltdb_cpp.Node.Put.{
  put_inodes, remove_inodes, bound_less, bound_here, put_less, put_here, remove_less, remove_here,
  put_nil, find_put, written, Accepted, put_returns,
}

-- `put` throws exactly when an argument is not accepted, and checks the page id first, then the old
-- key, then the new one.
pub put_throws :
    (high_mark pgid flags : ℕ) (old_key new_key value : List ℕ) (n : Node) (e : NodeException)
    → (put high_mark old_key new_key value pgid flags n ≡ throws e) ↔ (
        ((high_mark ≤ pgid) × (e ≡ above_high_mark pgid high_mark))
        ⊎ ((pgid < high_mark) × (old_key ≡ []) × (e ≡ zero_length_old_key))
        ⊎ ((pgid < high_mark) × (old_key ≢ []) × (new_key ≡ []) × (e ≡ zero_length_new_key)))
unfolding put
put_throws high_mark pgid flags [] [] value n e = ground arith
put_throws high_mark pgid flags [] (y ∷ ys) value n e = ground arith
put_throws high_mark pgid flags (x ∷ xs) [] value n e = ground arith
put_throws high_mark pgid flags (x ∷ xs) (y ∷ ys) value n e = ground arith

remove-put_inodes :
    (key : List ℕ) (v : Inode) (xs : List Inode)
    → v.key ≡ key
    → key_at (lower_bound key xs) key xs ≡ false
    → remove_inodes key (put_inodes key v xs) ≡ xs
remove-put_inodes key v [] e absent =
    rw (put_nil key v)
      (remove_here key v [] (rw e (omega arith)) ∙ rw ((slice_eq_iff v.key key).1 e))
remove-put_inodes key v (x ∷ xs) e absent = elim (Bool-cases (ltb (length x.key) (length key))) [
  | inl less ↦
      let h : length x.key < length key = ground (arith, less) in
      rw (put_less key x xs v h) (
        remove_less key x (put_inodes key v xs) h
        ∙ ap (◌∷◌ x) (remove-put_inodes key v xs e (rw (bound_less key x xs h) at absent)))
  | inr here ↦
      let h : length key ≤ length x.key = ground (arith, here) in
      let other : slice_eq x.key key ≡ false = rw (bound_here key x xs h) at absent in
      rw (put_here key x xs v h) (
        rw other
          (remove_here key v (x ∷ xs) (rw e (omega arith)) ∙ rw ((slice_eq_iff v.key key).1 e)))
]

key_at-get :
    (i : ℕ) (key : List ℕ) (v : Inode) (xs : List Inode)
    → get_elem? xs i ≡ some v
    → key_at i key xs ≡ slice_eq v.key key
key_at-get i key v [] e = absurd (cc)
key_at-get zero key v (x ∷ xs) e = ground (arith, e)
key_at-get (suc i) key v (x ∷ xs) e = key_at-get i key v xs e

-- Where the lower bound of a key is not an inode with that key, and `put` accepts its arguments,
-- `remove` after it gives back the inodes as they were and marks the node as unbalanced.
pub remove-put :
    (high_mark pgid flags : ℕ) (key value : List ℕ) (n n' : Node)
    → Accepted high_mark pgid key key
    → key_at (index_of key n) key n.inodes ≡ false
    → put high_mark key key value pgid flags n ≡ returns n'
    → remove key n' ≡ record n { unbalanced = true }
unfolding index_of remove
remove-put high_mark pgid flags key value n n' ok absent e =
    let v = written key value pgid flags in
    let inodes = put_inodes key v n.inodes in
    let state : record n { inodes = inodes } ≡ n' =
      cc (e, put_returns high_mark pgid flags key key value n ok) in
    let (b, g) = find_put key v n.inodes refl in
    let there : key_at (lower_bound key inodes) key inodes ≡ true =
      rw b (key_at-get _ key v inodes g ∙ (slice_eq_iff key key).1 refl) in
    let back : erase_at (lower_bound key inodes) inodes ≡ n.inodes =
      rw there at (remove-put_inodes key v n.inodes refl absent) in
    rw (← state) (rw there (rw back))
