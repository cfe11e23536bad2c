-- ===== src/Node/Put/Hidden.antt =====
-- `Node::put` and `Node::remove` (src/page/node.cpp) under a key that the search does not find.
use boltdb_cpp.Base.{
  ℕ, ◌<◌, ◌≡◌, ◌≢◌, sym, ap, ◌∙◌, false, List, [], ◌∷◌, ◌++◌, arith, length, Bool-cases, inl, inr,
  All,
}
use boltdb_cpp.Util.Slice.{slice_eq, slice_eq_iff}
use boltdb_cpp.Node.{Node, Inode, lower_bound, index_of, returns, key_at, put, remove}
use boltdb_cpp.Node.Put.{
  put_inodes, remove_inodes, bound_less, bound_here, put_less, put_here, remove_less, remove_here,
  written, Accepted, put_returns,
}

slice_eq_other : (xs ys : List ℕ) → ys ≢ xs → slice_eq xs ys ≡ false
slice_eq_other xs ys ne = elim (Bool-cases (slice_eq xs ys)) [
  | inl e ↦ absurd (ne (sym ((slice_eq_iff xs ys).0 e)))
  | inr e ↦ e
]

hidden_bound :
    (key : List ℕ) (a b : List Inode) (x : Inode) (v : Inode)
    → All (λ y. length y.key < length key) a
    → length key ≡ length x.key
    → key ≢ x.key
    → (put_inodes key v (a ++ (x ∷ b)) ≡ a ++ (v ∷ x ∷ b))
      × (remove_inodes key (a ++ (x ∷ b)) ≡ a ++ (x ∷ b))
hidden_bound key [] b x v short e ne = (
  put_here key x b v (omega arith) ∙ rw (slice_eq_other x.key key ne),
  remove_here key x b (omega arith) ∙ rw (slice_eq_other x.key key ne),
)
hidden_bound key (y ∷ a) b x v short e ne =
    let (p, r) = hidden_bound key a b x v short.1 e ne in
    (
      put_less key y (a ++ (x ∷ b)) v short.0 ∙ ap (◌∷◌ y) p,
      remove_less key y (a ++ (x ∷ b)) short.0 ∙ ap (◌∷◌ y) r,
    )

hidden_at :
    (key : List ℕ) (a b : List Inode) (x : Inode)
    → All (λ y. length y.key < length key) a
    → length key ≡ length x.key
    → key ≢ x.key
    → key_at (lower_bound key (a ++ (x ∷ b))) key (a ++ (x ∷ b)) ≡ false
hidden_at key [] b x short e ne =
    rw (bound_here key x b (omega arith)) (slice_eq_other x.key key ne)
hidden_at key (y ∷ a) b x short e ne =
    rw (bound_less key y (a ++ (x ∷ b)) short.0) (hidden_at key a b x short.1 e ne)

-- Where the first key that is not shorter than a given key has the same length and is another key,
-- the given key is not found, since `operator<` compares lengths only: `put` under it, with
-- arguments that it accepts, inserts an inode in front of that other key, also where an inode with
-- the given key stands further on.
pub put_duplicates :
    (high_mark pgid flags : ℕ) (key value : List ℕ) (n : Node) (a b : List Inode) (x : Inode)
    → Accepted high_mark pgid key key
    → n.inodes ≡ a ++ (x ∷ b)
    → All (λ y. length y.key < length key) a
    → length key ≡ length x.key
    → key ≢ x.key
    → put high_mark key key value pgid flags n
      ≡ returns (record n { inodes = a ++ (written key value pgid flags ∷ x ∷ b) })
put_duplicates high_mark pgid flags key value n a b x ok e short same ne =
    put_returns high_mark pgid flags key key value n ok
    ∙ rw e (rw ((hidden_bound key a b x (written key value pgid flags) short same ne).0))

-- Where the first key that is not shorter than a given key has the same length and is another key,
-- `remove` under the given key changes nothing, also where an inode with the given key stands
-- further on.
remove_misses :
    (key : List ℕ) (n : Node) (a b : List Inode) (x : Inode)
    → n.inodes ≡ a ++ (x ∷ b)
    → All (λ y. length y.key < length key) a
    → length key ≡ length x.key
    → key ≢ x.key
    → remove key n ≡ n
unfolding remove index_of
remove_misses key n a b x e short same ne =
    let miss : key_at (lower_bound key n.inodes) key n.inodes ≡ false =
      rw e (hidden_at key a b x short same ne) in
    rw miss
