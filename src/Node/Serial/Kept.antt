-- ===== src/Node/Serial/Kept.antt =====
-- What `Node::read` of src/page/node.cpp leaves alone, and the kind of a node and its page.
use Prim.Native.Nat.{bit_and}
use boltdb_cpp.Base.{
  arith, ◌≡◌, refl, sym, ap, inl, inr, Bool, not, List, [], ◌∷◌, ◌++◌, Option, none, some, ◌>>=◌,
  ◌==◌, if◌then◌else◌, length, Bool-cases,
}
use boltdb_cpp.Page.{Page, leaf_flag, branch_flag}
use boltdb_cpp.Node.{Node, Inode, Result}
use boltdb_cpp.Node.Serial.{read, write, read_leaf, read_branch, save_first_key}

save_first_key-kept :
    (inodes : List Inode) (n m : Node)
    → save_first_key inodes n ≡ some m
    → (m.children ≡ n.children) × (m.parent ≡ n.parent)
save_first_key-kept [] n m e =
    let same : n ≡ m = cc (e) in
    (ap (λ (x : Node). x.children) (sym same), ap (λ (x : Node). x.parent) (sym same))
save_first_key-kept (inode ∷ inodes) n m e = elim (Bool-cases (length inode.key == 0)) [
  | inl q ↦ absurd (ground (arith, q, e))
  | inr q ↦
      let run : save_first_key (inode ∷ inodes) n ≡ some (record n { first_key = inode.key }) =
        rw q refl in
      let same : record n { first_key = inode.key } ≡ m = cc (run, e) in
      (ap (λ (x : Node). x.children) (sym same), ap (λ (x : Node). x.parent) (sym same))
]

abbrev leaf_page : Page → Bool
leaf_page p = not (bit_and p.flag leaf_flag == 0)

-- The node as it is before its first key is saved.
abbrev filled : Page → Node → List Inode → Node
filled p n xs = record n { pgid = p.pgid; is_leaf = leaf_page p; inodes = n.inodes ++ xs }

read_inodes :
    (p : Page) (n m : Node)
    → read p n ≡ some m
    → (xs : List Inode) × (save_first_key (n.inodes ++ xs) (filled p n xs) ≡ some m)
unfolding read
read_inodes p n m e =
    go (if leaf_page p then read_leaf p.count 0 p.body else read_branch p.count 0 p.body) e
  where
    go :
        (o : Option (List Inode))
        → (o >>= λ xs. save_first_key (n.inodes ++ xs) (filled p n xs)) ≡ some m
        → (xs : List Inode) × (save_first_key (n.inodes ++ xs) (filled p n xs) ≡ some m)
    go none h = absurd (cc (h))
    go (some xs) h = (xs, h)

pub read-kept :
    (p : Page) (n m : Node) → read p n ≡ some m → (m.children ≡ n.children) × (m.parent ≡ n.parent)
read-kept p n m e =
    let found = read_inodes p n m e in
    save_first_key-kept (n.inodes ++ found.0) (filled p n found.0) m found.1

save_first_key-is_leaf :
    (inodes : List Inode) (n m : Node) → save_first_key inodes n ≡ some m → m.is_leaf ≡ n.is_leaf
save_first_key-is_leaf [] n m e = let same : n ≡ m = cc e in ap (λ (x : Node). x.is_leaf) (sym same)
save_first_key-is_leaf (inode ∷ inodes) n m e = ground (arith, e)

-- A node takes its kind from the flag of the page.
pub read-is_leaf :
    (p : Page) (n m : Node) → read p n ≡ some m → m.is_leaf ≡ not (bit_and p.flag leaf_flag == 0)
read-is_leaf p n m e =
    let found = read_inodes p n m e in
    save_first_key-is_leaf (n.inodes ++ found.0) (filled p n found.0) m found.1

-- The page gets the flag of the node's kind, also where `write` throws.
pub write-flag :
    (n : Node) (p p' : Page) (r : Result (Unit {0}))
    → write n p ≡ some (r, p')
    → p'.flag ≡ (if n.is_leaf then leaf_flag else branch_flag)
unfolding write
write-flag n p p' r e = ground (arith, e)
