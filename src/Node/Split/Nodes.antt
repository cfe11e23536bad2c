-- ===== src/Node/Split/Nodes.antt =====
-- The nodes that pointers of src/page/node.cpp reach: a pointer is an index, and `new` takes the next
-- one. `splits` is the statistic `stats.split` of the transaction.
use boltdb_cpp.Base.{
  ℕ, zero, suc, ◌+◌, ◌<◌, ◌≡◌, ◌≢◌, refl, ap, ◌∙◌, Bool, List, [], ◌∷◌, ◌++◌, Option, none, some,
  arith, length, get_elem?, length-append,
}
use boltdb_cpp.Node.{Node, Inode}

pub record Heap : Type 0 where
  pub nodes : List Node
  pub splits : ℕ

unfoldable pub alloc : Node → Heap → ℕ × Heap
alloc n h = (length h.nodes, record h { nodes = h.nodes ++ (n ∷ []) })

abbrev update_nodes : ℕ → (Node → Node) → List Node → List Node
update_nodes r f [] = []
update_nodes zero f (n ∷ ns) = f n ∷ ns
update_nodes (suc r) f (n ∷ ns) = n ∷ update_nodes r f ns

-- An assignment to the node that `r` points to.
unfoldable pub update : ℕ → (Node → Node) → Heap → Heap
update r f h = record h { nodes = update_nodes r f h.nodes }

abbrev pub size : Heap → ℕ
size h = length h.nodes

unfoldable pub deref : ℕ → Heap → Option Node
deref r h = get_elem? h.nodes r

abbrev opt_map : (Node → Node) → Option Node → Option Node
opt_map f none = none
opt_map f (some n) = some (f n)

length-update_nodes :
    (r : ℕ) (f : Node → Node) (ns : List Node) → length (update_nodes r f ns) ≡ length ns
length-update_nodes r f [] = refl
length-update_nodes zero f (n ∷ ns) = refl
length-update_nodes (suc r) f (n ∷ ns) = ap suc (length-update_nodes r f ns)

pub size-update : (r : ℕ) (f : Node → Node) (h : Heap) → size (update r f h) ≡ size h
unfolding update
size-update r f h = length-update_nodes r f h.nodes

pub size-alloc : (n : Node) (h : Heap) → size (alloc n h).1 ≡ size h + 1
unfolding alloc
size-alloc n h = length-append h.nodes (n ∷ [])

pub alloc-ref : (n : Node) (h : Heap) → (alloc n h).0 ≡ size h
unfolding alloc
alloc-ref n h = refl

get-append_old :
    (ns : List Node) (n : Node) (r : ℕ)
    → r < length ns
    → get_elem? (ns ++ (n ∷ [])) r ≡ get_elem? ns r
get-append_old [] n r h = absurd (omega arith)
get-append_old (m ∷ ns) n zero h = refl
get-append_old (m ∷ ns) n (suc r) h = get-append_old ns n r (omega arith)

get-append_new : (ns : List Node) (n : Node) → get_elem? (ns ++ (n ∷ [])) (length ns) ≡ some n
get-append_new [] n = refl
get-append_new (m ∷ ns) n = get-append_new ns n

pub deref-alloc_old : (n : Node) (h : Heap) (r : ℕ) → r < size h → deref r (alloc n h).1 ≡ deref r h
unfolding deref alloc
deref-alloc_old n h r lt = get-append_old h.nodes n r lt

pub deref-alloc_new : (n : Node) (h : Heap) → deref (alloc n h).0 (alloc n h).1 ≡ some n
unfolding deref alloc
deref-alloc_new n h = get-append_new h.nodes n

get-update_self :
    (r : ℕ) (f : Node → Node) (ns : List Node)
    → get_elem? (update_nodes r f ns) r ≡ opt_map f (get_elem? ns r)
get-update_self r f [] = refl
get-update_self zero f (n ∷ ns) = refl
get-update_self (suc r) f (n ∷ ns) = get-update_self r f ns

get-update_other :
    (r q : ℕ) (f : Node → Node) (ns : List Node)
    → q ≢ r
    → get_elem? (update_nodes r f ns) q ≡ get_elem? ns q
get-update_other r q f [] ne = refl
get-update_other zero zero f (n ∷ ns) ne = absurd (ne refl)
get-update_other zero (suc q) f (n ∷ ns) ne = refl
get-update_other (suc r) zero f (n ∷ ns) ne = refl
get-update_other (suc r) (suc q) f (n ∷ ns) ne = get-update_other r q f ns (λ e. ne (ap suc e))

-- What of a node decides how it is split.
abbrev pub content : Option Node → Option (Bool × List Inode)
content none = none
content (some n) = some (n.is_leaf, n.inodes)

abbrev pub content_at : ℕ → Heap → Option (Bool × List Inode)
content_at r h = content (deref r h)

pub content-update_keep :
    (r q : ℕ) (f : Node → Node) (h : Heap)
    → ((n : Node) → content (some (f n)) ≡ content (some n))
    → content_at q (update r f h) ≡ content_at q h
unfolding update deref
content-update_keep r q f h keep = go r q h.nodes
  where
    go :
        (r q : ℕ) (ns : List Node)
        → content (get_elem? (update_nodes r f ns) q) ≡ content (get_elem? ns q)
    go r q [] = refl
    go zero zero (n ∷ ns) = keep n
    go zero (suc q) (n ∷ ns) = refl
    go (suc r) zero (n ∷ ns) = refl
    go (suc r) (suc q) (n ∷ ns) = go r q ns

-- An assignment to the inodes of a node.
abbrev pub with_inodes : List Inode → Node → Node
with_inodes inodes n = record n { inodes = inodes }

abbrev pub replaced : List Inode → Option (Bool × List Inode) → Option (Bool × List Inode)
replaced inodes none = none
replaced inodes (some (leaf, _)) = some (leaf, inodes)

pub content-set_inodes_self :
    (r : ℕ) (inodes : List Inode) (h : Heap)
    → content_at r (update r (λ n. record n { inodes = inodes }) h)
      ≡ replaced inodes (content_at r h)
unfolding update deref
content-set_inodes_self r inodes h =
    ap content (get-update_self r (with_inodes inodes) h.nodes) ∙ go (get_elem? h.nodes r)
  where
    go : (o : Option Node) → content (opt_map (with_inodes inodes) o) ≡ replaced inodes (content o)
    go none = refl
    go (some n) = refl

pub content-set_inodes_other :
    (r q : ℕ) (inodes : List Inode) (h : Heap)
    → q ≢ r
    → content_at q (update r (λ n. record n { inodes = inodes }) h) ≡ content_at q h
unfolding update deref
content-set_inodes_other r q inodes h ne =
    ap content (get-update_other r q (with_inodes inodes) h.nodes ne)
