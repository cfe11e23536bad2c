-- ===== src/Bucket/Roots.antt =====
-- `Node::root` of include/boltdb/page/node.hpp on the nodes that `Node::child_at` (src/page/node.cpp) makes.
use boltdb_cpp.Base.{
  ◌⊎◌, Bool-cases, ltb, ◌==◌, Option-cases, ℕ, zero, suc, ◌<◌, ◌≡◌, refl, sym, ap, ◌∙◌, inl, inr,
  false, List, [], ◌∷◌, ◌++◌, Option, none, some, ◌>>=◌, length, get_elem?, set, get-append, arith,
}
use boltdb_cpp.Base.Map
use boltdb_cpp.Page.{Page}
use boltdb_cpp.Node.{Node, Inode, new_node}
use boltdb_cpp.Node.Serial.{read}
use boltdb_cpp.Node.Serial.Kept.{read-kept}
use boltdb_cpp.Bucket.{World, root, child, child_at, source_page}
use boltdb_cpp.Bucket.Children.{child_created, with_child}

-- The parent of the node `i`, where there is such a node.
abbrev pub parent_at : List Node → ℕ → Option (Option ℕ)
parent_at [] i = none
parent_at (n ∷ ns) zero = some n.parent
parent_at (n ∷ ns) (suc i) = parent_at ns i

-- A parent is older than its children.
abbrev pub Rising : List Node → Type 0
Rising ns = (i p : ℕ) → parent_at ns i ≡ some (some p) → p < i

abbrev go_up : ℕ → List Node → ℕ → Option (Option ℕ) → Option ℕ
go_up fuel ns i none = none
go_up fuel ns i (some none) = some i
go_up fuel ns i (some (some p)) = root fuel ns p

get-parent_at : (ns : List Node) (i : ℕ) → parent_at ns i ≡ (get_elem? ns i >>= λ n. some n.parent)
get-parent_at [] i = refl
get-parent_at (n ∷ ns) zero = refl
get-parent_at (n ∷ ns) (suc i) = get-parent_at ns i

root_up :
    (fuel : ℕ) (ns : List Node) (i : ℕ) → root (suc fuel) ns i ≡ go_up fuel ns i (parent_at ns i)
unfolding root
root_up fuel ns i = go (get_elem? ns i) ∙ ap (go_up fuel ns i) (sym (get-parent_at ns i))
  where
    up :
        (n : Node) (o : Option ℕ)
        → (elim o [ none ↦ some i | some p ↦ root fuel ns p ]) ≡ go_up fuel ns i (some o)
    up n none = refl
    up n (some p) = refl

    go :
        (o : Option Node)
        → (o >>= λ n. elim n.parent [ none ↦ some i | some p ↦ root fuel ns p ])
          ≡ go_up fuel ns i (o >>= λ n. some n.parent)
    go none = refl
    go (some n) = up n n.parent

parent_at_cases :
    (ns : List Node) (i : ℕ)
    → i < length ns
    → (parent_at ns i ≡ some none) ⊎ ((p : ℕ) × (parent_at ns i ≡ some (some p)))
parent_at_cases [] i h = absurd (omega arith)
parent_at_cases (n ∷ ns) zero h = elim (Option-cases n.parent) [
  | inl e ↦ inl (ap some e)
  | inr (p, e) ↦ inr (p, ap some e)
]
parent_at_cases (n ∷ ns) (suc i) h = parent_at_cases ns i (omega arith)

parent_at-append :
    (ns : List Node) (m : Node) (i : ℕ)
    → i < length ns
    → parent_at (ns ++ (m ∷ [])) i ≡ parent_at ns i
parent_at-append [] m i h = absurd (omega arith)
parent_at-append (n ∷ ns) m zero h = refl
parent_at-append (n ∷ ns) m (suc i) h = parent_at-append ns m i (omega arith)

parent_at-last :
    (ns : List Node) (m : Node) → parent_at (ns ++ (m ∷ [])) (length ns) ≡ some m.parent
parent_at-last [] m = refl
parent_at-last (n ∷ ns) m = parent_at-last ns m

parent_at-outside :
    (ns : List Node) (m : Node) (i : ℕ) → length ns < i → parent_at (ns ++ (m ∷ [])) i ≡ none
parent_at-outside [] m zero h = absurd (omega arith)
parent_at-outside [] m (suc i) h = refl
parent_at-outside (n ∷ ns) m zero h = absurd (omega arith)
parent_at-outside (n ∷ ns) m (suc i) h = parent_at-outside ns m i (omega arith)

parent_at-set :
    (ns : List Node) (j : ℕ) (n n' : Node) (i : ℕ)
    → get_elem? ns j ≡ some n
    → n'.parent ≡ n.parent
    → parent_at (set ns j n') i ≡ parent_at ns i
parent_at-set [] j n n' i e p = refl
parent_at-set (x ∷ ns) zero n n' zero e p =
    let same : n ≡ x = cc e in ap some (p ∙ ap (λ (y : Node). y.parent) same)
parent_at-set (x ∷ ns) zero n n' (suc i) e p = refl
parent_at-set (x ∷ ns) (suc j) n n' zero e p = refl
parent_at-set (x ∷ ns) (suc j) n n' (suc i) e p = parent_at-set ns j n n' i e p

-- `root` ends, at a node without a parent.
root_lem :
    (fuel i : ℕ) (ns : List Node)
    → Rising ns
    → i < length ns
    → i < fuel
    → (r : ℕ) × (root fuel ns i ≡ some r) × (parent_at ns r ≡ some none)
root_lem zero i ns rising inside h = absurd (omega arith)
root_lem (suc fuel) i ns rising inside h = elim (parent_at_cases ns i inside) [
  | inl e ↦ (i, root_up fuel ns i ∙ ap (go_up fuel ns i) e, e)
  | inr (p, e) ↦
      let older = rising i p e in
      let (r, run, top) =
        root_lem fuel p ns rising (omega (arith, older, inside)) (omega (arith, older, h)) in
      (r, root_up fuel ns i ∙ ap (go_up fuel ns i) e ∙ run, top)
]

-- It needs no more fuel, and looks at the parents of older nodes only.
root_same :
    (f g i : ℕ) (ns ms : List Node)
    → Rising ns
    → i < length ns
    → i < f
    → i < g
    → ((j : ℕ) → j < length ns → parent_at ms j ≡ parent_at ns j)
    → root f ms i ≡ root g ns i
root_same zero g i ns ms rising inside h k same = absurd (omega arith)
root_same (suc f) zero i ns ms rising inside h k same = absurd (omega arith)
root_same (suc f) (suc g) i ns ms rising inside h k same =
    root_up f ms i ∙ ap (go_up f ms i) (same i inside) ∙ elim (parent_at_cases ns i inside) [
      | inl e ↦ ap (go_up f ms i) e ∙ sym (root_up g ns i ∙ ap (go_up g ns i) e)
      | inr (p, e) ↦
          let older = rising i p e in
          ap (go_up f ms i) e
          ∙ root_same f g p ns ms rising (omega (arith, older, inside)) (omega (arith, older, h))
              (omega (arith, older, k)) same
          ∙ sym (root_up g ns i ∙ ap (go_up g ns i) e)
    ]

-- The nodes after `m` came to them, and a node that kept its parent was assigned.
module _ (ns : List Node) (m : Node) (this : ℕ) (n n' : Node) (here : get_elem? ns this ≡ some n)
    (kept : n'.parent ≡ n.parent) where
  abbrev grown : List Node
  grown = set (ns ++ (m ∷ [])) this n'

  grown-same : (j : ℕ) → parent_at grown j ≡ parent_at (ns ++ (m ∷ [])) j
  grown-same j =
      parent_at-set (ns ++ (m ∷ [])) this n n' j (get-append ns (m ∷ []) this n here) kept

  grown-old : (j : ℕ) → j < length ns → parent_at grown j ≡ parent_at ns j
  grown-old j h = grown-same j ∙ parent_at-append ns m j h

  grown-new : parent_at grown (length ns) ≡ some m.parent
  grown-new = grown-same (length ns) ∙ parent_at-last ns m

  grown-Rising : Rising ns → m.parent ≡ some this → this < length ns → Rising grown
  grown-Rising rising up inside i p e = elim (Bool-cases (ltb i (length ns))) [
    | inl old ↦ rising i p (sym (grown-old i (ground (arith, old))) ∙ e)
    | inr not_old ↦ elim (Bool-cases (i == length ns)) [
      | inl new ↦
          let last : i ≡ length ns = ground (arith, new) in
          let its : some (some p) ≡ some (some this) =
            sym e ∙ ap (parent_at grown) last ∙ grown-new ∙ ap some up in
          let same : p ≡ this = cc its in omega (arith, same, last, inside)
      | inr beyond ↦
          let out : parent_at grown i ≡ none =
            grown-same i ∙ parent_at-outside ns m i (ground (arith, not_old, beyond)) in
          absurd (cc (out, e))
    ]
  ]

get-inside : (ns : List Node) (i : ℕ) (n : Node) → get_elem? ns i ≡ some n → i < length ns
get-inside [] i n e = absurd (cc (e))
get-inside (x ∷ ns) zero n e = omega arith
get-inside (x ∷ ns) (suc i) n e = omega (arith, get-inside ns i n e)

-- Let every parent among the nodes be older than its children, and let `child_at` make a node, for the page
-- of an inode that is not in the cache and can be read. Then parents still are older than their children;
-- with one round for each node up to the one it is asked of, `root` ends for `this` at a node without
-- a parent, gives the same node for the new child, and for each older node what it gave before.
pub root-child_at :
    {D : Type 0} (this index i : ℕ) (w : World D) (parent : Node) (inode : Inode) (p : Page)
    (m : Node)
    → get_elem? w.nodes this ≡ some parent
    → parent.is_leaf ≡ false
    → get_elem? parent.inodes index ≡ some inode
    → Rising w.nodes
    → Map.find inode.pgid w.bucket.node_cache ≡ none
    → source_page inode.pgid w ≡ some p
    → read p (new_node inode.pgid (some this)) ≡ some m
    → i < length w.nodes
    → (w' : World D) × (r : ℕ) × (child_at this index w ≡ some (child (length w.nodes), w'))
      × Rising w'.nodes
      × (parent_at w.nodes r ≡ some none)
      × (root (suc this) w.nodes this ≡ some r)
      × (root (suc (length w.nodes)) w'.nodes (length w.nodes) ≡ some r)
      × (root (suc i) w'.nodes i ≡ root (suc i) w.nodes i)
root-child_at this index i w parent inode p m here branch e rising absent s read_it older =
    let c = length w.nodes in
    let inside = get-inside w.nodes this parent here in
    let parent' = record parent { children = parent.children ++ (c ∷ []) } in
    let (childless, up) = read-kept p (new_node inode.pgid (some this)) m read_it in
    let w' = with_child this index w parent inode here branch e m in
    let (r, run, top) = root_lem (suc this) this w.nodes rising inside (omega arith) in
    let old = grown-old w.nodes m this parent parent' here refl in
    let new = grown-new w.nodes m this parent parent' here refl in
    (
      w',
      r,
      child_created this index w parent inode here branch e p m absent s read_it,
      grown-Rising w.nodes m this parent parent' here refl rising up inside,
      top,
      run,
      root_up c w'.nodes c
          ∙ ap (go_up c w'.nodes c) (new ∙ ap some up)
          ∙ root_same c (suc this) this w.nodes w'.nodes rising inside inside (omega arith) old
          ∙ run,
      root_same (suc i) (suc i) i w.nodes w'.nodes rising older (omega arith) (omega arith) old,
    )
