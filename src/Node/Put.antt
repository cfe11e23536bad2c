-- ===== src/Node/Put.antt =====
-- `Node::put` and `Node::remove` (src/page/node.cpp). The keys of a node are ordered by `operator<` of
-- `ByteSlice`, that is by their lengths.
pub mod Undo
pub mod Hidden
use boltdb_cpp.Base.{
  ℕ, zero, suc, ◌≤◌, ◌<◌, ◌≡◌, ◌≢◌, ◌↔◌, ◌⊎◌, refl, sym, ap, ◌∙◌, true, false, not, List, [], ◌∷◌,
  ◌++◌, some, arith, ltb, if◌then◌else◌, length, get_elem?, Bool-cases, inl, inr, All, lt→ltb,
  le→ltb,
}
use boltdb_cpp.Util.Slice.{slice_eq, slice_eq_iff, slice_lt_lem}
use boltdb_cpp.Node.{
  Node, Inode, blank_inode, lower_bound, index_of, NodeException, above_high_mark,
  zero_length_old_key, zero_length_new_key, returns, throws, insert_at, erase_at, assign_at, key_at,
  put, remove,
}

-- The inodes after `put` with the index that `old_key` has.
abbrev put_inodes : List ℕ → Inode → List Inode → List Inode
put_inodes key v inodes = assign_at (lower_bound key inodes) v (
    if not (key_at (lower_bound key inodes) key inodes)
    then insert_at (lower_bound key inodes) blank_inode inodes
    else inodes)

abbrev remove_inodes : List ℕ → List Inode → List Inode
remove_inodes key inodes =
    if not (key_at (lower_bound key inodes) key inodes)
    then inodes
    else erase_at (lower_bound key inodes) inodes

module _ (key : List ℕ) (x : Inode) (xs : List Inode) where
  bound_less : length x.key < length key → lower_bound key (x ∷ xs) ≡ suc (lower_bound key xs)
  unfolding lower_bound
  bound_less h = rw (slice_lt_lem x.key key, lt→ltb _ _ h)

  bound_here : length key ≤ length x.key → lower_bound key (x ∷ xs) ≡ 0
  unfolding lower_bound
  bound_here h = rw (slice_lt_lem x.key key, le→ltb _ _ h)

  put_less :
      (v : Inode) → length x.key < length key → put_inodes key v (x ∷ xs) ≡ x ∷ put_inodes key v xs
  put_less v h =
      rw (bound_less h)
        (elim (Bool-cases (key_at (lower_bound key xs) key xs)) [ inl e ↦ rw e | inr e ↦ rw e ])

  put_here :
      (v : Inode)
      → length key ≤ length x.key
      → put_inodes key v (x ∷ xs) ≡ (if slice_eq x.key key then v ∷ xs else v ∷ x ∷ xs)
  put_here v h =
      rw (bound_here h) (elim (Bool-cases (slice_eq x.key key)) [ inl e ↦ rw e | inr e ↦ rw e ])

  remove_less : length x.key < length key → remove_inodes key (x ∷ xs) ≡ x ∷ remove_inodes key xs
  remove_less h =
      rw (bound_less h)
        (elim (Bool-cases (key_at (lower_bound key xs) key xs)) [ inl e ↦ rw e | inr e ↦ rw e ])

  remove_here :
      length key ≤ length x.key
      → remove_inodes key (x ∷ xs) ≡ (if slice_eq x.key key then xs else x ∷ xs)
  remove_here h =
      rw (bound_here h) (elim (Bool-cases (slice_eq x.key key)) [ inl e ↦ rw e | inr e ↦ rw e ])

put_nil : (key : List ℕ) (v : Inode) → put_inodes key v [] ≡ v ∷ []
unfolding lower_bound
put_nil key v = refl

-- The inodes from `lo` on, the lengths of their keys ascending.
abbrev pub OrderedFrom : ℕ → List Inode → Type 0
OrderedFrom lo [] = Unit {0}
OrderedFrom lo (x ∷ xs) = (lo ≤ length x.key) × OrderedFrom (length x.key) xs

OrderedFrom-mono :
    (lo lo' : ℕ) (xs : List Inode) → lo' ≤ lo → OrderedFrom lo xs → OrderedFrom lo' xs
OrderedFrom-mono lo lo' [] h o = tt
OrderedFrom-mono lo lo' (x ∷ xs) h o = (omega arith, o.1)

put_inodes-Ordered :
    (key : List ℕ) (v : Inode) (lo : ℕ) (xs : List Inode)
    → length v.key ≡ length key
    → lo ≤ length key
    → OrderedFrom lo xs
    → OrderedFrom lo (put_inodes key v xs)
put_inodes-Ordered key v lo [] e h o = rw (put_nil key v) (omega arith, tt)
put_inodes-Ordered key v lo (x ∷ xs) e h o = elim (Bool-cases (ltb (length x.key) (length key))) [
  | inl less ↦
      rw (put_less key x xs v (ground (arith, less)))
        (o.0, put_inodes-Ordered key v (length x.key) xs e (ground (arith, less)) o.1)
  | inr here ↦
      rw (put_here key x xs v (ground (arith, here))) (elim (Bool-cases (slice_eq x.key key)) [
        | inl q ↦ rw q (
          omega arith,
          OrderedFrom-mono (length x.key) (length v.key) xs
              (ground (arith, ap length ((slice_eq_iff x.key key).0 q))) o.1,
        )
        | inr q ↦ rw q (omega arith, (ground (arith, here), o.1))
      ])
]

find_put :
    (key : List ℕ) (v : Inode) (xs : List Inode)
    → length v.key ≡ length key
    → (lower_bound key (put_inodes key v xs) ≡ lower_bound key xs)
      × (get_elem? (put_inodes key v xs) (lower_bound key xs) ≡ some v)
find_put key v [] e =
    rw (put_nil key v) (rw (bound_here key v [] (omega arith)) (unfold lower_bound in (refl, refl)))
find_put key v (x ∷ xs) e = elim (Bool-cases (ltb (length x.key) (length key))) [
  | inl less ↦
      let h : length x.key < length key = ground (arith, less) in
      rw (put_less key x xs v h) (
        rw (bound_less key x (put_inodes key v xs) h, bound_less key x xs h)
          (let (b, g) = find_put key v xs e in (ap suc b, g)))
  | inr here ↦
      let h : length key ≤ length x.key = ground (arith, here) in
      rw (put_here key x xs v h) (
        rw (bound_here key x xs h) (elim (Bool-cases (slice_eq x.key key)) [
          | inl q ↦ rw q (bound_here key v xs (omega arith), refl)
          | inr q ↦ rw q (bound_here key v (x ∷ xs) (omega arith), refl)
        ]))
]

-- The inode that `put` writes.
abbrev pub written : List ℕ → List ℕ → ℕ → ℕ → Inode
written key value pgid flags = record { flags = flags; pgid = pgid; key = key; value = value }

-- The arguments that `put` accepts: a page id below the mark and keys that are not empty.
abbrev pub Accepted : ℕ → ℕ → List ℕ → List ℕ → Type 0
Accepted high_mark pgid old_key new_key =
    (pgid < high_mark) × (0 < length old_key) × (0 < length new_key)

put_returns :
    (high_mark pgid flags : ℕ) (old_key new_key value : List ℕ) (n : Node)
    → Accepted high_mark pgid old_key new_key
    → put high_mark old_key new_key value pgid flags n
      ≡ returns
          (record n { inodes = put_inodes old_key (written new_key value pgid flags) n.inodes })
unfolding put index_of
put_returns high_mark pgid flags old_key new_key value n ok = ground arith

-- What stays behind a place: `xs` without its first inode where that has the key, and else all of `xs`.
abbrev pub Placed : List ℕ → List Inode → List Inode → Type 0
Placed key xs b =
    ((x : Inode) × (xs ≡ x ∷ b) × (x.key ≡ key))
    ⊎ ((xs ≡ b) × ((x : Inode) → get_elem? b 0 ≡ some x → x.key ≢ key))

abbrev Parts : List ℕ → Inode → List Inode → Type 0
Parts key v xs =
    (a old b : List Inode) × (xs ≡ a ++ old)
    × (length a ≡ lower_bound key xs)
    × Placed key old b
    × (put_inodes key v xs ≡ a ++ (v ∷ b))

put-Parts : (key : List ℕ) (v : Inode) (xs : List Inode) → Parts key v xs
put-Parts key v [] = (
  [],
  [],
  [],
  refl,
  unfold lower_bound in refl,
  inr (refl, λ x e. absurd (cc (e))),
  put_nil key v,
)
put-Parts key v (x ∷ xs) = elim (Bool-cases (ltb (length x.key) (length key))) [
  | inl less ↦
      let h : length x.key < length key = ground (arith, less) in
      let (a, old, b, e, len, placed, q) = put-Parts key v xs in
      (
        x ∷ a,
        old,
        b,
        ap (λ ys. x ∷ ys) e,
        ap suc len ∙ sym (bound_less key x xs h),
        placed,
        put_less key x xs v h ∙ ap (λ ys. x ∷ ys) q,
      )
  | inr here ↦
      let h : length key ≤ length x.key = ground (arith, here) in
      let start : 0 ≡ lower_bound key (x ∷ xs) = sym (bound_here key x xs h) in
      elim (Bool-cases (slice_eq x.key key)) [
        | inl q ↦ (
          [],
          x ∷ xs,
          xs,
          refl,
          start,
          inl (x, refl, (slice_eq_iff x.key key).0 q),
          put_here key x xs v h ∙ rw q refl,
        )
        | inr q ↦ (
          [],
          x ∷ xs,
          x ∷ xs,
          refl,
          start,
          inr (
            refl,
            λ y e same.
                let first : x ≡ y = cc (e) in
                let equal : slice_eq x.key key ≡ true =
                  (slice_eq_iff x.key key).1 (ap (λ (z : Inode). z.key) first ∙ same) in
                cc (equal, q),
          ),
          put_here key x xs v h ∙ rw q refl,
        )
      ]
]

-- `put` with the same key as the old and the new one, for arguments that it accepts, on a node in
-- which the lengths of the keys ascend, returns the node with one inode written, at the index that the
-- search gave for the key: in place of the inode there if that has the key, and otherwise ahead of it.
-- All other inodes stay as they are and in order. The key is found at that index again, with the new
-- contents, and the lengths of the keys still ascend.
pub put_lem :
    (high_mark pgid flags : ℕ) (key value : List ℕ) (n : Node)
    → Accepted high_mark pgid key key
    → OrderedFrom 0 n.inodes
    → (n' : Node) × (a old b : List Inode) × (put high_mark key key value pgid flags n ≡ returns n')
      × (n.inodes ≡ a ++ old)
      × (length a ≡ index_of key n)
      × Placed key old b
      × (n' ≡ record n { inodes = a ++ (written key value pgid flags ∷ b) })
      × (index_of key n' ≡ index_of key n)
      × (get_elem? n'.inodes (index_of key n) ≡ some (written key value pgid flags))
      × OrderedFrom 0 n'.inodes
unfolding index_of
put_lem high_mark pgid flags key value n ok o =
    let v = written key value pgid flags in
    let (before, g) = find_put key v n.inodes refl in
    let (a, old, b, e, len, placed, q) = put-Parts key v n.inodes in
    (
      record n { inodes = put_inodes key v n.inodes },
      a,
      old,
      b,
      put_returns high_mark pgid flags key key value n ok,
      e,
      len,
      placed,
      ap (λ xs. record n { inodes = xs }) q,
      before,
      g,
      put_inodes-Ordered key v 0 n.inodes refl (omega arith) o,
    )
