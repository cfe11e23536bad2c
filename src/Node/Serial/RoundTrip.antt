-- ===== src/Node/Serial/RoundTrip.antt =====
-- `Node::write` of a branch node and `Node::read` of the page (src/page/node.cpp).
use boltdb_cpp.Base.{
  ℕ, ◌+◌, ◌*◌, ◌^◌, ◌≤◌, ◌<◌, ◌≡◌, refl, ap, inl, inr, false, List, [], ◌∷◌, none, some, lt→leb,
  ◌==◌, length, arith, All, Bool-cases,
}
use boltdb_cpp.Page.{Page, branch_flag}
use boltdb_cpp.Node.{Node, Inode, new_node, returns}
use boltdb_cpp.FreeList.{special_count}
use boltdb_cpp.Node.Serial.{read, write_branch, write, save_first_key}
use boltdb_cpp.Node.Serial.Branch.{IsBranch, keys_size, write_branch_lem}

abbrev pub HasFirstKey : List Inode → Type 0
HasFirstKey [] = Unit {0}
HasFirstKey (x ∷ xs) = 0 < length x.key

first_key_saved :
    (xs : List Inode) (n : Node)
    → HasFirstKey xs
    → (n' : Node) × (save_first_key xs n ≡ some n')
      × (n'.inodes ≡ n.inodes)
      × (n'.is_leaf ≡ n.is_leaf)
first_key_saved [] n h = (n, refl, refl, refl)
first_key_saved (x ∷ xs) n h =
    let filled : (length x.key == 0) ≡ false = ground (arith, h) in
    (record n { first_key = x.key }, rw filled refl, refl, refl)

abbrev branch_page : Node → Page → List ℕ → Page
branch_page n page body = record page { flag = branch_flag; count = length n.inodes; body = body }

-- `write`, with the body that the loop leaves; without inodes it leaves the body as it is.
write_page :
    (n : Node) (page : Page) (body : List ℕ)
    → n.is_leaf ≡ false
    → length n.inodes < special_count
    → write_branch 0 (16 * length n.inodes) n.inodes page.body ≡ some body
    → (length n.inodes ≡ 0 → page.body ≡ body)
    → write n page ≡ some (returns tt, branch_page n page body)
unfolding write
write_page n page body branch few w same = elim (Bool-cases (length n.inodes == 0)) [
  | inl e ↦ rw branch (
      rw (lt→leb _ _ few)
        (rw e (ap (λ b. some (returns tt, branch_page n page b)) (same (ground (arith, e))))))
  | inr e ↦ rw branch (rw (lt→leb _ _ few) (rw e (rw w refl)))
]

nothing_written :
    (xs : List Inode) (base : ℕ) (mem mem' : List ℕ)
    → write_branch 0 base xs mem ≡ some mem'
    → length xs ≡ 0
    → mem ≡ mem'
unfolding write_branch
nothing_written [] base mem mem' w e = ground (arith, w)
nothing_written (x ∷ xs) base mem mem' w e = absurd (omega arith)

-- A branch node with fewer than 0xFFFF inodes, which have page ids and keys only and of which the first
-- has a key that is not empty, written to a page whose body has room for it and is below 2 ^ 32 bytes, and
-- read into a fresh node, gives a branch node with the same inodes.
pub read-write :
    (n : Node) (page : Page)
    → n.is_leaf ≡ false
    → All IsBranch n.inodes
    → HasFirstKey n.inodes
    → length n.inodes < special_count
    → 16 * length n.inodes + keys_size n.inodes ≤ length page.body
    → length page.body < 2 ^ 32
    → (out : Page) × (n' : Node) × (write n page ≡ some (returns tt, out))
      × (read out (new_node 0 none) ≡ some n')
      × (n'.inodes ≡ n.inodes)
      × (n'.is_leaf ≡ false)
unfolding read
read-write n page branch ok first few room small =
    let (body, w, l, kept, r) =
      write_branch_lem n.inodes 0 (16 * length n.inodes) page.body ok (omega arith) room small in
    let read_node : Node = record (new_node 0 none) {
      pgid = page.pgid;
      is_leaf = false;
      inodes = n.inodes;
    } in
    let (n', s, same, leaf) = first_key_saved n.inodes read_node first in
    (
      branch_page n page body,
      n',
      write_page n page body branch few w
          (nothing_written n.inodes (16 * length n.inodes) page.body body w),
      rw (read, r) s,
      same,
      leaf,
    )
