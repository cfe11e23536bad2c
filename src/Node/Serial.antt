-- ===== src/Node/Serial.antt =====
-- `Node::read` and `Node::write` of src/page/node.cpp: the inodes on a page. `none` is an access outside
-- the page's buffer, or the failed assertion of `read`.
pub mod Element
pub mod Branch
pub mod RoundTrip
pub mod Leaf
pub mod Kept
use Prim.Native.Nat.{bit_and}
use boltdb_cpp.Base.{
  ℕ, zero, suc, ◌+◌, ◌-◌, ◌*◌, Bool, true, false, not, List, [], ◌∷◌, ◌++◌, Option, none, some,
  ◌>>=◌, leb, ◌==◌, if◌then◌else◌, length,
}
use boltdb_cpp.Binary.Bytes.{u32, u64}
use boltdb_cpp.Page.{
  Page, leaf_flag, branch_flag, branch_page_element_size, leaf_page_element_size,
  branch_page_element, branch_key, leaf_page_element, leaf_key, leaf_value,
}
use boltdb_cpp.Page.Memory.{store, store_bytes}
use boltdb_cpp.Node.{Node, Inode, Result, returns, throws, inode_overflow}
use boltdb_cpp.FreeList.{special_count}

-- The loops of `read`, over `n` elements from the index `i` on.
unfoldable pub read_leaf : ℕ → ℕ → List ℕ → Option (List Inode)
read_leaf zero i body = some []
read_leaf (suc n) i body = do
  element ← leaf_page_element body i
  key ← leaf_key body i
  value ← leaf_value body i
  rest ← read_leaf n (i + 1) body
  some (record { flags = element.flags; pgid = 0; key = key; value = value } ∷ rest)

unfoldable pub read_branch : ℕ → ℕ → List ℕ → Option (List Inode)
read_branch zero i body = some []
read_branch (suc n) i body = do
  element ← branch_page_element body i
  key ← branch_key body i
  rest ← read_branch n (i + 1) body
  some (record { flags = 0; pgid = element.pgid; key = key; value = [] } ∷ rest)

-- The last lines of `read`.
abbrev pub save_first_key : List Inode → Node → Option Node
save_first_key [] n = some n
save_first_key (inode ∷ inodes) n =
    if length inode.key == 0 then none else some (record n { first_key = inode.key })

-- The inodes of the page come behind those that the node has.
unfoldable pub read : Page → Node → Option Node
read page n = do
  let is_leaf = not (bit_and page.flag leaf_flag == 0)
  inodes ← if is_leaf then read_leaf page.count 0 page.body else read_branch page.count 0 page.body
  save_first_key (n.inodes ++ inodes)
      (record n { pgid = page.pgid; is_leaf = is_leaf; inodes = n.inodes ++ inodes })

-- The loops of `write`: the element `i` and, from `base` on, the keys. A value is not written.
unfoldable pub write_leaf_element : ℕ → ℕ → ℕ → List ℕ → ℕ → List ℕ → Option (List ℕ)
write_leaf_element at base flags key value_size body = do
  body₁ ← store u32 (at + 4) (base - at) body
  body₂ ← store u32 at flags body₁
  body₃ ← store u32 (at + 8) (length key) body₂
  body₄ ← store u32 (at + 12) value_size body₃
  store_bytes base key body₄

unfoldable pub write_leaf : ℕ → ℕ → List Inode → List ℕ → Option (List ℕ)
write_leaf i base [] body = some body
write_leaf i base (inode ∷ inodes) body = do
  body' ←
      write_leaf_element (leaf_page_element_size * i) base inode.flags inode.key
        (length inode.value) body
  write_leaf (i + 1) (base + length inode.key) inodes body'

unfoldable pub write_branch_element : ℕ → ℕ → Inode → List ℕ → Option (List ℕ)
write_branch_element at base inode body = do
  body₁ ← store u32 at (base - at) body
  body₂ ← store u32 (at + 4) (length inode.key) body₁
  body₃ ← store u64 (at + 8) inode.pgid body₂
  store_bytes base inode.key body₃

unfoldable pub write_branch : ℕ → ℕ → List Inode → List ℕ → Option (List ℕ)
write_branch i base [] body = some body
write_branch i base (inode ∷ inodes) body = do
  body' ← write_branch_element (branch_page_element_size * i) base inode body
  write_branch (i + 1) (base + length inode.key) inodes body'

-- The page is what the caller sees, also where the call throws.
unfoldable pub write : Node → Page → Option (Result (Unit {0}) × Page)
write n page =
    let size = length n.inodes in
    let page₁ = record page { flag = if n.is_leaf then leaf_flag else branch_flag } in
    let page₂ = record page₁ { count = size } in
    let body =
      if n.is_leaf
      then write_leaf 0 (leaf_page_element_size * size) n.inodes page.body
      else write_branch 0 (branch_page_element_size * size) n.inodes page.body in
    if leb special_count size
    then some (throws (inode_overflow size page.pgid), page₁)
    else (if size == 0
        then some (returns tt, page₂)
        else (body >>= λ b. some (returns tt, record page₂ { body = b })))
