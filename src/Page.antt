-- ===== src/Page.antt =====
-- include/boltdb/page/page.hpp and src/page/page.cpp. A page is its header's fields and its body: the
-- bytes of its buffer behind the 16 bytes of the header. `none` is an access outside the buffer.
pub mod Memory
use Prim.Native.Nat.{bit_and}
use Prim.Native.String.{String}
use boltdb_cpp.Base.{
  ℕ, ◌+◌, ◌-◌, ◌*◌, ◌≡◌, Bool, true, false, not, List, [], ◌∷◌, ◌++◌, Option, none, some, ◌>>=◌,
  ◌==◌, if◌then◌else◌,
}
use boltdb_cpp.Binary.Bytes.{Width, u16, u32, u64}
use boltdb_cpp.Binary.LittleEndian
use Memory.{load, load_bytes}

-- `PageFlag`
abbrev pub invalid_flag : ℕ
invalid_flag = 0x00

abbrev pub branch_flag : ℕ
branch_flag = 0x01

abbrev pub leaf_flag : ℕ
leaf_flag = 0x02

abbrev pub meta_flag : ℕ
meta_flag = 0x04

abbrev pub freelist_flag : ℕ
freelist_flag = 0x08

-- `sizeof(PageHeader)`, `sizeof(BranchPageElement)` and `sizeof(LeafPageElement)`
abbrev pub page_header_size : ℕ
page_header_size = 16

abbrev pub branch_page_element_size : ℕ
branch_page_element_size = 16

abbrev pub leaf_page_element_size : ℕ
leaf_page_element_size = 16

abbrev pub min_keys_per_page : ℕ
min_keys_per_page = 2

pub record Page : Type 0 where
  pub page_size : ℕ
  pub pgid : ℕ
  pub flag : ℕ
  pub count : ℕ
  pub overflow : ℕ
  pub body : List ℕ

-- The bytes that the constructor appends to the buffer: a struct `PageHeader`.
abbrev pub header_bytes : ℕ → ℕ → ℕ → ℕ → List ℕ
header_bytes pgid flag count overflow =
    LittleEndian.append_variadic_uint []
      ((u64, pgid) ∷ (u16, flag) ∷ (u16, count) ∷ (u32, overflow) ∷ [])

-- `Page(pgid, flag, page_size)`; what the allocator left in the buffer is the body.
unfoldable pub new_page : ℕ → ℕ → ℕ → List ℕ → Page
new_page pgid flag page_size body = record {
  page_size = page_size;
  pgid = pgid;
  flag = flag;
  count = 0;
  overflow = 0;
  body = body;
}

-- `data()`, as far as the buffer goes.
unfoldable pub page_data : Page → List ℕ
page_data p = header_bytes p.pgid p.flag p.count p.overflow ++ p.body

-- What `type()` says, but for the text of an unknown flag, which shows the flag.
pub data PageType : Type 0 where
  branch leaf meta freelist : PageType
  unknown : ℕ → PageType

unfoldable pub page_type : ℕ → PageType
page_type flag =
    if not (bit_and flag branch_flag == 0)
    then branch
    else if not (bit_and flag leaf_flag == 0)
    then leaf
    else if not (bit_and flag meta_flag == 0)
    then meta
    else if not (bit_and flag freelist_flag == 0)
    then freelist
    else unknown flag

pub record BranchPageElement : Type 0 where
  pub pos : ℕ
  pub key_size : ℕ
  pub pgid : ℕ

pub record LeafPageElement : Type 0 where
  pub flags : ℕ
  pub pos : ℕ
  pub key_size : ℕ
  pub value_size : ℕ

-- `*branch_page_element(index)`
unfoldable pub branch_page_element : List ℕ → ℕ → Option BranchPageElement
branch_page_element body index = do
  let at = branch_page_element_size * index
  pos ← load u32 body at
  key_size ← load u32 body (at + 4)
  pgid ← load u64 body (at + 8)
  some (record { pos = pos; key_size = key_size; pgid = pgid })

-- `branch_page_element(index)->key()`
unfoldable pub branch_key : List ℕ → ℕ → Option (List ℕ)
branch_key body index = do
  e ← branch_page_element body index
  load_bytes (branch_page_element_size * index + e.pos) e.key_size body

-- `*leaf_page_element(index)`
unfoldable pub leaf_page_element : List ℕ → ℕ → Option LeafPageElement
leaf_page_element body index = do
  let at = leaf_page_element_size * index
  flags ← load u32 body at
  pos ← load u32 body (at + 4)
  key_size ← load u32 body (at + 8)
  value_size ← load u32 body (at + 12)
  some (record { flags = flags; pos = pos; key_size = key_size; value_size = value_size })

unfoldable pub leaf_key : List ℕ → ℕ → Option (List ℕ)
leaf_key body index = do
  e ← leaf_page_element body index
  load_bytes (leaf_page_element_size * index + e.pos) e.key_size body

unfoldable pub leaf_value : List ℕ → ℕ → Option (List ℕ)
leaf_value body index = do
  e ← leaf_page_element body index
  load_bytes (leaf_page_element_size * index + e.pos + e.key_size) e.value_size body
