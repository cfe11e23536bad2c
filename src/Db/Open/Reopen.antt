-- ===== src/Db/Open/Reopen.antt =====
-- `open_db` of src/db/db.cpp on a file that `DB::init` wrote.
use boltdb_cpp.Base.{
  ℕ, zero, suc, ◌+◌, ◌≡◌, ◌≢◌, ◌≤◌, ◌<◌, refl, sym, ap, subst, false, inr, List, [], ◌∷◌, ◌++◌,
  Option, none, some, ◌>>=◌, ◌==◌, get_elem?, drop, length, length-drop, append-nil, arith,
}
use boltdb_cpp.Binary.Bytes.{Width, u8, u16, u32, u64, bytes}
use boltdb_cpp.Binary.BigEndian
use boltdb_cpp.Binary.LittleEndian
use boltdb_cpp.Db.Meta.{Meta, deserialize_aux, deserialize, validate}
use boltdb_cpp.Page.Memory.{store_bytes}
use boltdb_cpp.Fs.FileSystem.{Posix, FileHandle, read, file_size}
use boltdb_cpp.Db.Options.{Options}
use boltdb_cpp.Db.Open.{
  Buffers, meta_page, stored_page_size, object_bytes, initial_meta, open_file_db, read_page_size,
}
use boltdb_cpp.Page.{Page, new_page, page_data, meta_flag}
use boltdb_cpp.Util.Status.{is_ok, ok_status}

get_total : (i : ℕ) (xs : List ℕ) → i < length xs → (b : ℕ) × (get_elem? xs i ≡ some b)
get_total i [] h = absurd (omega arith)
get_total zero (x ∷ xs) h = (x, refl)
get_total (suc i) (x ∷ xs) h = get_total i xs (omega arith)

abbrev Returns : {A : Type 0} → Option A → Type 0
Returns {A} o = (a : A) × (o ≡ some a)

and_then :
    {A B : Type 0}
    → (o : Option A) (f : A → Option B) → Returns o
    → ((a : A) → Returns (f a))
    → Returns (o >>= f)
and_then o f (a, e) g = subst (λ o. Returns (o >>= f)) (sym e) (g a)

uint_total : (w : Width) (s : List ℕ) → bytes w ≤ length s → Returns (BigEndian.uint w s)
unfolding BigEndian.uint
uint_total u8 s h = get_total 0 s (omega arith)
uint_total u16 s h =
    and_then _ _ (get_total 1 s (omega arith))
      (λ a. and_then _ _ (get_total 0 s (omega arith)) (λ b. (_, refl)))
uint_total u32 s h = and_then _ _ (get_total 3 s (omega arith)) (λ a.
    and_then _ _ (get_total 2 s (omega arith)) (λ b.
      and_then _ _ (get_total 1 s (omega arith))
        (λ c. and_then _ _ (get_total 0 s (omega arith)) (λ d. (_, refl)))))
uint_total u64 s h = and_then _ _ (get_total 7 s (omega arith)) (λ a.
    and_then _ _ (get_total 6 s (omega arith)) (λ b.
      and_then _ _ (get_total 5 s (omega arith)) (λ c.
        and_then _ _ (get_total 4 s (omega arith)) (λ d.
          and_then _ _ (get_total 3 s (omega arith)) (λ e.
            and_then _ _ (get_total 2 s (omega arith)) (λ k.
              and_then _ _ (get_total 1 s (omega arith))
                (λ l. and_then _ _ (get_total 0 s (omega arith)) (λ m. (_, refl)))))))))

abbrev pub ReturnsOne : {A : Type 0} → (A → Type 0) → Option A → Type 0
ReturnsOne {A} P o = (a : A) × (o ≡ some a) × P a

-- The number may be any; the slice behind it is shorter by the number's bytes.
deserialize_aux_total :
    {B : Type 0}
    → (P : B → Type 0) (w : Width) (s : List ℕ) (f : ℕ × List ℕ → Option B) → bytes w ≤ length s
    → ((v : ℕ) (s' : List ℕ)
        → BigEndian.uint w s ≡ some v
        → length s' + bytes w ≡ length s
        → ReturnsOne P (f (v, s')))
    → ReturnsOne P (deserialize_aux w s >>= f)
unfolding deserialize_aux
deserialize_aux_total P w s f h g =
    let (v, e) = uint_total w s h in
    subst (λ o. ReturnsOne P ((o >>= λ v. some (v, drop (bytes w) s)) >>= f)) (sym e)
      (g v (drop (bytes w) s) e (omega (arith, length-drop (bytes w) s)))

-- A slice of 64 bytes is an object, whose marker stands first.
pub deserialize_total :
    (s : List ℕ)
    → 64 ≤ length s
    → ReturnsOne (λ (m : Meta). BigEndian.uint u32 s ≡ some m.magic) (deserialize s)
unfolding deserialize
deserialize_total s h =
    let P : Meta → Type 0 = λ m. BigEndian.uint u32 s ≡ some m.magic in
    deserialize_aux_total P u32 s _ (omega arith) (λ v₁ s₁ e l₁.
      deserialize_aux_total P u32 s₁ _ (omega arith) (λ v₂ s₂ _ l₂.
        deserialize_aux_total P u32 s₂ _ (omega arith) (λ v₃ s₃ _ l₃.
          deserialize_aux_total P u32 s₃ _ (omega arith) (λ v₄ s₄ _ l₄.
            deserialize_aux_total P u64 s₄ _ (omega arith) (λ v₅ s₅ _ l₅.
              deserialize_aux_total P u64 s₅ _ (omega arith) (λ v₆ s₆ _ l₆.
                deserialize_aux_total P u64 s₆ _ (omega arith) (λ v₇ s₇ _ l₇.
                  deserialize_aux_total P u64 s₇ _ (omega arith) (λ v₈ s₈ _ l₈.
                    deserialize_aux_total P u64 s₈ _ (omega arith) (λ v₉ s₉ _ l₉.
                      deserialize_aux_total P u64 s₉ _ (omega arith)
                        (λ v s' _ l. (_, refl, e)))))))))))

wrong_magic : (m : Meta) → m.magic ≡ 0 → is_ok (validate m) ≡ false
unfolding validate
wrong_magic m e = ground (arith, e)

-- A slice that begins with four zeros has no valid object.
zeros_invalid :
    (system : ℕ) (s : List ℕ)
    → 64 ≤ length s
    → BigEndian.uint u32 s ≡ some 0
    → stored_page_size system s ≡ some system
unfolding stored_page_size
zeros_invalid system s h z =
    let (m, e, first) = deserialize_total s h in
    rw e (rw (wrong_magic m (ground (arith, first, z))) refl)

header_zeros :
    (p : Page) (rest : List ℕ) → p.pgid ≡ 0 → BigEndian.uint u32 (page_data p ++ rest) ≡ some 0
unfolding page_data BigEndian.uint LittleEndian.append_variadic_uint LittleEndian.append_uint
header_zeros p rest e = rw e refl

page_size_lost :
    (system page_size : ℕ) (body rest : List ℕ) (p : Page)
    → meta_page page_size 0 body ≡ some p
    → 64 ≤ length (page_data p ++ rest)
    → stored_page_size system (page_data p ++ rest) ≡ some system
unfolding meta_page new_page
page_size_lost system page_size body rest p made h = zeros_invalid system (page_data p ++ rest) h (
    header_zeros p rest
      (pgid_of (store_bytes 0 (object_bytes (initial_meta page_size 0)) body) made))
  where
    pgid_of :
        (o : Option (List ℕ))
        → ◌>>=◌ {B = Page} o (λ body'. some (new_page 0 meta_flag page_size body')) ≡ some p
        → p.pgid ≡ 0
    pgid_of none e = absurd (cc)
    pgid_of (some b) e = ground (arith, e)

ne→== : {m n : ℕ} → m ≢ n → (m == n) ≡ false
ne→== h = ground arith

drop_all : (n : ℕ) (xs : List ℕ) → n ≡ length xs → drop n xs ≡ []
drop_all zero [] e = refl
drop_all zero (x ∷ xs) e = absurd (omega arith)
drop_all (suc n) [] e = refl
drop_all (suc n) (x ∷ xs) e = drop_all n xs (omega arith)

read_page_size_lem :
    {W D : Type 0}
    → (os : Posix W D) (system : ℕ) (buffer page : List ℕ) (f : FileHandle) (w w₂ : W)
    → stored_page_size system page ≡ some system
    → length page ≡ length buffer
    → read os f (length buffer) 0 w ≡ (inr page, w₂)
    → read_page_size os system buffer f w ≡ some (inr system, w₂)
unfolding read_page_size
read_page_size_lem os system buffer page f w w₂ lost whole got =
    rw (read_page_size, got)
      (rw (drop_all (length page) buffer whole)
        (rw (append-nil page) (rw lost (ap (λ q. some (inr system, q.1)) got))))

-- Opening a file that is not empty, when the first read gives as many bytes as the buffer has, at least 64,
-- and they begin with the meta page 0 that `init` made for any page size, succeeds with the page size of
-- the system: the page size in the file is not found.
pub reopen_lem :
    {W D : Type 0}
    → (os : Posix W D) (fuel system page_size : ℕ) (b : Buffers) (body buffer rest : List ℕ)
      (options : Options D) (f : FileHandle) (w w₂ : W) (p : Page)
    → meta_page page_size 0 body ≡ some p
    → (file_size os f w).0 ≢ 0
    → 64 ≤ length buffer
    → length (page_data p ++ rest) ≡ length buffer
    → read os f (length buffer) 0 (file_size os f w).1 ≡ (inr (page_data p ++ rest), w₂)
    → open_file_db os fuel system b buffer options f w
      ≡ some (
        inr (ok_status, some (record { file_handle = f; options = options; page_size = system })),
        w₂,
      )
unfolding open_file_db read_page_size
reopen_lem os fuel system page_size b body buffer rest options f w w₂ p made filled big whole got =
    let lost = page_size_lost system page_size body rest p made (omega (arith, whole)) in
    let again =
      read_page_size_lem os system buffer (page_data p ++ rest) f (file_size os f w).1 w₂ lost whole
        got in
    rw (open_file_db, ne→== filled) (rw again refl)
