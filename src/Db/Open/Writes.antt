-- ===== src/Db/Open/Writes.antt =====
-- The writes of `DB::init` of src/db/db.cpp.
use boltdb_cpp.Base.{
  ℕ, ◌+◌, ◌*◌, ◌≡◌, ◌≢◌, refl, ap, ◌∙◌, subst, ◌⊎◌, inl, inr, List, [], ◌∷◌, ◌++◌, ◌==◌,
  if◌then◌else◌, take, length, arith, Bool-cases,
}
use boltdb_cpp.Util.Status.{Status, ok_status, failed, status_err}
use boltdb_cpp.Page.{Page, page_data}
use boltdb_cpp.Fs.FileSystem.{Posix, IoException, FileHandle, write, fdatasync}
use boltdb_cpp.Db.Open.{write_pages, short_write}

module _ {W D : Type 0} (os : Posix W D) (f : FileHandle) (page_size : ℕ) where
  abbrev pub write_page : Page → ℕ → W → (IoException ⊎ ℕ) × W
  write_page p offset w = write os f (take page_size (page_data p)) offset w

  -- The pages are written whole, one behind the other from the offset on.
  pub data Written : List Page → ℕ → W → W → Type 0 where
    stop : (offset : ℕ) (w : W) → Written [] offset w w
    next :
        (p : Page) (ps : List Page) (offset : ℕ) (w w₁ w₂ : W)
        → write_page p offset w ≡ (inr page_size, w₁)
        → Written ps (offset + page_size) w₁ w₂
        → Written (p ∷ ps) offset w w₂

  -- A write at the offset throws, or writes another number of bytes.
  abbrev pub Fault : Page → ℕ → W → Status × W → Type 0
  Fault p offset w r =
      ((e : IoException) × (write_page p offset w ≡ (inl e, r.1)) × (r.0.status_type ≡ status_err))
      ⊎ ((n : ℕ) × (write_page p offset w ≡ (inr n, r.1)) × (n ≢ page_size) × (r.0 ≡ short_write))

  -- The write of the page behind `done` fails; those of `done` do not, and there are no others.
  pub record StopsAt (pages : List Page) (offset : ℕ) (w : W) (r : Status × W) : Type 0 where
    pub done : List Page
    pub page : Page
    pub rest : List Page
    pub at : W
    pub parts : pages ≡ done ++ (page ∷ rest)
    pub before : Written done offset w at
    pub fault : Fault page (offset + length done * page_size) at r

  abbrev pub WriteOutcome : List Page → ℕ → W → Status × W → Type 0
  WriteOutcome pages offset w r =
      ((w' : W) × Written pages offset w w' × (r ≡ (ok_status, (fdatasync os f w').1)))
      ⊎ StopsAt pages offset w r

  -- The outcome of the rest, seen from one written page before it.
  one_before :
      (p : Page) (ps : List Page) (offset : ℕ) (w w₁ : W) (r : Status × W)
      → write_page p offset w ≡ (inr page_size, w₁)
      → WriteOutcome ps (offset + page_size) w₁ r
      → WriteOutcome (p ∷ ps) offset w r
  one_before p ps offset w w₁ r e (inl (w', done, s)) = inl (w', next p ps offset w w₁ w' e done, s)
  one_before p ps offset w w₁ r e (inr s) =
      let place : offset + page_size + length s.done * page_size
          ≡ offset + length (p ∷ s.done) * page_size =
        omega arith in
      inr (record {
        done = p ∷ s.done;
        page = s.page;
        rest = s.rest;
        at = s.at;
        parts = ap (λ xs. p ∷ xs) s.parts;
        before = next p s.done offset w w₁ s.at e s.before;
        fault = subst (λ o. Fault s.page o s.at r) place s.fault;
      })

  stops_first :
      (p : Page) (ps : List Page) (offset : ℕ) (w : W) (r : Status × W)
      → Fault p offset w r
      → StopsAt (p ∷ ps) offset w r
  stops_first p ps offset w r x =
      let place : offset ≡ offset + 0 * page_size = omega arith in
      record {
        done = [];
        page = p;
        rest = ps;
        at = w;
        parts = refl;
        before = stop offset w;
        fault = subst (λ o. Fault p o w r) place x;
      }

  -- `init` reports OK when all pages are written whole, one behind the other, whatever `fdatasync` says
  -- then. Otherwise there is a first page whose write throws, on which it reports an error, or whose write is
  -- of another length, on which it reports corruption; it stops there.
  pub write_pages_cases :
      (pages : List Page) (offset : ℕ) (w : W)
      → WriteOutcome pages offset w (write_pages os f page_size pages offset w)
  unfolding write_pages
  write_pages_cases [] offset w = inl (w, stop offset w, refl)
  write_pages_cases (p ∷ ps) offset w =
      go (write_page p offset w).0 (write_page p offset w).1 refl
        (write_pages_cases ps (offset + page_size) (write_page p offset w).1)
    where
      go :
          (o : IoException ⊎ ℕ) (w' : W)
          → write_page p offset w ≡ (o, w')
          → WriteOutcome ps
              (offset + page_size)
              w'
              (write_pages os f page_size ps (offset + page_size) w')
          → WriteOutcome (p ∷ ps) offset w (elim o [
            | inl e ↦ (failed status_err "IOException", w')
            | inr n ↦
                if n == page_size
                then write_pages os f page_size ps (offset + page_size) w'
                else (short_write, w')
          ])
      go (inl x) w' e rest = inr (stops_first p ps offset w _ (inl (x, e, refl)))
      go (inr n) w' e rest = elim (Bool-cases (n == page_size)) [
        | inl q ↦
            rw q
              (one_before p ps offset w w' _ (e ∙ ap (λ k. (inr k, w')) (ground (arith, q))) rest)
        | inr q ↦ rw q (
            inr (stops_first p ps offset w (short_write, w') (inr (n, e, ground (arith, q), refl))))
      ]
