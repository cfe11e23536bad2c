-- ===== src/Util/Slice/Growth.antt =====
-- `grow` of src/util/slice.cpp moves a slice's bytes to a new buffer of its own.
use boltdb_cpp.Base.{
  ℕ, zero, suc, ◌≤◌, ◌<◌, ◌≡◌, ◌≢◌, refl, sym, ap, subst, ◌∙◌, inl, inr, true, List, [], ◌∷◌, ◌++◌,
  Option, none, some, ◌==◌, leb, length, set, take, drop, length-append, length-take, length-drop,
  length-set, set-set, entry-set_self, entry-append, entry-snoc, arith, Bool-cases, Option-cases,
}
use boltdb_cpp.Util.RefCount.{RefCounts, pointer, unique}
use boltdb_cpp.Util.RefCount.Results.{renew_ends}
use boltdb_cpp.Util.Slice.Buffers.{
  Cells, View, Slices, null, view, buffer, size, blank, allocate, overwrite, write, content, whole,
  deallocate, try_free, try_deallocate, grow,
}
use boltdb_cpp.Util.Slice.Shape.{Null⊎Fits, IsShape}
use boltdb_cpp.Util.Slice.Moves.{new_buffer}
use boltdb_cpp.Util.Slice.Release.{IsValid, Shrinks, buffer_bound, try_free_lem, try_free_based}

-- A slice that fits its buffer can be read.
pub content_lem :
    (ms : List (Option Cells)) (v : View)
    → Null⊎Fits ms v
    → (bytes : Cells) × (content v ms ≡ some bytes) × (length bytes ≡ size v)
unfolding content
content_lem ms v (inl e) = ([], subst (λ w. content w ms ≡ some []) (sym e) refl, ap size (sym e))
content_lem ms v (inr (b, cells, p, q, long, low, high)) =
    let inside : leb v.tail (length cells) ≡ true = ground (arith, long, high) in
    (
      take (size v) (drop v.head cells),
      rw (content, p) (rw (q, inside) refl),
      omega (
        arith,
        length-take (size v) (drop v.head cells),
        length-drop v.head cells,
        long,
        low,
        high,
      ),
    )

length-blank : (n : ℕ) → length (blank n) ≡ n
length-blank zero = refl
length-blank (suc n) = ap suc (length-blank n)

overwrite-zero :
    (xs cells : Cells)
    → length xs ≤ length cells
    → overwrite 0 xs cells ≡ some (xs ++ drop (length xs) cells)
unfolding overwrite
overwrite-zero [] cells h = refl
overwrite-zero (x ∷ xs) [] h = absurd (omega arith)
overwrite-zero (x ∷ xs) (c ∷ cells) h = rw (overwrite-zero xs cells (omega arith)) refl

set-snoc :
    (ms : List (Option Cells)) (m m' : Option Cells)
    → set (ms ++ (m ∷ [])) (length ms) m' ≡ ms ++ (m' ∷ [])
set-snoc [] m m' = refl
set-snoc (x ∷ ms) m m' = ap (◌∷◌ x) (set-snoc ms m m')

-- A new buffer with bytes at its start.
pub filled : Cells → ℕ → Cells
filled bytes n = bytes ++ drop (length bytes) (blank n)

pub length-filled : (bytes : Cells) (n : ℕ) → length bytes ≤ n → length (filled bytes n) ≡ n
unfolding filled
length-filled bytes n h = omega (
  arith,
  length-append bytes (drop (length bytes) (blank n)),
  length-drop (length bytes) (blank n),
  length-blank n,
)

pub take-filled : (bytes : Cells) (n : ℕ) → take (length bytes) (filled bytes n) ≡ bytes
unfolding filled
take-filled bytes n = go bytes
  where
    go : (xs : Cells) → take (length xs) (xs ++ drop (length bytes) (blank n)) ≡ xs
    go [] = refl
    go (x ∷ xs) = ap (◌∷◌ x) (go xs)

pub write_new :
    (bytes : Cells) (n : ℕ) (ms : List (Option Cells))
    → length bytes ≤ n
    → write (length ms) 0 bytes (allocate n ms) ≡ some (ms ++ (some (filled bytes n) ∷ []))
unfolding write filled
write_new bytes n ms h =
    let there = entry-snoc none ms (some (blank n)) in
    let over = overwrite-zero bytes (blank n) (omega (arith, length-blank n, h)) in
    rw (there, over, set-snoc ms (some (blank n)) (some (filled bytes n))) refl

deallocate-snoc :
    (b n : ℕ) (ms ms' : List (Option Cells)) (m : Cells)
    → b < length ms
    → deallocate b n ms ≡ some ms'
    → deallocate b n (ms ++ (some m ∷ [])) ≡ some (ms' ++ (some m ∷ []))
unfolding deallocate
deallocate-snoc b n ms ms' m lt e = elim (Option-cases (buffer ms b)) [
  | inl gone ↦ let no : deallocate b n ms ≡ none = rw (deallocate, gone) refl in absurd (cc (no, e))
  | inr (cells, p) ↦
      let p' = entry-append none ms (some m ∷ []) b lt ∙ p in
      elim (Bool-cases (length cells == n)) [
        | inl q ↦
            let e' : deallocate b n ms ≡ some (set ms b none) = rw (deallocate, p, q) refl in
            let same : set ms b none ≡ ms' = cc (e', e) in
            rw (deallocate, p', q, set-front ms b none (some m) lt, same) refl
        | inr q ↦
            let no : deallocate b n ms ≡ none = rw (deallocate, p, q) refl in absurd (cc (no, e))
      ]
]
  where
    set-front :
        (xs : List (Option Cells)) (k : ℕ) (x y : Option Cells)
        → k < length xs
        → set (xs ++ (y ∷ [])) k x ≡ set xs k x ++ (y ∷ [])
    set-front [] k x y h = absurd (omega arith)
    set-front (z ∷ xs) zero x y h = refl
    set-front (z ∷ xs) (suc k) x y h = ap (◌∷◌ z) (set-front xs k x y (omega arith))

try_free-snoc :
    (i : ℕ) (s : Slices) (ms : List (Option Cells)) (m : Cells)
    → Null⊎Fits s.buffers (view s.views i)
    → try_free i s ≡ some ms
    → try_free i (record s { buffers = s.buffers ++ (some m ∷ []) }) ≡ some (ms ++ (some m ∷ []))
try_free-snoc i s ms m f e = elim (Option-cases (view s.views i).base) [
  | inl bare ↦
      let free' : try_free i s ≡ some s.buffers = rw (try_free, bare) refl in
      let same : s.buffers ≡ ms = cc (free', e) in rw (try_free, bare, same) refl
  | inr (b, p) ↦ elim (Bool-cases (unique i s.refs)) [
    | inl u ↦
        let e' : deallocate b (view s.views i).cap s.buffers ≡ some ms =
          sym (try_free_based i b s p ∙ rw u refl) ∙ e in
        try_free_based i b longer p
        ∙ rw u (deallocate-snoc b (view s.views i).cap s.buffers ms m (bound b p f) e')
    | inr u ↦
        let free' : try_free i s ≡ some s.buffers = try_free_based i b s p ∙ rw u refl in
        let same : s.buffers ≡ ms = cc (free', e) in try_free_based i b longer p ∙ rw (u, same) refl
  ]
]
  where
    longer : Slices
    longer = record s { buffers = s.buffers ++ (some m ∷ []) }

    bound :
        (b : ℕ)
        → (view s.views i).base ≡ some b
        → Null⊎Fits s.buffers (view s.views i)
        → b < length s.buffers
    bound b p (inl gone) = absurd (cc (ap (λ (x : View). x.base) gone, p))
    bound b p (inr (d, cells, q, alive, _, _, _)) =
        let same : d ≡ b = cc (q, p) in
        buffer_bound s.buffers b cells (subst (λ k. buffer s.buffers k ≡ some cells) same alive)

-- The slice's buffer after `grow`; `ms` are the buffers that are left of those before.
pub grow_lem :
    (i n : ℕ) (s : Slices) (bytes : Cells)
    → i < length s.views
    → IsValid s
    → content (view s.views i) s.buffers ≡ some bytes
    → size (view s.views i) ≤ n
    → (s' : Slices) × (grow i n s ≡ some s')
      × IsValid s'
      × (s'.views ≡ set s.views i (whole (length s.buffers) (size (view s.views i)) n))
      × ((ms : List (Option Cells)) × (s'.buffers ≡ ms ++ (some (filled bytes n) ∷ []))
          × (length ms ≡ length s.buffers)
          × Shrinks s.buffers ms)
unfolding grow try_deallocate
grow_lem i n s bytes lt v e fit =
    let (xs, e₁, len) = content_lem s.buffers (view s.views i) (v.shape.fits i) in
    let same : xs ≡ bytes = cc (e₁, e) in
    let small : length bytes ≤ n = omega (arith, len, ap length same, fit) in
    let (ms, e₂, shape, shrinks, long) = try_free_lem i s lt v in
    let e₃ = try_free-snoc i s ms (filled bytes n) (v.shape.fits i) e₂ in
    let (c, (t, e₄, counts, owners), unused) =
      renew_ends s.refs v.counts i (omega (arith, lt, v.shape.same_length)) in
    (
      record {
        buffers = ms ++ (some (filled bytes n) ∷ []);
        views = set (set s.views i null) i (whole (length s.buffers) (size (view s.views i)) n);
        refs = t;
      },
      rw (e, write_new bytes n s.buffers small, e₃, e₄) refl,
      record { counts = counts; shape = owned ms t c bytes small shape long owners unused },
      set-set s.views i null (whole (length s.buffers) (size (view s.views i)) n),
      (ms, refl, long, shrinks),
    )
  where
    owned :
        (ms : List (Option Cells)) (t : RefCounts) (c : ℕ) (bytes : Cells)
        → length bytes ≤ n
        → IsShape ms (set s.views i null) (set s.refs.owners i none)
        → length ms ≡ length s.buffers
        → t.owners ≡ set (set s.refs.owners i none) i (some c)
        → ((k : ℕ) → pointer (set s.refs.owners i none) k ≢ some c)
        → IsShape
            (ms ++ (some (filled bytes n) ∷ []))
            (set (set s.views i null) i (whole (length s.buffers) (size (view s.views i)) n))
            t.owners
    owned ms t c bytes small shape long owners unused =
        subst (IsShape ms' (views (length s.buffers) n)) (sym owners) (
          subst (λ b. IsShape ms' (views b n) owners') long
            (subst (λ m. IsShape ms' (views (length ms) m) owners') (length-filled bytes n small)
              (new_buffer ms (set s.views i null) (set s.refs.owners i none) i
                (omega (arith, lt, length-set s.views i null)) shape c
                (ap (λ (x : View). x.base) (entry-set_self null s.views i null lt))
                (λ k ne. unused k) (filled bytes n) (size (view s.views i))
                (omega (arith, fit, length-filled bytes n small)))))
      where
        ms' : List (Option Cells)
        ms' = ms ++ (some (filled bytes n) ∷ [])

        owners' : List (Option ℕ)
        owners' = set (set s.refs.owners i none) i (some c)

        views : ℕ → ℕ → List View
        views b m = set (set s.views i null) i (whole b (size (view s.views i)) m)
