-- ===== src/Util/Slice/Moves.antt =====
-- How a slice of src/util/slice.cpp that has no buffer comes by one, and how its view of it changes.
use boltdb_cpp.Base.{
  ℕ, ◌≤◌, ◌<◌, ◌≡◌, ◌≢◌, refl, sym, ap, subst, ◌∙◌, ◌⊎◌, inl, inr, List, [], ◌∷◌, ◌++◌, Option,
  none, some, arith, ◌==◌, Bool-cases, Option-cases, length, set, set_same, entry_append_cases, ltb,
  entry-append, entry-snoc, entry_beyond,
}
use boltdb_cpp.Util.RefCount.{pointer}
use boltdb_cpp.Util.Slice.Shape.{Fits, Null⊎Fits, IsShape, updated}
use boltdb_cpp.Util.Slice.Buffers.{whole, Cells, View, null, view, buffer}

buffer-snoc_old :
    (ms : List (Option Cells)) (m cells : Cells) (b : ℕ)
    → buffer ms b ≡ some cells
    → buffer (ms ++ (some m ∷ [])) b ≡ some cells
buffer-snoc_old ms m cells b e = elim (Bool-cases (ltb b (length ms))) [
  | inl q ↦ entry-append none ms (some m ∷ []) b (ground (arith, q)) ∙ e
  | inr q ↦ absurd (cc (e, entry_beyond none ms b (ground (arith, q))))
]

fits_longer :
    (ms : List (Option Cells)) (m : Cells) (v : View)
    → Null⊎Fits ms v
    → Null⊎Fits (ms ++ (some m ∷ [])) v
fits_longer ms m v (inl e) = inl e
fits_longer ms m v (inr (b, cells, p, q, long, low, high)) =
    inr (b, cells, p, buffer-snoc_old ms m cells b q, long, low, high)

-- Two heaps with the same buffers, as long as before.
abbrev pub SameLengths : List (Option Cells) → List (Option Cells) → Type 0
SameLengths ms ms' =
    (b : ℕ)
    → ((buffer ms b ≡ none) × (buffer ms' b ≡ none))
      ⊎ ((cells : Cells) × (cells' : Cells) × (buffer ms b ≡ some cells)
          × (buffer ms' b ≡ some cells')
          × (length cells' ≡ length cells))

pub SameLengths-refl : (ms : List (Option Cells)) → SameLengths ms ms
SameLengths-refl ms b = elim (Option-cases (buffer ms b)) [
  | inl e ↦ inl (e, e)
  | inr (cells, e) ↦ inr (cells, cells, e, e, refl)
]

fits_same :
    (ms ms' : List (Option Cells)) (v w : View)
    → SameLengths ms ms'
    → Fits ms v
    → w.base ≡ v.base
    → w.cap ≡ v.cap
    → w.head ≤ w.tail
    → w.tail ≤ w.cap
    → Fits ms' w
fits_same ms ms' v w same (b, cells, p, q, long, low, high) eb ec low' high' = elim (same b) [
  | inl (gone, _) ↦ absurd (cc (gone, q))
  | inr (xs, ys, e, e', len) ↦
      let eq : some xs ≡ some cells = sym e ∙ q in
      let eq' : xs ≡ cells = cc (eq) in
      (b, ys, eb ∙ p, e', len ∙ ap length eq' ∙ long ∙ sym ec, low', high')
]

fits_kept :
    (ms ms' : List (Option Cells)) (v : View)
    → SameLengths ms ms'
    → Null⊎Fits ms v
    → Null⊎Fits ms' v
fits_kept ms ms' v same (inl e) = inl e
fits_kept ms ms' v same (inr f) =
    let (_, _, _, _, _, low, high) = f in inr (fits_same ms ms' v v same f refl refl low high)

module _ (ms : List (Option Cells)) (vs : List View) (ps : List (Option ℕ)) (i : ℕ)
    (lt : i < length vs) (s : IsShape ms vs ps) where
  held_by_other :
      (view vs i).base ≡ none
      → (b : ℕ) (cells : Cells) → buffer ms b ≡ some cells
      → (k : ℕ) × (i ≢ k) × ((view vs k).base ≡ some b)
  held_by_other bare b cells h =
      let (k, e) = s.held b cells h in
      (k, (λ same. cc (subst (λ j. (view vs j).base ≡ some b) (sym same) e, bare)), e)

  -- The slice shares the buffer and the counter of `j`.
  pub shared :
      (j : ℕ)
      → (view vs i).base ≡ none
      → IsShape ms (set vs i (view vs j)) (set ps i (pointer ps j))
  shared j bare = updated ms ms vs ps i (view vs j) (pointer ps j) lt s (record {
    new_fits = s.fits j;
    new_counted = s.counted j;
    new_together = λ k c ne. s.together j k c;
    new_apart = λ k b ne. s.apart j k b;
    old_fit = λ k ne. s.fits k;
    all_held = λ b cells h. inr (held_by_other bare b cells h);
  })

  module _ (c : ℕ) (bare : (view vs i).base ≡ none)
      (unused : (k : ℕ) → i ≢ k → pointer ps k ≢ some c) where
    -- A counter of its own, and no buffer.
    pub counter_only : IsShape ms (set vs i null) (set ps i (some c))
    counter_only = updated ms ms vs ps i null (some c) lt s (record {
      new_fits = inl refl;
      new_counted = λ e. refl;
      new_together = λ k d ne e h. absurd (unused k ne (h ∙ sym e));
      new_apart = λ k b ne e. absurd (cc (e));
      old_fit = λ k ne. s.fits k;
      all_held = λ b cells h. inr (held_by_other bare b cells h);
    })

    -- A buffer and a counter of its own.
    pub new_buffer :
        (cells : Cells) (size : ℕ)
        → size ≤ length cells
        → IsShape
            (ms ++ (some cells ∷ []))
            (set vs i (whole (length ms) size (length cells)))
            (set ps i (some c))
    new_buffer cells size small =
        updated ms (ms ++ (some cells ∷ [])) vs ps i (whole (length ms) size (length cells))
          (some c) lt s
          (record {
            new_fits =
                inr (
                  length ms,
                  cells,
                  refl,
                  entry-snoc none ms (some cells),
                  refl,
                  omega arith,
                  small,
                );
            new_counted = λ e. absurd (cc (e));
            new_together = λ k d ne e h. absurd (unused k ne (h ∙ sym e));
            new_apart = λ k b ne e h. elim (s.fits k) [
              | inl q ↦ absurd (cc (q, h))
              | inr (d, xs, p, q, _, _, _) ↦
                  let same : length ms ≡ d = cc (e, h, p) in
                  absurd (cc (entry_beyond none ms (length ms) (omega arith), same, q))
            ];
            old_fit = λ k ne. fits_longer ms cells (view vs k) (s.fits k);
            all_held = λ b xs h. elim (entry_append_cases none ms (some cells) b) [
              | inl (_, e) ↦ inr (held_by_other bare b xs (sym e ∙ h))
              | inr (inl (same, e)) ↦ inl (ap some (sym same))
              | inr (inr e) ↦ absurd (cc (e, h))
            ];
          })

  -- Other bytes in the buffers, and other offsets in the slice's own.
  pub reseen :
      (ms' : List (Option Cells)) (v : View)
      → SameLengths ms ms'
      → Fits ms (view vs i)
      → v.base ≡ (view vs i).base
      → v.cap ≡ (view vs i).cap
      → v.head ≤ v.tail
      → v.tail ≤ v.cap
      → IsShape ms' (set vs i v) ps
  reseen ms' v same f eb ec low high = subst (IsShape ms' (set vs i v)) (set_same none ps i) (
      updated ms ms' vs ps i v (pointer ps i) lt s (record {
        new_fits = inr (fits_same ms ms' (view vs i) v same f eb ec low high);
        new_counted = λ e. let (b, _, p, _, _, _, _) = f in absurd (cc (s.counted i e, p));
        new_together = λ k c ne e h. eb ∙ s.together i k c e h;
        new_apart = λ k b ne e h. s.apart i k b (sym eb ∙ e) h;
        old_fit = λ k ne. fits_kept ms ms' (view vs k) same (s.fits k);
        all_held = λ b cells h. elim (same b) [
          | inl (_, gone) ↦ absurd (cc (gone, h))
          | inr (xs, _, e, _, _) ↦
              let (k, p) = s.held b xs e in
              elim (Bool-cases (i == k)) [
                | inl q ↦
                    inl (eb ∙ subst (λ j. (view vs j).base ≡ some b) (sym (ground (arith, q))) p)
                | inr q ↦ inr (k, ground (arith, q), p)
              ]
        ];
      }))
