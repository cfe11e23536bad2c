-- ===== src/Util/Slice/Shape.antt =====
-- What holds between the views, the owners and the buffers of src/util/slice.cpp, and the moves that keep
-- it: a slice lets its buffer go, shares another's, takes another's over, or gets a new one.
use boltdb_cpp.Base.{
  ℕ, ◌≤◌, ◌<◌, ◌≡◌, ◌≢◌, refl, sym, ap, subst, ◌∙◌, ◌⊎◌, inl, inr, List, Option, none, some, arith,
  ◌==◌, Bool-cases, Option-cases, length, set, entry-set, ltb, length-set, entry-set_self,
  entry-set_other, entry_beyond,
}
use boltdb_cpp.Util.RefCount.{pointer}
use boltdb_cpp.Util.Slice.Buffers.{Cells, View, null, view, buffer}

-- The offsets of a slice fit the buffer, which is alive and as long as its capacity says.
abbrev pub Fits : List (Option Cells) → View → Type 0
Fits ms v =
    (b : ℕ) × (cells : Cells) × (v.base ≡ some b)
    × (buffer ms b ≡ some cells)
    × (length cells ≡ v.cap)
    × (v.head ≤ v.tail)
    × (v.tail ≤ v.cap)

-- Two slices have the same buffer exactly when they have the same counter, and a buffer that is alive
-- has a slice.
pub record IsShape (ms : List (Option Cells)) (vs : List View) (ps : List (Option ℕ)) : Type 0 where
  pub same_length : length vs ≡ length ps
  pub fits : (i : ℕ) → (view vs i ≡ null) ⊎ Fits ms (view vs i)
  pub counted : (i : ℕ) → pointer ps i ≡ none → view vs i ≡ null
  pub together :
      (i k c : ℕ)
      → pointer ps i ≡ some c
      → pointer ps k ≡ some c
      → (view vs i).base ≡ (view vs k).base
  pub apart :
      (i k b : ℕ)
      → (view vs i).base ≡ some b
      → (view vs k).base ≡ some b
      → pointer ps i ≡ pointer ps k
  pub held :
      (b : ℕ) (cells : Cells) → buffer ms b ≡ some cells → (i : ℕ) × ((view vs i).base ≡ some b)

-- No other object has the pointer of `i`.
abbrev pub Alone : ℕ → List (Option ℕ) → Type 0
Alone i ps = (k : ℕ) → pointer ps k ≡ pointer ps i → k ≡ i

abbrev pub Another : ℕ → List (Option ℕ) → Type 0
Another i ps = (k : ℕ) × (k ≢ i) × (pointer ps k ≡ pointer ps i)

abbrev pub Null⊎Fits : List (Option Cells) → View → Type 0
Null⊎Fits ms v = (v ≡ null) ⊎ Fits ms v

pub base_counted :
    (ms : List (Option Cells)) (vs : List View) (ps : List (Option ℕ)) (i b : ℕ)
    → IsShape ms vs ps
    → (view vs i).base ≡ some b
    → (c : ℕ) × (pointer ps i ≡ some c)
base_counted ms vs ps i b s e = elim (Option-cases (pointer ps i)) [
  | inl q ↦ let gone = s.counted i q in absurd (cc (gone, e))
  | inr h ↦ h
]

-- What a new view `v` and a new pointer `q` of the slice `i` have to agree with in the others.
pub record IsUpdate (ms ms' : List (Option Cells)) (vs : List View) (ps : List (Option ℕ)) (i : ℕ)
    (v : View) (q : Option ℕ) : Type 0 where
  pub new_fits : Null⊎Fits ms' v
  pub new_counted : q ≡ none → v ≡ null
  pub new_together :
      (k c : ℕ) → i ≢ k → q ≡ some c → pointer ps k ≡ some c → v.base ≡ (view vs k).base
  pub new_apart : (k b : ℕ) → i ≢ k → v.base ≡ some b → (view vs k).base ≡ some b → q ≡ pointer ps k
  pub old_fit : (k : ℕ) → i ≢ k → Null⊎Fits ms' (view vs k)
  pub all_held :
      (b : ℕ) (cells : Cells)
      → buffer ms' b ≡ some cells
      → (v.base ≡ some b) ⊎ ((k : ℕ) × (i ≢ k) × ((view vs k).base ≡ some b))

base_cong : {v w : View} {o : Option ℕ} → v ≡ w → w.base ≡ o → v.base ≡ o
base_cong e h = ap (λ (x : View). x.base) e ∙ h

pub updated :
    (ms ms' : List (Option Cells)) (vs : List View) (ps : List (Option ℕ)) (i : ℕ) (v : View)
    (q : Option ℕ)
    → i < length vs
    → IsShape ms vs ps
    → IsUpdate ms ms' vs ps i v q
    → IsShape ms' (set vs i v) (set ps i q)
updated ms ms' vs ps i v q lt s u = record {
  same_length = length-set vs i v ∙ s.same_length ∙ sym (length-set ps i q);
  fits = λ k. elim (views k) [
    | inl (_, e) ↦ subst (Null⊎Fits ms') (sym e) u.new_fits
    | inr (ne, e) ↦ subst (Null⊎Fits ms') (sym e) (u.old_fit k ne)
  ];
  counted = λ k h. elim (views k) [
    | inl (same, e) ↦ e ∙ u.new_counted (sym (at_i k same) ∙ h)
    | inr (ne, e) ↦ e ∙ s.counted k (sym (off_i k ne) ∙ h)
  ];
  together = λ j k c h g. elim (views j) [
    | inl (same, e) ↦ elim (views k) [
      | inl (same', e') ↦ ap (λ (x : View). x.base) (e ∙ sym e')
      | inr (ne, e') ↦ base_cong e (
          u.new_together k c ne (sym (at_i j same) ∙ h) (sym (off_i k ne) ∙ g)
          ∙ ap (λ (x : View). x.base) (sym e'))
    ]
    | inr (ne, e) ↦ elim (views k) [
      | inl (same, e') ↦ base_cong e (
          sym (base_cong e' (u.new_together j c ne (sym (at_i k same) ∙ g) (sym (off_i j ne) ∙ h))))
      | inr (ne', e') ↦ base_cong e (
          s.together j k c (sym (off_i j ne) ∙ h) (sym (off_i k ne') ∙ g)
          ∙ ap (λ (x : View). x.base) (sym e'))
    ]
  ];
  apart = λ j k b h g. elim (views j) [
    | inl (same, e) ↦ elim (views k) [
      | inl (same', e') ↦ at_i j same ∙ sym (at_i k same')
      | inr (ne, e') ↦
          at_i j same
          ∙ u.new_apart k b ne (base_cong (sym e) h) (base_cong (sym e') g)
          ∙ sym (off_i k ne)
    ]
    | inr (ne, e) ↦ elim (views k) [
      | inl (same, e') ↦ sym (
          at_i k same
          ∙ u.new_apart j b ne (base_cong (sym e') g) (base_cong (sym e) h)
          ∙ sym (off_i j ne))
      | inr (ne', e') ↦
          off_i j ne
          ∙ s.apart j k b (base_cong (sym e) h) (base_cong (sym e') g)
          ∙ sym (off_i k ne')
    ]
  ];
  held = λ b cells h. elim (u.all_held b cells h) [
    | inl e ↦ (i, base_cong (entry-set_self null vs i v lt) e)
    | inr (k, ne, e) ↦ (k, base_cong (entry-set_other null vs i k v ne) e)
  ];
}
  where
    views :
        (k : ℕ)
        → ((i ≡ k) × (view (set vs i v) k ≡ v)) ⊎ ((i ≢ k) × (view (set vs i v) k ≡ view vs k))
    views k = entry-set null vs i k v lt

    at_i : (k : ℕ) → i ≡ k → pointer (set ps i q) k ≡ q
    at_i k same =
        subst (λ j. pointer (set ps i q) j ≡ q) same
          (entry-set_self none ps i q (omega (arith, lt, s.same_length)))

    off_i : (k : ℕ) → i ≢ k → pointer (set ps i q) k ≡ pointer ps k
    off_i k ne = entry-set_other none ps i k q ne

module _ (ms : List (Option Cells)) (vs : List View) (ps : List (Option ℕ)) (i : ℕ)
    (lt : i < length vs) (s : IsShape ms vs ps) where
  -- Another slice holds the buffer, or there is none.
  pub let_go : ((view vs i).base ≡ none) ⊎ Another i ps → IsShape ms (set vs i null) (set ps i none)
  let_go safe = updated ms ms vs ps i null none lt s (record {
    new_fits = inl refl;
    new_counted = λ e. refl;
    new_together = λ k c ne e. absurd (cc (e));
    new_apart = λ k b ne e. absurd (cc (e));
    old_fit = λ k ne. s.fits k;
    all_held = λ b cells h.
        let (k, e) = s.held b cells h in
        elim (Bool-cases (i == k)) [
          | inl q ↦ inr (other b k (ground (arith, q)) e)
          | inr q ↦ inr (k, ground (arith, q), e)
        ];
  })
    where
      other :
          (b k : ℕ)
          → i ≡ k
          → (view vs k).base ≡ some b
          → (j : ℕ) × (i ≢ j) × ((view vs j).base ≡ some b)
      other b k same e = elim safe [
        | inl bare ↦ absurd (cc (subst (λ j. (view vs j).base ≡ some b) (sym same) e, bare))
        | inr (j, ne, p) ↦
            let e' : (view vs i).base ≡ some b =
              subst (λ j. (view vs j).base ≡ some b) (sym same) e in
            let (c, q) = base_counted ms vs ps i b s e' in
            (j, (λ x. ne (sym x)), s.together j i c (p ∙ q) q ∙ e')
      ]

  -- The last slice of a buffer frees it.
  pub freed :
      (b : ℕ)
      → (view vs i).base ≡ some b
      → Alone i ps
      → IsShape (set ms b none) (set vs i null) (set ps i none)
  freed b e alone = updated ms (set ms b none) vs ps i null none lt s (record {
    new_fits = inl refl;
    new_counted = λ e. refl;
    new_together = λ k c ne e. absurd (cc (e));
    new_apart = λ k b ne e. absurd (cc (e));
    old_fit = λ k ne. elim (s.fits k) [
      | inl q ↦ inl q
      | inr (d, cells, p, q, long, low, high) ↦
          let apart : b ≢ d =
            λ same. ne (sym (alone k (s.apart k i b (p ∙ ap some (sym same)) e))) in
          inr (d, cells, p, entry-set_other none ms b d none apart ∙ q, long, low, high)
    ];
    all_held = λ d cells h. elim (Bool-cases (b == d)) [
      | inl q ↦ absurd (gone d cells (ground (arith, q)) h)
      | inr q ↦
          let ne : b ≢ d = ground (arith, q) in
          let (k, p) = s.held d cells (sym (entry-set_other none ms b d none ne) ∙ h) in
          inr (k, (λ same. ne (some_inj (sym e ∙ ap (λ j. (view vs j).base) same ∙ p))), p)
    ];
  })
    where
      some_inj : {x y : ℕ} → some x ≡ some y → x ≡ y
      some_inj h = cc (h)

      gone : (d : ℕ) (cells : Cells) → b ≡ d → buffer (set ms b none) d ≢ some cells
      gone d cells same h = elim (Bool-cases (ltb b (length ms))) [
        | inl q ↦
            let x = entry-set_self none ms b none (ground (arith, q)) in
            absurd (cc (x, subst (λ j. buffer (set ms b none) j ≡ some cells) (sym same) h))
        | inr q ↦
            let out : length (set ms b none) ≤ b = ground (arith, q, length-set ms b none) in
            let x = entry_beyond none (set ms b none) b out in
            absurd (cc (x, subst (λ j. buffer (set ms b none) j ≡ some cells) (sym same) h))
      ]
