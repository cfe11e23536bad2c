-- ===== src/Util/Slice/Appending.antt =====
-- `append` of src/util/slice.cpp: what it does to the slice, and to those that share its buffer.
use boltdb_cpp.Base.{
  ℕ, ◌+◌, ◌≤◌, ◌<◌, ◌≡◌, ◌≢◌, refl, sym, ap, subst, ◌∙◌, ◌⊎◌, inl, inr, false, List, [], ◌∷◌, ◌++◌,
  Option, none, some, ◌==◌, length, set, take, drop, take-set, drop-set_high, length-set,
  entry-set_self, entry-set_other, arith, Bool-cases,
}
use boltdb_cpp.Util.Slice.Buffers.{
  Cells, View, Slices, null, view, buffer, size, content, push, append,
}
use boltdb_cpp.Util.Slice.Shape.{Null⊎Fits}
use boltdb_cpp.Util.Slice.Release.{IsValid, buffer_bound}
use boltdb_cpp.Util.Slice.Bytes.{patched, longer, push_lem}
use boltdb_cpp.Util.Slice.Content.{content_at, content_cong, push_content}
use boltdb_cpp.Util.Slice.Room.{IsPrepared, prepare, prepare_lem}

append_is : (i v : ℕ) (s s₁ : Slices) → prepare i s ≡ some s₁ → append i v s ≡ push i v s₁
unfolding append
append_is i v s s₁ e = rw (append, e) refl

pub tail_bound : (ms : List (Option Cells)) (v : View) → Null⊎Fits ms v → v.tail ≤ v.cap
tail_bound ms v (inl gone) = subst (λ (x : View). x.tail ≤ x.cap) (sym gone) (omega arith)
tail_bound ms v (inr (_, _, _, _, _, _, high)) = high

elsewhere :
    (i k : ℕ) (s s₁ : Slices) (bytes : Cells)
    → IsValid s
    → (r : IsPrepared i s bytes s₁) → i ≢ k
    → ((view s.views k).base ≢ (view s.views i).base)
      ⊎ ((view s.views i).tail ≡ (view s.views i).cap)
    → (view s.views k).base ≢ some r.place
elsewhere i k s s₁ bytes ok r off apart =
    elim (Bool-cases ((view s.views i).tail == (view s.views i).cap)) [
      | inl q ↦ (r.others k off).2 (ground (arith, q))
      | inr q ↦
          let room : (view s.views i).tail < (view s.views i).cap =
            ground (arith, q, tail_bound s.buffers (view s.views i) (ok.shape.fits i)) in
          let based : (view s.views i).base ≡ some r.place =
            subst (λ (x : Slices). (view x.views i).base ≡ some r.place) (r.in_place room)
              r.based in
          elim apart [
            | inl ne ↦ λ p. ne (p ∙ sym based)
            | inr full ↦ absurd (omega (arith, room, full))
          ]
    ]

-- `append` to a slice that shows `bytes` succeeds, keeps every counter, buffer and view in order, and the
-- slice shows one byte more. A slice with another buffer shows what it did, and so does every other
-- slice when the buffer was full.
pub append_lem :
    (i v : ℕ) (s : Slices) (bytes : Cells)
    → i < length s.views
    → IsValid s
    → content (view s.views i) s.buffers ≡ some bytes
    → (s' : Slices) × (append i v s ≡ some s')
      × IsValid s'
      × (content (view s'.views i) s'.buffers ≡ some (bytes ++ (some v ∷ [])))
      × ((k : ℕ)
          → i ≢ k
          → ((view s.views k).base ≢ (view s.views i).base)
            ⊎ ((view s.views i).tail ≡ (view s.views i).cap)
          → content (view s'.views k) s'.buffers ≡ content (view s.views k) s.buffers)
append_lem i v s bytes lt ok before =
    let (s₁, run, r) = prepare_lem i s bytes lt ok before in
    let lt₁ : i < length s₁.views = omega (arith, lt, r.same_number) in
    let (s', run', ok', views, buffers) =
      push_lem i v r.place r.cells s₁ lt₁ r.valid r.based r.alive r.room in
    (
      s',
      append_is i v s s₁ run ∙ run',
      ok',
      push_content i v r.place r.cells bytes s₁ s' lt₁ r.valid r.based r.alive r.room r.shows views
          buffers,
      λ k off apart.
          let (same, shown', fresh) = r.others k off in
          let other : (view s.views k).base ≢ some r.place =
            elsewhere i k s s₁ bytes ok r off apart in
          ap (λ vs. content (view vs k) s'.buffers) views
          ∙ ap (λ x. content x s'.buffers)
              (entry-set_other null s₁.views i k (longer (view s₁.views i)) off ∙ same)
          ∙ content_cong (view s.views k) s₁.buffers s'.buffers (λ b p.
            ap (λ ms. buffer ms b) buffers
            ∙ entry-set_other none s₁.buffers r.place b
                (some (set r.cells (view s₁.views i).tail (some v)))
                (λ e. other (p ∙ ap some (sym e))))
          ∙ shown',
    )

-- `append` to a slice with room writes over what another slice of the same buffer shows: the byte `n` of
-- the other, where the slice ends `n` bytes behind the other's begin.
pub append_overwrites :
    (i k v n : ℕ) (s : Slices) (others : Cells)
    → i < length s.views
    → IsValid s
    → content (view s.views k) s.buffers ≡ some others
    → i ≢ k
    → (view s.views k).base ≡ (view s.views i).base
    → (view s.views i).tail < (view s.views i).cap
    → (view s.views i).tail ≡ (view s.views k).head + n
    → (s' : Slices) × (append i v s ≡ some s')
      × (content (view s'.views k) s'.buffers ≡ some (set others n (some v)))
append_overwrites i k v n s others lt ok before off share room at = elim (ok.shape.fits i) [
  | inl gone ↦
      absurd (omega (arith, room, ap (λ (x : View). x.tail) gone, ap (λ (x : View). x.cap) gone))
  | inr (b, cells, p, q, long, _, high) ↦
      let not_full : ((view s.views i).tail == (view s.views i).cap) ≡ false =
        ground (arith, room) in
      let (s', run, ok', views, buffers) = push_lem i v b cells s lt ok p q room in
      let w = view s.views k in
      let t = (view s.views i).tail in
      let p' = share ∙ p in
      let inside : w.tail ≤ length cells = tail_inside k b cells p' q in
      let then_ = content_at w s.buffers b cells p' q inside in
      let shown_k : take (size w) (drop w.head cells) ≡ others = cc (then_, before) in
      (
        s',
        append_is i v s s (rw not_full refl) ∙ run,
        ap (λ vs. content (view vs k) s'.buffers) views
            ∙ ap (λ x. content x s'.buffers)
                (entry-set_other null s.views i k (longer (view s.views i)) off)
            ∙ ap (content w) buffers
            ∙ content_at w (patched b cells t v s.buffers) b (set cells t (some v)) p'
                (entry-set_self none s.buffers b (some (set cells t (some v)))
                  (buffer_bound s.buffers b cells q))
                (omega (arith, inside, length-set cells t (some v)))
            ∙ ap some (
                ap (take (size w)) (drop-set_high w.head n t (some v) cells at)
                ∙ take-set (size w) n (some v) (drop w.head cells)
                ∙ ap (λ xs. set xs n (some v)) shown_k),
      )
]
  where
    tail_inside :
        (j b : ℕ) (cells : Cells)
        → (view s.views j).base ≡ some b
        → buffer s.buffers b ≡ some cells
        → (view s.views j).tail ≤ length cells
    tail_inside j b cells p q = elim (ok.shape.fits j) [
      | inl gone ↦ absurd (cc (ap (λ (x : View). x.base) gone, p))
      | inr (d, xs, p', q', long, _, high) ↦
          let same : d ≡ b = cc (p', p) in
          let same' : some xs ≡ some cells = sym q' ∙ ap (buffer s.buffers) same ∙ q in
          let eq : xs ≡ cells = cc (same') in omega (arith, ap length eq, long, high)
    ]
