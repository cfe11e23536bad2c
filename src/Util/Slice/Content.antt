-- ===== src/Util/Slice/Content.antt =====
-- What a slice of src/util/slice.cpp shows of its buffer.
use boltdb_cpp.Base.{
  ℕ, ◌+◌, ◌≤◌, ◌<◌, ◌≡◌, refl, sym, ap, ◌∙◌, inl, inr, true, List, [], ◌∷◌, ◌++◌, Option, none,
  some, leb, length, set, take, drop, take-set_end, length-set, entry-set_self, arith,
}
use boltdb_cpp.Util.Slice.Buffers.{Cells, View, Slices, null, view, buffer, size, shown, content}
use boltdb_cpp.Util.Slice.Release.{IsValid, buffer_bound}
use boltdb_cpp.Util.Slice.Bytes.{patched, longer}

pub content_at :
    (v : View) (ms : List (Option Cells)) (b : ℕ) (cells : Cells)
    → v.base ≡ some b
    → buffer ms b ≡ some cells
    → v.tail ≤ length cells
    → content v ms ≡ some (take (size v) (drop v.head cells))
unfolding content
content_at v ms b cells p q h =
    let inside : leb v.tail (length cells) ≡ true = ground (arith, h) in
    rw (content, p) (rw (q, inside) refl)

-- What a slice shows depends on its own buffer.
pub content_cong :
    (v : View) (ms ms' : List (Option Cells))
    → ((b : ℕ) → v.base ≡ some b → buffer ms' b ≡ buffer ms b)
    → content v ms' ≡ content v ms
unfolding content
content_cong v ms ms' h = go v.base h
  where
    go :
        (o : Option ℕ)
        → ((b : ℕ) → o ≡ some b → buffer ms' b ≡ buffer ms b)
        → shown v o ms' ≡ shown v o ms
    go none h = refl
    go (some b) h = rw (h b refl) refl

-- The slice after a byte was pushed.
pub push_content :
    (i v b : ℕ) (cells bytes : Cells) (s s' : Slices)
    → i < length s.views
    → IsValid s
    → (view s.views i).base ≡ some b
    → buffer s.buffers b ≡ some cells
    → (view s.views i).tail < (view s.views i).cap
    → content (view s.views i) s.buffers ≡ some bytes
    → s'.views ≡ set s.views i (longer (view s.views i))
    → s'.buffers ≡ patched b cells (view s.views i).tail v s.buffers
    → content (view s'.views i) s'.buffers ≡ some (bytes ++ (some v ∷ []))
push_content i v b cells bytes s s' lt ok e alive room shown views buffers =
    elim (ok.shape.fits i) [
      | inl gone ↦ absurd (cc (ap (λ (x : View). x.base) gone, e))
      | inr f ↦
          let (d, xs, p, q, long, low, high) = f in
          let w = view s.views i in
          let same : d ≡ b = cc (p, e) in
          let same' : some xs ≡ some cells = sym q ∙ ap (buffer s.buffers) same ∙ alive in
          let eq : xs ≡ cells = cc (same') in
          let room' : w.tail < length cells = omega (arith, ap length eq, long, room) in
          let before = content_at w s.buffers b cells e alive (omega (arith, room')) in
          let bytes' : take (size w) (drop w.head cells) ≡ bytes = cc (before, shown) in
          let now =
            content_at (longer w) (patched b cells w.tail v s.buffers) b (set cells w.tail (some v))
              e
              (entry-set_self none s.buffers b (some (set cells w.tail (some v)))
                (buffer_bound s.buffers b cells alive))
              (omega (arith, length-set cells w.tail (some v), room')) in
          let size' : size (longer w) ≡ size w + 1 = omega (arith, low) in
          ap (λ ms. content (view s'.views i) ms) buffers
          ∙ ap (λ vs. content (view vs i) (patched b cells w.tail v s.buffers)) views
          ∙ ap (λ x. content x (patched b cells w.tail v s.buffers))
              (entry-set_self null s.views i (longer w) lt)
          ∙ now
          ∙ ap some (
              ap (λ n. take n (drop w.head (set cells w.tail (some v)))) size'
              ∙ take-set_end w.head (size w) w.tail (some v) cells (omega (arith, low)) room'
              ∙ ap (λ ys. ys ++ (some v ∷ [])) bytes')
    ]
