-- ===== src/Util/Slice/Bytes.antt =====
-- The operations of src/util/slice.cpp and include/boltdb/util/slice.hpp on the bytes of a slice.
use boltdb_cpp.Base.{
  ℕ, zero, suc, ◌+◌, ◌≤◌, ◌<◌, ◌≡◌, refl, sym, ap, subst, ◌∙◌, inl, inr, true, List, [], ◌∷◌,
  Option, none, some, leb, ltb, length, set, length-set, set_same, entry-set, arith,
}
use boltdb_cpp.Util.Slice.Buffers.{
  Cells, View, Slices, null, view, buffer, size, overwrite, write, push, remove_prefix, set_byte,
}
use boltdb_cpp.Util.Slice.Shape.{IsShape}
use boltdb_cpp.Util.Slice.Moves.{SameLengths, SameLengths-refl, reseen}
use boltdb_cpp.Util.Slice.Release.{IsValid, buffer_bound}

overwrite-one :
    (at : ℕ) (x : Option ℕ) (cells : Cells)
    → at < length cells
    → overwrite at (x ∷ []) cells ≡ some (set cells at x)
unfolding overwrite
overwrite-one at x [] h = absurd (omega arith)
overwrite-one zero x (c ∷ cells) h = refl
overwrite-one (suc at) x (c ∷ cells) h = rw (overwrite-one at x cells (omega arith)) refl

-- The buffers after one byte is written.
abbrev pub patched : ℕ → Cells → ℕ → ℕ → List (Option Cells) → List (Option Cells)
patched b cells at v ms = set ms b (some (set cells at (some v)))

write-one :
    (b at v : ℕ) (cells : Cells) (ms : List (Option Cells))
    → buffer ms b ≡ some cells
    → at < length cells
    → write b at (some v ∷ []) ms ≡ some (patched b cells at v ms)
unfolding write
write-one b at v cells ms e h = rw (e, overwrite-one at (some v) cells h) refl

SameLengths-patched :
    (b at v : ℕ) (cells : Cells) (ms : List (Option Cells))
    → buffer ms b ≡ some cells
    → SameLengths ms (patched b cells at v ms)
SameLengths-patched b at v cells ms e d =
    elim (entry-set none ms b d (some (set cells at (some v))) (buffer_bound ms b cells e)) [
      | inl (same, q) ↦ inr (
        cells,
        set cells at (some v),
        subst (λ k. buffer ms k ≡ some cells) same e,
        q,
        length-set cells at (some v),
      )
      | inr (_, q) ↦ elim (SameLengths-refl ms d) [
        | inl (gone, _) ↦ inl (gone, q ∙ gone)
        | inr (xs, ys, p, p', len) ↦ inr (xs, ys, p, q ∙ p', len)
      ]
    ]

abbrev pub longer : View → View
longer w = record w { tail = w.tail + 1 }

-- A slice with room takes one byte more.
pub push_lem :
    (i v b : ℕ) (cells : Cells) (s : Slices)
    → i < length s.views
    → IsValid s
    → (view s.views i).base ≡ some b
    → buffer s.buffers b ≡ some cells
    → (view s.views i).tail < (view s.views i).cap
    → (s' : Slices) × (push i v s ≡ some s')
      × IsValid s'
      × (s'.views ≡ set s.views i (longer (view s.views i)))
      × (s'.buffers ≡ patched b cells (view s.views i).tail v s.buffers)
unfolding push
push_lem i v b cells s lt ok e alive room = elim (ok.shape.fits i) [
  | inl gone ↦ absurd (cc (ap (λ (x : View). x.base) gone, e))
  | inr f ↦
      let (d, xs, p, q, long, low, high) = f in
      let w = view s.views i in
      let same : d ≡ b = cc (p, e) in
      let same' : some xs ≡ some cells = sym q ∙ ap (buffer s.buffers) same ∙ alive in
      let eq : xs ≡ cells = cc (same') in
      let room' : w.tail < length cells = omega (arith, ap length eq, long, room) in
      let ms = patched b cells w.tail v s.buffers in
      (
        record s { buffers = ms; views = set s.views i (longer w) },
        rw (e, write-one b w.tail v cells s.buffers alive room') refl,
        record {
          counts = ok.counts;
          shape =
              reseen s.buffers s.views s.refs.owners i lt ok.shape ms (longer w)
                (SameLengths-patched b w.tail v cells s.buffers alive) f refl refl
                (omega (arith, low)) (omega (arith, room));
        },
        refl,
        refl,
      )
]

-- Removing a prefix that the slice has changes only where the slice begins.
pub remove_prefix_lem :
    (i index : ℕ) (s : Slices)
    → i < length s.views
    → IsValid s
    → index ≤ size (view s.views i)
    → (s' : Slices) × (remove_prefix i index s ≡ some s') × IsValid s'
unfolding remove_prefix
remove_prefix_lem i index s lt ok h =
    let w = view s.views i in
    let fine : leb index (size w) ≡ true = ground (arith, h) in
    elim (ok.shape.fits i) [
      | inl gone ↦
          let moved : record w { head = w.head + index } ≡ w =
            subst (λ (x : View). record x { head = x.head + index } ≡ x) (sym gone)
              (ap (λ n. record null { head = n }) (omega (arith, h, ap size gone))) in
          (
            s,
            rw fine (
                ap (λ vs. some (record s { views = vs }))
                  (ap (set s.views i) moved ∙ set_same null s.views i)),
            ok,
          )
      | inr f ↦
          let (d, xs, p, q, long, low, high) = f in
          (
            record s { views = set s.views i (record w { head = w.head + index }) },
            rw fine refl,
            record {
              counts = ok.counts;
              shape =
                  reseen s.buffers s.views s.refs.owners i lt ok.shape s.buffers
                    (record w { head = w.head + index }) (SameLengths-refl s.buffers) f refl refl
                    (omega (arith, low, h)) (omega (arith, high));
            },
          )
    ]

pub set_byte_lem :
    (i index v : ℕ) (s : Slices)
    → i < length s.views
    → IsValid s
    → index < size (view s.views i)
    → (s' : Slices) × (set_byte i index v s ≡ some s') × IsValid s'
unfolding set_byte
set_byte_lem i index v s lt ok h =
    let w = view s.views i in
    let fine : ltb index (size w) ≡ true = ground (arith, h) in
    elim (ok.shape.fits i) [
      | inl gone ↦ absurd (omega (arith, h, ap size gone))
      | inr f ↦
          let (d, xs, p, q, long, low, high) = f in
          let ms = patched d xs (w.head + index) v s.buffers in
          (
            record s { buffers = ms },
            rw
                (
                  p,
                  fine,
                  write-one d (w.head + index) v xs s.buffers q (omega (arith, long, high, h)),
                )
                refl,
            record {
              counts = ok.counts;
              shape =
                  subst (λ vs. IsShape ms vs s.refs.owners) (set_same null s.views i)
                    (reseen s.buffers s.views s.refs.owners i lt ok.shape ms w
                      (SameLengths-patched d (w.head + index) v xs s.buffers q) f refl refl low
                      high);
            },
          )
    ]
