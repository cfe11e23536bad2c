-- ===== src/Util/Slice/Release.antt =====
-- How `try_deallocate` of src/util/slice.cpp frees the buffer of a slice.
use boltdb_cpp.Base.{
  ℕ, zero, suc, ◌<◌, ◌≡◌, refl, sym, subst, ◌∙◌, inl, inr, true, List, [], ◌∷◌, Option, none, some,
  ◌==◌, if◌then◌else◌, length, set, entry-set, length-set, arith, Bool-cases, Option-cases,
}
use boltdb_cpp.Util.RefCount.{unique}
use boltdb_cpp.Util.RefCount.Owners
use boltdb_cpp.Util.RefCount.Sharing.{unique-alone, unique-another}
use boltdb_cpp.Util.Slice.Buffers.{
  Cells, Slices, null, view, buffer, deallocate, clear, try_free, try_deallocate,
}
use boltdb_cpp.Util.Slice.Shape.{IsShape, Alone, base_counted, let_go, freed}

-- Every counter counts its owners, and views, owners and buffers agree.
pub record IsValid (s : Slices) : Type 0 where
  pub counts : Owners.IsValid s.refs
  pub shape : IsShape s.buffers s.views s.refs.owners

-- Buffers may be gone; those that are left hold what they held.
abbrev pub Shrinks : List (Option Cells) → List (Option Cells) → Type 0
Shrinks ms ms' = (b : ℕ) (cells : Cells) → buffer ms' b ≡ some cells → buffer ms b ≡ some cells

-- What `try_free` is for a slice with a buffer.
pub try_free_based :
    (i b : ℕ) (s : Slices)
    → (view s.views i).base ≡ some b
    → try_free i s
      ≡ (if unique i s.refs then deallocate b (view s.views i).cap s.buffers else some s.buffers)
try_free_based i b s e = rw (try_free, e) refl

deallocate_lem :
    (b : ℕ) (cells : Cells) (ms : List (Option Cells))
    → buffer ms b ≡ some cells
    → deallocate b (length cells) ms ≡ some (set ms b none)
unfolding deallocate
deallocate_lem b cells ms e =
    let full : (length cells == length cells) ≡ true = ground arith in rw (deallocate, e, full) refl

Shrinks-set : (ms : List (Option Cells)) (b : ℕ) → b < length ms → Shrinks ms (set ms b none)
Shrinks-set ms b lt d cells h = elim (entry-set none ms b d none lt) [
  | inl (_, gone) ↦ absurd (cc (gone, h))
  | inr (_, same) ↦ sym same ∙ h
]

pub buffer_bound :
    (ms : List (Option Cells)) (b : ℕ) (cells : Cells) → buffer ms b ≡ some cells → b < length ms
buffer_bound [] b cells e = absurd (cc (e))
buffer_bound (m ∷ ms) zero cells e = omega arith
buffer_bound (m ∷ ms) (suc b) cells e = omega (arith, buffer_bound ms b cells e)

-- What `try_deallocate` does to the buffers.
abbrev pub Frees : ℕ → Slices → Option (List (Option Cells)) → Type 0
Frees i s r =
    (ms : List (Option Cells)) × (r ≡ some ms)
    × IsShape ms (set s.views i null) (set s.refs.owners i none)
    × Shrinks s.buffers ms
    × (length ms ≡ length s.buffers)

pub try_free_lem : (i : ℕ) (s : Slices) → i < length s.views → IsValid s → Frees i s (try_free i s)
try_free_lem i s lt v = elim (Option-cases (view s.views i).base) [
  | inl bare ↦ (
    s.buffers,
    rw (try_free, bare) refl,
    let_go s.buffers s.views s.refs.owners i lt v.shape (inl bare),
    (λ b cells h. h),
    refl,
  )
  | inr (b, e) ↦
      let (c, p) = base_counted s.buffers s.views s.refs.owners i b v.shape e in
      elim (Bool-cases (unique i s.refs)) [
        | inl u ↦ elim (v.shape.fits i) [
          | inl gone ↦ absurd (cc (gone, e))
          | inr (d, cells, q, alive, long, _, _) ↦
              let same : d ≡ b = cc (q, e) in
              let here = subst (λ k. buffer s.buffers k ≡ some cells) same alive in
              let only : Alone i s.refs.owners =
                λ k h. unique-alone i c s.refs v.counts p u k (h ∙ p) in
              (
                set s.buffers b none,
                try_free_based i b s e ∙ rw (u, ← long) (deallocate_lem b cells s.buffers here),
                freed s.buffers s.views s.refs.owners i lt v.shape b e only,
                Shrinks-set s.buffers b (buffer_bound s.buffers b cells here),
                length-set s.buffers b none,
              )
        ]
        | inr u ↦
            let (k, ne, h) = unique-another i c s.refs v.counts p u in
            (
              s.buffers,
              try_free_based i b s e ∙ rw u refl,
              let_go s.buffers s.views s.refs.owners i lt v.shape (inr (k, ne, h ∙ sym p)),
              (λ d cells g. g),
              refl,
            )
      ]
]

-- `try_deallocate` of a slice never fails: it leaves the other slices with their buffers, and no buffer
-- without a slice.
pub try_deallocate_lem :
    (i : ℕ) (s : Slices)
    → i < length s.views
    → IsValid s
    → (ms : List (Option Cells)) × (try_deallocate i s ≡ some (clear i (record s { buffers = ms })))
      × IsShape ms (set s.views i null) (set s.refs.owners i none)
      × Shrinks s.buffers ms
      × (length ms ≡ length s.buffers)
unfolding try_deallocate
try_deallocate_lem i s lt v =
    let (ms, e, shape, shrinks, long) = try_free_lem i s lt v in
    (ms, rw e refl, shape, shrinks, long)
