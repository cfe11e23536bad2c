-- ===== src/Util/Slice/Lifetimes.antt =====
-- The constructors, the assignments and the destructor of src/util/slice.cpp.
use boltdb_cpp.Base.{
  ℕ, ◌+◌, ◌-◌, ◌≤◌, ◌<◌, ◌≡◌, ◌≢◌, refl, sym, ap, subst, ◌∙◌, List, [], ◌∷◌, ◌++◌, Option, none,
  some, map, take, length, length-map, set, length-append, set_same, entry-set_self,
  entry-append_default, entry-snoc, arith,
}
use boltdb_cpp.Util.RefCount
use boltdb_cpp.Util.RefCount.Owners
use boltdb_cpp.Util.RefCount.{RefCounts, pointer}
use boltdb_cpp.Util.RefCount.Results.{construct_ends}
use boltdb_cpp.Util.Rounding.{round_up_to_power_of_two, round_up_bound}
use boltdb_cpp.Util.Slice.Buffers.{
  Cells, View, Slices, null, view, content, whole, declare, construct, construct_from,
}
use boltdb_cpp.Util.Slice.Shape.{Null⊎Fits, IsShape}
use boltdb_cpp.Util.Slice.Moves.{counter_only, new_buffer}
use boltdb_cpp.Util.Slice.Release.{IsValid}
use boltdb_cpp.Util.Slice.Content.{content_at}
use boltdb_cpp.Util.Slice.Growth.{take-filled, filled, length-filled, write_new}

-- The call succeeds and leaves everything in order.
abbrev pub Succeeds : Option Slices → Type 0
Succeeds r = (s' : Slices) × (r ≡ some s') × IsValid s'

pub declared :
    (ms : List (Option Cells)) (vs : List View) (ps : List (Option ℕ))
    → IsShape ms vs ps
    → IsShape ms (vs ++ (null ∷ [])) (ps ++ (none ∷ []))
declared ms vs ps s = record {
  same_length =
      omega (arith, length-append vs (null ∷ []), length-append ps (none ∷ []), s.same_length);
  fits = λ i. subst (Null⊎Fits ms) (sym (at i)) (s.fits i);
  counted = λ i e. at i ∙ s.counted i (sym (owner i) ∙ e);
  together =
      λ i k c e h. base i ∙ s.together i k c (sym (owner i) ∙ e) (sym (owner k) ∙ h) ∙ sym (base k);
  apart =
      λ i k b e h. owner i ∙ s.apart i k b (sym (base i) ∙ e) (sym (base k) ∙ h) ∙ sym (owner k);
  held = λ b cells e. let (i, h) = s.held b cells e in (i, base i ∙ h);
}
  where
    at : (i : ℕ) → view (vs ++ (null ∷ [])) i ≡ view vs i
    at i = entry-append_default null vs i

    base : (i : ℕ) → (view (vs ++ (null ∷ [])) i).base ≡ (view vs i).base
    base i = ap (λ (x : View). x.base) (at i)

    owner : (i : ℕ) → pointer (ps ++ (none ∷ [])) i ≡ pointer ps i
    owner i = entry-append_default none ps i

module _ (s : Slices) (ok : IsValid s) where
  abbrev pub new : ℕ
  new = length s.views

  pub new_bound : new < length (declare s).views
  new_bound = omega (arith, length-append s.views (null ∷ []))

  pub new-null : view (declare s).views new ≡ null
  new-null = entry-snoc null s.views null

  pub new_shape : IsShape s.buffers (declare s).views (RefCount.declare s.refs).owners
  new_shape = declared s.buffers s.views s.refs.owners ok.shape

  new_bare : (view (declare s).views new).base ≡ none
  new_bare = ap (λ (x : View). x.base) new-null

  new_again : set (declare s).views new null ≡ (declare s).views
  new_again = ap (set (declare s).views new) (sym new-null) ∙ set_same null (declare s).views new

  new_counts :
      (c : ℕ) × (t : RefCounts) × (RefCount.run RefCount.construct s.refs ≡ some t)
      × Owners.IsValid t
      × (t.owners ≡ set (RefCount.declare s.refs).owners new (some c))
      × ((k : ℕ) → new ≢ k → pointer (RefCount.declare s.refs).owners k ≢ some c)
  new_counts =
      let (c, (t, e, counts, owners), unused) = construct_ends s.refs ok.counts in
      let at : length s.refs.owners ≡ new = sym ok.shape.same_length in
      (
        c,
        t,
        e,
        counts,
        owners ∙ ap (λ k. set (RefCount.declare s.refs).owners k (some c)) at,
        λ k _. unused k,
      )

  pub construct_lem :
      (s' : Slices) × (construct s ≡ some s') × IsValid s' × (s'.views ≡ (declare s).views)
  unfolding construct
  construct_lem =
      let (c, t, e, counts, owners, unused) = new_counts in
      (
        record (declare s) { refs = t },
        rw e refl,
        record {
          counts = counts;
          shape = subst (IsShape s.buffers (declare s).views) (sym owners) (
              subst (λ vs. IsShape s.buffers vs (set (RefCount.declare s.refs).owners new (some c)))
                new_again
                (counter_only s.buffers (declare s).views (RefCount.declare s.refs).owners new
                  new_bound new_shape c new_bare unused));
        },
        refl,
      )

  module _ (bytes : List ℕ) where
    abbrev room : ℕ
    room = round_up_to_power_of_two (length bytes + 1)

    abbrev cells : Cells
    cells = filled (map some bytes) room

    abbrev buffers_from : List (Option Cells)
    buffers_from = s.buffers ++ (some cells ∷ [])

    abbrev view_from : View
    view_from = whole (length s.buffers) (length bytes) room

    enough : length bytes + 1 ≤ room
    enough = round_up_bound (length bytes + 1) (omega arith)

    small : length (map some bytes) ≤ room
    small = omega (arith, length-map some bytes, enough)

    long : length cells ≡ room
    long = length-filled (map some bytes) room small

    from_shape :
        (c : ℕ)
        → ((k : ℕ) → new ≢ k → pointer (RefCount.declare s.refs).owners k ≢ some c)
        → IsShape buffers_from
            (set (declare s).views new view_from)
            (set (RefCount.declare s.refs).owners new (some c))
    from_shape c unused =
        subst
          (λ n.
            IsShape buffers_from
              (set (declare s).views new (whole (length s.buffers) (length bytes) n))
              (set (RefCount.declare s.refs).owners new (some c)))
          long
          (new_buffer s.buffers (declare s).views (RefCount.declare s.refs).owners new new_bound
            new_shape c new_bare unused cells (length bytes) (omega (arith, long, enough)))

    from_content : content view_from buffers_from ≡ some (map some bytes)
    from_content =
        let all : length bytes - 0 ≡ length (map some bytes) =
          omega (arith, length-map some bytes) in
        content_at view_from buffers_from (length s.buffers) cells refl
          (entry-snoc none s.buffers (some cells)) (omega (arith, long, enough))
        ∙ ap some (ap (λ k. take k cells) all ∙ take-filled (map some bytes) room)

    -- A slice that is made from bytes shows them, in a buffer of its own.
    pub construct_from_lem :
        (s' : Slices) × (construct_from bytes s ≡ some s')
        × IsValid s'
        × (content (view s'.views (length s.views)) s'.buffers ≡ some (map some bytes))
    unfolding construct_from construct
    construct_from_lem =
        let (c, t, e, counts, owners, unused) = new_counts in
        (
          record { buffers = buffers_from; views = set (declare s).views new view_from; refs = t },
          rw e (rw (write_new (map some bytes) room s.buffers small) refl),
          record {
            counts = counts;
            shape =
                subst (IsShape buffers_from (set (declare s).views new view_from)) (sym owners)
                  (from_shape c unused);
          },
          ap (λ x. content x buffers_from)
                (entry-set_self null (declare s).views new view_from new_bound)
              ∙ from_content,
        )
