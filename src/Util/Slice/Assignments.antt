-- ===== src/Util/Slice/Assignments.antt =====
-- The assignments and the destructor of src/util/slice.cpp, and the constructors that copy and move.
use boltdb_cpp.Base.{
  ℕ, ◌<◌, ◌≡◌, ◌≢◌, refl, sym, ap, subst, ◌∙◌, ◌⊎◌, inl, inr, [], ◌∷◌, none, some, ◌==◌, length,
  set, length-append, length-set, set-set, set_same, entry-set, entry-set_self, entry-set_other,
  entry-append, entry-snoc, arith, Bool-cases,
}
use boltdb_cpp.Util.RefCount
use boltdb_cpp.Util.RefCount.{RefCounts, pointer}
use boltdb_cpp.Util.RefCount.Results.{copy_new_ends, destroy_ends, copy_ends, move_ends}
use boltdb_cpp.Util.RefCount.Owners
use boltdb_cpp.Util.Slice.Buffers.{
  clear, View, Slices, null, view, declare, copy_from, move_from, construct_copy, construct_move,
  assign, assign_move, destroy,
}
use boltdb_cpp.Util.Slice.Shape.{Another, IsShape, let_go}
use boltdb_cpp.Util.Slice.Moves.{shared}
use boltdb_cpp.Util.Slice.Release.{IsValid, try_deallocate_lem}
use boltdb_cpp.Util.Slice.Lifetimes.{Succeeds, construct_lem, new_bound, new-null, new_shape}

module _ (s : Slices) (i j : ℕ) (lt : i < length s.views) (lt' : j < length s.views)
    (counts : Owners.IsValid s.refs) (shape : IsShape s.buffers s.views (set s.refs.owners i none))
    (bare : view s.views i ≡ null) where
  owner_bound : (k : ℕ) → k < length s.views → k < length s.refs.owners
  owner_bound k h = omega (arith, h, shape.same_length, length-set s.refs.owners i none)

  no_base : (view s.views i).base ≡ none
  no_base = ap (λ (x : View). x.base) bare

  -- A slice that holds nothing takes over what another holds.
  move_from_lem : Succeeds (move_from i j s)
  unfolding move_from
  move_from_lem =
      let owners = set s.refs.owners i none in
      let (t, e, ok, left) = move_ends s.refs counts i (owner_bound i lt) j (owner_bound j lt') in
      let held = shared s.buffers s.views owners i lt shape j no_base in
      (
        record s { views = set (set s.views i (view s.views j)) j null; refs = t },
        rw e refl,
        record {
          counts = ok;
          shape =
              subst (IsShape s.buffers (set (set s.views i (view s.views j)) j null)) (sym left) (
                let_go s.buffers (set s.views i (view s.views j)) (set owners i (pointer owners j))
                  j (omega (arith, lt', length-set s.views i (view s.views j))) held safe);
        },
      )
    where
      safe :
          ((view (set s.views i (view s.views j)) j).base ≡ none)
          ⊎ Another j (set (set s.refs.owners i none) i (pointer (set s.refs.owners i none) j))
      safe = elim (entry-set null s.views i j (view s.views j) lt) [
        | inl (same, e) ↦ inl (ap (λ (x : View). x.base) (e ∙ ap (view s.views) (sym same) ∙ bare))
        | inr (ne, e) ↦
            let owners = set s.refs.owners i none in
            inr (
              i,
              ne,
              entry-set_self none owners i (pointer owners j) (omega (arith, lt, shape.same_length))
                  ∙ sym (entry-set_other none owners i j (pointer owners j) ne),
            )
      ]

  -- A slice that holds nothing shares what another holds.
  copy_from_lem : (c : ℕ) → i ≢ j → pointer s.refs.owners j ≡ some c → Succeeds (copy_from i j s)
  unfolding copy_from
  copy_from_lem c ne e =
      let (t, e', ok, left) =
        copy_ends s.refs counts i (owner_bound i lt) j (owner_bound j lt') c ne e in
      (
        record s { views = set s.views i (view s.views j); refs = t },
        rw e' refl,
        record {
          counts = ok;
          shape =
              subst (IsShape s.buffers (set s.views i (view s.views j))) (sym left)
                (shared s.buffers s.views (set s.refs.owners i none) i lt shape j no_base);
        },
      )

module _ (s : Slices) (ok : IsValid s) (i : ℕ) (lt : i < length s.views) where
  pub destroy_lem : Succeeds (destroy i s)
  unfolding destroy
  destroy_lem =
      let (ms, e, shape, _, _) = try_deallocate_lem i s lt ok in
      let (t, e', counts, owners) =
        destroy_ends s.refs ok.counts i (omega (arith, lt, ok.shape.same_length)) in
      (
        record (clear i (record s { buffers = ms })) { refs = t },
        rw e (rw e' refl),
        record {
          counts = counts;
          shape = subst (IsShape ms (set s.views i null)) (sym owners) shape;
        },
      )

  module _ (j : ℕ) (lt' : j < length s.views) where
    pub assign_move_lem : Succeeds (assign_move i j s)
    unfolding assign_move
    assign_move_lem =
        let (ms, e, shape, _, _) = try_deallocate_lem i s lt ok in
        let long = length-set s.views i null in
        let (s', e', ok') =
          move_from_lem (clear i (record s { buffers = ms })) i j (omega (arith, lt, long))
            (omega (arith, lt', long)) ok.counts shape (entry-set_self null s.views i null lt) in
        (s', rw e e', ok')

    pub assign_lem : (c : ℕ) → pointer s.refs.owners j ≡ some c → Succeeds (assign i j s)
    unfolding assign
    assign_lem c h = elim (Bool-cases (i == j)) [
      | inl q ↦ (s, rw q refl, ok)
      | inr q ↦
          let (ms, e, shape, _, _) = try_deallocate_lem i s lt ok in
          let long = length-set s.views i null in
          let (s', e', ok') =
            copy_from_lem (clear i (record s { buffers = ms })) i j (omega (arith, lt, long))
              (omega (arith, lt', long)) ok.counts shape (entry-set_self null s.views i null lt) c
              (ground (arith, q)) h in
          (s', rw (q, e) e', ok')
    ]

module _ (s : Slices) (ok : IsValid s) (j : ℕ) (lt : j < length s.views) where
  still_bound : j < length (declare s).views
  still_bound = omega (arith, lt, length-append s.views (null ∷ []))

  pub construct_move_lem : Succeeds (construct_move j s)
  unfolding construct_move
  construct_move_lem =
      let (s₁, e, ok₁, views) = construct_lem s ok in
      let n = length s.views in
      let first : n < length s₁.views = omega (arith, new_bound s ok, ap length views) in
      let bare : view s₁.views n ≡ null = ap (λ vs. view vs n) views ∙ new-null s ok in
      let shape =
        subst (λ vs. IsShape s₁.buffers vs (set s₁.refs.owners n none))
          (ap (set s₁.views n) (sym bare) ∙ set_same null s₁.views n)
          (let_go s₁.buffers s₁.views s₁.refs.owners n first ok₁.shape
            (inl (ap (λ (x : View). x.base) bare))) in
      let (s', e', ok') =
        move_from_lem s₁ n j first (omega (arith, still_bound, ap length views)) ok₁.counts shape
          bare in
      (s', rw e e', ok')

  pub construct_copy_lem :
      (c : ℕ) → pointer s.refs.owners j ≡ some c → Succeeds (construct_copy j s)
  unfolding construct_copy
  construct_copy_lem c h =
      let n = length s.views in
      let at : length s.refs.owners ≡ n = sym ok.shape.same_length in
      let (t, e, counts, owners) = copy_new_ends s.refs ok.counts j c (omega (arith, lt, at)) h in
      let D = (RefCount.declare s.refs).owners in
      let owners' : t.owners ≡ set D n (pointer D j) =
        owners ∙ ap (λ k. set D k (pointer D j)) at in
      let none_yet : pointer D n ≡ none =
        ap (pointer D) (sym at) ∙ entry-snoc none s.refs.owners none in
      let back : D ≡ set t.owners n none =
        sym (ap (set D n) (sym none_yet) ∙ set_same none D n)
        ∙ sym (set-set D n (pointer D j) none)
        ∙ ap (λ ps. set ps n none) (sym owners') in
      let other : n ≢ j = λ same. omega (arith, same, lt) in
      let held : pointer t.owners j ≡ some c =
        ap (λ ps. pointer ps j) owners'
        ∙ entry-set_other none D n j (pointer D j) other
        ∙ entry-append none s.refs.owners (none ∷ []) j (omega (arith, lt, at))
        ∙ h in
      let (s', e', ok') =
        copy_from_lem (record (declare s) { refs = t }) n j (new_bound s ok) still_bound counts
          (subst (IsShape s.buffers (declare s).views) back (new_shape s ok)) (new-null s ok) c
          other held in
      (s', rw e e', ok')
