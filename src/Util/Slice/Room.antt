-- ===== src/Util/Slice/Room.antt =====
-- The room that `append` of src/util/slice.cpp makes for a byte.
use Prim.Native.Nat.{max}
use boltdb_cpp.Base.{
  ℕ, ◌-◌, ◌*◌, ◌<◌, ◌≡◌, ◌≢◌, refl, sym, ap, subst, ◌∙◌, inl, inr, true, false, List, [], ◌∷◌,
  Option, none, some, ◌==◌, if◌then◌else◌, length, take, length-set, entry-set_self,
  entry-set_other, entry-append, entry-snoc, arith, Bool-cases,
}
use boltdb_cpp.Util.Slice.Buffers.{
  Cells, View, Slices, null, view, buffer, size, content, whole, grow,
}
use boltdb_cpp.Util.Slice.Release.{IsValid, Shrinks, buffer_bound}
use boltdb_cpp.Util.Slice.Growth.{content_lem, grow_lem, filled, length-filled, take-filled}
use boltdb_cpp.Util.Slice.Content.{content_at, content_cong}

-- The state in which `append` writes the byte: the slice shows what it showed and has room, in its old
-- buffer where that had room, else in a new one that no other slice has.
pub record IsPrepared (i : ℕ) (s : Slices) (bytes : Cells) (s' : Slices) : Type 0 where
  pub valid : IsValid s'
  pub same_number : length s'.views ≡ length s.views
  pub place : ℕ
  pub cells : Cells
  pub based : (view s'.views i).base ≡ some place
  pub alive : buffer s'.buffers place ≡ some cells
  pub room : (view s'.views i).tail < (view s'.views i).cap
  pub shows : content (view s'.views i) s'.buffers ≡ some bytes
  pub in_place : (view s.views i).tail < (view s.views i).cap → s' ≡ s
  pub others :
      (k : ℕ)
      → i ≢ k
      → (view s'.views k ≡ view s.views k)
        × (content (view s.views k) s'.buffers ≡ content (view s.views k) s.buffers)
        × ((view s.views i).tail ≡ (view s.views i).cap → (view s.views k).base ≢ some place)

abbrev pub prepare : ℕ → Slices → Option Slices
prepare i s =
    if (view s.views i).tail == (view s.views i).cap
    then grow i (max 1 ((view s.views i).cap * 2)) s
    else some s

abbrev Prepares : ℕ → Slices → Cells → Type 0
Prepares i s bytes = (s' : Slices) × (prepare i s ≡ some s') × IsPrepared i s bytes s'

module _ (i : ℕ) (s : Slices) (bytes : Cells) (lt : i < length s.views) (ok : IsValid s)
    (before : content (view s.views i) s.buffers ≡ some bytes) where
  room_lem : (view s.views i).tail ≢ (view s.views i).cap → Prepares i s bytes
  room_lem ne = elim (ok.shape.fits i) [
    | inl gone ↦ absurd (ne (ap (λ (x : View). x.tail) gone ∙ sym (ap (λ (x : View). x.cap) gone)))
    | inr (b, xs, p, q, long, low, high) ↦
        let not_full : ((view s.views i).tail == (view s.views i).cap) ≡ false =
          ground (arith, ne) in
        (
          s,
          rw not_full refl,
          record {
            valid = ok;
            same_number = refl;
            place = b;
            cells = xs;
            based = p;
            alive = q;
            room = omega (arith, ne, high);
            shows = before;
            in_place = λ h. refl;
            others = λ k off. (refl, refl, λ e. absurd (ne e));
          },
        )
  ]

  -- A buffer of another slice is older than the one that `grow` makes.
  older :
      (k b : ℕ)
      → (view s.views k).base ≡ some b
      → (cells : Cells) × (buffer s.buffers b ≡ some cells)
  older k b e = elim (ok.shape.fits k) [
    | inl gone ↦ absurd (cc (ap (λ (x : View). x.base) gone, e))
    | inr (d, xs, p, q, _, _, _) ↦
        let same : d ≡ b = cc (p, e) in (xs, subst (λ j. buffer s.buffers j ≡ some xs) same q)
  ]

  full_lem : (view s.views i).tail ≡ (view s.views i).cap → Prepares i s bytes
  full_lem e =
      let w = view s.views i in
      let n = max 1 (w.cap * 2) in
      let full : (w.tail == w.cap) ≡ true = ground (arith, e) in
      let (s', run, ok', views, (ms, buffers, len, shrinks)) =
        grow_lem i n s bytes lt ok before (omega (arith, e)) in
      let (xs, e₁, sz) = content_lem s.buffers w (ok.shape.fits i) in
      let bytes' : xs ≡ bytes = cc (e₁, before) in
      let sz' : size w ≡ length bytes = sym sz ∙ ap length bytes' in
      let whole_size : size w - 0 ≡ length bytes = omega (arith, sz') in
      let here : view s'.views i ≡ whole (length s.buffers) (size w) n =
        ap (λ vs. view vs i) views
        ∙ entry-set_self null s.views i (whole (length s.buffers) (size w) n) lt in
      let new : buffer s'.buffers (length s.buffers) ≡ some (filled bytes n) =
        subst (λ b. buffer s'.buffers b ≡ some (filled bytes n)) len
          (ap (λ xs. buffer xs (length ms)) buffers ∙ entry-snoc none ms (some (filled bytes n))) in
      (
        s',
        rw full run,
        record {
          valid = ok';
          same_number =
              ap length views ∙ length-set s.views i (whole (length s.buffers) (size w) n);
          place = length s.buffers;
          cells = filled bytes n;
          based = ap (λ (x : View). x.base) here;
          alive = new;
          room = subst (λ (x : View). x.tail < x.cap) (sym here) (omega (arith, e));
          shows =
              ap (λ x. content x s'.buffers) here
              ∙ content_at (whole (length s.buffers) (size w) n) s'.buffers (length s.buffers)
                  (filled bytes n) refl new
                  (omega (arith, length-filled bytes n (omega (arith, sz', e)), e))
              ∙ ap some (ap (λ k. take k (filled bytes n)) whole_size ∙ take-filled bytes n);
          in_place = λ h. absurd (omega (arith, e, h));
          others = λ k off.
              let there : view s'.views k ≡ view s.views k =
                ap (λ vs. view vs k) views
                ∙ entry-set_other null s.views i k (whole (length s.buffers) (size w) n) off in
              (
                there,
                content_cong (view s.views k) s.buffers s'.buffers (λ b p.
                    let (ys, q) = older k b p in
                    let inside : b < length ms =
                      omega (arith, len, buffer_bound s.buffers b ys q) in
                    kept ms s' k b ys ok' there p q
                      (ap (λ xs. buffer xs b) buffers
                        ∙ entry-append none ms (some (filled bytes n) ∷ []) b inside)
                      shrinks),
                λ _ p.
                    let (ys, q) = older k (length s.buffers) p in
                    omega (arith, buffer_bound s.buffers (length s.buffers) ys q),
              );
        },
      )
    where
      kept :
          (ms : List (Option Cells)) (s' : Slices) (k b : ℕ) (ys : Cells)
          → IsValid s'
          → view s'.views k ≡ view s.views k
          → (view s.views k).base ≡ some b
          → buffer s.buffers b ≡ some ys
          → buffer s'.buffers b ≡ buffer ms b
          → Shrinks s.buffers ms
          → buffer s'.buffers b ≡ buffer s.buffers b
      kept ms s' k b ys ok' there p q step shrinks = elim (ok'.shape.fits k) [
        | inl gone ↦ absurd (cc (ap (λ (x : View). x.base) (sym there ∙ gone), p))
        | inr (d, xs, p', q', _, _, _) ↦
            let base' = ap (λ (x : View). x.base) there in
            let same : d ≡ b = cc (p', base', p) in
            let q'' : buffer s'.buffers b ≡ some xs =
              subst (λ j. buffer s'.buffers j ≡ some xs) same q' in
            q'' ∙ sym (shrinks b xs (sym step ∙ q''))
      ]

  pub prepare_lem : Prepares i s bytes
  prepare_lem = elim (Bool-cases ((view s.views i).tail == (view s.views i).cap)) [
    | inl q ↦ full_lem (ground (arith, q))
    | inr q ↦ room_lem (ground (arith, q))
  ]
