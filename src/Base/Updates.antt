-- ===== src/Base/Updates.antt =====
-- Lists after a write at an index.
use Prim.Native.Nat.{ℕ, zero, suc, ◌+◌, ◌≤◌, ◌<◌}
use mathlib.Core.Path.{◌≡◌, refl, ap, ◌∙◌}
use mathlib.Core.Logic.{◌≢◌, ◌⊎◌, inl, inr}
use mathlib.Core.List.{List, [], ◌∷◌, ◌++◌}
use native.Mathlib.Omega.{arith}
use mathlib.Core.Option.{some}
use boltdb_cpp.Base.Lists.{length, All, entry, get_elem?, set, take, drop}

module _ {ℓ} {A : Type ℓ} where
  pub entry-set_self :
      (d : A) (xs : List A) (i : ℕ) (v : A) → i < length xs → entry d (set xs i v) i ≡ v
  entry-set_self d [] i v h = absurd (omega arith)
  entry-set_self d (x ∷ xs) zero v h = refl
  entry-set_self d (x ∷ xs) (suc i) v h = entry-set_self d xs i v (omega arith)

  pub entry-set_other :
      (d : A) (xs : List A) (i k : ℕ) (v : A) → i ≢ k → entry d (set xs i v) k ≡ entry d xs k
  entry-set_other d [] i k v h = refl
  entry-set_other d (x ∷ xs) zero zero v h = absurd (h refl)
  entry-set_other d (x ∷ xs) zero (suc k) v h = refl
  entry-set_other d (x ∷ xs) (suc i) zero v h = refl
  entry-set_other d (x ∷ xs) (suc i) (suc k) v h = entry-set_other d xs i k v (λ e. h (ap suc e))

  pub set-set : (xs : List A) (i : ℕ) (v w : A) → set (set xs i v) i w ≡ set xs i w
  set-set [] i v w = refl
  set-set (x ∷ xs) zero v w = refl
  set-set (x ∷ xs) (suc i) v w = ap (λ ys. x ∷ ys) (set-set xs i v w)

  pub entry-append :
      (d : A) (xs ys : List A) (i : ℕ) → i < length xs → entry d (xs ++ ys) i ≡ entry d xs i
  entry-append d [] ys i h = absurd (omega arith)
  entry-append d (x ∷ xs) ys zero h = refl
  entry-append d (x ∷ xs) ys (suc i) h = entry-append d xs ys i (omega arith)

  pub entry-snoc : (d : A) (xs : List A) (v : A) → entry d (xs ++ (v ∷ [])) (length xs) ≡ v
  entry-snoc d [] v = refl
  entry-snoc d (x ∷ xs) v = entry-snoc d xs v

  pub entry_beyond : (d : A) (xs : List A) (i : ℕ) → length xs ≤ i → entry d xs i ≡ d
  entry_beyond d [] i h = refl
  entry_beyond d (x ∷ xs) zero h = absurd (omega arith)
  entry_beyond d (x ∷ xs) (suc i) h = entry_beyond d xs i (omega arith)

  pub entry-set :
      (d : A) (xs : List A) (i k : ℕ) (v : A)
      → i < length xs
      → ((i ≡ k) × (entry d (set xs i v) k ≡ v))
        ⊎ ((i ≢ k) × (entry d (set xs i v) k ≡ entry d xs k))
  entry-set d [] i k v h = absurd (omega arith)
  entry-set d (x ∷ xs) zero zero v h = inl (refl, refl)
  entry-set d (x ∷ xs) zero (suc k) v h = inr ((λ e. omega (arith, e)), refl)
  entry-set d (x ∷ xs) (suc i) zero v h = inr ((λ e. omega (arith, e)), refl)
  entry-set d (x ∷ xs) (suc i) (suc k) v h = elim (entry-set d xs i k v (omega arith)) [
    | inl (e, q) ↦ inl (ap suc e, q)
    | inr (ne, q) ↦ inr ((λ e. ne (omega (arith, e))), q)
  ]

  pub set_same : (d : A) (xs : List A) (i : ℕ) → set xs i (entry d xs i) ≡ xs
  set_same d [] i = refl
  set_same d (x ∷ xs) zero = refl
  set_same d (x ∷ xs) (suc i) = ap (λ ys. x ∷ ys) (set_same d xs i)

  pub entry_append_cases :
      (d : A) (xs : List A) (v : A) (i : ℕ)
      → ((i < length xs) × (entry d (xs ++ (v ∷ [])) i ≡ entry d xs i))
        ⊎ ((i ≡ length xs) × (entry d (xs ++ (v ∷ [])) i ≡ v))
        ⊎ (entry d (xs ++ (v ∷ [])) i ≡ d)
  entry_append_cases d [] v zero = inr (inl (refl, refl))
  entry_append_cases d [] v (suc i) = inr (inr refl)
  entry_append_cases d (x ∷ xs) v zero = inl (omega arith, refl)
  entry_append_cases d (x ∷ xs) v (suc i) = elim (entry_append_cases d xs v i) [
    | inl (lt, e) ↦ inl (omega (arith, lt), e)
    | inr (inl (same, e)) ↦ inr (inl (ap suc same, e))
    | inr (inr e) ↦ inr (inr e)
  ]

  pub take-set_end :
      (h n at : ℕ) (x : A) (cells : List A)
      → at ≡ h + n
      → at < length cells
      → take (n + 1) (drop h (set cells at x)) ≡ take n (drop h cells) ++ (x ∷ [])
  take-set_end h n at x [] e lt = absurd (omega arith)
  take-set_end zero zero zero x (c ∷ cells) e lt = refl
  take-set_end zero zero (suc at) x (c ∷ cells) e lt = absurd (omega arith)
  take-set_end zero (suc n) zero x (c ∷ cells) e lt = absurd (omega arith)
  take-set_end zero (suc n) (suc at) x (c ∷ cells) e lt =
      let one_more : suc n + 1 ≡ suc (n + 1) = omega arith in
      ap (λ k. take k (c ∷ set cells at x)) one_more
      ∙ ap (◌∷◌ c) (take-set_end zero n at x cells (omega arith) (omega arith))
  take-set_end (suc h) n zero x (c ∷ cells) e lt = absurd (omega arith)
  take-set_end (suc h) n (suc at) x (c ∷ cells) e lt =
      take-set_end h n at x cells (omega arith) (omega arith)

  pub take-set :
      (n at : ℕ) (x : A) (cells : List A) → take n (set cells at x) ≡ set (take n cells) at x
  take-set zero at x cells = refl
  take-set (suc n) at x [] = refl
  take-set (suc n) zero x (c ∷ cells) = refl
  take-set (suc n) (suc at) x (c ∷ cells) = ap (◌∷◌ c) (take-set n at x cells)

  pub drop-set_low :
      (h at : ℕ) (x : A) (cells : List A) → at < h → drop h (set cells at x) ≡ drop h cells
  drop-set_low zero at x cells lt = absurd (omega arith)
  drop-set_low (suc h) at x [] lt = refl
  drop-set_low (suc h) zero x (c ∷ cells) lt = refl
  drop-set_low (suc h) (suc at) x (c ∷ cells) lt = drop-set_low h at x cells (omega arith)

  pub drop-set_high :
      (h k at : ℕ) (x : A) (cells : List A)
      → at ≡ h + k
      → drop h (set cells at x) ≡ set (drop h cells) k x
  drop-set_high zero k at x cells e =
      let same : at ≡ k = omega (arith, e) in ap (λ j. set cells j x) same
  drop-set_high (suc h) k at x [] e = refl
  drop-set_high (suc h) k zero x (c ∷ cells) e = absurd (omega arith)
  drop-set_high (suc h) k (suc at) x (c ∷ cells) e = drop-set_high h k at x cells (omega arith)

  -- A default at the end is not seen.
  pub entry-append_default :
      (d : A) (xs : List A) (i : ℕ) → entry d (xs ++ (d ∷ [])) i ≡ entry d xs i
  entry-append_default d [] zero = refl
  entry-append_default d [] (suc i) = refl
  entry-append_default d (x ∷ xs) zero = refl
  entry-append_default d (x ∷ xs) (suc i) = entry-append_default d xs i

  pub get-append :
      (xs ys : List A) (i : ℕ) (x : A) → get_elem? xs i ≡ some x → get_elem? (xs ++ ys) i ≡ some x
  get-append [] ys i x e = absurd (cc (e))
  get-append (y ∷ xs) ys zero x e = e
  get-append (y ∷ xs) ys (suc i) x e = get-append xs ys i x e

  pub get-set_self :
      (xs : List A) (i : ℕ) (x v : A) → get_elem? xs i ≡ some x → get_elem? (set xs i v) i ≡ some v
  get-set_self [] i x v e = absurd (cc (e))
  get-set_self (y ∷ xs) zero x v e = refl
  get-set_self (y ∷ xs) (suc i) x v e = get-set_self xs i x v e

  pub get-set_other :
      (xs : List A) (i k : ℕ) (v : A) → i ≢ k → get_elem? (set xs i v) k ≡ get_elem? xs k
  get-set_other [] i k v h = refl
  get-set_other (x ∷ xs) zero zero v h = absurd (h refl)
  get-set_other (x ∷ xs) zero (suc k) v h = refl
  get-set_other (x ∷ xs) (suc i) zero v h = refl
  get-set_other (x ∷ xs) (suc i) (suc k) v h = get-set_other xs i k v (λ e. h (ap suc e))

  pub All-map {κ μ} :
      (P : A → Type κ) (Q : A → Type μ) (xs : List A) → ((x : A) → P x → Q x) → All P xs → All Q xs
  All-map P Q [] f h = tt
  All-map P Q (x ∷ xs) f (p, h) = (f x p, All-map P Q xs f h)
