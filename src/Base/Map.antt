-- ===== src/Base/Map.antt =====
-- `std::map` with numbers for keys: the entries in the order of their keys.
use boltdb_cpp.Base.Tests.{ltb, ◌==◌, if◌then◌else◌}
use Prim.Native.Nat.{ℕ, suc, ◌≤◌, ◌<◌}
use mathlib.Core.Path.{◌≡◌, refl}
use mathlib.Core.Bool.{Bool, true, false}
use mathlib.Core.Option.{Option, none, some}
use mathlib.Core.List.{List, [], ◌∷◌}
use native.Mathlib.Omega.{arith}

abbrev pub Map {ℓ} : Type ℓ → Type ℓ
Map V = List (ℕ × V)

module _ {ℓ} {V : Type ℓ} where
  -- `find(k)`; `none` is `end()`.
  unfoldable pub find : ℕ → Map V → Option V
  find k [] = none
  find k ((j, v) ∷ m) = if j == k then some v else find k m

  -- `find(k) != end()`
  unfoldable pub contains : ℕ → Map V → Bool
  contains k [] = false
  contains k ((j, v) ∷ m) = if j == k then true else contains k m

  -- `m[k]` on the left: a missing entry is created in its place.
  unfoldable pub alter : ℕ → (Option V → V) → Map V → Map V
  alter k f [] = (k, f none) ∷ []
  alter k f ((j, v) ∷ m) =
      if j == k
      then (j, f (some v)) ∷ m
      else if ltb k j
      then (k, f none) ∷ (j, v) ∷ m
      else (j, v) ∷ alter k f m

  -- `m[k] = v`
  abbrev pub assign : ℕ → V → Map V → Map V
  assign k v = alter k (λ _. v)

  unfoldable pub erase : ℕ → Map V → Map V
  erase k [] = []
  erase k ((j, v) ∷ m) = if j == k then erase k m else (j, v) ∷ erase k m

  pub contains-assign :
      (p k : ℕ) (v : V) (m : Map V)
      → contains p (assign k v m) ≡ (if k == p then true else contains p m)
  unfolding contains alter
  contains-assign p k v [] = ground arith
  contains-assign p k v ((j, w) ∷ m) = ground (arith, contains-assign p k v m)

  pub contains-erase :
      (p k : ℕ) (m : Map V) → contains p (erase k m) ≡ (if k == p then false else contains p m)
  unfolding contains erase
  contains-erase p k [] = ground arith
  contains-erase p k ((j, w) ∷ m) = ground (arith, contains-erase p k m)

  -- The keys ascend strictly from `lo` on.
  abbrev pub KeysFrom : ℕ → Map V → Type 0
  KeysFrom lo [] = Unit {0}
  KeysFrom lo ((k, v) ∷ m) = (lo ≤ k) × KeysFrom (suc k) m

  pub find_below : (k lo : ℕ) (m : Map V) → KeysFrom lo m → k < lo → find k m ≡ none
  unfolding find
  find_below k lo [] a h = refl
  find_below k lo ((j, v) ∷ m) a h = ground (arith, find_below k (suc j) m a.1)

  pub alter-KeysFrom :
      (k lo : ℕ) (f : Option V → V) (m : Map V) → lo ≤ k → KeysFrom lo m → KeysFrom lo (alter k f m)
  unfolding alter
  alter-KeysFrom k lo f [] h a = (h, tt)
  alter-KeysFrom k lo f ((j, v) ∷ m) h a = ground (arith, alter-KeysFrom k (suc j) f m)

  pub KeysFrom-mono : (lo lo' : ℕ) (m : Map V) → lo' ≤ lo → KeysFrom lo m → KeysFrom lo' m
  KeysFrom-mono lo lo' [] h a = tt
  KeysFrom-mono lo lo' ((j, v) ∷ m) h a = (omega arith, a.1)

  pub erase-KeysFrom : (k lo : ℕ) (m : Map V) → KeysFrom lo m → KeysFrom lo (erase k m)
  unfolding erase
  erase-KeysFrom k lo [] a = tt
  erase-KeysFrom k lo ((j, v) ∷ m) a =
      ground (arith, erase-KeysFrom k (suc j) m, KeysFrom-mono (suc j) lo (erase k m))

  -- Only the one entry with the key goes.
  pub erase_below : (k lo : ℕ) (m : Map V) → KeysFrom lo m → k < lo → erase k m ≡ m
  unfolding erase
  erase_below k lo [] a h = refl
  erase_below k lo ((j, v) ∷ m) a h = ground (arith, erase_below k (suc j) m a.1)

  pub find-alter :
      (p k lo : ℕ) (f : Option V → V) (m : Map V)
      → KeysFrom lo m
      → find p (alter k f m) ≡ (if k == p then some (f (find k m)) else find p m)
  unfolding find alter
  find-alter p k lo f [] a = ground arith
  find-alter p k lo f ((j, v) ∷ m) a =
      ground (arith, find-alter p k (suc j) f m, find_below k (suc j) m)

  pub find-erase : (p k : ℕ) (m : Map V) → find p (erase k m) ≡ (if k == p then none else find p m)
  unfolding find erase
  find-erase p k [] = ground arith
  find-erase p k ((j, v) ∷ m) = ground (arith, find-erase p k m)
