-- ===== src/Node/Spill/Freed.antt =====
-- After the loop at the end of `Node::spill` (src/page/node.cpp) the pages of the nodes wait for the transaction.
use boltdb_cpp.Base.{
  ℕ, ◌+◌, ◌≤◌, ◌<◌, ◌≡◌, ◌≢◌, refl, sym, ap, subst, ◌∙◌, ◌⊎◌, inl, inr, true, false, List, [], ◌∷◌,
  Option, some, ◌>>=◌, ◌==◌, get_elem?, set, get-set_self, get-set_other, All, All-map, arith,
  Bool-cases,
}
use boltdb_cpp.FreeList.{FreeList, Result, returns, throws, already_freed, u64_mod, is_pending}
use boltdb_cpp.FreeList.Pages.{IsValid}
use boltdb_cpp.FreeList.Free.{free_cases, free_run}
use boltdb_cpp.FreeList.Outcomes.{ids-free_run}
use boltdb_cpp.FreeList.Effects.{is_pending-free_run}
use boltdb_cpp.FreeList.History.{free-IsValid}
use boltdb_cpp.Page.{Page}
use boltdb_cpp.Node.{Node}
use boltdb_cpp.Node.Spill.{free, free_pages}
use boltdb_cpp.Transaction.Txn
use boltdb_cpp.Transaction.Txn.{Txn}

-- The transaction has the page, which is not a meta page, and its ids fit.
abbrev pub Freeable : {D : Type 0} → Txn D → ℕ → Type 0
Freeable txn pgid =
    (p : Page) × (Txn.page pgid txn ≡ some p)
    × (p.pgid ≡ pgid)
    × (2 ≤ pgid)
    × (pgid + p.overflow + 1 < u64_mod)

-- The free ids are the same, and what is pending for any transaction stays so.
abbrev pub Keeps : FreeList → FreeList → Type 0
Keeps f g = (g.ids ≡ f.ids) × ((t p : ℕ) → is_pending t p f ≡ true → is_pending t p g ≡ true)

run-Keeps : (txid k i : ℕ) (f : FreeList) → IsValid f → Keeps f (free_run k txid i f)
run-Keeps txid k i f v =
    (ids-free_run k txid i f, λ t p h. ground (arith, h, is_pending-free_run t p k txid i f v.keys))

Keeps-trans : (f g h : FreeList) → Keeps f g → Keeps g h → Keeps f h
Keeps-trans f g h (ids, pend) (ids', pend') = (ids' ∙ ids, λ t p q. pend' t p (pend t p q))

-- `free` ends; what was pending stays so, and unless it throws the page is.
abbrev pub Frees : ℕ → ℕ → FreeList → Option (Result (Unit {0}) × FreeList) → Type 0
Frees txid pgid f o =
    (r : Result (Unit {0})) × (g : FreeList) × (o ≡ some (r, g))
    × IsValid g
    × Keeps f g
    × (r ≡ returns tt → is_pending txid pgid g ≡ true)

free-Frees :
    {D : Type 0} (txid pgid : ℕ) (txn : Txn D) (f : FreeList)
    → IsValid f
    → Freeable txn pgid
    → Frees txid pgid f (free txid txn pgid f)
unfolding free
free-Frees txid pgid txn f v (p, found, id, lo, hi) =
    elim (free_cases txid pgid p.overflow f lo hi) [
      | inl (used, e) ↦
          let g = free_run (p.overflow + 1) txid pgid f in
          (
            returns tt,
            g,
            rw found (rw id e),
            free-IsValid txid pgid p.overflow f g (returns tt) hi e v,
            run-Keeps txid (p.overflow + 1) pgid f v,
            λ _. ground (arith, is_pending-free_run txid pgid (p.overflow + 1) txid pgid f v.keys),
          )
      | inr (k, lt, used, hit, e) ↦
          let g = free_run k txid pgid f in
          (
            throws (already_freed (pgid + k)),
            g,
            rw found (rw id e),
            free-IsValid txid pgid p.overflow f g (throws (already_freed (pgid + k))) hi e v,
            run-Keeps txid k pgid f v,
            λ q. absurd (cc (q)),
          )
    ]

module _ {D : Type 0} (txid : ℕ) (txn : Txn D) where
  -- The node exists, and its page is new or can be freed.
  abbrev pub Ready : List Node → ℕ → Type 0
  Ready nodes r = (n : Node) × (get_elem? nodes r ≡ some n) × ((n.pgid ≡ 0) ⊎ Freeable txn n.pgid)

  abbrev pub Zeroed : List Node → ℕ → Type 0
  Zeroed nodes r = (m : Node) × (get_elem? nodes r ≡ some m) × (m.pgid ≡ 0)

  -- The node has no page any more, and the one that it had waits for the transaction.
  abbrev pub Released : List Node → List Node → FreeList → ℕ → Type 0
  Released nodes nodes' g r =
      (n : Node)
      → get_elem? nodes r ≡ some n
      → Zeroed nodes' r × (n.pgid ≢ 0 → is_pending txid n.pgid g ≡ true)

  abbrev pub Outcome :
      List ℕ → List Node → FreeList → Option (Result (Unit {0}) × List Node × FreeList) → Type 0
  Outcome refs nodes f o =
      (res : Result (Unit {0})) × (nodes' : List Node) × (g : FreeList) × (o
        ≡ some (res, nodes', g))
      × IsValid g
      × Keeps f g
      × ((r : ℕ) → Zeroed nodes r → Zeroed nodes' r)
      × (res ≡ returns tt → All (Released nodes nodes' g) refs)

  -- The state after the page of the node `r₀` was freed.
  module _ (r₀ : ℕ) (n₀ : Node) (nodes : List Node) (here : get_elem? nodes r₀ ≡ some n₀) where
    abbrev cleared : Node
    cleared = record n₀ { pgid = 0 }

    cleared_at : (r : ℕ) → r₀ ≡ r → get_elem? (set nodes r₀ cleared) r ≡ some cleared
    cleared_at r same =
        subst (λ k. get_elem? (set nodes r₀ cleared) k ≡ some cleared) same
          (get-set_self nodes r₀ n₀ cleared here)

    Zeroed-kept : (r : ℕ) → Zeroed nodes r → Zeroed (set nodes r₀ cleared) r
    Zeroed-kept r (m, e, z) = elim (Bool-cases (r₀ == r)) [
      | inl q ↦ let same : r₀ ≡ r = ground (arith, q) in (cleared, cleared_at r same, refl)
      | inr q ↦ (m, get-set_other nodes r₀ r cleared (ground (arith, q)) ∙ e, z)
    ]

    Ready-kept : (r : ℕ) → Ready nodes r → Ready (set nodes r₀ cleared) r
    Ready-kept r (m, e, z) = elim (Bool-cases (r₀ == r)) [
      | inl q ↦ let same : r₀ ≡ r = ground (arith, q) in (cleared, cleared_at r same, inl refl)
      | inr q ↦ (m, get-set_other nodes r₀ r cleared (ground (arith, q)) ∙ e, z)
    ]

    Released-back :
        (nodes' : List Node) (g : FreeList)
        → is_pending txid n₀.pgid g ≡ true
        → (r : ℕ) → Released (set nodes r₀ cleared) nodes' g r
        → Released nodes nodes' g r
    Released-back nodes' g pending r h n e = elim (Bool-cases (r₀ == r)) [
      | inl q ↦
          let same : r₀ ≡ r = ground (arith, q) in
          let at = cleared_at r same in
          let here' : get_elem? nodes r ≡ some n₀ =
            subst (λ k. get_elem? nodes k ≡ some n₀) same here in
          let eq : n₀ ≡ n = cc (here', e) in
          ((h cleared at).0, λ _. subst (λ (m : Node). is_pending txid m.pgid g ≡ true) eq pending)
      | inr q ↦ h n (get-set_other nodes r₀ r cleared (ground (arith, q)) ∙ e)
    ]

  -- A round that frees a page, and those behind it.
  abbrev round :
      ℕ → Node → List Node → List ℕ → FreeList → Option (Result (Unit {0}) × List Node × FreeList)
  round r₀ n₀ nodes refs f = free txid txn n₀.pgid f >>= λ o. elim o.0 [
    | throws e ↦ some (throws e, nodes, o.1)
    | returns _ ↦ free_pages txid txn refs (set nodes r₀ (record n₀ { pgid = 0 })) o.1
  ]

  round_lem :
      (r₀ : ℕ) (n₀ : Node) (nodes : List Node) (refs : List ℕ) (f : FreeList)
      → get_elem? nodes r₀ ≡ some n₀
      → (n₀.pgid == 0) ≡ false
      → free_pages txid txn (r₀ ∷ refs) nodes f ≡ round r₀ n₀ nodes refs f
  unfolding free_pages
  round_lem r₀ n₀ nodes refs f here used = rw here (rw used refl)

  -- One round whose page is freed, before the rounds of the other nodes.
  freed_step :
      (r₀ : ℕ) (n₀ : Node) (nodes : List Node)
      → (here : get_elem? nodes r₀ ≡ some n₀) → (refs : List ℕ) (f : FreeList)
      → All (Ready nodes) refs
      → Frees txid n₀.pgid f (free txid txn n₀.pgid f)
      → ((ns : List Node) (g : FreeList)
          → IsValid g
          → All (Ready ns) refs
          → Outcome refs ns g (free_pages txid txn refs ns g))
      → Outcome (r₀ ∷ refs) nodes f (round r₀ n₀ nodes refs f)
  freed_step r₀ n₀ nodes here refs f ready (throws x, f₁, run, v₁, keeps₁, pend) rec =
      rw run (throws x, nodes, f₁, refl, v₁, keeps₁, (λ r z. z), λ q. absurd (cc (q)))
  freed_step r₀ n₀ nodes here refs f ready (returns u, f₁, run, v₁, keeps₁, pend) rec =
      let nodes₁ = set nodes r₀ (cleared r₀ n₀ nodes here) in
      let ready₁ = All-map (Ready nodes) (Ready nodes₁) refs (Ready-kept r₀ n₀ nodes here) ready in
      let (res, nodes', g, e, v', keeps, stays, done) = rec nodes₁ f₁ v₁ ready₁ in
      let pending = keeps.1 txid n₀.pgid (pend refl) in
      let at = cleared_at r₀ n₀ nodes here r₀ refl in
      rw run (
        res,
        nodes',
        g,
        e,
        v',
        Keeps-trans f f₁ g keeps₁ keeps,
        (λ r z. stays r (Zeroed-kept r₀ n₀ nodes here r z)),
        λ q. (
          Released-back r₀ n₀ nodes here nodes' g pending r₀ (λ n h.
              (stays r₀ (cleared r₀ n₀ nodes here, at, refl), λ old. absurd (old (gone n at h)))),
          All-map (Released nodes₁ nodes' g) (Released nodes nodes' g) refs
              (Released-back r₀ n₀ nodes here nodes' g pending) (done q),
        ),
      )
    where
      gone :
          (n : Node)
          → get_elem? (set nodes r₀ (cleared r₀ n₀ nodes here)) r₀ ≡ some (cleared r₀ n₀ nodes here)
          → get_elem? (set nodes r₀ (cleared r₀ n₀ nodes here)) r₀ ≡ some n
          → n.pgid ≡ 0
      gone n at h =
          let eq : cleared r₀ n₀ nodes here ≡ n = cc (at, h) in ap (λ (m : Node). m.pgid) (sym eq)

  -- The loop ends, whatever `free` reports, on nodes that exist, whose pages are new or can be freed; the
  -- free list stays valid and keeps its free ids and what is pending for any transaction. If no exception ends it, the nodes have no page any
  -- more, and the pages that they had are pending for the transaction.
  pub free_pages_lem :
      (refs : List ℕ) (nodes : List Node) (f : FreeList)
      → IsValid f
      → All (Ready nodes) refs
      → Outcome refs nodes f (free_pages txid txn refs nodes f)
  unfolding free_pages
  free_pages_lem [] nodes f v ready =
      (returns tt, nodes, f, refl, v, (refl, λ t p h. h), (λ r z. z), λ _. tt)
  free_pages_lem (r₀ ∷ refs) nodes f v ((n₀, here, inl new), ready) =
      let (res, nodes', g, e, v', keeps, stays, done) = free_pages_lem refs nodes f v ready in
      let zero' : (n₀.pgid == 0) ≡ true = ground (arith, new) in
      (
        res,
        nodes',
        g,
        rw here (rw zero' e),
        v',
        keeps,
        stays,
        λ q. (λ n h. (stays r₀ (n₀, here, new), λ old. absurd (old (same_pgid n h))), done q),
      )
    where
      same_pgid : (n : Node) → get_elem? nodes r₀ ≡ some n → n.pgid ≡ 0
      same_pgid n h = let eq : n₀ ≡ n = cc (here, h) in ap (λ (m : Node). m.pgid) (sym eq) ∙ new
  free_pages_lem (r₀ ∷ refs) nodes f v ((n₀, here, inr freeable), ready) =
      let used : (n₀.pgid == 0) ≡ false = ground (arith, freeable.3) in
      subst (Outcome (r₀ ∷ refs) nodes f) (sym (round_lem r₀ n₀ nodes refs f here used)) (
        freed_step r₀ n₀ nodes here refs f ready (free-Frees txid n₀.pgid txn f v freeable)
          (λ ns g. free_pages_lem refs ns g))
