-- ===== src/FreeList/Blocks.antt =====
-- The scan of `FreeList::allocate_contiguous` (src/page/freelist.cpp): it finds a block of
-- consecutive ids exactly when the vector holds one.
use boltdb_cpp.Base.{
  ℕ, zero, suc, ◌+◌, ◌-◌, ◌%◌, ◌≤◌, ◌<◌, ◌≡◌, ◌≢◌, ◌↔◌, refl, sym, ap, ◌∙◌, ◌⊎◌, inl, inr, true,
  false, List, [], ◌∷◌, ◌++◌, Option, none, some, arith, leb, ◌==◌, if◌then◌else◌, Bool-cases,
  length, All, append_assoc,
}
use boltdb_cpp.FreeList.{Result, returns, u64_mod, find_block, head_or}
use boltdb_cpp.FreeList.Pages.{IsPage}

-- The numbers `x`, `x + 1`, … of a block of `n` pages.
abbrev pub run : ℕ → ℕ → List ℕ
run zero x = []
run (suc n) x = x ∷ run n (x + 1)

pub length-run : (n x : ℕ) → length (run n x) ≡ n
length-run zero x = refl
length-run (suc n) x = ap suc (length-run n (x + 1))

run-snoc : (k s id : ℕ) → s + k ≡ id → run k s ++ (id ∷ []) ≡ run (suc k) s
run-snoc zero s id e = ground arith
run-snoc (suc k) s id e = ground (arith, run-snoc k (s + 1) id)

run-append :
    (k s id : ℕ) (rest : List ℕ) → s + k ≡ id → run k s ++ (id ∷ rest) ≡ run (suc k) s ++ rest
run-append k s id rest e =
    sym (append_assoc (run k s) (id ∷ []) rest) ∙ ap (λ (l : List ℕ). l ++ rest) (run-snoc k s id e)

run-cong : (m n s : ℕ) (rest : List ℕ) → m ≡ n → run m s ++ rest ≡ run n s ++ rest
run-cong m n s rest e = ap (λ (k : ℕ). run k s ++ rest) e

-- No block of `n` starts in `rest`, nor one that goes on from a block of `k` that ends at `prev`.
abbrev pub NoBlock : ℕ → ℕ → ℕ → List ℕ → Type 0
NoBlock n k prev rest =
    ((a b : List ℕ) (x : ℕ) → rest ≢ a ++ (run n x ++ b))
    × ((j : ℕ) (b : List ℕ) → n ≤ k + j → rest ≢ run j (prev + 1) ++ b)

abbrev pub BlockOutcome : ℕ → ℕ → ℕ → List ℕ → List ℕ → Result (Option (ℕ × List ℕ)) → Type 0
BlockOutcome n k prev rest total r =
    ((x : ℕ) × (a : List ℕ) × (b : List ℕ) × IsPage x
      × (total ≡ a ++ (run n x ++ b))
      × (r ≡ returns (some (x, a ++ b))))
    ⊎ (NoBlock n k prev rest × (r ≡ returns none))

NoBlock-nil : (n k prev : ℕ) → k < n → NoBlock n k prev []
NoBlock-nil n k prev lt = (λ a b x e. first a b x n lt e, λ j b h e. second j b h e)
  where
    first : (a b : List ℕ) (x m : ℕ) → k < m → [] ≢ a ++ (run m x ++ b)
    first [] b x zero lt e = absurd (omega arith)
    first [] b x (suc m) lt e = cc
    first (y ∷ a) b x m lt e = cc

    second : (j : ℕ) (b : List ℕ) → n ≤ k + j → [] ≢ run j (prev + 1) ++ b
    second zero b h e = absurd (omega arith)
    second (suc j) b h e = cc

NoBlock-cons :
    (n k k' prev id : ℕ) (rest : List ℕ)
    → k < n
    → 0 < k'
    → (id ≡ prev + 1 → k' ≡ k + 1)
    → NoBlock n k' id rest
    → NoBlock n k prev (id ∷ rest)
NoBlock-cons n k k' prev id rest lt pos joined h = (first n lt (λ j b le. h.1 j b le) h.0, second)
  where
    first :
        (m : ℕ)
        → k < m
        → ((j : ℕ) (b : List ℕ) → m ≤ k' + j → rest ≢ run j (id + 1) ++ b)
        → ((a b : List ℕ) (x : ℕ) → rest ≢ a ++ (run m x ++ b))
        → (a b : List ℕ) (x : ℕ) → id ∷ rest ≢ a ++ (run m x ++ b)
    first zero lt inside later [] b x e = absurd (omega arith)
    first (suc m) lt inside later [] b x e = inside m b (omega arith) (ground (arith, e))
    first m lt inside later (y ∷ a) b x e = later a b x (ground (arith, e))

    second : (j : ℕ) (b : List ℕ) → n ≤ k + j → id ∷ rest ≢ run j (prev + 1) ++ b
    second zero b le e = absurd (omega arith)
    second (suc j) b le e = h.1 j b (ground (arith, joined, e)) (ground (arith, e))

-- What the loop does with an id, given the block that the id joins or starts.
abbrev visit :
    ℕ → ℕ → List ℕ → List ℕ → List ℕ → Result (Option (ℕ × List ℕ)) → Result (Option (ℕ × List ℕ))
visit n id before block rest more =
    if length block + 1 == n then returns (some (head_or id block, before ++ rest)) else more

head_or-run : (k s id : ℕ) → s + k ≡ id → head_or id (run k s) ≡ s
head_or-run zero s id e = omega arith
head_or-run (suc k) s id e = refl

visit_outcome :
    (n k k₀ s id prev : ℕ) (before rest total : List ℕ) (more : Result (Option (ℕ × List ℕ)))
    → k < n
    → k₀ < n
    → s + k ≡ id
    → IsPage s
    → (id ≡ prev + 1 → k ≡ k₀)
    → total ≡ before ++ (run k s ++ (id ∷ rest))
    → (suc k < n → BlockOutcome n (suc k) id rest total more)
    → BlockOutcome n k₀ prev (id ∷ rest) total (visit n id before (run k s) rest more)
visit_outcome n k k₀ s id prev before rest total more lt lt₀ e page joined t next =
    elim (Bool-cases (length (run k s) + 1 == n)) [
      | inl full ↦ inl (
        s,
        before,
        rest,
        page,
        t
            ∙ ap (◌++◌ before) (
                run-append k s id rest e
                ∙ run-cong (suc k) n s rest (ground (arith, full, length-run k s))),
        rw full (ground (arith, head_or-run k s id e)),
      )
      | inr short ↦
          let shorter : suc k < n = ground (arith, short, length-run k s) in
          rw short (elim (next shorter) [
            | inl found ↦ inl found
            | inr (h, r) ↦ inr (
              NoBlock-cons n k₀ (suc k) prev id rest lt₀ (omega arith)
                  (λ q. omega (arith, joined q)) h,
              r,
            )
          ])
    ]

joined_iff :
    (id prev : ℕ)
    → IsPage id
    → prev < u64_mod
    → (((id + u64_mod - prev) % u64_mod == 1) ≡ true) ↔ (id ≡ prev + 1)
joined_iff id prev page h = ground arith

-- The loop over `rest` from a block of `k` ids that starts at `s` and ends at `prev`.
abbrev Scans : List ℕ → Type 0
Scans rest =
    (n k s prev : ℕ) (before total : List ℕ)
    → k < n
    → prev < u64_mod
    → (0 < k → (s + k ≡ prev + 1) × IsPage s)
    → All IsPage rest
    → total ≡ before ++ (run k s ++ rest)
    → BlockOutcome n k prev rest total (find_block n before (run k s) prev rest)

start_block :
    (n k s id prev : ℕ) (before rest total : List ℕ)
    → Scans rest
    → k < n
    → IsPage id
    → All IsPage rest
    → total ≡ before ++ (run k s ++ (id ∷ rest))
    → (id ≡ prev + 1 → 0 ≡ k)
    → BlockOutcome n k prev (id ∷ rest) total (
        visit n id (before ++ run k s) [] rest (find_block n (before ++ run k s) (id ∷ []) id rest))
start_block n k s id prev before rest total ih lt page pages t new =
    let t' = t ∙ sym (append_assoc before (run k s) (id ∷ rest)) in
    visit_outcome n 0 k id id prev (before ++ run k s) rest total _ (omega arith) lt (omega arith)
      page new t'
      (λ l. ih n 1 id id (before ++ run k s) total l page.1 (λ _. (refl, page)) pages t')

join_block :
    (n k s id prev : ℕ) (before rest total : List ℕ)
    → Scans rest
    → k < n
    → (0 < k → (s + k ≡ prev + 1) × IsPage s)
    → IsPage id
    → All IsPage rest
    → total ≡ before ++ (run k s ++ (id ∷ rest))
    → id ≡ prev + 1
    → BlockOutcome n k prev
        (id ∷ rest)
        total
        (visit n id before (run k s) rest (find_block n before (run k s ++ (id ∷ [])) id rest))
join_block n zero s id prev before rest total ih lt inv page pages t q =
    visit_outcome n 0 0 id id prev before rest total _ lt lt (omega arith) page (λ _. refl) t
      (λ l. ih n 1 id id before total l page.1 (λ _. (refl, page)) pages t)
join_block n (suc k) s id prev before rest total ih lt inv page pages t q =
    let (e, first) = inv (omega arith) in
    visit_outcome n (suc k) (suc k) s id prev before rest total _ lt lt (omega arith) first
      (λ _. refl) t
      (λ l. rw (run-snoc (suc k) s id (omega arith)) (
        ih n (suc (suc k)) s id before total l page.1 (λ _. (omega arith, first)) pages
          (t ∙ ap (◌++◌ before) (run-append (suc k) s id rest (omega arith)))))

find_block_outcome : (rest : List ℕ) → Scans rest
unfolding find_block
find_block_outcome [] n k s prev before total lt h inv pages t = inr (NoBlock-nil n k prev lt, refl)
find_block_outcome (id ∷ rest) n k s prev before total lt h inv (page, pages) t =
    let not_small : leb id 1 ≡ false = ground (arith, page) in
    let ih = find_block_outcome rest in
    elim (Bool-cases ((id + u64_mod - prev) % u64_mod == 1)) [
      | inl e ↦
          rw (e, not_small)
            (join_block n k s id prev before rest total ih lt inv page pages t
              ((joined_iff id prev page h).0 e))
      | inr e ↦
          rw (e, not_small)
            (start_block n k s id prev before rest total ih lt page pages t
              (λ q. cc (e, (joined_iff id prev page h).1 q)))
    ]

-- The scan from the front of a vector of ids of pages, for a block of at least one page: either it
-- gives the first page of a block and the vector without that block, or no block of that size is
-- there.
pub find_block_cases :
    (n : ℕ) (ids : List ℕ)
    → 0 < n
    → All IsPage ids
    → BlockOutcome n 0 0 ids ids (find_block n [] [] 0 ids)
find_block_cases n ids pos pages =
    find_block_outcome ids n 0 0 0 [] ids pos (omega arith) (λ h. absurd (omega (arith, h))) pages
      refl
