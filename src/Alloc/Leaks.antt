-- ===== src/Alloc/Leaks.antt =====
-- Leak detection by the tracker of include/boltdb/alloc/memory_resource_tracker.hpp: what it counts and
-- which deallocations it accepts.
pub mod Allocate
use boltdb_cpp.Base.{
  ℕ, ◌+◌, ◌-◌, ◌%◌, ◌^◌, ◌≤◌, ◌<◌, ◌≡◌, ◌≢◌, refl, sym, ap, subst, ◌∙◌, ◌⊎◌, inl, inr, List, [],
  ◌∷◌, ◌++◌, append-nil, Option, none, some, ◌>>=◌, ◌==◌, arith, All, Bool-cases,
}
use boltdb_cpp.Alloc.Tracker.{
  Block, Resource, Tracker, InvalidArgument, invalid_pointer, size_mismatch, alignment_mismatch,
  push_block, find_pointer, do_allocate, do_deallocate,
}

abbrev pub block_bytes : List Block → ℕ
block_bytes [] = 0
block_bytes (b ∷ bs) = b.nbytes + block_bytes bs

block_bytes-append : (xs ys : List Block) → block_bytes (xs ++ ys) ≡ block_bytes xs + block_bytes ys
block_bytes-append [] ys = omega arith
block_bytes-append (x ∷ xs) ys = omega (arith, block_bytes-append xs ys)

-- The outstanding bytes are those of the blocks that are not given back.
pub record IsValid {U : Type 0} (t : Tracker U) : Type 0 where
  pub exact : t.bytes_outstanding ≡ block_bytes t.blocks
  pub peak : t.bytes_outstanding ≤ t.bytes_highwater
  pub total : t.bytes_highwater ≤ t.bytes_allocated
  pub bounded : t.bytes_allocated < 2 ^ 64

push_block-IsValid :
    {U : Type 0}
    → (b : Block) (t : Tracker U) → IsValid t
    → t.bytes_allocated + b.nbytes < 2 ^ 64
    → IsValid (push_block b t)
unfolding push_block
push_block-IsValid b t v small =
    let whole : (t.bytes_outstanding + b.nbytes) % 2 ^ 64 ≡ t.bytes_outstanding + b.nbytes =
      omega (arith, v.peak, v.total) in
    let all : (t.bytes_allocated + b.nbytes) % 2 ^ 64 ≡ t.bytes_allocated + b.nbytes =
      omega arith in
    record {
      exact = omega (arith, whole, v.exact, block_bytes-append t.blocks (b ∷ []));
      peak = ground (arith, whole, v.peak);
      total = ground (arith, whole, all, v.peak, v.total);
      bounded = omega (arith, all);
    }

-- No block is at the pointer.
abbrev pub NotAt : ℕ → List Block → Type 0
NotAt p bs = All (λ b. b.ptr ≢ p) bs

abbrev pub Found : ℕ → List Block → Option (List Block × Block × List Block) → Type 0
Found p bs r =
    ((r ≡ none) × NotAt p bs)
    ⊎ ((pre : List Block) × (b : Block) × (post : List Block) × (r ≡ some (pre, b, post))
        × (bs ≡ pre ++ (b ∷ post))
        × (b.ptr ≡ p)
        × NotAt p pre)

pub find_pointer_cases : (p : ℕ) (bs : List Block) → Found p bs (find_pointer p bs)
unfolding find_pointer
find_pointer_cases p [] = inl (refl, tt)
find_pointer_cases p (b ∷ bs) = elim (Bool-cases (b.ptr == p)) [
  | inl e ↦ inr ([], b, bs, rw e refl, refl, ground (arith, e), tt)
  | inr e ↦ elim (find_pointer_cases p bs) [
    | inl (r, n) ↦ inl (rw (e, r) refl, (ground (arith, e), n))
    | inr (pre, c, post, r, s, at, n) ↦
        inr (b ∷ pre, c, post, rw (e, r) refl, ap (λ xs. b ∷ xs) s, at, (ground (arith, e), n))
  ]
]

pair_path :
    {A B : Type 0} → {a a' : A} → {b b' : B} → a ≡ a' → b ≡ b' → ◌≡◌ {A = A × B} (a, b) (a', b')
pair_path p q = λ i. (p i, q i)

-- What `do_deallocate` does: the first block at the pointer decides, and it has to match the call.
abbrev pub DeallocateOutcome :
    {U : Type 0} → Resource U → ℕ → ℕ → ℕ → Tracker U → InvalidArgument ⊎ Tracker U → Type 0
DeallocateOutcome r p nbytes alignment t out =
    ((out ≡ inl invalid_pointer) × NotAt p t.blocks)
    ⊎ ((pre : List Block) × (b : Block) × (post : List Block) × (t.blocks ≡ pre ++ (b ∷ post))
        × (b.ptr ≡ p)
        × NotAt p pre
        × (((out ≡ inl size_mismatch) × (b.nbytes ≢ nbytes))
            ⊎ (((out ≡ inl alignment_mismatch) × (b.nbytes ≡ nbytes) × (b.alignment ≢ alignment))
                ⊎ ((b.nbytes ≡ nbytes)
                    × (b.alignment ≡ alignment)
                    × (out
                        ≡ inr (record t {
                          upstream = r.deallocate p nbytes alignment t.upstream;
                          blocks = pre ++ post;
                          bytes_outstanding = (t.bytes_outstanding + 2 ^ 64 - nbytes) % 2 ^ 64;
                        }))))))

-- `do_deallocate` throws for a pointer at which no block is outstanding, and else for a size and then for
-- an alignment that is not that of the first block at the pointer. Otherwise it takes this block out,
-- gives it to the upstream resource and counts its bytes down.
pub do_deallocate_cases :
    {U : Type 0}
    → (r : Resource U) (p nbytes alignment : ℕ) (t : Tracker U)
    → DeallocateOutcome r p nbytes alignment t (do_deallocate r p nbytes alignment t)
unfolding do_deallocate
do_deallocate_cases r p nbytes alignment t = elim (find_pointer_cases p t.blocks) [
  | inl (f, n) ↦ inl (rw (do_deallocate, f) refl, n)
  | inr (pre, b, post, f, s, at, n) ↦ inr (
    pre,
    b,
    post,
    s,
    at,
    n,
    elim (Bool-cases (b.nbytes == nbytes)) [
      | inr e ↦ inl (rw (do_deallocate, f, e) refl, ground (arith, e))
      | inl e ↦ elim (Bool-cases (b.alignment == alignment)) [
        | inr d ↦ inr (inl (rw (do_deallocate, f, e, d) refl, ground (arith, e), ground (arith, d)))
        | inl d ↦ inr (
            inr (
              ground (arith, e),
              ground (arith, d),
              rw (do_deallocate, f, e, d)
                  (ap
                    (λ (q : ℕ × ℕ). inr (record t {
                      upstream = r.deallocate p q.0 q.1 t.upstream;
                      blocks = pre ++ post;
                      bytes_outstanding = (t.bytes_outstanding + 2 ^ 64 - nbytes) % 2 ^ 64;
                    }))
                    (pair_path (ground (arith, e)) (ground (arith, d)))),
            ))
      ]
    ],
  )
]

-- A tracker that is valid stays so, whatever the call is.
abbrev pub Remains : {U : Type 0} → Tracker U → InvalidArgument ⊎ Tracker U → Type 0
Remains t (inl e) = IsValid t
Remains t (inr t') = IsValid t'

do_deallocate-IsValid :
    {U : Type 0}
    → (r : Resource U) (p nbytes alignment : ℕ) (t : Tracker U) → IsValid t
    → Remains t (do_deallocate r p nbytes alignment t)
do_deallocate-IsValid r p nbytes alignment t v = elim (do_deallocate_cases r p nbytes alignment t) [
  | inl (e, n) ↦ subst (Remains t) (sym e) v
  | inr (pre, b, post, s, at, n, inl (e, d)) ↦ subst (Remains t) (sym e) v
  | inr (pre, b, post, s, at, n, inr (inl (e, m, d))) ↦ subst (Remains t) (sym e) v
  | inr (pre, b, post, s, at, n, inr (inr (m, d, e))) ↦
      let parts : t.bytes_outstanding ≡ block_bytes pre + (nbytes + block_bytes post) =
        omega (arith, v.exact, ap block_bytes s, block_bytes-append pre (b ∷ post), m) in
      let less : (t.bytes_outstanding + 2 ^ 64 - nbytes) % 2 ^ 64
          ≡ block_bytes pre + block_bytes post =
        omega (arith, parts, v.peak, v.total, v.bounded) in
      subst (Remains t) (sym e) (record {
        exact = omega (arith, less, block_bytes-append pre post);
        peak = omega (arith, less, parts, v.peak);
        total = v.total;
        bounded = v.bounded;
      })
]
