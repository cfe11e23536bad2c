-- ===== src/Alloc/Leaks/Allocate.antt =====
-- `do_allocate` of include/boltdb/alloc/memory_resource_tracker.hpp, and `do_deallocate` after it.
use boltdb_cpp.Base.{
  ℕ, ◌+◌, ◌-◌, ◌%◌, ◌^◌, ◌<◌, ◌≡◌, refl, sym, ap, subst, ◌∙◌, ◌⊎◌, inr, List, [], ◌∷◌, ◌++◌,
  append-nil, Option, none, some, ◌>>=◌, arith,
}
use boltdb_cpp.Alloc.Tracker.{
  Block, Resource, Tracker, InvalidArgument, push_block, find_pointer, do_allocate, do_deallocate,
}
use boltdb_cpp.Alloc.Leaks.{push_block-IsValid, NotAt, IsValid}

abbrev pub block : ℕ → ℕ → ℕ → Block
block p nbytes alignment = record { ptr = p; nbytes = nbytes; alignment = alignment }

do_allocate-some :
    {U : Type 0}
    → (r : Resource U) (nbytes alignment p : ℕ) (t t' : Tracker U)
    → do_allocate r nbytes alignment t ≡ some (p, t')
    → (u : U) × (t' ≡ push_block (block p nbytes alignment) (record t { upstream = u }))
unfolding do_allocate
do_allocate-some {U} r nbytes alignment p t t' e = go (r.allocate nbytes alignment t.upstream) e
  where
    go :
        (o : Option (ℕ × U))
        → ◌>>=◌ {A = ℕ × U} {B = ℕ × Tracker U} o
            (λ q. some (q.0, push_block (block q.0 nbytes alignment) (record t { upstream = q.1 })))
          ≡ some (p, t')
        → (u : U) × (t' ≡ push_block (block p nbytes alignment) (record t { upstream = u }))
    go none e = absurd (cc)
    go (some (q, u)) e =
        let same : q ≡ p = ground (arith, e) in
        let made : push_block (block q nbytes alignment) (record t { upstream = u }) ≡ t' =
          ground (arith, e) in
        (
          u,
          sym made
              ∙ ap (λ x. push_block (block x nbytes alignment) (record t { upstream = u })) same,
        )

abbrev moved :
    {U : Type 0} → {t : Tracker U} → (u : U) → IsValid t → IsValid (record t { upstream = u })
moved u v = record { exact = v.exact; peak = v.peak; total = v.total; bounded = v.bounded }

pub do_allocate-IsValid :
    {U : Type 0}
    → (r : Resource U) (nbytes alignment p : ℕ) (t t' : Tracker U) → IsValid t
    → t.bytes_allocated + nbytes < 2 ^ 64
    → do_allocate r nbytes alignment t ≡ some (p, t')
    → IsValid t'
do_allocate-IsValid r nbytes alignment p t t' v small e =
    let (u, made) = do_allocate-some r nbytes alignment p t t' e in
    subst IsValid (sym made)
      (push_block-IsValid (block p nbytes alignment) (record t { upstream = u }) (moved u v) small)

find_pointer-fresh :
    (b : Block) (bs : List Block)
    → NotAt b.ptr bs
    → find_pointer b.ptr (bs ++ (b ∷ [])) ≡ some (bs, b, [])
unfolding find_pointer
find_pointer-fresh b [] n = ground arith
find_pointer-fresh b (c ∷ bs) n = ground (arith, find_pointer-fresh b bs n.1, n.0)

pub push_block-back :
    {U : Type 0}
    → (r : Resource U) (b : Block) (t : Tracker U) → IsValid t
    → t.bytes_allocated + b.nbytes < 2 ^ 64
    → NotAt b.ptr t.blocks
    → do_deallocate r b.ptr b.nbytes b.alignment (push_block b t)
      ≡ inr (record (push_block b t) {
        upstream = r.deallocate b.ptr b.nbytes b.alignment t.upstream;
        blocks = t.blocks;
        bytes_outstanding = t.bytes_outstanding;
      })
unfolding do_deallocate push_block
push_block-back r b t v small n =
    let back : ((t.bytes_outstanding + b.nbytes) % 2 ^ 64 + 2 ^ 64 - b.nbytes) % 2 ^ 64
        ≡ t.bytes_outstanding =
      omega (arith, v.peak, v.total) in
    rw (do_deallocate, find_pointer-fresh b t.blocks n) (ground (arith, back, append-nil t.blocks))

-- The call takes back what the last allocation took.
abbrev pub Returned : {U : Type 0} → Tracker U → InvalidArgument ⊎ Tracker U → Type 0
Returned {U} t out =
    (t' : Tracker U) × (out ≡ inr t')
    × (t'.blocks ≡ t.blocks)
    × (t'.bytes_outstanding ≡ t.bytes_outstanding)

pub do_deallocate-do_allocate :
    {U : Type 0}
    → (r : Resource U) (nbytes alignment p : ℕ) (t t' : Tracker U) → IsValid t
    → t.bytes_allocated + nbytes < 2 ^ 64
    → do_allocate r nbytes alignment t ≡ some (p, t')
    → NotAt p t.blocks
    → Returned t (do_deallocate r p nbytes alignment t')
do_deallocate-do_allocate r nbytes alignment p t t' v small e n =
    let (u, made) = do_allocate-some r nbytes alignment p t t' e in
    subst (λ x. Returned t (do_deallocate r p nbytes alignment x)) (sym made)
      (
        _,
        push_block-back r (block p nbytes alignment) (record t { upstream = u }) (moved u v) small
            n,
        refl,
        refl,
      )
