-- ===== src/Bucket/Cache.antt =====
-- The node cache of `Bucket::node` (src/db/bucket.cpp) and the children that `Node::child_at` (src/page/node.cpp)
-- collects.
use boltdb_cpp.Base.{
  ℕ, zero, suc, ◌+◌, ◌≤◌, ◌<◌, ◌≡◌, refl, sym, ap, ◌∙◌, ◌⊎◌, inl, inr, Bool, true, false, List, [],
  ◌∷◌, ◌++◌, Option, none, some, ◌==◌, if◌then◌else◌, length, get_elem?, set, length-append, count,
  arith, Bool-cases,
}
use boltdb_cpp.Base.Map
use boltdb_cpp.Base.Map.{Map, KeysFrom}
use boltdb_cpp.Page.{Page}
use boltdb_cpp.Node.{Node, new_node}
use boltdb_cpp.Node.Serial.{read}
use boltdb_cpp.Node.Serial.Kept.{read-kept}
use boltdb_cpp.Bucket.{World, source_page, create, node, root_node, count_node}

-- How often nodes list a node as a child.
abbrev pub listings : ℕ → List Node → ℕ
listings c [] = 0
listings c (n ∷ ns) = count c n.children + listings c ns

listings-append :
    (c : ℕ) (ns ms : List Node) → listings c (ns ++ ms) ≡ listings c ns + listings c ms
listings-append c [] ms = omega arith
listings-append c (n ∷ ns) ms = omega (arith, listings-append c ns ms)

pub listings-set :
    (c i : ℕ) (n m : Node) (ns : List Node)
    → get_elem? ns i ≡ some n
    → listings c (set ns i m) + count c n.children ≡ listings c ns + count c m.children
listings-set c i n m [] e = absurd (cc (e))
listings-set c zero n m (x ∷ ns) e =
    let same : x ≡ n = cc (e) in omega (arith, ap (λ (y : Node). count c y.children) same)
listings-set c (suc i) n m (x ∷ ns) e = omega (arith, listings-set c i n m ns e)

-- The cache has nodes that exist, each for one page, and no node is listed as a child twice.
pub record IsValid {D : Type 0} (w : World D) : Type 0 where
  pub keys : KeysFrom 0 w.bucket.node_cache
  pub alive : (p n : ℕ) → Map.find p w.bucket.node_cache ≡ some n → n < length w.nodes
  pub one_page :
      (p q n : ℕ)
      → Map.find p w.bucket.node_cache ≡ some n
      → Map.find q w.bucket.node_cache ≡ some n
      → p ≡ q
  pub once : (c : ℕ) → listings c w.nodes ≤ 1
  pub listed_alive : (c : ℕ) → length w.nodes ≤ c → listings c w.nodes ≡ 0

module _ {D : Type 0} where
  -- The node of a page is in the cache, or its page can be found and read.
  abbrev pub Readable : ℕ → Option ℕ → World D → Type 0
  Readable pgid parent w =
      ((n : ℕ) × (Map.find pgid w.bucket.node_cache ≡ some n))
      ⊎ ((Map.find pgid w.bucket.node_cache ≡ none)
          × ((p : Page) × (m : Node) × (source_page pgid w ≡ some p)
              × (read p (new_node pgid parent) ≡ some m)))

  -- The world with a node `m` for the page `pgid`.
  abbrev pub with_node : ℕ → Option ℕ → Node → World D → World D
  with_node pgid parent m w = record {
    nodes = w.nodes ++ (m ∷ []);
    bucket = record w.bucket {
      root_node = root_node parent (length w.nodes) w.bucket;
      node_cache = Map.assign pgid (length w.nodes) w.bucket.node_cache;
    };
    txn = count_node w.txn;
  }

  pub node_cached :
      (pgid n : ℕ) (parent : Option ℕ) (w : World D)
      → Map.find pgid w.bucket.node_cache ≡ some n
      → node pgid parent w ≡ some (true, n, w)
  unfolding node
  node_cached pgid n parent w e = rw (node, e) refl

  pub node_created :
      (pgid : ℕ) (parent : Option ℕ) (p : Page) (m : Node) (w : World D)
      → Map.find pgid w.bucket.node_cache ≡ none
      → source_page pgid w ≡ some p
      → read p (new_node pgid parent) ≡ some m
      → node pgid parent w ≡ some (false, length w.nodes, with_node pgid parent m w)
  unfolding node create
  node_created pgid parent p m w e s r = rw (node, e) (rw (s, r) refl)

  module _ (pgid : ℕ) (parent : Option ℕ) (m : Node) (w : World D) (v : IsValid w)
      (absent : Map.find pgid w.bucket.node_cache ≡ none) (childless : m.children ≡ []) where
    pub found :
        (q : ℕ)
        → Map.find q (with_node pgid parent m w).bucket.node_cache
          ≡ (if pgid == q then some (length w.nodes) else Map.find q w.bucket.node_cache)
    found q = Map.find-alter q pgid 0 (λ _. length w.nodes) w.bucket.node_cache v.keys

    origin :
        (q n : ℕ)
        → Map.find q (with_node pgid parent m w).bucket.node_cache ≡ some n
        → ((pgid ≡ q) × (n ≡ length w.nodes)) ⊎ (Map.find q w.bucket.node_cache ≡ some n)
    origin q n e = elim (Bool-cases (pgid == q)) [
      | inl same ↦
          let new : some (length w.nodes) ≡ some n = sym (found q ∙ rw same refl) ∙ e in
          inl (ground (arith, same), cc (new))
      | inr other ↦ inr (sym (found q ∙ rw other refl) ∙ e)
    ]

    pub one_more : length (w.nodes ++ (m ∷ [])) ≡ length w.nodes + 1
    one_more = length-append w.nodes (m ∷ [])

    pub no_listing : (c : ℕ) → listings c (w.nodes ++ (m ∷ [])) ≡ listings c w.nodes
    no_listing c = omega (arith, listings-append c w.nodes (m ∷ []), ap (count c) childless)

    pub with_node-IsValid : IsValid (with_node pgid parent m w)
    with_node-IsValid = record {
      keys =
          Map.alter-KeysFrom pgid 0 (λ _. length w.nodes) w.bucket.node_cache (omega arith) v.keys;
      alive = λ q n e. elim (origin q n e) [
        | inl (_, new) ↦ omega (arith, new, one_more)
        | inr old ↦ omega (arith, v.alive q n old, one_more)
      ];
      one_page = λ p q n e e'. elim (origin p n e) [
        | inl (here, new) ↦ elim (origin q n e') [
          | inl (here', _) ↦ sym here ∙ here'
          | inr old ↦ absurd (omega (arith, new, v.alive q n old))
        ]
        | inr old ↦ elim (origin q n e') [
          | inl (_, new) ↦ absurd (omega (arith, new, v.alive p n old))
          | inr old' ↦ v.one_page p q n old old'
        ]
      ];
      once = λ c. omega (arith, no_listing c, v.once c);
      listed_alive =
          λ c h. omega (arith, no_listing c, v.listed_alive c (omega (arith, h, one_more)));
    }

  -- `Bucket::node` of a page that can be read gives the one node for that page, from the cache or made
  -- for it; asked again, for whatever parent, it finds the same node there and changes nothing.
  pub node_lem :
      (pgid : ℕ) (parent : Option ℕ) (w : World D)
      → IsValid w
      → Readable pgid parent w
      → (cached : Bool) × (n : ℕ) × (w' : World D) × (node pgid parent w ≡ some (cached, n, w'))
        × IsValid w'
        × (n < length w'.nodes)
        × ((other : Option ℕ) → node pgid other w' ≡ some (true, n, w'))
  node_lem pgid parent w v (inl (n, e)) = (
    true,
    n,
    w,
    node_cached pgid n parent w e,
    v,
    v.alive pgid n e,
    λ other. node_cached pgid n other w e,
  )
  node_lem pgid parent w v (inr (absent, (p, m, s, r))) =
      let (children, _) = read-kept p (new_node pgid parent) m r in
      let again : Map.find pgid (with_node pgid parent m w).bucket.node_cache
          ≡ some (length w.nodes) =
        ground (arith, found pgid parent m w v absent children pgid) in
      (
        false,
        length w.nodes,
        with_node pgid parent m w,
        node_created pgid parent p m w absent s r,
        with_node-IsValid pgid parent m w v absent children,
        omega (arith, one_more pgid parent m w v absent children),
        λ other. node_cached pgid (length w.nodes) other (with_node pgid parent m w) again,
      )
