-- ===== src/Flow/Reach.antt =====
-- crates/rua-ide/src/analysis/hir/cfg.rs: `reachable_from` finds the nodes that a path leads to.
use rua_lang.Base.{
  ℕ, zero, suc, ◌+◌, ◌<◌, ◌≡◌, ◌≢◌, refl, sym, ◌∙◌, ap, inl, inr, ◌⊎◌, ◌↔◌, true, false, List, [],
  ◌∷◌, some, All, Returns, loop-Returns, Keeps, ◌==◌, if◌then◌else◌, Bool-cases, length, get_elem?,
  get_elem?-of_lt, arith,
}
use mathlib.Core.Path.{subst}
use rua_lang.Flow.{
  Node, ControlFlowGraph, has, Search, extend, visit, search_step, edge_count, reachable_from,
}

-- Each edge leads to a node.
abbrev pub IsBounded : List Node → Type 0
IsBounded nodes = All (λ (n : Node). All (λ s. s < length nodes) n.successors) nodes

-- A path through the edges.
pub data Walk (nodes : List Node) (start : ℕ) : ℕ → Type 0 where
  here : Walk nodes start start
  step :
      (node : ℕ) (n : Node) (next : ℕ)
      → Walk nodes start node
      → get_elem? nodes node ≡ some n
      → has n.successors next ≡ true
      → Walk nodes start next

-- The edges out of the nodes from `i` on that are not yet reached.
unfoldable open_edges : List ℕ → ℕ → List Node → ℕ
open_edges reachable i [] = 0
open_edges reachable i (n ∷ nodes) =
    (if has reachable i then 0 else length n.successors) + open_edges reachable (suc i) nodes

open_edges-le : (i : ℕ) (nodes : List Node) → open_edges [] i nodes ≡ edge_count nodes
unfolding open_edges edge_count has
open_edges-le i [] = refl
open_edges-le i (n ∷ nodes) = ap (λ k. length n.successors + k) (open_edges-le (suc i) nodes)

pub has-cons : (xs : List ℕ) (x n : ℕ) → has xs n ≡ true → has (x ∷ xs) n ≡ true
unfolding has
has-cons xs x n h = ground arith

pub has_self : (xs : List ℕ) (n : ℕ) → has (n ∷ xs) n ≡ true
unfolding has
has_self xs n = ground arith

pub has-nil : (n : ℕ) → has [] n ≢ true
unfolding has
has-nil n h = cc

pub has-cases : (xs : List ℕ) (x n : ℕ) → has (x ∷ xs) n ≡ true → (x ≡ n) ⊎ (has xs n ≡ true)
unfolding has
has-cases xs x n h = ground arith

-- A node below the first one counted changes nothing.
open_edges-below :
    (reachable : List ℕ) (node i : ℕ) (nodes : List Node)
    → node < i
    → open_edges (node ∷ reachable) i nodes ≡ open_edges reachable i nodes
unfolding open_edges has
open_edges-below reachable node i [] h = refl
open_edges-below reachable node i (n ∷ nodes) h =
    let apart : (node == i) ≡ false = ground arith in
    rw (apart, open_edges-below reachable node (suc i) nodes (omega (arith, h))) refl

-- Reaching a node takes its edges out of the count.
open_edges-visit :
    (reachable : List ℕ) (node i k : ℕ) (nodes : List Node) (n : Node)
    → node ≡ i + k
    → has reachable node ≡ false
    → get_elem? nodes k ≡ some n
    → open_edges (node ∷ reachable) i nodes + length n.successors ≡ open_edges reachable i nodes
unfolding open_edges has
open_edges-visit reachable node i k [] n at h e = cc
open_edges-visit reachable node i zero (x ∷ nodes) n at h e =
    let here : node ≡ i = omega (arith, at) in
    let same : x ≡ n = cc in
    let self : (node == i) ≡ true = ground (arith, here) in
    let out : has reachable i ≡ false = ap (has reachable) (sym here) ∙ h in
    rw (self, out, open_edges-below reachable node (suc i) nodes (omega (arith, at)), same)
      (omega arith)
open_edges-visit reachable node i (suc k) (x ∷ nodes) n at h e =
    let apart : (node == i) ≡ false = ground (arith, at) in
    rw apart
      (omega (arith, open_edges-visit reachable node (suc i) k nodes n (omega (arith, at)) h e))

has-extend :
    (xs ys : List ℕ) (n : ℕ) → (has xs n ≡ true) ⊎ (has ys n ≡ true) → has (extend xs ys) n ≡ true
unfolding extend
has-extend [] ys n (inl h) = absurd (has-nil n h)
has-extend [] ys n (inr h) = h
has-extend (x ∷ xs) ys n (inr h) = has-extend xs (x ∷ ys) n (inr (has-cons ys x n h))
has-extend (x ∷ xs) ys n (inl h) = elim (has-cases xs x n h) [
  | inl e ↦ has-extend xs (x ∷ ys) n (inr (subst (λ m. has (x ∷ ys) m ≡ true) e (has_self ys x)))
  | inr k ↦ has-extend xs (x ∷ ys) n (inl k)
]

All-extend : (P : ℕ → Type 0) (xs ys : List ℕ) → All P xs → All P ys → All P (extend xs ys)
unfolding extend
All-extend P [] ys h k = k
All-extend P (x ∷ xs) ys (h, hs) k = All-extend P xs (x ∷ ys) hs (h, k)

length-extend : (xs ys : List ℕ) → length (extend xs ys) ≡ length xs + length ys
unfolding extend
length-extend [] ys = omega arith
length-extend (x ∷ xs) ys = omega (arith, length-extend xs (x ∷ ys))

All-has : (P : ℕ → Type 0) (xs : List ℕ) → ((n : ℕ) → has xs n ≡ true → P n) → All P xs
All-has P [] f = tt
All-has P (x ∷ xs) f = (f x (has_self xs x), All-has P xs (λ n h. f n (has-cons xs x n h)))

All-get_elem? {ℓ} :
    {A : Type ℓ} (P : A → Type 0) (xs : List A) (i : ℕ) {x : A}
    → All P xs
    → get_elem? xs i ≡ some x
    → P x
All-get_elem? P [] i h e = cc
All-get_elem? P (y ∷ ys) zero (h, hs) e = let same : y ≡ _ = cc in subst P same h
All-get_elem? P (y ∷ ys) (suc i) (h, hs) e = All-get_elem? P ys i hs e

module _ (nodes : List Node) (start : ℕ) where
  -- What holds of the search: it has reached nodes that a path leads to, and their successors are
  -- reached or pending.
  record Inv (s : Search) : Type 0 where
    walks : (n : ℕ) → has s.reachable n ≡ true → Walk nodes start n
    pending_walks : All (Walk nodes start) s.pending
    pending_bounded : All (λ n. n < length nodes) s.pending
    started : (has s.reachable start ≡ true) ⊎ (has s.pending start ≡ true)
    closed :
        (node : ℕ) (n : Node) (next : ℕ)
        → has s.reachable node ≡ true
        → get_elem? nodes node ≡ some n
        → has n.successors next ≡ true
        → (has s.reachable next ≡ true) ⊎ (has s.pending next ≡ true)

  -- What the search finds: the nodes that a path leads to.
  abbrev pub Finds : List ℕ → Type 0
  Finds reachable = (n : ℕ) → (has reachable n ≡ true) ↔ Walk nodes start n

  abbrev measure : Search → ℕ
  measure s = length s.pending + open_edges s.reachable 0 nodes

  -- a node that was reached or pending, once the top of the stack is dropped or visited
  settle :
      (reachable pending : List ℕ) (node n : ℕ)
      → has reachable node ≡ true
      → (has reachable n ≡ true) ⊎ (has (node ∷ pending) n ≡ true)
      → (has reachable n ≡ true) ⊎ (has pending n ≡ true)
  settle reachable pending node n t (inl h) = inl h
  settle reachable pending node n t (inr h) = elim (has-cases pending node n h) [
    | inl e ↦ inl (subst (λ m. has reachable m ≡ true) e t)
    | inr k ↦ inr k
  ]

  settle_visited :
      (reachable pending successors : List ℕ) (node n : ℕ)
      → (has reachable n ≡ true) ⊎ (has (node ∷ pending) n ≡ true)
      → (has (node ∷ reachable) n ≡ true) ⊎ (has (extend successors pending) n ≡ true)
  settle_visited reachable pending successors node n (inl h) = inl (has-cons reachable node n h)
  settle_visited reachable pending successors node n (inr h) = elim (has-cases pending node n h) [
    | inl e ↦ inl (subst (λ m. has (node ∷ reachable) m ≡ true) e (has_self reachable node))
    | inr k ↦ inr (has-extend successors pending n (inr k))
  ]

  abbrev at : List ℕ → List ℕ → Search
  at reachable pending = record { reachable = reachable; pending = pending }

  drop-Inv :
      (reachable : List ℕ) (node : ℕ) (pending : List ℕ)
      → has reachable node ≡ true
      → Inv (at reachable (node ∷ pending))
      → Inv (at reachable pending)
  drop-Inv reachable node pending t inv = record {
    walks = inv.walks;
    pending_walks = inv.pending_walks.1;
    pending_bounded = inv.pending_bounded.1;
    started = settle reachable pending node start t inv.started;
    closed = λ m n next h e k. settle reachable pending node next t (inv.closed m n next h e k);
  }

  visit-Inv :
      IsBounded nodes
      → (reachable : List ℕ) (node : ℕ) (pending : List ℕ) (n : Node)
      → get_elem? nodes node ≡ some n
      → Inv (at reachable (node ∷ pending))
      → Inv (at (node ∷ reachable) (extend n.successors pending))
  visit-Inv bounded reachable node pending n e inv = record {
    walks = λ m h. elim (has-cases reachable node m h) [
      | inl same ↦ subst (Walk nodes start) same inv.pending_walks.0
      | inr k ↦ inv.walks m k
    ];
    pending_walks =
        All-extend (Walk nodes start) n.successors pending
          (All-has _ n.successors (λ next h. step node n next inv.pending_walks.0 e h))
          inv.pending_walks.1;
    pending_bounded =
        All-extend _ n.successors pending
          (All-get_elem? (λ (n : Node). All (λ s. s < length nodes) n.successors) nodes node bounded
            e)
          inv.pending_bounded.1;
    started = settle_visited reachable pending n.successors node start inv.started;
    closed = λ m n' next h e' k. elim (has-cases reachable node m h) [
      | inl same ↦
          let found : some n ≡ some n' = sym e ∙ ap (get_elem? nodes) same ∙ e' in
          let equal : n' ≡ n = cc in
          inr (
            has-extend n.successors pending next
              (inl (subst (λ (x : Node). has x.successors next ≡ true) equal k)))
      | inr old ↦
          settle_visited reachable pending n.successors node next (inv.closed m n' next old e' k)
    ];
  }

  visit-Keeps :
      IsBounded nodes
      → (reachable : List ℕ) (node : ℕ) (pending : List ℕ) → Inv (at reachable (node ∷ pending))
      → Returns
          (visit nodes reachable node pending)
          (Keeps Inv Finds measure (at reachable (node ∷ pending)))
  unfolding visit
  visit-Keeps bounded reachable node pending inv = elim (Bool-cases (has reachable node)) [
    | inl t ↦ rw t (_, refl, (drop-Inv reachable node pending t inv, omega arith))
    | inr f ↦
        let (n, e) = get_elem?-of_lt nodes node inv.pending_bounded.0 in
        rw (f, e)
          (
            _,
            refl,
            (
              visit-Inv bounded reachable node pending n e inv,
              omega (
                arith,
                length-extend n.successors pending,
                open_edges-visit reachable node 0 node nodes n (omega arith) f e,
              ),
            ),
          )
  ]

  stop-Finds : (reachable : List ℕ) → Inv (at reachable []) → Finds reachable
  stop-Finds reachable inv n = (inv.walks n, reached n)
    where
      settled : (m : ℕ) → (has reachable m ≡ true) ⊎ (has [] m ≡ true) → has reachable m ≡ true
      settled m (inl h) = h
      settled m (inr h) = absurd (has-nil m h)

      reached : (m : ℕ) → Walk nodes start m → has reachable m ≡ true
      reached m here = settled start inv.started
      reached m (step node x next w e h) =
          settled next (inv.closed node x next (reached node w) e h)

  search_step-Keeps :
      IsBounded nodes
      → (s : Search) → Inv s
      → Returns (search_step nodes s) (Keeps Inv Finds measure s)
  unfolding search_step
  search_step-Keeps bounded s inv = by_pending s.reachable s.pending inv
    where
      by_pending :
          (reachable pending : List ℕ)
          → Inv (at reachable pending)
          → Returns
              (search_step nodes (at reachable pending))
              (Keeps Inv Finds measure (at reachable pending))
      by_pending reachable [] inv = (_, refl, stop-Finds reachable inv)
      by_pending reachable (node ∷ pending) inv = visit-Keeps bounded reachable node pending inv

-- `reachable_from`, started at a node of a graph whose edges all lead to nodes, returns: it neither
-- panics nor runs on. What it returns are the nodes that a path from the start leads to.
pub reachable_from-Finds :
    (g : ControlFlowGraph) (start : ℕ)
    → IsBounded g.nodes
    → start < length g.nodes
    → Returns (reachable_from g start) (Finds g.nodes start)
unfolding reachable_from edge_count
reachable_from-Finds g start bounded inside =
    loop-Returns (Inv g.nodes start) (Finds g.nodes start) (measure g.nodes start)
      (search_step g.nodes) (search_step-Keeps g.nodes start bounded) (2 + edge_count g.nodes) _
      (omega (arith, open_edges-le 0 g.nodes))
      (record {
        walks = λ n h. absurd (has-nil n h);
        pending_walks = (here, tt);
        pending_bounded = (inside, tt);
        started = inr (has_self [] start);
        closed = λ node n next h e k. absurd (has-nil node h);
      })
