-- ===== src/Flow/Build/Steps.antt =====
-- crates/rua-ide/src/analysis/hir/cfg.rs: the builder's single changes of its graph.
use rua_lang.Base.{
  ℕ, zero, suc, ◌≤◌, ◌<◌, ◌≡◌, refl, sym, ◌∙◌, ap, List, [], ◌∷◌, ◌++◌, Option, none, some, All, ok,
  Returns, Returns-bind, if-both, length, length-append, get_elem?, get_elem?-of_lt, arith,
}
use mathlib.Core.Path.{subst}
use rua_lang.Flow.{StatementId, Node, LoopRecord, ControlFlowGraph, has}
use rua_lang.Flow.Builder.{
  LoopTargets, Build, ◌▷◌, pure, node, add_successor, change_node, edge, push_loop, add_statement,
}
use rua_lang.Flow.Queries.{IsGraph}

abbrev pub size : ControlFlowGraph → ℕ
size g = length g.nodes

-- A graph under construction.
pub record Ready (g : ControlFlowGraph) : Type 0 where
  pub graph : IsGraph g
  pub exit : g.exit < size g

-- What a step does: it leaves a graph with no fewer nodes, the same entry and exit, and a result that
-- belongs to it.
pub record Grown {A : Type 0} (g : ControlFlowGraph) (Holds : A → ℕ → Type 0)
    (r : A × ControlFlowGraph) : Type 0 where
  pub ready : Ready r.1
  pub le : size g ≤ size r.1
  pub entry : r.1.entry ≡ g.entry
  pub exit : r.1.exit ≡ g.exit
  pub holds : Holds r.0 (size r.1)

abbrev pub Inside : ℕ → ℕ → Type 0
Inside n count = n < count

abbrev pub Nothing : {A : Type 0} → A → ℕ → Type 0
Nothing a count = Unit

abbrev pub TargetsInside : Option LoopTargets → ℕ → Type 0
TargetsInside none count = Unit
TargetsInside (some targets) count =
    (targets.break_target < count) × (targets.continue_target < count)

pub TargetsInside-le :
    (targets : Option LoopTargets) (m n : ℕ)
    → m ≤ n
    → TargetsInside targets m
    → TargetsInside targets n
TargetsInside-le none m n h t = tt
TargetsInside-le (some targets) m n h (b, c) = (omega (arith, h, b), omega (arith, h, c))

pub bind-Grown :
    {A B : Type 0} {P : A → ℕ → Type 0} {Q : B → ℕ → Type 0} (m : Build A) (k : A → Build B)
    (g : ControlFlowGraph)
    → Returns (m g) (Grown g P)
    → ((a : A) (g' : ControlFlowGraph) → Grown g P (a, g') → Returns (k a g') (Grown g' Q))
    → Returns ((m ▷ k) g) (Grown g Q)
bind-Grown {P = P} {Q} m k g first rest = Returns-bind {P = Grown g P} (m g) _ first (λ (a, g') h.
    let (r, e, h') = rest a g' h in
    (
      r,
      e,
      record {
        ready = h'.ready;
        le = omega (arith, h.le, h'.le);
        entry = h'.entry ∙ h.entry;
        exit = h'.exit ∙ h.exit;
        holds = h'.holds;
      },
    ))

pub pure-Grown :
    {A : Type 0} (Holds : A → ℕ → Type 0) (a : A) (g : ControlFlowGraph)
    → Ready g
    → Holds a (size g)
    → Returns (pure a g) (Grown g Holds)
pure-Grown Holds a g ready h =
    (_, refl, record { ready = ready; le = omega arith; entry = refl; exit = refl; holds = h })

All-imp {ℓ} :
    {A : Type ℓ} (P Q : A → Type 0) (xs : List A) → ((x : A) → P x → Q x) → All P xs → All Q xs
All-imp P Q [] f h = tt
All-imp P Q (x ∷ xs) f (h, hs) = (f x h, All-imp P Q xs f hs)

All-append {ℓ} :
    {A : Type ℓ} (P : A → Type 0) (xs ys : List A) → All P xs → All P ys → All P (xs ++ ys)
All-append P [] ys h k = k
All-append P (x ∷ xs) ys (h, hs) k = (h, All-append P xs ys hs k)

-- the nodes of a graph, seen from one with no fewer nodes
abbrev EdgesInside : ℕ → List Node → Type 0
EdgesInside count = All (λ (n : Node). All (λ s. s < count) n.successors)

EdgesInside-le : (m n : ℕ) (nodes : List Node) → m ≤ n → EdgesInside m nodes → EdgesInside n nodes
EdgesInside-le m n nodes h =
    All-imp _ _ nodes
      (λ (x : Node). All-imp (λ s. s < m) (λ s. s < n) x.successors (λ s k. omega (arith, h, k)))

pub node-Grown : (g : ControlFlowGraph) → Ready g → Returns (node g) (Grown g Inside)
unfolding node
node-Grown g ready =
    let longer = length-append g.nodes ((record { successors = [] }) ∷ []) in
    (
      _,
      refl,
      record {
        ready = record {
          graph = record {
            bounded =
                All-append _ g.nodes _
                  (EdgesInside-le (size g) _ g.nodes (omega (arith, longer)) ready.graph.bounded)
                  (tt, tt);
            entry = omega (arith, longer, ready.graph.entry);
            loops = All-imp _ _ g.loops (λ l h. omega (arith, longer, h)) ready.graph.loops;
          };
          exit = omega (arith, longer, ready.exit);
        };
        le = omega (arith, longer);
        entry = refl;
        exit = refl;
        holds = omega (arith, longer);
      },
    )

length-change_node :
    (nodes : List Node) (from to : ℕ) → length (change_node nodes from to) ≡ length nodes
unfolding change_node
length-change_node [] from to = refl
length-change_node (n ∷ nodes) zero to = refl
length-change_node (n ∷ nodes) (suc from) to = ap suc (length-change_node nodes from to)

change_node-EdgesInside :
    (count : ℕ) (nodes : List Node) (from to : ℕ)
    → to < count
    → EdgesInside count nodes
    → EdgesInside count (change_node nodes from to)
unfolding change_node add_successor
change_node-EdgesInside count [] from to h k = tt
change_node-EdgesInside count (n ∷ nodes) zero to h (k, ks) = (
  if-both (λ (x : Node). All (λ s. s < count) x.successors) (has n.successors to) (λ _. k)
      (λ _. All-append _ n.successors (to ∷ []) k (h, tt)),
  ks,
)
change_node-EdgesInside count (n ∷ nodes) (suc from) to h (k, ks) =
    (k, change_node-EdgesInside count nodes from to h ks)

edge-ok :
    (from to : ℕ) (g : ControlFlowGraph) (n : Node)
    → get_elem? g.nodes from ≡ some n
    → edge from to g ≡ ok (tt, record g { nodes = change_node g.nodes from to })
unfolding edge
edge-ok from to g n e = rw (edge, e) refl

pub edge-Grown :
    (from to : ℕ) (g : ControlFlowGraph)
    → Ready g
    → from < size g
    → to < size g
    → Returns (edge from to g) (Grown g Nothing)
edge-Grown from to g ready h k =
    let (n, e) = get_elem?-of_lt g.nodes from h in
    let same = length-change_node g.nodes from to in
    (
      _,
      edge-ok from to g n e,
      record {
        ready = record {
          graph = record {
            bounded =
                subst (λ count. EdgesInside count (change_node g.nodes from to)) (sym same)
                  (change_node-EdgesInside (size g) g.nodes from to k ready.graph.bounded);
            entry = omega (arith, same, ready.graph.entry);
            loops = All-imp _ _ g.loops (λ l h. omega (arith, same, h)) ready.graph.loops;
          };
          exit = omega (arith, same, ready.exit);
        };
        le = omega (arith, same);
        entry = refl;
        exit = refl;
        holds = tt;
      },
    )

pub push_loop-Grown :
    (l : LoopRecord) (g : ControlFlowGraph)
    → Ready g
    → l.body_entry < size g
    → Returns (push_loop l g) (Grown g Nothing)
unfolding push_loop
push_loop-Grown l g ready h = (
  _,
  refl,
  record {
    ready = record {
      graph = record {
        bounded = ready.graph.bounded;
        entry = ready.graph.entry;
        loops = All-append _ g.loops (l ∷ []) ready.graph.loops (h, tt);
      };
      exit = ready.exit;
    };
    le = omega arith;
    entry = refl;
    exit = refl;
    holds = tt;
  },
)

pub add_statement-Grown :
    (statement : StatementId) (n : ℕ) (g : ControlFlowGraph)
    → Ready g
    → Returns (add_statement statement n g) (Grown g Nothing)
unfolding add_statement
add_statement-Grown statement n g ready = (
  _,
  refl,
  record {
    ready = record {
      graph = record {
        bounded = ready.graph.bounded;
        entry = ready.graph.entry;
        loops = ready.graph.loops;
      };
      exit = ready.exit;
    };
    le = omega arith;
    entry = refl;
    exit = refl;
    holds = tt;
  },
)
