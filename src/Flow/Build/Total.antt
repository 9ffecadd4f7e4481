-- ===== src/Flow/Build/Total.antt =====
-- crates/rua-ide/src/analysis/hir/cfg.rs: `build` returns a graph.
use rua_lang.Base.{
  ℕ, zero, suc, ◌+◌, ◌<◌, ◌≡◌, refl, List, [], ◌∷◌, none, some, Returns, Returns-bind, get_elem?,
  arith,
}
use mathlib.Core.Path.{subst}
use rua_lang.Flow.{ControlFlowGraph}
use rua_lang.Flow.Body.{Expr, Body}
use rua_lang.Flow.Builder.{node, edge, expr, closure_bodies, closures, start, build_from, build}
use rua_lang.Flow.Build.Steps.{size, Ready, Grown, Nothing, bind-Grown, pure-Grown, edge-Grown}
use rua_lang.Flow.Build.Below.{ExprBelow}
use rua_lang.Flow.Build.Exprs.{Visits, expr_cases-Visits}
use rua_lang.Flow.Queries.{IsGraph}

-- Each expression stands behind those right below it in the arena.
abbrev pub OrderedFrom : ℕ → List Expr → Type 0
OrderedFrom id [] = Unit
OrderedFrom id (e ∷ es) = ExprBelow id (some e) × OrderedFrom (suc id) es

abbrev pub IsOrdered : Body → Type 0
IsOrdered body = OrderedFrom 0 body.exprs

OrderedFrom-get_elem? :
    (i k id : ℕ) (es : List Expr) → id ≡ i + k → OrderedFrom i es → ExprBelow id (get_elem? es k)
OrderedFrom-get_elem? i k id [] e h = tt
OrderedFrom-get_elem? i zero id (x ∷ es) e (h, hs) =
    let same : i ≡ id = omega (arith, e) in subst (λ n. ExprBelow n (some x)) same h
OrderedFrom-get_elem? i (suc k) id (x ∷ es) e (h, hs) =
    OrderedFrom-get_elem? (suc i) k id es (omega (arith, e)) hs

expr-Visits :
    (body : Body) → IsOrdered body → (fuel id : ℕ) → id < fuel → Visits (expr body fuel id)
unfolding expr
expr-Visits body ordered zero id h = absurd (omega arith)
expr-Visits body ordered (suc fuel) id h =
    expr_cases-Visits (expr body fuel) id
      (λ e k. expr-Visits body ordered fuel e (omega (arith, h, k))) body.patterns
      (get_elem? body.exprs id) (OrderedFrom-get_elem? 0 id id body.exprs (omega arith) ordered)

closures-Grown :
    (body : Body)
    → IsOrdered body
    → (es : List ℕ) (g : ControlFlowGraph) → Ready g
    → Returns (closures body es g) (Grown g Nothing)
unfolding closures
closures-Grown body ordered [] g ready = pure-Grown Nothing tt g ready tt
closures-Grown body ordered (e ∷ es) g ready =
    bind-Grown (expr body (suc e) e g.exit none) _ g
      (expr-Visits body ordered (suc e) e (omega arith) g.exit none g ready ready.exit tt)
      (λ entry g1 r1.
        bind-Grown (edge g.entry entry) _ g1
          (edge-Grown g.entry entry g1 r1.ready (omega (arith, ready.graph.entry, r1.le)) r1.holds)
          (λ _ g2 r2. closures-Grown body ordered es g2 r2.ready))

-- the graph with the entry and the exit alone
abbrev two_nodes : ControlFlowGraph
two_nodes = record {
  nodes = (record { successors = [] }) ∷ (record { successors = [] }) ∷ [];
  entry = 0;
  exit = 1;
  statement_nodes = [];
  loops = [];
}

two_nodes-Ready : Ready two_nodes
two_nodes-Ready = record {
  graph = record { bounded = (tt, (tt, tt)); entry = omega arith; loops = tt };
  exit = omega arith;
}

build_from-Grown :
    (body : Body) → IsOrdered body → Returns (build_from body start) (Grown two_nodes Nothing)
unfolding build_from node
build_from-Grown body ordered =
    let id = body.root_expr in
    bind-Grown (expr body (suc id) id 1 none) _ two_nodes
      (expr-Visits body ordered (suc id) id (omega arith) 1 none two_nodes two_nodes-Ready
        (omega arith) tt)
      (λ root g1 r1.
        bind-Grown (edge 0 root) _ g1
          (edge-Grown 0 root g1 r1.ready (omega (arith, r1.le)) r1.holds)
          (λ _ g2 r2. closures-Grown body ordered (closure_bodies body.exprs) g2 r2.ready))

-- For every body in which each expression stands behind those right below it in the arena, `build`
-- returns: it neither panics nor descends without an end. All edges of the graph, its entry, its exit
-- and the entries of its loops are nodes of it.
pub build-IsGraph :
    (body : Body) → IsOrdered body → Returns (build body) (λ g. IsGraph g × (g.exit < size g))
unfolding build
build-IsGraph body ordered =
    Returns-bind {P = Grown two_nodes Nothing} (build_from body start) _
      (build_from-Grown body ordered) (λ (u, g) r. (g, refl, (r.ready.graph, r.ready.exit)))
