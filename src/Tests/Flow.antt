-- ===== src/Tests/Flow.antt =====
-- crates/rua-ide/src/analysis/hir/cfg.rs, run on `{ loop {} 1; }` and `{ while 1 { break; } 1; }`, and
-- the theorems there.
use rua_lang.Base.{ℕ, ◌<◌, ◌≡◌, refl, List, [], ◌∷◌, none, Call, ok, ◌>>=◌, Returns, loop, arith}
use rua_lang.Flow.{
  StatementId, LoopRecord, ControlFlowGraph, has, extend, visit, search_step, edge_count,
  reachable_from, path_exists, unreached, unreachable_statements, reaches_exit, infinite_among,
  infinite_loops,
}
use rua_lang.Flow.Body.{Condition, Statement, Expr, Body}
use rua_lang.Flow.Build.Steps.{size}
use rua_lang.Flow.Build.Total.{build-IsGraph}
use rua_lang.Flow.Builder.{
  node, add_successor, change_node, edge, push_loop, insert, add_statement, expr_sequence,
  while_statement, loop_statement, statement_edges, block_statements, block_expression, expr_cases,
  expr, closure_bodies, closures, build_from, build,
}
use rua_lang.Flow.Queries.{
  IsGraph, Without, Leaves, unreachable_statements-Without, infinite_loops-Without,
}
use rua_lang.Flow.Reach.{Walk}

abbrev endless : Body
endless = record {
  root_expr = 2;
  exprs =
      Expr.block (record { statements = []; tail = none })
      ∷ Expr.literal
      ∷ Expr.block (record {
        statements = Statement.endless_loop 0 ∷ Statement.expression 1 ∷ [];
        tail = none;
      })
      ∷ [];
  patterns = [];
}

abbrev breaking : Body
breaking = record {
  root_expr = 3;
  exprs =
      Expr.literal
      ∷ Expr.literal
      ∷ Expr.block (record { statements = Statement.break_value none ∷ []; tail = none })
      ∷ Expr.block (record {
        statements = Statement.while_loop (Condition.expr 0) 2 ∷ Statement.expression 1 ∷ [];
        tail = none;
      })
      ∷ [];
  patterns = [];
}

unfoldable graph_of : Body → Call ControlFlowGraph
unfolding build build_from closures closure_bodies expr expr_cases block_expression block_statements
    statement_edges loop_statement while_statement expr_sequence add_statement insert push_loop edge
    change_node add_successor node has
graph_of body = build body

unfoldable findings : Body → Call (List StatementId × List ℕ)
unfolding graph_of unreachable_statements unreached infinite_loops infinite_among reaches_exit
    path_exists reachable_from edge_count search_step visit extend has loop
findings body = graph_of body >>= λ g.
    unreachable_statements g >>= λ statements. infinite_loops g >>= λ loops. ok (statements, loops)

endless_run : findings endless ≡ ok ((record { block = 2; index = 1 }) ∷ [], 0 ∷ [])
unfolding findings
endless_run = refl

breaking_run : findings breaking ≡ ok ([], [])
unfolding findings
breaking_run = refl

build-IsGraph_example : Returns (build endless) (λ g. IsGraph g × (g.exit < size g))
build-IsGraph_example =
    build-IsGraph endless ((tt, tt), (tt, (((omega arith, (omega arith, tt)), tt), tt)))

-- a loop from the node 2 to itself, the exit 1, and the entry 0 that leads to the loop
abbrev looping : ControlFlowGraph
looping = record {
  nodes =
      (record { successors = 2 ∷ [] })
      ∷ (record { successors = [] })
      ∷ (record { successors = 2 ∷ [] })
      ∷ [];
  entry = 0;
  exit = 1;
  statement_nodes =
      (record { block = 0; index = 0 }, 2) ∷ (record { block = 0; index = 1 }, 1) ∷ [];
  loops = (record { body = 7; body_entry = 2; exit = 1 }) ∷ [];
}

looping-IsGraph : IsGraph looping
looping-IsGraph = record {
  bounded = ((omega arith, tt), (tt, ((omega arith, tt), tt)));
  entry = omega arith;
  loops = (omega arith, tt);
}

unreachable_statements-Without_example : Returns (unreachable_statements looping) (
    Without
      (λ (s : StatementId × ℕ). Walk looping.nodes looping.entry s.1)
      (λ (s : StatementId × ℕ). s.0)
      looping.statement_nodes)
unreachable_statements-Without_example = unreachable_statements-Without looping looping-IsGraph

infinite_loops-Without_example :
    Returns
      (infinite_loops looping)
      (Without (Leaves looping) (λ (l : LoopRecord). l.body) looping.loops)
infinite_loops-Without_example = infinite_loops-Without looping looping-IsGraph
