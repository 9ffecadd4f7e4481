-- ===== src/Flow/Builder.antt =====
-- crates/rua-ide/src/analysis/hir/cfg.rs: the builder of the control-flow graph. It works backwards,
-- from the node that comes next to the node that comes first.
use rua_lang.Base.{
  ℕ, zero, suc, Bool, true, false, not, ◌&&◌, ◌||◌, List, [], ◌∷◌, ◌++◌, Option, none, some, Call,
  ok, panic, stuck, ◌>>=◌, ◌==◌, if◌then◌else◌, length, get_elem?,
}
use rua_lang.Flow.{StatementId, Node, LoopRecord, ControlFlowGraph, has}
use rua_lang.Flow.Body.{Condition, Statement, Block, MatchArm, MapLiteralEntry, Pat, Expr, Body}

pub record LoopTargets : Type 0 where
  pub break_target : ℕ
  pub continue_target : ℕ

-- what a method of the builder does to its graph
abbrev pub Build : Type 0 → Type 0
Build A = ControlFlowGraph → Call (A × ControlFlowGraph)

infixl 5 ◌▷◌
abbrev pub ◌▷◌ : {A B : Type 0} → Build A → (A → Build B) → Build B
(m ▷ k) g = m g >>= λ r. k r.0 r.1

abbrev pub pure : {A : Type 0} → A → Build A
pure a g = ok (a, g)

unfoldable pub node : Build ℕ
node g = ok (length g.nodes, record g { nodes = g.nodes ++ (record { successors = [] }) ∷ [] })

unfoldable pub add_successor : ℕ → Node → Node
add_successor to n =
    if has n.successors to then n else record { successors = n.successors ++ to ∷ [] }

unfoldable pub change_node : List Node → ℕ → ℕ → List Node
change_node [] from to = []
change_node (n ∷ nodes) zero to = add_successor to n ∷ nodes
change_node (n ∷ nodes) (suc from) to = n ∷ change_node nodes from to

unfoldable pub edge : ℕ → ℕ → Build Unit
edge from to g = elim (get_elem? g.nodes from) [
  | none ↦ panic
  | some n ↦ ok (tt, record g { nodes = change_node g.nodes from to })
]

unfoldable pub push_loop : LoopRecord → Build Unit
push_loop l g = ok (tt, record g { loops = g.loops ++ l ∷ [] })

abbrev pub same_statement : StatementId → StatementId → Bool
same_statement a b = a.block == b.block && a.index == b.index

unfoldable pub insert : StatementId → ℕ → List (StatementId × ℕ) → List (StatementId × ℕ)
insert statement n [] = (statement, n) ∷ []
insert statement n ((s, m) ∷ rest) =
    let behind = insert statement n rest in
    if same_statement s statement then (s, n) ∷ rest else (s, m) ∷ behind

unfoldable pub add_statement : StatementId → ℕ → Build Unit
add_statement statement n g =
    ok (tt, record g { statement_nodes = insert statement n g.statement_nodes })

-- `self.expr(..)`: an expression, the node that comes next, and the targets of the loop around it
abbrev pub Visit : Type 0
Visit = ℕ → ℕ → Option LoopTargets → Build ℕ

unfoldable pub catches_all : List Pat → List ℕ → Bool
catches_all patterns [] = false
catches_all patterns (p ∷ ps) =
    (elim (get_elem? patterns p) [ some Pat.wildcard ↦ true | some Pat.binding ↦ true | _ ↦ false ])
    || catches_all patterns ps

abbrev pub is_none : Option ℕ → Bool
is_none none = true
is_none (some e) = false

abbrev pub break_target_of : ControlFlowGraph → Option LoopTargets → ℕ
break_target_of g none = g.exit
break_target_of g (some targets) = targets.break_target

abbrev pub continue_target_of : ControlFlowGraph → Option LoopTargets → ℕ
continue_target_of g none = g.exit
continue_target_of g (some targets) = targets.continue_target

module _ (visit : Visit) where
  -- `.map(|e| self.expr(e, next, loop_targets)).unwrap_or(next)`
  abbrev pub optional : Option ℕ → ℕ → Option LoopTargets → Build ℕ
  optional none next targets = pure next
  optional (some e) next targets = visit e next targets

  unfoldable pub expr_sequence : List ℕ → ℕ → Option LoopTargets → Build ℕ
  expr_sequence [] next targets = pure next
  expr_sequence (e ∷ es) next targets =
      expr_sequence es next targets ▷ λ behind. visit e behind targets

  unfoldable pub map_entries : List MapLiteralEntry → ℕ → Option LoopTargets → Build ℕ
  map_entries [] next targets = pure next
  map_entries (entry ∷ entries) next targets = map_entries entries next targets ▷ λ behind.
      visit entry.value behind targets ▷ λ value. visit entry.key value targets

  abbrev pub condition : Condition → ℕ → Option LoopTargets → Build ℕ
  condition (Condition.expr e) next targets = visit e next targets
  condition (Condition.let_pattern pattern scrutinee) next targets = visit scrutinee next targets

  -- the loop over the arms of a `match`; it returns whether they are exhaustive
  unfoldable pub match_arms :
      List Pat → List MatchArm → ℕ → Bool → ℕ → Option LoopTargets → Build Bool
  match_arms patterns [] branch exhaustive next targets = pure exhaustive
  match_arms patterns (arm ∷ arms) branch exhaustive next targets =
      visit arm.body next targets ▷ λ body_entry.
      optional arm.guard body_entry targets ▷ λ arm_entry. edge branch arm_entry ▷ λ _.
      match_arms patterns arms branch
        (exhaustive || (is_none arm.guard && catches_all patterns arm.patterns)) next targets

  unfoldable pub loop_expression : ℕ → ℕ → Build ℕ
  loop_expression body next = node ▷ λ head.
      visit body head (some (record { break_target = next; continue_target = head }))
      ▷ λ body_entry. edge head body_entry ▷ λ _.
          push_loop (record { body = body; body_entry = body_entry; exit = next }) ▷ λ _. pure head

  unfoldable pub if_expression : Condition → ℕ → Option ℕ → ℕ → Option LoopTargets → Build ℕ
  if_expression test then_branch else_branch next targets = node ▷ λ branch.
      visit then_branch next targets ▷ λ then_entry. edge branch then_entry ▷ λ _.
      optional else_branch next targets ▷ λ else_entry.
      edge branch else_entry ▷ λ _. condition test branch targets

  unfoldable pub match_expression : List Pat → ℕ → List MatchArm → ℕ → Option LoopTargets → Build ℕ
  match_expression patterns scrutinee arms next targets = node ▷ λ branch.
      match_arms patterns arms branch false next targets ▷ λ exhaustive.
      (if not exhaustive then edge branch next else pure tt) ▷ λ _. visit scrutinee branch targets

  unfoldable pub while_statement : Condition → ℕ → ℕ → ℕ → Option LoopTargets → Build Unit
  while_statement test body n continuation targets = node ▷ λ branch.
      visit body n (some (record { break_target = continuation; continue_target = n }))
      ▷ λ body_entry. edge branch body_entry ▷ λ _.
          edge branch continuation ▷ λ _. condition test branch targets ▷ λ entry. edge n entry

  unfoldable pub loop_statement : ℕ → ℕ → ℕ → Build Unit
  loop_statement body n continuation =
      visit body n (some (record { break_target = continuation; continue_target = n }))
      ▷ λ body_entry. edge n body_entry ▷ λ _.
          push_loop (record { body = body; body_entry = body_entry; exit = continuation })

  unfoldable pub for_statement : ℕ → ℕ → ℕ → ℕ → Option LoopTargets → Build Unit
  for_statement iterable body n continuation targets = node ▷ λ branch.
      visit body branch (some (record { break_target = continuation; continue_target = branch }))
      ▷ λ body_entry. edge branch body_entry ▷ λ _.
          edge branch continuation ▷ λ _. visit iterable branch targets ▷ λ entry. edge n entry

  -- the edges of a statement with the node `n`
  unfoldable pub statement_edges : Statement → ℕ → ℕ → Option LoopTargets → Build Unit
  statement_edges Statement.missing n continuation targets = edge n continuation
  statement_edges (Statement.let_binding e) n continuation targets =
      visit e continuation targets ▷ λ entry. edge n entry
  statement_edges (Statement.expression e) n continuation targets =
      visit e continuation targets ▷ λ entry. edge n entry
  statement_edges (Statement.return_value value) n continuation targets =
      λ g. (optional value g.exit targets ▷ λ entry. edge n entry) g
  statement_edges (Statement.break_value value) n continuation targets =
      λ g. (optional value (break_target_of g targets) targets ▷ λ entry. edge n entry) g
  statement_edges Statement.continue n continuation targets =
      λ g. edge n (continue_target_of g targets) g
  statement_edges (Statement.while_loop test body) n continuation targets =
      while_statement test body n continuation targets
  statement_edges (Statement.endless_loop body) n continuation targets =
      loop_statement body n continuation
  statement_edges (Statement.for_loop iterable body) n continuation targets =
      for_statement iterable body n continuation targets

  -- the loop over the statements from the last to the first, `index` being that of the first
  unfoldable pub block_statements : ℕ → ℕ → List Statement → ℕ → Option LoopTargets → Build ℕ
  block_statements block index [] continuation targets = pure continuation
  block_statements block index (s ∷ ss) continuation targets =
      block_statements block (suc index) ss continuation targets ▷ λ behind. node ▷ λ n.
      add_statement (record { block = block; index = index }) n ▷ λ _.
      statement_edges s n behind targets ▷ λ _. pure n

  unfoldable pub block_expression : ℕ → Block → ℕ → Option LoopTargets → Build ℕ
  block_expression id b next targets = optional b.tail next targets ▷ λ continuation.
      block_statements id 0 b.statements continuation targets

  -- two expressions, the second behind the first
  abbrev pub both : ℕ → ℕ → ℕ → Option LoopTargets → Build ℕ
  both first second next targets = visit second next targets ▷ λ behind. visit first behind targets

  abbrev pub with_args : ℕ → List ℕ → ℕ → Option LoopTargets → Build ℕ
  with_args callee args next targets =
      expr_sequence args next targets ▷ λ behind. visit callee behind targets

  unfoldable pub expr_cases : List Pat → ℕ → Option Expr → ℕ → Option LoopTargets → Build ℕ
  expr_cases patterns id none next targets = pure next
  expr_cases patterns id (some Expr.missing) next targets = pure next
  expr_cases patterns id (some Expr.literal) next targets = pure next
  expr_cases patterns id (some Expr.path) next targets = pure next
  expr_cases patterns id (some (Expr.closure body)) next targets = pure next
  expr_cases patterns id (some (Expr.unary e)) next targets = visit e next targets
  expr_cases patterns id (some (Expr.try e)) next targets = visit e next targets
  expr_cases patterns id (some (Expr.paren e)) next targets = visit e next targets
  expr_cases patterns id (some (Expr.field e)) next targets = visit e next targets
  expr_cases patterns id (some (Expr.binary lhs rhs)) next targets = both lhs rhs next targets
  expr_cases patterns id (some (Expr.range lhs rhs)) next targets = both lhs rhs next targets
  expr_cases patterns id (some (Expr.loop body)) next targets = loop_expression body next
  expr_cases patterns id (some (Expr.assign target value)) next targets =
      both target value next targets
  expr_cases patterns id (some (Expr.call callee args)) next targets =
      with_args callee args next targets
  expr_cases patterns id (some (Expr.method_call receiver args)) next targets =
      with_args receiver args next targets
  expr_cases patterns id (some (Expr.index base i)) next targets = both base i next targets
  expr_cases patterns id (some (Expr.map_literal entries)) next targets =
      map_entries entries next targets
  expr_cases patterns id (some (Expr.if_then test a b)) next targets =
      if_expression test a b next targets
  expr_cases patterns id (some (Expr.match_on scrutinee arms)) next targets =
      match_expression patterns scrutinee arms next targets
  expr_cases patterns id (some (Expr.struct_literal values)) next targets =
      expr_sequence values next targets
  expr_cases patterns id (some (Expr.vec_literal elements)) next targets =
      expr_sequence elements next targets
  expr_cases patterns id (some (Expr.block b)) next targets = block_expression id b next targets

-- `Builder::expr`; the fuel is one more than the number of expressions one below the other
unfoldable pub expr : Body → ℕ → Visit
expr body zero id next targets = λ g. stuck
expr body (suc fuel) id next targets =
    expr_cases (expr body fuel) body.patterns id (get_elem? body.exprs id) next targets

unfoldable pub closure_bodies : List Expr → List ℕ
closure_bodies [] = []
closure_bodies (Expr.closure body ∷ exprs) = body ∷ closure_bodies exprs
closure_bodies (_ ∷ exprs) = closure_bodies exprs

unfoldable pub closures : Body → List ℕ → Build Unit
closures body [] = pure tt
closures body (e ∷ es) =
    λ g. (expr body (suc e) e g.exit none ▷ λ entry. edge g.entry entry ▷ λ _. closures body es) g

abbrev pub start : ControlFlowGraph
start = record { nodes = []; entry = 0; exit = 0; statement_nodes = []; loops = [] }

unfoldable pub build_from : Body → Build Unit
build_from body = node ▷ λ entry. node ▷ λ exit. λ g.
    (expr body (suc body.root_expr) body.root_expr exit none ▷ λ root.
    edge entry root ▷ λ _. closures body (closure_bodies body.exprs))
      (record g { entry = entry; exit = exit })

unfoldable pub build : Body → Call ControlFlowGraph
build body = build_from body start >>= λ r. ok r.1
