-- ===== src/Flow/Build/Exprs.antt =====
-- crates/rua-ide/src/analysis/hir/cfg.rs: the builder's visit of expressions and statements, given
-- that of the expressions below.
use rua_lang.Base.{
  ℕ, suc, ◌≤◌, ◌<◌, Bool, false, not, List, [], ◌∷◌, Option, none, some, All, Returns,
  if◌then◌else◌, if-both, arith,
}
use rua_lang.Flow.{ControlFlowGraph}
use rua_lang.Flow.Body.{Condition, Statement, Block, MatchArm, MapLiteralEntry, Pat, Expr}
use rua_lang.Flow.Build.Below.{
  ConditionBelow, OptionBelow, StatementBelow, ListBelow, EntryBelow, ArmBelow, ExprBelow,
}
use rua_lang.Flow.Builder.{
  LoopTargets, Build, ◌▷◌, pure, node, edge, push_loop, add_statement, Visit, optional,
  expr_sequence, map_entries, condition, match_arms, loop_expression, if_expression,
  match_expression, break_target_of, continue_target_of, while_statement, loop_statement,
  for_statement, statement_edges, block_statements, block_expression, both, with_args, expr_cases,
}
use rua_lang.Flow.Build.Steps.{
  size, Ready, Grown, Inside, Nothing, TargetsInside, TargetsInside-le, bind-Grown, pure-Grown,
  node-Grown, edge-Grown, push_loop-Grown, add_statement-Grown,
}

-- A build from any graph under construction with the node that comes next and the targets of the loop.
abbrev pub Visits : (ℕ → Option LoopTargets → Build ℕ) → Type 0
Visits m =
    (next : ℕ) (targets : Option LoopTargets) (g : ControlFlowGraph)
    → Ready g
    → next < size g
    → TargetsInside targets (size g)
    → Returns (m next targets g) (Grown g Inside)

module _ (visit : Visit) (id : ℕ) (visits : (e : ℕ) → e < id → Visits (visit e)) where
  stay-Visits : Visits (λ next targets. pure next)
  stay-Visits next targets g ready inside t = pure-Grown Inside next g ready inside

  optional-Visits : (o : Option ℕ) → OptionBelow id o → Visits (optional visit o)
  optional-Visits none h = stay-Visits
  optional-Visits (some e) h = visits e h

  -- One visit and then another, each in a larger graph.
  both-Visits :
      (m n : ℕ → Option LoopTargets → Build ℕ)
      → Visits m
      → Visits n
      → Visits (λ next targets. m next targets ▷ λ behind. n behind targets)
  both-Visits m n f k next targets g ready inside t =
      bind-Grown (m next targets) (λ behind. n behind targets) g (f next targets g ready inside t)
        (λ behind g' r.
          k behind targets g' r.ready r.holds (TargetsInside-le targets (size g) (size g') r.le t))

  sequence-Visits : (es : List ℕ) → ListBelow id es → Visits (expr_sequence visit es)
  unfolding expr_sequence
  sequence-Visits [] h = stay-Visits
  sequence-Visits (e ∷ es) (h, hs) =
      both-Visits (expr_sequence visit es) (visit e) (sequence-Visits es hs) (visits e h)

  entries-Visits :
      (es : List MapLiteralEntry) → All (EntryBelow id) es → Visits (map_entries visit es)
  unfolding map_entries
  entries-Visits [] h = stay-Visits
  entries-Visits (e ∷ es) ((h, k), hs) =
      both-Visits (map_entries visit es)
        (λ next targets. visit e.value next targets ▷ λ value. visit e.key value targets)
        (entries-Visits es hs)
        (both-Visits (visit e.value) (visit e.key) (visits e.value k) (visits e.key h))

  condition-Visits : (c : Condition) → ConditionBelow id c → Visits (condition visit c)
  condition-Visits (Condition.expr e) h = visits e h
  condition-Visits (Condition.let_pattern pattern scrutinee) h = visits scrutinee h

  loop_expression-Visits :
      (body : ℕ) → body < id → Visits (λ next targets. loop_expression visit body next)
  unfolding loop_expression
  loop_expression-Visits body h next targets g ready inside t =
      bind-Grown node _ g (node-Grown g ready) (λ head g1 r1.
        bind-Grown (visit body head _) _ g1
          (visits body h head _ g1 r1.ready r1.holds (omega (arith, inside, r1.le), r1.holds))
          (λ body_entry g2 r2.
            bind-Grown (edge head body_entry) _ g2
              (edge-Grown head body_entry g2 r2.ready (omega (arith, r1.holds, r2.le)) r2.holds)
              (λ _ g3 r3.
                bind-Grown (push_loop _) _ g3
                  (push_loop-Grown _ g3 r3.ready (omega (arith, r2.holds, r3.le)))
                  (λ _ g4 r4.
                    pure-Grown Inside head g4 r4.ready
                      (omega (arith, r1.holds, r2.le, r3.le, r4.le))))))

  if_expression-Visits :
      (test : Condition) (a : ℕ) (b : Option ℕ)
      → ConditionBelow id test
      → a < id
      → OptionBelow id b
      → Visits (if_expression visit test a b)
  unfolding if_expression
  if_expression-Visits test a b h k l next targets g ready inside t =
      bind-Grown node _ g (node-Grown g ready) (λ branch g1 r1.
        bind-Grown (visit a next targets) _ g1
          (visits a k next targets g1 r1.ready (omega (arith, inside, r1.le))
            (TargetsInside-le targets (size g) (size g1) r1.le t))
          (λ then_entry g2 r2.
            bind-Grown (edge branch then_entry) _ g2
              (edge-Grown branch then_entry g2 r2.ready (omega (arith, r1.holds, r2.le)) r2.holds)
              (λ _ g3 r3.
                let le3 : size g ≤ size g3 = omega (arith, r1.le, r2.le, r3.le) in
                bind-Grown (optional visit b next targets) _ g3
                  (optional-Visits b l next targets g3 r3.ready (omega (arith, inside, le3))
                    (TargetsInside-le targets (size g) (size g3) le3 t))
                  (λ else_entry g4 r4.
                    bind-Grown (edge branch else_entry) _ g4
                      (edge-Grown branch else_entry g4 r4.ready
                        (omega (arith, r1.holds, r2.le, r3.le, r4.le)) r4.holds)
                      (λ _ g5 r5.
                        condition-Visits test h branch targets g5 r5.ready
                          (omega (arith, r1.holds, r2.le, r3.le, r4.le, r5.le))
                          (TargetsInside-le targets (size g) (size g5)
                            (omega (arith, le3, r4.le, r5.le)) t))))))

  arms-Grown :
      (patterns : List Pat) (arms : List MatchArm) (branch : ℕ) (exhaustive : Bool) (next : ℕ)
      (targets : Option LoopTargets) (g : ControlFlowGraph)
      → All (ArmBelow id) arms
      → Ready g
      → branch < size g
      → next < size g
      → TargetsInside targets (size g)
      → Returns (match_arms visit patterns arms branch exhaustive next targets g) (Grown g Nothing)
  unfolding match_arms
  arms-Grown patterns [] branch exhaustive next targets g h ready b inside t =
      pure-Grown Nothing exhaustive g ready tt
  arms-Grown patterns (arm ∷ arms) branch exhaustive next targets g ((h, k), hs) ready b inside t =
      bind-Grown (visit arm.body next targets) _ g (visits arm.body h next targets g ready inside t)
        (λ body_entry g1 r1.
          bind-Grown (optional visit arm.guard body_entry targets) _ g1
            (optional-Visits arm.guard k body_entry targets g1 r1.ready r1.holds
              (TargetsInside-le targets (size g) (size g1) r1.le t))
            (λ arm_entry g2 r2.
              bind-Grown (edge branch arm_entry) _ g2
                (edge-Grown branch arm_entry g2 r2.ready (omega (arith, b, r1.le, r2.le)) r2.holds)
                (λ _ g3 r3.
                  let le3 : size g ≤ size g3 = omega (arith, r1.le, r2.le, r3.le) in
                  arms-Grown patterns arms branch _ next targets g3 hs r3.ready
                    (omega (arith, b, le3)) (omega (arith, inside, le3))
                    (TargetsInside-le targets (size g) (size g3) le3 t))))

  match_expression-Visits :
      (patterns : List Pat) (scrutinee : ℕ) (arms : List MatchArm)
      → scrutinee < id
      → All (ArmBelow id) arms
      → Visits (match_expression visit patterns scrutinee arms)
  unfolding match_expression
  match_expression-Visits patterns scrutinee arms h hs next targets g ready inside t =
      bind-Grown node _ g (node-Grown g ready) (λ branch g1 r1.
        bind-Grown (match_arms visit patterns arms branch false next targets) _ g1
          (arms-Grown patterns arms branch false next targets g1 hs r1.ready r1.holds
            (omega (arith, inside, r1.le)) (TargetsInside-le targets (size g) (size g1) r1.le t))
          (λ exhaustive g2 r2.
            bind-Grown (if not exhaustive then edge branch next else pure tt) _ g2
              (if-both (λ (m : Build Unit). Returns (m g2) (Grown g2 Nothing)) (not exhaustive)
                (λ _.
                  edge-Grown branch next g2 r2.ready (omega (arith, r1.holds, r2.le))
                    (omega (arith, inside, r1.le, r2.le)))
                (λ _. pure-Grown Nothing tt g2 r2.ready tt))
              (λ _ g3 r3.
                visits scrutinee h branch targets g3 r3.ready
                  (omega (arith, r1.holds, r2.le, r3.le))
                  (TargetsInside-le targets (size g) (size g3) (omega (arith, r1.le, r2.le, r3.le))
                    t))))

  -- The edges of a statement, whose node is there.
  abbrev Links : (ℕ → ℕ → Option LoopTargets → Build Unit) → Type 0
  Links m =
      (n continuation : ℕ) (targets : Option LoopTargets) (g : ControlFlowGraph)
      → Ready g
      → n < size g
      → continuation < size g
      → TargetsInside targets (size g)
      → Returns (m n continuation targets g) (Grown g Nothing)

  -- A visit, and an edge from the statement's node to its entry.
  visit_and_link :
      (m : ℕ → Option LoopTargets → Build ℕ)
      → Visits m
      → Links (λ n next targets. m next targets ▷ λ entry. edge n entry)
  visit_and_link m f n next targets g ready inside_n inside t =
      bind-Grown (m next targets) (λ entry. edge n entry) g (f next targets g ready inside t)
        (λ entry g' r. edge-Grown n entry g' r.ready (omega (arith, inside_n, r.le)) r.holds)

  while_statement-Links :
      (test : Condition) (body : ℕ)
      → ConditionBelow id test
      → body < id
      → Links (while_statement visit test body)
  unfolding while_statement
  while_statement-Links test body h k n continuation targets g ready inside_n inside t =
      bind-Grown node _ g (node-Grown g ready) (λ branch g1 r1.
        bind-Grown (visit body n _) _ g1
          (visits body k n _ g1 r1.ready (omega (arith, inside_n, r1.le))
            (omega (arith, inside, r1.le), omega (arith, inside_n, r1.le)))
          (λ body_entry g2 r2.
            bind-Grown (edge branch body_entry) _ g2
              (edge-Grown branch body_entry g2 r2.ready (omega (arith, r1.holds, r2.le)) r2.holds)
              (λ _ g3 r3.
                let le3 : size g ≤ size g3 = omega (arith, r1.le, r2.le, r3.le) in
                bind-Grown (edge branch continuation) _ g3
                  (edge-Grown branch continuation g3 r3.ready
                    (omega (arith, r1.holds, r2.le, r3.le)) (omega (arith, inside, le3)))
                  (λ _ g4 r4.
                    let le4 : size g ≤ size g4 = omega (arith, le3, r4.le) in
                    visit_and_link (condition visit test) (condition-Visits test h) n branch targets
                      g4 r4.ready (omega (arith, inside_n, le4))
                      (omega (arith, r1.holds, r2.le, r3.le, r4.le))
                      (TargetsInside-le targets (size g) (size g4) le4 t)))))

  for_statement-Links :
      (iterable body : ℕ) → iterable < id → body < id → Links (for_statement visit iterable body)
  unfolding for_statement
  for_statement-Links iterable body h k n continuation targets g ready inside_n inside t =
      bind-Grown node _ g (node-Grown g ready) (λ branch g1 r1.
        bind-Grown (visit body branch _) _ g1
          (visits body k branch _ g1 r1.ready r1.holds (omega (arith, inside, r1.le), r1.holds))
          (λ body_entry g2 r2.
            bind-Grown (edge branch body_entry) _ g2
              (edge-Grown branch body_entry g2 r2.ready (omega (arith, r1.holds, r2.le)) r2.holds)
              (λ _ g3 r3.
                let le3 : size g ≤ size g3 = omega (arith, r1.le, r2.le, r3.le) in
                bind-Grown (edge branch continuation) _ g3
                  (edge-Grown branch continuation g3 r3.ready
                    (omega (arith, r1.holds, r2.le, r3.le)) (omega (arith, inside, le3)))
                  (λ _ g4 r4.
                    let le4 : size g ≤ size g4 = omega (arith, le3, r4.le) in
                    visit_and_link (visit iterable) (visits iterable h) n branch targets g4 r4.ready
                      (omega (arith, inside_n, le4)) (omega (arith, r1.holds, r2.le, r3.le, r4.le))
                      (TargetsInside-le targets (size g) (size g4) le4 t)))))

  loop_statement-Links :
      (body : ℕ)
      → body < id
      → Links (λ n continuation targets. loop_statement visit body n continuation)
  unfolding loop_statement
  loop_statement-Links body h n continuation targets g ready inside_n inside t =
      bind-Grown (visit body n _) _ g (visits body h n _ g ready inside_n (inside, inside_n))
        (λ body_entry g1 r1.
          bind-Grown (edge n body_entry) _ g1
            (edge-Grown n body_entry g1 r1.ready (omega (arith, inside_n, r1.le)) r1.holds)
            (λ _ g2 r2. push_loop-Grown _ g2 r2.ready (omega (arith, r1.holds, r2.le))))

  break_inside :
      (targets : Option LoopTargets) (g : ControlFlowGraph)
      → Ready g
      → TargetsInside targets (size g)
      → (break_target_of g targets < size g) × (continue_target_of g targets < size g)
  break_inside none g ready t = (ready.exit, ready.exit)
  break_inside (some targets) g ready t = t

  statement_edges-Links : (s : Statement) → StatementBelow id s → Links (statement_edges visit s)
  unfolding statement_edges
  statement_edges-Links Statement.missing h n c targets g ready inside_n inside t =
      edge-Grown n c g ready inside_n inside
  statement_edges-Links (Statement.let_binding e) h n c targets g ready inside_n inside t =
      visit_and_link (visit e) (visits e h) n c targets g ready inside_n inside t
  statement_edges-Links (Statement.expression e) h n c targets g ready inside_n inside t =
      visit_and_link (visit e) (visits e h) n c targets g ready inside_n inside t
  statement_edges-Links (Statement.return_value value) h n c targets g ready inside_n inside t =
      visit_and_link (optional visit value) (optional-Visits value h) n g.exit targets g ready
        inside_n ready.exit t
  statement_edges-Links (Statement.break_value value) h n c targets g ready inside_n inside t =
      visit_and_link (optional visit value) (optional-Visits value h) n (break_target_of g targets)
        targets g ready inside_n (break_inside targets g ready t).0 t
  statement_edges-Links Statement.continue h n c targets g ready inside_n inside t =
      edge-Grown n (continue_target_of g targets) g ready inside_n
        (break_inside targets g ready t).1
  statement_edges-Links (Statement.while_loop test body) (h, k) n c targets g ready inside_n inside
        t =
      while_statement-Links test body h k n c targets g ready inside_n inside t
  statement_edges-Links (Statement.endless_loop body) h n c targets g ready inside_n inside t =
      loop_statement-Links body h n c targets g ready inside_n inside t
  statement_edges-Links (Statement.for_loop iterable body) (h, k) n c targets g ready inside_n
        inside t =
      for_statement-Links iterable body h k n c targets g ready inside_n inside t

  block_statements-Visits :
      (block index : ℕ) (ss : List Statement)
      → All (StatementBelow id) ss
      → Visits (block_statements visit block index ss)
  unfolding block_statements
  block_statements-Visits block index [] h next targets g ready inside t =
      stay-Visits next targets g ready inside t
  block_statements-Visits block index (s ∷ ss) (h, hs) next targets g ready inside t =
      bind-Grown (block_statements visit block (suc index) ss next targets) _ g
        (block_statements-Visits block (suc index) ss hs next targets g ready inside t)
        (λ behind g1 r1. bind-Grown node _ g1 (node-Grown g1 r1.ready) (λ n g2 r2.
          bind-Grown (add_statement _ n) _ g2 (add_statement-Grown _ n g2 r2.ready) (λ _ g3 r3.
            bind-Grown (statement_edges visit s n behind targets) _ g3
              (statement_edges-Links s h n behind targets g3 r3.ready
                (omega (arith, r2.holds, r3.le)) (omega (arith, r1.holds, r2.le, r3.le))
                (TargetsInside-le targets (size g) (size g3) (omega (arith, r1.le, r2.le, r3.le))
                  t))
              (λ _ g4 r4.
                pure-Grown Inside n g4 r4.ready (omega (arith, r2.holds, r3.le, r4.le))))))

  block_expression-Visits :
      (block : ℕ) (b : Block)
      → All (StatementBelow id) b.statements
      → OptionBelow id b.tail
      → Visits (block_expression visit block b)
  unfolding block_expression
  block_expression-Visits block b h k =
      both-Visits (optional visit b.tail) (block_statements visit block 0 b.statements)
        (optional-Visits b.tail k) (block_statements-Visits block 0 b.statements h)

  two-Visits : (first second : ℕ) → first < id → second < id → Visits (both visit first second)
  two-Visits first second h k =
      both-Visits (visit second) (visit first) (visits second k) (visits first h)

  args-Visits :
      (callee : ℕ) (args : List ℕ)
      → callee < id
      → ListBelow id args
      → Visits (with_args visit callee args)
  args-Visits callee args h k =
      both-Visits (expr_sequence visit args) (visit callee) (sequence-Visits args k)
        (visits callee h)

  pub expr_cases-Visits :
      (patterns : List Pat) (e : Option Expr)
      → ExprBelow id e
      → Visits (expr_cases visit patterns id e)
  unfolding expr_cases
  expr_cases-Visits patterns none h = stay-Visits
  expr_cases-Visits patterns (some Expr.missing) h = stay-Visits
  expr_cases-Visits patterns (some Expr.literal) h = stay-Visits
  expr_cases-Visits patterns (some Expr.path) h = stay-Visits
  expr_cases-Visits patterns (some (Expr.closure body)) h = stay-Visits
  expr_cases-Visits patterns (some (Expr.unary e)) h = visits e h
  expr_cases-Visits patterns (some (Expr.try e)) h = visits e h
  expr_cases-Visits patterns (some (Expr.paren e)) h = visits e h
  expr_cases-Visits patterns (some (Expr.field e)) h = visits e h
  expr_cases-Visits patterns (some (Expr.binary lhs rhs)) (h, k) = two-Visits lhs rhs h k
  expr_cases-Visits patterns (some (Expr.range lhs rhs)) (h, k) = two-Visits lhs rhs h k
  expr_cases-Visits patterns (some (Expr.loop body)) h = loop_expression-Visits body h
  expr_cases-Visits patterns (some (Expr.assign target value)) (h, k) = two-Visits target value h k
  expr_cases-Visits patterns (some (Expr.call callee args)) (h, k) = args-Visits callee args h k
  expr_cases-Visits patterns (some (Expr.method_call receiver args)) (h, k) =
      args-Visits receiver args h k
  expr_cases-Visits patterns (some (Expr.index base i)) (h, k) = two-Visits base i h k
  expr_cases-Visits patterns (some (Expr.map_literal entries)) h = entries-Visits entries h
  expr_cases-Visits patterns (some (Expr.if_then test a b)) (h, k, l) =
      if_expression-Visits test a b h k l
  expr_cases-Visits patterns (some (Expr.match_on scrutinee arms)) (h, k) =
      match_expression-Visits patterns scrutinee arms h k
  expr_cases-Visits patterns (some (Expr.struct_literal values)) h = sequence-Visits values h
  expr_cases-Visits patterns (some (Expr.vec_literal elements)) h = sequence-Visits elements h
  expr_cases-Visits patterns (some (Expr.block b)) (h, k) = block_expression-Visits id b h k
