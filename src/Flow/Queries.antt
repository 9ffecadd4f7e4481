-- ===== src/Flow/Queries.antt =====
-- crates/rua-ide/src/analysis/hir/cfg.rs: `unreachable_statements` and `infinite_loops` say what the
-- paths of the graph say.
use rua_lang.Base.{
  ℕ, ◌<◌, ◌≡◌, refl, sym, ◌∙◌, inl, inr, ◌⊎◌, ◌↔◌, true, false, List, [], ◌∷◌, All, Returns,
  Bool-cases, length,
}
use rua_lang.Flow.{
  Node, StatementId, LoopRecord, ControlFlowGraph, has, path_exists, unreached,
  unreachable_statements, reaches_exit, infinite_among, infinite_loops,
}
use rua_lang.Flow.Reach.{IsBounded, Walk, reachable_from-Finds}

-- A graph whose edges, entries, exit and loops are nodes of it.
pub record IsGraph (g : ControlFlowGraph) : Type 0 where
  pub bounded : IsBounded g.nodes
  pub entry : g.entry < length g.nodes
  pub loops : All (λ (l : LoopRecord). l.body_entry < length g.nodes) g.loops

-- The results for the items without a property, in their order.
pub data Without {A B : Type 0} (P : A → Type 0) (f : A → B) : List A → List B → Type 0 where
  none_left : Without P f [] []
  listed :
      {a : A} {items : List A} {bs : List B}
      → ¬ P a
      → Without P f items bs
      → Without P f (a ∷ items) (f a ∷ bs)
  left_out :
      {a : A} {items : List A} {bs : List B}
      → P a
      → Without P f items bs
      → Without P f (a ∷ items) bs

unreached-Without :
    (nodes : List Node) (start : ℕ) (reachable : List ℕ)
    → ((n : ℕ) → (has reachable n ≡ true) ↔ Walk nodes start n)
    → (statements : List (StatementId × ℕ))
    → Without
        (λ (s : StatementId × ℕ). Walk nodes start s.1)
        (λ (s : StatementId × ℕ). s.0)
        statements
        (unreached reachable statements)
unfolding unreached
unreached-Without nodes start reachable finds [] = none_left
unreached-Without nodes start reachable finds ((statement, node) ∷ rest) =
    elim (Bool-cases (has reachable node)) [
      | inl t ↦
          rw t (left_out ((finds node).0 t) (unreached-Without nodes start reachable finds rest))
      | inr f ↦ rw f (
          listed (λ w. let both : true ≡ false = sym ((finds node).1 w) ∙ f in cc)
            (unreached-Without nodes start reachable finds rest))
    ]

-- For every graph whose edges, entry and loops are nodes of it, `unreachable_statements` returns. It
-- lists the statements to whose nodes no path leads from the entry, and no others.
pub unreachable_statements-Without :
    (g : ControlFlowGraph)
    → IsGraph g
    → Returns (unreachable_statements g) (
        Without
          (λ (s : StatementId × ℕ). Walk g.nodes g.entry s.1)
          (λ (s : StatementId × ℕ). s.0)
          g.statement_nodes)
unfolding unreachable_statements
unreachable_statements-Without g sound =
    let (reachable, e, finds) = reachable_from-Finds g g.entry sound.bounded sound.entry in
    rw e (_, refl, unreached-Without g.nodes g.entry reachable finds g.statement_nodes)

path_exists_iff :
    (g : ControlFlowGraph) (start target : ℕ)
    → IsBounded g.nodes
    → start < length g.nodes
    → Returns (path_exists g start target) (λ b. (b ≡ true) ↔ Walk g.nodes start target)
unfolding path_exists
path_exists_iff g start target bounded inside =
    let (reachable, e, finds) = reachable_from-Finds g start bounded inside in
    rw e (_, refl, finds target)

-- A path from the body of a loop to its exit or out of the body of the function.
abbrev pub Leaves : ControlFlowGraph → LoopRecord → Type 0
Leaves g l = Walk g.nodes l.body_entry l.exit ⊎ Walk g.nodes l.body_entry g.exit

reaches_exit_iff :
    (g : ControlFlowGraph) (l : LoopRecord)
    → IsBounded g.nodes
    → l.body_entry < length g.nodes
    → Returns (reaches_exit g l) (λ b. (b ≡ true) ↔ Leaves g l)
unfolding reaches_exit
reaches_exit_iff g l bounded inside =
    let (b, e, h) = path_exists_iff g l.body_entry l.exit bounded inside in
    let (c, e', h') = path_exists_iff g l.body_entry g.exit bounded inside in
    elim (Bool-cases b) [
      | inl t ↦ rw (e, t) (true, refl, (λ _. inl (h.0 t), λ _. refl))
      | inr f ↦
          rw (e, f)
            (
              c,
              e',
              (
                λ k. inr (h'.0 k),
                λ w. elim w [
                  | inl out ↦ let both : true ≡ false = sym (h.1 out) ∙ f in cc
                  | inr out ↦ h'.1 out
                ],
              ),
            )
    ]

infinite_among-Without :
    (g : ControlFlowGraph) (loops : List LoopRecord)
    → IsBounded g.nodes
    → All (λ (l : LoopRecord). l.body_entry < length g.nodes) loops
    → Returns (infinite_among g loops) (Without (Leaves g) (λ (l : LoopRecord). l.body) loops)
unfolding infinite_among
infinite_among-Without g [] bounded inside = ([], refl, none_left)
infinite_among-Without g (l ∷ ls) bounded (inside, rest_inside) =
    let (b, e, h) = reaches_exit_iff g l bounded inside in
    let (rest, e', k) = infinite_among-Without g ls bounded rest_inside in
    elim (Bool-cases b) [
      | inl t ↦ rw (e, e', t) (_, refl, left_out (h.0 t) k)
      | inr f ↦
          rw (e, e', f) (_, refl, listed (λ w. let both : true ≡ false = sym (h.1 w) ∙ f in cc) k)
    ]

-- For every graph whose edges, entry and loops are nodes of it, `infinite_loops` returns. It lists the
-- bodies of the loops from whose entries no path leads to the loop's exit or to the function's, and no
-- others.
pub infinite_loops-Without :
    (g : ControlFlowGraph)
    → IsGraph g
    → Returns (infinite_loops g) (Without (Leaves g) (λ (l : LoopRecord). l.body) g.loops)
unfolding infinite_loops
infinite_loops-Without g sound = infinite_among-Without g g.loops sound.bounded sound.loops
