-- ===== src/Flow.antt =====
-- crates/rua-ide/src/analysis/hir/cfg.rs: the control-flow graph of a body, and its queries.
pub mod Reach
pub mod Queries
pub mod Body
pub mod Builder
pub mod Build
use rua_lang.Base.{
  ℕ, suc, ◌+◌, Bool, true, false, not, ◌&&◌, ◌||◌, List, [], ◌∷◌, ◌++◌, Option, none, some, Call,
  ok, panic, ◌>>=◌, Next, go, stop, loop, ◌==◌, if◌then◌else◌, length, get_elem?,
}

pub record StatementId : Type 0 where
  pub block : ℕ
  pub index : ℕ

pub record Node : Type 0 where
  pub successors : List ℕ

pub record LoopRecord : Type 0 where
  pub body : ℕ
  pub body_entry : ℕ
  pub exit : ℕ

pub record ControlFlowGraph : Type 0 where
  pub nodes : List Node
  pub entry : ℕ
  pub exit : ℕ
  pub statement_nodes : List (StatementId × ℕ)
  pub loops : List LoopRecord

-- membership in a set or a list of nodes
unfoldable pub has : List ℕ → ℕ → Bool
has [] n = false
has (x ∷ xs) n = x == n || has xs n

-- the nodes reached, and the stack of pending ones with its top first
pub record Search : Type 0 where
  pub reachable : List ℕ
  pub pending : List ℕ

-- `pending.extend(..)`
unfoldable pub extend : List ℕ → List ℕ → List ℕ
extend [] pending = pending
extend (x ∷ xs) pending = extend xs (x ∷ pending)

unfoldable pub visit : List Node → List ℕ → ℕ → List ℕ → Call (Next Search (List ℕ))
visit nodes reachable node pending =
    if has reachable node
    then ok (go (record { reachable = reachable; pending = pending }))
    else elim (get_elem? nodes node) [
      | none ↦ panic
      | some n ↦
          ok (go (record { reachable = node ∷ reachable; pending = extend n.successors pending }))
    ]

unfoldable pub search_step : List Node → Search → Call (Next Search (List ℕ))
search_step nodes s = elim s.pending [
  | [] ↦ ok (stop s.reachable)
  | node ∷ pending ↦ visit nodes s.reachable node pending
]

-- the number of edges
unfoldable pub edge_count : List Node → ℕ
edge_count [] = 0
edge_count (n ∷ nodes) = length n.successors + edge_count nodes

unfoldable pub reachable_from : ControlFlowGraph → ℕ → Call (List ℕ)
reachable_from g start =
    loop (2 + edge_count g.nodes) (search_step g.nodes)
      (record { reachable = []; pending = start ∷ [] })

unfoldable pub path_exists : ControlFlowGraph → ℕ → ℕ → Call Bool
path_exists g start target = reachable_from g start >>= λ reachable. ok (has reachable target)

unfoldable pub unreached : List ℕ → List (StatementId × ℕ) → List StatementId
unreached reachable [] = []
unreached reachable ((statement, node) ∷ rest) =
    let others = unreached reachable rest in
    if not (has reachable node) then statement ∷ others else others

unfoldable pub unreachable_statements : ControlFlowGraph → Call (List StatementId)
unreachable_statements g =
    reachable_from g g.entry >>= λ reachable. ok (unreached reachable g.statement_nodes)

-- `path_exists(..) || path_exists(..)`
unfoldable pub reaches_exit : ControlFlowGraph → LoopRecord → Call Bool
reaches_exit g l = path_exists g l.body_entry l.exit >>= λ b. elim b [
  | true ↦ ok true
  | false ↦ path_exists g l.body_entry g.exit
]

unfoldable pub infinite_among : ControlFlowGraph → List LoopRecord → Call (List ℕ)
infinite_among g [] = ok []
infinite_among g (l ∷ ls) = reaches_exit g l >>= λ b.
    infinite_among g ls >>= λ rest. ok (if not b then l.body ∷ rest else rest)

unfoldable pub infinite_loops : ControlFlowGraph → Call (List ℕ)
infinite_loops g = infinite_among g g.loops
