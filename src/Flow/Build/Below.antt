-- ===== src/Flow/Build/Below.antt =====
-- crates/rua-ide/src/analysis/hir/body.rs: bodies in which parts come before the whole.
use rua_lang.Base.{ℕ, ◌<◌, List, Option, none, some, All}
use rua_lang.Flow.Body.{Condition, Statement, MatchArm, MapLiteralEntry, Expr}

-- The expressions right below an expression, a condition, a statement have smaller identities.
abbrev pub ConditionBelow : ℕ → Condition → Type 0
ConditionBelow id (Condition.expr e) = e < id
ConditionBelow id (Condition.let_pattern pattern scrutinee) = scrutinee < id

abbrev pub OptionBelow : ℕ → Option ℕ → Type 0
OptionBelow id none = Unit
OptionBelow id (some e) = e < id

abbrev pub StatementBelow : ℕ → Statement → Type 0
StatementBelow id Statement.missing = Unit
StatementBelow id Statement.continue = Unit
StatementBelow id (Statement.let_binding e) = e < id
StatementBelow id (Statement.expression e) = e < id
StatementBelow id (Statement.return_value value) = OptionBelow id value
StatementBelow id (Statement.break_value value) = OptionBelow id value
StatementBelow id (Statement.while_loop test body) = ConditionBelow id test × (body < id)
StatementBelow id (Statement.endless_loop body) = body < id
StatementBelow id (Statement.for_loop iterable body) = (iterable < id) × (body < id)

abbrev pub ListBelow : ℕ → List ℕ → Type 0
ListBelow id = All (λ e. e < id)

abbrev pub EntryBelow : ℕ → MapLiteralEntry → Type 0
EntryBelow id entry = (entry.key < id) × (entry.value < id)

abbrev pub ArmBelow : ℕ → MatchArm → Type 0
ArmBelow id arm = (arm.body < id) × OptionBelow id arm.guard

abbrev pub ExprBelow : ℕ → Option Expr → Type 0
ExprBelow id none = Unit
ExprBelow id (some Expr.missing) = Unit
ExprBelow id (some Expr.literal) = Unit
ExprBelow id (some Expr.path) = Unit
ExprBelow id (some (Expr.closure body)) = Unit
ExprBelow id (some (Expr.unary e)) = e < id
ExprBelow id (some (Expr.try e)) = e < id
ExprBelow id (some (Expr.paren e)) = e < id
ExprBelow id (some (Expr.field e)) = e < id
ExprBelow id (some (Expr.binary lhs rhs)) = (lhs < id) × (rhs < id)
ExprBelow id (some (Expr.range lhs rhs)) = (lhs < id) × (rhs < id)
ExprBelow id (some (Expr.loop body)) = body < id
ExprBelow id (some (Expr.assign target value)) = (target < id) × (value < id)
ExprBelow id (some (Expr.call callee args)) = (callee < id) × ListBelow id args
ExprBelow id (some (Expr.method_call receiver args)) = (receiver < id) × ListBelow id args
ExprBelow id (some (Expr.index base i)) = (base < id) × (i < id)
ExprBelow id (some (Expr.map_literal entries)) = All (EntryBelow id) entries
ExprBelow id (some (Expr.if_then test a b)) = ConditionBelow id test × (a < id) × OptionBelow id b
ExprBelow id (some (Expr.match_on scrutinee arms)) = (scrutinee < id) × All (ArmBelow id) arms
ExprBelow id (some (Expr.struct_literal values)) = ListBelow id values
ExprBelow id (some (Expr.vec_literal elements)) = ListBelow id elements
ExprBelow id (some (Expr.block b)) = All (StatementBelow id) b.statements × OptionBelow id b.tail
