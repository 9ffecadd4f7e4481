-- ===== src/Flow/Body.antt =====
-- crates/rua-ide/src/analysis/hir/body.rs: the expressions of a body, kept in arenas under their
-- identities. Names, operators, literals, types and bindings, which the control-flow graph does not
-- read, are left out of the constructors.
use rua_lang.Base.{ℕ, List, Option}

pub data Condition : Type 0 where
  expr : ℕ → Condition
  let_pattern : ℕ → ℕ → Condition

pub data Statement : Type 0 where
  missing continue : Statement
  let_binding : ℕ → Statement
  expression : ℕ → Statement
  return_value break_value : Option ℕ → Statement
  while_loop : Condition → ℕ → Statement
  endless_loop : ℕ → Statement
  for_loop : ℕ → ℕ → Statement

pub record Block : Type 0 where
  pub statements : List Statement
  pub tail : Option ℕ

pub record MatchArm : Type 0 where
  pub patterns : List ℕ
  pub guard : Option ℕ
  pub body : ℕ

pub record MapLiteralEntry : Type 0 where
  pub key : ℕ
  pub value : ℕ

pub data Pat : Type 0 where
  missing wildcard binding literal range path tuple_variant struct_variant : Pat

pub data Expr : Type 0 where
  missing literal path : Expr
  unary try paren field : ℕ → Expr
  binary range : ℕ → ℕ → Expr
  closure loop : ℕ → Expr
  assign : (target value : ℕ) → Expr
  call method_call : ℕ → List ℕ → Expr
  index : (base index : ℕ) → Expr
  if_then : Condition → ℕ → Option ℕ → Expr
  match_on : ℕ → List MatchArm → Expr
  struct_literal vec_literal : List ℕ → Expr
  map_literal : List MapLiteralEntry → Expr
  block : Block → Expr

pub record Body : Type 0 where
  pub root_expr : ℕ
  pub exprs : List Expr
  pub patterns : List Pat
