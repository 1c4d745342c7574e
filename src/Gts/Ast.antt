-- ===== src/Gts/Ast.antt =====
-- crates/night24-gts/src/ast/mod.rs: literals, names, operators, conditionals and assignments to names,
-- and the statements that hold them. `InfixExpr` without a right operand is `postfix_expr`. A string
-- literal holds the text of its token, quotes and escapes included.
use night.Text.{Text}
use night.Prelude.{ℕ, Bool, Option, List}
use night.Gts.Chunk.{Position}

pub record Ident : Type 0 where
  pub pos : Position
  pub name : Text

pub data Expr : Type 0 where
  number_lit : Position → ℕ → Expr
  bool_lit : Position → Bool → Expr
  null_lit undefined_lit : Position → Expr
  string_lit : Position → Text → Expr
  ident : Ident → Expr
  prefix : Position → Text → Expr → Expr
  infix_expr : Position → Text → Expr → Expr → Expr
  postfix_expr : Position → Text → Expr → Expr
  ternary : Position → Expr → Expr → Expr → Expr
  assign_expr : Position → Text → Ident → Expr → Expr

-- `let`, `var` and `const` without a pattern or an annotation; `const` is marked by the flag.
pub data Stmt : Type 0 where
  expr_stmt : Position → Expr → Stmt
  declare : Position → Bool → Text → Option Expr → Stmt

pub record Program : Type 0 where
  pub pos : Position
  pub body : List Stmt
