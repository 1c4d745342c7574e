-- ===== src/Gts/Evaluator.antt =====
-- crates/night24-gts/src/evaluator/expressions.rs and eval_core.rs: the tree-walker on this part of the
-- language, with no deadline set. The environment is passed through; a panic is the result `none`.
use night.Text.{Text, lit, text_eq}
use night.Gts.Ast.{
  Ident, Expr, Stmt, Program, ident, number_lit, expr_stmt, bool_lit, declare, null_lit,
  undefined_lit, string_lit, prefix, infix_expr, ternary, assign_expr, postfix_expr,
}
use night.Prelude.{
  Result, ok, err, not, if◌then◌else◌, ℕ, Bool, true, false, ◌||◌, Option, none, some, List, ◌∷◌,
  ◌++◌, [],
}
use night.Gts.Value.{
  Floats, Heap, Fault, fault, apply_binary_op, apply_unary_op, is_truthy, type_tag,
}
use night.Gts.StringLit.{eval_string_lit}
use night.Gts.Environment.{Env, assign, set_here, get}
use night.Gts.Chunk.{Object, Position, number, boolean, null, undefined, string}

-- The environment and the result, or `none` for a panic.
abbrev pub Outcome : Type 0
Outcome = Env × Option (Result Object Fault)

abbrev pub given : Env → Result Object Fault → Outcome
given env r = (env, some r)

-- `if v.is_runtime_error() { return v; }`
infixl 5 ◌>>?◌
abbrev pub ◌>>?◌ : Outcome → (Env → Object → Outcome) → Outcome
(env, some (ok v)) >>? f = f env v
(env, some (err e)) >>? f = (env, some (err e))
(env, none) >>? f = (env, none)

-- `str_obj` of the text that `eval_string_lit` gives.
abbrev pub string_value : Option Text → Option (Result Object Fault)
string_value none = none
string_value (some text) = some (ok (string text))

abbrev pub reference_error : Ident → Result Object Fault
reference_error i = fault i.pos (lit "ReferenceError: '" ++ (i.name ++ lit "' is not defined"))

abbrev pub constant_error : Position → Text → Result Object Fault
constant_error pos name = fault pos (lit "TypeError: assignment to constant '" ++ (name ++ lit "'"))

unfoldable pub eval_ident : Ident → Env → Result Object Fault
eval_ident i env = elim (get env i.name) [ none ↦ reference_error i | some v ↦ ok v ]

-- The write of `eval_assign` and `eval_update`.
unfoldable pub write_name : Ident → Object → Env → Outcome
write_name i value env =
    let (env', found, is_const) = assign i.name value env in
    if not found
    then given env' (reference_error i)
    else if is_const
    then given env' (constant_error i.pos i.name)
    else given env' (ok value)

abbrev pub is_nullish : Object → Bool
is_nullish null = true
is_nullish undefined = true
is_nullish _ = false

abbrev pub one_bits : ℕ
one_bits = 0x3ff0000000000000

abbrev pub minus_one_bits : ℕ
minus_one_bits = 0xbff0000000000000

abbrev pub is_update : Text → Bool
is_update op = text_eq op (lit "++") || text_eq op (lit "--")

module _ (floats : Floats) (heap : Heap) where
  -- The five operators of `compound` on numbers, and `+=` on strings.
  unfoldable pub compound : Object → Object → Text → Position → Result Object Fault
  compound (number a) (number b) op pos =
      if text_eq op (lit "+=")
      then ok (number (floats.apply (lit "+") a b))
      else if text_eq op (lit "-=")
      then ok (number (floats.apply (lit "-") a b))
      else if text_eq op (lit "*=")
      then ok (number (floats.apply (lit "*") a b))
      else if text_eq op (lit "/=")
      then ok (number (floats.apply (lit "/") a b))
      else if text_eq op (lit "%=")
      then ok (number (floats.apply (lit "%") a b))
      else fault pos (lit "unknown compound op " ++ op)
  compound (string a) (string b) op pos =
      if text_eq op (lit "+=")
      then ok (string (a ++ b))
      else fault pos (lit "TypeError: compound assignment requires matching types")
  compound _ _ op pos = fault pos (lit "TypeError: compound assignment requires matching types")

  -- `eval_update`; the last argument says `postfix`.
  unfoldable pub update_value : Ident → Object → Text → Bool → Position → Env → Outcome
  update_value i (number n) op postfix pos env =
      let next =
        number
          (floats.apply (lit "+") n (if text_eq op (lit "--") then minus_one_bits else one_bits)) in
      write_name i next env >>? λ env' v. given env' (ok (if postfix then number n else next))
  update_value i current op postfix pos env =
      given env
        (fault pos (lit "TypeError: update operator requires number, got " ++ type_tag current))

  unfoldable pub eval_update : Expr → Text → Bool → Position → Env → Outcome
  eval_update (ident i) op postfix pos env = elim (get env i.name) [
    | none ↦ given env (reference_error i)
    | some current ↦ update_value i current op postfix pos env
  ]
  eval_update _ op postfix pos env =
      given env (fault pos (lit "SyntaxError: invalid update target"))

  -- `eval_assign` after the right-hand side.
  unfoldable pub finish_assign : Position → Text → Ident → Env → Object → Outcome
  finish_assign pos op i env right =
      if text_eq op (lit "=") then write_name i right env else elim (get env i.name) [
        | none ↦ given env (reference_error i)
        | some current ↦ elim (compound current right op pos) [
          | err e ↦ given env (err e)
          | ok combined ↦ write_name i combined env
        ]
      ]

  -- `eval_prefix` after the operand.
  unfoldable pub apply_prefix : Position → Text → Env → Object → Outcome
  apply_prefix pos op env right =
      if text_eq op (lit "delete")
      then given env (ok (boolean true))
      else given env (apply_unary_op floats op right pos)

  unfoldable pub eval_expr : Expr → Env → Outcome
  eval_expr (number_lit pos n) env = given env (ok (number n))
  eval_expr (bool_lit pos b) env = given env (ok (boolean b))
  eval_expr (null_lit pos) env = given env (ok null)
  eval_expr (undefined_lit pos) env = given env (ok undefined)
  eval_expr (string_lit pos literal) env = (env, string_value (eval_string_lit literal))
  eval_expr (ident i) env = given env (eval_ident i env)
  eval_expr (prefix pos op right) env =
      let value = eval_expr right env in
      if is_update op
      then eval_update right op false pos env
      else value >>? λ env' v. apply_prefix pos op env' v
  eval_expr (postfix_expr pos op left) env =
      if is_update op
      then eval_update left op true pos env
      else given env
          (fault pos (lit "SyntaxError: '" ++ (op ++ lit "' is missing its right-hand operand")))
  eval_expr (infix_expr pos op left right) env = eval_expr left env >>? λ env₁ l.
      if text_eq op (lit "&&")
      then elim (is_truthy l) [ false ↦ given env₁ (ok l) | true ↦ eval_expr right env₁ ]
      else if text_eq op (lit "||")
      then elim (is_truthy l) [ true ↦ given env₁ (ok l) | false ↦ eval_expr right env₁ ]
      else if text_eq op (lit "??")
      then elim (is_nullish l) [ false ↦ given env₁ (ok l) | true ↦ eval_expr right env₁ ]
      else (eval_expr right env₁ >>? λ env₂ r. given env₂ (apply_binary_op floats heap op l r pos))
  eval_expr (ternary pos cond consequent alternate) env = eval_expr cond env >>? λ env₁ c.
      elim (is_truthy c) [ true ↦ eval_expr consequent env₁ | false ↦ eval_expr alternate env₁ ]
  eval_expr (assign_expr pos op i right) env =
      eval_expr right env >>? λ env₁ v. finish_assign pos op i env₁ v

  -- `eval_let`, `eval_var` and `eval_const`.
  unfoldable pub eval_declare : Bool → Text → Option Expr → Env → Outcome
  eval_declare is_const name none env = given (set_here name undefined is_const env) (ok undefined)
  eval_declare is_const name (some e) env =
      eval_expr e env >>? λ env₁ v. given (set_here name v is_const env₁) (ok undefined)

  unfoldable pub eval_stmt : Stmt → Env → Outcome
  eval_stmt (expr_stmt pos e) env = eval_expr e env
  eval_stmt (declare pos is_const name value) env = eval_declare is_const name value env

  -- The loop of `eval_program`, with the result so far.
  unfoldable pub eval_stmts : List Stmt → Env → Object → Outcome
  eval_stmts [] env result = given env (ok result)
  eval_stmts (stmt ∷ rest) env result = eval_stmt stmt env >>? λ env₁ v. eval_stmts rest env₁ v

  unfoldable pub eval_program : Program → Env → Outcome
  eval_program program env = eval_stmts program.body env undefined
