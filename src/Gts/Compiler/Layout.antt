-- ===== src/Gts/Compiler/Layout.antt =====
-- crates/night24-gts/src/bytecode/compiler_expr.rs, compiler_literals.rs, compiler_operators.rs and
-- compiler_conditionals.rs: where the instructions of an expression stand in the code.
use night.Gts.Compiler.{unary_table, binary_opcode}
use night.Gts.StringLit.{eval_string_lit}
use night.Gts.Value.{find_text}
use night.Gts.Interp.Runs.{HasCode, u16_bytes}
use night.Gts.Opcode.{Opcode, to_byte}
use night.Text.{Text, text_eq, lit}
use night.Gts.Ast.{
  Expr, number_lit, Ident, bool_lit, ident, null_lit, prefix, undefined_lit, string_lit, infix_expr,
  ternary,
}
use night.Prelude.{get_elem?, ℕ, ◌+◌, ◌^◌, ◌<◌, ◌≡◌, Bool, true, ◌||◌, Option, none, some, ◌∷◌, []}
use night.Gts.Chunk.{Chunk, Object, number, string, be_bytes, boolean, Position, null, undefined}

abbrev pub string_object : Option Text → Option Object
string_object none = none
string_object (some text) = some (string text)

-- The value of a literal, where it has one.
unfoldable pub literal : Expr → Option Object
literal (number_lit pos n) = some (number n)
literal (bool_lit pos b) = some (boolean b)
literal (null_lit pos) = some null
literal (undefined_lit pos) = some undefined
literal (string_lit pos s) = string_object (eval_string_lit s)
literal _ = none

-- The operators that are compiled to jumps.
abbrev pub is_lazy : Text → Bool
is_lazy op = text_eq op (lit "&&") || text_eq op (lit "||") || text_eq op (lit "??")

module _ (c : Chunk) where
  -- An instruction with the index of this constant.
  abbrev pub Names : Opcode → ℕ → Object → Type 0
  Names op p v =
      (idx : ℕ) × (idx < 2 ^ 16)
      × (get_elem? c.constants idx ≡ some v)
      × HasCode c.code p (to_byte op ∷ u16_bytes idx)

  abbrev pub Plain : Opcode → ℕ → Type 0
  Plain op p = HasCode c.code p (to_byte op ∷ [])

  abbrev pub Jumps : Opcode → ℕ → ℕ → Type 0
  Jumps op p target = (target < 2 ^ 32) × HasCode c.code p (to_byte op ∷ be_bytes target)

  -- A check of `??`: a jump when the value on the stack is this one.
  abbrev pub Checks : ℕ → Object → ℕ → Type 0
  Checks p v target =
      Plain Opcode.dup p
      × Names Opcode.const (p + 1) v
      × Plain Opcode.eq (p + 4)
      × Jumps Opcode.jump_if_true (p + 5) target

  -- The code of an expression stands from an address on to another.
  pub data Laid : Expr → ℕ → ℕ → Type 0 where
    of_literal :
        (e : Expr) (v : Object) (p : ℕ)
        → literal e ≡ some v
        → Names Opcode.const p v
        → Laid e p (p + 3)
    of_name :
        (i : Ident) (p : ℕ) → Names Opcode.load_name p (string i.name) → Laid (ident i) p (p + 3)
    of_delete :
        (pos : Position) (e : Expr) (p m : ℕ)
        → Laid e p m
        → Plain Opcode.pop m
        → Names Opcode.const (m + 1) (boolean true)
        → Laid (prefix pos (lit "delete") e) p (m + 4)
    of_void :
        (pos : Position) (e : Expr) (p m : ℕ)
        → Laid e p m
        → Plain Opcode.pop m
        → Names Opcode.const (m + 1) undefined
        → Laid (prefix pos (lit "void") e) p (m + 4)
    of_prefix :
        (pos : Position) (op : Text) (oc : Opcode) (e : Expr) (p m : ℕ)
        → find_text op unary_table ≡ some oc
        → Laid e p m
        → Plain oc m
        → Laid (prefix pos op e) p (m + 1)
    of_infix :
        (pos : Position) (op : Text) (oc : Opcode) (l r : Expr) (p m n : ℕ)
        → binary_opcode op ≡ some oc
        → Laid l p m
        → Laid r m n
        → Plain oc n
        → Laid (infix_expr pos op l r) p (n + 1)
    of_and :
        (pos : Position) (l r : Expr) (p m q : ℕ)
        → Laid l p m
        → Plain Opcode.dup m
        → Jumps Opcode.jump_if_false (m + 1) q
        → Plain Opcode.pop (m + 6)
        → Laid r (m + 7) q
        → Laid (infix_expr pos (lit "&&") l r) p q
    of_or :
        (pos : Position) (l r : Expr) (p m q : ℕ)
        → Laid l p m
        → Plain Opcode.dup m
        → Jumps Opcode.jump_if_false (m + 1) (m + 11)
        → Jumps Opcode.jump (m + 6) q
        → Plain Opcode.pop (m + 11)
        → Laid r (m + 12) q
        → Laid (infix_expr pos (lit "||") l r) p q
    of_nullish :
        (pos : Position) (l r : Expr) (p m q : ℕ)
        → Laid l p m
        → Checks m null (m + 25)
        → Checks (m + 10) undefined (m + 25)
        → Jumps Opcode.jump (m + 20) q
        → Plain Opcode.pop (m + 25)
        → Laid r (m + 26) q
        → Laid (infix_expr pos (lit "??") l r) p q
    of_ternary :
        (pos : Position) (cond consequent alternate : Expr) (p m n q : ℕ)
        → Laid cond p m
        → Jumps Opcode.jump_if_false m (n + 5)
        → Laid consequent (m + 5) n
        → Jumps Opcode.jump n q
        → Laid alternate (n + 5) q
        → Laid (ternary pos cond consequent alternate) p q
