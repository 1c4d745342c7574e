-- ===== src/Gts/Compiler/Laying.antt =====
-- crates/night24-gts/src/bytecode/compiler_expr.rs, compiler_literals.rs and compiler_operators.rs: what
-- the compiler emits for literals, names and operators.
use night.Gts.Value.{find_text, Fault}
use night.Text.{Text, text_eq, text_eq_iff, lit}
use night.Gts.Evaluator.{is_update}
use night.Gts.Opcode.{Opcode}
use night.Gts.Compiler.Layout.{
  Laid, literal, Plain, Names, of_literal, of_name, of_infix, of_delete, of_void, of_prefix,
}
use night.Gts.Chunk.Pool.{IsKeyed, of_key}
use night.Gts.Compiler.Emission.{
  Emission, Shape, Fits, weaken, operand, operand-Emission, emit_op-Emission, Fits-before, and_then,
}
use night.Gts.Compiler.{
  panicked, Compiled, done, ◌>>!◌, failed, emit_op, finish_prefix, finish_infix, binary_opcode,
  unary_table,
}
use night.Gts.Ast.{
  Expr, number_lit, Ident, prefix, ident, postfix_expr, infix_expr, ternary, assign_expr,
}
use night.Prelude.{
  ℕ, ◌+◌, ◌≡◌, refl, sym, subst, false, some, arith, Bool-cases, Option-cases, inl, inr, true,
}
use night.Gts.Chunk.{
  Chunk, emit_value_constant, emit_string_operand, emit_const, from_object, Object, Position,
  number, string, key_string, boolean, key_bool, undefined, key_undefined,
}

-- An expression that assigns nothing. A number is neither NaN nor -0.0, as a literal is.
unfoldable pub IsReadOnly : Expr → Type 0
IsReadOnly (number_lit pos n) = IsKeyed (number n)
IsReadOnly (prefix pos op right) = (is_update op ≡ false) × IsReadOnly right
IsReadOnly (postfix_expr pos op left) = ⊥
IsReadOnly (infix_expr pos op left right) = IsReadOnly left × IsReadOnly right
IsReadOnly (ternary pos cond consequent alternate) =
    IsReadOnly cond × (IsReadOnly consequent × IsReadOnly alternate)
IsReadOnly (assign_expr pos op i right) = ⊥
IsReadOnly _ = Unit

pub bind-done :
    (r : Compiled) (f : Chunk → Compiled) (c : Chunk)
    → (r >>! f) ≡ done c
    → (d : Chunk) × (r ≡ done d) × (f d ≡ done c)
bind-done (done d) f c h = (d, refl, h)
bind-done (failed e) f c h = cc
bind-done panicked f c h = cc

pub done-eq : (c d : Chunk) → done c ≡ done d → c ≡ d
done-eq c d h = cc

pub panicked_done : (c : Chunk) → panicked ≡ done c → ⊥
panicked_done c h = cc

failed_done : (e : Fault) (c : Chunk) → failed e ≡ done c → ⊥
failed_done e c h = cc

-- The code of an expression between two chunks.
abbrev pub Lays : Expr → Chunk → Chunk → Type 0
Lays e c c' = Emission c c' (λ whole. Laid whole e)

pub literal-Lays :
    (e : Expr) (v : Object) (pos : Position) (c c' : Chunk)
    → literal e ≡ some v
    → IsKeyed v
    → emit_value_constant c v pos ≡ c'
    → Fits c'
    → Lays e c c'
unfolding emit_value_constant emit_const
literal-Lays e v pos c c' l keyed h fits =
    subst (λ d. Lays e c d) h
      (weaken c (operand c Opcode.const v pos) _ (λ whole. Laid whole e)
        (λ whole p q (at, k). subst (Laid whole e p) (sym at) (of_literal e v p l k))
        (operand-Emission c Opcode.const v pos keyed (rw h fits.1)))

pub name-Lays :
    (i : Ident) (c c' : Chunk)
    → emit_string_operand c Opcode.load_name i.name i.pos ≡ c'
    → Fits c'
    → Lays (ident i) c c'
unfolding emit_string_operand from_object of_key
name-Lays i c c' h fits =
    subst (λ d. Lays (ident i) c d) h
      (weaken c (operand c Opcode.load_name (string i.name) i.pos) _ (λ whole. Laid whole (ident i))
        (λ whole p q (at, k). subst (Laid whole (ident i) p) (sym at) (of_name i p k))
        (operand-Emission c Opcode.load_name (string i.name) i.pos (key_string i.name, refl, refl)
          (rw h fits.1)))

-- An operand that is dropped for a constant.
abbrev pub Replaced : Expr → Object → Shape
Replaced e v whole p q =
    (m : ℕ) × Laid whole e p m
    × Plain whole Opcode.pop m
    × Names whole Opcode.const (m + 1) v
    × (q ≡ m + 4)

replaced-Emission :
    (e : Expr) (v : Object) (pos : Position) (c d c' : Chunk)
    → IsKeyed v
    → (Fits d → Lays e c d)
    → emit_value_constant (emit_op d Opcode.pop pos) v pos ≡ c'
    → Fits c'
    → Emission c c' (Replaced e v)
unfolding emit_value_constant emit_const
replaced-Emission e v pos c d c' keyed h same fits =
    let popped : Chunk = emit_op d Opcode.pop pos in
    let last : Emission popped c' (λ whole p q. (q ≡ p + 3) × Names whole Opcode.const p v) =
      subst (λ x. Emission popped x (λ whole p q. (q ≡ p + 3) × Names whole Opcode.const p v)) same
        (operand-Emission popped Opcode.const v pos keyed (rw same fits.1)) in
    let pop : Emission d popped (λ whole p q. (q ≡ p + 1) × Plain whole Opcode.pop p) =
      emit_op-Emission d Opcode.pop pos in
    let before : Fits d = Fits-before d popped _ pop (Fits-before popped c' _ last fits) in
    weaken c c' _ (Replaced e v)
      (λ whole p q (m, laid, (n, (at, k), (to, names))).
        (m, laid, k, subst (λ x. Names whole Opcode.const x v) at names, omega (arith, at, to)))
      (and_then c d c' _ _ (h before) (and_then d popped c' _ _ pop last))

prefix_laid :
    (pos : Position) (op key : Text) (e : Expr) (c c' : Chunk)
    → text_eq op key ≡ true
    → Lays (prefix pos key e) c c'
    → Lays (prefix pos op e) c c'
prefix_laid pos op key e c c' same =
    subst (λ t. Lays (prefix pos t e) c c') (sym ((text_eq_iff op key).0 same))

-- The code of a prefix operator that is no update.
pub prefix-Lays :
    (pos : Position) (op : Text) (e : Expr) (c d c' : Chunk)
    → (Fits d → Lays e c d)
    → finish_prefix pos op d ≡ done c'
    → Fits c'
    → Lays (prefix pos op e) c c'
unfolding finish_prefix from_object of_key
prefix-Lays pos op e c d c' h same fits = elim (Bool-cases (text_eq op (lit "delete"))) [
  | inl t ↦ prefix_laid pos op (lit "delete") e c c' t (
      weaken c c' (Replaced e (boolean true)) _
        (λ whole p q (m, k, pop, names, at).
          subst (Laid whole (prefix pos (lit "delete") e) p) (sym at)
            (of_delete pos e p m k pop names))
        (replaced-Emission e (boolean true) pos c d c' (key_bool true, refl, refl) h
          (done-eq _ _ (rw t at same)) fits))
  | inr f ↦ elim (Bool-cases (text_eq op (lit "void"))) [
    | inl t ↦ prefix_laid pos op (lit "void") e c c' t (
        weaken c c' (Replaced e undefined) _
          (λ whole p q (m, k, pop, names, at).
            subst (Laid whole (prefix pos (lit "void") e) p) (sym at)
              (of_void pos e p m k pop names))
          (replaced-Emission e undefined pos c d c' (key_undefined, refl, refl) h
            (done-eq _ _ (rw (f, t) at same)) fits))
    | inr g ↦ elim (Option-cases (find_text op unary_table)) [
      | inl n ↦ absurd (failed_done _ c' (rw (f, g, n) at same))
      | inr (oc, found) ↦
          let last : emit_op d oc pos ≡ c' = done-eq _ _ (rw (f, g, found) at same) in
          let code : Emission d c' (λ whole p q. (q ≡ p + 1) × Plain whole oc p) =
            subst (λ x. Emission d x (λ whole p q. (q ≡ p + 1) × Plain whole oc p)) last
              (emit_op-Emission d oc pos) in
          weaken c c' _ _
            (λ whole p q (m, k, (at, one)).
              subst (Laid whole (prefix pos op e) p) (sym at)
                (of_prefix pos op oc e p m found k one))
            (and_then c d c' _ _ (h (Fits-before d c' _ code fits)) code)
    ]
  ]
]

-- The code of an infix operator that takes the values of both operands.
pub infix-Lays :
    (pos : Position) (op : Text) (l r : Expr) (c d e c' : Chunk)
    → (Fits d → Lays l c d)
    → (Fits e → Lays r d e)
    → finish_infix pos op e ≡ done c'
    → Fits c'
    → Lays (infix_expr pos op l r) c c'
unfolding finish_infix
infix-Lays pos op l r c d e c' h k same fits = elim (Option-cases (binary_opcode op)) [
  | inl n ↦ absurd (failed_done _ c' (rw (n, finish_infix) at same))
  | inr (oc, found) ↦
      let last : emit_op e oc pos ≡ c' = done-eq _ _ (rw (found, finish_infix) at same) in
      let code : Emission e c' (λ whole p q. (q ≡ p + 1) × Plain whole oc p) =
        subst (λ x. Emission e x (λ whole p q. (q ≡ p + 1) × Plain whole oc p)) last
          (emit_op-Emission e oc pos) in
      let before : Fits e = Fits-before e c' _ code fits in
      let right : Lays r d e = k before in
      weaken c c' _ _
        (λ whole p q (m, x, (n, y, (at, one))).
          subst (Laid whole (infix_expr pos op l r) p) (sym at)
            (of_infix pos op oc l r p m n found x y one))
        (and_then c d c' _ _ (h (Fits-before d e _ right before)) (and_then d e c' _ _ right code))
]
