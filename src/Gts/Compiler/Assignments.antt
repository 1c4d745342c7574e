-- ===== src/Gts/Compiler/Assignments.antt =====
-- crates/night24-gts/src/bytecode/compiler_assign.rs and interp_helpers/bindings.rs: an assignment to a name.
use mathlib.Core.Option.{some-injective}
use night.Gts.Environment.Lookup.{assign_scopes-found}
use night.Gts.Compiler.Running.{Laid-Agrees}
use night.Gts.Compiler.Correct.{compile_expr-Lays}
use night.Gts.Compiler.Emission.{
  Fits, Kept, Fits-before, and_then, operand-Emission, emit_op-Emission, Emission,
}
use night.Gts.Compiler.Laying.{IsReadOnly, bind-done, done-eq, Lays}
use night.Gts.Chunk.Pool.{of_key, IsExact}
use night.Gts.Interp.Instructions.{string_operand, dup-Goes}
use night.Gts.Compiler.{compile_expr, done, emit_op}
use night.Gts.Interp.Runs.{
  one_step, Reaches-trans, HasCode-right, Reaches, at, step-execute, HasCode-head, u16_bytes,
  Computes, HasCode,
}
use night.Gts.Compiler.Layout.{Names}
use night.Gts.Interp.{
  Machine, Step, execute, plain, assign_name_from_operand, find_operator, ◌>>=?◌, goes_on,
}
use night.Gts.Opcode.{Opcode, to_byte}
use night.Gts.Ast.{Ident, Expr, assign_expr}
use night.Text.{text_eq, lit}
use night.Gts.Value.{Floats, Heap}
use night.Gts.Evaluator.{write_name, eval_expr, finish_assign, given}
use night.Gts.Environment.{find_binding, assign, Env, Binding}
use night.Prelude.{
  ok, ℕ, ◌+◌, ◌≡◌, refl, ap, ◌∙◌, false, some, List, ◌∷◌, arith, length, subst, sym,
}
use night.Gts.Chunk.{Chunk, Object, string, emit_string_operand, from_object, Position, key_string}

write_name-found :
    (i : Ident) (v : Object) (env : Env) (b : Binding)
    → find_binding i.name env.scopes ≡ some b
    → b.is_const ≡ false
    → write_name i v env ≡ given (assign i.name v env).0 (ok v)
unfolding write_name assign
write_name-found i v env b h k =
    let (found, free) = assign_scopes-found i.name v env.scopes b h k in
    rw (found, free, assign, write_name)

module _ (whole : Chunk) (floats : Floats) (heap : Heap)
    (others : Chunk → Opcode → Machine → Step) where
  assign_name-Reaches :
      (p : ℕ) (i : Ident) (v : Object) (stack : List Object) (env : Env) (b : Binding)
      → Names whole Opcode.assign_name p (string i.name)
      → find_binding i.name env.scopes ≡ some b
      → b.is_const ≡ false
      → Reaches whole floats heap others
          (at whole floats heap others p (v ∷ stack) env)
          (at whole floats heap others (p + 3) (v ∷ stack) (assign i.name v env).0)
  unfolding execute plain assign_name_from_operand find_operator to_byte
  assign_name-Reaches p i v stack env b (idx, lt, kept, code) h k =
      let env' : Env = (assign i.name v env).0 in
      one_step whole floats heap others _ _ (
        step-execute whole floats heap others p Opcode.assign_name (v ∷ stack) env
          (HasCode-head whole.code p (to_byte Opcode.assign_name) (u16_bytes idx) code)
        ∙ rw
            (
              string_operand whole floats heap others p (v ∷ stack) env (lit "ASSIGN_NAME")
                  Opcode.assign_name idx i.name code lt kept,
              assign_name_from_operand,
            )
            (rw (h, k, ◌>>=?◌)
              (ap (λ n. ok (goes_on (at whole floats heap others n (v ∷ stack) env')))
                (omega arith))))

  -- For `x = e`, with `e` an expression that assigns nothing and has the value v, and `x` bound and not
  -- constant: the tree-walker gives v, and the machine, in a chunk that has the code and the constants and
  -- fits the operands, goes to the end of this code with v twice on its stack, in the environment of the
  -- tree-walker.
  pub assign_expr-leaves_two :
      (pos : Position) (i : Ident) (right : Expr) (c c' : Chunk) (env : Env) (v : Object)
      (b : Binding)
      → IsReadOnly right
      → IsExact c
      → compile_expr (assign_expr pos (lit "=") i right) c ≡ done c'
      → Fits c'
      → HasCode whole.code 0 c'.code
      → Kept c'.constants whole.constants
      → eval_expr floats heap right env ≡ given env (ok v)
      → find_binding i.name env.scopes ≡ some b
      → b.is_const ≡ false
      → (eval_expr floats heap (assign_expr pos (lit "=") i right) env
          ≡ given (assign i.name v env).0 (ok v))
        × ((stack : List Object)
            → Reaches whole floats heap others
                (at whole floats heap others (length c.code) stack env)
                (at whole floats heap others
                  (length c'.code)
                  (v ∷ v ∷ stack)
                  (assign i.name v env).0))
  unfolding compile_expr text_eq eval_expr finish_assign emit_string_operand from_object of_key
      Computes
  assign_expr-leaves_two pos i right c c' env v b read exact h fits code kept value found free =
      let (d, h₁, k₁) = bind-done (compile_expr right c) _ c' h in
      let twice : Chunk = emit_op d Opcode.dup pos in
      let dup : Emission d twice _ = emit_op-Emission d Opcode.dup pos in
      let store : Emission twice c'
          (λ w p q. (q ≡ p + 3) × Names w Opcode.assign_name p (string i.name)) =
        subst
          (λ x.
            Emission twice x (λ w p q. (q ≡ p + 3) × Names w Opcode.assign_name p (string i.name)))
          (done-eq _ _ k₁)
          (operand-Emission twice Opcode.assign_name (string i.name) pos
            (key_string i.name, refl, refl) (rw (done-eq _ _ k₁) fits.1)) in
      let end : Emission d c' _ = and_then d twice c' _ _ dup store in
      let first : Lays right c d =
        compile_expr-Lays right c d read h₁ (Fits-before d c' _ end fits) in
      let all : Emission c c' _ = and_then c d c' _ _ first end in
      let (m, laid, (n, (next, copy), (last, names))) =
        all.shape exact whole
          (HasCode-right whole.code 0 (length c.code) c.code all.bytes (omega arith)
            (subst (HasCode whole.code 0) all.code_eq code))
          kept in
      let (r, same, go) = Laid-Agrees whole floats heap others right (length c.code) m laid env in
      let result : r ≡ ok v = some-injective _ _ (ap (λ o. o.1) (sym same ∙ value)) in
      let env' : Env = (assign i.name v env).0 in
      (
        rw value (write_name-found i v env b found free),
        λ stack.
            Reaches-trans whole floats heap others _ _ _
              (subst (λ x. Computes whole floats heap others (length c.code) stack m stack env x)
                result (go stack))
              (Reaches-trans whole floats heap others _ _ _
                (dup-Goes whole floats heap others m (v ∷ stack) env v stack copy refl)
                (subst
                  (λ q.
                    Reaches whole floats heap others
                      (at whole floats heap others (m + 1) (v ∷ v ∷ stack) env)
                      (at whole floats heap others q (v ∷ v ∷ stack) env'))
                  (ap (λ q. q + 3) (sym next) ∙ sym last)
                  (assign_name-Reaches (m + 1) i v (v ∷ stack) env b
                    (subst (λ q. Names whole Opcode.assign_name q (string i.name)) next names) found
                    free))),
      )
