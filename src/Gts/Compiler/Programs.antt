-- ===== src/Gts/Compiler/Programs.antt =====
-- crates/night24-gts/src/bytecode/compiler.rs and interp.rs: a program of one expression statement, by the
-- compiler and the machine and by the tree-walker.
use night.Gts.Globals.{with_globals}
use night.Text.{Text}
use night.Gts.Compiler.Running.{Laid-Agrees}
use night.Gts.Compiler.Correct.{compile_expr-Lays}
use night.Gts.Compiler.Layout.{Plain}
use night.Gts.Compiler.Emission.{Fits, Emission, emit_op-Emission, Fits-before, and_then}
use night.Gts.Compiler.Laying.{IsReadOnly, bind-done, done-eq, Lays}
use night.Gts.Evaluator.{eval_program, eval_stmts, eval_stmt, ◌>>?◌, given}
use night.Gts.Environment.{Env}
use night.Gts.Compiler.{compile, compile_stmts, compile_stmt, done, compile_expr, emit_op}
use night.Gts.Interp.Runs.{
  Reaches, Computes, steps, here, next, HasCode, at, step-execute, HasCode-head, HasCode-whole,
}
use night.Gts.Interp.{
  Machine, Step, run, interpret, execute, goes_on, plain, find_operator, returns,
}
use night.Gts.Opcode.{Opcode, to_byte}
use night.Gts.Ast.{Expr, Program, expr_stmt}
use night.Gts.Value.{Floats, Fault, Heap}
use night.Prelude.{
  Result, ok, err, ℕ, suc, ◌+◌, ◌≡◌, refl, ap, ◌∙◌, some, List, ◌∷◌, arith, [], sym, subst, Option,
}
use night.Gts.Chunk.{Chunk, Object, Position, empty_chunk}

-- The tree-walker does not panic, and gives the same value, or an error with the same message.
unfoldable pub SameResult : Result Object Fault → Option (Result Object Fault) → Type 0
SameResult (ok v) (some (ok w)) = v ≡ w
SameResult (err e) (some (err f)) = e.message ≡ f.message
SameResult _ _ = ⊥

module _ (c : Chunk) (floats : Floats) (heap : Heap)
    (others : Chunk → Opcode → Machine → Step) where
  -- This number of steps and any larger number give the result.
  abbrev pub Ends : Machine → Result Object Fault → Type 0
  Ends m r = (fuel : ℕ) × ((extra : ℕ) → run c floats heap others (fuel + extra) m ≡ some r)

  Ends-step :
      (m m' : Machine) (r : Result Object Fault)
      → steps c floats heap others m ≡ ok (goes_on m')
      → Ends m' r
      → Ends m r
  unfolding run
  Ends-step m m' r e (fuel, h) = (
    suc fuel,
    λ extra.
        let more : suc fuel + extra ≡ suc (fuel + extra) = omega arith in
        rw (more, e, run) (h extra),
  )

  Ends-Reaches :
      (m m' : Machine) (r : Result Object Fault)
      → Reaches c floats heap others m m'
      → Ends m' r
      → Ends m r
  Ends-Reaches m m' r (here _) h = h
  Ends-Reaches m m' r (next _ m'' _ e k) h = Ends-step m m'' r e (Ends-Reaches m'' m' r k h)

  Ends-err : (m : Machine) (e : Fault) → steps c floats heap others m ≡ err e → Ends m (err e)
  unfolding run
  Ends-err m e h =
      (1, λ extra. let more : 1 + extra ≡ suc extra = omega arith in rw (more, h, run) refl)

  return-Ends :
      (p : ℕ) (v : Object) (stack : List Object) (env : Env)
      → HasCode c.code p (to_byte Opcode.return ∷ [])
      → Ends (at c floats heap others p (v ∷ stack) env) (ok v)
  unfolding run execute plain find_operator to_byte
  return-Ends p v stack env h = (
    1,
    λ extra.
        let more : 1 + extra ≡ suc extra = omega arith in
        let last : steps c floats heap others (at c floats heap others p (v ∷ stack) env)
            ≡ ok (returns v) =
          step-execute c floats heap others p Opcode.return (v ∷ stack) env
            (HasCode-head c.code p (to_byte Opcode.return) [] h) in
        rw (more, last, run) refl,
  )

  Computes-Ends :
      (p q : ℕ) (env : Env) (r : Result Object Fault)
      → Computes c floats heap others p [] q [] env r
      → HasCode c.code q (to_byte Opcode.return ∷ [])
      → (s : Result Object Fault) × Ends (at c floats heap others p [] env) s
        × SameResult s (some r)
  unfolding Computes SameResult
  Computes-Ends p q env (ok v) h code =
      (ok v, Ends-Reaches _ _ (ok v) h (return-Ends q v [] env code), refl)
  Computes-Ends p q env (err e) (m, f, k, stops, same, kept) code =
      (err f, Ends-Reaches _ m (err f) k (Ends-err m f stops), same)

-- A program that is one expression.
abbrev pub program_of : Position → Expr → Program
program_of pos e = record { pos = pos; body = expr_stmt pos e ∷ [] }

module _ (floats : Floats) (heap : Heap) (others : Chunk → Opcode → Machine → Step) (pos : Position)
    (e : Expr) (c : Chunk) where
  kept_result :
      (env : Env) (r : Result Object Fault)
      → (given env r >>? λ env₁ v. eval_stmts floats heap [] env₁ v).1 ≡ some r
  unfolding eval_stmts
  kept_result env (ok v) = refl
  kept_result env (err f) = refl

  compiled-expr :
      compile (program_of pos e) ≡ done c
      → (d : Chunk) × (compile_expr e empty_chunk ≡ done d) × (emit_op d Opcode.return pos ≡ c)
  unfolding compile compile_stmts compile_stmt
  compiled-expr h =
      let (d₃, h₃, k₃) = bind-done _ _ c h in
      let (d₂, h₂, k₂) = bind-done _ _ d₃ h₃ in
      let (d₁, h₁, k₁) = bind-done _ _ d₂ h₂ in
      (
        d₁,
        h₁,
        done-eq _ _
            (ap (λ d. done (emit_op d Opcode.return pos)) (done-eq _ _ k₁ ∙ done-eq _ _ k₂) ∙ k₃),
      )

  -- A program that is one expression, which assigns nothing and in which no number is NaN or -0.0, is
  -- compiled and run: when it compiles to a chunk that fits the operands, some number of steps and any
  -- larger one give the value that the tree-walker gives, or an error with the same message. The
  -- tree-walker is taken in the environment with the standard globals, which the machine sets when
  -- `println` is not a global.
  pub compile-SameResult :
      (standard : Text → Object) (env : Env)
      → IsReadOnly e
      → compile (program_of pos e) ≡ done c
      → Fits c
      → (fuel : ℕ) × (r : Result Object Fault) × ((extra : ℕ)
          → interpret c floats heap others standard (fuel + extra) env ≡ some r)
        × SameResult r (eval_program floats heap (program_of pos e) (with_globals standard env)).1
  unfolding interpret eval_program eval_stmts eval_stmt
  compile-SameResult standard env read h fits =
      let start : Env = with_globals standard env in
      let (d, first, last) = compiled-expr h in
      let end : Emission d c (λ w p q. (q ≡ p + 1) × Plain w Opcode.return p) =
        subst (λ x. Emission d x (λ w p q. (q ≡ p + 1) × Plain w Opcode.return p)) last
          (emit_op-Emission d Opcode.return pos) in
      let code : Lays e empty_chunk d =
        compile_expr-Lays e empty_chunk d read first (Fits-before d c _ end fits) in
      let both : Emission empty_chunk c _ = and_then empty_chunk d c _ _ code end in
      let there : HasCode c.code 0 both.bytes =
        subst (λ k. HasCode k 0 both.bytes) (sym both.code_eq) (HasCode-whole [] both.bytes) in
      let (m, laid, (at, ret)) = both.shape tt c there (λ i w k. k) in
      let (r, same, go) = Laid-Agrees c floats heap others e 0 m laid start in
      let (s, (fuel, ends), agree) = Computes-Ends c floats heap others 0 m start r (go []) ret in
      let walked : (eval_program floats heap (program_of pos e) start).1 ≡ some r =
        ap (λ o. (o >>? λ env₁ v. eval_stmts floats heap [] env₁ v).1) same ∙ kept_result start r in
      (fuel, s, ends, subst (SameResult s) (sym walked) agree)
