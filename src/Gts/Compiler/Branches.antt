-- ===== src/Gts/Compiler/Branches.antt =====
-- crates/night24-gts/src/bytecode/compiler_operators.rs and compiler_conditionals.rs: the operators and
-- the conditional that jump, on the machine and by the tree-walker.
use night.Gts.Interp.Operators.{binary-Computes}
use night.Gts.Compiler.{binary_opcode}
use night.Gts.Interp.Instructions.{
  pop-Goes, dup-Goes, jump-Goes, jump_if_false-Goes, const-Goes, jump_if_true-Goes,
}
use night.Gts.Compiler.Agreement.{Agrees, bind, bind-Outcome, bind-Computes}
use night.Gts.Ast.{Expr, infix_expr, ternary}
use night.Gts.Compiler.Layout.{Plain, Jumps, Checks}
use night.Text.{text_eq, lit}
use night.Gts.Environment.{Env}
use night.Gts.Evaluator.{eval_expr, is_nullish}
use night.Gts.Interp.Runs.{Computes, Reaches, at, Computes-after, Reaches-trans}
use night.Gts.Interp.{Machine, Step}
use night.Gts.Opcode.{Opcode}
use night.Gts.Value.{
  Floats, Heap, apply_binary_op, Fault, find_text, apply_arm, is_truthy, strict_equal,
}
use night.Prelude.{
  Result, ok, err, if◌then◌else◌, Bool-cases, ℕ, ◌+◌, ◌≡◌, refl, ap, subst, inl, inr, ◌||◌, List,
  ◌∷◌, arith,
}
use night.Gts.Chunk.{Chunk, Object, Position, boolean, no_position, null, undefined}

module _ (c : Chunk) (floats : Floats) (heap : Heap)
    (others : Chunk → Opcode → Machine → Step) where
  abbrev Gives : ℕ → List Object → ℕ → List Object → Env → Result Object Fault → Type 0
  Gives p stack q base env r = Computes c floats heap others p stack q base env r

  abbrev Goes : ℕ → List Object → ℕ → List Object → Env → Type 0
  Goes p stack q stack' env =
      Reaches c floats heap others (at c floats heap others p stack env)
        (at c floats heap others q stack' env)

  arrive :
      (p q q' : ℕ) (stack stack' : List Object) (env : Env)
      → q ≡ q'
      → Goes p stack q stack' env
      → Goes p stack q' stack' env
  arrive p q q' stack stack' env e = subst (λ n. Goes p stack n stack' env) e

  -- A copy of the value is tested.
  tested :
      (m target : ℕ) (v : Object) (stack : List Object) (env : Env)
      → Plain c Opcode.dup m
      → Jumps c Opcode.jump_if_false (m + 1) target
      → Goes m (v ∷ stack) (if is_truthy v then m + 6 else target) (v ∷ stack) env
  tested m target v stack env dup (lt, jump) =
      arrive m _ _ (v ∷ stack) (v ∷ stack) env
        (ap (λ n. if is_truthy v then n else target) (omega arith))
        (Reaches-trans c floats heap others _ _ _
          (dup-Goes c floats heap others m (v ∷ stack) env v stack dup refl)
          (jump_if_false-Goes c floats heap others (m + 1) (v ∷ v ∷ stack) env target v (v ∷ stack)
            jump lt refl))

  -- The value is dropped and another expression is computed.
  instead :
      (m q : ℕ) (v : Object) (stack : List Object) (env : Env) (r : Result Object Fault)
      → Plain c Opcode.pop m
      → Gives (m + 1) stack q stack env r
      → Gives m (v ∷ stack) q stack env r
  instead m q v stack env r pop k =
      Computes-after c floats heap others m (m + 1) q (v ∷ stack) stack stack env r
        (pop-Goes c floats heap others m (v ∷ stack) env v stack pop refl) k

  and-value :
      (m q : ℕ) (v : Object) (stack : List Object) (env : Env) (r : Result Object Fault)
      → Plain c Opcode.dup m
      → Jumps c Opcode.jump_if_false (m + 1) q
      → Plain c Opcode.pop (m + 6)
      → Gives (m + 7) stack q stack env r
      → Gives m (v ∷ stack) q stack env (if is_truthy v then r else ok v)
  unfolding Computes
  and-value m q v stack env r dup jump pop k = elim (Bool-cases (is_truthy v)) [
    | inl t ↦ rw t (
        Computes-after c floats heap others m (m + 6) q (v ∷ stack) (v ∷ stack) stack env r
          (rw t at (tested m q v stack env dup jump))
          (instead (m + 6) q v stack env r pop
            (subst (λ n. Gives n stack q stack env r) (omega arith) k)))
    | inr f ↦ rw f (rw f at (tested m q v stack env dup jump))
  ]

  pub and-Agrees :
      (pos : Position) (l r : Expr) (p m q : ℕ)
      → Agrees c floats heap others l p m
      → Plain c Opcode.dup m
      → Jumps c Opcode.jump_if_false (m + 1) q
      → Plain c Opcode.pop (m + 6)
      → Agrees c floats heap others r (m + 7) q
      → Agrees c floats heap others (infix_expr pos (lit "&&") l r) p q
  unfolding eval_expr text_eq
  and-Agrees pos l r p m q h dup jump pop k env =
      let (x, same_l, go_l) = h env in
      let (y, same_r, go_r) = k env in
      (
        bind x (λ v. if is_truthy v then y else ok v),
        rw same_l (
            bind-Outcome env x _ _
              (λ v. elim (Bool-cases (is_truthy v)) [ inl t ↦ rw t same_r | inr f ↦ rw f refl ])),
        λ stack.
            bind-Computes c floats heap others p m q stack stack env x _ (go_l stack)
              (λ v. and-value m q v stack env y dup jump pop (go_r stack)),
      )

  or-value :
      (m q : ℕ) (v : Object) (stack : List Object) (env : Env) (r : Result Object Fault)
      → Plain c Opcode.dup m
      → Jumps c Opcode.jump_if_false (m + 1) (m + 11)
      → Jumps c Opcode.jump (m + 6) q
      → Plain c Opcode.pop (m + 11)
      → Gives (m + 12) stack q stack env r
      → Gives m (v ∷ stack) q stack env (if is_truthy v then ok v else r)
  unfolding Computes
  or-value m q v stack env r dup jump (lt, skip) pop k = elim (Bool-cases (is_truthy v)) [
    | inl t ↦ rw t (
        Reaches-trans c floats heap others _ _ _ (rw t at (tested m (m + 11) v stack env dup jump))
          (jump-Goes c floats heap others (m + 6) (v ∷ stack) env q skip lt))
    | inr f ↦ rw f (
        Computes-after c floats heap others m (m + 11) q (v ∷ stack) (v ∷ stack) stack env r
          (rw f at (tested m (m + 11) v stack env dup jump))
          (instead (m + 11) q v stack env r pop
            (subst (λ n. Gives n stack q stack env r) (omega arith) k)))
  ]

  pub or-Agrees :
      (pos : Position) (l r : Expr) (p m q : ℕ)
      → Agrees c floats heap others l p m
      → Plain c Opcode.dup m
      → Jumps c Opcode.jump_if_false (m + 1) (m + 11)
      → Jumps c Opcode.jump (m + 6) q
      → Plain c Opcode.pop (m + 11)
      → Agrees c floats heap others r (m + 12) q
      → Agrees c floats heap others (infix_expr pos (lit "||") l r) p q
  unfolding eval_expr text_eq
  or-Agrees pos l r p m q h dup jump skip pop k env =
      let (x, same_l, go_l) = h env in
      let (y, same_r, go_r) = k env in
      (
        bind x (λ v. if is_truthy v then ok v else y),
        rw same_l (
            bind-Outcome env x _ _
              (λ v. elim (Bool-cases (is_truthy v)) [ inl t ↦ rw t refl | inr f ↦ rw f same_r ])),
        λ stack.
            bind-Computes c floats heap others p m q stack stack env x _ (go_l stack)
              (λ v. or-value m q v stack env y dup jump skip pop (go_r stack)),
      )

  -- One check of `??`.
  checked :
      (m target : ℕ) (v w : Object) (stack : List Object) (env : Env)
      → Checks c m w target
      → Goes m (v ∷ stack) (if strict_equal v w then target else m + 10) (v ∷ stack) env
  unfolding Computes apply_binary_op find_text text_eq apply_arm binary_opcode is_truthy
  checked m target v w stack env (dup, (idx, lt, kept, code), same, (far, jump)) =
      let pushed : Goes (m + 1) (v ∷ v ∷ stack) (m + 4) (w ∷ v ∷ v ∷ stack) env =
        arrive (m + 1) (m + 1 + 3) (m + 4) (v ∷ v ∷ stack) (w ∷ v ∷ v ∷ stack) env (omega arith)
          (const-Goes c floats heap others (m + 1) (v ∷ v ∷ stack) env idx w code lt kept) in
      let compared : Goes (m + 4) (w ∷ v ∷ v ∷ stack) (m + 5)
          (boolean (strict_equal v w) ∷ v ∷ stack) env =
        arrive (m + 4) (m + 4 + 1) (m + 5) (w ∷ v ∷ v ∷ stack)
          (boolean (strict_equal v w) ∷ v ∷ stack) env (omega arith)
          (binary-Computes c floats heap others (m + 4) (w ∷ v ∷ v ∷ stack) (v ∷ stack) env
            Opcode.eq (lit "===") same no_position v w refl refl) in
      let place : m + 5 + 5 ≡ m + 10 = omega arith in
      arrive m _ _ (v ∷ stack) (v ∷ stack) env
        (ap (λ n. if strict_equal v w then target else n) place)
        (Reaches-trans c floats heap others _ _ _
          (dup-Goes c floats heap others m (v ∷ stack) env v stack dup refl)
          (Reaches-trans c floats heap others _ _ _ pushed (
            Reaches-trans c floats heap others _ _ _ compared (
              jump_if_true-Goes c floats heap others (m + 5)
                (boolean (strict_equal v w) ∷ v ∷ stack) env target (boolean (strict_equal v w))
                (v ∷ stack) jump far refl))))

  is_nullish_eq : (v : Object) → is_nullish v ≡ (strict_equal v null || strict_equal v undefined)
  unfolding strict_equal
  is_nullish_eq null = refl
  is_nullish_eq undefined = refl
  is_nullish_eq _ = refl

  nullish-value :
      (m q : ℕ) (v : Object) (stack : List Object) (env : Env) (r : Result Object Fault)
      → Checks c m null (m + 25)
      → Checks c (m + 10) undefined (m + 25)
      → Jumps c Opcode.jump (m + 20) q
      → Plain c Opcode.pop (m + 25)
      → Gives (m + 26) stack q stack env r
      → Gives m
          (v ∷ stack)
          q
          stack
          env
          (if strict_equal v null || strict_equal v undefined then r else ok v)
  unfolding Computes
  nullish-value m q v stack env r first second (lt, skip) pop k =
      let right : Gives (m + 25) (v ∷ stack) q stack env r =
        instead (m + 25) q v stack env r pop
          (subst (λ n. Gives n stack q stack env r) (omega arith) k) in
      let one : Goes m (v ∷ stack) (if strict_equal v null then m + 25 else m + 10) (v ∷ stack)
          env =
        checked m (m + 25) v null stack env first in
      let two : Goes (m + 10) (v ∷ stack) (if strict_equal v undefined then m + 25 else m + 10 + 10)
          (v ∷ stack) env =
        checked (m + 10) (m + 25) v undefined stack env second in
      elim (Bool-cases (strict_equal v null)) [
        | inl t ↦ rw t (
            Computes-after c floats heap others m (m + 25) q (v ∷ stack) (v ∷ stack) stack env r
              (rw t at one) right)
        | inr f ↦ elim (Bool-cases (strict_equal v undefined)) [
          | inl t ↦
              rw (f, t)
                (Computes-after c floats heap others m (m + 25) q (v ∷ stack) (v ∷ stack) stack env
                  r (Reaches-trans c floats heap others _ _ _ (rw f at one) (rw t at two)) right)
          | inr g ↦
              rw (f, g)
                (Reaches-trans c floats heap others _ _ _ (rw f at one) (
                  Reaches-trans c floats heap others _ _ _
                    (arrive (m + 10) (m + 10 + 10) (m + 20) (v ∷ stack) (v ∷ stack) env
                      (omega arith) (rw g at two))
                    (jump-Goes c floats heap others (m + 20) (v ∷ stack) env q skip lt)))
        ]
      ]

  pub nullish-Agrees :
      (pos : Position) (l r : Expr) (p m q : ℕ)
      → Agrees c floats heap others l p m
      → Checks c m null (m + 25)
      → Checks c (m + 10) undefined (m + 25)
      → Jumps c Opcode.jump (m + 20) q
      → Plain c Opcode.pop (m + 25)
      → Agrees c floats heap others r (m + 26) q
      → Agrees c floats heap others (infix_expr pos (lit "??") l r) p q
  unfolding eval_expr text_eq
  nullish-Agrees pos l r p m q h first second skip pop k env =
      let (x, same_l, go_l) = h env in
      let (y, same_r, go_r) = k env in
      (
        bind x (λ v. if strict_equal v null || strict_equal v undefined then y else ok v),
        rw same_l (
            bind-Outcome env x _ _ (λ v.
              rw (is_nullish_eq v)
                (elim (Bool-cases (strict_equal v null || strict_equal v undefined)) [
                  | inl t ↦ rw t same_r
                  | inr f ↦ rw f refl
                ]))),
        λ stack.
            bind-Computes c floats heap others p m q stack stack env x _ (go_l stack)
              (λ v. nullish-value m q v stack env y first second skip pop (go_r stack)),
      )

  skipped :
      (p n q : ℕ) (stack : List Object) (env : Env) (r : Result Object Fault)
      → Jumps c Opcode.jump n q
      → Gives p stack n stack env r
      → Gives p stack q stack env r
  unfolding Computes
  skipped p n q stack env (ok v) (lt, skip) h =
      Reaches-trans c floats heap others _ _ _ h
        (jump-Goes c floats heap others n (v ∷ stack) env q skip lt)
  skipped p n q stack env (err e) skip h = h

  chosen :
      (m n q : ℕ) (v : Object) (stack : List Object) (env : Env) (y z : Result Object Fault)
      → Jumps c Opcode.jump_if_false m (n + 5)
      → Jumps c Opcode.jump n q
      → Gives (m + 5) stack n stack env y
      → Gives (n + 5) stack q stack env z
      → Gives m (v ∷ stack) q stack env (if is_truthy v then y else z)
  chosen m n q v stack env y z (lt, jump) skip h k =
      let go : Goes m (v ∷ stack) (if is_truthy v then m + 5 else n + 5) stack env =
        jump_if_false-Goes c floats heap others m (v ∷ stack) env (n + 5) v stack jump lt refl in
      elim (Bool-cases (is_truthy v)) [
        | inl t ↦ rw t (
            Computes-after c floats heap others m (m + 5) q (v ∷ stack) stack stack env y
              (rw t at go) (skipped (m + 5) n q stack env y skip h))
        | inr f ↦ rw f (
            Computes-after c floats heap others m (n + 5) q (v ∷ stack) stack stack env z
              (rw f at go) k)
      ]

  pub ternary-Agrees :
      (pos : Position) (cond consequent alternate : Expr) (p m n q : ℕ)
      → Agrees c floats heap others cond p m
      → Jumps c Opcode.jump_if_false m (n + 5)
      → Agrees c floats heap others consequent (m + 5) n
      → Jumps c Opcode.jump n q
      → Agrees c floats heap others alternate (n + 5) q
      → Agrees c floats heap others (ternary pos cond consequent alternate) p q
  unfolding eval_expr
  ternary-Agrees pos cond consequent alternate p m n q h jump k skip l env =
      let (x, same_x, go_x) = h env in
      let (y, same_y, go_y) = k env in
      let (z, same_z, go_z) = l env in
      (
        bind x (λ v. if is_truthy v then y else z),
        rw same_x (
            bind-Outcome env x _ _
              (λ v. elim (Bool-cases (is_truthy v)) [ inl t ↦ rw t same_y | inr f ↦ rw f same_z ])),
        λ stack.
            bind-Computes c floats heap others p m q stack stack env x _ (go_x stack)
              (λ v. chosen m n q v stack env y z jump skip (go_y stack) (go_z stack)),
      )
