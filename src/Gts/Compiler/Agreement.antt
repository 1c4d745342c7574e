-- ===== src/Gts/Compiler/Agreement.antt =====
-- crates/night24-gts/src/bytecode/interp.rs and evaluator/expressions.rs: the machine on the code of an
-- expression, and the tree-walker on the expression.
use night.Gts.Compiler.Tables.{UnaryRow, StrictRow}
use night.Gts.Interp.Instructions.{const-Goes, pop-Goes, type_of-Goes, load_name-Computes}
use night.Gts.Ast.{
  Expr, number_lit, Ident, bool_lit, null_lit, ident, undefined_lit, string_lit, prefix, infix_expr,
}
use night.Gts.Interp.Runs.{Computes, Computes-after, Reaches-trans, at}
use night.Gts.Compiler.{binary_opcode}
use night.Gts.Interp.Operators.{unary-Computes, binary-Computes}
use night.Gts.StringLit.{eval_string_lit}
use night.Gts.Evaluator.{Outcome, ◌>>?◌, eval_expr, eval_ident, apply_prefix, given}
use night.Gts.Opcode.{Opcode}
use night.Gts.Value.{Floats, Fault, Heap, apply_unary_op, apply_binary_op}
use night.Gts.Environment.{Env}
use night.Gts.Interp.{Machine, Step}
use night.Text.{Text, text_eq, lit}
use night.Prelude.{
  Result, ok, err, ℕ, ◌+◌, ◌≡◌, refl, inl, inr, some, List, ◌∷◌, some-eq, ap, subst, true, arith,
  Option-cases, none,
}
use night.Gts.Chunk.{Chunk, Object, Position, string, boolean, undefined}
use night.Gts.Compiler.Layout.{literal, Names, Plain}

-- A result that goes on with its value.
abbrev pub bind : Result Object Fault → (Object → Result Object Fault) → Result Object Fault
bind (ok v) f = f v
bind (err e) f = err e

pub bind-Outcome :
    (env : Env) (r : Result Object Fault) (g : Env → Object → Outcome)
    (f : Object → Result Object Fault)
    → ((v : Object) → g env v ≡ given env (f v))
    → (given env r >>? g) ≡ given env (bind r f)
bind-Outcome env (ok v) g f h = h v
bind-Outcome env (err e) g f h = refl

nothing : (v : Object) → none ≡ some v → ⊥
nothing v h = cc

module _ (c : Chunk) (floats : Floats) (heap : Heap)
    (others : Chunk → Opcode → Machine → Step) where
  abbrev pub Gives : ℕ → List Object → ℕ → List Object → Env → Result Object Fault → Type 0
  Gives p stack q base env r = Computes c floats heap others p stack q base env r

  pub bind-Computes :
      (p m q : ℕ) (stack base : List Object) (env : Env) (r : Result Object Fault)
      (f : Object → Result Object Fault)
      → Gives p stack m stack env r
      → ((v : Object) → Gives m (v ∷ stack) q base env (f v))
      → Gives p stack q base env (bind r f)
  unfolding Computes
  bind-Computes p m q stack base env (ok v) f h k =
      Computes-after c floats heap others p m q stack (v ∷ stack) base env (f v) h (k v)
  bind-Computes p m q stack base env (err e) f h k = h

  -- The tree-walker keeps the environment, and the machine computes its result.
  abbrev pub Agrees : Expr → ℕ → ℕ → Type 0
  Agrees e p q =
      (env : Env)
      → (r : Result Object Fault) × (eval_expr floats heap e env ≡ given env r)
        × ((stack : List Object) → Gives p stack q stack env r)

  eval-literal :
      (e : Expr) (v : Object) (env : Env)
      → literal e ≡ some v
      → eval_expr floats heap e env ≡ given env (ok v)
  unfolding literal eval_expr
  eval-literal (number_lit pos n) v env h = ap (λ w. given env (ok w)) (some-eq h)
  eval-literal (bool_lit pos n) v env h = ap (λ w. given env (ok w)) (some-eq h)
  eval-literal (null_lit pos) v env h = ap (λ w. given env (ok w)) (some-eq h)
  eval-literal (undefined_lit pos) v env h = ap (λ w. given env (ok w)) (some-eq h)
  eval-literal (string_lit pos n) v env h = elim (Option-cases (eval_string_lit n)) [
    | inl e ↦ absurd (nothing v (rw e at h))
    | inr (text, e) ↦ rw e (ap (λ w. given env (ok w)) (some-eq (rw e at h)))
  ]
  eval-literal _ v env h = cc

  pub literal-Agrees :
      (e : Expr) (v : Object) (p : ℕ)
      → literal e ≡ some v
      → Names c Opcode.const p v
      → Agrees e p (p + 3)
  unfolding Computes
  literal-Agrees e v p l (idx, lt, at, code) env = (
    ok v,
    eval-literal e v env l,
    λ stack. const-Goes c floats heap others p stack env idx v code lt at,
  )

  pub name-Agrees :
      (i : Ident) (p : ℕ) → Names c Opcode.load_name p (string i.name) → Agrees (ident i) p (p + 3)
  unfolding eval_expr
  name-Agrees i p (idx, lt, at, code) env = (
    eval_ident i env,
    refl,
    λ stack. load_name-Computes c floats heap others p stack env i idx code lt at,
  )

  -- A value that is replaced by a constant.
  replaced :
      (m : ℕ) (v w : Object) (stack : List Object) (env : Env)
      → Plain c Opcode.pop m
      → Names c Opcode.const (m + 1) w
      → Gives m (v ∷ stack) (m + 4) stack env (ok w)
  unfolding Computes
  replaced m v w stack env pop (idx, lt, at, code) =
      subst (λ q. Gives m (v ∷ stack) q stack env (ok w)) (omega arith)
        (Reaches-trans c floats heap others _ _ _
          (pop-Goes c floats heap others m (v ∷ stack) env v stack pop refl)
          (const-Goes c floats heap others (m + 1) stack env idx w code lt at))

  pub delete-Agrees :
      (pos : Position) (e : Expr) (p m : ℕ)
      → Agrees e p m
      → Plain c Opcode.pop m
      → Names c Opcode.const (m + 1) (boolean true)
      → Agrees (prefix pos (lit "delete") e) p (m + 4)
  unfolding eval_expr apply_prefix text_eq
  delete-Agrees pos e p m h pop k env =
      let (r, same, go) = h env in
      (
        bind r (λ v. ok (boolean true)),
        rw same (bind-Outcome env r _ _ (λ v. refl)),
        λ stack.
            bind-Computes p m (m + 4) stack stack env r _ (go stack)
              (λ v. replaced m v (boolean true) stack env pop k),
      )

  pub void-Agrees :
      (pos : Position) (e : Expr) (p m : ℕ)
      → Agrees e p m
      → Plain c Opcode.pop m
      → Names c Opcode.const (m + 1) undefined
      → Agrees (prefix pos (lit "void") e) p (m + 4)
  unfolding eval_expr apply_prefix text_eq apply_unary_op
  void-Agrees pos e p m h pop k env =
      let (r, same, go) = h env in
      (
        bind r (λ v. ok undefined),
        rw same (bind-Outcome env r _ _ (λ v. refl)),
        λ stack.
            bind-Computes p m (m + 4) stack stack env r _ (go stack)
              (λ v. replaced m v undefined stack env pop k),
      )

  prefix-value :
      (pos : Position) (op : Text) (oc : Opcode) (m : ℕ) (v : Object) (stack : List Object)
      (env : Env)
      → UnaryRow op oc
      → Plain c oc m
      → Gives m (v ∷ stack) (m + 1) stack env (apply_unary_op floats op v pos)
  unfolding UnaryRow apply_unary_op Computes text_eq
  prefix-value pos op oc m v stack env (u, d, inr (b, f)) code =
      unary-Computes c floats heap others m (v ∷ stack) stack env oc op code pos v b f refl
  prefix-value pos op oc m v stack env (u, d, inl (e, f)) code =
      rw (e, apply_unary_op, Computes)
        (type_of-Goes c floats heap others m (v ∷ stack) env v stack (rw (← f) code) refl)

  pub prefix-Agrees :
      (pos : Position) (op : Text) (oc : Opcode) (e : Expr) (p m : ℕ)
      → UnaryRow op oc
      → Agrees e p m
      → Plain c oc m
      → Agrees (prefix pos op e) p (m + 1)
  unfolding eval_expr apply_prefix UnaryRow
  prefix-Agrees pos op oc e p m row h code env =
      let (r, same, go) = h env in
      (
        bind r (λ v. apply_unary_op floats op v pos),
        rw (same, row.0, row.1) (bind-Outcome env r _ _ (λ v. refl)),
        λ stack.
            bind-Computes p m (m + 1) stack stack env r _ (go stack)
              (λ v. prefix-value pos op oc m v stack env row code),
      )

  pub infix-Agrees :
      (pos : Position) (op : Text) (oc : Opcode) (l r : Expr) (p m n : ℕ)
      → binary_opcode op ≡ some oc
      → StrictRow op oc
      → Agrees l p m
      → Agrees r m n
      → Plain c oc n
      → Agrees (infix_expr pos op l r) p (n + 1)
  unfolding eval_expr StrictRow
  infix-Agrees pos op oc l r p m n known row h k code env =
      let (x, same_l, go_l) = h env in
      let (y, same_r, go_r) = k env in
      let apply : Object → Object → Result Object Fault =
        λ a b. apply_binary_op floats heap op a b pos in
      (
        bind x (λ a. bind y (apply a)),
        rw (same_l, row.0, row.1, row.2)
            (bind-Outcome env x _ _ (λ a. rw same_r (bind-Outcome env y _ _ (λ b. refl)))),
        λ stack. bind-Computes p m (n + 1) stack stack env x _ (go_l stack) (λ a.
            bind-Computes m n (n + 1) (a ∷ stack) stack env y (apply a) (go_r (a ∷ stack)) (λ b.
              binary-Computes c floats heap others n (b ∷ a ∷ stack) stack env oc op code pos a b
                known refl)),
      )
