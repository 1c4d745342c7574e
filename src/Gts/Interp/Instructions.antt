-- ===== src/Gts/Interp/Instructions.antt =====
-- crates/night24-gts/src/bytecode/interp.rs: one instruction, where its bytes stand in the code.
use night.Gts.Ast.{Ident}
use night.Gts.Evaluator.{eval_ident}
use night.Text.{Text, lit}
use night.Gts.Interp.Runs.{
  Reaches, HasCode, at, one_step, u16_bytes, step-execute, read_u16-at, HasCode-head, HasCode-tail,
  read_u32-at, Computes, here,
}
use night.Gts.Environment.{Env, get}
use night.Gts.Interp.{
  Machine, Step, execute, plain, push_const, goes_on, read_u16_operand, find_operator,
  read_u32_operand, read_string_operand, jump_to_operand, read_string_const, ◌>>=?◌,
  conditional_jump, load_name_from_operand,
}
use night.Gts.Opcode.{Opcode, to_byte}
use night.Gts.Value.{Floats, Heap, typeof_name, is_truthy, Fault}
use night.Gts.Chunk.{Chunk, Object, position_at, be_bytes, string, bool_eq}
use night.Prelude.{
  ok, get_elem?, ℕ, ◌+◌, ◌^◌, ◌<◌, ◌≡◌, ◌∙◌, some, List, ◌∷◌, ◌-◌, refl, if◌then◌else◌,
  Option-cases, ap, inl, inr, arith, [], err, Bool, true, false, ◌++◌,
}

module _ (c : Chunk) (floats : Floats) (heap : Heap) (others : Chunk → Opcode → Machine → Step)
    (p : ℕ) (stack : List Object) (env : Env) where
  abbrev Goes : ℕ → List Object → Type 0
  Goes q stack' =
      Reaches c floats heap others (at c floats heap others p stack env)
        (at c floats heap others q stack' env)

  pub executed :
      (op : Opcode) (k : List ℕ) (q : ℕ) (stack' : List Object)
      → HasCode c.code p (to_byte op ∷ k)
      → execute c floats heap others op
          (position_at c p)
          (at c floats heap others (p + 1) stack env)
        ≡ ok (goes_on (at c floats heap others q stack' env))
      → Goes q stack'
  executed op k q stack' h e = one_step c floats heap others _ _ (
      step-execute c floats heap others p op stack env (HasCode-head c.code p (to_byte op) k h) ∙ e)

  operand16 :
      (what : Text) (op : Opcode) (idx : ℕ)
      → HasCode c.code p (to_byte op ∷ u16_bytes idx)
      → idx < 2 ^ 16
      → read_u16_operand c what (p + 1) ≡ ok idx
  unfolding read_u16_operand
  operand16 what op idx h lt =
      rw
        (
          read_u16-at c (p + 1) idx lt (HasCode-tail c.code p (to_byte op) (u16_bytes idx) h),
          read_u16_operand,
        )
        refl

  operand32 :
      (what : Text) (op : Opcode) (target : ℕ)
      → HasCode c.code p (to_byte op ∷ be_bytes target)
      → target < 2 ^ 32
      → read_u32_operand c what (p + 1) ≡ ok target
  unfolding read_u32_operand
  operand32 what op target h lt =
      rw
        (
          read_u32-at c (p + 1) target lt (HasCode-tail c.code p (to_byte op) (be_bytes target) h),
          read_u32_operand,
        )
        refl

  pub string_operand :
      (what : Text) (op : Opcode) (idx : ℕ) (name : Text)
      → HasCode c.code p (to_byte op ∷ u16_bytes idx)
      → idx < 2 ^ 16
      → get_elem? c.constants idx ≡ some (string name)
      → read_string_operand c what (p + 1) ≡ ok (name, position_at c (p + 1 + 2 - 3))
  unfolding read_string_operand read_string_const
  string_operand what op idx name h lt e =
      rw (operand16 what op idx h lt, e, read_string_operand, read_string_const) refl

  -- A value is pushed and the machine goes on behind an operand of two bytes.
  pushed :
      (q : ℕ) (v : Object)
      → q ≡ p + 3
      → ◌≡◌ {A = Step}
          (ok (goes_on (at c floats heap others q (v ∷ stack) env)))
          (ok (goes_on (at c floats heap others (p + 3) (v ∷ stack) env)))
  pushed q v e = ap (λ n. ok (goes_on (at c floats heap others n (v ∷ stack) env))) e

  -- `CONST` pushes the constant.
  pub const-Goes :
      (idx : ℕ) (v : Object)
      → HasCode c.code p (to_byte Opcode.const ∷ u16_bytes idx)
      → idx < 2 ^ 16
      → get_elem? c.constants idx ≡ some v
      → Goes (p + 3) (v ∷ stack)
  unfolding execute plain push_const find_operator to_byte
  const-Goes idx v h lt e = executed Opcode.const (u16_bytes idx) (p + 3) (v ∷ stack) h (
      rw (operand16 (lit "CONST") Opcode.const idx h lt, push_const)
        (rw (e, ◌>>=?◌) (pushed (p + 1 + 2) v (omega arith))))

  pub jump-Goes :
      (target : ℕ)
      → HasCode c.code p (to_byte Opcode.jump ∷ be_bytes target)
      → target < 2 ^ 32
      → Goes target stack
  unfolding execute plain jump_to_operand find_operator to_byte
  jump-Goes target h lt =
      executed Opcode.jump (be_bytes target) target stack h
        (rw (operand32 (lit "JUMP") Opcode.jump target h lt, jump_to_operand) refl)

  pub pop-Goes :
      (v : Object) (rest : List Object)
      → HasCode c.code p (to_byte Opcode.pop ∷ [])
      → stack ≡ v ∷ rest
      → Goes (p + 1) rest
  unfolding execute plain find_operator to_byte
  pop-Goes v rest h e = executed Opcode.pop [] (p + 1) rest h (rw e refl)

  pub dup-Goes :
      (v : Object) (rest : List Object)
      → HasCode c.code p (to_byte Opcode.dup ∷ [])
      → stack ≡ v ∷ rest
      → Goes (p + 1) (v ∷ v ∷ rest)
  unfolding execute plain find_operator to_byte
  dup-Goes v rest h e = executed Opcode.dup [] (p + 1) (v ∷ v ∷ rest) h (rw e refl)

  pub type_of-Goes :
      (v : Object) (rest : List Object)
      → HasCode c.code p (to_byte Opcode.type_of ∷ [])
      → stack ≡ v ∷ rest
      → Goes (p + 1) (string (typeof_name v) ∷ rest)
  unfolding execute plain find_operator to_byte
  type_of-Goes v rest h e =
      executed Opcode.type_of [] (p + 1) (string (typeof_name v) ∷ rest) h (rw e refl)

  place :
      (b : Bool) (target : ℕ)
      → (if bool_eq b false then target else p + 1 + 4) ≡ (if b then p + 5 else target)
  place true target = omega arith
  place false target = refl

  place_true :
      (b : Bool) (target : ℕ)
      → (if bool_eq b true then target else p + 1 + 4) ≡ (if b then target else p + 5)
  place_true true target = refl
  place_true false target = omega arith

  -- The conditional jumps pop the test.
  pub jump_if_false-Goes :
      (target : ℕ) (v : Object) (rest : List Object)
      → HasCode c.code p (to_byte Opcode.jump_if_false ∷ be_bytes target)
      → target < 2 ^ 32
      → stack ≡ v ∷ rest
      → Goes (if is_truthy v then p + 5 else target) rest
  unfolding execute plain conditional_jump find_operator to_byte
  jump_if_false-Goes target v rest h lt e =
      executed Opcode.jump_if_false (be_bytes target) (if is_truthy v then p + 5 else target) rest h
        (rw (operand32 (lit "JUMP_IF_FALSE") Opcode.jump_if_false target h lt, conditional_jump)
          (rw (e, ◌>>=?◌)
            (ap (λ n. ok (goes_on (at c floats heap others n rest env)))
              (place (is_truthy v) target))))

  pub jump_if_true-Goes :
      (target : ℕ) (v : Object) (rest : List Object)
      → HasCode c.code p (to_byte Opcode.jump_if_true ∷ be_bytes target)
      → target < 2 ^ 32
      → stack ≡ v ∷ rest
      → Goes (if is_truthy v then target else p + 5) rest
  unfolding execute plain conditional_jump find_operator to_byte
  jump_if_true-Goes target v rest h lt e =
      executed Opcode.jump_if_true (be_bytes target) (if is_truthy v then target else p + 5) rest h
        (rw (operand32 (lit "JUMP_IF_TRUE") Opcode.jump_if_true target h lt, conditional_jump)
          (rw (e, ◌>>=?◌)
            (ap (λ n. ok (goes_on (at c floats heap others n rest env)))
              (place_true (is_truthy v) target))))

  -- A step at an address where this opcode stands stops with the fault of its arm.
  pub stops :
      (op : Opcode) (k : List ℕ) (q : ℕ) (base : List Object) (e f : Fault)
      → HasCode c.code p (to_byte op ∷ k)
      → execute c floats heap others op
          (position_at c p)
          (at c floats heap others (p + 1) stack env)
        ≡ err f
      → f.message ≡ e.message
      → Computes c floats heap others p stack q base env (err e)
  unfolding Computes
  stops op k q base e f h x same = (
    at c floats heap others p stack env,
    f,
    here _,
    step-execute c floats heap others p op stack env (HasCode-head c.code p (to_byte op) k h) ∙ x,
    same,
    refl,
  )

  -- `LOAD_NAME` reads the name as the tree-walker does.
  pub load_name-Computes :
      (i : Ident) (idx : ℕ)
      → HasCode c.code p (to_byte Opcode.load_name ∷ u16_bytes idx)
      → idx < 2 ^ 16
      → get_elem? c.constants idx ≡ some (string i.name)
      → Computes c floats heap others p stack (p + 3) stack env (eval_ident i env)
  unfolding Computes eval_ident execute plain load_name_from_operand find_operator to_byte
  load_name-Computes i idx h lt e = elim (Option-cases (get env i.name)) [
    | inl n ↦
        rw (n, eval_ident)
          (let message : Text = lit "ReferenceError: '" ++ (i.name ++ lit "' is not defined") in
            stops Opcode.load_name (u16_bytes idx) (p + 3) stack
              (record { pos = i.pos; message = message })
              (record { pos = position_at c (p + 1 + 2 - 3); message = message }) h
              (rw
                (
                  string_operand (lit "LOAD_NAME") Opcode.load_name idx i.name h lt e,
                  load_name_from_operand,
                )
                (rw (n, ◌>>=?◌) refl))
              refl)
    | inr (v, f) ↦
        rw (f, eval_ident, Computes)
          (executed Opcode.load_name (u16_bytes idx) (p + 3) (v ∷ stack) h (
            rw
              (
                string_operand (lit "LOAD_NAME") Opcode.load_name idx i.name h lt e,
                load_name_from_operand,
              )
              (rw (f, ◌>>=?◌) (pushed (p + 1 + 2) v (omega arith)))))
  ]
