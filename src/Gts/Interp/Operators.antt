-- ===== src/Gts/Interp/Operators.antt =====
-- crates/night24-gts/src/bytecode/interp.rs: the instructions of the operators.
use night.Gts.Compiler.Tables.{find_operator-binary}
use night.Gts.Interp.Instructions.{executed, stops}
use night.Gts.Environment.{Env}
use night.Gts.Opcode.{to_byte, Opcode}
use night.Gts.Compiler.{binary_opcode}
use night.Gts.Interp.{
  find_operator, binary_operators, Machine, Step, execute, bin_op, un_op, unary_operators, ◌>>=?◌,
  goes_on,
}
use night.Gts.Chunk.{Position, Chunk, Object, position_at}
use night.Gts.Value.{
  find_text, Floats, eval_add, compare_objects, number_op, Heap, apply_unary_op, Fault, to_numeric,
  on_number, apply_arm, apply_binary_op, Arm, arms, adds, numeric, bitwise, equal, unequal,
  compares, instance_arm, add_error, is_string,
}
use night.Text.{Text, text_eq, lit}
use night.Prelude.{
  Result, ok, err, Result-cases, Option-cases, ℕ, ◌+◌, ◌≡◌, refl, inl, inr, Option, none, some,
  List, ◌∷◌, [], if◌then◌else◌, Bool, true, false, ◌||◌,
}
use night.Gts.Value.{in_arm, instance_arm, equal, unequal, compares, adds, numeric, bitwise}
use night.Gts.Chunk.{number, string}
use night.Gts.Interp.Runs.{Computes, HasCode, at}

-- An error at another position.
abbrev pub moved : Position → Result Object Fault → Result Object Fault
moved pos (ok v) = ok v
moved pos (err e) = err (record { pos = pos; message = e.message })

module _ (floats : Floats) (p q : Position) where
  if-moved :
      (b : Bool) (x x' y y' : Result Object Fault)
      → x' ≡ moved q x
      → y' ≡ moved q y
      → (if b then x' else y') ≡ moved q (if b then x else y)
  if-moved true x x' y y' e f = e
  if-moved false x x' y y' e f = f

  add_error-moved : (l r : Object) → add_error l r q ≡ moved q (add_error l r p)
  add_error-moved l r = if-moved (is_string l || is_string r) _ _ _ _ refl refl

  eval_add-moved : (l r : Object) → eval_add floats l r q ≡ moved q (eval_add floats l r p)
  unfolding eval_add
  eval_add-moved (number a) (number b) = refl
  eval_add-moved (string a) (string b) = refl
  eval_add-moved l r = add_error-moved l r

  compare_objects-moved :
      (op : Text) (l r : Object)
      → compare_objects floats op l r q ≡ moved q (compare_objects floats op l r p)
  unfolding compare_objects
  compare_objects-moved op (number a) (number b) = refl
  compare_objects-moved op (string a) (string b) = refl
  compare_objects-moved op _ _ = refl

  number_op-moved :
      (op : Text) (l r : Object) → number_op floats op l r q ≡ moved q (number_op floats op l r p)
  unfolding number_op
  number_op-moved op l r = elim (Option-cases (to_numeric floats l)) [
    | inl n ↦ rw (n, number_op)
    | inr (a, f) ↦ elim (Option-cases (to_numeric floats r)) [
      | inl n ↦ rw (f, n, number_op)
      | inr (b, g) ↦ rw (f, g, number_op)
    ]
  ]

  on_number-moved :
      (f : ℕ → ℕ) (what : Text) (r : Object)
      → on_number floats f what r q ≡ moved q (on_number floats f what r p)
  on_number-moved f what (number n) = refl
  on_number-moved f what _ = refl

  module _ (heap : Heap) where
    apply_arm-moved :
        (a : Option Arm) (op : Text) (l r : Object)
        → apply_arm floats heap a op l r q ≡ moved q (apply_arm floats heap a op l r p)
    unfolding apply_arm
    apply_arm-moved none op l r = refl
    apply_arm-moved (some adds) op l r = eval_add-moved l r
    apply_arm-moved (some numeric) op l r = number_op-moved op l r
    apply_arm-moved (some bitwise) op l r = number_op-moved op l r
    apply_arm-moved (some equal) op l r = refl
    apply_arm-moved (some unequal) op l r = refl
    apply_arm-moved (some compares) op l r = compare_objects-moved op l r
    apply_arm-moved (some instance_arm) op l r = refl
    apply_arm-moved (some in_arm) op l r = elim (Result-cases (heap.eval_in l r)) [
      | inl (v, e) ↦ rw (e, apply_arm)
      | inr (m, e) ↦ rw (e, apply_arm)
    ]

    -- The position of an operator is in its errors only.
    pub apply_binary_op-moved :
        (op : Text) (l r : Object)
        → apply_binary_op floats heap op l r q ≡ moved q (apply_binary_op floats heap op l r p)
    unfolding apply_binary_op
    apply_binary_op-moved op l r = apply_arm-moved (find_text op arms) op l r

  pub apply_unary_op-moved :
      (op : Text) (r : Object)
      → apply_unary_op floats op r q ≡ moved q (apply_unary_op floats op r p)
  unfolding apply_unary_op
  apply_unary_op-moved op r = if-moved (text_eq op (lit "!")) _ _ _ _ refl (
      if-moved (text_eq op (lit "-")) _ _ _ _
        (on_number-moved floats.neg (lit "TypeError: cannot negate ") r)
        (if-moved (text_eq op (lit "+")) _ _ _ _
          (on_number-moved (λ n. n) (lit "TypeError: cannot apply + to ") r)
          (if-moved (text_eq op (lit "typeof")) _ _ _ _ refl (
            if-moved (text_eq op (lit "void")) _ _ _ _ refl (
              if-moved (text_eq op (lit "~")) _ _ _ _
                (on_number-moved floats.bit_not (lit "TypeError: cannot apply ~ to ") r) refl)))))

module _ (c : Chunk) (floats : Floats) (heap : Heap) (others : Chunk → Opcode → Machine → Step)
    (p : ℕ) (stack rest : List Object) (env : Env) (oc : Opcode) (op : Text)
    (code : HasCode c.code p (to_byte oc ∷ [])) where
  result-moved :
      (q : Position) (r : Result Object Fault)
      → Computes c floats heap others p stack (p + 1) rest env (moved q r)
      → Computes c floats heap others p stack (p + 1) rest env r
  unfolding Computes
  result-moved q (ok v) h = h
  result-moved q (err e) h = h

  result-Computes :
      (r : Result Object Fault)
      → execute c floats heap others oc
          (position_at c p)
          (at c floats heap others (p + 1) stack env)
        ≡ (r >>=? λ v. ok (goes_on (at c floats heap others (p + 1) (v ∷ rest) env)))
      → Computes c floats heap others p stack (p + 1) rest env r
  unfolding Computes
  result-Computes (ok v) e =
      executed c floats heap others p stack env oc [] (p + 1) (v ∷ rest) code e
  result-Computes (err f) e =
      stops c floats heap others p stack env oc [] (p + 1) rest f f code e refl

  pub binary-Computes :
      (pos : Position) (l r : Object)
      → binary_opcode op ≡ some oc
      → stack ≡ r ∷ l ∷ rest
      → Computes c floats heap others p stack
          (p + 1)
          rest
          env
          (apply_binary_op floats heap op l r pos)
  unfolding execute bin_op
  binary-Computes pos l r e s = result-moved (position_at c p) _ (
      rw (← apply_binary_op-moved floats pos (position_at c p) heap op l r)
        (result-Computes _ (rw (find_operator-binary op oc e, s, execute, bin_op))))

  pub unary-Computes :
      (pos : Position) (r : Object)
      → find_operator oc binary_operators ≡ none
      → find_operator oc unary_operators ≡ some op
      → stack ≡ r ∷ rest
      → Computes c floats heap others p stack (p + 1) rest env (apply_unary_op floats op r pos)
  unfolding execute un_op
  unary-Computes pos r e f s = result-moved (position_at c p) _ (
      rw (← apply_unary_op-moved floats pos (position_at c p) op r)
        (result-Computes _ (rw (e, f, s, execute, un_op))))
