-- ===== src/Gts/Interp.antt =====
-- crates/night24-gts/src/bytecode/interp.rs and interp_helpers (operands.rs, stack.rs, control.rs,
-- bindings.rs): the stack machine, the last value pushed first. `last_ip` is `ip` at the start of a
-- step. A chunk of this part of the language has no protected regions, so no error is caught, and
-- the deadline and the instruction limit are not set.
pub mod Runs
pub mod Instructions
pub mod Operators
use night.Gts.Globals.{with_globals}
use night.Text.Decimal.{to_decimal}
use night.Text.{Text, lit}
use night.Prelude.{
  Result, ok, err, ltb, leb, ◌==◌, if◌then◌else◌, get_elem?, drop, ℕ, zero, suc, ◌+◌, ◌-◌, ◌/◌, ◌%◌,
  ◌^◌, Bool, true, false, Option, none, some, List, ◌∷◌, ◌++◌, [], not, ◌*◌, ◌<◌,
}
use night.Gts.Chunk.{
  Chunk, Position, Object, read_u16, read_u32, position_at, string, null, undefined, no_position,
  bool_eq,
}
use night.Gts.Opcode.{Opcode, from_byte, to_byte}
use night.Gts.Value.{Fault, Floats, Heap, is_truthy, typeof_name, apply_binary_op, apply_unary_op}
use night.Gts.Environment.{Env, get, set_here, assign, find_binding}

pub record Machine : Type 0 where
  pub ip : ℕ
  pub stack : List Object
  pub env : Env

-- `Flow`, with the machine after the step.
pub data Flow : Type 0 where
  goes_on : Machine → Flow
  returns : Object → Flow

abbrev pub Step : Type 0
Step = Result Flow Fault

-- The outcome of reading an operand.
infixl 5 ◌>>=?◌
abbrev pub ◌>>=?◌ {ℓ} : {A : Type ℓ} → Result A Fault → (A → Step) → Step
ok a >>=? f = f a
err e >>=? f = err e

abbrev pub raised {ℓ} : {A : Type ℓ} → Position → Text → Result A Fault
raised pos message = err (record { pos = pos; message = message })

abbrev pub stack_underflow {ℓ} : {A : Type ℓ} → Position → Result A Fault
stack_underflow pos = raised pos (lit "VMError: stack underflow")

abbrev pub pop_stack : List Object → Position → Result (Object × List Object) Fault
pop_stack [] pos = stack_underflow pos
pop_stack (v ∷ stack) pos = ok (v, stack)

abbrev hex_digit : ℕ → ℕ
hex_digit n = if ltb n 10 then 48 + n else 87 + n

-- `{:02x}`
abbrev pub hex_byte : ℕ → Text
hex_byte n = hex_digit (n / 16) ∷ hex_digit (n % 16) ∷ []

-- The operators behind the opcodes.
abbrev pub binary_operators : List (Opcode × Text)
binary_operators =
    (Opcode.add, lit "+")
    ∷ (Opcode.sub, lit "-")
    ∷ (Opcode.mul, lit "*")
    ∷ (Opcode.div, lit "/")
    ∷ (Opcode.mod_op, lit "%")
    ∷ (Opcode.pow, lit "**")
    ∷ (Opcode.bit_and, lit "&")
    ∷ (Opcode.bit_or, lit "|")
    ∷ (Opcode.bit_xor, lit "^")
    ∷ (Opcode.shl, lit "<<")
    ∷ (Opcode.shr, lit ">>")
    ∷ (Opcode.ushr, lit ">>>")
    ∷ (Opcode.eq, lit "===")
    ∷ (Opcode.neq, lit "!==")
    ∷ (Opcode.lt, lit "<")
    ∷ (Opcode.le, lit "<=")
    ∷ (Opcode.gt, lit ">")
    ∷ (Opcode.ge, lit ">=")
    ∷ (Opcode.instance_of, lit "instanceof")
    ∷ (Opcode.in_op, lit "in")
    ∷ (Opcode.concat, lit "+")
    ∷ []

abbrev pub unary_operators : List (Opcode × Text)
unary_operators =
    (Opcode.not, lit "!")
    ∷ (Opcode.neg, lit "-")
    ∷ (Opcode.bit_not, lit "~")
    ∷ (Opcode.identity, lit "+")
    ∷ []

unfoldable pub find_operator : Opcode → List (Opcode × Text) → Option Text
find_operator op [] = none
find_operator op ((k, t) ∷ rows) =
    let rest = find_operator op rows in if to_byte k == to_byte op then some t else rest

module _ (c : Chunk) where
  -- `read_u16_operand` and `read_u32_operand`; the operand and where the next byte is.
  unfoldable pub read_u16_operand : Text → ℕ → Result ℕ Fault
  read_u16_operand opcode ip = elim (read_u16 c ip) [
    | none ↦ raised (position_at c (ip - 1)) (lit "VMError: " ++ (opcode ++ lit " missing operand"))
    | some v ↦ ok v
  ]

  unfoldable pub read_u32_operand : Text → ℕ → Result ℕ Fault
  read_u32_operand opcode ip = elim (read_u32 c ip) [
    | none ↦ raised (position_at c (ip - 1)) (lit "VMError: " ++ (opcode ++ lit " missing operand"))
    | some v ↦ ok v
  ]

  unfoldable pub read_string_const : Text → ℕ → Position → Result Text Fault
  read_string_const opcode idx pos = elim (get_elem? c.constants idx) [
    | some (string s) ↦ ok s
    | _ ↦ raised pos (lit "VMError: " ++ (opcode ++ lit " operand is not a string"))
  ]

  -- `read_string_operand`: the text, and the position of the instruction.
  unfoldable pub read_string_operand : Text → ℕ → Result (Text × Position) Fault
  read_string_operand opcode ip = elim (read_u16_operand opcode ip) [
    | err e ↦ err e
    | ok idx ↦
        let pos = position_at c (ip + 2 - 3) in
        elim (read_string_const opcode idx pos) [ err e ↦ err e | ok s ↦ ok (s, pos) ]
  ]

  -- `read_name_operand` takes the flag of a constant off the index.
  unfoldable pub read_name_operand : Text → ℕ → Result (Text × Bool × Position) Fault
  read_name_operand opcode ip = elim (read_u16_operand opcode ip) [
    | err e ↦ err e
    | ok operand ↦
        let pos = position_at c (ip + 2 - 3) in
        elim (read_string_const opcode (operand % 2 ^ 15) pos) [
          | err e ↦ err e
          | ok s ↦ ok (s, leb 0x8000 operand, pos)
        ]
  ]

  -- `push_const_from_operand`, at the byte behind the opcode.
  unfoldable pub push_const : Machine → Step
  push_const m = read_u16_operand (lit "CONST") m.ip >>=? λ idx. elim (get_elem? c.constants idx) [
    | none ↦
        raised (position_at c (m.ip + 2 - 3))
          (lit "VMError: CONST constant index " ++ (to_decimal idx ++ lit " out of range"))
    | some v ↦ ok (goes_on (record m { ip = m.ip + 2; stack = v ∷ m.stack }))
  ]

  unfoldable pub jump_to_operand : Text → Machine → Step
  jump_to_operand opcode m =
      read_u32_operand opcode m.ip >>=? λ target. ok (goes_on (record m { ip = target }))

  unfoldable pub conditional_jump : Text → Bool → Machine → Step
  conditional_jump opcode jump_when_truthy m = read_u32_operand opcode m.ip >>=? λ target.
      pop_stack m.stack (position_at c (m.ip + 4 - 5)) >>=? λ popped. ok (
        goes_on (record m {
          ip = if bool_eq (is_truthy popped.0) jump_when_truthy then target else m.ip + 4;
          stack = popped.1;
        }))

  unfoldable pub load_name_from_operand : Machine → Step
  load_name_from_operand m = read_string_operand (lit "LOAD_NAME") m.ip >>=? λ operand.
      elim (get m.env operand.0) [
        | none ↦ raised operand.1 (lit "ReferenceError: '" ++ (operand.0 ++ lit "' is not defined"))
        | some v ↦ ok (goes_on (record m { ip = m.ip + 2; stack = v ∷ m.stack }))
      ]

  unfoldable pub store_name_from_operand : Machine → Step
  store_name_from_operand m = read_name_operand (lit "STORE_NAME") m.ip >>=? λ operand.
      pop_stack m.stack operand.2 >>=? λ popped. ok (
        goes_on (record m {
          ip = m.ip + 2;
          stack = popped.1;
          env = set_here operand.0 popped.0 operand.1 m.env;
        }))

  -- `assign_name` leaves the value on the stack. `binding_info` reads the scopes, not the globals.
  unfoldable pub assign_name_from_operand : Machine → Step
  assign_name_from_operand m = read_string_operand (lit "ASSIGN_NAME") m.ip >>=? λ operand.
      pop_stack m.stack operand.1 >>=? λ last. elim (find_binding operand.0 m.env.scopes) [
        | none ↦ raised operand.1 (lit "ReferenceError: '" ++ (operand.0 ++ lit "' is not defined"))
        | some b ↦
            if b.is_const
            then raised operand.1
                (lit "TypeError: assignment to constant '" ++ (operand.0 ++ lit "'"))
            else ok (goes_on (record m { ip = m.ip + 2; env = (assign operand.0 last.0 m.env).0 }))
      ]

  module _ (floats : Floats) (heap : Heap) where
    -- `apply_binary_stack_op` and `apply_unary_stack_op`.
    unfoldable pub bin_op : Text → Position → Machine → Step
    bin_op op pos m = pop_stack m.stack pos >>=? λ right. pop_stack right.1 pos >>=? λ left.
        apply_binary_op floats heap op left.0 right.0 pos >>=? λ v.
        ok (goes_on (record m { stack = v ∷ left.1 }))

    unfoldable pub un_op : Text → Position → Machine → Step
    un_op op pos m = pop_stack m.stack pos >>=? λ right.
        apply_unary_op floats op right.0 pos >>=? λ v.
        ok (goes_on (record m { stack = v ∷ right.1 }))

    -- The opcodes that this part of the compiler does not emit.
    module _ (others : Chunk → Opcode → Machine → Step) where
      -- The arms of `step` for the opcodes that are no operators, at the byte behind the opcode.
      unfoldable pub plain : Opcode → Position → Machine → Step
      plain Opcode.const pos m = push_const m
      plain Opcode.pop pos m = ok (goes_on (record m { stack = drop 1 m.stack }))
      plain Opcode.dup pos m =
          pop_stack m.stack pos >>=? λ last. ok (goes_on (record m { stack = last.0 ∷ m.stack }))
      plain Opcode.jump pos m = jump_to_operand (lit "JUMP") m
      plain Opcode.loop pos m = jump_to_operand (lit "LOOP") m
      plain Opcode.jump_if_false pos m = conditional_jump (lit "JUMP_IF_FALSE") false m
      plain Opcode.jump_if_true pos m = conditional_jump (lit "JUMP_IF_TRUE") true m
      plain Opcode.return pos m = ok (returns (elim m.stack [ [] ↦ undefined | v ∷ rest ↦ v ]))
      plain Opcode.return_null pos m = ok (returns null)
      plain Opcode.type_of pos m = pop_stack m.stack pos >>=? λ last.
          ok (goes_on (record m { stack = string (typeof_name last.0) ∷ last.1 }))
      plain Opcode.load_name pos m = load_name_from_operand m
      plain Opcode.store_name pos m = store_name_from_operand m
      plain Opcode.assign_name pos m = assign_name_from_operand m
      plain op pos m = others c op m

      unfoldable pub execute : Opcode → Position → Machine → Step
      execute op pos m = elim (find_operator op binary_operators) [
        | some t ↦ bin_op t pos m
        | none ↦ elim (find_operator op unary_operators) [
          | some t ↦ un_op t pos m
          | none ↦ plain op pos m
        ]
      ]

      unfoldable pub decoded : ℕ → Option Opcode → Machine → Step
      decoded byte none m =
          raised (position_at c m.ip) (lit "VMError: unknown opcode byte 0x" ++ hex_byte byte)
      decoded byte (some op) m = execute op (position_at c m.ip) (record m { ip = m.ip + 1 })

      -- `step`, with the test of `run` that `ip` is in the code.
      unfoldable pub step : Machine → Step
      step m = elim (get_elem? c.code m.ip) [
        | none ↦ raised no_position (lit "VMError: ran off the end of bytecode without RETURN")
        | some byte ↦ decoded byte (from_byte byte) m
      ]

      -- `run`, for a number of steps: `none` when they are used up.
      unfoldable pub run : ℕ → Machine → Option (Result Object Fault)
      run zero m = none
      run (suc fuel) m = elim (step m) [
        | err e ↦ some (err e)
        | ok (returns v) ↦ some (ok v)
        | ok (goes_on m') ↦ run fuel m'
      ]

      -- `interpret`: the standard globals are set when `println` is not a global.
      unfoldable pub interpret : (Text → Object) → ℕ → Env → Option (Result Object Fault)
      interpret standard fuel env =
          run fuel (record { ip = 0; stack = []; env = with_globals standard env })
