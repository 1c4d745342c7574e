-- ===== src/Examples/Scripts.antt =====
-- Programs of crates/night24-gts, compiled and run, and by the tree-walker.
use night.Gts.Globals.{with_globals}
use night.Gts.Compiler.Total.{IsSupported, compile_expr-total}
use night.Gts.Compiler.Growth.{Grows}
use night.Gts.Environment.Lookup.{get-assign}
use night.Gts.Compiler.Assignments.{assign_expr-leaves_two}
use night.Gts.Interp.Runs.{HasCode-whole, Reaches, at}
use night.Gts.Evaluator.{is_update, eval_program, eval_stmts, eval_stmt, eval_expr, given}
use night.Gts.Chunk.Pool.{of_key}
use night.Gts.Compiler.Laying.{IsReadOnly}
use night.Gts.Interp.{Machine, Step, raised, interpret, run, step, decoded, execute}
use night.Gts.Compiler.Programs.{program_of, SameResult, compile-SameResult}
use night.Text.{lit, text_eq, Text}
use night.Gts.Opcode.{Opcode, to_byte}
use night.Gts.Ast.{
  Expr, ternary, infix_expr, ident, number_lit, prefix, assign_expr, Ident, string_lit,
}
use night.Gts.Environment.{Env, find_binding, assign, get}
use night.Gts.Value.{Floats, Heap, Fault, find_text}
use night.Gts.Chunk.{
  key_undefined, key_null, key_string, string, null, undefined, write_u32, Position, Chunk, boolean,
  number, empty_chunk, from_object, emit_string_operand, is_nan, add_constant, canonical, add_keyed,
  find_key, key_eq, Object, write_op, write_u16, emit_value_constant, emit_const,
  emit_jump_placeholder, number_bits, patch_jump_to, patch_jump_here, hash,
}
use night.Prelude.{
  map, err, ◌+◌, false, none, ◌∷◌, [], Result, ℕ, ◌≡◌, refl, some, arith, ok, true, List,
}
use night.Gts.Compiler.{
  compile, Compiled, done, compile_stmts, compile_stmt, compile_expr, emit_check, finish_prefix,
  binary_opcode, panicked,
}

abbrev here : Position
here = record { file = []; line = 1; col = 1; offset = 0 }

-- Sums of bits stand in for the arithmetic; any functions do.
abbrev floats : Floats
floats = record {
  apply = λ op a b. a + b;
  neg = λ a. a;
  bit_not = λ a. a;
  of_i64 = λ a. a;
  partial_cmp = λ a b. none;
}

abbrev heap : Heap
heap = record { eval_in = λ a b. err []; eval_instanceof = λ a b. boolean false }

abbrev others : Chunk → Opcode → Machine → Step
others c op m = raised here []

-- The built-in objects, any objects here.
abbrev standard : Text → Object
standard name = hash 0

abbrev top : Env
top = record {
  scopes = (((lit "x"), record { value = number 5; is_const = false }) ∷ []) ∷ [];
  globals = [];
}

-- `x ?? 1 ? !x || 2 : 3`
abbrev choice : Expr
choice =
    ternary here
      (infix_expr here (lit "??") (ident (record { pos = here; name = lit "x" }))
        (number_lit here 1))
      (infix_expr here (lit "||")
        (prefix here (lit "!") (ident (record { pos = here; name = lit "x" }))) (number_lit here 2))
      (number_lit here 3)

abbrev code_of : Compiled → Chunk
code_of (done c) = c
code_of _ = empty_chunk

abbrev choice_chunk : Chunk
choice_chunk = record {
  code =
      46 ∷ 0 ∷ 0 ∷ 2 ∷ 0 ∷ 0 ∷ 1 ∷ 20 ∷ 52 ∷ 0 ∷ 0 ∷ 0 ∷ 28 ∷ 2 ∷ 0 ∷ 0 ∷ 2 ∷ 20 ∷ 52 ∷ 0 ∷ 0 ∷ 0
      ∷ 28 ∷ 50 ∷ 0 ∷ 0 ∷ 0 ∷ 32 ∷ 1 ∷ 0 ∷ 0 ∷ 3 ∷ 51 ∷ 0 ∷ 0 ∷ 0 ∷ 61 ∷ 46 ∷ 0 ∷ 0 ∷ 32 ∷ 2 ∷ 51
      ∷ 0 ∷ 0 ∷ 0 ∷ 52 ∷ 50 ∷ 0 ∷ 0 ∷ 0 ∷ 56 ∷ 1 ∷ 0 ∷ 0 ∷ 4 ∷ 50 ∷ 0 ∷ 0 ∷ 0 ∷ 64 ∷ 0 ∷ 0 ∷ 5 ∷ 62
      ∷ [];
  constants = string (lit "x") ∷ null ∷ undefined ∷ number 1 ∷ number 2 ∷ number 3 ∷ [];
  const_index =
      (number_bits 3, 5)
      ∷ (number_bits 2, 4)
      ∷ (number_bits 1, 3)
      ∷ (key_undefined, 2)
      ∷ (key_null, 1)
      ∷ (key_string (lit "x"), 0)
      ∷ [];
  lines =
      map (λ n. record { ip = n; pos = here })
        (0 ∷ 3 ∷ 4 ∷ 7 ∷ 8 ∷ 13 ∷ 14 ∷ 17 ∷ 18 ∷ 23 ∷ 28 ∷ 29 ∷ 32 ∷ 37 ∷ 40 ∷ 41 ∷ 42 ∷ 47 ∷ 52
          ∷ 53 ∷ 56 ∷ 61 ∷ 64 ∷ []);
}

choice_compiles : compile (program_of here choice) ≡ done choice_chunk
unfolding compile compile_stmts compile_stmt compile_expr emit_string_operand add_constant add_keyed
    from_object find_key key_eq text_eq write_op write_u16 emit_value_constant emit_const emit_check
    emit_jump_placeholder write_u32 patch_jump_to patch_jump_here finish_prefix find_text is_nan
    canonical to_byte
choice_compiles = refl

compile-SameResult_example :
    (fuel : ℕ) × (r : Result Object Fault) × ((extra : ℕ)
      → interpret choice_chunk floats heap others standard (fuel + extra) top ≡ some r)
    × SameResult r (eval_program floats heap (program_of here choice) (with_globals standard top)).1
unfolding IsReadOnly from_object of_key is_nan canonical text_eq
compile-SameResult_example =
    compile-SameResult floats heap others here choice choice_chunk standard top
      (
        (tt, (number_bits 1, refl, refl)),
        (((refl, tt), (number_bits 2, refl, refl)), (number_bits 3, refl, refl)),
      )
      choice_compiles (omega arith, omega arith)

-- `Math` is an object for both, though it is not a global before.
abbrev math : Expr
math = ident (record { pos = here; name = lit "Math" })

math_run :
    (interpret (code_of (compile (program_of here math))) floats heap others standard 20 top
      ≡ some (ok (hash 0)))
    × (eval_program floats heap (program_of here math) (with_globals standard top)).1
      ≡ some (ok (hash 0))
    × (with_globals standard (with_globals standard top) ≡ with_globals standard top)
unfolding interpret run step decoded execute compile compile_stmts compile_stmt compile_expr
    emit_string_operand add_constant add_keyed from_object find_key key_eq text_eq write_op
    write_u16 emit_value_constant emit_const emit_check emit_jump_placeholder write_u32
    patch_jump_to patch_jump_here finish_prefix find_text is_nan canonical to_byte
    night.Gts.Compiler.finish_infix night.Gts.Compiler.binary_opcode night.Gts.Opcode.from_byte
    night.Gts.Interp.find_operator night.Gts.Interp.plain night.Gts.Interp.push_const
    night.Gts.Interp.read_u16_operand night.Gts.Chunk.read_u16
    night.Gts.Interp.assign_name_from_operand night.Gts.Interp.read_string_operand
    night.Gts.Interp.read_string_const night.Gts.Environment.find_binding night.Gts.Interp.bin_op
    night.Gts.Value.apply_binary_op night.Gts.Value.apply_arm night.Gts.Value.eval_add with_globals
    night.Gts.Globals.register_globals night.Gts.Globals.set_globals night.Gts.Globals.set_global
    eval_program eval_stmts eval_stmt eval_expr night.Gts.Evaluator.eval_ident
    night.Gts.Environment.get night.Gts.Interp.load_name_from_operand night.Gts.Globals.has_global
math_run = (refl, refl, refl)

-- A literal with a backslash before a character of two bytes.
abbrev panicking : Expr
panicking = string_lit here (lit "\"\\é\"")

panicking_run :
    (compile (program_of here panicking) ≡ panicked)
    × (eval_program floats heap (program_of here panicking) top).1 ≡ none
unfolding compile compile_stmts compile_stmt compile_expr night.Gts.StringLit.eval_string_lit
    night.Text.len night.Text.len_utf8 night.Gts.StringLit.inner night.Gts.StringLit.unescape
    night.Gts.StringLit.unescape_one night.Gts.StringLit.escaped eval_program eval_stmts eval_stmt
    eval_expr
panicking_run = (refl, refl)

-- `1 + (x = 2)`: the assignment leaves its value twice on the stack, so the sum adds the copies.
abbrev sum : Expr
sum =
    infix_expr here (lit "+") (number_lit here 1)
      (assign_expr here (lit "=") (record { pos = here; name = lit "x" }) (number_lit here 2))

sum_walked : (eval_program floats heap (program_of here sum) top).1 ≡ some (ok (number 3))
unfolding eval_program eval_stmts eval_stmt eval_expr text_eq night.Gts.Evaluator.finish_assign
    night.Gts.Evaluator.write_name night.Gts.Environment.assign night.Gts.Environment.assign_scopes
    find_text night.Gts.Value.apply_binary_op night.Gts.Value.apply_arm night.Gts.Value.eval_add
sum_walked = refl

sum_run :
    interpret (code_of (compile (program_of here sum))) floats heap others standard 20 top
    ≡ some (ok (number 4))
unfolding interpret run step decoded execute compile compile_stmts compile_stmt compile_expr
    emit_string_operand add_constant add_keyed from_object find_key key_eq text_eq write_op
    write_u16 emit_value_constant emit_const emit_check emit_jump_placeholder write_u32
    patch_jump_to patch_jump_here finish_prefix find_text is_nan canonical to_byte
    night.Gts.Compiler.finish_infix night.Gts.Compiler.binary_opcode night.Gts.Opcode.from_byte
    night.Gts.Interp.find_operator night.Gts.Interp.plain night.Gts.Interp.push_const
    night.Gts.Interp.read_u16_operand night.Gts.Chunk.read_u16
    night.Gts.Interp.assign_name_from_operand night.Gts.Interp.read_string_operand
    night.Gts.Interp.read_string_const night.Gts.Environment.find_binding night.Gts.Interp.bin_op
    night.Gts.Value.apply_binary_op night.Gts.Value.apply_arm night.Gts.Value.eval_add with_globals
    night.Gts.Globals.register_globals night.Gts.Globals.set_globals night.Gts.Globals.set_global
    night.Gts.Globals.has_global
sum_run = refl

abbrev name_x : Ident
name_x = record { pos = here; name = lit "x" }

abbrev assign_chunk : Chunk
assign_chunk = record {
  code =
      to_byte Opcode.const ∷ 0 ∷ 0 ∷ to_byte Opcode.dup ∷ to_byte Opcode.assign_name ∷ 0 ∷ 1 ∷ [];
  constants = number 2 ∷ string (lit "x") ∷ [];
  const_index = (key_string (lit "x"), 1) ∷ (number_bits 2, 0) ∷ [];
  lines = map (λ n. record { ip = n; pos = here }) (0 ∷ 3 ∷ 4 ∷ []);
}

assign_compiles :
    compile_expr (assign_expr here (lit "=") name_x (number_lit here 2)) empty_chunk
    ≡ done assign_chunk
unfolding compile compile_stmts compile_stmt compile_expr emit_string_operand add_constant add_keyed
    from_object find_key key_eq text_eq write_op write_u16 emit_value_constant emit_const emit_check
    emit_jump_placeholder write_u32 patch_jump_to patch_jump_here finish_prefix find_text is_nan
    canonical to_byte
assign_compiles = refl

assign_expr-leaves_two_example :
    (eval_expr floats heap (assign_expr here (lit "=") name_x (number_lit here 2)) top
      ≡ given (assign (lit "x") (number 2) top).0 (ok (number 2)))
    × ((stack : List Object)
        → Reaches assign_chunk floats heap others (at assign_chunk floats heap others 0 stack top) (
            at assign_chunk floats heap others 7
              (number 2 ∷ number 2 ∷ stack)
              (assign (lit "x") (number 2) top).0))
unfolding IsReadOnly from_object of_key is_nan canonical eval_expr find_binding find_text text_eq
assign_expr-leaves_two_example =
    assign_expr-leaves_two assign_chunk floats heap others here name_x (number_lit here 2)
      empty_chunk assign_chunk top (number 2) (record { value = number 5; is_const = false })
      (number_bits 2, refl, refl) tt assign_compiles (omega arith, omega arith)
      (HasCode-whole [] assign_chunk.code) (λ i w h. h) refl refl refl

get-assign_example :
    ((assign (lit "x") (number 7) top).1 ≡ true)
    × ((assign (lit "x") (number 7) top).2 ≡ false)
    × (get (assign (lit "x") (number 7) top).0 (lit "x") ≡ some (number 7))
    × ((key : Text)
        → text_eq (lit "x") key ≡ false
        → get (assign (lit "x") (number 7) top).0 key ≡ get top key)
unfolding find_binding find_text text_eq
get-assign_example =
    get-assign top (lit "x") (number 7) (record { value = number 5; is_const = false }) refl refl

-- A sum of it and a string with an escape.
abbrev spoken : Expr
spoken = infix_expr here (lit "+") choice (string_lit here (lit "'a\\n'"))

compile_expr-total_example : Grows empty_chunk (compile_expr spoken empty_chunk)
unfolding IsSupported text_eq find_text binary_opcode night.Gts.StringLit.eval_string_lit
    night.Text.len night.Text.len_utf8 night.Gts.StringLit.inner night.Gts.StringLit.unescape
    night.Gts.StringLit.unescape_one night.Gts.StringLit.escaped
compile_expr-total_example =
    compile_expr-total spoken empty_chunk
      (refl, (((refl, (tt, tt)), ((refl, ((refl, (refl, tt)), tt)), tt)), refl))
