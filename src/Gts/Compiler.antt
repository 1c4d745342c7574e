-- ===== src/Gts/Compiler.antt =====
-- crates/night24-gts/src/bytecode: compiler.rs, compiler_expr.rs, compiler_literals.rs,
-- compiler_operators.rs, compiler_conditionals.rs, compiler_assign.rs, compiler_declarations.rs and
-- compiler_stmt.rs, on the same part of the language as the evaluator.
pub mod Tables
pub mod Layout
pub mod Agreement
pub mod Branches
pub mod Running
pub mod Emission
pub mod Laying
pub mod Jumps
pub mod Conditionals
pub mod Nullish
pub mod Correct
pub mod Programs
pub mod Assignments
pub mod Growth
pub mod Total
use night.Gts.StringLit.{eval_string_lit}
use night.Gts.Evaluator.{one_bits}
use night.Gts.Ast.{
  Expr, Stmt, Program, ident, Ident, number_lit, expr_stmt, bool_lit, declare, null_lit,
  undefined_lit, string_lit, prefix, postfix_expr, infix_expr, ternary, assign_expr,
}
use night.Text.{Text, lit, text_eq}
use night.Prelude.{
  ltb, if◌then◌else◌, length, take, ℕ, ◌+◌, ◌-◌, Bool, true, false, ◌&&◌, Option, none, some, List,
  ◌∷◌, ◌++◌, [], is_nil, not, ◌*◌, ◌/◌, ◌%◌, ◌^◌, ◌<◌, ◌||◌,
}
use night.Gts.Chunk.{
  Chunk, Position, Object, write_op, emit_value_constant, emit_string_operand,
  emit_jump_placeholder, patch_jump_here, patch_jump_to, add_constant, write_u16, as_u32, boolean,
  undefined, null, number, string, empty_chunk,
}
use night.Gts.Value.{Fault, find_text}
use night.Gts.Opcode.{Opcode}

-- A chunk, a compile error, or a panic.
pub data Compiled : Type 0 where
  done : Chunk → Compiled
  failed : Fault → Compiled
  panicked : Compiled

infixl 5 ◌>>!◌
abbrev pub ◌>>!◌ : Compiled → (Chunk → Compiled) → Compiled
done c >>! f = f c
failed e >>! f = failed e
panicked >>! f = panicked

abbrev pub patched : Option Chunk → Compiled
patched (some c) = done c
patched none = panicked

abbrev pub unsupported : Position → Text → Compiled
unsupported pos what =
    failed (record {
      pos = pos;
      message = lit "CompileError: bytecode VM does not yet support " ++ what;
    })

-- The arms of `binary_opcode`.
abbrev pub binary_table : List (Text × Opcode)
binary_table =
    (lit "+", Opcode.add)
    ∷ (lit "-", Opcode.sub)
    ∷ (lit "*", Opcode.mul)
    ∷ (lit "/", Opcode.div)
    ∷ (lit "%", Opcode.mod_op)
    ∷ (lit "**", Opcode.pow)
    ∷ (lit "&", Opcode.bit_and)
    ∷ (lit "|", Opcode.bit_or)
    ∷ (lit "^", Opcode.bit_xor)
    ∷ (lit "<<", Opcode.shl)
    ∷ (lit ">>", Opcode.shr)
    ∷ (lit ">>>", Opcode.ushr)
    ∷ (lit "===", Opcode.eq)
    ∷ (lit "!==", Opcode.neq)
    ∷ (lit "<", Opcode.lt)
    ∷ (lit "<=", Opcode.le)
    ∷ (lit ">", Opcode.gt)
    ∷ (lit ">=", Opcode.ge)
    ∷ (lit "instanceof", Opcode.instance_of)
    ∷ (lit "in", Opcode.in_op)
    ∷ []

unfoldable pub binary_opcode : Text → Option Opcode
binary_opcode op = find_text op binary_table

-- The opcodes of the prefix operators.
abbrev pub unary_table : List (Text × Opcode)
unary_table =
    (lit "!", Opcode.not)
    ∷ (lit "-", Opcode.neg)
    ∷ (lit "~", Opcode.bit_not)
    ∷ (lit "typeof", Opcode.type_of)
    ∷ (lit "+", Opcode.identity)
    ∷ []

abbrev pub emit_op : Chunk → Opcode → Position → Chunk
emit_op c op pos = (write_op c op pos).0

-- `compile_update_operator`; members and indices are not in this part of the language.
unfoldable pub compile_update_operator : Expr → Bool → Opcode → Position → Chunk → Compiled
compile_update_operator (ident i) is_prefix delta_op pos c =
    let c₁ = emit_string_operand c Opcode.load_name i.name pos in
    let c₂ = if is_prefix then c₁ else emit_op c₁ Opcode.dup pos in
    let c₃ = emit_op (emit_value_constant c₂ (number one_bits) pos) delta_op pos in
    let c₄ = emit_string_operand c₃ Opcode.assign_name i.name pos in
    done (if is_prefix then c₄ else emit_op c₄ Opcode.pop pos)
compile_update_operator _ is_prefix delta_op pos c = unsupported pos (lit "update operator target")

-- The end of `compile_prefix_expr`, behind the operand.
unfoldable pub finish_prefix : Position → Text → Chunk → Compiled
finish_prefix pos op c =
    if text_eq op (lit "delete")
    then done (emit_value_constant (emit_op c Opcode.pop pos) (boolean true) pos)
    else if text_eq op (lit "void")
    then done (emit_value_constant (emit_op c Opcode.pop pos) undefined pos)
    else elim (find_text op unary_table) [
      | some oc ↦ done (emit_op c oc pos)
      | none ↦ unsupported pos (lit "prefix operator `" ++ (op ++ lit "`"))
    ]

-- One of the two checks of `emit_nullish_jump_checks`, and the address to patch.
unfoldable pub emit_check : Chunk → Object → Position → Chunk × ℕ
emit_check c value pos =
    let c₁ = emit_value_constant (emit_op c Opcode.dup pos) value pos in
    emit_jump_placeholder (emit_op c₁ Opcode.eq pos) Opcode.jump_if_true pos

unfoldable pub finish_infix : Position → Text → Chunk → Compiled
finish_infix pos op c = elim (binary_opcode op) [
  | some oc ↦ done (emit_op c oc pos)
  | none ↦ unsupported pos (lit "infix operator `" ++ (op ++ lit "`"))
]

-- `compound_assignment_opcode` strips the last character of the operator.
unfoldable pub finish_compound : Position → Text → Ident → Chunk → Compiled
finish_compound pos op i c = elim (binary_opcode (take (length op - 1) op)) [
  | none ↦ unsupported pos (lit "compound assignment `" ++ (op ++ lit "`"))
  | some oc ↦ done (
      emit_string_operand (emit_op (emit_op c oc pos) Opcode.dup pos) Opcode.assign_name i.name pos)
]

-- `compile_string_literal`, with what `eval_string_lit` gives.
abbrev pub compile_string : Position → Option Text → Chunk → Compiled
compile_string pos none c = panicked
compile_string pos (some text) c = done (emit_value_constant c (string text) pos)

unfoldable pub compile_expr : Expr → Chunk → Compiled
compile_expr (number_lit pos n) c = done (emit_value_constant c (number n) pos)
compile_expr (bool_lit pos b) c = done (emit_value_constant c (boolean b) pos)
compile_expr (null_lit pos) c = done (emit_value_constant c null pos)
compile_expr (undefined_lit pos) c = done (emit_value_constant c undefined pos)
compile_expr (string_lit pos literal) c = compile_string pos (eval_string_lit literal) c
compile_expr (ident i) c = done (emit_string_operand c Opcode.load_name i.name i.pos)
compile_expr (prefix pos op right) c =
    let operand = compile_expr right c in
    if text_eq op (lit "++")
    then compile_update_operator right true Opcode.add pos c
    else if text_eq op (lit "--")
    then compile_update_operator right true Opcode.sub pos c
    else (operand >>! finish_prefix pos op)
compile_expr (postfix_expr pos op left) c =
    if text_eq op (lit "++")
    then compile_update_operator left false Opcode.add pos c
    else if text_eq op (lit "--")
    then compile_update_operator left false Opcode.sub pos c
    else unsupported pos (lit "postfix update operator (++/--)")
compile_expr (infix_expr pos op left right) c = compile_expr left c >>! λ c₁.
    let both = compile_expr right c₁ in
    -- `compile_and`
    let conjunction =
      (let (c₂, to_end) =
          emit_jump_placeholder (emit_op c₁ Opcode.dup pos) Opcode.jump_if_false pos in
        compile_expr right (emit_op c₂ Opcode.pop pos) >>! λ c₃.
        patched (patch_jump_here c₃ to_end)) in
    -- `compile_or`
    let disjunction =
      (let (c₂, to_right) =
          emit_jump_placeholder (emit_op c₁ Opcode.dup pos) Opcode.jump_if_false pos in
        let (c₃, to_end) = emit_jump_placeholder c₂ Opcode.jump pos in
        patched (patch_jump_here c₃ to_right) >>! λ c₄.
        compile_expr right (emit_op c₄ Opcode.pop pos) >>! λ c₅.
        patched (patch_jump_here c₅ to_end)) in
    -- `compile_nullish_coalescing`
    let coalescing =
      (let (c₂, null_jump) = emit_check c₁ null pos in
        let (c₃, undefined_jump) = emit_check c₂ undefined pos in
        let (c₄, to_end) = emit_jump_placeholder c₃ Opcode.jump pos in
        let nullish_ip = as_u32 (length c₄.code) in
        patched (patch_jump_to c₄ null_jump nullish_ip) >>! λ c₅.
        patched (patch_jump_to c₅ undefined_jump nullish_ip) >>! λ c₆.
        compile_expr right (emit_op c₆ Opcode.pop pos) >>! λ c₇.
        patched (patch_jump_here c₇ to_end)) in
    if text_eq op (lit "&&")
    then conjunction
    else if text_eq op (lit "||")
    then disjunction
    else if text_eq op (lit "??")
    then coalescing
    else (both >>! finish_infix pos op)
compile_expr (ternary pos cond consequent alternate) c = compile_expr cond c >>! λ c₁.
    let (c₂, to_alternate) = emit_jump_placeholder c₁ Opcode.jump_if_false pos in
    compile_expr consequent c₂ >>! λ c₃.
    let (c₄, to_end) = emit_jump_placeholder c₃ Opcode.jump pos in
    patched (patch_jump_here c₄ to_alternate) >>! λ c₅.
    compile_expr alternate c₅ >>! λ c₆. patched (patch_jump_here c₆ to_end)
compile_expr (assign_expr pos op i right) c =
    let simple = compile_expr right c in
    let compound = compile_expr right (emit_string_operand c Opcode.load_name i.name pos) in
    if text_eq op (lit "=")
    then (simple >>! λ c₁.
        done (emit_string_operand (emit_op c₁ Opcode.dup pos) Opcode.assign_name i.name pos))
    else (compound >>! finish_compound pos op i)

-- `decl_name_operand`
abbrev pub decl_operand : ℕ → Bool → ℕ
decl_operand idx is_const = if is_const && ltb idx 0x8000 then idx + 0x8000 else idx

-- The end of `compile_decl`, behind the initializer.
unfoldable pub store_decl : Position → Bool → Text → Chunk → Chunk
store_decl pos is_const name c =
    let (c₁, idx) = add_constant c (string name) in
    write_u16 (emit_op c₁ Opcode.store_name pos) (decl_operand idx is_const)

unfoldable pub compile_stmt : Stmt → Bool → Chunk → Compiled
compile_stmt (expr_stmt pos e) keep_value c =
    compile_expr e c >>! λ c₁. done (if keep_value then c₁ else emit_op c₁ Opcode.pop pos)
compile_stmt (declare pos is_const name none) keep_value c =
    done (store_decl pos is_const name (emit_value_constant c undefined pos))
compile_stmt (declare pos is_const name (some e)) keep_value c =
    compile_expr e c >>! λ c₁. done (store_decl pos is_const name c₁)

-- The loop of `compile`; the last statement keeps its value.
unfoldable pub compile_stmts : List Stmt → Chunk → Compiled
compile_stmts [] c = done c
compile_stmts (stmt ∷ rest) c = compile_stmt stmt (is_nil rest) c >>! λ c₁. compile_stmts rest c₁

unfoldable pub compile : Program → Compiled
compile program =
    compile_stmts program.body empty_chunk >>! λ c. done (emit_op c Opcode.return program.pos)
