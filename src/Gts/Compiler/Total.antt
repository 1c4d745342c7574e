-- ===== src/Gts/Compiler/Total.antt =====
-- crates/night24-gts/src/bytecode/compiler_expr.rs and its parts: the compiler on the expressions that it
-- supports.
use night.Gts.StringLit.{eval_string_lit}
use night.Gts.Compiler.Growth.{
  Grows, length-emit_op, emitted, patched-Grows, length-operand, later, slot-le, bind-Grows,
}
use night.Gts.Compiler.Nullish.{tested, both_checks, second_test, second_slot, first_slot}
use night.Gts.Compiler.Correct.{not_update}
use night.Gts.Compiler.Layout.{is_lazy}
use night.Gts.Value.{find_text}
use night.Gts.Compiler.Conditionals.{slot}
use night.Gts.Compiler.Emission.{operand}
use night.Gts.Compiler.Jumps.{placed, length-placed}
use night.Text.{text_eq, lit, Text}
use night.Gts.Evaluator.{is_update}
use night.Gts.Opcode.{Opcode}
use night.Gts.Compiler.{
  Compiled, ◌>>!◌, patched, emit_op, unary_table, binary_opcode, finish_prefix, compile_expr,
  finish_infix, emit_check,
}
use night.Gts.Ast.{
  Expr, prefix, postfix_expr, infix_expr, ternary, assign_expr, number_lit, bool_lit, null_lit,
  undefined_lit, string_lit, ident,
}
use night.Prelude.{
  is_some, Option-cases, length, ℕ, ◌+◌, ◌≤◌, ◌≡◌, inl, inr, true, false, ◌||◌, arith, Bool-cases,
  Bool,
}
use night.Gts.Chunk.{
  string, Chunk, patch_jump_to, Object, Position, emit_value_constant, emit_const,
  emit_string_operand, boolean, patch_jump_here, undefined, number, null, as_u32,
}

-- The operators that the compiler knows, in an expression that assigns nothing and in which the escapes of
-- every string literal can be read.
unfoldable pub IsSupported : Expr → Type 0
IsSupported (prefix pos op right) =
    (is_update op ≡ false)
    × (((text_eq op (lit "delete") || text_eq op (lit "void") || is_some (find_text op unary_table))
          ≡ true)
        × IsSupported right)
IsSupported (postfix_expr pos op left) = ⊥
IsSupported (infix_expr pos op left right) =
    ((is_lazy op || is_some (binary_opcode op)) ≡ true) × (IsSupported left × IsSupported right)
IsSupported (ternary pos cond consequent alternate) =
    IsSupported cond × (IsSupported consequent × IsSupported alternate)
IsSupported (assign_expr pos op i right) = ⊥
IsSupported (string_lit pos literal) = is_some (eval_string_lit literal) ≡ true
IsSupported _ = Unit

impossible : ◌≡◌ {A = Bool} false true → ⊥
impossible h = cc

finish_prefix-Grows :
    (pos : Position) (op : Text) (c : Chunk)
    → (text_eq op (lit "delete") || text_eq op (lit "void") || is_some (find_text op unary_table))
      ≡ true
    → Grows c (finish_prefix pos op c)
unfolding finish_prefix emit_value_constant emit_const
finish_prefix-Grows pos op c h =
    let popped : Chunk = emit_op c Opcode.pop pos in
    elim (Bool-cases (text_eq op (lit "delete"))) [
      | inl t ↦
          rw (t, finish_prefix)
            (emitted c _ (
              omega (
                arith,
                length-operand popped Opcode.const (boolean true) pos,
                length-emit_op c Opcode.pop pos,
              )))
      | inr f ↦ elim (Bool-cases (text_eq op (lit "void"))) [
        | inl t ↦
            rw (f, t, finish_prefix)
              (emitted c _ (
                omega (
                  arith,
                  length-operand popped Opcode.const undefined pos,
                  length-emit_op c Opcode.pop pos,
                )))
        | inr g ↦ elim (Option-cases (find_text op unary_table)) [
          | inl n ↦ absurd (impossible (rw (f, g, n) at h))
          | inr (oc, found) ↦
              rw (f, g, found, finish_prefix) (emitted c _ (omega (arith, length-emit_op c oc pos)))
        ]
      ]
    ]

-- The jump of a placeholder can be patched in any longer code.
placed-Grows :
    (c d : Chunk) (op : Opcode) (pos : Position) (v : ℕ)
    → length (placed c op pos).code ≤ length d.code
    → Grows d (patched (patch_jump_to d (slot c op pos) v))
placed-Grows c d op pos v le =
    patched-Grows d (slot c op pos) v (omega (arith, slot-le c op pos, length-placed c op pos))

finish_infix-Grows :
    (pos : Position) (op : Text) (c : Chunk)
    → is_some (binary_opcode op) ≡ true
    → Grows c (finish_infix pos op c)
unfolding finish_infix
finish_infix-Grows pos op c h = elim (Option-cases (binary_opcode op)) [
  | inl n ↦ absurd (impossible (rw n at h))
  | inr (oc, found) ↦
      rw (found, finish_infix) (emitted c _ (omega (arith, length-emit_op c oc pos)))
]

length-tested :
    (c : Chunk) (v : Object) (pos : Position) → length (tested c v pos).code ≡ length c.code + 5
unfolding emit_value_constant emit_const
length-tested c v pos = omega (
  arith,
  length-emit_op c Opcode.dup pos,
  length-operand (emit_op c Opcode.dup pos) Opcode.const v pos,
  length-emit_op (operand (emit_op c Opcode.dup pos) Opcode.const v pos) Opcode.eq pos,
)

-- What `compile_nullish_coalescing` does behind the left operand.
abbrev coalesced : Position → Expr → Chunk → Compiled
coalesced pos y c =
    let a : Chunk = tested c null pos in
    let last : Chunk = both_checks a pos in
    let v : ℕ = as_u32 (length last.code) in
    patched (patch_jump_to last (slot a Opcode.jump_if_true pos) v) >>! λ c₅.
    patched (patch_jump_to c₅ (slot (second_test a pos) Opcode.jump_if_true pos) v) >>! λ c₆.
    compile_expr y (emit_op c₆ Opcode.pop pos) >>! λ d.
    patched (patch_jump_here d (slot (second_slot a pos) Opcode.jump pos))

nullish-Grows :
    (pos : Position) (y : Expr) (c : Chunk)
    → ((d : Chunk) → Grows d (compile_expr y d))
    → Grows c (coalesced pos y c)
unfolding patch_jump_here
nullish-Grows pos y c h =
    let a : Chunk = tested c null pos in
    let b : Chunk = second_test a pos in
    let s : Chunk = second_slot a pos in
    let last : Chunk = both_checks a pos in
    let one : length a.code + 5 ≤ length b.code = omega (
      arith,
      length-placed a Opcode.jump_if_true pos,
      length-tested (first_slot a pos) undefined pos,
    ) in
    let two : length b.code + 5 ≤ length s.code =
      omega (arith, length-placed b Opcode.jump_if_true pos) in
    let three : length s.code + 5 ≤ length last.code =
      omega (arith, length-placed s Opcode.jump pos) in
    later c last _ (omega (arith, one, two, three, length-tested c null pos)) (
      bind-Grows last _ _
        (placed-Grows a last Opcode.jump_if_true pos _ (
          omega (
            arith,
            two,
            three,
            length-placed a Opcode.jump_if_true pos,
            length-tested (first_slot a pos) undefined pos,
          )))
        (λ c₅ l₅. later last c₅ _ l₅ (
          bind-Grows c₅ _ _ (placed-Grows b c₅ Opcode.jump_if_true pos _ (omega (arith, three, l₅)))
            (λ c₆ l₆.
              let popped : Chunk = emit_op c₆ Opcode.pop pos in
              later c₅ popped _ (omega (arith, l₆, length-emit_op c₆ Opcode.pop pos)) (
                bind-Grows popped _ _ (h popped) (λ d l₇. later popped d _ l₇ (
                  placed-Grows s d Opcode.jump pos _
                    (omega (arith, l₅, l₆, l₇, length-emit_op c₆ Opcode.pop pos)))))))))

-- An expression that uses the supported operators, assigns nothing and has only string literals whose
-- escapes can be read is compiled, with no error and no panic, and the code does not get shorter.
pub compile_expr-total : (e : Expr) (c : Chunk) → IsSupported e → Grows c (compile_expr e c)
unfolding compile_expr IsSupported emit_value_constant emit_const emit_string_operand
    patch_jump_here finish_infix emit_check
compile_expr-total (number_lit pos n) c h =
    emitted c _ (omega (arith, length-operand c Opcode.const (number n) pos))
compile_expr-total (bool_lit pos b) c h =
    emitted c _ (omega (arith, length-operand c Opcode.const (boolean b) pos))
compile_expr-total (null_lit pos) c h =
    emitted c _ (omega (arith, length-operand c Opcode.const null pos))
compile_expr-total (undefined_lit pos) c h =
    emitted c _ (omega (arith, length-operand c Opcode.const undefined pos))
compile_expr-total (string_lit pos literal) c h = elim (Option-cases (eval_string_lit literal)) [
  | inl n ↦ absurd (impossible (rw n at h))
  | inr (text, read) ↦
      rw (read, compile_expr)
        (emitted c _ (omega (arith, length-operand c Opcode.const (string text) pos)))
]
compile_expr-total (ident i) c h =
    emitted c _ (omega (arith, length-operand c Opcode.load_name (string i.name) i.pos))
compile_expr-total (prefix pos op right) c (plain, (known, h)) =
    let (f, g) = not_update op plain in
    rw (f, g, compile_expr)
      (bind-Grows c (compile_expr right c) (finish_prefix pos op) (compile_expr-total right c h)
        (λ d le. later c d _ le (finish_prefix-Grows pos op d known)))
compile_expr-total (postfix_expr pos op left) c h = absurd h
compile_expr-total (assign_expr pos op i right) c h = absurd h
compile_expr-total (ternary pos x y z) c (hx, (hy, hz)) =
    bind-Grows c (compile_expr x c) _ (compile_expr-total x c hx) (λ c₁ l₁. later c c₁ _ l₁ (
      later c₁ (placed c₁ Opcode.jump_if_false pos) _
        (omega (arith, length-placed c₁ Opcode.jump_if_false pos))
        (bind-Grows (placed c₁ Opcode.jump_if_false pos) _ _
          (compile_expr-total y (placed c₁ Opcode.jump_if_false pos) hy)
          (λ d l₂.
            later (placed c₁ Opcode.jump_if_false pos) (placed d Opcode.jump pos) _
              (omega (arith, l₂, length-placed d Opcode.jump pos))
              (bind-Grows (placed d Opcode.jump pos) _ _
                (placed-Grows c₁ (placed d Opcode.jump pos) Opcode.jump_if_false pos _
                  (omega (arith, l₂, length-placed d Opcode.jump pos)))
                (λ c₅ l₃. later (placed d Opcode.jump pos) c₅ _ l₃ (
                  bind-Grows c₅ _ _ (compile_expr-total z c₅ hz) (λ e l₄.
                    later c₅ e _ l₄
                      (placed-Grows d e Opcode.jump pos _ (omega (arith, l₃, l₄)))))))))))
compile_expr-total (infix_expr pos op x y) c (known, (hx, hy)) =
    elim (Bool-cases (text_eq op (lit "&&"))) [
      | inl t ↦
          rw (t, compile_expr)
            (bind-Grows c (compile_expr x c) _ (compile_expr-total x c hx) (λ c₁ l₁.
              let twice : Chunk = emit_op c₁ Opcode.dup pos in
              let waiting : Chunk = placed twice Opcode.jump_if_false pos in
              let popped : Chunk = emit_op waiting Opcode.pop pos in
              let longer : length waiting.code + 1 ≤ length popped.code =
                omega (arith, length-emit_op waiting Opcode.pop pos) in
              later c popped _
                (omega (
                  arith,
                  l₁,
                  longer,
                  length-emit_op c₁ Opcode.dup pos,
                  length-placed twice Opcode.jump_if_false pos,
                ))
                (bind-Grows popped _ _ (compile_expr-total y popped hy) (λ d l₂.
                  later popped d _ l₂ (
                    placed-Grows twice d Opcode.jump_if_false pos _ (omega (arith, longer, l₂)))))))
      | inr n₁ ↦ elim (Bool-cases (text_eq op (lit "||"))) [
        | inl t ↦
            rw (n₁, t, compile_expr)
              (bind-Grows c (compile_expr x c) _ (compile_expr-total x c hx) (λ c₁ l₁.
                let twice : Chunk = emit_op c₁ Opcode.dup pos in
                let waiting : Chunk = placed twice Opcode.jump_if_false pos in
                let both : Chunk = placed waiting Opcode.jump pos in
                let longer : length waiting.code + 5 ≤ length both.code =
                  omega (arith, length-placed waiting Opcode.jump pos) in
                later c both _
                  (omega (
                    arith,
                    l₁,
                    longer,
                    length-emit_op c₁ Opcode.dup pos,
                    length-placed twice Opcode.jump_if_false pos,
                  ))
                  (bind-Grows both _ _
                    (placed-Grows twice both Opcode.jump_if_false pos _ (omega (arith, longer)))
                    (λ c₄ l₂.
                      let popped : Chunk = emit_op c₄ Opcode.pop pos in
                      later both popped _ (omega (arith, l₂, length-emit_op c₄ Opcode.pop pos)) (
                        bind-Grows popped _ _ (compile_expr-total y popped hy) (λ d l₃.
                          later popped d _ l₃ (
                            placed-Grows waiting d Opcode.jump pos _
                              (omega (arith, l₂, l₃, length-emit_op c₄ Opcode.pop pos)))))))))
        | inr n₂ ↦ elim (Bool-cases (text_eq op (lit "??"))) [
          | inl t ↦
              rw (n₁, n₂, t, compile_expr)
                (bind-Grows c (compile_expr x c) _ (compile_expr-total x c hx) (λ c₁ l₁.
                  later c c₁ _ l₁ (nullish-Grows pos y c₁ (λ d. compile_expr-total y d hy))))
          | inr n₃ ↦
              rw (n₁, n₂, n₃, compile_expr)
                (bind-Grows c (compile_expr x c) _ (compile_expr-total x c hx) (λ c₁ l₁.
                  later c c₁ _ l₁ (
                    bind-Grows c₁ _ (finish_infix pos op) (compile_expr-total y c₁ hy) (λ d l₂.
                      later c₁ d _ l₂ (finish_infix-Grows pos op d (rw (n₁, n₂, n₃) at known))))))
        ]
      ]
    ]
