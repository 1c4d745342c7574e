-- ===== src/Gts/Compiler/Correct.antt =====
-- crates/night24-gts/src/bytecode/compiler.rs and interp.rs: what the compiler emits for an expression,
-- and a program of one expression that is compiled and run.
use night.Gts.StringLit.{eval_string_lit}
use night.Gts.Compiler.Nullish.{nullish-Lays}
use night.Gts.Opcode.{Opcode}
use night.Gts.Compiler.Jumps.{placed}
use night.Gts.Compiler.Conditionals.{ternary-Lays, and-Lays, or-Lays}
use night.Gts.Compiler.Emission.{Fits}
use night.Gts.Chunk.Pool.{of_key}
use night.Gts.Compiler.Layout.{literal}
use night.Gts.Compiler.Laying.{
  IsReadOnly, Lays, literal-Lays, done-eq, name-Lays, bind-done, prefix-Lays, infix-Lays,
  panicked_done,
}
use night.Gts.Evaluator.{is_update}
use night.Gts.Ast.{
  null_lit, undefined_lit, string_lit, bool_lit, number_lit, ident, prefix, postfix_expr,
  infix_expr, ternary, assign_expr, Expr,
}
use night.Gts.Compiler.{compile_expr, done, finish_prefix, emit_check}
use night.Text.{Text, text_eq, lit, text_eq_iff}
use night.Prelude.{Bool-cases, ◌≡◌, refl, sym, subst, inl, inr, true, false, arith, Option-cases}
use night.Gts.Chunk.{
  Chunk, Position, from_object, number, boolean, key_bool, null, key_null, undefined, key_undefined,
  string, key_string,
}

infix_as :
    (pos : Position) (op key : Text) (x y : Expr) (c c' : Chunk)
    → text_eq op key ≡ true
    → Lays (infix_expr pos key x y) c c'
    → Lays (infix_expr pos op x y) c c'
infix_as pos op key x y c c' same =
    subst (λ t. Lays (infix_expr pos t x y) c c') (sym ((text_eq_iff op key).0 same))

pub not_update :
    (op : Text)
    → is_update op ≡ false
    → (text_eq op (lit "++") ≡ false) × (text_eq op (lit "--") ≡ false)
not_update op h = ground arith

-- The code of an expression that assigns nothing is laid out between the chunk before and the chunk after.
pub compile_expr-Lays :
    (e : Expr) (c c' : Chunk) → IsReadOnly e → compile_expr e c ≡ done c' → Fits c' → Lays e c c'
unfolding compile_expr IsReadOnly literal from_object of_key emit_check
compile_expr-Lays (number_lit pos n) c c' read h fits =
    literal-Lays (number_lit pos n) (number n) pos c c' refl read (done-eq _ _ h) fits
compile_expr-Lays (bool_lit pos b) c c' read h fits =
    literal-Lays (bool_lit pos b) (boolean b) pos c c' refl (key_bool b, refl, refl) (done-eq _ _ h)
      fits
compile_expr-Lays (null_lit pos) c c' read h fits =
    literal-Lays (null_lit pos) null pos c c' refl (key_null, refl, refl) (done-eq _ _ h) fits
compile_expr-Lays (undefined_lit pos) c c' read h fits =
    literal-Lays (undefined_lit pos) undefined pos c c' refl (key_undefined, refl, refl)
      (done-eq _ _ h) fits
compile_expr-Lays (string_lit pos s) c c' read h fits = elim (Option-cases (eval_string_lit s)) [
  | inl e ↦ absurd (panicked_done c' (rw e at h))
  | inr (text, e) ↦
      literal-Lays (string_lit pos s) (string text) pos c c' (rw e refl)
        (key_string text, refl, refl) (done-eq _ _ (rw e at h)) fits
]
compile_expr-Lays (ident i) c c' read h fits = name-Lays i c c' (done-eq _ _ h) fits
compile_expr-Lays (prefix pos op right) c c' (plain, read) h fits =
    let (f, g) = not_update op plain in
    let (d, first, last) =
      bind-done (compile_expr right c) (finish_prefix pos op) c' (rw (f, g) at h) in
    prefix-Lays pos op right c d c' (λ s. compile_expr-Lays right c d read first s) last fits
compile_expr-Lays (postfix_expr pos op left) c c' read h fits = absurd read
compile_expr-Lays (assign_expr pos op i right) c c' read h fits = absurd read
compile_expr-Lays (ternary pos x y z) c c' (ok_x, (ok_y, ok_z)) h fits =
    let (c₁, h₁, k₁) = bind-done (compile_expr x c) _ c' h in
    let (d, h₂, k₂) = bind-done _ _ c' k₁ in
    let (c₅, h₃, k₃) = bind-done _ _ c' k₂ in
    let (e, h₄, k₄) = bind-done _ _ c' k₃ in
    ternary-Lays pos x y z c c₁ d c₅ e c' (λ s. compile_expr-Lays x c c₁ ok_x h₁ s)
      (λ s. compile_expr-Lays y (placed c₁ Opcode.jump_if_false pos) d ok_y h₂ s) h₃
      (λ s. compile_expr-Lays z c₅ e ok_z h₄ s) k₄ fits
compile_expr-Lays (infix_expr pos op x y) c c' (ok_x, ok_y) h fits =
    elim (Bool-cases (text_eq op (lit "&&"))) [
      | inl t ↦
          let (c₁, h₁, k₁) = bind-done (compile_expr x c) _ c' (rw t at h) in
          let (d, h₂, k₂) = bind-done _ _ c' k₁ in
          infix_as pos op (lit "&&") x y c c' t (
            and-Lays pos x y c c₁ d c' (λ s. compile_expr-Lays x c c₁ ok_x h₁ s)
              (λ s. compile_expr-Lays y _ d ok_y h₂ s) k₂ fits)
      | inr n₁ ↦ elim (Bool-cases (text_eq op (lit "||"))) [
        | inl t ↦
            let (c₁, h₁, k₁) = bind-done (compile_expr x c) _ c' (rw (n₁, t) at h) in
            let (c₄, h₂, k₂) = bind-done _ _ c' k₁ in
            let (d, h₃, k₃) = bind-done _ _ c' k₂ in
            infix_as pos op (lit "||") x y c c' t (
              or-Lays pos x y c c₁ c₄ d c' (λ s. compile_expr-Lays x c c₁ ok_x h₁ s) h₂
                (λ s. compile_expr-Lays y _ d ok_y h₃ s) k₃ fits)
        | inr n₂ ↦ elim (Bool-cases (text_eq op (lit "??"))) [
          | inl t ↦
              let (c₁, h₁, k₁) = bind-done (compile_expr x c) _ c' (rw (n₁, n₂, t) at h) in
              let (c₅, h₂, k₂) = bind-done _ _ c' k₁ in
              let (c₆, h₃, k₃) = bind-done _ _ c' k₂ in
              let (d, h₄, k₄) = bind-done _ _ c' k₃ in
              infix_as pos op (lit "??") x y c c' t (
                nullish-Lays pos x y c c₁ c₅ c₆ d c' (λ s. compile_expr-Lays x c c₁ ok_x h₁ s) h₂ h₃
                  (λ s. compile_expr-Lays y _ d ok_y h₄ s) k₄ fits)
          | inr n₃ ↦
              let (c₁, h₁, k₁) = bind-done (compile_expr x c) _ c' (rw (n₁, n₂, n₃) at h) in
              let (e, h₂, k₂) = bind-done _ _ c' k₁ in
              infix-Lays pos op x y c c₁ e c' (λ s. compile_expr-Lays x c c₁ ok_x h₁ s)
                (λ s. compile_expr-Lays y c₁ e ok_y h₂ s) k₂ fits
        ]
      ]
    ]
