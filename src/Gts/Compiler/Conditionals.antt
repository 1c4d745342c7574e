-- ===== src/Gts/Compiler/Conditionals.antt =====
-- crates/night24-gts/src/bytecode/compiler_conditionals.rs and compiler_operators.rs: what the compiler
-- emits for the conditional and for the operators that may skip their right operand.
use night.Text.{lit}
use night.Gts.Compiler.{emit_op, patched, done}
use night.Gts.Compiler.Layout.{Plain, Laid, Jumps, of_and, of_or, of_ternary}
use night.Gts.Compiler.Jumps.{placed, Either, either, placed-Opened, forward}
use night.Gts.Compiler.Laying.{Lays}
use night.Gts.Compiler.Emission.{
  Shape, Fits, Then, Emission, and_then, emit_op-Emission, weaken, nothing, Fits-before,
}
use night.Gts.Ast.{Expr, ternary, infix_expr}
use night.Gts.Opcode.{Opcode}
use night.Prelude.{ℕ, ◌+◌, ◌≡◌, subst, arith}
use night.Gts.Chunk.{Chunk, patch_jump_here, Position, emit_jump_placeholder}

-- The address of the operand of a jump.
abbrev pub slot : Chunk → Opcode → Position → ℕ
slot c op pos = (emit_jump_placeholder c op pos).1

pub ternary-Lays :
    (pos : Position) (x y z : Expr) (c c₁ d c₅ e c' : Chunk)
    → (Fits c₁ → Lays x c c₁)
    → (Fits d → Lays y (placed c₁ Opcode.jump_if_false pos) d)
    → patched (patch_jump_here (placed d Opcode.jump pos) (slot c₁ Opcode.jump_if_false pos))
      ≡ done c₅
    → (Fits e → Lays z c₅ e)
    → patched (patch_jump_here e (slot d Opcode.jump pos)) ≡ done c'
    → Fits c'
    → Lays (ternary pos x y z) c c'
unfolding patch_jump_here
ternary-Lays pos x y z c c₁ d c₅ e c' f g h k l fits =
    let arms : Emission c₁ c'
        (Either Opcode.jump_if_false (λ whole. Laid whole y) (λ whole. Laid whole z)) =
      either c₁ _ Opcode.jump_if_false _ (placed-Opened c₁ Opcode.jump_if_false pos) d _ pos c₅ e c'
        _ g h k l fits in
    weaken c c' _ (λ whole. Laid whole (ternary pos x y z))
      (λ whole p q (m, laid, (n, (jump, first), (skip, second))).
        of_ternary pos x y z p m n q laid jump first skip second)
      (and_then c c₁ c' _ _ (f (Fits-before c₁ c' _ arms fits)) arms)

-- The right operand, in the place of the value of the left one.
abbrev pub Instead : Expr → Shape
Instead e = Then (λ whole p q. (q ≡ p + 1) × Plain whole Opcode.pop p) (λ whole. Laid whole e)

pub instead-Emission :
    (e : Expr) (pos : Position) (c d : Chunk)
    → Lays e (emit_op c Opcode.pop pos) d
    → Emission c d (Instead e)
instead-Emission e pos c d h =
    and_then c (emit_op c Opcode.pop pos) d _ _ (emit_op-Emission c Opcode.pop pos) h

pub shifted : (P : ℕ → Type 0) (a b : ℕ) → a ≡ b → P a → P b
shifted P a b e h = subst P e h

pub and-Lays :
    (pos : Position) (x y : Expr) (c c₁ d c' : Chunk)
    → (Fits c₁ → Lays x c c₁)
    → (Fits d
        → Lays y
            (emit_op (placed (emit_op c₁ Opcode.dup pos) Opcode.jump_if_false pos) Opcode.pop pos)
            d)
    → patched (patch_jump_here d (slot (emit_op c₁ Opcode.dup pos) Opcode.jump_if_false pos))
      ≡ done c'
    → Fits c'
    → Lays (infix_expr pos (lit "&&") x y) c c'
unfolding patch_jump_here
and-Lays pos x y c c₁ d c' f g h fits =
    let twice : Chunk = emit_op c₁ Opcode.dup pos in
    let skip : Emission twice c'
        (λ whole p q. Jumps whole Opcode.jump_if_false p q × Instead y whole (p + 5) q) =
      forward twice _ Opcode.jump_if_false _ (placed-Opened twice Opcode.jump_if_false pos) d c' _
        (λ s. instead-Emission y pos _ d (g s)) h fits in
    let right : Emission c₁ c' _ =
      and_then c₁ twice c' _ _ (emit_op-Emission c₁ Opcode.dup pos) skip in
    weaken c c' _ (λ whole. Laid whole (infix_expr pos (lit "&&") x y))
      (λ whole p q (m, laid, (n, (at, dup), (jump, (n', (at', pop), rest)))).
        of_and pos x y p m q laid dup
          (shifted (λ i. Jumps whole Opcode.jump_if_false i q) n (m + 1) at jump)
          (shifted (Plain whole Opcode.pop) (n + 5) (m + 6) (omega (arith, at)) pop)
          (shifted (λ i. Laid whole y i q) n' (m + 7) (omega (arith, at, at')) rest))
      (and_then c c₁ c' _ _ (f (Fits-before c₁ c' _ right fits)) right)

pub or-Lays :
    (pos : Position) (x y : Expr) (c c₁ c₄ d c' : Chunk)
    → (Fits c₁ → Lays x c c₁)
    → patched (
        patch_jump_here
          (placed (placed (emit_op c₁ Opcode.dup pos) Opcode.jump_if_false pos) Opcode.jump pos)
          (slot (emit_op c₁ Opcode.dup pos) Opcode.jump_if_false pos))
      ≡ done c₄
    → (Fits d → Lays y (emit_op c₄ Opcode.pop pos) d)
    → patched (
        patch_jump_here d
          (slot (placed (emit_op c₁ Opcode.dup pos) Opcode.jump_if_false pos) Opcode.jump pos))
      ≡ done c'
    → Fits c'
    → Lays (infix_expr pos (lit "||") x y) c c'
unfolding patch_jump_here
or-Lays pos x y c c₁ c₄ d c' f h g k fits =
    let twice : Chunk = emit_op c₁ Opcode.dup pos in
    let waiting : Chunk = placed twice Opcode.jump_if_false pos in
    let arms : Emission twice c' (Either Opcode.jump_if_false (λ whole p q. q ≡ p) (Instead y)) =
      either twice waiting Opcode.jump_if_false _ (placed-Opened twice Opcode.jump_if_false pos)
        waiting _ pos c₄ d c' _ (λ s. nothing waiting) h (λ s. instead-Emission y pos c₄ d (g s)) k
        fits in
    let right : Emission c₁ c' _ =
      and_then c₁ twice c' _ _ (emit_op-Emission c₁ Opcode.dup pos) arms in
    weaken c c' _ (λ whole. Laid whole (infix_expr pos (lit "||") x y))
      (λ whole p q (m, laid, (i, (at, dup), (n, (jump, empty), (skip, (n', (at', pop), rest))))).
        of_or pos x y p m q laid dup
          (subst (λ j. Jumps whole Opcode.jump_if_false j (m + 11)) at
            (shifted (Jumps whole Opcode.jump_if_false i) (n + 5) (m + 11)
              (omega (arith, at, empty)) jump))
          (shifted (λ j. Jumps whole Opcode.jump j q) n (m + 6) (omega (arith, at, empty)) skip)
          (shifted (Plain whole Opcode.pop) (n + 5) (m + 11) (omega (arith, at, empty)) pop)
          (shifted (λ j. Laid whole y j q) n' (m + 12) (omega (arith, at, at', empty)) rest))
      (and_then c c₁ c' _ _ (f (Fits-before c₁ c' _ right fits)) right)
