-- ===== src/Gts/Compiler/Nullish.antt =====
-- crates/night24-gts/src/bytecode/compiler_operators.rs: what the compiler emits for `??`.
use night.Text.{lit}
use night.Gts.Compiler.Laying.{Lays}
use night.Gts.Ast.{Expr, infix_expr}
use night.Gts.Compiler.Conditionals.{slot, shifted, Instead, instead-Emission}
use night.Gts.Chunk.Pool.{IsKeyed, of_key}
use night.Gts.Compiler.Layout.{Plain, Names, Jumps, Laid, of_nullish}
use night.Gts.Opcode.{Opcode, to_byte}
use night.Gts.Compiler.Jumps.{
  placed, Opened, placed-code, with_jump, length-aimed, body-code, length-placed, placed-Opened,
  aimed, patched-Fits, Fits-placed, patched-with_jump, placed-ip, placed-pool, forward,
}
use night.Gts.Compiler.Emission.{
  Shape, Emission, Then, Fits, operand, and_then, weaken, nothing, emit_op-Emission,
  operand-Emission, Fits-before, sharpen,
}
use night.Gts.Compiler.{emit_op, patched, done}
use night.Prelude.{
  length, ℕ, ◌+◌, ◌≡◌, arith, length-append, ◌^◌, ◌<◌, refl, sym, ap, ◌∙◌, List, ◌∷◌, ◌++◌,
  append_assoc, [], subst,
}
use night.Gts.Chunk.{
  Chunk, Object, emit_value_constant, Position, emit_const, undefined, write_op, be_bytes,
  patch_jump_to, patch_jump_here, from_object, null, as_u32, key_undefined, key_null,
}

-- A comparison with a constant, on a copy of the value.
abbrev pub tested : Chunk → Object → Position → Chunk
tested c v pos = emit_op (emit_value_constant (emit_op c Opcode.dup pos) v pos) Opcode.eq pos

abbrev Tests : Object → Shape
Tests v whole p q =
    (q ≡ p + 5)
    × (Plain whole Opcode.dup p
        × (Names whole Opcode.const (p + 1) v × Plain whole Opcode.eq (p + 4)))

tests-Emission :
    (c : Chunk) (v : Object) (pos : Position)
    → IsKeyed v
    → Fits (tested c v pos)
    → Emission c (tested c v pos) (Tests v)
unfolding emit_value_constant emit_const write_op
tests-Emission c v pos keyed fits =
    let twice : Chunk = emit_op c Opcode.dup pos in
    let pushed : Chunk = operand twice Opcode.const v pos in
    weaken c (tested c v pos) _ (Tests v)
      (λ whole p q (m, (at, dup), (n, (to, names), (end, same))). (
        omega (arith, at, to, end),
        (
          dup,
          (
            shifted (λ i. Names whole Opcode.const i v) m (p + 1) at names,
            shifted (Plain whole Opcode.eq) n (p + 4) (omega (arith, at, to)) same,
          ),
        ),
      ))
      (and_then c twice (tested c v pos) _ _ (emit_op-Emission c Opcode.dup pos) (
        and_then twice pushed (tested c v pos) _ _
          (operand-Emission twice Opcode.const v pos keyed fits.1)
          (emit_op-Emission pushed Opcode.eq pos)))

-- The chunks of the checks behind one that ends in a placeholder, and the jump behind them.
abbrev pub first_slot : Chunk → Position → Chunk
first_slot a pos = placed a Opcode.jump_if_true pos

abbrev pub second_test : Chunk → Position → Chunk
second_test a pos = tested (first_slot a pos) undefined pos

abbrev pub second_slot : Chunk → Position → Chunk
second_slot a pos = placed (second_test a pos) Opcode.jump_if_true pos

abbrev pub both_checks : Chunk → Position → Chunk
both_checks a pos = placed (second_slot a pos) Opcode.jump pos

module _ (a : Chunk) (pos : Position)
    (body : Emission (first_slot a pos) (second_test a pos) (Tests undefined)) (v : ℕ) where
  opened : Opened a (first_slot a pos) Opcode.jump_if_true (slot a Opcode.jump_if_true pos)
  opened = placed-Opened a Opcode.jump_if_true pos

  abbrev hole : List ℕ
  hole = to_byte Opcode.jump_if_true ∷ be_bytes 0

  abbrev filled : List ℕ
  filled = to_byte Opcode.jump_if_true ∷ be_bytes v

  abbrev skip : List ℕ
  skip = to_byte Opcode.jump ∷ be_bytes 0

  both_checks-code : (both_checks a pos).code ≡ a.code ++ (hole ++ (body.bytes ++ (hole ++ skip)))
  both_checks-code =
      placed-code (second_slot a pos) Opcode.jump pos
      ∙ (ap (λ k. k ++ skip) (placed-code (second_test a pos) Opcode.jump_if_true pos)
          ∙ (append_assoc (second_test a pos).code hole skip
              ∙ (ap (λ k. k ++ (hole ++ skip))
                    (body-code a _ Opcode.jump_if_true _ opened (second_test a pos) _ body)
                  ∙ (append_assoc a.code (hole ++ body.bytes) (hole ++ skip)
                      ∙ ap (λ k. a.code ++ k) (append_assoc hole body.bytes (hole ++ skip))))))

  -- The chunk with the first check patched, and with both.
  abbrev one : Chunk
  one = with_jump (second_test a pos) a Opcode.jump_if_true v body.bytes

  abbrev rest : Chunk
  rest = record (second_test a pos) { code = one.code ++ hole }

  abbrev two : Chunk
  two = with_jump rest one Opcode.jump_if_true v []

  rest-Opened : Opened one rest Opcode.jump_if_true (length one.code + 1)
  rest-Opened = record { code_eq = refl; pool_eq = refl; index_eq = refl; ip_eq = λ fits. refl }

  length-two : length two.code ≡ length (second_slot a pos).code
  length-two = omega (
    arith,
    length-append {0} one.code filled,
    length-aimed a _ Opcode.jump_if_true _ opened (second_test a pos) _ v body,
    length-placed (second_test a pos) Opcode.jump_if_true pos,
  )

  checks-Emission :
      v < 2 ^ 32
      → Emission a two (
          Then
            (λ whole p q. Jumps whole Opcode.jump_if_true p v × Tests undefined whole (p + 5) q)
            (λ whole p q. Jumps whole Opcode.jump_if_true p v × (q ≡ p + 5)))
  checks-Emission lt =
      and_then a one two _ _
        (aimed a _ Opcode.jump_if_true _ opened (second_test a pos) _ v body lt)
        (aimed one rest Opcode.jump_if_true _ rest-Opened rest _ v (nothing rest) lt)

  two-Opened :
      (c₅ c₆ : Chunk)
      → Fits c₅
      → Fits c₆
      → patched (patch_jump_to (both_checks a pos) (slot a Opcode.jump_if_true pos) v) ≡ done c₅
      → patched (patch_jump_to c₅ (slot (second_test a pos) Opcode.jump_if_true pos) v) ≡ done c₆
      → Opened two c₆ Opcode.jump (slot (second_slot a pos) Opcode.jump pos)
  two-Opened c₅ c₆ fits₅ fits₆ h k =
      let fits₃ : Fits (both_checks a pos) = patched-Fits (both_checks a pos) c₅ _ _ h fits₅ in
      let fits₂ : Fits (second_slot a pos) =
        Fits-placed (second_slot a pos) Opcode.jump pos fits₃ in
      let fits : Fits (second_test a pos) =
        Fits-placed (second_test a pos) Opcode.jump_if_true pos fits₂ in
      let once : with_jump (both_checks a pos) a Opcode.jump_if_true v
            (body.bytes ++ (hole ++ skip))
          ≡ c₅ =
        patched-with_jump (both_checks a pos) a c₅ Opcode.jump_if_true _ _ v both_checks-code
          (opened.ip_eq (Fits-before _ (second_test a pos) _ body fits)) h in
      let code : c₅.code ≡ one.code ++ (hole ++ skip) =
        ap (λ x. x.code) (sym once)
        ∙ sym (
            append_assoc a.code (filled ++ body.bytes) (hole ++ skip)
            ∙ ap (λ k. a.code ++ k) (append_assoc filled body.bytes (hole ++ skip))) in
      let twice : with_jump c₅ one Opcode.jump_if_true v skip ≡ c₆ =
        patched-with_jump c₅ one c₆ Opcode.jump_if_true skip _ v code
          (placed-ip (second_test a pos) Opcode.jump_if_true pos fits₂
            ∙ ap (λ n. n + 1)
                (sym (length-aimed a _ Opcode.jump_if_true _ opened (second_test a pos) _ v body)))
          k in
      record {
        code_eq = ap (λ x. x.code) (sym twice) ∙ sym (append_assoc one.code filled skip);
        pool_eq =
            ap (λ x. x.constants) (sym twice)
            ∙ (ap (λ x. x.constants) (sym once)
                ∙ ((placed-pool (second_slot a pos) Opcode.jump pos).0
                    ∙ (placed-pool (second_test a pos) Opcode.jump_if_true pos).0));
        index_eq =
            ap (λ x. x.const_index) (sym twice)
            ∙ (ap (λ x. x.const_index) (sym once)
                ∙ ((placed-pool (second_slot a pos) Opcode.jump pos).1
                    ∙ (placed-pool (second_test a pos) Opcode.jump_if_true pos).1));
        ip_eq = λ fits'.
            placed-ip (second_slot a pos) Opcode.jump pos fits₃ ∙ ap (λ n. n + 1) (sym length-two);
      }

abbrev Checked : Shape
Checked whole p q =
    (i : ℕ) × (Jumps whole Opcode.jump_if_true p (q + 5) × Tests undefined whole (p + 5) i)
    × (Jumps whole Opcode.jump_if_true i (q + 5) × (q ≡ i + 5))

nullish-Laid :
    (whole : Chunk) (pos : Position) (x y : Expr) (p m q : ℕ)
    → Laid whole x p m
    → Then
        (Tests null)
        (Then Checked (λ w i j. Jumps w Opcode.jump i j × Instead y w (i + 5) j))
        whole
        m
        q
    → Laid whole (infix_expr pos (lit "??") x y) p q
nullish-Laid whole pos x y p m q laid
      (
        n,
        (at, (dup, (names, same))),
        (
          e,
          (i, (jump, (to, (dup', (names', same')))), (jump', end)),
          (skip, (r, (next, pop), right)),
        ),
      ) =
    of_nullish pos x y p m q laid
      (
        dup,
        names,
        same,
        subst (λ j. Jumps whole Opcode.jump_if_true j (m + 25)) at
            (shifted (Jumps whole Opcode.jump_if_true n) (e + 5) (m + 25)
              (omega (arith, at, to, end)) jump),
      )
      (
        shifted (Plain whole Opcode.dup) (n + 5) (m + 10) (omega (arith, at)) dup',
        shifted (λ j. Names whole Opcode.const j undefined) (n + 5 + 1) (m + 10 + 1)
            (omega (arith, at)) names',
        shifted (Plain whole Opcode.eq) (n + 5 + 4) (m + 10 + 4) (omega (arith, at)) same',
        shifted (λ j. Jumps whole Opcode.jump_if_true j (m + 25)) i (m + 10 + 5)
            (omega (arith, at, to))
            (shifted (Jumps whole Opcode.jump_if_true i) (e + 5) (m + 25)
              (omega (arith, at, to, end)) jump'),
      )
      (shifted (λ j. Jumps whole Opcode.jump j q) e (m + 20) (omega (arith, at, to, end)) skip)
      (shifted (Plain whole Opcode.pop) (e + 5) (m + 25) (omega (arith, at, to, end)) pop)
      (shifted (λ j. Laid whole y j q) r (m + 26) (omega (arith, at, to, end, next)) right)

pub nullish-Lays :
    (pos : Position) (x y : Expr) (c c₁ c₅ c₆ d c' : Chunk)
    → (Fits c₁ → Lays x c c₁)
    → patched (
        patch_jump_to
          (both_checks (tested c₁ null pos) pos)
          (slot (tested c₁ null pos) Opcode.jump_if_true pos)
          (as_u32 (length (both_checks (tested c₁ null pos) pos).code)))
      ≡ done c₅
    → patched (
        patch_jump_to c₅
          (slot (second_test (tested c₁ null pos) pos) Opcode.jump_if_true pos)
          (as_u32 (length (both_checks (tested c₁ null pos) pos).code)))
      ≡ done c₆
    → (Fits d → Lays y (emit_op c₆ Opcode.pop pos) d)
    → patched (patch_jump_here d (slot (second_slot (tested c₁ null pos) pos) Opcode.jump pos))
      ≡ done c'
    → Fits c'
    → Lays (infix_expr pos (lit "??") x y) c c'
unfolding patch_jump_here from_object of_key
nullish-Lays pos x y c c₁ c₅ c₆ d c' f h₁ h₂ g k fits =
    let a : Chunk = tested c₁ null pos in
    let v : ℕ = as_u32 (length (both_checks a pos).code) in
    let fits_d : Fits d = patched-Fits d c' _ _ k fits in
    let fits₆ : Fits c₆ = Fits-before c₆ d _ (instead-Emission y pos c₆ d (g fits_d)) fits_d in
    let fits₅ : Fits c₅ = patched-Fits c₅ c₆ _ v h₂ fits₆ in
    let (small, room) = patched-Fits (both_checks a pos) c₅ _ v h₁ fits₅ in
    let fits₂ : Fits (second_slot a pos) =
      Fits-placed (second_slot a pos) Opcode.jump pos (small, room) in
    let fits_b : Fits (second_test a pos) =
      Fits-placed (second_test a pos) Opcode.jump_if_true pos fits₂ in
    let second : Emission (first_slot a pos) (second_test a pos) (Tests undefined) =
      tests-Emission (first_slot a pos) undefined pos (key_undefined, refl, refl) fits_b in
    let fits_a : Fits a =
      Fits-placed a Opcode.jump_if_true pos
        (Fits-before (first_slot a pos) (second_test a pos) _ second fits_b) in
    let first : Emission c₁ a (Tests null) =
      tests-Emission c₁ null pos (key_null, refl, refl) fits_a in
    let w : Chunk = two a pos second v in
    let target : v ≡ length w.code + 5 = omega (
      arith,
      small,
      length-two a pos second v,
      length-placed (second_slot a pos) Opcode.jump pos,
    ) in
    let last : Emission w c'
        (λ whole p q. Jumps whole Opcode.jump p q × Instead y whole (p + 5) q) =
      forward w c₆ Opcode.jump _ (two-Opened a pos second v c₅ c₆ fits₅ fits₆ h₁ h₂) d c' _
        (λ s. instead-Emission y pos c₆ d (g s)) k fits in
    let checks : Emission a w _ =
      sharpen a w _ Checked
        (λ whole (i, (jump, tests), (jump', at)). (
          i,
          (subst (Jumps whole Opcode.jump_if_true (length a.code)) target jump, tests),
          (subst (Jumps whole Opcode.jump_if_true i) target jump', at),
        ))
        (checks-Emission a pos second v (omega arith)) in
    let right : Emission c₁ c' _ = and_then c₁ a c' _ _ first (and_then a w c' _ _ checks last) in
    weaken c c' _ (λ whole. Laid whole (infix_expr pos (lit "??") x y))
      (λ whole p q (m, laid, rest). nullish-Laid whole pos x y p m q laid rest)
      (and_then c c₁ c' _ _ (f (Fits-before c₁ c' _ right fits)) right)
