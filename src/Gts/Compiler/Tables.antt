-- ===== src/Gts/Compiler/Tables.antt =====
-- crates/night24-gts/src/bytecode/compiler_operators.rs and interp.rs: the operators of the compiler's
-- tables are those that the machine applies.
use night.Gts.Evaluator.{is_update}
use night.Gts.Opcode.{to_byte, Opcode}
use night.Gts.Compiler.{binary_opcode, binary_table, unary_table}
use night.Gts.Interp.{find_operator, binary_operators, unary_operators}
use night.Gts.Value.{find_text}
use night.Text.{Text, text_eq, text_eq_iff, lit}
use night.Prelude.{
  some-eq, Bool-cases, ◌≡◌, refl, ◌⊎◌, inl, inr, false, none, some, List, ◌∷◌, arith, [],
}

-- What holds of every row of a table.
abbrev pub EachRow {ℓ} : {A : Type ℓ} → (Text → A → Type 0) → List (Text × A) → Type 0
EachRow P [] = Unit
EachRow P ((k, a) ∷ rows) = P k a × EachRow P rows

pub find_text-EachRow {ℓ} :
    {A : Type ℓ} (P : Text → A → Type 0) (rows : List (Text × A)) (key : Text) (a : A)
    → EachRow P rows
    → find_text key rows ≡ some a
    → P key a
unfolding find_text
find_text-EachRow P [] key a h e = ground arith
find_text-EachRow P ((k, b) ∷ rows) key a (row, h) e = elim (Bool-cases (text_eq k key)) [
  | inl same ↦
      let place : b ≡ a = some-eq (rw same at e) in rw (← place, ← (text_eq_iff k key).0 same) row
  | inr other ↦ find_text-EachRow P rows key a h (rw other at e)
]

binary_table-operators : EachRow (λ op oc. find_operator oc binary_operators ≡ some op) binary_table
unfolding find_operator to_byte
binary_table-operators = (
  refl,
  (
    refl,
    (
      refl,
      (
        refl,
        (
          refl,
          (
            refl,
            (
              refl,
              (
                refl,
                (
                  refl,
                  (
                    refl,
                    (
                      refl,
                      (refl, (refl, (refl, (refl, (refl, (refl, (refl, (refl, (refl, tt))))))))),
                    ),
                  ),
                ),
              ),
            ),
          ),
        ),
      ),
    ),
  ),
)

pub find_operator-binary :
    (op : Text) (oc : Opcode)
    → binary_opcode op ≡ some oc
    → find_operator oc binary_operators ≡ some op
unfolding binary_opcode
find_operator-binary op oc e =
    find_text-EachRow (λ t o. find_operator o binary_operators ≡ some t) binary_table op oc
      binary_table-operators e

-- The rows of the prefix operators. The tree-walker takes each to `apply_unary_op`.
unfoldable pub UnaryRow : Text → Opcode → Type 0
UnaryRow op oc =
    (is_update op ≡ false)
    × (text_eq op (lit "delete") ≡ false)
    × (((op ≡ lit "typeof") × (oc ≡ Opcode.type_of))
        ⊎ ((find_operator oc binary_operators ≡ none)
            × (find_operator oc unary_operators ≡ some op)))

pub unary_table-UnaryRow : EachRow UnaryRow unary_table
unfolding UnaryRow find_operator to_byte text_eq
unary_table-UnaryRow = (
  (refl, refl, inr (refl, refl)),
  (
    (refl, refl, inr (refl, refl)),
    (
      (refl, refl, inr (refl, refl)),
      ((refl, refl, inl (refl, refl)), ((refl, refl, inr (refl, refl)), tt)),
    ),
  ),
)

unfoldable pub StrictRow : Text → Opcode → Type 0
StrictRow op oc =
    (text_eq op (lit "&&") ≡ false)
    × (text_eq op (lit "||") ≡ false)
    × (text_eq op (lit "??") ≡ false)

pub binary_table-StrictRow : EachRow StrictRow binary_table
unfolding StrictRow text_eq
binary_table-StrictRow = (
  (refl, refl, refl),
  (
    (refl, refl, refl),
    (
      (refl, refl, refl),
      (
        (refl, refl, refl),
        (
          (refl, refl, refl),
          (
            (refl, refl, refl),
            (
              (refl, refl, refl),
              (
                (refl, refl, refl),
                (
                  (refl, refl, refl),
                  (
                    (refl, refl, refl),
                    (
                      (refl, refl, refl),
                      (
                        (refl, refl, refl),
                        (
                          (refl, refl, refl),
                          (
                            (refl, refl, refl),
                            (
                              (refl, refl, refl),
                              (
                                (refl, refl, refl),
                                (
                                  (refl, refl, refl),
                                  (
                                    (refl, refl, refl),
                                    ((refl, refl, refl), ((refl, refl, refl), tt)),
                                  ),
                                ),
                              ),
                            ),
                          ),
                        ),
                      ),
                    ),
                  ),
                ),
              ),
            ),
          ),
        ),
      ),
    ),
  ),
)
