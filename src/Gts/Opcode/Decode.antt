-- ===== src/Gts/Opcode/Decode.antt =====
-- Decoding of instruction bytes and the names of the disassembly, opcode.rs.
use night.Text.{Text, text_eq}
use night.Gts.Opcode.{from_byte, Opcode, find_byte, to_byte, name}
use night.Prelude.{
  ℕ, ◌≡◌, refl, some, List, ◌∷◌, arith, [], ◌==◌, if◌then◌else◌, ==_iff, Bool-cases, sym, ap, ◌∙◌,
  subst, ◌↔◌, ◌⊎◌, inl, inr, Option, none, map, some-eq,
}
use night.Gts.Opcode.{const, byte_table}

from_byte-to_byte_lem : (op : Opcode) → from_byte (to_byte op) ≡ some op
unfolding from_byte to_byte
from_byte-to_byte_lem const = refl
from_byte-to_byte_lem _ = refl

-- Each row of a table stands for the byte of its opcode.
abbrev Rows : List (ℕ × Opcode) → Type 0
Rows [] = Unit
Rows ((n, op) ∷ rows) = (to_byte op ≡ n) × Rows rows

find_byte_sound :
    (b : ℕ) (rows : List (ℕ × Opcode)) (op : Opcode)
    → Rows rows
    → find_byte b rows ≡ some op
    → to_byte op ≡ b
unfolding find_byte
find_byte_sound b [] op r h = cc
find_byte_sound b ((n, o) ∷ rows) op r h = elim (Bool-cases (n == b)) [
  | inl e ↦
      let same : o ≡ op = some-eq (rw e at h) in
      subst (λ x. to_byte x ≡ b) same (r.0 ∙ (==_iff n b).0 e)
  | inr e ↦ find_byte_sound b rows op r.1 (rw e at h)
]

byte_table-Rows : Rows byte_table
unfolding to_byte
byte_table-Rows = omega arith

-- A byte decodes to an opcode exactly when it is the byte of that opcode.
pub from_byte_iff : (b : ℕ) (op : Opcode) → (from_byte b ≡ some op) ↔ (b ≡ to_byte op)
from_byte_iff b op = (
  λ h. sym (find_byte_sound b byte_table op byte_table-Rows (unfold from_byte in h)),
  λ h. rw h (from_byte-to_byte_lem op),
)

-- The opcodes with their names, to look a name up.
name_table : List (Text × Opcode)
name_table = map (λ (row : ℕ × Opcode). let p : Text × Opcode = (name row.1, row.1) in p) byte_table

find_name : Text → List (Text × Opcode) → Option Opcode
find_name t [] = none
find_name t ((n, op) ∷ rows) = if text_eq n t then some op else find_name t rows

find_name-name : (op : Opcode) → find_name (name op) name_table ≡ some op
unfolding find_name name_table name text_eq
find_name-name const = refl
find_name-name _ = refl

-- Two instructions with one name in the disassembly are one instruction, and so are two with one
-- byte.
pub opcode_unique : (a b : Opcode) → (name a ≡ name b) ⊎ (to_byte a ≡ to_byte b) → a ≡ b
opcode_unique a b (inl h) =
    some-eq (sym (find_name-name a) ∙ ap (λ t. find_name t name_table) h ∙ find_name-name b)
opcode_unique a b (inr h) =
    some-eq (sym (from_byte-to_byte_lem a) ∙ ap from_byte h ∙ from_byte-to_byte_lem b)
