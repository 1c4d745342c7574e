-- ===== src/Gts/Opcode/Width.antt =====
-- The operand widths: `operand_width` of crates/night24-gts/src/bytecode/emit.rs and the operands
-- that `disassemble` of chunk.rs skips.
use night.Prelude.{ℕ, ◌+◌, ◌≡◌, refl, ◌⊎◌, inl, inr, List, ◌∷◌, []}
use night.Gts.Opcode.{
  const, load_name, store_name, assign_name, load_global, store_global, get_property, set_property,
  define_method, new_class, super_method, new_array, new, call, closure, import_module, export_name,
  store_typed_name, jump, jump_if_false, jump_if_true, loop, load_local, store_local, load_upvalue,
  store_upvalue, Opcode,
}

unfoldable pub operand_width : Opcode → ℕ
operand_width const = 2
operand_width load_name = 2
operand_width store_name = 2
operand_width assign_name = 2
operand_width load_global = 2
operand_width store_global = 2
operand_width get_property = 2
operand_width set_property = 2
operand_width define_method = 2
operand_width new_class = 2
operand_width super_method = 2
operand_width new_array = 2
operand_width new = 2
operand_width call = 2
operand_width closure = 2
operand_width import_module = 2
operand_width export_name = 2
operand_width store_typed_name = 4
operand_width jump = 4
operand_width jump_if_false = 4
operand_width jump_if_true = 4
operand_width loop = 4
operand_width load_local = 1
operand_width store_local = 1
operand_width load_upvalue = 1
operand_width store_upvalue = 1
operand_width op = 0

-- The operands that `disassemble` reads behind an opcode, in bytes each.
unfoldable pub disassembled_operands : Opcode → List ℕ
disassembled_operands const = 2 ∷ []
disassembled_operands load_name = 2 ∷ []
disassembled_operands store_name = 2 ∷ []
disassembled_operands assign_name = 2 ∷ []
disassembled_operands get_property = 2 ∷ []
disassembled_operands set_property = 2 ∷ []
disassembled_operands define_method = 2 ∷ []
disassembled_operands new_class = 2 ∷ []
disassembled_operands super_method = 2 ∷ []
disassembled_operands new_array = 2 ∷ []
disassembled_operands new = 2 ∷ []
disassembled_operands call = 2 ∷ []
disassembled_operands closure = 2 ∷ []
disassembled_operands import_module = 2 ∷ []
disassembled_operands export_name = 2 ∷ []
disassembled_operands store_typed_name = 2 ∷ 2 ∷ []
disassembled_operands load_local = 1 ∷ []
disassembled_operands store_local = 1 ∷ []
disassembled_operands load_upvalue = 1 ∷ []
disassembled_operands store_upvalue = 1 ∷ []
disassembled_operands jump = 4 ∷ []
disassembled_operands jump_if_false = 4 ∷ []
disassembled_operands jump_if_true = 4 ∷ []
disassembled_operands loop = 4 ∷ []
disassembled_operands op = []

abbrev pub total : List ℕ → ℕ
total [] = 0
total (n ∷ ns) = n + total ns

-- `disassemble` skips the operand bytes that the compiler's table counts, except behind
-- `LoadGlobal` and `StoreGlobal`, where it skips none of the two.
pub disassembled-operand_width :
    (op : Opcode)
    → (total (disassembled_operands op) ≡ operand_width op)
      ⊎ (((op ≡ load_global) ⊎ (op ≡ store_global))
          × (operand_width op ≡ 2)
          × (total (disassembled_operands op) ≡ 0))
unfolding operand_width disassembled_operands
disassembled-operand_width const = inl refl
disassembled-operand_width load_global = inr (inl refl, refl, refl)
disassembled-operand_width store_global = inr (inr refl, refl, refl)
disassembled-operand_width _ = inl refl
