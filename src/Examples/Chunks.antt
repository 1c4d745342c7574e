-- ===== src/Examples/Chunks.antt =====
-- Runs of crates/night24-gts/src/chunk.rs, opcode.rs and compiler/emit.rs.
use night.Gts.Opcode.Width.{total, disassembled_operands, operand_width, disassembled-operand_width}
use night.Gts.Chunk.Operands.{read_u16-write_u16, jumped, operand_ip, patch_jump_here-placeholder}
use night.Gts.Opcode.Decode.{from_byte_iff}
use night.Gts.Opcode.{from_byte, pop, const, to_byte, jump, load_global, store_global}
use night.Gts.Chunk.Constants.{Stored, IsIndexed, add_constant-wraps, add_constant-Stored}
use night.Gts.Chunk.Positions.{Instruction, assemble, size, position_at-assemble}
use night.Gts.Chunk.{
  Position, position_at, read_u16, read_u32, Chunk, add_constant, Object, write_u16, write_u32,
  patch_jump_here, empty_chunk, number, date, number_bits, be_bytes, from_object, is_nan, canonical,
}
use night.Prelude.{
  ltb→lt, length, get_elem?, ℕ, zero, suc, ◌+◌, ◌^◌, ◌≡◌, refl, ap, ◌↔◌, ◌⊎◌, some, List, ◌∷◌, ◌++◌,
  arith, [],
}

abbrev here : Position
here = record { file = []; line = 3; col = 1; offset = 20 }

abbrev there : Position
there = record { file = []; line = 4; col = 1; offset = 30 }

abbrev push : Instruction
push = record { op = const; operands = 0 ∷ 1 ∷ []; pos = here }

abbrev leave : Instruction
leave = record { op = pop; operands = []; pos = there }

position_at-assemble_example :
    position_at (assemble empty_chunk ((push ∷ []) ++ leave ∷ [])) (size (push ∷ []) + 0) ≡ there
position_at-assemble_example =
    position_at-assemble (push ∷ []) leave [] 0 (ltb→lt (size (push ∷ leave ∷ [])) (2 ^ 32) refl)
      (omega arith)

read_u16-write_u16_example : read_u16 (write_u16 empty_chunk 258) 0 ≡ some 258
read_u16-write_u16_example = read_u16-write_u16 empty_chunk 258 (omega arith)

patch_jump_here-placeholder_example :
    (patched : Chunk) × (patch_jump_here
        (jumped empty_chunk jump here (1 ∷ 2 ∷ []))
        (operand_ip empty_chunk jump here (1 ∷ 2 ∷ []))
      ≡ some patched)
    × (patched.code ≡ ([] ++ to_byte jump ∷ []) ++ (be_bytes 7 ++ (1 ∷ 2 ∷ [])))
    × (read_u32 patched (operand_ip empty_chunk jump here (1 ∷ 2 ∷ [])) ≡ some 7)
patch_jump_here-placeholder_example =
    patch_jump_here-placeholder empty_chunk jump here (1 ∷ 2 ∷ []) (omega arith)

abbrev pooled : Chunk
pooled = (add_constant empty_chunk (number 5)).0

add_constant-Stored_example :
    Stored
      (add_constant empty_chunk (number 5)).0
      (number 5)
      (add_constant empty_chunk (number 5)).1
    × IsIndexed (add_constant empty_chunk (number 5)).0
add_constant-Stored_example = add_constant-Stored empty_chunk (number 5) tt (omega arith)

from_byte_iff_example : (from_byte 7 ≡ some pop) ↔ (7 ≡ to_byte pop)
from_byte_iff_example = from_byte_iff 7 pop

disassembled-operand_width_example :
    (total (disassembled_operands jump) ≡ operand_width jump)
    ⊎ (((jump ≡ load_global) ⊎ (jump ≡ store_global))
        × (operand_width jump ≡ 2)
        × (total (disassembled_operands jump) ≡ 0))
disassembled-operand_width_example = disassembled-operand_width jump

-- A pool that is full of dates.
abbrev dates : ℕ → List Object
dates zero = []
dates (suc n) = date n ∷ dates n

length-dates : (n : ℕ) → length (dates n) ≡ n
length-dates zero = refl
length-dates (suc n) = ap suc (length-dates n)

abbrev full : Chunk
full = record empty_chunk { constants = dates (2 ^ 16) }

add_constant-wraps_example :
    ((add_constant full (number 5)).1 ≡ 0)
    × (get_elem? (add_constant full (number 5)).0.constants 0 ≡ some (date 65535))
unfolding night.Gts.Chunk.from_object night.Gts.Chunk.is_nan night.Gts.Chunk.canonical
    night.Gts.Chunk.find_key
add_constant-wraps_example =
    add_constant-wraps full (number 5) (date 65535) (number_bits 5) refl refl
      (length-dates (2 ^ 16)) refl
