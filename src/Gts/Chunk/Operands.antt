-- ===== src/Gts/Chunk/Operands.antt =====
-- Operands are read back as they were written or patched, chunk.rs and emit.rs.
use night.Gts.Opcode.{Opcode, to_byte}
use night.Gts.Chunk.{
  read_u32, read_u16, write_u32, set_bytes, Chunk, be_bytes, write_u16, Position,
  emit_jump_placeholder, patch_jump_here, patch_jump_to, write_op, as_u32,
}
use night.Prelude.{
  length, get_elem?-append_right, set-append_right, ℕ, ◌+◌, ◌*◌, ◌/◌, ◌%◌, ◌^◌, ◌<◌, ◌≡◌, refl, ap,
  some, List, ◌∷◌, ◌++◌, append-nil, arith, [], ltb, lt→ltb, length-append, true, append_assoc,
}

u16-bytes : (v : ℕ) → v < 2 ^ 16 → v / 2 ^ 8 % 256 * 2 ^ 8 + v % 256 ≡ v
u16-bytes v h = omega arith

u32-bytes :
    (v : ℕ)
    → v < 2 ^ 32
    → v / 2 ^ 24 % 256 * 2 ^ 24 + v / 2 ^ 16 % 256 * 2 ^ 16 + v / 2 ^ 8 % 256 * 2 ^ 8 + v % 256 ≡ v
u32-bytes v h = omega arith

-- Four bytes behind a prefix.
read_u32-prefix :
    (c : Chunk) (before after : List ℕ) (v ip : ℕ)
    → v < 2 ^ 32
    → ip ≡ length before
    → c.code ≡ before ++ (be_bytes v ++ after)
    → read_u32 c ip ≡ some v
unfolding read_u32
read_u32-prefix c before after v ip h at e =
    rw
      (
        e,
        get_elem?-append_right before (be_bytes v ++ after) ip 0 (omega arith),
        get_elem?-append_right before (be_bytes v ++ after) (ip + 1) 1 (omega arith),
        get_elem?-append_right before (be_bytes v ++ after) (ip + 2) 2 (omega arith),
        get_elem?-append_right before (be_bytes v ++ after) (ip + 3) 3 (omega arith),
      )
      (ap some (u32-bytes v h))

-- An operand of two bytes is read back where it was written.
pub read_u16-write_u16 :
    (c : Chunk) (v : ℕ) → v < 2 ^ 16 → read_u16 (write_u16 c v) (length c.code) ≡ some v
unfolding read_u16 write_u16
read_u16-write_u16 c v h =
    let code : List ℕ = (v / 2 ^ 8 % 256) ∷ (v % 256) ∷ [] in
    rw
      (
        get_elem?-append_right c.code code (length c.code) 0 (omega arith),
        get_elem?-append_right c.code code (length c.code + 1) 1 (omega arith),
      )
      (ap some (u16-bytes v h))

-- An operand of four bytes is read back where it was written.
read_u32-write_u32 :
    (c : Chunk) (v : ℕ) → v < 2 ^ 32 → read_u32 (write_u32 c v) (length c.code) ≡ some v
unfolding write_u32
read_u32-write_u32 c v h =
    read_u32-prefix (record c { code = c.code ++ be_bytes v }) c.code [] v (length c.code) h refl
      (rw append-nil)

set_bytes-prefix :
    (before after : List ℕ) (b0 b1 b2 b3 ip v : ℕ)
    → ip ≡ length before
    → set_bytes (before ++ b0 ∷ b1 ∷ b2 ∷ b3 ∷ after) ip v ≡ before ++ (be_bytes v ++ after)
set_bytes-prefix before after b0 b1 b2 b3 ip v at = rw (
  set-append_right before (b0 ∷ b1 ∷ b2 ∷ b3 ∷ after) ip 0 (v / 2 ^ 24 % 256) (omega arith),
  set-append_right before ((v / 2 ^ 24 % 256) ∷ b1 ∷ b2 ∷ b3 ∷ after) (ip + 1) 1 (v / 2 ^ 16 % 256)
      (omega arith),
  set-append_right before ((v / 2 ^ 24 % 256) ∷ (v / 2 ^ 16 % 256) ∷ b2 ∷ b3 ∷ after) (ip + 2) 2
      (v / 2 ^ 8 % 256) (omega arith),
  set-append_right before ((v / 2 ^ 24 % 256) ∷ (v / 2 ^ 16 % 256) ∷ (v / 2 ^ 8 % 256) ∷ b3 ∷ after)
      (ip + 3) 3 (v % 256) (omega arith),
)

pub patch_jump_to-prefix :
    (c : Chunk) (before after : List ℕ) (ip v : ℕ)
    → c.code ≡ before ++ (be_bytes 0 ++ after)
    → ip ≡ length before
    → patch_jump_to c ip v ≡ some (record c { code = before ++ (be_bytes v ++ after) })
unfolding patch_jump_to
patch_jump_to-prefix c before after ip v e at =
    let room : ltb (ip + 3) (length c.code) ≡ true =
      rw e (lt→ltb _ _ (omega (arith, length-append {0} before (be_bytes 0 ++ after)))) in
    rw room (
      ap (λ code. some (record c { code = code }))
        (rw e (set_bytes-prefix before after 0 0 0 0 ip v at)))

module _ (c : Chunk) (op : Opcode) (position : Position) (body : List ℕ) where
  -- The chunk after a jump with a placeholder and the code that it jumps over.
  abbrev pub jumped : Chunk
  jumped = let c₁ = (emit_jump_placeholder c op position).0 in record c₁ { code = c₁.code ++ body }

  abbrev pub operand_ip : ℕ
  operand_ip = (emit_jump_placeholder c op position).1

  -- The address behind that code.
  abbrev pub jump_target : ℕ
  jump_target = length c.code + 5 + length body

  -- A forward jump that is emitted with a placeholder and patched behind its body targets the end
  -- of the body, and the code before it, its opcode and its body stay, in code below 2 ^ 32 bytes.
  pub patch_jump_here-placeholder :
      jump_target < 2 ^ 32
      → (patched : Chunk) × (patch_jump_here jumped operand_ip ≡ some patched)
        × (patched.code ≡ (c.code ++ to_byte op ∷ []) ++ (be_bytes jump_target ++ body))
        × (read_u32 patched operand_ip ≡ some jump_target)
  unfolding patch_jump_here emit_jump_placeholder write_op write_u32
  patch_jump_here-placeholder h =
      let before : List ℕ = c.code ++ to_byte op ∷ [] in
      let here : operand_ip ≡ length before =
        omega (arith, length-append {0} c.code (to_byte op ∷ [])) in
      let code : jumped.code ≡ before ++ (be_bytes 0 ++ body) =
        append_assoc before (be_bytes 0) body in
      let whole : length jumped.code ≡ jump_target = omega (
        arith,
        ap length code,
        length-append {0} before (be_bytes 0 ++ body),
        length-append {0} c.code (to_byte op ∷ []),
      ) in
      let target : as_u32 (length jumped.code) ≡ jump_target = omega (arith, whole) in
      (
        record jumped { code = before ++ (be_bytes jump_target ++ body) },
        rw target (patch_jump_to-prefix jumped before body operand_ip jump_target code here),
        refl,
        read_u32-prefix (record jumped { code = before ++ (be_bytes jump_target ++ body) }) before
            body jump_target operand_ip h here refl,
      )
