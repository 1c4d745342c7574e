-- ===== src/Gts/Compiler/Growth.antt =====
-- crates/night24-gts/src/bytecode/emit.rs and chunk.rs: no emission makes the code shorter, and a jump that
-- was emitted can be patched.
use night.Gts.Interp.Runs.{u16_bytes}
use night.Gts.Compiler.Conditionals.{slot}
use night.Gts.Compiler.Emission.{operand}
use night.Gts.Compiler.Jumps.{length-set_bytes}
use night.Gts.Opcode.{Opcode, to_byte}
use night.Gts.Compiler.{Compiled, done, ◌>>!◌, patched, emit_op}
use night.Prelude.{
  lt→ltb, Option-cases, length, length-append, ℕ, ◌+◌, ◌≤◌, ◌<◌, ◌≡◌, refl, ap, inl, inr, Option,
  none, some, ◌∷◌, ◌++◌, arith, [],
}
use night.Gts.Chunk.{
  Chunk, patch_jump_to, add_keyed, add_constant, write_op, emit_jump_placeholder, Object, write_u16,
  set_bytes, ConstKey, from_object, Position, scan, find_key,
}

-- A chunk whose code is not shorter.
abbrev pub Grows : Chunk → Compiled → Type 0
Grows c r = (d : Chunk) × (r ≡ done d) × (length c.code ≤ length d.code)

pub bind-Grows :
    (c : Chunk) (r : Compiled) (f : Chunk → Compiled)
    → Grows c r
    → ((d : Chunk) → length c.code ≤ length d.code → Grows c (f d))
    → Grows c (r >>! f)
bind-Grows c r f (d, e, le) h = rw e (h d le)

pub later : (c d : Chunk) (r : Compiled) → length c.code ≤ length d.code → Grows d r → Grows c r
later c d r le (e, same, le') = (e, same, omega arith)

pub patched-Grows :
    (c : Chunk) (ip v : ℕ) → ip + 3 < length c.code → Grows c (patched (patch_jump_to c ip v))
unfolding patch_jump_to
patched-Grows c ip v h =
    rw (lt→ltb (ip + 3) (length c.code) h, patch_jump_to)
      (record c { code = set_bytes c.code ip v }, refl, omega (arith, length-set_bytes c.code ip v))

pub add_keyed-code :
    (c : Chunk) (v : Object) (k : Option ConstKey) → (add_keyed c v k).0.code ≡ c.code
unfolding add_keyed
add_keyed-code c v none = elim (Option-cases (scan v 0 c.constants)) [
  | inl n ↦ rw (n, add_keyed)
  | inr (i, f) ↦ rw (f, add_keyed)
]
add_keyed-code c v (some key) = elim (Option-cases (find_key key c.const_index)) [
  | inl n ↦ rw (n, add_keyed)
  | inr (i, f) ↦ rw (f, add_keyed)
]

pub add_constant-code : (c : Chunk) (v : Object) → (add_constant c v).0.code ≡ c.code
unfolding add_constant
add_constant-code c v = add_keyed-code c v (from_object v)

pub length-operand :
    (c : Chunk) (op : Opcode) (v : Object) (pos : Position)
    → length (operand c op v pos).code ≡ length c.code + 3
unfolding write_op write_u16
length-operand c op v pos = omega (
  arith,
  ap length (add_constant-code c v),
  length-append {0} ((add_constant c v).0.code ++ to_byte op ∷ []) (u16_bytes (add_constant c v).1),
  length-append {0} (add_constant c v).0.code (to_byte op ∷ []),
)

pub length-emit_op :
    (c : Chunk) (op : Opcode) (pos : Position) → length (emit_op c op pos).code ≡ length c.code + 1
unfolding write_op
length-emit_op c op pos = length-append c.code (to_byte op ∷ [])

pub slot-le : (c : Chunk) (op : Opcode) (pos : Position) → slot c op pos ≤ length c.code + 1
unfolding emit_jump_placeholder write_op
slot-le c op pos = omega (arith, length-append {0} c.code (to_byte op ∷ []))

pub emitted : (c d : Chunk) → length c.code ≤ length d.code → Grows c (done d)
emitted c d le = (d, refl, le)
