-- ===== src/Gts/Compiler/Emission.antt =====
-- crates/night24-gts/src/bytecode/emit.rs and chunk.rs: what an emission adds to a chunk. It is said of the
-- bytes where they stand in the end, when the jumps before them may have been patched.
use night.Gts.Compiler.Layout.{Plain, Names, Jumps}
use night.Gts.Compiler.{emit_op}
use night.Gts.Chunk.Pool.{IsExact, IsKeyed, add_constant-grows, add_constant-IsExact}
use night.Gts.Opcode.{Opcode, to_byte}
use night.Gts.Interp.Runs.{HasCode-left, HasCode-right, HasCode, u16_bytes}
use night.Prelude.{
  length, get_elem?, length-append, get_elem?-kept, ℕ, ◌+◌, ◌^◌, ◌≤◌, ◌<◌, ◌≡◌, refl, sym, ap, ◌∙◌,
  some, List, ◌∷◌, ◌++◌, append-nil, append_assoc, arith, [], subst,
}
use night.Gts.Chunk.{Chunk, Object, write_op, Position, write_u16, add_constant, be_bytes}

-- The sizes that the operands can name.
abbrev pub Fits : Chunk → Type 0
Fits c = (length c.code < 2 ^ 32) × (length c.constants ≤ 2 ^ 16)

abbrev pub Kept : List Object → List Object → Type 0
Kept before after = (i : ℕ) (w : Object) → get_elem? before i ≡ some w → get_elem? after i ≡ some w

abbrev pub Shape : Type 1
Shape = Chunk → ℕ → ℕ → Type 0

-- From one chunk to another bytes and constants are added, and they have this shape in every chunk that
-- has the bytes at the same place and keeps the constants.
pub record Emission (c c' : Chunk) (P : Shape) : Type 0 where
  pub bytes : List ℕ
  pub more : List Object
  pub code_eq : c'.code ≡ c.code ++ bytes
  pub constants_eq : c'.constants ≡ c.constants ++ more
  pub exact : IsExact c → IsExact c'
  pub shape :
      IsExact c
      → (whole : Chunk) → HasCode whole.code (length c.code) bytes
      → Kept c'.constants whole.constants
      → P whole (length c.code) (length c'.code)

pub Fits-before : (c c' : Chunk) (P : Shape) → Emission c c' P → Fits c' → Fits c
Fits-before c c' P e (small, room) = (
  omega (arith, small, ap length e.code_eq, length-append {0} c.code e.bytes),
  omega (arith, room, ap length e.constants_eq, length-append {0} c.constants e.more),
)

pub sharpen :
    (c c' : Chunk) (P Q : Shape)
    → ((whole : Chunk)
        → P whole (length c.code) (length c'.code)
        → Q whole (length c.code) (length c'.code))
    → Emission c c' P
    → Emission c c' Q
sharpen c c' P Q f e = record {
  bytes = e.bytes;
  more = e.more;
  code_eq = e.code_eq;
  constants_eq = e.constants_eq;
  exact = e.exact;
  shape = λ exact whole code kept. f whole (e.shape exact whole code kept);
}

pub weaken :
    (c c' : Chunk) (P Q : Shape)
    → ((whole : Chunk) (p q : ℕ) → P whole p q → Q whole p q)
    → Emission c c' P
    → Emission c c' Q
weaken c c' P Q f = sharpen c c' P Q (λ whole. f whole (length c.code) (length c'.code))

-- One after the other.
abbrev pub Then : Shape → Shape → Shape
Then P Q whole p q = (m : ℕ) × P whole p m × Q whole m q

pub and_then :
    (c d e : Chunk) (P Q : Shape) → Emission c d P → Emission d e Q → Emission c e (Then P Q)
and_then c d e P Q f g = record {
  bytes = f.bytes ++ g.bytes;
  more = f.more ++ g.more;
  code_eq = g.code_eq ∙ (ap (λ k. k ++ g.bytes) f.code_eq ∙ append_assoc c.code f.bytes g.bytes);
  constants_eq =
      g.constants_eq
      ∙ (ap (λ k. k ++ g.more) f.constants_eq ∙ append_assoc c.constants f.more g.more);
  exact = λ x. g.exact (f.exact x);
  shape = λ exact whole code kept. (
    length d.code,
    f.shape exact whole (HasCode-left whole.code (length c.code) f.bytes g.bytes code)
        (λ i w h. kept i w (rw (g.constants_eq) (get_elem?-kept d.constants g.more i w h))),
    g.shape (f.exact exact) whole
        (HasCode-right whole.code (length c.code) (length d.code) f.bytes g.bytes
          (rw (f.code_eq) (length-append c.code f.bytes)) code)
        kept,
  );
}

abbrev pub nothing : (c : Chunk) → Emission c c (λ whole p q. q ≡ p)
nothing c = record {
  bytes = [];
  more = [];
  code_eq = sym (append-nil c.code);
  constants_eq = sym (append-nil c.constants);
  exact = λ x. x;
  shape = λ exact whole code kept. refl;
}

pub emit_op-Emission :
    (c : Chunk) (op : Opcode) (pos : Position)
    → Emission c (emit_op c op pos) (λ whole p q. (q ≡ p + 1) × Plain whole op p)
unfolding write_op
emit_op-Emission c op pos = record {
  bytes = to_byte op ∷ [];
  more = [];
  code_eq = refl;
  constants_eq = sym (append-nil c.constants);
  exact = λ x. x;
  shape = λ exact whole code kept. (length-append c.code (to_byte op ∷ []), code);
}

-- `emit_value_constant` and `emit_string_operand`.
abbrev pub operand : Chunk → Opcode → Object → Position → Chunk
operand c op v pos = let (c₁, idx) = add_constant c v in write_u16 (write_op c₁ op pos).0 idx

pub operand-Emission :
    (c : Chunk) (op : Opcode) (v : Object) (pos : Position)
    → IsKeyed v
    → length (operand c op v pos).constants ≤ 2 ^ 16
    → Emission c (operand c op v pos) (λ whole p q. (q ≡ p + 3) × Names whole op p v)
unfolding write_op write_u16
operand-Emission c op v pos keyed room =
    let (code, (more, constants)) = add_constant-grows c v keyed in
    let idx : ℕ = (add_constant c v).1 in
    let bytes : List ℕ = to_byte op ∷ u16_bytes idx in
    let code_eq : (operand c op v pos).code ≡ c.code ++ bytes =
      append_assoc (add_constant c v).0.code (to_byte op ∷ []) (u16_bytes idx)
      ∙ ap (λ k. k ++ bytes) code in
    record {
      bytes = bytes;
      more = more;
      code_eq = code_eq;
      constants_eq = constants;
      exact = λ x. (add_constant-IsExact c v keyed x room).1.1;
      shape = λ exact whole code kept.
          let (at, (small, _)) = add_constant-IsExact c v keyed exact room in
          (rw code_eq (length-append c.code bytes), (idx, small, kept idx v at, code));
    }

-- A jump with its target, over what is emitted from `c₁` to `c₂`: `c₃` has the target in the place of the
-- placeholder.
pub jump_over :
    (c c₁ c₂ c₃ : Chunk) (op : Opcode) (target : ℕ) (P : Shape)
    → target < 2 ^ 32
    → length c₁.code ≡ length c.code + 5
    → c₁.constants ≡ c.constants
    → c₁.const_index ≡ c.const_index
    → (body : Emission c₁ c₂ P) → c₃.code ≡ c.code ++ ((to_byte op ∷ be_bytes target) ++ body.bytes)
    → c₃.constants ≡ c₂.constants
    → c₃.const_index ≡ c₂.const_index
    → Emission c c₃ (λ whole p q. Jumps whole op p target × P whole (p + 5) q)
jump_over c c₁ c₂ c₃ op target P lt long same index body code_eq same' index' =
    let jump : List ℕ = to_byte op ∷ be_bytes target in
    let start : IsExact c → IsExact c₁ = λ x. rw (same, index) x in
    let size : length c₂.code ≡ length c₃.code = omega (
      arith,
      long,
      ap length code_eq,
      ap length body.code_eq,
      length-append {0} c₁.code body.bytes,
      length-append {0} c.code (jump ++ body.bytes),
    ) in
    record {
      bytes = jump ++ body.bytes;
      more = body.more;
      code_eq = code_eq;
      constants_eq = same' ∙ (body.constants_eq ∙ ap (λ k. k ++ body.more) same);
      exact = λ x. rw (same', index') (body.exact (start x));
      shape = λ exact whole code kept.
          let laid : P whole (length c₁.code) (length c₂.code) =
            body.shape (start exact) whole
              (HasCode-right whole.code (length c.code) (length c₁.code) jump body.bytes long code)
              (λ i w h. kept i w (rw same' h)) in
          (
            (lt, HasCode-left whole.code (length c.code) jump body.bytes code),
            subst (λ n. P whole n (length c₃.code)) long
                (subst (λ n. P whole (length c₁.code) n) size laid),
          );
    }
