-- ===== src/Gts/Compiler/Jumps.antt =====
-- crates/night24-gts/src/bytecode/emit.rs: a jump that is emitted with a placeholder and patched when its
-- target is known.
use night.Gts.Compiler.Layout.{Jumps}
use night.Gts.Compiler.Laying.{done-eq, panicked_done}
use night.Gts.Chunk.Operands.{patch_jump_to-prefix}
use night.Gts.Compiler.Emission.{Shape, Fits, Emission, jump_over, Fits-before, sharpen, and_then}
use night.Gts.Compiler.{patched, done}
use night.Gts.Opcode.{Opcode, to_byte}
use night.Prelude.{
  ltb, Bool-cases, length, length-append, length-set, ℕ, ◌+◌, ◌≡◌, refl, sym, ap, ◌∙◌, inl, inr,
  some, List, ◌∷◌, ◌++◌, append_assoc, arith, [], ◌^◌, ◌<◌, subst,
}
use night.Gts.Chunk.{
  Chunk, set_bytes, patch_jump_to, Position, be_bytes, emit_jump_placeholder, write_op, write_u32,
  as_u32,
}

-- The chunk with a target in the place of a placeholder behind `c₀`.
abbrev pub with_jump : Chunk → Chunk → Opcode → ℕ → List ℕ → Chunk
with_jump c c₀ op v rest = record c { code = c₀.code ++ ((to_byte op ∷ be_bytes v) ++ rest) }

pub patch-with_jump :
    (c c₀ : Chunk) (op : Opcode) (rest : List ℕ) (ip v : ℕ)
    → c.code ≡ c₀.code ++ ((to_byte op ∷ be_bytes 0) ++ rest)
    → ip ≡ length c₀.code + 1
    → patch_jump_to c ip v ≡ some (with_jump c c₀ op v rest)
patch-with_jump c c₀ op rest ip v e at =
    let before : List ℕ = c₀.code ++ to_byte op ∷ [] in
    patch_jump_to-prefix c before rest ip v
      (e ∙ sym (append_assoc c₀.code (to_byte op ∷ []) (be_bytes 0 ++ rest)))
      (omega (arith, at, length-append {0} c₀.code (to_byte op ∷ [])))
    ∙ ap (λ k. some (record c { code = k }))
        (append_assoc c₀.code (to_byte op ∷ []) (be_bytes v ++ rest))

pub patched-with_jump :
    (c c₀ c' : Chunk) (op : Opcode) (rest : List ℕ) (ip v : ℕ)
    → c.code ≡ c₀.code ++ ((to_byte op ∷ be_bytes 0) ++ rest)
    → ip ≡ length c₀.code + 1
    → patched (patch_jump_to c ip v) ≡ done c'
    → with_jump c c₀ op v rest ≡ c'
patched-with_jump c c₀ c' op rest ip v e at h =
    done-eq _ _ (rw (patch-with_jump c c₀ op rest ip v e at) at h)

pub length-set_bytes : (code : List ℕ) (ip v : ℕ) → length (set_bytes code ip v) ≡ length code
length-set_bytes code ip v = rw (length-set, length-set, length-set, length-set)

pub patched-Fits :
    (c c' : Chunk) (ip v : ℕ) → patched (patch_jump_to c ip v) ≡ done c' → Fits c' → Fits c
unfolding patch_jump_to
patched-Fits c c' ip v h (small, room) = elim (Bool-cases (ltb (ip + 3) (length c.code))) [
  | inl t ↦
      let same : record c { code = set_bytes c.code ip v } ≡ c' = done-eq _ _ (rw t at h) in
      (
        omega (arith, small, ap (λ d. length d.code) same, length-set_bytes c.code ip v),
        omega (arith, room, ap (λ d. length d.constants) same),
      )
  | inr f ↦ absurd (panicked_done c' (rw f at h))
]

module _ (c : Chunk) (op : Opcode) (pos : Position) where
  abbrev pub placed : Chunk
  placed = (emit_jump_placeholder c op pos).0

  pub placed-code : placed.code ≡ c.code ++ (to_byte op ∷ be_bytes 0)
  unfolding emit_jump_placeholder write_op write_u32
  placed-code = append_assoc c.code (to_byte op ∷ []) (be_bytes 0)

  pub length-placed : length placed.code ≡ length c.code + 5
  length-placed = ap length placed-code ∙ length-append c.code (to_byte op ∷ be_bytes 0)

  pub placed-pool : (placed.constants ≡ c.constants) × (placed.const_index ≡ c.const_index)
  unfolding emit_jump_placeholder write_op write_u32
  placed-pool = (refl, refl)

  -- The address of the operand.
  pub placed-ip : Fits placed → (emit_jump_placeholder c op pos).1 ≡ length c.code + 1
  unfolding emit_jump_placeholder write_op write_u32
  placed-ip (small, room) = omega (
    arith,
    small,
    length-append {0} (c.code ++ to_byte op ∷ []) (be_bytes 0),
    length-append {0} c.code (to_byte op ∷ []),
  )

  pub Fits-placed : Fits placed → Fits c
  Fits-placed (small, room) =
      (omega (arith, small, length-placed), omega (arith, room, ap length placed-pool.0))

-- A chunk with a jump that waits for its target, behind another.
pub record Opened (c s : Chunk) (op : Opcode) (ip : ℕ) : Type 0 where
  pub code_eq : s.code ≡ c.code ++ (to_byte op ∷ be_bytes 0)
  pub pool_eq : s.constants ≡ c.constants
  pub index_eq : s.const_index ≡ c.const_index
  pub ip_eq : Fits s → ip ≡ length c.code + 1

pub placed-Opened :
    (c : Chunk) (op : Opcode) (pos : Position)
    → Opened c (placed c op pos) op (emit_jump_placeholder c op pos).1
placed-Opened c op pos = record {
  code_eq = placed-code c op pos;
  pool_eq = (placed-pool c op pos).0;
  index_eq = (placed-pool c op pos).1;
  ip_eq = placed-ip c op pos;
}

module _ (c s : Chunk) (op : Opcode) (ip : ℕ) (opened : Opened c s op ip) where
  pub body-code :
      (d : Chunk) (P : Shape) (body : Emission s d P)
      → d.code ≡ c.code ++ ((to_byte op ∷ be_bytes 0) ++ body.bytes)
  body-code d P body =
      body.code_eq
      ∙ (ap (λ k. k ++ body.bytes) opened.code_eq
          ∙ append_assoc c.code (to_byte op ∷ be_bytes 0) body.bytes)

  -- The body with its jump, and this target.
  pub aimed :
      (d : Chunk) (P : Shape) (v : ℕ) (body : Emission s d P)
      → v < 2 ^ 32
      → Emission c
          (with_jump d c op v body.bytes)
          (λ whole p q. Jumps whole op p v × P whole (p + 5) q)
  aimed d P v body lt =
      jump_over c s d (with_jump d c op v body.bytes) op v P lt
        (ap length opened.code_eq ∙ length-append c.code (to_byte op ∷ be_bytes 0)) opened.pool_eq
        opened.index_eq body refl refl refl

  pub length-aimed :
      (d : Chunk) (P : Shape) (v : ℕ) (body : Emission s d P)
      → length (with_jump d c op v body.bytes).code ≡ length d.code
  length-aimed d P v body = omega (
    arith,
    ap length (body-code d P body),
    length-append {0} c.code ((to_byte op ∷ be_bytes 0) ++ body.bytes),
    length-append {0} c.code ((to_byte op ∷ be_bytes v) ++ body.bytes),
  )

  -- A jump over a body, to its end.
  pub forward :
      (d c' : Chunk) (P : Shape)
      → (Fits d → Emission s d P)
      → patched (patch_jump_to d ip (as_u32 (length d.code))) ≡ done c'
      → Fits c'
      → Emission c c' (λ whole p q. Jumps whole op p q × P whole (p + 5) q)
  forward d c' P f h fits =
      let (small, room) = patched-Fits d c' _ _ h fits in
      let body : Emission s d P = f (small, room) in
      let v : ℕ = as_u32 (length d.code) in
      let d' : Chunk = with_jump d c op v body.bytes in
      let target : v ≡ length d'.code = omega (arith, small, length-aimed d P v body) in
      let same : d' ≡ c' =
        patched-with_jump d c c' op body.bytes ip v (body-code d P body)
          (opened.ip_eq (Fits-before s d P body (small, room))) h in
      subst (λ x. Emission c x (λ whole p q. Jumps whole op p q × P whole (p + 5) q)) same
        (sharpen c d' _ _
          (λ whole (jump, rest). (subst (Jumps whole op (length c.code)) target jump, rest))
          (aimed d P v body (omega arith)))

-- A jump, a body, a jump to the end, and the code that the first jump goes to.
abbrev pub Either : Opcode → Shape → Shape → Shape
Either op P Q whole p q =
    (n : ℕ) × (Jumps whole op p (n + 5) × P whole (p + 5) n)
    × (Jumps whole Opcode.jump n q × Q whole (n + 5) q)

module _ (c s : Chunk) (op : Opcode) (ip : ℕ) (opened : Opened c s op ip) (d : Chunk) (P : Shape)
    (pos : Position) where
  abbrev closed : Chunk
  closed = placed d Opcode.jump pos

  abbrev tail : List ℕ
  tail = to_byte Opcode.jump ∷ be_bytes 0

  closed-code :
      (body : Emission s d P)
      → closed.code ≡ c.code ++ ((to_byte op ∷ be_bytes 0) ++ (body.bytes ++ tail))
  closed-code body =
      placed-code d Opcode.jump pos
      ∙ (ap (λ k. k ++ tail) (body-code c s op ip opened d P body)
          ∙ (append_assoc c.code ((to_byte op ∷ be_bytes 0) ++ body.bytes) tail
              ∙ ap (λ k. c.code ++ k) (append_assoc (to_byte op ∷ be_bytes 0) body.bytes tail)))

  -- Patching the first jump and emitting the second can change places.
  exchanged :
      (c₅ : Chunk) (v : ℕ) (body : Emission s d P)
      → ip ≡ length c.code + 1
      → patched (patch_jump_to closed ip v) ≡ done c₅
      → Fits c₅
      → Opened
          (with_jump d c op v body.bytes)
          c₅
          Opcode.jump
          (emit_jump_placeholder d Opcode.jump pos).1
  exchanged c₅ v body at h fits =
      let same : with_jump closed c op v (body.bytes ++ tail) ≡ c₅ =
        patched-with_jump closed c c₅ op (body.bytes ++ tail) ip v (closed-code body) at h in
      record {
        code_eq =
            ap (λ x. x.code) (sym same)
            ∙ sym (
                append_assoc c.code ((to_byte op ∷ be_bytes v) ++ body.bytes) tail
                ∙ ap (λ k. c.code ++ k) (append_assoc (to_byte op ∷ be_bytes v) body.bytes tail));
        pool_eq = ap (λ x. x.constants) (sym same) ∙ (placed-pool d Opcode.jump pos).0;
        index_eq = ap (λ x. x.const_index) (sym same) ∙ (placed-pool d Opcode.jump pos).1;
        ip_eq = λ fits'.
            placed-ip d Opcode.jump pos (patched-Fits closed c₅ ip v h fits)
            ∙ ap (λ n. n + 1) (sym (length-aimed c s op ip opened d P v body));
      }

  pub either :
      (c₅ e c' : Chunk) (Q : Shape)
      → (Fits d → Emission s d P)
      → patched (patch_jump_to closed ip (as_u32 (length closed.code))) ≡ done c₅
      → (Fits e → Emission c₅ e Q)
      → patched
          (patch_jump_to e (emit_jump_placeholder d Opcode.jump pos).1 (as_u32 (length e.code)))
        ≡ done c'
      → Fits c'
      → Emission c c' (Either op P Q)
  either c₅ e c' Q f h g k fits =
      let fits_e : Fits e = patched-Fits e c' _ _ k fits in
      let fits₅ : Fits c₅ = Fits-before c₅ e Q (g fits_e) fits_e in
      let (small, room) = patched-Fits closed c₅ _ _ h fits₅ in
      let fits_d : Fits d = Fits-placed d Opcode.jump pos (small, room) in
      let body : Emission s d P = f fits_d in
      let v : ℕ = as_u32 (length closed.code) in
      let w : Chunk = with_jump d c op v body.bytes in
      let target : v ≡ length w.code + 5 =
        omega (
          arith,
          small,
          length-placed d Opcode.jump pos,
          length-aimed c s op ip opened d P v body,
        ) in
      let at : ip ≡ length c.code + 1 = opened.ip_eq (Fits-before s d P body fits_d) in
      and_then c w c' _ _
        (sharpen c w _ (λ whole p q. Jumps whole op p (q + 5) × P whole (p + 5) q)
          (λ whole (jump, rest). (subst (Jumps whole op (length c.code)) target jump, rest))
          (aimed c s op ip opened d P v body (omega arith)))
        (forward w c₅ Opcode.jump _ (exchanged c₅ v body at h fits₅) e c' Q g k fits)
