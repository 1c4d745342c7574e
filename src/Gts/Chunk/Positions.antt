-- ===== src/Gts/Chunk/Positions.antt =====
-- The position table of chunk.rs, for chunks written an instruction at a time.
use night.Gts.Chunk.{
  Chunk, LineEntry, write_byte, binary_search, entry_position, position_at, Position, write_op,
  found_position, empty_chunk, as_u32,
}
use night.Gts.Opcode.{Opcode, to_byte}
use night.Prelude.{
  Result, ok, err, length, length-append, ℕ, zero, suc, ◌+◌, ◌^◌, ◌≤◌, ◌<◌, ◌≡◌, refl, ◌∙◌, List,
  ◌∷◌, ◌++◌, append-nil, append_assoc, arith, [],
}

-- An instruction: an opcode, its operand bytes and its position.
pub record Instruction : Type 0 where
  pub op : Opcode
  pub operands : List ℕ
  pub pos : Position

abbrev pub write_bytes : Chunk → List ℕ → Chunk
write_bytes c [] = c
write_bytes c (b ∷ bytes) = write_bytes (write_byte c b) bytes

abbrev pub assemble : Chunk → List Instruction → Chunk
assemble c [] = c
assemble c (ins ∷ program) =
    assemble (write_bytes (write_op c ins.op ins.pos).0 ins.operands) program

-- The number of bytes of a program.
abbrev pub size : List Instruction → ℕ
size [] = 0
size (ins ∷ program) = 1 + length ins.operands + size program

-- The entries of a program that starts at byte `n`.
abbrev entries : ℕ → List Instruction → List LineEntry
entries n [] = []
entries n (ins ∷ program) =
    record { ip = n; pos = ins.pos } ∷ entries (n + 1 + length ins.operands) program

write_bytes-code :
    (c : Chunk) (bytes : List ℕ) → length (write_bytes c bytes).code ≡ length c.code + length bytes
unfolding write_byte
write_bytes-code c [] = omega arith
write_bytes-code c (b ∷ bytes) =
    omega (arith, write_bytes-code (write_byte c b) bytes, length-append {0} c.code (b ∷ []))

write_bytes-lines : (c : Chunk) (bytes : List ℕ) → (write_bytes c bytes).lines ≡ c.lines
unfolding write_byte
write_bytes-lines c [] = refl
write_bytes-lines c (b ∷ bytes) = write_bytes-lines (write_byte c b) bytes

assemble-lines :
    (c : Chunk) (program : List Instruction)
    → length c.code + size program < 2 ^ 32
    → (assemble c program).lines ≡ c.lines ++ entries (length c.code) program
assemble-lines c [] h = rw append-nil
assemble-lines c (ins ∷ program) h =
    let c₁ : Chunk = (write_op c ins.op ins.pos).0 in
    let c₂ : Chunk = write_bytes c₁ ins.operands in
    let opcode : length c₁.code ≡ length c.code + 1 =
      unfold write_op in length-append c.code (to_byte ins.op ∷ []) in
    let long : length c₂.code ≡ length c.code + 1 + length ins.operands =
      omega (arith, opcode, write_bytes-code c₁ ins.operands) in
    let start : as_u32 (length c.code) ≡ length c.code = omega arith in
    let entry : LineEntry = record { ip = length c.code; pos = ins.pos } in
    let lines : c₂.lines ≡ c.lines ++ entry ∷ [] =
      write_bytes-lines c₁ ins.operands ∙ (unfold write_op in rw start) in
    assemble-lines c₂ program (omega (arith, long))
    ∙ rw (lines, long)
        (append_assoc c.lines (entry ∷ [])
          (entries (length c.code + 1 + length ins.operands) program))

-- What the search finds for byte `j` of an instruction at place `i`.
abbrev hit : ℕ → ℕ → Result ℕ ℕ
hit i zero = ok i
hit i (suc j) = err (i + 1)

search-head :
    (n i j t : ℕ) (ins : Instruction) (program : List Instruction)
    → t ≡ n + j
    → j ≤ length ins.operands
    → binary_search t i (entries n (ins ∷ program)) ≡ hit i j
unfolding binary_search
search-head n i zero t ins program e h = ground arith
search-head n i (suc j) t ins [] e h = ground arith
search-head n i (suc j) t ins (next ∷ program) e h = ground arith

binary_search-later :
    (n i t : ℕ) (ins : Instruction) (program : List Instruction)
    → n < t
    → binary_search t i (entries n (ins ∷ program))
      ≡ binary_search t (i + 1) (entries (n + 1 + length ins.operands) program)
unfolding binary_search
binary_search-later n i t ins program h = ground arith

size-append : (before after : List Instruction) → size (before ++ after) ≡ size before + size after
size-append [] after = omega arith
size-append (ins ∷ before) after = omega (arith, size-append before after)

search-entries :
    (before : List Instruction) (n i j t k : ℕ) (ins : Instruction) (after : List Instruction)
    → t ≡ n + size before + j
    → k ≡ i + length before
    → j ≤ length ins.operands
    → binary_search t i (entries n (before ++ ins ∷ after)) ≡ hit k j
search-entries [] n i j t k ins after e p h =
    let same : k ≡ i = omega arith in rw same (search-head n i j t ins after (omega arith) h)
search-entries (b ∷ before) n i j t k ins after e p h = ground (
  arith,
  binary_search-later n i t b (before ++ ins ∷ after),
  search-entries before (n + 1 + length b.operands) (i + 1) j t k ins after,
)

get_elem?-entries :
    (before : List Instruction) (n : ℕ) (ins : Instruction) (after : List Instruction)
    → entry_position (entries n (before ++ ins ∷ after)) (length before) ≡ ins.pos
get_elem?-entries [] n ins after = refl
get_elem?-entries (b ∷ before) n ins after =
    get_elem?-entries before (n + 1 + length b.operands) ins after

at_hit :
    (before : List Instruction) (ins : Instruction) (after : List Instruction) (j : ℕ)
    → found_position (entries 0 (before ++ ins ∷ after)) (hit (length before) j) ≡ ins.pos
unfolding found_position
at_hit before ins after zero = get_elem?-entries before 0 ins after
at_hit before ins after (suc j) =
    let e : length before + 1 ≡ suc (length before) = omega arith in
    rw e (get_elem?-entries before 0 ins after)

-- In a program below 2 ^ 32 bytes every byte of an instruction, the opcode and each operand byte,
-- has the position of that instruction.
pub position_at-assemble :
    (before : List Instruction) (ins : Instruction) (after : List Instruction) (j : ℕ)
    → size (before ++ ins ∷ after) < 2 ^ 32
    → j ≤ length ins.operands
    → position_at (assemble empty_chunk (before ++ ins ∷ after)) (size before + j) ≡ ins.pos
unfolding position_at
position_at-assemble before ins after j h le =
    let program : List Instruction = before ++ ins ∷ after in
    let lines : (assemble empty_chunk program).lines ≡ entries 0 program =
      assemble-lines empty_chunk program (omega arith) in
    let ip : as_u32 (size before + j) ≡ size before + j =
      omega (arith, size-append before (ins ∷ after)) in
    let found : binary_search (size before + j) 0 (entries 0 program) ≡ hit (length before) j =
      search-entries before 0 0 j (size before + j) (length before) ins after (omega arith)
        (omega arith) le in
    rw (lines, ip, found) (at_hit before ins after j)
