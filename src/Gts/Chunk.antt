-- ===== src/Gts/Chunk.antt =====
-- crates/night24-gts/src/bytecode/chunk.rs and emit.rs: the instruction stream, the constant pool and
-- the position table. The tables of prototypes, classes, types and protected regions are not
-- modelled: no method here touches them. A `u8` is a number below 256; `none` is a panic.
pub mod Operands
pub mod Positions
pub mod Constants
pub mod Pool
use night.Gts.Opcode.{Opcode, to_byte}
use night.Text.{Text, text_eq}
use night.Prelude.{
  Result, ok, err, not, ltb, ◌==◌, if◌then◌else◌, length, get_elem?, set, ℕ, zero, suc, ◌+◌, ◌-◌,
  ◌*◌, ◌/◌, ◌%◌, ◌^◌, Bool, true, false, ◌&&◌, Option, none, some, List, ◌∷◌, ◌++◌, ◌>>=◌, [],
}

-- `Position` of ast/mod.rs.
pub record Position : Type 0 where
  pub file : Text
  pub line : ℕ
  pub col : ℕ
  pub offset : ℕ

-- `Position::default()`
abbrev pub no_position : Position
no_position = record { file = []; line = 0; col = 0; offset = 0 }

-- `Object` of object/value.rs. A number is the bits of an `f64`; what lies behind a pointer is the
-- number of its allocation.
pub data Object : Type 0 where
  number : ℕ → Object
  string : Text → Object
  boolean : Bool → Object
  null undefined : Object
  array hash function instance_of class promise closure : ℕ → Object
  builtin error returned date regexp map_object set_object : ℕ → Object

-- `f64::is_nan` and `==` by the bits of IEEE 754.
unfoldable pub is_nan : ℕ → Bool
is_nan bits = (bits / 2 ^ 52 % 2 ^ 11) == (2 ^ 11 - 1) && not ((bits % 2 ^ 52) == 0)

-- -0.0 becomes 0.0.
unfoldable pub canonical : ℕ → ℕ
canonical bits = if bits == 0x8000000000000000 then 0 else bits

unfoldable pub f64_eq : ℕ → ℕ → Bool
f64_eq a b = not (is_nan a) && not (is_nan b) && canonical a == canonical b

abbrev pub bool_eq : Bool → Bool → Bool
bool_eq true b = b
bool_eq false b = not b

-- `PartialEq for Object`
unfoldable pub object_eq : Object → Object → Bool
object_eq (number a) (number b) = f64_eq a b
object_eq (string a) (string b) = text_eq a b
object_eq (boolean a) (boolean b) = bool_eq a b
object_eq null null = true
object_eq undefined undefined = true
object_eq (array a) (array b) = a == b
object_eq (hash a) (hash b) = a == b
object_eq (function a) (function b) = a == b
object_eq (instance_of a) (instance_of b) = a == b
object_eq (class a) (class b) = a == b
object_eq (promise a) (promise b) = a == b
object_eq (closure a) (closure b) = a == b
object_eq _ _ = false

pub data ConstKey : Type 0 where
  number_bits : ℕ → ConstKey
  key_string : Text → ConstKey
  key_bool : Bool → ConstKey
  key_null key_undefined : ConstKey

-- The derived `PartialEq for ConstKey`
unfoldable pub key_eq : ConstKey → ConstKey → Bool
key_eq (number_bits a) (number_bits b) = a == b
key_eq (key_string a) (key_string b) = text_eq a b
key_eq (key_bool a) (key_bool b) = bool_eq a b
key_eq key_null key_null = true
key_eq key_undefined key_undefined = true
key_eq _ _ = false

-- `ConstKey::from_object`
unfoldable pub from_object : Object → Option ConstKey
from_object (number n) = if is_nan n then none else some (number_bits (canonical n))
from_object (string s) = some (key_string s)
from_object (boolean b) = some (key_bool b)
from_object null = some key_null
from_object undefined = some key_undefined
from_object _ = none

pub record LineEntry : Type 0 where
  pub ip : ℕ
  pub pos : Position

pub record Chunk : Type 0 where
  pub code : List ℕ
  pub constants : List Object
  pub const_index : List (ConstKey × ℕ)
  pub lines : List LineEntry

-- `Chunk::new()`
abbrev pub empty_chunk : Chunk
empty_chunk = record { code = []; constants = []; const_index = []; lines = [] }

-- `as u16` and `as u32`
abbrev pub as_u16 : ℕ → ℕ
as_u16 n = n % 2 ^ 16

abbrev pub as_u32 : ℕ → ℕ
as_u32 n = n % 2 ^ 32

unfoldable pub write_op : Chunk → Opcode → Position → Chunk × ℕ
write_op c op position =
    let start = as_u32 (length c.code) in
    (
      record c {
        code = c.code ++ to_byte op ∷ [];
        lines = c.lines ++ record { ip = start; pos = position } ∷ [];
      },
      start,
    )

unfoldable pub write_byte : Chunk → ℕ → Chunk
write_byte c b = record c { code = c.code ++ b ∷ [] }

unfoldable pub write_u16 : Chunk → ℕ → Chunk
write_u16 c v = record c { code = c.code ++ (v / 2 ^ 8 % 256) ∷ (v % 256) ∷ [] }

-- `to_be_bytes` too.
abbrev pub be_bytes : ℕ → List ℕ
be_bytes v = (v / 2 ^ 24 % 256) ∷ (v / 2 ^ 16 % 256) ∷ (v / 2 ^ 8 % 256) ∷ (v % 256) ∷ []

unfoldable pub write_u32 : Chunk → ℕ → Chunk
write_u32 c v = record c { code = c.code ++ be_bytes v }

-- `(hi << 8) | lo` of bytes is a sum.
unfoldable pub read_u16 : Chunk → ℕ → Option ℕ
read_u16 c ip = do hi ← get_elem? c.code ip; lo ← get_elem? c.code (ip + 1); some (hi * 2 ^ 8 + lo)

unfoldable pub read_u32 : Chunk → ℕ → Option ℕ
read_u32 c ip = do
  b0 ← get_elem? c.code ip
  b1 ← get_elem? c.code (ip + 1)
  b2 ← get_elem? c.code (ip + 2)
  b3 ← get_elem? c.code (ip + 3)
  some (b0 * 2 ^ 24 + b1 * 2 ^ 16 + b2 * 2 ^ 8 + b3)

-- `HashMap::get` and `HashMap::insert` of a key that is not there.
unfoldable pub find_key : ConstKey → List (ConstKey × ℕ) → Option ℕ
find_key k [] = none
find_key k ((j, i) ∷ rows) = if key_eq j k then some i else find_key k rows

-- The linear scan from index `i` on.
unfoldable pub scan : Object → ℕ → List Object → Option ℕ
scan value i [] = none
scan value i (existing ∷ rest) =
    let next = scan value (i + 1) rest in if object_eq existing value then some (as_u16 i) else next

-- The two paths of `add_constant`, by the key.
unfoldable pub add_keyed : Chunk → Object → Option ConstKey → Chunk × ℕ
add_keyed c value (some key) = elim (find_key key c.const_index) [
  | some idx ↦ (c, idx)
  | none ↦
      let idx = as_u16 (length c.constants) in
      (
        record c {
          constants = c.constants ++ value ∷ [];
          const_index = (key, idx) ∷ c.const_index;
        },
        idx,
      )
]
add_keyed c value none = elim (scan value 0 c.constants) [
  | some idx ↦ (c, idx)
  | none ↦ (record c { constants = c.constants ++ value ∷ [] }, as_u16 (length c.constants))
]

unfoldable pub add_constant : Chunk → Object → Chunk × ℕ
add_constant c value = add_keyed c value (from_object value)

-- `binary_search_by_key` on a table sorted by `ip`: the place of the entry with the key, or where it
-- would stand.
unfoldable pub binary_search : ℕ → ℕ → List LineEntry → Result ℕ ℕ
binary_search target i [] = err i
binary_search target i (entry ∷ entries) =
    let next = binary_search target (i + 1) entries in
    if entry.ip == target then ok i else if ltb entry.ip target then next else err i

abbrev pub entry_position : List LineEntry → ℕ → Position
entry_position entries i = elim (get_elem? entries i) [ none ↦ no_position | some e ↦ e.pos ]

-- The position at the place found, `insertion - 1` on a miss.
unfoldable pub found_position : List LineEntry → Result ℕ ℕ → Position
found_position entries (ok idx) = entry_position entries idx
found_position entries (err zero) = no_position
found_position entries (err (suc n)) = entry_position entries n

unfoldable pub position_at : Chunk → ℕ → Position
position_at c ip = found_position c.lines (binary_search (as_u32 ip) 0 c.lines)

-- emit.rs
unfoldable pub emit_string_operand : Chunk → Opcode → Text → Position → Chunk
emit_string_operand c op value position =
    let (c₁, idx) = add_constant c (string value) in write_u16 (write_op c₁ op position).0 idx

unfoldable pub emit_const : Chunk → ℕ → Position → Chunk
emit_const c idx position = write_u16 (write_op c Opcode.const position).0 idx

-- `emit_value_constant`; it never fails.
unfoldable pub emit_value_constant : Chunk → Object → Position → Chunk
emit_value_constant c value position =
    let (c₁, idx) = add_constant c value in emit_const c₁ idx position

unfoldable pub emit_jump_placeholder : Chunk → Opcode → Position → Chunk × ℕ
emit_jump_placeholder c op position =
    let c₁ = (write_op c op position).0 in (write_u32 c₁ 0, as_u32 (length c₁.code))

abbrev pub set_bytes : List ℕ → ℕ → ℕ → List ℕ
set_bytes code ip v =
    set
      (set (set (set code ip (v / 2 ^ 24 % 256)) (ip + 1) (v / 2 ^ 16 % 256)) (ip + 2)
        (v / 2 ^ 8 % 256))
      (ip + 3) (v % 256)

unfoldable pub patch_jump_to : Chunk → ℕ → ℕ → Option Chunk
patch_jump_to c ip target =
    if ltb (ip + 3) (length c.code)
    then some (record c { code = set_bytes c.code ip target })
    else none

unfoldable pub patch_jump_here : Chunk → ℕ → Option Chunk
patch_jump_here c ip = patch_jump_to c ip (as_u32 (length c.code))
