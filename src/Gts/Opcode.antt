-- ===== src/Gts/Opcode.antt =====
-- crates/night24-gts/src/bytecode/opcode.rs: the instruction set, its bytes and its names.
-- `In` and `Mod` are spelled `in_op` and `mod_op`.
pub mod Decode
pub mod Width
use night.Text.{Text, lit}
use night.Prelude.{◌==◌, if◌then◌else◌, ℕ, Option, none, some, List, ◌∷◌, []}

pub data Opcode : Type 0 where
  const pop dup add sub mul div mod_op pow concat bit_and bit_or bit_xor eq neq lt le gt : Opcode
  ge instance_of in_op and or not neg bit_not shl shr ushr identity load_global : Opcode
  store_global load_local store_local load_upvalue store_upvalue load_name store_name : Opcode
  assign_name load_this store_typed_name jump jump_if_false jump_if_true loop : Opcode
  super_method closure call return return_null push_arg call_spread new_object new_array : Opcode
  get_property set_property get_index set_index spread new_class define_method new : Opcode
  iter_keys iter_values len iter_next throw await to_string throw_match_error type_of : Opcode
  import_module export_name array_slice_from export_all wrap_resolved_promise : Opcode

-- `op as u8`, by the discriminants.
unfoldable pub to_byte : Opcode → ℕ
to_byte const = 0
to_byte pop = 1
to_byte dup = 2
to_byte add = 10
to_byte sub = 11
to_byte mul = 12
to_byte div = 13
to_byte mod_op = 14
to_byte pow = 15
to_byte concat = 16
to_byte bit_and = 17
to_byte bit_or = 18
to_byte bit_xor = 19
to_byte eq = 20
to_byte neq = 21
to_byte lt = 22
to_byte le = 23
to_byte gt = 24
to_byte ge = 25
to_byte instance_of = 26
to_byte in_op = 27
to_byte and = 30
to_byte or = 31
to_byte not = 32
to_byte neg = 33
to_byte bit_not = 34
to_byte shl = 35
to_byte shr = 36
to_byte ushr = 37
to_byte identity = 38
to_byte load_global = 40
to_byte store_global = 41
to_byte load_local = 42
to_byte store_local = 43
to_byte load_upvalue = 44
to_byte store_upvalue = 45
to_byte load_name = 46
to_byte store_name = 47
to_byte assign_name = 48
to_byte load_this = 49
to_byte store_typed_name = 55
to_byte jump = 50
to_byte jump_if_false = 51
to_byte jump_if_true = 52
to_byte loop = 53
to_byte super_method = 54
to_byte closure = 60
to_byte call = 61
to_byte return = 62
to_byte return_null = 63
to_byte push_arg = 64
to_byte call_spread = 65
to_byte new_object = 70
to_byte new_array = 71
to_byte get_property = 72
to_byte set_property = 73
to_byte get_index = 74
to_byte set_index = 75
to_byte spread = 76
to_byte new_class = 77
to_byte define_method = 78
to_byte new = 79
to_byte iter_keys = 80
to_byte iter_values = 81
to_byte len = 82
to_byte iter_next = 83
to_byte throw = 90
to_byte await = 91
to_byte to_string = 92
to_byte throw_match_error = 93
to_byte type_of = 94
to_byte import_module = 95
to_byte export_name = 96
to_byte array_slice_from = 97
to_byte export_all = 98
to_byte wrap_resolved_promise = 99

-- The arms of `from_byte`, in their order.
abbrev pub byte_table : List (ℕ × Opcode)
byte_table =
    (0, const)
    ∷ (1, pop)
    ∷ (2, dup)
    ∷ (10, add)
    ∷ (11, sub)
    ∷ (12, mul)
    ∷ (13, div)
    ∷ (14, mod_op)
    ∷ (15, pow)
    ∷ (16, concat)
    ∷ (17, bit_and)
    ∷ (18, bit_or)
    ∷ (19, bit_xor)
    ∷ (20, eq)
    ∷ (21, neq)
    ∷ (22, lt)
    ∷ (23, le)
    ∷ (24, gt)
    ∷ (25, ge)
    ∷ (26, instance_of)
    ∷ (27, in_op)
    ∷ (30, and)
    ∷ (31, or)
    ∷ (32, not)
    ∷ (33, neg)
    ∷ (34, bit_not)
    ∷ (35, shl)
    ∷ (36, shr)
    ∷ (37, ushr)
    ∷ (38, identity)
    ∷ (40, load_global)
    ∷ (41, store_global)
    ∷ (42, load_local)
    ∷ (43, store_local)
    ∷ (44, load_upvalue)
    ∷ (45, store_upvalue)
    ∷ (46, load_name)
    ∷ (47, store_name)
    ∷ (48, assign_name)
    ∷ (49, load_this)
    ∷ (55, store_typed_name)
    ∷ (50, jump)
    ∷ (51, jump_if_false)
    ∷ (52, jump_if_true)
    ∷ (53, loop)
    ∷ (54, super_method)
    ∷ (60, closure)
    ∷ (61, call)
    ∷ (62, return)
    ∷ (63, return_null)
    ∷ (64, push_arg)
    ∷ (65, call_spread)
    ∷ (70, new_object)
    ∷ (71, new_array)
    ∷ (72, get_property)
    ∷ (73, set_property)
    ∷ (74, get_index)
    ∷ (75, set_index)
    ∷ (76, spread)
    ∷ (77, new_class)
    ∷ (78, define_method)
    ∷ (79, new)
    ∷ (80, iter_keys)
    ∷ (81, iter_values)
    ∷ (82, len)
    ∷ (83, iter_next)
    ∷ (90, throw)
    ∷ (91, await)
    ∷ (92, to_string)
    ∷ (93, throw_match_error)
    ∷ (94, type_of)
    ∷ (95, import_module)
    ∷ (96, export_name)
    ∷ (97, array_slice_from)
    ∷ (98, export_all)
    ∷ (99, wrap_resolved_promise)
    ∷ []

-- A `match` on the first components.
unfoldable pub find_byte : ℕ → List (ℕ × Opcode) → Option Opcode
find_byte b [] = none
find_byte b ((n, op) ∷ rows) = if n == b then some op else find_byte b rows

unfoldable pub from_byte : ℕ → Option Opcode
unfolding find_byte
from_byte b = find_byte b byte_table

unfoldable pub name : Opcode → Text
name const = lit "CONST"
name pop = lit "POP"
name dup = lit "DUP"
name add = lit "ADD"
name sub = lit "SUB"
name mul = lit "MUL"
name div = lit "DIV"
name mod_op = lit "MOD"
name pow = lit "POW"
name concat = lit "CONCAT"
name bit_and = lit "BIT_AND"
name bit_or = lit "BIT_OR"
name bit_xor = lit "BIT_XOR"
name eq = lit "EQ"
name neq = lit "NEQ"
name lt = lit "LT"
name le = lit "LE"
name gt = lit "GT"
name ge = lit "GE"
name instance_of = lit "INSTANCEOF"
name in_op = lit "IN"
name and = lit "AND"
name or = lit "OR"
name not = lit "NOT"
name neg = lit "NEG"
name bit_not = lit "BIT_NOT"
name shl = lit "SHL"
name shr = lit "SHR"
name ushr = lit "USHR"
name identity = lit "IDENTITY"
name load_global = lit "LOAD_GLOBAL"
name store_global = lit "STORE_GLOBAL"
name load_local = lit "LOAD_LOCAL"
name store_local = lit "STORE_LOCAL"
name load_upvalue = lit "LOAD_UPVALUE"
name store_upvalue = lit "STORE_UPVALUE"
name load_name = lit "LOAD_NAME"
name store_name = lit "STORE_NAME"
name assign_name = lit "ASSIGN_NAME"
name load_this = lit "LOAD_THIS"
name store_typed_name = lit "STORE_TYPED_NAME"
name jump = lit "JUMP"
name jump_if_false = lit "JUMP_IF_FALSE"
name jump_if_true = lit "JUMP_IF_TRUE"
name loop = lit "LOOP"
name super_method = lit "SUPER_METHOD"
name closure = lit "CLOSURE"
name call = lit "CALL"
name return = lit "RETURN"
name return_null = lit "RETURN_NULL"
name push_arg = lit "PUSH_ARG"
name call_spread = lit "CALL_SPREAD"
name new_object = lit "NEW_OBJECT"
name new_array = lit "NEW_ARRAY"
name get_property = lit "GET_PROPERTY"
name set_property = lit "SET_PROPERTY"
name get_index = lit "GET_INDEX"
name set_index = lit "SET_INDEX"
name spread = lit "SPREAD"
name new_class = lit "NEW_CLASS"
name define_method = lit "DEFINE_METHOD"
name new = lit "NEW"
name iter_keys = lit "ITER_KEYS"
name iter_values = lit "ITER_VALUES"
name len = lit "LEN"
name iter_next = lit "ITER_NEXT"
name throw = lit "THROW"
name await = lit "AWAIT"
name to_string = lit "TO_STRING"
name throw_match_error = lit "THROW_MATCH_ERROR"
name type_of = lit "TYPEOF"
name import_module = lit "IMPORT_MODULE"
name export_name = lit "EXPORT_NAME"
name array_slice_from = lit "ARRAY_SLICE_FROM"
name export_all = lit "EXPORT_ALL"
name wrap_resolved_promise = lit "WRAP_RESOLVED_PROMISE"
