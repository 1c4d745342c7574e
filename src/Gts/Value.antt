-- ===== src/Gts/Value.antt =====
-- crates/night24-gts/src/object/value.rs and evaluator/expressions.rs: what the operators do to values.
-- An object is a runtime error exactly when it is `err`; every other object is `ok`.
use night.Gts.Semver.{text_cmp}
use night.Text.{Text, is_empty, text_eq, lit}
use night.Prelude.{
  Result, ok, err, not, ◌==◌, if◌then◌else◌, ℕ, Bool, true, false, ◌||◌, Option, none, some, List,
  ◌∷◌, ◌++◌, [],
}
use night.Gts.Chunk.{
  Object, Position, number, string, boolean, null, undefined, array, hash, function, instance_of,
  class, promise, closure, builtin, date, f64_eq, bool_eq,
}
use Prim.Native.Nat.{Ordering}

-- `new_error(pos, message)`, before the name of the error is split off.
pub record Fault : Type 0 where
  pub pos : Position
  pub message : Text

-- The functions on `f64` that Rust provides, on bits: those that the operators pass to `number_op` and
-- `bit_op`, by the operator, and single ones.
pub record Floats : Type 0 where
  pub apply : Text → ℕ → ℕ → ℕ
  pub neg : ℕ → ℕ
  pub bit_not : ℕ → ℕ
  pub of_i64 : ℕ → ℕ
  pub partial_cmp : ℕ → ℕ → Option Ordering

-- `in` and `instanceof` read what lies behind the pointers; an error of `in` is its message.
pub record Heap : Type 0 where
  pub eval_in : Object → Object → Result Object Text
  pub eval_instanceof : Object → Object → Object

-- A branch on a text that is one of some keys.
unfoldable pub find_text {ℓ} : {A : Type ℓ} → Text → List (Text × A) → Option A
find_text key [] = none
find_text key ((k, a) ∷ rows) =
    let rest = find_text key rows in if text_eq k key then some a else rest

unfoldable pub is_truthy : Object → Bool
is_truthy null = false
is_truthy undefined = false
is_truthy (boolean b) = b
is_truthy (number n) = not (f64_eq n 0)
is_truthy (string s) = not (is_empty s)
is_truthy _ = true

unfoldable pub type_tag : Object → Text
type_tag (number _) = lit "number"
type_tag (string _) = lit "string"
type_tag (boolean _) = lit "boolean"
type_tag null = lit "object"
type_tag undefined = lit "undefined"
type_tag (function _) = lit "function"
type_tag (builtin _) = lit "function"
type_tag (class _) = lit "function"
type_tag (closure _) = lit "function"
type_tag _ = lit "object"

-- `typeof_name` has the same arms.
unfoldable pub typeof_name : Object → Text
typeof_name undefined = lit "undefined"
typeof_name null = lit "object"
typeof_name (boolean _) = lit "boolean"
typeof_name (number _) = lit "number"
typeof_name (string _) = lit "string"
typeof_name (function _) = lit "function"
typeof_name (builtin _) = lit "function"
typeof_name (class _) = lit "function"
typeof_name (closure _) = lit "function"
typeof_name _ = lit "object"

unfoldable pub strict_equal : Object → Object → Bool
strict_equal (number a) (number b) = f64_eq a b
strict_equal (string a) (string b) = text_eq a b
strict_equal (boolean a) (boolean b) = bool_eq a b
strict_equal null null = true
strict_equal undefined undefined = true
strict_equal (array a) (array b) = a == b
strict_equal (hash a) (hash b) = a == b
strict_equal (function a) (function b) = a == b
strict_equal (instance_of a) (instance_of b) = a == b
strict_equal (class a) (class b) = a == b
strict_equal (promise a) (promise b) = a == b
strict_equal _ _ = false

abbrev pub is_string : Object → Bool
is_string (string _) = true
is_string _ = false

abbrev pub fault : Position → Text → Result Object Fault
fault pos message = err (record { pos = pos; message = message })

abbrev pub add_error : Object → Object → Position → Result Object Fault
add_error left right pos =
    if is_string left || is_string right
    then fault pos (
        lit "TypeError: cannot add string and "
        ++ (type_tag (if is_string left then right else left)
            ++ lit " — use template literals or String()"))
    else fault pos (
        lit "TypeError: cannot add "
        ++ (type_tag left ++ (lit " and " ++ (type_tag right ++ lit " — types must match"))))

abbrev pub ordering_holds : Text → Ordering → Bool
ordering_holds op Ordering.lt = text_eq op (lit "<") || text_eq op (lit "<=")
ordering_holds op Ordering.eq = text_eq op (lit "<=") || text_eq op (lit ">=")
ordering_holds op Ordering.gt = text_eq op (lit ">") || text_eq op (lit ">=")

-- `match (op, ord)`
abbrev pub compared : Text → Option Ordering → Object
compared op none = boolean false
compared op (some o) = boolean (ordering_holds op o)

-- The arms of `apply_binary_op`.
pub data Arm : Type 0 where
  adds numeric bitwise equal unequal compares instance_arm in_arm : Arm

abbrev pub arms : List (Text × Arm)
arms =
    (lit "+", adds)
    ∷ (lit "-", numeric)
    ∷ (lit "*", numeric)
    ∷ (lit "/", numeric)
    ∷ (lit "%", numeric)
    ∷ (lit "**", numeric)
    ∷ (lit "&", bitwise)
    ∷ (lit "|", bitwise)
    ∷ (lit "^", bitwise)
    ∷ (lit "<<", bitwise)
    ∷ (lit ">>", bitwise)
    ∷ (lit ">>>", bitwise)
    ∷ (lit "===", equal)
    ∷ (lit "!==", unequal)
    ∷ (lit "<", compares)
    ∷ (lit "<=", compares)
    ∷ (lit ">", compares)
    ∷ (lit ">=", compares)
    ∷ (lit "instanceof", instance_arm)
    ∷ (lit "in", in_arm)
    ∷ []

module _ (floats : Floats) where
  unfoldable pub to_numeric : Object → Option ℕ
  to_numeric (number n) = some n
  to_numeric (date ms) = some (floats.of_i64 ms)
  to_numeric _ = none

  unfoldable pub eval_add : Object → Object → Position → Result Object Fault
  eval_add (number a) (number b) pos = ok (number (floats.apply (lit "+") a b))
  eval_add (string a) (string b) pos = ok (string (a ++ b))
  eval_add left right pos = add_error left right pos

  -- `number_op` and `bit_op` with the closure of the operator.
  unfoldable pub number_op : Text → Object → Object → Position → Result Object Fault
  number_op op left right pos = elim (to_numeric left) [
    | none ↦ fault pos (lit "TypeError: left operand must be number, got " ++ type_tag left)
    | some l ↦ elim (to_numeric right) [
      | none ↦ fault pos (lit "TypeError: right operand must be number, got " ++ type_tag right)
      | some r ↦ ok (number (floats.apply op l r))
    ]
  ]

  unfoldable pub compare_objects : Text → Object → Object → Position → Result Object Fault
  compare_objects op (number a) (number b) pos = ok (compared op (floats.partial_cmp a b))
  compare_objects op (string a) (string b) pos = ok (compared op (some (text_cmp a b)))
  compare_objects op left right pos = fault pos (
      lit "TypeError: cannot compare "
      ++ (type_tag left ++ (lit " and " ++ (type_tag right ++ lit " — types must match"))))

  module _ (heap : Heap) where
    unfoldable pub apply_arm : Option Arm → Text → Object → Object → Position → Result Object Fault
    apply_arm none op left right pos = fault pos (lit "unknown infix operator: " ++ op)
    apply_arm (some adds) op left right pos = eval_add left right pos
    apply_arm (some numeric) op left right pos = number_op op left right pos
    apply_arm (some bitwise) op left right pos = number_op op left right pos
    apply_arm (some equal) op left right pos = ok (boolean (strict_equal left right))
    apply_arm (some unequal) op left right pos = ok (boolean (not (strict_equal left right)))
    apply_arm (some compares) op left right pos = compare_objects op left right pos
    apply_arm (some instance_arm) op left right pos = ok (heap.eval_instanceof left right)
    apply_arm (some in_arm) op left right pos = elim (heap.eval_in left right) [
      | ok v ↦ ok v
      | err message ↦ fault pos message
    ]

    unfoldable pub apply_binary_op : Text → Object → Object → Position → Result Object Fault
    apply_binary_op op left right pos = apply_arm (find_text op arms) op left right pos

  -- The arms for numbers of `-`, `+` and `~`.
  abbrev pub on_number : (ℕ → ℕ) → Text → Object → Position → Result Object Fault
  on_number f what (number n) pos = ok (number (f n))
  on_number f what right pos = fault pos (what ++ type_tag right)

  unfoldable pub apply_unary_op : Text → Object → Position → Result Object Fault
  apply_unary_op op right pos =
      if text_eq op (lit "!")
      then ok (boolean (not (is_truthy right)))
      else if text_eq op (lit "-")
      then on_number floats.neg (lit "TypeError: cannot negate ") right pos
      else if text_eq op (lit "+")
      then on_number (λ n. n) (lit "TypeError: cannot apply + to ") right pos
      else if text_eq op (lit "typeof")
      then ok (string (typeof_name right))
      else if text_eq op (lit "void")
      then ok undefined
      else if text_eq op (lit "~")
      then on_number floats.bit_not (lit "TypeError: cannot apply ~ to ") right pos
      else fault pos (lit "unknown prefix operator: " ++ op)
