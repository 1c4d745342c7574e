-- ===== src/Json.antt =====
-- The crate `serde_json`, as far as the program calls it: a parameter of the components that handle
-- JSON values. Methods that borrow return the value.
use night.Prelude.{ℕ, Bool, Option, List}
use night.Text.{Text}

pub record JsonApi : Type 1 where
  -- `serde_json::Value`
  pub Value : Type 0
  -- `serde_json::to_string(v).ok()`
  pub to_string : Value → Option Text
  -- `format!("{}", v)`
  pub display : Value → Text
  -- `v.get(key)`, also behind `as_object`: `none` unless `v` is an object with that key
  pub get : Value → Text → Option Value
  pub is_object : Value → Bool
  pub as_str : Value → Option Text
  pub as_array : Value → Option (List Value)
  pub as_u64 : Value → Option ℕ
