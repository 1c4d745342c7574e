-- ===== src/Examples.antt =====
-- Concrete runs of the components, and a small JSON library to run them with.
mod Agents
mod Contexts
mod Sessions
mod Tasks
mod Scripts
mod Versions
mod Tokens
mod Parsers
mod Literals
mod Globs
mod Chunks
use night.Json.{JsonApi}
use night.Text.{Text, text_eq}
use night.Prelude.{if◌then◌else◌, ℕ, Bool, true, false, Option, none, some, List, ◌∷◌, []}

-- JSON values with one entry at most in an object or an array.
pub data Toy : Type 0 where
  null : Toy
  str : Text → Toy
  num : ℕ → Toy
  entry : Text → Toy → Toy
  single : Toy → Toy

abbrev pub toy_get : Toy → Text → Option Toy
toy_get (entry k v) key = if text_eq k key then some v else none
toy_get v key = none

abbrev pub toy_is_object : Toy → Bool
toy_is_object (entry k v) = true
toy_is_object v = false

abbrev pub toy_str : Toy → Option Text
toy_str (str s) = some s
toy_str v = none

abbrev pub toy_array : Toy → Option (List Toy)
toy_array (single v) = some (v ∷ [])
toy_array v = none

abbrev pub toy_u64 : Toy → Option ℕ
toy_u64 (num n) = some n
toy_u64 v = none

abbrev pub toy : JsonApi
toy = record {
  Value = Toy;
  to_string = λ v. some [];
  display = λ v. [];
  get = toy_get;
  is_object = toy_is_object;
  as_str = toy_str;
  as_array = toy_array;
  as_u64 = toy_u64;
}
