-- ===== src/Gts/Globals.antt =====
-- crates/night24-gts/src/evaluator/builtins.rs, evaluator/builtins/promise.rs, object/vm.rs and the start of
-- `interpret_with_upvalues` (bytecode/interp.rs): the standard globals, which the machine sets when
-- `println` is not a global. The object behind a standard name is a parameter.
pub mod Names
use night.Gts.Value.{find_text}
use night.Gts.Environment.{Env}
use night.Gts.Chunk.{Object}
use night.Text.{Text, lit, text_eq}
use night.Prelude.{is_some, if◌then◌else◌, Bool, true, false, List, ◌∷◌, []}

-- `HashMap::insert` of `set_global`: the value under a name that is there is replaced.
unfoldable pub set_global : Text → Object → List (Text × Object) → List (Text × Object)
set_global name value [] = (name, value) ∷ []
set_global name value ((k, old) ∷ rows) =
    let rest = set_global name value rows in
    if text_eq k name then (k, value) ∷ rows else (k, old) ∷ rest

unfoldable pub has_global : Text → Env → Bool
has_global name env = is_some (find_text name env.globals)

-- The names in the order of the calls of `set_global`. `Promise` is set again by
-- `attach_promise_statics`, `Date` by `register_collections_and_date`, and `String` and `Number` at the end.
abbrev pub standard_names : List Text
standard_names =
    lit "console"
    ∷ lit "println"
    ∷ lit "print"
    ∷ lit "Math"
    ∷ lit "JSON"
    ∷ lit "Object"
    ∷ lit "Array"
    ∷ lit "String"
    ∷ lit "Number"
    ∷ lit "Boolean"
    ∷ lit "Symbol"
    ∷ lit "Error"
    ∷ lit "TypeError"
    ∷ lit "RangeError"
    ∷ lit "ReferenceError"
    ∷ lit "SyntaxError"
    ∷ lit "Promise"
    ∷ lit "Date"
    ∷ lit "setTimeout"
    ∷ lit "sleepAsync"
    ∷ lit "setInterval"
    ∷ lit "Promise"
    ∷ lit "Map"
    ∷ lit "Set"
    ∷ lit "Date"
    ∷ lit "parseInt"
    ∷ lit "parseFloat"
    ∷ lit "isNaN"
    ∷ lit "isFinite"
    ∷ lit "String"
    ∷ lit "Number"
    ∷ []

-- The object that is under each standard name when they are all set.
module _ (standard : Text → Object) where
  unfoldable pub set_globals : List Text → List (Text × Object) → List (Text × Object)
  set_globals [] globals = globals
  set_globals (name ∷ names) globals = set_globals names (set_global name (standard name) globals)

  unfoldable pub register_globals : Env → Env
  register_globals env = record env { globals = set_globals standard_names env.globals }

  -- `if !vm.has_global("println") { register_globals(&vm); }`
  unfoldable pub with_globals : Env → Env
  with_globals env = elim (has_global (lit "println") env) [
    | true ↦ env
    | false ↦ register_globals env
  ]
