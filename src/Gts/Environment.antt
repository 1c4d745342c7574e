-- ===== src/Gts/Environment.antt =====
-- crates/night24-gts/src/object/environment.rs: scopes, innermost first, before the globals. Bindings
-- have no type annotation here. A map is an association list.
pub mod Lookup
use night.Gts.Value.{find_text}
use night.Text.{Text, text_eq}
use night.Prelude.{is_some, if◌then◌else◌, Bool, true, false, Option, none, some, List, ◌∷◌, []}
use night.Gts.Chunk.{Object}

pub record Binding : Type 0 where
  pub value : Object
  pub is_const : Bool

abbrev pub Scope : Type 0
Scope = List (Text × Binding)

pub record Env : Type 0 where
  pub scopes : List Scope
  pub globals : List (Text × Object)

unfoldable pub find_binding : Text → List Scope → Option Binding
find_binding name [] = none
find_binding name (scope ∷ scopes) =
    let outer = find_binding name scopes in
    elim (find_text name scope) [ some b ↦ some b | none ↦ outer ]

-- `Environment::get`
unfoldable pub get : Env → Text → Option Object
get env name = elim (find_binding name env.scopes) [
  | some b ↦ some b.value
  | none ↦ find_text name env.globals
]

unfoldable pub insert_binding : Text → Binding → Scope → Scope
insert_binding name b [] = (name, b) ∷ []
insert_binding name b ((k, old) ∷ scope) =
    if text_eq k name then (k, b) ∷ scope else (k, old) ∷ insert_binding name b scope

-- `set_here` and `set_const_here`, also `set_typed` and `set_typed_const` without an annotation.
unfoldable pub set_scope : Text → Binding → List Scope → List Scope
set_scope name b [] = []
set_scope name b (scope ∷ scopes) = insert_binding name b scope ∷ scopes

unfoldable pub set_here : Text → Object → Bool → Env → Env
set_here name value is_const env = record env {
  scopes = set_scope name (record { value = value; is_const = is_const }) env.scopes;
}

-- `Environment::assign`: the scopes after it, whether the name was found and whether it is constant.
unfoldable pub assign_scopes : Text → Object → List Scope → List Scope × Bool × Bool
assign_scopes name value [] = ([], false, false)
assign_scopes name value (scope ∷ scopes) =
    let rest = assign_scopes name value scopes in
    elim (find_text name scope) [
      | some b ↦
          if b.is_const
          then (scope ∷ scopes, true, true)
          else (insert_binding name (record b { value = value }) scope ∷ scopes, true, false)
      | none ↦ (scope ∷ rest.0, rest.1, rest.2)
    ]

unfoldable pub assign : Text → Object → Env → Env × Bool × Bool
assign name value env =
    let r = assign_scopes name value env.scopes in
    if r.1
    then (record env { scopes = r.0 }, true, r.2)
    else (env, is_some (find_text name env.globals), is_some (find_text name env.globals))
