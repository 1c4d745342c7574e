-- ===== src/Core/Permission.antt =====
-- crates/night24-core/src/permission.rs: tool categories and the permission policies.
use night.Text.{Text, lit, text_eq, text_eq_iff}
use night.Prelude.{
  unwrap_or, if◌then◌else◌, any, ◌≡◌, refl, ◌≢◌, Bool, Option, none, some, List, ◌∷◌, arith, [],
  Bool-cases, all, subst, inl, inr, true, false,
}

pub data PermissionLevel : Type 0 where
  allow deny confirm : PermissionLevel

pub data ToolCategory : Type 0 where
  shell read write network other : ToolCategory

abbrev pub shell_tools : List Text
shell_tools = lit "developer__shell" ∷ lit "developer__code_interpreter" ∷ []

abbrev pub read_tools : List Text
read_tools =
    lit "developer__read_file" ∷ lit "developer__list_files" ∷ lit "developer__file_search" ∷ []

abbrev pub network_tools : List Text
network_tools =
    lit "developer__http_request"
    ∷ lit "developer__network_request"
    ∷ lit "developer__web_search"
    ∷ lit "developer__network_search"
    ∷ lit "developer__web_scraper"
    ∷ []

-- A pattern of alternatives.
abbrev pub one_of : List Text → Text → Bool
one_of names name = any (text_eq name) names

unfoldable pub from_tool_name : Text → ToolCategory
from_tool_name name =
    if one_of shell_tools name
    then shell
    else if one_of read_tools name
    then read
    else if text_eq name (lit "developer__write_file")
    then write
    else if one_of network_tools name
    then network
    else other

-- The policies are a map.
pub record PermissionManager : Type 0 where
  pub default_level : PermissionLevel
  pub policies : List (Text × PermissionLevel)

unfoldable pub insert :
    Text → PermissionLevel → List (Text × PermissionLevel) → List (Text × PermissionLevel)
insert name level [] = (name, level) ∷ []
insert name level ((k, l) ∷ policies) =
    if text_eq k name then (k, level) ∷ policies else (k, l) ∷ insert name level policies

unfoldable pub lookup : Text → List (Text × PermissionLevel) → Option PermissionLevel
lookup name [] = none
lookup name ((k, l) ∷ policies) = if text_eq k name then some l else lookup name policies

unfoldable pub new : PermissionLevel → PermissionManager
new default_level = record { default_level = default_level; policies = [] }

abbrev pub default : PermissionManager
default = record { default_level = confirm; policies = [] }

-- The names that `permissive_local` inserts, in order.
abbrev pub local_tools : List Text
local_tools =
    lit "developer__echo"
    ∷ lit "developer__read_file"
    ∷ lit "developer__list_files"
    ∷ lit "developer__file_search"
    ∷ lit "developer__datetime"
    ∷ lit "developer__calculator"
    ∷ lit "developer__jq"
    ∷ lit "developer__database_query"
    ∷ lit "developer__task_list_create"
    ∷ lit "developer__task_list_update"
    ∷ lit "developer__task_list_status"
    ∷ lit "developer__task_list_finish"
    ∷ lit "developer__subagent_spawn"
    ∷ lit "developer__subagent_status"
    ∷ lit "developer__subagent_message"
    ∷ lit "developer__subagent_wait"
    ∷ lit "developer__subagent_cancel"
    ∷ lit "developer__skill_load"
    ∷ []

unfoldable pub insert_all :
    List Text → List (Text × PermissionLevel) → List (Text × PermissionLevel)
insert_all [] policies = policies
insert_all (name ∷ names) policies = insert_all names (insert name allow policies)

unfoldable pub permissive_local : PermissionManager
permissive_local = record { default_level = confirm; policies = insert_all local_tools [] }

unfoldable pub set : PermissionManager → Text → PermissionLevel → PermissionManager
set pm tool_name level = record pm { policies = insert tool_name level pm.policies }

-- `check` and `check_sync`
unfoldable pub check : PermissionManager → Text → PermissionLevel
check pm tool_name = unwrap_or pm.default_level (lookup tool_name pm.policies)

lookup-insert :
    (name tool : Text) (level : PermissionLevel) (policies : List (Text × PermissionLevel))
    → lookup tool (insert name level policies)
      ≡ (if text_eq name tool then some level else lookup tool policies)
unfolding lookup insert
lookup-insert name tool level [] = refl
lookup-insert name tool level ((k, l) ∷ policies) = ground (
  arith,
  text_eq_iff k name,
  text_eq_iff k tool,
  text_eq_iff name tool,
  lookup-insert name tool level policies,
)

-- A policy that is set decides about its tool and about no tool.
pub check-set :
    (pm : PermissionManager) (tool_name tool : Text) (level : PermissionLevel)
    → check (set pm tool_name level) tool
      ≡ (if text_eq tool_name tool then level else check pm tool)
unfolding check set
check-set pm tool_name tool level = ground (arith, lookup-insert tool_name tool level pm.policies)

lookup-insert_all :
    (names : List Text) (tool : Text) (policies : List (Text × PermissionLevel))
    → lookup tool (insert_all names policies)
      ≡ (if any (λ name. text_eq name tool) names then some allow else lookup tool policies)
unfolding insert_all
lookup-insert_all [] tool policies = refl
lookup-insert_all (name ∷ names) tool policies = ground (
  arith,
  lookup-insert_all names tool (insert name allow policies),
  lookup-insert name tool allow policies,
)

preset-lookup :
    (names : List Text) (name : Text)
    → unwrap_or confirm (lookup name (insert_all names []))
      ≡ (if any (λ n. text_eq n name) names then allow else confirm)
unfolding lookup
preset-lookup names name = ground (arith, lookup-insert_all names name [])

check-permissive_local :
    (name : Text)
    → check permissive_local name
      ≡ (if any (λ n. text_eq n name) local_tools then allow else confirm)
unfolding check permissive_local
check-permissive_local name = preset-lookup local_tools name

-- A test that passes on every name of a list passes on a name of the list.
all_names :
    (p : Text → Bool) (name : Text) (names : List Text)
    → all p names ≡ true
    → any (λ n. text_eq n name) names ≡ true
    → p name ≡ true
all_names p name [] h e = ground arith
all_names p name (n ∷ names) h e = elim (Bool-cases (text_eq n name)) [
  | inl t ↦ subst (λ m. p m ≡ true) ((text_eq_iff n name).0 t) (ground arith)
  | inr f ↦ all_names p name names (ground arith) (ground arith)
]

-- The categories that read, or that no list names.
unfoldable pub harmless : ToolCategory → Bool
harmless shell = false
harmless read = true
harmless write = false
harmless network = false
harmless other = true

local_tools-harmless : all (λ n. harmless (from_tool_name n)) local_tools ≡ true
unfolding harmless from_tool_name text_eq
local_tools-harmless = refl

local_name-harmless :
    (name : Text)
    → any (λ n. text_eq n name) local_tools ≡ true
    → harmless (from_tool_name name) ≡ true
local_name-harmless name e =
    all_names (λ n. harmless (from_tool_name n)) name local_tools local_tools-harmless e

preset_cases :
    (c : ToolCategory) (b : Bool) (l : PermissionLevel)
    → l ≡ (if b then allow else confirm)
    → (b ≡ true → harmless c ≡ true)
    → (l ≢ deny) × (harmless c ≡ false → l ≡ confirm)
preset_cases c true l e safe = ground arith
preset_cases c false l e safe = ground arith

-- The preset asks for confirmation of every tool whose category is shell, write or network, and it
-- denies no tool.
permissive_local_guards :
    (name : Text)
    → (check permissive_local name ≢ deny)
      × (harmless (from_tool_name name) ≡ false → check permissive_local name ≡ confirm)
permissive_local_guards name =
    preset_cases (from_tool_name name) (any (λ n. text_eq n name) local_tools)
      (check permissive_local name) (check-permissive_local name) (local_name-harmless name)
