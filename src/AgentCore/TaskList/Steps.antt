-- ===== src/AgentCore/TaskList/Steps.antt =====
-- What one tool call does to the task list of task_list.rs.
use mathlib.Core.Option
use night.Text.{Text, lit}
use night.AgentCore.TaskList.{
  modify, TaskItem, create, execute, is_completed, install, update, complete, TaskListState, finish,
  markdown, position, resolve_index, has_open_tasks, update_item, get_str,
}
use night.Json.{JsonApi}
use night.Prelude.{
  ok, err, length, get_elem?, any, ℕ, zero, suc, ◌≡◌, refl, ap, ◌≢◌, false, not, List, ◌∷◌, map,
  arith, [], Option-cases, ◌<◌, inl, inr, some, Bool-cases, is_nil, ◌>>=◌,
}

module _ (json : JsonApi) where
  open json use {Value, get, as_array}

  create_error :
      (s : TaskListState) (arguments : Value) (e : Text)
      → (create json s arguments).1 ≡ err e
      → (create json s arguments).0 ≡ s
  unfolding create install
  create_error s arguments e h = ground arith

  -- A tool call that fails, whatever the tool, leaves the list and the report as they were.
  execute_error :
      (s : TaskListState) (tool_name : Text) (arguments : Value) (e : Text)
      → (execute json s tool_name arguments).1 ≡ err e
      → (execute json s tool_name arguments).0 ≡ s
  unfolding execute update finish
  execute_error s tool_name arguments e h = ground (arith, create_error s arguments e)

  -- A tool call that succeeds answers with the list as it is after the call.
  pub execute_ok :
      (s : TaskListState) (tool_name : Text) (arguments : Value) (text : Text)
      → (execute json s tool_name arguments).1 ≡ ok text
      → text ≡ markdown (execute json s tool_name arguments).0
  unfolding execute create install update finish
  execute_ok s tool_name arguments text h = ground arith

get_elem?-modify_ne :
    (i j : ℕ) (f : TaskItem → TaskItem) (items : List TaskItem)
    → j ≢ i
    → get_elem? (modify i f items) j ≡ get_elem? items j
unfolding modify
get_elem?-modify_ne zero j f [] h = refl
get_elem?-modify_ne (suc i) j f [] h = refl
get_elem?-modify_ne zero zero f (item ∷ items) h = absurd (h refl)
get_elem?-modify_ne zero (suc j) f (item ∷ items) h = refl
get_elem?-modify_ne (suc i) zero f (item ∷ items) h = refl
get_elem?-modify_ne (suc i) (suc j) f (item ∷ items) h =
    get_elem?-modify_ne i j f items (λ e. h (ap suc e))

get_elem?-modify_self :
    (i : ℕ) (f : TaskItem → TaskItem) (items : List TaskItem)
    → get_elem? (modify i f items) i ≡ Option.map f (get_elem? items i)
unfolding modify
get_elem?-modify_self zero f [] = refl
get_elem?-modify_self (suc i) f [] = refl
get_elem?-modify_self zero f (item ∷ items) = refl
get_elem?-modify_self (suc i) f (item ∷ items) = get_elem?-modify_self i f items

pub length-modify :
    (i : ℕ) (f : TaskItem → TaskItem) (items : List TaskItem)
    → length (modify i f items) ≡ length items
unfolding modify
length-modify zero f [] = refl
length-modify (suc i) f [] = refl
length-modify zero f (item ∷ items) = refl
length-modify (suc i) f (item ∷ items) = ap suc (length-modify i f items)

any-map-complete :
    (items : List TaskItem)
    → any (λ (item : TaskItem). not (is_completed item.status)) (map complete items) ≡ false
any-map-complete [] = refl
any-map-complete (item ∷ items) = any-map-complete items

position-lt :
    (id : Text) (items : List TaskItem) (i : ℕ) → position id items ≡ some i → i < length items
unfolding position
position-lt id [] i h = cc
position-lt id (item ∷ items) i h = elim (Option-cases (position id items)) [
  | inl e ↦ ground arith
  | inr p ↦ ground (arith, position-lt id items p.0)
]

-- The ids and titles of the items.
abbrev pub labels : List TaskItem → List (Text × Text)
labels items = map (λ (item : TaskItem). let p : Text × Text = (item.id, item.title) in p) items

labels-complete : (items : List TaskItem) → labels (map complete items) ≡ labels items
labels-complete [] = refl
labels-complete (item ∷ items) = ap (λ r. (item.id, item.title) ∷ r) (labels-complete items)

is_nil-lt : (i : ℕ) (items : List TaskItem) → i < length items → is_nil items ≡ false
is_nil-lt i [] h = absurd (omega arith)
is_nil-lt i (item ∷ items) h = refl

module _ (json : JsonApi) (s : TaskListState) (arguments : json.Value) where
  -- An index that `update` writes at lies in the list: `self.items[index]` does not panic.
  pub resolve_index-lt : (i : ℕ) → resolve_index json s arguments ≡ ok i → i < length s.items
  unfolding resolve_index
  resolve_index-lt i h =
      elim (Option-cases (do v ← json.get arguments (lit "index"); json.as_u64 v)) [
        | inr index ↦ ground (arith, index.1)
        | inl no_index ↦ elim (Option-cases (get_str json arguments (lit "id"))) [
          | inl no_id ↦ ground (arith, no_index, no_id)
          | inr id ↦ elim (Option-cases (position id.0 s.items)) [
            | inl e ↦ ground (arith, no_index, id.1, e)
            | inr p ↦ ground (arith, no_index, id.1, p.1, position-lt id.0 s.items p.0)
          ]
        ]
      ]

  update-at :
      (i : ℕ)
      → resolve_index json s arguments ≡ ok i
      → (update json s arguments).0
        ≡ record s { items = modify i (update_item json arguments) s.items }
  unfolding update
  update-at i h =
      let full : is_nil s.items ≡ false = is_nil-lt i s.items (resolve_index-lt i h) in rw (full, h)

  -- An update that finds its item changes that item, as its arguments say, and leaves the others,
  -- their number and the report.
  update_frame :
      (i : ℕ)
      → resolve_index json s arguments ≡ ok i
      → let s' = (update json s arguments).0 in
        (get_elem? s'.items i ≡ Option.map (update_item json arguments) (get_elem? s.items i))
        × ((j : ℕ) → j ≢ i → get_elem? s'.items j ≡ get_elem? s.items j)
        × (length s'.items ≡ length s.items)
        × (s'.report ≡ s.report)
  update_frame i h = rw (update-at i h) (
    get_elem?-modify_self i (update_item json arguments) s.items,
    λ j ne. get_elem?-modify_ne i j (update_item json arguments) s.items ne,
    length-modify i (update_item json arguments) s.items,
    refl,
  )

  -- A list that is finished has every task completed and none open, with its ids and titles.
  finish_closes :
      (reply : Text)
      → (finish json s arguments).1 ≡ ok reply
      → let s' = (finish json s arguments).0 in
        (has_open_tasks s' ≡ false)
        × (any (λ (item : TaskItem). not (is_completed item.status)) s'.items ≡ false)
        × (labels s'.items ≡ labels s.items)
  unfolding finish has_open_tasks
  finish_closes reply h = elim (Bool-cases (is_nil s.items)) [
    | inl empty ↦ ground arith
    | inr full ↦ rw full (
      ground (arith, any-map-complete s.items),
      any-map-complete s.items,
      labels-complete s.items,
    )
  ]
