-- ===== src/AgentCore/TaskList/Numbering.antt =====
-- The ids `task-1`, `task-2`, … of task_list.rs.
use night.Json.{JsonApi}
use night.Text.{text_eq_refl, text_eq, text_eq_iff, Text, lit}
use night.Text.Decimal.{u64_max, to_decimal, parse_u64-to_decimal, parse_u64}
use night.AgentCore.TaskList.{
  TaskItem, TaskListState, position, task_id, modify, complete, create_items, install,
  task_item_from_value, create, update, finish, execute, update_item, initial, resolve_index,
  get_str,
}
use night.Prelude.{
  Bool-cases, length, ℕ, zero, suc, ◌+◌, ◌≤◌, ◌<◌, ◌≡◌, sym, ap, ◌∙◌, subst, inl, inr, some, List,
  ◌∷◌, arith, [], ok, true, map, Result, err, Result-cases, Option-cases, is_nil, refl, none, ◌>>=◌,
}

-- The items carry the ids of the places from `n` on.
abbrev pub NumberedFrom : ℕ → List TaskItem → Type 0
NumberedFrom n [] = Unit
NumberedFrom n (item ∷ items) = (item.id ≡ task_id n) × NumberedFrom (suc n) items

abbrev pub IsNumbered : TaskListState → Type 0
IsNumbered s = NumberedFrom 0 s.items

task_id-injective : (i j : ℕ) → i < u64_max → j < u64_max → task_id i ≡ task_id j → i ≡ j
task_id-injective i j hi hj h =
    let same : to_decimal (i + 1) ≡ to_decimal (j + 1) = cc in
    let value : some (i + 1) ≡ some (j + 1) =
      sym (parse_u64-to_decimal (i + 1) (omega arith))
      ∙ ap parse_u64 same
      ∙ parse_u64-to_decimal (j + 1) (omega arith) in
    ground arith

position-numbered :
    (n k : ℕ) (items : List TaskItem)
    → NumberedFrom n items
    → k < length items
    → n + length items ≤ u64_max
    → position (task_id (n + k)) items ≡ some k
unfolding position
position-numbered n k [] h lt le = absurd (omega arith)
position-numbered n zero (item ∷ items) h lt le =
    let here : item.id ≡ task_id (n + 0) = h.0 ∙ ap task_id (omega arith) in
    rw here (rw (text_eq_refl (task_id (n + 0))))
position-numbered n (suc k) (item ∷ items) h lt le =
    let there : position (task_id (n + suc k)) items ≡ some k =
      subst (λ m. position (task_id m) items ≡ some k)
        (let e : suc n + k ≡ n + suc k = omega arith in e)
        (position-numbered (suc n) k items h.1 (omega arith) (omega arith)) in
    let clash : text_eq item.id (task_id (n + suc k)) ≡ true → ⊥ = λ e. omega (
      arith,
      task_id-injective n (n + suc k) (omega arith) (omega arith)
          (sym h.0 ∙ (text_eq_iff item.id (task_id (n + suc k))).0 e),
    ) in
    elim (Bool-cases (text_eq item.id (task_id (n + suc k)))) [
      | inl e ↦ absurd (clash e)
      | inr e ↦ rw (e, there)
    ]

modify-NumberedFrom :
    (n i : ℕ) (f : TaskItem → TaskItem) (items : List TaskItem)
    → ((item : TaskItem) → (f item).id ≡ item.id)
    → NumberedFrom n items
    → NumberedFrom n (modify i f items)
unfolding modify
modify-NumberedFrom n i f [] same h = h
modify-NumberedFrom n zero f (item ∷ items) same h = (same item ∙ h.0, h.1)
modify-NumberedFrom n (suc i) f (item ∷ items) same h =
    (h.0, modify-NumberedFrom (suc n) i f items same h.1)

complete-NumberedFrom :
    (n : ℕ) (items : List TaskItem) → NumberedFrom n items → NumberedFrom n (map complete items)
complete-NumberedFrom n [] h = h
complete-NumberedFrom n (item ∷ items) h = (h.0, complete-NumberedFrom (suc n) items h.1)

install-IsNumbered :
    (s : TaskListState) (items : List TaskItem)
    → IsNumbered s
    → NumberedFrom 0 items
    → IsNumbered (install s items).0
unfolding install
install-IsNumbered s [] h k = h
install-IsNumbered s (item ∷ items) h k = k

module _ (json : JsonApi) where
  open json use {Value, get, as_u64, as_array}

  abbrev Created : ℕ → Result (List TaskItem) Text → Type 0
  Created n (ok items) = NumberedFrom n items
  Created n (err e) = Unit

  create_items-Created : (n : ℕ) (tasks : List Value) → Created n (create_items json n tasks)
  unfolding create_items
  create_items-Created n [] = tt
  create_items-Created n (task ∷ tasks) = elim (Result-cases (task_item_from_value json n task)) [
    | inr bad ↦ rw (bad.1, create_items) tt
    | inl item ↦ elim (Result-cases (create_items json (suc n) tasks)) [
      | inr bad ↦ rw (item.1, bad.1, create_items) tt
      | inl rest ↦
          rw (item.1, rest.1, create_items)
            (refl, rw rest.1 at (create_items-Created (suc n) tasks))
    ]
  ]

  create-IsNumbered :
      (s : TaskListState) (arguments : Value)
      → IsNumbered s
      → IsNumbered (create json s arguments).0
  unfolding create
  create-IsNumbered s arguments h =
      elim (Option-cases (do v ← get arguments (lit "tasks"); as_array v)) [
        | inl e ↦ rw (e, create) h
        | inr tasks ↦ elim (Result-cases (create_items json 0 tasks.0)) [
          | inr bad ↦ rw (tasks.1, bad.1, create) h
          | inl items ↦
              rw (tasks.1, items.1, create)
                (install-IsNumbered s items.0 h (rw items.1 at (create_items-Created 0 tasks.0)))
        ]
      ]

  update-IsNumbered :
      (s : TaskListState) (arguments : Value)
      → IsNumbered s
      → IsNumbered (update json s arguments).0
  unfolding update update_item
  update-IsNumbered s arguments h = elim (Bool-cases (is_nil s.items)) [
    | inl empty ↦ rw empty h
    | inr full ↦ elim (Result-cases (resolve_index json s arguments)) [
      | inr bad ↦ rw (full, bad.1) h
      | inl index ↦
          rw (full, index.1)
            (modify-NumberedFrom 0 index.0 (update_item json arguments) s.items (λ item. refl) h)
    ]
  ]

  finish-IsNumbered :
      (s : TaskListState) (arguments : Value)
      → IsNumbered s
      → IsNumbered (finish json s arguments).0
  unfolding finish
  finish-IsNumbered s arguments h = elim (Bool-cases (is_nil s.items)) [
    | inl empty ↦ rw empty h
    | inr full ↦ rw full (complete-NumberedFrom 0 s.items h)
  ]

  execute-IsNumbered :
      (s : TaskListState) (tool_name : Text) (arguments : Value)
      → IsNumbered s
      → IsNumbered (execute json s tool_name arguments).0
  unfolding execute
  execute-IsNumbered s tool_name arguments h =
      elim (Bool-cases (text_eq tool_name (lit "developer__task_list_create"))) [
        | inl a ↦ rw a (create-IsNumbered s arguments h)
        | inr a ↦ elim (Bool-cases (text_eq tool_name (lit "developer__task_list_update"))) [
          | inl b ↦ rw (a, b) (update-IsNumbered s arguments h)
          | inr b ↦ elim (Bool-cases (text_eq tool_name (lit "developer__task_list_status"))) [
            | inl c ↦ rw (a, b, c) h
            | inr c ↦ elim (Bool-cases (text_eq tool_name (lit "developer__task_list_finish"))) [
              | inl d ↦ rw (a, b, c, d) (finish-IsNumbered s arguments h)
              | inr d ↦ rw (a, b, c, d) h
            ]
          ]
        ]
      ]

  -- A session of tool calls, whether they succeed or fail.
  abbrev pub run : TaskListState → List (Text × Value) → TaskListState
  run s [] = s
  run s ((tool_name, arguments) ∷ calls) = run (execute json s tool_name arguments).0 calls

  run_from-IsNumbered :
      (s : TaskListState) (calls : List (Text × Value)) → IsNumbered s → IsNumbered (run s calls)
  run_from-IsNumbered s [] h = h
  run_from-IsNumbered s ((tool_name, arguments) ∷ calls) h =
      run_from-IsNumbered (execute json s tool_name arguments).0 calls
        (execute-IsNumbered s tool_name arguments h)

  -- After any calls, failed ones included, the item at place k has the id `task-(k + 1)`.
  pub run-IsNumbered : (calls : List (Text × Value)) → IsNumbered (run initial calls)
  run-IsNumbered calls = run_from-IsNumbered initial calls tt

  module _ (calls : List (Text × Value)) (k : ℕ) (by_index by_id : Value) where
    -- After any calls, `update` finds the same item by the index k + 1 and by the id
    -- `task-(k + 1)`, for every place k of a list whose length fits a `usize`.
    pub resolve_index-same :
        k < length (run initial calls).items
        → length (run initial calls).items ≤ u64_max
        → (do v ← get by_index (lit "index"); as_u64 v) ≡ some (k + 1)
        → (do v ← get by_id (lit "index"); as_u64 v) ≡ none
        → get_str json by_id (lit "id") ≡ some (task_id k)
        → (resolve_index json (run initial calls) by_index ≡ ok k)
          × (resolve_index json (run initial calls) by_id ≡ ok k)
    unfolding resolve_index
    resolve_index-same lt le index no_index id =
        let found : position (task_id k) (run initial calls).items ≡ some k =
          subst (λ m. position (task_id m) (run initial calls).items ≡ some k)
            (let e : 0 + k ≡ k = omega arith in e)
            (position-numbered 0 k (run initial calls).items (run-IsNumbered calls) lt
              (omega arith)) in
        (rw (index, resolve_index) (ground arith), rw (no_index, id, found, resolve_index))
