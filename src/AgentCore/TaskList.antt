-- ===== src/AgentCore/TaskList.antt =====
-- crates/night24-agent-core/src/task_list.rs: the task list that the model keeps through tools. A
-- method that takes `&mut self` returns the new state beside its result.
pub mod Steps
pub mod Numbering
use night.Text.Decimal.{to_decimal}
use night.Text.Parts.{join, trim}
use night.Json.{JsonApi}
use night.Text.{Text, lit, lowercase, is_empty, text_eq}
use night.Prelude.{
  is_some, unwrap_or, Result, ok, err, ltb, ◌==◌, if◌then◌else◌, length, any, ℕ, zero, suc, ◌+◌,
  ◌-◌, Bool, true, false, not, ◌&&◌, ◌||◌, Option, none, some, List, ◌∷◌, ◌++◌, map, ◌>>=◌, [],
  is_nil,
}
use mathlib.Core.Option

pub data TaskStatus : Type 0 where
  pending in_progress completed : TaskStatus

-- The words of the `match`.
abbrev completed_words : List Text
completed_words =
    lit "done" ∷ lit "complete" ∷ lit "completed" ∷ lit "finished" ∷ lit "x" ∷ lit "完成" ∷ []

abbrev in_progress_words : List Text
in_progress_words =
    lit "active"
    ∷ lit "current"
    ∷ lit "in_progress"
    ∷ lit "in-progress"
    ∷ lit "doing"
    ∷ lit "进行中"
    ∷ []

unfoldable pub from_value : Option Text → TaskStatus
from_value value =
    let word = lowercase (trim (unwrap_or (lit "pending") value)) in
    if any (text_eq word) completed_words
    then completed
    else if any (text_eq word) in_progress_words
    then in_progress
    else pending

pub record TaskItem : Type 0 where
  pub id : Text
  pub title : Text
  pub status : TaskStatus

pub record TaskListState : Type 0 where
  pub items : List TaskItem
  pub report : Option Text

-- `TaskListState::default()`
abbrev pub initial : TaskListState
initial = record { items = []; report = none }

abbrev pub is_completed : TaskStatus → Bool
is_completed completed = true
is_completed in_progress = false
is_completed pending = false

unfoldable pub has_open_tasks : TaskListState → Bool
has_open_tasks s =
    not (is_some s.report) && any (λ (item : TaskItem). not (is_completed item.status)) s.items

-- `.map(str::trim).filter(|value| !value.is_empty())`
abbrev pub trimmed : Option Text → Option Text
trimmed value = do v ← value; if is_empty (trim v) then none else some (trim v)

unfoldable pub markdown_title : TaskStatus → Text → Text
markdown_title pending title = title
markdown_title in_progress title = title ++ lit "（进行中）"
markdown_title completed title = title

unfoldable pub markdown_line : TaskItem → Text
unfolding markdown_title
markdown_line item =
    lit "- ["
    ++ ((if is_completed item.status then lit "x" else lit " ")
        ++ (lit "] " ++ markdown_title item.status item.title))

unfoldable pub markdown_lines : TaskListState → List Text
markdown_lines s =
    (lit "## 任务列表" ∷ elim s.items [
      | [] ↦ lit "- [ ] 尚未创建任务" ∷ []
      | item ∷ items ↦ map markdown_line (item ∷ items)
    ])
    ++ elim s.report [ none ↦ [] | some report ↦ [] ∷ lit "## 完成报告" ∷ report ∷ [] ]

unfoldable pub markdown : TaskListState → Text
markdown s = join (lit "\n") (markdown_lines s)

-- `position(|item| item.id == id)`
unfoldable pub position : Text → List TaskItem → Option ℕ
position id [] = none
position id (item ∷ items) =
    if text_eq item.id id then some 0 else Option.map suc (position id items)

-- `items[index]` is written; the callers have checked the index.
unfoldable pub modify : ℕ → (TaskItem → TaskItem) → List TaskItem → List TaskItem
modify i f [] = []
modify zero f (item ∷ items) = f item ∷ items
modify (suc i) f (item ∷ items) = item ∷ modify i f items

-- `item.status = TaskStatus::Completed`
abbrev pub complete : TaskItem → TaskItem
complete item = record item { status = completed }

-- `format!("task-{}", index + 1)`
abbrev pub task_id : ℕ → Text
task_id index = lit "task-" ++ to_decimal (index + 1)

abbrev pub Reply : Type 0
Reply = Result Text Text

-- The state after `self.items = items`, if there are any.
unfoldable pub install : TaskListState → List TaskItem → TaskListState × Reply
install s [] = (s, err (lit "task list requires at least one task"))
install s (item ∷ items) =
    let s' : TaskListState = record { items = item ∷ items; report = none } in
    (s', ok (markdown s'))

module _ (json : JsonApi) where
  open json use {Value, get, is_object, as_str, as_array, as_u64}

  abbrev pub get_str : Value → Text → Option Text
  get_str arguments key = do v ← get arguments key; as_str v

  unfoldable pub task_item_from_value : ℕ → Value → Result (Text × TaskStatus) Text
  task_item_from_value index value = elim (trimmed (as_str value)) [
    | some title ↦ ok (title, pending)
    | none ↦
        if not (is_object value)
        then err (lit "task " ++ (to_decimal (index + 1) ++ lit " must be a string or object"))
        else elim (trimmed (get_str value (lit "title"))) [
          | none ↦ err (lit "task " ++ (to_decimal (index + 1) ++ lit " is missing `title`"))
          | some title ↦ ok (title, from_value (get_str value (lit "status")))
        ]
  ]

  -- The loop of `create` from `index` on.
  unfoldable pub create_items : ℕ → List Value → Result (List TaskItem) Text
  create_items index [] = ok []
  create_items index (task ∷ tasks) = elim (task_item_from_value index task) [
    | err e ↦ err e
    | ok (title, status) ↦ elim (create_items (suc index) tasks) [
      | err e ↦ err e
      | ok items ↦ ok (record { id = task_id index; title = title; status = status } ∷ items)
    ]
  ]

  unfoldable pub create : TaskListState → Value → TaskListState × Reply
  create s arguments = elim (do v ← get arguments (lit "tasks"); as_array v) [
    | none ↦ (s, err (lit "missing `tasks` for developer__task_list_create"))
    | some tasks ↦ elim (create_items 0 tasks) [ err e ↦ (s, err e) | ok items ↦ install s items ]
  ]

  unfoldable pub resolve_index : TaskListState → Value → Result ℕ Text
  resolve_index s arguments = elim (do v ← get arguments (lit "index"); as_u64 v) [
    | some index ↦
        if index == 0 || ltb (length s.items) index
        then err (lit "task index out of range")
        else ok (index - 1)
    | none ↦ elim (get_str arguments (lit "id")) [
      | none ↦ err (lit "missing `index` or `id` for developer__task_list_update")
      | some id ↦ elim (position id s.items) [
        | some index ↦ ok index
        | none ↦ err (lit "task id not found: " ++ id)
      ]
    ]
  ]

  -- What `update` writes into the item, the title first.
  unfoldable pub update_item : Value → TaskItem → TaskItem
  update_item arguments item = record item {
    title = unwrap_or item.title (trimmed (get_str arguments (lit "title")));
    status = elim (get_str arguments (lit "status")) [
      | none ↦ item.status
      | some status ↦ from_value (some status)
    ];
  }

  unfoldable pub update : TaskListState → Value → TaskListState × Reply
  update s arguments =
      if not (is_nil s.items)
      then elim (resolve_index s arguments) [
        | err e ↦ (s, err e)
        | ok index ↦
            let s' = record s { items = modify index (update_item arguments) s.items } in
            (s', ok (markdown s'))
      ]
      else (s, err (lit "task list has not been created"))

  unfoldable pub finish : TaskListState → Value → TaskListState × Reply
  finish s arguments =
      if not (is_nil s.items)
      then (let s' : TaskListState = record {
        items = map complete s.items;
        report = trimmed (get_str arguments (lit "report"));
      } in
          (s', ok (markdown s')))
      else (s, err (lit "task list has not been created"))

  unfoldable pub execute : TaskListState → Text → Value → TaskListState × Reply
  execute s tool_name arguments =
      if text_eq tool_name (lit "developer__task_list_create")
      then create s arguments
      else if text_eq tool_name (lit "developer__task_list_update")
      then update s arguments
      else if text_eq tool_name (lit "developer__task_list_status")
      then (s, ok (markdown s))
      else if text_eq tool_name (lit "developer__task_list_finish")
      then finish s arguments
      else (s, err (lit "unknown task list tool: " ++ tool_name))
