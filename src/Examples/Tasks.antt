-- ===== src/Examples/Tasks.antt =====
-- Runs of crates/night24-agent-core/src/task_list.rs.
use night.Text.{lit}
use night.AgentCore.TaskList.Numbering.{IsNumbered, run, run-IsNumbered, resolve_index-same}
use night.AgentCore.TaskList.{
  TaskListState, resolve_index, update, execute, markdown, has_open_tasks, finish, initial,
  TaskItem, is_completed, update_item,
}
use night.Examples.{Toy, entry, toy, single, num, str}
use night.Prelude.{ok, length, ◌≡◌, refl, ◌∷◌, [], arith}

abbrev one_task : Toy
one_task = entry (lit "tasks") (single (str (lit "write")))

abbrev created : TaskListState
created = run toy initial ((lit "developer__task_list_create", one_task) ∷ [])

abbrev by_index : Toy
by_index = entry (lit "index") (num 1)

abbrev by_id : Toy
by_id = entry (lit "id") (str (lit "task-1"))

length-created : length created.items ≡ 1
unfolding execute night.Text.text_eq night.AgentCore.TaskList.create
    night.AgentCore.TaskList.create_items night.AgentCore.TaskList.task_item_from_value
    night.Text.Parts.trim night.AgentCore.TaskList.install
length-created = refl

run-IsNumbered_example : IsNumbered created
run-IsNumbered_example = run-IsNumbered toy ((lit "developer__task_list_create", one_task) ∷ [])

resolve_index-same_example :
    (resolve_index toy created by_index ≡ ok 0) × (resolve_index toy created by_id ≡ ok 0)
unfolding night.Text.text_eq night.Text.Decimal.to_decimal
resolve_index-same_example =
    resolve_index-same toy ((lit "developer__task_list_create", one_task) ∷ []) 0 by_index by_id
      (omega (arith, length-created)) (omega (arith, length-created)) refl refl refl
