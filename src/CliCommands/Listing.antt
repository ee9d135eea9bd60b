-- ===== src/CliCommands/Listing.antt =====
-- The commands of CLICommands.cpp that load all tasks: list and ready. The loading constructs an
-- object for each record that can be parsed, whose ids come from `Task::next_id_`.
use axon_queue.Prelude.{
  ℕ, suc, ◌+◌, ◌%◌, String, Bool, true, false, ◌&&◌, none, some, List, [], ◌∷◌, map, if◌then◌else◌,
  leb, u64_mod,
}
use axon_queue.Task.{Task, TaskStatus, queued, medium, new_task, are_dependencies_met}
use axon_queue.Task.Json.{JsonLib, to_json}
use axon_queue.Storage.{Storage, task_prefix, load_all_tasks}
use axon_queue.Storage.Database.{RocksDb, prefixed}
use axon_queue.CliCommands.{
  World, success, objects, CliCommands, Result, text_or, reading, lock, get_storage_from_pool,
}
use axon_queue.CliCommands.Batches.{batch_process}

module _ (lib : JsonLib) (rocks : RocksDb lib) (world : World lib) where
  open lib use {Json, Text, parse}
  open rocks use {seek}
  open world use {what}

  abbrev Commands : Type 0
  Commands = CliCommands lib rocks world

  abbrev Answer : Type 0
  Answer = Result lib rocks world

  -- The number of tasks that are constructed.
  unfoldable pub count_parsed : List (String × Text) → ℕ
  count_parsed [] = 0
  count_parsed ((k, value) ∷ rest) = elim (parse value) [
    | none ↦ count_parsed rest
    | some json ↦ suc (count_parsed rest)
  ]

  -- `loadAllTasks` on a storage.
  unfoldable pub load_from : (now : ℕ) → Storage lib rocks → Commands → List Task × Commands
  unfolding count_parsed
  load_from now s c = (
    load_all_tasks lib rocks (λ n. (new_task ((c.next_id + n) % u64_mod) now "" medium).0) s,
    record c {
      next_id = (c.next_id + count_parsed (prefixed task_prefix (seek task_prefix s.db))) % u64_mod;
    },
  )

  -- The filter of `list` returns an object or null, and `batchProcess` drops what it returns.
  unfoldable pub list_stored :
      (finished : List (List Task) → List (List Task)) → (now : ℕ) → Commands → Answer
  unfolding get_storage_from_pool load_from
  list_stored finished now c =
      let (index, c₁) = get_storage_from_pool lib rocks world c in
      let (tasks, c₂) = load_from now (c₁.storage_pool index) c₁ in
      (
        success (
            (
              "tasks",
              objects
                  (map (to_json lib (lock lib rocks world c₂)) (batch_process finished 100 tasks)),
            )
            ∷ []),
        c₂,
      )

  unfoldable pub list :
      (finished : List (List Task) → List (List Task)) → (now : ℕ) → Json → Commands → Answer
  unfolding text_or list_stored
  list finished now params c =
      reading lib rocks world (text_or lib rocks world "all" "state" params) (what "state" params)
        (λ state. list_stored finished now) c

  abbrev is_queued : TaskStatus → Bool
  is_queued queued = true
  is_queued _ = false

  -- The loop of `ready`.
  unfoldable pub ready_tasks : (now : ℕ) → List Task → Commands → List Json
  ready_tasks now [] c = []
  ready_tasks now (t ∷ ts) c =
      let rest = ready_tasks now ts c in
      let tasks = lock lib rocks world c in
      if is_queued t.status && are_dependencies_met tasks t && leb t.scheduled_for now
      then to_json lib tasks t ∷ rest
      else rest

  unfoldable pub ready : (now : ℕ) → Commands → Answer
  unfolding load_from ready_tasks
  ready now c =
      let (tasks, c₁) = load_from now c.storage c in
      (success (("tasks", objects (ready_tasks now tasks c₁)) ∷ []), c₁)
