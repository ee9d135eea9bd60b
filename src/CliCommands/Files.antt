-- ===== src/CliCommands/Files.antt =====
-- The commands of CLICommands.cpp that read and write files (submit, exportTask, importTask) and
-- those that load all tasks (list, ready).
use Prim.Native.String.{◌++◌ as append}
use axon_queue.Prelude.{ℕ, String, Option, none, some, [], ◌∷◌, if◌then◌else◌, string_eq}
use axon_queue.Prelude.Dict.{find, put}
use axon_queue.Prelude.Decimal.{to_string}
use axon_queue.Task.{TaskId, TaskPtr, medium}
use axon_queue.Task.Json.{JsonLib, from_json}
use axon_queue.QueueManager
use axon_queue.QueueManager.Access.{find_task}
use axon_queue.Storage.Database.{RocksDb}
use axon_queue.CliCommands.{
  World, success, error, number, word, CliCommands, Result, save_in_pool, change_task, uint_at,
  text_at, reading, finding, task_json,
}
use axon_queue.CliCommands.TaskCommands.{make_task, enqueue, with_manager}

module _ (lib : JsonLib) (rocks : RocksDb lib) (world : World lib) where
  open lib use {Json, Text, dump, parse}
  open world use {what, parse_error, writable}

  abbrev Commands : Type 0
  Commands = CliCommands lib rocks world

  abbrev Answer : Type 0
  Answer = Result lib rocks world

  -- A file that is opened, parsed and used.
  unfoldable pub with_file : (Json → Commands → Answer) → Option Text → Commands → Answer
  with_file rest none c = (error "Cannot open file", c)
  with_file rest (some file) c = reading lib rocks world (parse file) (parse_error file) rest c

  unfoldable pub submit : (now : ℕ) → TaskPtr → Json → Commands → Answer
  unfolding text_at with_file
  submit now p params c =
      reading lib rocks world (text_at lib rocks world "file" params) (what "file" params)
        (λ filename c₁. with_file (enqueue lib rocks world now p) (find filename c₁.files) c₁) c

  unfoldable pub file_name : TaskId → String
  file_name id = append (append "task_" (to_string id)) ".json"

  -- A stream that could not be opened takes no output.
  unfoldable pub write_file : String → Json → Commands → Commands
  write_file filename json c =
      if writable filename then record c { files = put filename (dump json) c.files } else c

  unfoldable pub export_task : Json → Commands → Answer
  unfolding uint_at file_name write_file
  export_task params c =
      reading lib rocks world (uint_at lib rocks world "task_id" params) (what "task_id" params)
        (λ id c₁.
          finding lib rocks world (find_task id c₁.queue_manager)
            (λ p c₂. (
              success (("file", word (file_name id)) ∷ []),
              write_file (file_name id) (task_json lib rocks world p c₂) c₂,
            ))
            c₁)
        c

  unfoldable pub import_json : (now : ℕ) → TaskPtr → Json → Commands → Answer
  unfolding make_task change_task save_in_pool
  import_json now p task_def c =
      let c₁ = make_task lib rocks world now p "" medium c in
      let (t, returned) = from_json lib task_def (c₁.queue_manager.tasks p) in
      let c₂ = change_task lib rocks world p (λ old. t) c₁ in
      if returned
      then (
        success (("task_id", number t.id) ∷ []),
        with_manager lib rocks world (QueueManager.enqueue now (some p) "default")
            (save_in_pool lib rocks world now p c₂),
      )
      else (error (what "fromJson" task_def), c₂)

  unfoldable pub import_task : (now : ℕ) → TaskPtr → Json → Commands → Answer
  unfolding text_at with_file import_json
  import_task now p params c =
      reading lib rocks world (text_at lib rocks world "file" params) (what "file" params)
        (λ filename c₁. with_file (import_json now p) (find filename c₁.files) c₁) c
