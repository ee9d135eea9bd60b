-- ===== src/CliCommands/Transfer.antt =====
-- A task that exportTask of CLICommands.cpp writes to a file, and importTask reads again.
use mathlib.Core.List.{Perm}
use axon_queue.Prelude.{ℕ, ◌≡◌, refl, sym, ap, ◌∙◌, true, some, [], ◌∷◌, string_eq, ==_refl}
use axon_queue.Prelude.Dict.{find, put, find-put}
use axon_queue.Task.{Task, TaskId, TaskPtr, medium, new_task}
use axon_queue.Task.Json.{JsonLib, from_json}
use axon_queue.Task.Json.Roundtrip.{Restored, from_json-to_json}
use axon_queue.QueueManager.{QueueManager}
use axon_queue.QueueManager
use axon_queue.QueueManager.Access.{find_task}
use axon_queue.QueueManager.Stored.{stored}
use axon_queue.QueueManager.Entered.{set_task-same, enqueue-task, find_task-enqueue, enqueue-perm}
use axon_queue.Storage.Database.{RocksDb}
use axon_queue.Storage.Tasks.{IsStorable}
use axon_queue.CliCommands.{
  World, success, number, word, CliCommands, Result, save_in_pool, on_pool, change_task, uint_at,
  text_at, lock, task_json,
}
use axon_queue.CliCommands.TaskCommands.{with_manager, make_task}
use axon_queue.CliCommands.Files.{
  file_name, write_file, with_file, export_task, import_json, import_task,
}
use axon_queue.CliCommands.Enqueued.{make_task-task}

module _ (lib : JsonLib) (rocks : RocksDb lib) (world : World lib) where
  open lib use {Json, Text, dump, parse-dump}
  open world use {writable}

  abbrev Commands : Type 0
  Commands = CliCommands lib rocks world

  abbrev with_export : TaskId → TaskPtr → Commands → Commands
  with_export id q c = record c {
    files = put (file_name lib rocks world id) (dump (task_json lib rocks world q c)) c.files;
  }

  export_task_eq :
      (params : Json) (c : Commands) (id : TaskId) (q : TaskPtr)
      → uint_at lib rocks world "task_id" params ≡ some id
      → find_task id c.queue_manager ≡ some q
      → writable (file_name lib rocks world id) ≡ true
      → export_task lib rocks world params c
        ≡ (success (("file", word (file_name lib rocks world id)) ∷ []), with_export id q c)
  unfolding export_task write_file
  export_task_eq params c id q u f w = rw (u, f, w) refl

  -- The commands after `importTask` has filled the new object with `t`.
  abbrev filled : ℕ → TaskPtr → Task → Commands → Commands
  filled now p t c =
      change_task lib rocks world p (λ old. t) (make_task lib rocks world now p "" medium c)

  import_json_eq :
      (now : ℕ) (p : TaskPtr) (json : Json) (t : Task) (c : Commands)
      → from_json lib json (new_task c.next_id now "" medium).0 ≡ (t, true)
      → import_json lib rocks world now p json c ≡ (
        success (("task_id", number t.id) ∷ []),
        with_manager lib rocks world
            (QueueManager.enqueue now (some p) "default")
            (save_in_pool lib rocks world now p (filled now p t c)),
      )
  unfolding import_json
  import_json_eq now p json t c e =
      let filling : from_json lib json
            ((make_task lib rocks world now p "" medium c).queue_manager.tasks p)
          ≡ (t, true) =
        ap (from_json lib json) (make_task-task lib rocks world now p "" medium c) ∙ e in
      rw filling refl

  import_task_eq :
      (now : ℕ) (p : TaskPtr) (params : Json) (id : TaskId) (q : TaskPtr) (c : Commands)
      → text_at lib rocks world "file" params ≡ some (file_name lib rocks world id)
      → import_task lib rocks world now p params (with_export id q c)
        ≡ import_json lib rocks world now p (task_json lib rocks world q c) (with_export id q c)
  unfolding import_task with_file
  import_task_eq now p params id q c e =
      let name = file_name lib rocks world id in
      let file = dump (task_json lib rocks world q c) in
      let found : find name (put name file c.files) ≡ some file =
        find-put name name file c.files ∙ rw (==_refl name) refl in
      rw (e, found, parse-dump (task_json lib rocks world q c)) refl

  -- When the file can be written, a task that is exported and then imported from that file is
  -- answered with its id, and the manager knows the new object under that id, holds it besides all
  -- that it held, and has in it what the file keeps of the task.
  pub import_task-export_task :
      (now : ℕ) (p q : TaskPtr) (export_params import_params : Json) (c : Commands) (id : TaskId)
      → uint_at lib rocks world "task_id" export_params ≡ some id
      → find_task id c.queue_manager ≡ some q
      → writable (file_name lib rocks world id) ≡ true
      → text_at lib rocks world "file" import_params ≡ some (file_name lib rocks world id)
      → IsStorable (c.queue_manager.tasks q)
      → let t = c.queue_manager.tasks q in
        let restored = Restored lib t (new_task c.next_id now "" medium).0 in
        let exported = (export_task lib rocks world export_params c).1 in
        let (answer, c') = import_task lib rocks world now p import_params exported in
        (answer ≡ success (("task_id", number t.id) ∷ []))
        × (find_task t.id c'.queue_manager ≡ some p)
        × (c'.queue_manager.tasks p ≡ record restored { enqueued_at = now })
        × Perm (stored c'.queue_manager) (p ∷ stored c.queue_manager)
  unfolding save_in_pool on_pool change_task make_task
  import_task-export_task now p q export_params import_params c id u f w e i =
      let t = c.queue_manager.tasks q in
      let new = (new_task c.next_id now "" medium).0 in
      let restored : Task = Restored lib t new in
      let c₁ = with_export id q c in
      let made = make_task lib rocks world now p "" medium c₁ in
      let m = (filled now p restored c₁).queue_manager in
      let same : m.tasks p ≡ restored = set_task-same p restored made.queue_manager.tasks in
      let read =
        from_json-to_json lib (lock lib rocks world c) t new i.enumerator i.retry_count
          i.max_retries in
      rw
        (
          ap (λ (r : Result lib rocks world). r.1) (export_task_eq export_params c id q u f w),
          import_task_eq now p import_params id q c e,
          import_json_eq now p (task_json lib rocks world q c) restored c₁ read,
        )
        (
          refl,
          ap (λ (r : Task). find_task r.id (QueueManager.enqueue now (some p) "default" m))
                (sym same)
              ∙ find_task-enqueue now p "default" m,
          enqueue-task now p "default" m ∙ ap {A = Task} (λ r. record r { enqueued_at = now }) same,
          enqueue-perm now p "default" m,
        )
