-- ===== src/Tests/CommandTests.antt =====
-- The theorems on the commands at concrete inputs.
use mathlib.Core.List.{Perm}
use axon_queue.Prelude.{
  ℕ, ◌≡◌, ◌≢◌, refl, arith, true, none, some, [], ◌∷◌, int32, string_eq, nat_eq,
}
use axon_queue.Prelude.Dict
use axon_queue.Prelude.Decimal.{to_string}
use axon_queue.Storage.Tasks.{IsStorable}
use axon_queue.Task.{cancelled, medium, new_task, other, created}
use axon_queue.Task.Json.{text, int, uint}
use axon_queue.Task.Json.Roundtrip.{Restored}
use axon_queue.QueueManager.{new_manager, enqueue}
use axon_queue.QueueManager.Access.{find_task}
use axon_queue.QueueManager.Stored.{stored}
use axon_queue.Storage.{Storage, load_task}
use axon_queue.CliCommands.{
  World, success, number, CliCommands, text_at, uint_at, text_or, int_or, contains_key,
}
use axon_queue.CliCommands.TaskCommands
use axon_queue.CliCommands.Files
use axon_queue.CliCommands.Enqueued.{enqueue_lem, enqueue_succeeds}
use axon_queue.CliCommands.Transfer.{import_task-export_task}
use axon_queue.Tests.Trees.{Tree, empty, plain, get, get_json, tree_lib}
use axon_queue.Tests.Database.{tree_db}
use axon_queue.Tests.Sample as Sample

abbrev pub world : World tree_lib
world = record {
  alive = λ p. true;
  what = λ key json. key;
  parse_error = λ file. "syntax error";
  dot_graph = λ id m. "digraph TaskDependencies {\n}\n";
  mark_cancelled = λ t. record t { status = cancelled };
  execute = λ t. none;
  regex_match = λ text pattern. true;
  writable = λ filename. true;
}

abbrev empty_storage : Storage tree_lib tree_db
empty_storage = record { db = []; wal_sequence = 0 }

abbrev pub commands : CliCommands tree_lib tree_db world
commands = record {
  queue_manager = enqueue 150 (some 4) "default" (new_manager Sample.fresh);
  storage = empty_storage;
  storage_pool = λ i. empty_storage;
  storage_pool_index = 31;
  next_id = 12;
  files = [];
}

abbrev build : Tree
build = plain "name" (text "build") (plain "priority" (int (int32 100)) empty)

enqueue_lem_example :
    let t = record (new_task 12 200 "build" (int32 100)).0 { enqueued_at = 200 } in
    let (answer, c) = TaskCommands.enqueue tree_lib tree_db world 200 9 build commands in
    (answer ≡ success (("task_id", number 12) ∷ []))
    × (find_task 12 c.queue_manager ≡ some 9)
    × (c.queue_manager.tasks 9 ≡ t)
    × Perm (stored c.queue_manager) (9 ∷ stored commands.queue_manager)
    × (load_task tree_lib tree_db (Sample.fresh 7) 12 (c.storage_pool 31)
        ≡ some (Restored tree_lib t (Sample.fresh 7)))
    × (c.next_id ≡ 13)
unfolding text_at int_or contains_key text_or get get_json new_task
enqueue_lem_example =
    enqueue_lem tree_lib tree_db world 200 9 build commands "build" (int32 100) "default"
      (Sample.fresh 7) refl refl refl refl (λ k v db. refl)

enqueue_succeeds_example :
    let t = record (new_task 12 200 "build" (int32 100)).0 { enqueued_at = 200 } in
    let (answer, c) = TaskCommands.enqueue tree_lib tree_db world 200 9 build commands in
    (answer ≡ success (("task_id", number 12) ∷ []))
    × (find_task 12 c.queue_manager ≡ some 9)
    × (c.queue_manager.tasks 9 ≡ t)
    × Perm (stored c.queue_manager) (9 ∷ stored commands.queue_manager)
    × (c.next_id ≡ 13)
unfolding text_at int_or contains_key text_or get get_json new_task
enqueue_succeeds_example =
    enqueue_succeeds tree_lib tree_db world 200 9 build commands "build" (int32 100) "default" refl
      refl refl refl

abbrev by_id : ℕ → Tree
by_id id = plain "task_id" (uint id) empty

abbrev by_file : Tree
by_file = plain "file" (text "task_4.json") empty

known_created : (n : ℕ) → created ≢ other n
known_created n e = ground (arith, e)

IsStorable-queued : IsStorable (commands.queue_manager.tasks 4)
unfolding enqueue new_manager
IsStorable-queued = record {
  enumerator = known_created;
  retry_count = omega arith;
  max_retries = omega arith;
}

import_task-export_task_example :
    let exported = (Files.export_task tree_lib tree_db world (by_id 4) commands).1 in
    let (answer, c) = Files.import_task tree_lib tree_db world 200 9 by_file exported in
    (answer ≡ success (("task_id", number 4) ∷ []))
    × (find_task 4 c.queue_manager ≡ some 9)
    × (c.queue_manager.tasks 9
        ≡ record (Restored tree_lib
            (commands.queue_manager.tasks 4)
            (new_task 12 200 "" medium).0) { enqueued_at = 200 })
    × Perm (stored c.queue_manager) (9 ∷ stored commands.queue_manager)
unfolding uint_at text_at get find_task enqueue Files.file_name Dict.find new_manager Dict.put
    to_string
import_task-export_task_example =
    import_task-export_task tree_lib tree_db world 200 9 4 (by_id 4) by_file commands 4 refl refl
      refl refl IsStorable-queued
