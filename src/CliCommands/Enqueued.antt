-- ===== src/CliCommands/Enqueued.antt =====
-- What the command enqueue of CLICommands.cpp leaves in the queue manager and in the pool.
use mathlib.Core.List.{Perm}
use axon_queue.Prelude.{
  ℕ, ◌≡◌, ◌≢◌, refl, sym, ap, ◌∙◌, String, true, false, some, [], ◌∷◌, arith, int32,
}
use axon_queue.Task.{Task, TaskPtr, TaskPriority, created, other, new_task}
use axon_queue.Task.Json.{JsonLib}
use axon_queue.Task.Json.Roundtrip.{Restored}
use axon_queue.QueueManager.{QueueManager}
use axon_queue.QueueManager
use axon_queue.QueueManager.Access.{find_task}
use axon_queue.QueueManager.Stored.{stored}
use axon_queue.QueueManager.Entered.{set_task-same, enqueue-task, find_task-enqueue, enqueue-perm}
use axon_queue.Storage.{save_task, load_task, append_to_wal}
use axon_queue.Storage.Database.{RocksDb}
use axon_queue.Storage.Tasks.{IsStorable, load_task-save_task}
use axon_queue.CliCommands.{
  World, success, number, CliCommands, save_in_pool, log_event, log_entry, on_pool, change_task,
  text_at, contains_key, text_or, int_or, lock,
}
use axon_queue.CliCommands.TaskCommands.{
  with_manager, make_task, delayed, enqueue_in, enqueue_new, enqueue,
}
use axon_queue.CliCommands.Pool.{slot, on_pool-same, on_pool-other, slot-on_pool, save_task_works}

module _ (lib : JsonLib) (rocks : RocksDb lib) (world : World lib) where
  open lib use {Json, Text}
  open rocks use {Db, put}

  abbrev Commands : Type 0
  Commands = CliCommands lib rocks world

  enqueue_eq :
      (now : ℕ) (p : TaskPtr) (params : Json) (c : Commands) (name : String)
      (priority : TaskPriority) (group : String)
      → text_at lib rocks world "name" params ≡ some name
      → int_or lib rocks world (int32 50) "priority" params ≡ some priority
      → contains_key lib rocks world "delay" params ≡ false
      → text_or lib rocks world "default" "group" params ≡ some group
      → enqueue lib rocks world now p params c
        ≡ enqueue_in lib rocks world now p group (make_task lib rocks world now p name priority c)
  unfolding enqueue enqueue_new delayed
  enqueue_eq now p params c name priority group n q d g = rw (n, q, d, g) refl

  pub make_task-task :
      (now : ℕ) (p : TaskPtr) (name : String) (priority : TaskPriority) (c : Commands)
      → (make_task lib rocks world now p name priority c).queue_manager.tasks p
        ≡ (new_task c.next_id now name priority).0
  unfolding make_task change_task
  make_task-task now p name priority c =
      set_task-same p (new_task c.next_id now name priority).0 c.queue_manager.tasks

  -- The storage that `save_in_pool` uses, after the event has been logged in the next one.
  logged_slot :
      (now : ℕ) (p : TaskPtr) (id : ℕ) (event details : String) (c : Commands)
      → (log_event lib rocks world now id event details
            (save_in_pool lib rocks world now p c)).storage_pool
          (slot lib rocks world c)
        ≡ (save_task lib rocks
            (lock lib rocks world c)
            now
            (some (c.queue_manager.tasks p))
            (c.storage_pool (slot lib rocks world c))).1
  unfolding log_event save_in_pool
  logged_slot now p id event details c =
      let save =
        save_task lib rocks (lock lib rocks world c) now (some (c.queue_manager.tasks p)) in
      let entry = log_entry lib rocks world now id event details in
      on_pool-other lib rocks world (append_to_wal lib rocks now "event_log" entry)
        (save_in_pool lib rocks world now p c) (slot lib rocks world c)
        (slot-on_pool lib rocks world save c)
      ∙ on_pool-same lib rocks world save c

  created_known : (n : ℕ) → created ≢ other n
  created_known n e = ground (arith, e)

  IsStorable-new :
      (id now later : ℕ) (name : String) (priority : TaskPriority)
      → IsStorable (record (new_task id now name priority).0 { enqueued_at = later })
  unfolding new_task
  IsStorable-new id now later name priority = record {
    enumerator = λ n. created_known n;
    retry_count = omega arith;
    max_retries = omega arith;
  }

  pub enqueue_lem :
      (now : ℕ) (p : TaskPtr) (params : Json) (c : Commands) (name : String)
      (priority : TaskPriority) (group : String) (fresh : Task)
      → text_at lib rocks world "name" params ≡ some name
      → int_or lib rocks world (int32 50) "priority" params ≡ some priority
      → contains_key lib rocks world "delay" params ≡ false
      → text_or lib rocks world "default" "group" params ≡ some group
      → ((k : String) (v : Text) (db : Db) → (put k v db).0 ≡ true)
      → let (t, next) = new_task c.next_id now name priority in
        let entered = record t { enqueued_at = now } in
        let (answer, c') = enqueue lib rocks world now p params c in
        (answer ≡ success (("task_id", number c.next_id) ∷ []))
        × (find_task c.next_id c'.queue_manager ≡ some p)
        × (c'.queue_manager.tasks p ≡ entered)
        × Perm (stored c'.queue_manager) (p ∷ stored c.queue_manager)
        × (load_task lib rocks fresh c.next_id (c'.storage_pool (slot lib rocks world c))
            ≡ some (Restored lib entered fresh))
        × (c'.next_id ≡ next)
  unfolding enqueue_in save_in_pool log_event on_pool make_task change_task new_task
  enqueue_lem now p params c name priority group fresh n q d g works =
      let made = make_task lib rocks world now p name priority c in
      let c₁ = with_manager lib rocks world (QueueManager.enqueue now (some p) group) made in
      let entered = record (new_task c.next_id now name priority).0 { enqueued_at = now } in
      let s = c.storage_pool (slot lib rocks world c) in
      let tasks = lock lib rocks world c₁ in
      let saved = λ (t : Task). (save_task lib rocks tasks now (some t) s).1 in
      let new = make_task-task now p name priority c in
      let task : c₁.queue_manager.tasks p ≡ entered =
        enqueue-task now p group made.queue_manager
        ∙ ap {A = Task} (λ t. record t { enqueued_at = now }) new in
      let load = load_task lib rocks fresh c.next_id in
      rw (enqueue_eq now p params c name priority group n q d g) (
        ap (λ t. success (("task_id", number t.id) ∷ [])) task,
        ap (λ t. find_task t.id c₁.queue_manager) (sym new)
            ∙ find_task-enqueue now p group made.queue_manager,
        task,
        enqueue-perm now p group made.queue_manager,
        ap load (logged_slot now p _ "created" "Task enqueued" c₁)
            ∙ (ap (λ t. load (saved t)) task
                ∙ (load_task-save_task lib rocks tasks now entered fresh s
                    (IsStorable-new c.next_id now now name priority)
                    (save_task_works lib rocks world tasks now entered s works)).0),
        refl,
      )

  pub enqueue_succeeds :
      (now : ℕ) (p : TaskPtr) (params : Json) (c : Commands) (name : String)
      (priority : TaskPriority) (group : String)
      → text_at lib rocks world "name" params ≡ some name
      → int_or lib rocks world (int32 50) "priority" params ≡ some priority
      → contains_key lib rocks world "delay" params ≡ false
      → text_or lib rocks world "default" "group" params ≡ some group
      → let (t, next) = new_task c.next_id now name priority in
        let (answer, c') = enqueue lib rocks world now p params c in
        (answer ≡ success (("task_id", number c.next_id) ∷ []))
        × (find_task c.next_id c'.queue_manager ≡ some p)
        × (c'.queue_manager.tasks p ≡ record t { enqueued_at = now })
        × Perm (stored c'.queue_manager) (p ∷ stored c.queue_manager)
        × (c'.next_id ≡ next)
  unfolding enqueue_in save_in_pool log_event on_pool make_task change_task new_task
  enqueue_succeeds now p params c name priority group n q d g =
      let made = make_task lib rocks world now p name priority c in
      let c₁ = with_manager lib rocks world (QueueManager.enqueue now (some p) group) made in
      let entered = record (new_task c.next_id now name priority).0 { enqueued_at = now } in
      let new = make_task-task now p name priority c in
      let task : c₁.queue_manager.tasks p ≡ entered =
        enqueue-task now p group made.queue_manager
        ∙ ap {A = Task} (λ t. record t { enqueued_at = now }) new in
      rw (enqueue_eq now p params c name priority group n q d g) (
        ap (λ t. success (("task_id", number t.id) ∷ [])) task,
        ap (λ t. find_task t.id c₁.queue_manager) (sym new)
            ∙ find_task-enqueue now p group made.queue_manager,
        task,
        enqueue-perm now p group made.queue_manager,
        refl,
      )
