-- ===== src/CliCommands/TaskCommands.antt =====
-- The commands of CLICommands.cpp that handle tasks: enqueue, dequeue, run, cancel, kill, status,
-- graph and clear. `p` is the address of the object that a command constructs.
use axon_queue.Prelude.{
  ℕ, String, Bool, true, false, Option, none, some, [], ◌∷◌, ◌==◌, string_eq, if◌then◌else◌, int32,
}
use axon_queue.Task.{
  TaskId, TaskPtr, TaskStatus, TaskPriority, running, failed, cancelled, new_task, mark_started,
  mark_completed, mark_failed,
}
use axon_queue.Task.Json.{JsonLib}
use axon_queue.QueueManager.{QueueManager}
use axon_queue.QueueManager
use axon_queue.QueueManager.Access.{find_task, cancel_task}
use axon_queue.QueueManager.Access
use axon_queue.Storage.Database.{RocksDb}
use axon_queue.CliCommands.{
  World, success, error, number, word, object, CliCommands, Result, save_in_pool, status_in_pool,
  log_event, change_task, uint_at, text_at, contains_key, text_or, int_or, time_at, reading,
  finding, task_json,
}

module _ (lib : JsonLib) (rocks : RocksDb lib) (world : World lib) where
  open lib use {Json}
  open world use {what, dot_graph, mark_cancelled, execute}

  abbrev Commands : Type 0
  Commands = CliCommands lib rocks world

  abbrev Answer : Type 0
  Answer = Result lib rocks world

  abbrev pub with_manager : (QueueManager → QueueManager) → Commands → Commands
  with_manager f c = record c { queue_manager = f c.queue_manager }

  -- `std::make_shared<Task>`.
  unfoldable pub make_task : (now : ℕ) → TaskPtr → String → TaskPriority → Commands → Commands
  unfolding change_task
  make_task now p name priority c =
      let (t, next) = new_task c.next_id now name priority in
      change_task lib rocks world p (λ old. t) (record c { next_id = next })

  -- What `enqueue` does once it has the group.
  unfoldable pub enqueue_in : (now : ℕ) → TaskPtr → String → Commands → Answer
  unfolding save_in_pool log_event
  enqueue_in now p group c =
      let c₁ = with_manager (QueueManager.enqueue now (some p) group) c in
      let c₂ = save_in_pool lib rocks world now p c₁ in
      let id = (c₂.queue_manager.tasks p).id in
      (
        success (("task_id", number id) ∷ []),
        log_event lib rocks world now id "created" "Task enqueued" c₂,
      )

  -- The delay, if there is one.
  unfoldable pub delayed : (now : ℕ) → TaskPtr → Json → Commands → Option Commands
  unfolding change_task contains_key time_at
  delayed now p params c =
      if contains_key lib rocks world "delay" params
      then (elim (time_at lib rocks world now "delay" params) [
        | none ↦ none
        | some time ↦
            some (change_task lib rocks world p (λ t. record t { scheduled_for = time }) c)
      ])
      else some c

  -- What `enqueue` does with the task that it has constructed.
  unfoldable pub enqueue_new : (now : ℕ) → TaskPtr → Json → Commands → Answer
  unfolding delayed text_or enqueue_in
  enqueue_new now p params c =
      reading lib rocks world (delayed now p params c) (what "delay" params)
        (λ c₁ _.
          reading lib rocks world (text_or lib rocks world "default" "group" params)
            (what "group" params) (enqueue_in now p) c₁)
        c

  unfoldable pub enqueue : (now : ℕ) → TaskPtr → Json → Commands → Answer
  unfolding text_at int_or make_task enqueue_new
  enqueue now p params c =
      reading lib rocks world (text_at lib rocks world "name" params) (what "name" params)
        (λ name.
          reading lib rocks world (int_or lib rocks world (int32 50) "priority" params)
            (what "priority" params)
            (λ priority c₁. enqueue_new now p params (make_task now p name priority c₁)))
        c

  unfoldable pub dequeue : (now : ℕ) → Commands → Answer
  dequeue now c =
      let (r, m) = QueueManager.dequeue now c.queue_manager in
      let c₁ = record c { queue_manager = m } in
      elim r [
        | none ↦ (error "No tasks available", c₁)
        | some p ↦ (success (("task", object (task_json lib rocks world p c₁)) ∷ []), c₁)
      ]

  -- After `execute` has returned.
  unfoldable pub end_run : (now : ℕ) → TaskId → TaskPtr → Commands → Answer
  unfolding change_task status_in_pool log_event
  end_run now id p c =
      let c₁ = change_task lib rocks world p (mark_completed now) c in
      let c₂ = status_in_pool lib rocks world now id (c₁.queue_manager.tasks p).status c₁ in
      let c₃ = log_event lib rocks world now id "executed" "Task manually executed" c₂ in
      (success (("task", object (task_json lib rocks world p c₃)) ∷ []), c₃)

  unfoldable pub begin_run : (now : ℕ) → TaskId → TaskPtr → Commands → Answer
  unfolding change_task end_run
  begin_run now id p c =
      let c₁ = change_task lib rocks world p (mark_started now) c in
      elim (execute (c₁.queue_manager.tasks p)) [
        | some message ↦ (error message, c₁)
        | none ↦ end_run now id p c₁
      ]

  unfoldable pub run : (now : ℕ) → Json → Commands → Answer
  unfolding uint_at begin_run
  run now params c =
      reading lib rocks world (uint_at lib rocks world "task_id" params) (what "task_id" params)
        (λ id c₁. finding lib rocks world (find_task id c₁.queue_manager) (begin_run now id) c₁) c

  unfoldable pub cancel_by_id : (now : ℕ) → TaskId → Commands → Answer
  unfolding status_in_pool log_event
  cancel_by_id now id c =
      let (ok, m) = cancel_task mark_cancelled id c.queue_manager in
      let c₁ = record c { queue_manager = m } in
      if ok
      then (
        success (("message", word "Task cancelled") ∷ []),
        log_event lib rocks world now id "cancelled" "Task cancelled"
            (status_in_pool lib rocks world now id cancelled c₁),
      )
      else (error "Failed to cancel task", c₁)

  unfoldable pub cancel : (now : ℕ) → Json → Commands → Answer
  unfolding uint_at cancel_by_id
  cancel now params c =
      reading lib rocks world (uint_at lib rocks world "task_id" params) (what "task_id" params)
        (cancel_by_id now) c

  abbrev is_running : TaskStatus → Bool
  is_running running = true
  is_running _ = false

  unfoldable pub kill_found : (now : ℕ) → TaskId → Option TaskPtr → Commands → Answer
  unfolding change_task status_in_pool log_event
  kill_found now id none c = (error "Task not running", c)
  kill_found now id (some p) c =
      if is_running (c.queue_manager.tasks p).status
      then (
        success [],
        log_event lib rocks world now id "killed" "Task forcefully terminated" (
            status_in_pool lib rocks world now id failed
              (change_task lib rocks world p (mark_failed now "Task killed by user") c)),
      )
      else (error "Task not running", c)

  unfoldable pub kill : (now : ℕ) → Json → Commands → Answer
  unfolding uint_at kill_found
  kill now params c =
      reading lib rocks world (uint_at lib rocks world "task_id" params) (what "task_id" params)
        (λ id c₁. kill_found now id (find_task id c₁.queue_manager) c₁) c

  unfoldable pub status : Json → Commands → Answer
  unfolding uint_at
  status params c =
      reading lib rocks world (uint_at lib rocks world "task_id" params) (what "task_id" params)
        (λ id c₁.
          finding lib rocks world (find_task id c₁.queue_manager)
            (λ p c₂. (success (("task", object (task_json lib rocks world p c₂)) ∷ []), c₂)) c₁)
        c

  unfoldable pub graph : Json → Commands → Answer
  unfolding uint_at
  graph params c =
      reading lib rocks world (uint_at lib rocks world "task_id" params) (what "task_id" params)
        (λ id c₁. (success (("graph", word (dot_graph id c₁.queue_manager)) ∷ []), c₁)) c

  unfoldable pub clear : Json → Commands → Answer
  unfolding text_or
  clear params c =
      reading lib rocks world (text_or lib rocks world "all" "scope" params) (what "scope" params)
        (λ scope c₁. (success [], if scope == "all" then with_manager Access.clear c₁ else c₁)) c
