-- ===== src/CliCommands/Settings.antt =====
-- The commands of CLICommands.cpp that change settings: setMode, setConcurrency, setRetry,
-- setDelay, setSchedule and depend, and connect, which the client handles.
use axon_queue.Prelude.{
  ℕ, ◌%◌, ◌^◌, String, Bool, Option, none, some, [], ◌==◌, string_eq, if◌then◌else◌,
}
use axon_queue.Task.{Task, TaskPtr, set_max_retries, add_dependency}
use axon_queue.Task.Json.{JsonLib, text, from_json}
use axon_queue.QueueManager.{QueueMode, fifo, lifo, round_robin, priority}
use axon_queue.QueueManager.SetMode
use axon_queue.QueueManager.Access.{find_task}
use axon_queue.Storage.Database.{RocksDb}
use axon_queue.CliCommands.{
  World, success, error, CliCommands, Result, save_in_pool, change_task, uint_at, text_at, time_at,
  reading, finding, task_json,
}

module _ (lib : JsonLib) (rocks : RocksDb lib) (world : World lib) where
  open lib use {Json, set}
  open world use {what, regex_match}

  abbrev Commands : Type 0
  Commands = CliCommands lib rocks world

  abbrev Answer : Type 0
  Answer = Result lib rocks world

  unfoldable pub mode_of : String → Option QueueMode
  mode_of mode_str =
      if mode_str == "FIFO"
      then some fifo
      else if mode_str == "LIFO"
      then some lifo
      else if mode_str == "ROUND_ROBIN"
      then some round_robin
      else if mode_str == "PRIORITY"
      then some priority
      else none

  unfoldable pub set_mode : Json → Commands → Answer
  unfolding text_at mode_of
  set_mode params c =
      reading lib rocks world (text_at lib rocks world "mode" params) (what "mode" params)
        (λ mode_str. reading lib rocks world (mode_of mode_str) "Invalid queue mode" (λ mode c₁.
          (success [], record c₁ { queue_manager = SetMode.set_mode mode c₁.queue_manager })))
        c

  unfoldable pub set_concurrency : Json → Commands → Answer
  unfolding uint_at
  set_concurrency params c =
      reading lib rocks world (uint_at lib rocks world "threads" params) (what "threads" params)
        (λ threads c₁. (error "Not implemented", c₁)) c

  -- A change of a task that is stored.
  unfoldable pub change_and_save : (now : ℕ) → (Task → Task) → TaskPtr → Commands → Answer
  unfolding change_task save_in_pool
  change_and_save now f p c =
      (success [], save_in_pool lib rocks world now p (change_task lib rocks world p f c))

  unfoldable pub set_retry : (now : ℕ) → Json → Commands → Answer
  unfolding uint_at change_and_save
  set_retry now params c =
      reading lib rocks world (uint_at lib rocks world "task_id" params) (what "task_id" params)
        (λ id.
          reading lib rocks world (uint_at lib rocks world "count" params) (what "count" params)
            (λ count c₁.
              finding lib rocks world (find_task id c₁.queue_manager)
                (change_and_save now (set_max_retries (count % 2 ^ 32))) c₁))
        c

  unfoldable pub set_delay : (now : ℕ) → Json → Commands → Answer
  unfolding uint_at time_at change_and_save
  set_delay now params c =
      reading lib rocks world (uint_at lib rocks world "task_id" params) (what "task_id" params)
        (λ id.
          reading lib rocks world (time_at lib rocks world now "ms" params) (what "ms" params)
            (λ time c₁.
              finding lib rocks world (find_task id c₁.queue_manager)
                (change_and_save now (λ t. record t { scheduled_for = time })) c₁))
        c

  unfoldable pub validate_cron_expression : String → Bool
  validate_cron_expression cron = regex_match cron "^(\\S+\\s+){4}\\S+$"

  -- The task is filled from its own JSON, with the schedule in it.
  unfoldable pub schedule_found : (now : ℕ) → String → TaskPtr → Commands → Answer
  unfolding change_task save_in_pool
  schedule_found now schedule p c =
      let json = set "schedule" (text schedule) (task_json lib rocks world p c) in
      let (t, returned) = from_json lib json (c.queue_manager.tasks p) in
      let c₁ = change_task lib rocks world p (λ old. t) c in
      if returned
      then (success [], save_in_pool lib rocks world now p c₁)
      else (error (what "fromJson" json), c₁)

  unfoldable pub set_schedule : (now : ℕ) → Json → Commands → Answer
  unfolding uint_at text_at validate_cron_expression schedule_found
  set_schedule now params c =
      reading lib rocks world (uint_at lib rocks world "task_id" params) (what "task_id" params)
        (λ id.
          reading lib rocks world (text_at lib rocks world "cron" params) (what "cron" params)
            (λ schedule c₁.
              if validate_cron_expression schedule
              then finding lib rocks world (find_task id c₁.queue_manager)
                  (schedule_found now schedule) c₁
              else (error "Invalid cron expression", c₁)))
        c

  -- The graph of the queue manager is not told.
  unfoldable pub depend : (now : ℕ) → Json → Commands → Answer
  unfolding uint_at change_and_save
  depend now params c =
      reading lib rocks world (uint_at lib rocks world "task_id" params) (what "task_id" params)
        (λ task_id.
          reading lib rocks world (uint_at lib rocks world "on_task_id" params)
            (what "on_task_id" params)
            (λ dep_id c₁.
              finding lib rocks world (find_task task_id c₁.queue_manager)
                (λ task.
                  finding lib rocks world (find_task dep_id c₁.queue_manager)
                    (λ dep_task. change_and_save now (add_dependency dep_task) task))
                c₁))
        c

  unfoldable pub connect : Json → Commands → Answer
  connect params c = (error "Command should be handled by client", c)
