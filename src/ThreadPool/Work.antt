-- ===== src/ThreadPool/Work.antt =====
-- What a worker of ThreadPool.cpp does to the task that it takes, and to the counters.
use axon_queue.Prelude.{
  ℕ, ◌<◌, ◌≡◌, refl, ap, ◌∙◌, Option, none, some, arith, String, nat_eq, ==_refl, inc64, dec64,
  u64_mod,
}
use axon_queue.Task.{
  Task, TaskPtr, created, queued, running, completed, mark_started, mark_completed, mark_failed,
}
use axon_queue.QueueManager.{QueueManager, set_task}
use axon_queue.ThreadPool.{ThreadPool, Readings, change, finish, run_task, work, update_metrics}

set_task_self : (p : TaskPtr) (t : Task) (tasks : TaskPtr → Task) → set_task p t tasks p ≡ t
set_task_self p t tasks = rw (==_refl p) refl

change-status :
    (t : TaskPtr) (f : Task → Task) (q : QueueManager)
    → ((change t f q).tasks t).status ≡ (f (q.tasks t)).status
change-status t f q = ap (λ x. x.status) (set_task_self t (f (q.tasks t)) q.tasks)

start_created : (now : ℕ) (t : Task) → t.status ≡ created → (mark_started now t).status ≡ created
unfolding mark_started
start_created now t e = ground arith

start_queued : (now : ℕ) (t : Task) → t.status ≡ queued → (mark_started now t).status ≡ running
unfolding mark_started
start_queued now t e = ground arith

finish_created :
    (now : ℕ) (r : Option String) (t : Task)
    → t.status ≡ created
    → (finish now r t).status ≡ created
unfolding finish mark_completed mark_failed
finish_created now none t e = ground arith
finish_created now (some what) t e = ground arith

finish_running :
    (now : ℕ) (r : Option String) (t : Task)
    → t.status ≡ running
    → r ≡ none
    → (finish now r t).status ≡ completed
unfolding finish mark_completed
finish_running now none t e f = ground arith
finish_running now (some what) t e f = cc

-- A task's function that does not touch the status of the task `t`.
abbrev pub Leaves : (TaskPtr → QueueManager → Option String × QueueManager) → TaskPtr → Type 0
Leaves execute t = (q : QueueManager) → ((execute t q).1.tasks t).status ≡ (q.tasks t).status

module _ (execute : TaskPtr → QueueManager → Option String × QueueManager) (t : TaskPtr)
    (leaves : Leaves execute t) (at : Readings) (q : QueueManager) where
  abbrev started_queue : QueueManager
  started_queue = change t (mark_started at.started) q

  started-status :
      ((execute t started_queue).1.tasks t).status ≡ (mark_started at.started (q.tasks t)).status
  started-status = leaves _ ∙ change-status t (mark_started at.started) q

  run_task_created :
      (q.tasks t).status ≡ created → ((run_task execute at t q).tasks t).status ≡ created
  unfolding run_task
  run_task_created e =
      let r = (execute t started_queue).0 in
      change-status t (finish at.finished r) (execute t started_queue).1
      ∙ finish_created at.finished r _ (started-status ∙ start_created _ _ e)

  run_task_queued :
      (q.tasks t).status ≡ queued
      → (execute t started_queue).0 ≡ none
      → ((run_task execute at t q).tasks t).status ≡ completed
  unfolding run_task
  run_task_queued e f =
      let r = (execute t started_queue).0 in
      change-status t (finish at.finished r) (execute t started_queue).1
      ∙ finish_running at.finished r _ (started-status ∙ start_queued _ _ e) f

  work-queue :
      (try_dequeue : QueueManager → Option TaskPtr × QueueManager) (id : ℕ) (p : ThreadPool)
      → try_dequeue p.queue_manager ≡ (some t, q)
      → let p' = work execute try_dequeue id at p in
        (p'.queue_manager ≡ run_task execute at t q)
        × (p'.tasks_processed ≡ inc64 p.tasks_processed)
        × (p'.active_threads ≡ dec64 (inc64 p.active_threads))
  unfolding work update_metrics
  work-queue k id p e =
      rw (ap (λ r. r.0) e, work) (ap (run_task execute at t) (ap (λ r. r.1) e), refl, refl)

-- A worker that takes a task which nobody has marked as queued runs its function and counts it as
-- processed, but the task's status is `created` afterwards, whether the function throws or not. The
-- function is one that does not touch the status.
pub work_created :
    (execute : TaskPtr → QueueManager → Option String × QueueManager)
    (try_dequeue : QueueManager → Option TaskPtr × QueueManager) (id : ℕ) (at : Readings)
    (p : ThreadPool) (t : TaskPtr) (q : QueueManager)
    → Leaves execute t
    → try_dequeue p.queue_manager ≡ (some t, q)
    → (q.tasks t).status ≡ created
    → let p' = work execute try_dequeue id at p in
      ((p'.queue_manager.tasks t).status ≡ created) × (p'.tasks_processed ≡ inc64 p.tasks_processed)
work_created execute k id at p t q leaves e c =
    let (same, count, _) = work-queue execute t leaves at q k id p e in
    (ap (λ m. (m.tasks t).status) same ∙ run_task_created execute t leaves at q c, count)

-- A queued task whose function returns, without touching the status, is completed by the worker
-- that takes it, and the number of active threads is again what it was.
pub work_queued :
    (execute : TaskPtr → QueueManager → Option String × QueueManager)
    (try_dequeue : QueueManager → Option TaskPtr × QueueManager) (id : ℕ) (at : Readings)
    (p : ThreadPool) (t : TaskPtr) (q : QueueManager)
    → Leaves execute t
    → try_dequeue p.queue_manager ≡ (some t, q)
    → (q.tasks t).status ≡ queued
    → ((q' : QueueManager) → (execute t q').0 ≡ none)
    → p.active_threads < u64_mod
    → let p' = work execute try_dequeue id at p in
      ((p'.queue_manager.tasks t).status ≡ completed)
      × (p'.tasks_processed ≡ inc64 p.tasks_processed)
      × (p'.active_threads ≡ p.active_threads)
work_queued execute k id at p t q leaves e c r lt =
    let (same, count, active) = work-queue execute t leaves at q k id p e in
    (
      ap (λ m. (m.tasks t).status) same ∙ run_task_queued execute t leaves at q c (r _),
      count,
      omega (arith, active, lt),
    )
