-- ===== src/ThreadPool.antt =====
-- src/core/ThreadPool.cpp and include/core/ThreadPool.hpp: the state of the pool, its control
-- operations, one iteration of a worker's loop and `submit`. A thread is modelled by whether it is
-- joinable. The queue manager's `pause`, `resume` and `tryDequeue`, which the sources call and do
-- not define, are parameters, and so is what a task's function does.
pub mod Resize
pub mod Work
use axon_queue.Prelude.{
  ℕ, zero, suc, ◌+◌, ◌-◌, ◌%◌, ◌/◌, ◌^◌, Bool, true, false, not, ◌&&◌, Option, none, some, List, [],
  ◌∷◌, ◌++◌, ◌==◌, nat_eq, if◌then◌else◌, ltb, length, inc64, dec64, String,
}
use axon_queue.Task.{Task, TaskPtr, new_task, medium, mark_started, mark_completed, mark_failed}
use axon_queue.QueueManager.{QueueManager, set_task, enqueue}

pub record WorkerHealth : Type 0 where
  pub last_heartbeat : ℕ
  pub tasks_processed : ℕ
  pub is_busy : Bool

-- `latencies` holds the durations that have been added to the `double` `total_task_latency_`, the
-- last one first.
pub record ThreadPool : Type 0 where
  pub threads : List Bool
  pub queue_manager : QueueManager
  pub should_stop : Bool
  pub paused : Bool
  pub active_threads : ℕ
  pub tasks_processed : ℕ
  pub latencies : List ℕ
  pub worker_health : List WorkerHealth

abbrev pub no_health : WorkerHealth
no_health = record { last_heartbeat = 0; tasks_processed = 0; is_busy = false }

-- `std::vector::resize`, with the element that it appends.
unfoldable pub resize {ℓ} : {A : Type ℓ} → ℕ → A → List A → List A
resize zero d xs = []
resize (suc n) d [] = d ∷ resize n d []
resize (suc n) d (x ∷ xs) = x ∷ resize n d xs

-- A new thread is started, unless the pool is stopping, in each place that `adjustThreadPool` adds.
unfoldable pub adjust_thread_pool : (target_size : ℕ) → ThreadPool → ThreadPool
unfolding resize
adjust_thread_pool target_size p =
    let p₁ = record p { worker_health = resize target_size no_health p.worker_health } in
    if ltb (length p₁.threads) target_size
    then record p₁ { threads = resize target_size (not p₁.should_stop) p₁.threads }
    else p₁

unfoldable pub new_pool : QueueManager → (num_threads : ℕ) → ThreadPool
unfolding adjust_thread_pool
new_pool queue_manager num_threads = adjust_thread_pool num_threads (record {
  threads = [];
  queue_manager = queue_manager;
  should_stop = false;
  paused = false;
  active_threads = 0;
  tasks_processed = 0;
  latencies = [];
  worker_health = resize num_threads no_health [];
})

-- The loop of `start`: a thread that is not joinable is started.
unfoldable pub start_threads : List Bool → List Bool
start_threads [] = []
start_threads (joinable ∷ ts) = (if not joinable then true else joinable) ∷ start_threads ts

unfoldable pub start : ThreadPool → ThreadPool
unfolding start_threads
start p = record p { should_stop = false; paused = false; threads = start_threads p.threads }

module _ (resume_queue : QueueManager → QueueManager) where
  -- `stop` joins the threads, and then removes them all.
  unfoldable pub stop : ThreadPool → ThreadPool
  stop p = record p {
    should_stop = true;
    queue_manager = resume_queue p.queue_manager;
    threads = [];
    active_threads = 0;
  }

  unfoldable pub resume : ThreadPool → ThreadPool
  resume p = record p { paused = false; queue_manager = resume_queue p.queue_manager }

  unfoldable pub set_num_threads : (num_threads : ℕ) → ThreadPool → ThreadPool
  unfolding stop adjust_thread_pool start
  set_num_threads n p =
      if n == length p.threads
      then p
      else (let p₁ = if ltb n (length p.threads) then stop p else p in
          let p₂ = adjust_thread_pool n p₁ in if not p₂.should_stop then start p₂ else p₂)

unfoldable pub pause : (pause_queue : QueueManager → QueueManager) → ThreadPool → ThreadPool
pause pause_queue p = record p { paused = true; queue_manager = pause_queue p.queue_manager }

-- A change of the health record of a worker.
unfoldable pub at_worker : ℕ → (WorkerHealth → WorkerHealth) → List WorkerHealth → List WorkerHealth
at_worker i f [] = []
at_worker zero f (h ∷ hs) = f h ∷ hs
at_worker (suc i) f (h ∷ hs) = h ∷ at_worker i f hs

unfoldable pub update_metrics : (task_duration : ℕ) → ThreadPool → ThreadPool
update_metrics d p = record p {
  tasks_processed = inc64 p.tasks_processed;
  latencies = d ∷ p.latencies;
}

-- The readings of the clocks in one iteration; `began` and `ended` are those of the
-- high-resolution clock.
pub record Readings : Type 0 where
  pub heartbeat : ℕ
  pub started : ℕ
  pub finished : ℕ
  pub began : ℕ
  pub ended : ℕ

-- What follows the task's function: the mark, or with the message of an exception the failure.
unfoldable pub finish : ℕ → Option String → Task → Task
finish now none t = mark_completed now t
finish now (some what) t = mark_failed now what t

abbrev pub change : TaskPtr → (Task → Task) → QueueManager → QueueManager
change t f q = record q { tasks = set_task t (f (q.tasks t)) q.tasks }

module _ (execute : TaskPtr → QueueManager → Option String × QueueManager) where
  -- The `try` block: the task's function may throw, and may change the queue manager.
  unfoldable pub run_task : Readings → TaskPtr → QueueManager → QueueManager
  unfolding finish
  run_task at t q =
      let (exception, q') = execute t (change t (mark_started at.started) q) in
      change t (finish at.finished exception) q'

  -- One iteration of the loop of `workerFunction`.
  unfoldable pub work :
      (try_dequeue : QueueManager → Option TaskPtr × QueueManager)
      → (worker_id : ℕ) → Readings
      → ThreadPool
      → ThreadPool
  unfolding at_worker run_task update_metrics
  work try_dequeue id at p =
      let beat : WorkerHealth → WorkerHealth =
        λ h. record h { last_heartbeat = at.heartbeat; is_busy = false } in
      let p₁ = record p { worker_health = at_worker id beat p.worker_health } in
      let (r, q) = try_dequeue p₁.queue_manager in
      elim r [
        | none ↦ record p₁ { queue_manager = q }
        | some t ↦
            let busy : WorkerHealth → WorkerHealth = λ h. record h { is_busy = true } in
            let p₂ = record p₁ {
              worker_health = at_worker id busy p₁.worker_health;
              active_threads = inc64 p₁.active_threads;
              queue_manager = run_task at t q;
            } in
            let p₃ = update_metrics (at.ended - at.began) p₂ in
            let processed : WorkerHealth → WorkerHealth =
              λ h. record h { tasks_processed = inc64 h.tasks_processed } in
            record p₃ {
              worker_health = at_worker id processed p₃.worker_health;
              active_threads = dec64 p₃.active_threads;
            }
      ]

-- `submit`, with the object `t` that is allocated; the next task id is returned too.
unfoldable pub submit : (next_id now : ℕ) → TaskPtr → ThreadPool → ThreadPool × ℕ
unfolding new_task
submit next_id now t p =
    let (task, next_id') = new_task next_id now "async_task" medium in
    let q = change t (λ _. task) p.queue_manager in
    (record p { queue_manager = enqueue now (some t) "default" q }, next_id')

abbrev pub ticks_per_second : ℕ
ticks_per_second = 10 ^ 9

-- The loop of `isHealthy`. A heartbeat later than `now` gives no wait.
unfoldable pub all_healthy : (now : ℕ) → List WorkerHealth → Bool
all_healthy now [] = true
all_healthy now (h ∷ hs) =
    not (ltb 5 ((now - h.last_heartbeat) / ticks_per_second)) && all_healthy now hs

unfoldable pub is_healthy : (now : ℕ) → ThreadPool → Bool
unfolding all_healthy
is_healthy now p = all_healthy now p.worker_health
