-- ===== src/Tests/PoolTests.antt =====
-- The theorems on the thread pool at concrete inputs.
use axon_queue.Prelude.{◌≡◌, refl, [], ◌∷◌, Option, none, some, true, false, arith, String, length}
use axon_queue.Task.{Task, TaskPtr, created, queued, completed}
use axon_queue.QueueManager.{QueueManager, new_manager}
use axon_queue.ThreadPool.{ThreadPool, Readings, no_health, start, set_num_threads, work}
use axon_queue.ThreadPool.Resize.{AreAll, set_num_threads_shrink}
use axon_queue.ThreadPool.Work.{Leaves, work_created, work_queued}
use axon_queue.Tests.Sample.{fresh, with_status}

abbrev two_workers : (TaskPtr → Task) → ThreadPool
two_workers tasks = record {
  threads = true ∷ true ∷ [];
  queue_manager = new_manager tasks;
  should_stop = false;
  paused = false;
  active_threads = 0;
  tasks_processed = 4;
  latencies = [];
  worker_health = no_health ∷ no_health ∷ [];
}

abbrev keep : QueueManager → QueueManager
keep q = q

abbrev take_one : QueueManager → Option TaskPtr × QueueManager
take_one q = (some 1, q)

abbrev does_nothing : TaskPtr → QueueManager → Option String × QueueManager
does_nothing t q = (none, q)

abbrev throws : TaskPtr → QueueManager → Option String × QueueManager
throws t q = (some "disk full", q)

does_nothing-Leaves : Leaves does_nothing 1
does_nothing-Leaves q = refl

throws-Leaves : Leaves throws 1
throws-Leaves q = refl

returns : (q : QueueManager) → (does_nothing 1 q).0 ≡ none
returns q = refl

abbrev at : Readings
at = record { heartbeat = 10; started = 11; finished = 12; began = 20; ended = 25 }

set_num_threads_shrink_example :
    let p = set_num_threads keep 1 (two_workers fresh) in
    (length p.threads ≡ 1)
    × AreAll false p.threads
    × (p.should_stop ≡ true)
    × (length (start p).threads ≡ 1)
    × AreAll true (start p).threads
set_num_threads_shrink_example = set_num_threads_shrink keep 1 (two_workers fresh) (omega arith)

created_status : ((new_manager fresh).tasks 1).status ≡ created
unfolding new_manager
created_status = refl

queued_status : ((new_manager (with_status queued)).tasks 1).status ≡ queued
unfolding new_manager
queued_status = refl

work_created_example :
    let p = work throws take_one 0 at (two_workers fresh) in
    ((p.queue_manager.tasks 1).status ≡ created) × (p.tasks_processed ≡ 5)
work_created_example =
    work_created throws take_one 0 at (two_workers fresh) 1 (new_manager fresh) throws-Leaves refl
      created_status

work_queued_example :
    let p = work does_nothing take_one 0 at (two_workers (with_status queued)) in
    ((p.queue_manager.tasks 1).status ≡ completed)
    × (p.tasks_processed ≡ 5)
    × (p.active_threads ≡ 0)
work_queued_example =
    work_queued does_nothing take_one 0 at (two_workers (with_status queued)) 1
      (new_manager (with_status queued)) does_nothing-Leaves refl queued_status returns
      (omega arith)
