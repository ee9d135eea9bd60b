-- ===== src/QueueManager/Cancel.antt =====
-- `cancelTask` of QueueManager.cpp.
use axon_queue.Prelude.{
  ℕ, ◌≡◌, ◌≢◌, refl, sym, ap, ◌∙◌, true, false, none, some, arith, dec64, nat_eq, ==_refl,
}
use axon_queue.Prelude.Dict.{find, put, find-put, find-erase}
use axon_queue.Task.{Task, TaskPtr, TaskId, TaskStatus, queued}
use axon_queue.Queues.Family.{Group}
use axon_queue.QueueManager.{QueueManager, insert, enqueue, size, update_task_in_map}
use axon_queue.QueueManager.Access.{cancel_task, is_queued, find_task, remove_task_from_map}
use axon_queue.QueueManager.Stored.{stored}
use axon_queue.QueueManager.History.{registered}
use axon_queue.QueueManager.Entered.{insert_in-kept, set_task-same}

abbrev stamped : ℕ → TaskPtr → QueueManager → Task
stamped now p m = record (m.tasks p) { enqueued_at = now }

find-registered :
    (now : ℕ) (p : TaskPtr) (group : Group) (m : QueueManager)
    → find (m.tasks p).id (registered now p group m).task_map ≡ some p
unfolding update_task_in_map
find-registered now p group m =
    let t = set_task-same p (stamped now p m) m.tasks in
    ap (λ x. find (m.tasks p).id (put x.id p m.task_map)) t
    ∙ (find-put (m.tasks p).id (m.tasks p).id p m.task_map ∙ rw (==_refl (m.tasks p).id) refl)

-- After `enqueue` the task is found under its id, and its status is what it was.
enqueue-find_task :
    (now : ℕ) (p : TaskPtr) (group : Group) (m : QueueManager)
    → let m' = enqueue now (some p) group m in
      (find (m.tasks p).id m'.task_map ≡ some p) × ((m'.tasks p).status ≡ (m.tasks p).status)
unfolding enqueue insert update_task_in_map
enqueue-find_task now p group m =
    let (tasks, task_map) = insert_in-kept m.mode group p (registered now p group m) in
    (
      ap (find (m.tasks p).id) task_map ∙ find-registered now p group m,
      ap (λ f. (f p).status) tasks ∙ ap (λ x. x.status) (set_task-same p (stamped now p m) m.tasks),
    )

not_queued : (s : TaskStatus) → s ≢ queued → is_queued s ≡ false
not_queued s n = ground arith

cancel_not_queued :
    (mark_cancelled : Task → Task) (id : TaskId) (p : TaskPtr) (m : QueueManager)
    → find id m.task_map ≡ some p
    → (m.tasks p).status ≢ queued
    → cancel_task mark_cancelled id m ≡ (false, m)
unfolding cancel_task
cancel_not_queued k id p m e n = rw (e, cancel_task, not_queued _ n) refl

-- The tasks that are not in the state `queued` when they are enqueued, as new tasks are, cannot be
-- cancelled afterwards: `cancelTask` answers false and changes nothing.
cancel_enqueued :
    (mark_cancelled : Task → Task) (now : ℕ) (p : TaskPtr) (group : Group) (m : QueueManager)
    → (m.tasks p).status ≢ queued
    → let m' = enqueue now (some p) group m in
      cancel_task mark_cancelled (m.tasks p).id m' ≡ (false, m')
cancel_enqueued k now p group m n =
    let (found, status) = enqueue-find_task now p group m in
    cancel_not_queued k (m.tasks p).id p (enqueue now (some p) group m) found
      (λ e. n (sym status ∙ e))

-- Cancelling a task that is found and queued succeeds, removes the task from the map and counts
-- one task less, but the containers stay as they are: the task is still there.
cancel_keeps_stored :
    (mark_cancelled : Task → Task) (id : TaskId) (p : TaskPtr) (m : QueueManager)
    → find_task id m ≡ some p
    → (m.tasks p).status ≡ queued
    → let (answer, m') = cancel_task mark_cancelled id m in
      (answer ≡ true)
      × (stored m' ≡ stored m)
      × (size m' ≡ dec64 (size m))
      × (find_task id m' ≡ none)
unfolding cancel_task find_task remove_task_from_map size
cancel_keeps_stored k id p m e q =
    rw (e, cancel_task, q) (refl, refl, refl, find-erase id id m.task_map ∙ rw (==_refl id) refl)
