-- ===== src/QueueManager/Entered.antt =====
-- What `enqueue` of QueueManager.cpp leaves for a task: its entry in the map, its object, its place.
use mathlib.Core.List.{Perm}
use axon_queue.Prelude.{ℕ, ◌≡◌, refl, ap, ◌∙◌, some, ◌∷◌, nat_eq, ==_refl}
use axon_queue.Prelude.Dict.{find, find-put}
use axon_queue.Task.{Task, TaskPtr}
use axon_queue.Queues.Family.{Group}
use axon_queue.QueueManager.{
  QueueManager, QueueMode, fifo, lifo, round_robin, priority, insert_in, insert, enqueue, set_task,
  update_task_in_map, add_name,
}
use axon_queue.QueueManager.Access.{find_task}
use axon_queue.QueueManager.Stored.{stored, insert_in-perm}

pub set_task-same : (p : TaskPtr) (t : Task) (tasks : TaskPtr → Task) → set_task p t tasks p ≡ t
set_task-same p t tasks = rw (==_refl p) refl

-- Inserting leaves the objects and the map.
pub insert_in-kept :
    (mode : QueueMode) (group : Group) (p : TaskPtr) (m : QueueManager)
    → ((insert_in mode group p m).tasks ≡ m.tasks)
      × ((insert_in mode group p m).task_map ≡ m.task_map)
unfolding insert_in
insert_in-kept fifo group p m = (refl, refl)
insert_in-kept lifo group p m = (refl, refl)
insert_in-kept round_robin group p m = (refl, refl)
insert_in-kept priority group p m = (refl, refl)

abbrev stamped : ℕ → TaskPtr → QueueManager → QueueManager
stamped now p m = record m { tasks = set_task p (record (m.tasks p) { enqueued_at = now }) m.tasks }

-- The manager when `enqueue` reaches its `switch`.
abbrev entered : ℕ → TaskPtr → Group → QueueManager → QueueManager
entered now p group m = record (update_task_in_map p (stamped now p m)) {
  group_names = add_name group m.group_names;
}

pub enqueue-task :
    (now : ℕ) (p : TaskPtr) (group : Group) (m : QueueManager)
    → (enqueue now (some p) group m).tasks p ≡ record (m.tasks p) { enqueued_at = now }
unfolding enqueue insert update_task_in_map
enqueue-task now p group m =
    ap (λ tasks. tasks p) (insert_in-kept m.mode group p (entered now p group m)).0
    ∙ set_task-same p (record (m.tasks p) { enqueued_at = now }) m.tasks

pub find_task-enqueue :
    (now : ℕ) (p : TaskPtr) (group : Group) (m : QueueManager)
    → find_task (m.tasks p).id (enqueue now (some p) group m) ≡ some p
unfolding find_task enqueue insert update_task_in_map
find_task-enqueue now p group m =
    let id = (m.tasks p).id in
    ap (find id) (insert_in-kept m.mode group p (entered now p group m)).1
    ∙ (find-put ((stamped now p m).tasks p).id id p m.task_map
        ∙ rw (set_task-same p (record (m.tasks p) { enqueued_at = now }) m.tasks, ==_refl id) refl)

pub enqueue-perm :
    (now : ℕ) (p : TaskPtr) (group : Group) (m : QueueManager)
    → Perm (stored (enqueue now (some p) group m)) (p ∷ stored m)
unfolding enqueue insert update_task_in_map
enqueue-perm now p group m = insert_in-perm group p (entered now p group m) m.mode
