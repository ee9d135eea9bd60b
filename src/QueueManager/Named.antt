-- ===== src/QueueManager/Named.antt =====
-- The containers of QueueManager.cpp stay one for each group: inserting and dequeueing.
pub mod Moved
pub mod Runs
use axon_queue.Prelude.{
  ℕ, zero, suc, ◌≡◌, ◌≢◌, refl, sym, ap, subst, ◌∙◌, Bool, true, false, Option, none, some, List,
  [], ◌∷◌, ◌++◌, arith, inl, inr, ◌==◌, string_eq, nat_eq, Bool-cases, Option-cases, length, All,
  All-append, if◌then◌else◌,
}
use axon_queue.Prelude.Dict.{find, put, find_or}
use axon_queue.Prelude.IdSet.{contains}
use axon_queue.Task.{Task, TaskPtr}
use axon_queue.Queues.Family.{Group, Family, add, take_from, take_first, groups, drain, with_group}
use axon_queue.Queues.Family.Keyed.{IsProper, put-IsProper, take_from-IsProper, take_first-IsProper}
use axon_queue.QueueManager.{
  QueueManager, QueueMode, fifo, lifo, round_robin, priority, insert_in, insert, enqueue, take_in,
  take_next, note_dequeued, dequeue, is_empty, round_robin_loop, get_task_round_robin,
  get_next_round_robin_group, next_group_of, get_task_from_fifo, get_task_from_priority, highest,
  no_best, new_manager, update_task_in_map,
}
use axon_queue.QueueManager.SetMode.{
  same_mode, tasks_in, all_tasks, insert_all, set_mode, without_priority,
}
use axon_queue.QueueManager.Access.{
  peek, cancel_task, add_dependency, remove_dependency, is_queued, remove_task_from_map, find_task,
}
use axon_queue.QueueManager.Stored.{round, next_group}
use axon_queue.QueueManager.History.{
  Call, enqueues, dequeues, peeks, sets_mode, cancels, depends, undepends, step, run, registered,
}
use axon_queue.QueueManager.Order.{IsNamed}

-- Every container map is proper.
pub record AreProper (m : QueueManager) : Type 0 where
  pub fifo_queues : IsProper m.fifo_queues
  pub lifo_queues : IsProper m.lifo_queues
  pub priority_queues : IsProper m.priority_queues

pub AreProper-IsNamed : (m : QueueManager) → AreProper m → IsNamed m
AreProper-IsNamed m h = record {
  fifo_queues = h.fifo_queues.0;
  lifo_queues = h.lifo_queues.0;
  priority_queues = h.priority_queues.0;
  not_empty = h.priority_queues.1;
}

pub insert_in-AreProper :
    (mode : QueueMode) (group : Group) (p : TaskPtr) (m : QueueManager)
    → group ≢ ""
    → AreProper m
    → AreProper (insert_in mode group p m)
unfolding insert_in add
insert_in-AreProper fifo group p m n h = record {
  fifo_queues = put-IsProper group _ m.fifo_queues n h.fifo_queues;
  lifo_queues = h.lifo_queues;
  priority_queues = h.priority_queues;
}
insert_in-AreProper round_robin group p m n h = record {
  fifo_queues = put-IsProper group _ m.fifo_queues n h.fifo_queues;
  lifo_queues = h.lifo_queues;
  priority_queues = h.priority_queues;
}
insert_in-AreProper lifo group p m n h = record {
  fifo_queues = h.fifo_queues;
  lifo_queues = put-IsProper group _ m.lifo_queues n h.lifo_queues;
  priority_queues = h.priority_queues;
}
insert_in-AreProper priority group p m n h = record {
  fifo_queues = h.fifo_queues;
  lifo_queues = h.lifo_queues;
  priority_queues = put-IsProper group _ m.priority_queues n h.priority_queues;
}

round-AreProper : (m : QueueManager) → AreProper m → AreProper (round m).1
unfolding get_task_from_fifo get_next_round_robin_group
round-AreProper m h =
    let (g, i, e) = next_group m.group_names m in
    rw e (record {
      fifo_queues = take_from-IsProper g m.fifo_queues h.fifo_queues;
      lifo_queues = h.lifo_queues;
      priority_queues = h.priority_queues;
    })

round_robin-AreProper :
    (n : ℕ) (m : QueueManager) → AreProper m → AreProper (round_robin_loop n m).1
unfolding round_robin_loop
round_robin-AreProper zero m h = h
round_robin-AreProper (suc n) m h = elim (Option-cases (round m).0) [
  | inl e ↦ rw (e, round_robin_loop) (round_robin-AreProper n (round m).1 (round-AreProper m h))
  | inr (p, e) ↦ rw (e, round_robin_loop) (round-AreProper m h)
]

take_in-AreProper :
    (mode : QueueMode) (m : QueueManager) → AreProper m → AreProper (take_in mode m).1
unfolding take_in get_task_round_robin get_task_from_priority
take_in-AreProper fifo m h = record {
  fifo_queues = take_first-IsProper (groups m.fifo_queues) m.fifo_queues h.fifo_queues;
  lifo_queues = h.lifo_queues;
  priority_queues = h.priority_queues;
}
take_in-AreProper lifo m h = record {
  fifo_queues = h.fifo_queues;
  lifo_queues = take_first-IsProper (groups m.lifo_queues) m.lifo_queues h.lifo_queues;
  priority_queues = h.priority_queues;
}
take_in-AreProper round_robin m h = round_robin-AreProper (length m.group_names) m h
take_in-AreProper priority m h =
    let selected = (highest m.tasks m.priority_queues no_best).1 in
    elim (Bool-cases (selected == "")) [
      | inl e ↦ rw (e, take_in) h
      | inr e ↦
          rw (e, take_in)
            (record {
              fifo_queues = h.fifo_queues;
              lifo_queues = h.lifo_queues;
              priority_queues = take_from-IsProper selected m.priority_queues h.priority_queues;
            })
    ]

pub dequeue-AreProper : (now : ℕ) (m : QueueManager) → AreProper m → AreProper (dequeue now m).1
unfolding dequeue take_next note_dequeued
dequeue-AreProper now m h =
    let t = take_in-AreProper m.mode m h in
    elim (Bool-cases (is_empty m)) [
      | inl none_left ↦ rw (none_left, dequeue) h
      | inr left ↦ elim (Option-cases (take_in m.mode m).0) [
        | inl e ↦ rw (left, dequeue, e) t
        | inr (p, e) ↦
            rw (left, dequeue, e)
              (record {
                fifo_queues = t.fifo_queues;
                lifo_queues = t.lifo_queues;
                priority_queues = t.priority_queues;
              })
      ]
    ]
