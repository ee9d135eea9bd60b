-- ===== src/QueueManager/Named/Runs.antt =====
-- All calls of QueueManager.cpp keep one container for each group.
use axon_queue.Prelude.{
  ℕ, ◌≡◌, ◌≢◌, refl, sym, subst, none, some, List, [], ◌∷◌, inl, inr, string_eq, nat_eq, Bool-cases,
  Option-cases, All,
}
use axon_queue.Prelude.Dict.{find}
use axon_queue.Prelude.IdSet.{contains}
use axon_queue.Task.{Task, TaskPtr}
use axon_queue.Queues.Family.Keyed.{IsProper}
use axon_queue.QueueManager.{
  QueueManager, insert_in, insert, enqueue, new_manager, update_task_in_map,
}
use axon_queue.QueueManager.Access.{
  peek, cancel_task, add_dependency, remove_dependency, is_queued, remove_task_from_map, find_task,
}
use axon_queue.QueueManager.History.{
  Call, enqueues, dequeues, peeks, sets_mode, cancels, depends, undepends, step, run, registered,
}
use axon_queue.QueueManager.Order.{IsNamed}
use axon_queue.QueueManager.Named.{
  AreProper, AreProper-IsNamed, insert_in-AreProper, dequeue-AreProper,
}
use axon_queue.QueueManager.Named.Moved.{set_mode-AreProper}

cancel-AreProper :
    (mark_cancelled : Task → Task) (id : ℕ) (m : QueueManager)
    → AreProper m
    → AreProper (cancel_task mark_cancelled id m).1
unfolding cancel_task remove_task_from_map
cancel-AreProper k id m h = elim (Option-cases (find id m.task_map)) [
  | inl e ↦ rw (e, cancel_task) h
  | inr (p, e) ↦ elim (Bool-cases (is_queued (m.tasks p).status)) [
    | inl q ↦
        rw (e, cancel_task, q)
          (record {
            fifo_queues = h.fifo_queues;
            lifo_queues = h.lifo_queues;
            priority_queues = h.priority_queues;
          })
    | inr q ↦ rw (e, cancel_task, q) h
  ]
]

-- What changes no container leaves them proper.
kept-AreProper :
    (m m' : QueueManager)
    → m'.fifo_queues ≡ m.fifo_queues
    → m'.lifo_queues ≡ m.lifo_queues
    → m'.priority_queues ≡ m.priority_queues
    → AreProper m
    → AreProper m'
kept-AreProper m m' f l q h = record {
  fifo_queues = subst IsProper (sym f) h.fifo_queues;
  lifo_queues = subst IsProper (sym l) h.lifo_queues;
  priority_queues = subst IsProper (sym q) h.priority_queues;
}

depend-AreProper : (d p : ℕ) (m : QueueManager) → AreProper m → AreProper (add_dependency d p m)
unfolding add_dependency find_task
depend-AreProper d p m h = elim (Option-cases (find d m.task_map)) [
  | inl e ↦ rw (e, add_dependency) (kept-AreProper m _ refl refl refl h)
  | inr (dep, e) ↦ elim (Option-cases (find p m.task_map)) [
    | inl e' ↦ rw (e, add_dependency, e') (kept-AreProper m _ refl refl refl h)
    | inr (req, e') ↦ rw (e, add_dependency, e') (kept-AreProper m _ refl refl refl h)
  ]
]

-- A call that enqueues gives a group with a name.
abbrev pub NamesGroup : Call → Type 0
NamesGroup (enqueues p group) = group ≢ ""
NamesGroup c = Unit

step-AreProper :
    (mark_cancelled : Task → Task) (now : ℕ) (c : Call) (m : QueueManager)
    → NamesGroup c
    → AreProper m
    → AreProper (step mark_cancelled now c m).1
unfolding step enqueue peek remove_dependency insert update_task_in_map
step-AreProper k now (enqueues none group) m n h = h
step-AreProper k now (enqueues (some p) group) m n h =
    let r = registered now p group m in
    kept-AreProper (insert_in m.mode group p r) _ refl refl refl
      (insert_in-AreProper m.mode group p r n (kept-AreProper m r refl refl refl h))
step-AreProper k now dequeues m n h = dequeue-AreProper now m h
step-AreProper k now peeks m n h = kept-AreProper m _ refl refl refl h
step-AreProper k now (sets_mode mode) m n h = set_mode-AreProper mode m h
step-AreProper k now (cancels id) m n h = cancel-AreProper k id m h
step-AreProper k now (depends d p) m n h = depend-AreProper d p m h
step-AreProper k now (undepends d p) m n h = kept-AreProper m _ refl refl refl h

run-AreProper :
    (mark_cancelled : Task → Task) (cs : List (ℕ × Call)) (m : QueueManager)
    → All (λ e. NamesGroup e.1) cs
    → AreProper m
    → AreProper (run mark_cancelled cs m).1
unfolding run
run-AreProper k [] m n h = h
run-AreProper k ((now, c) ∷ cs) m n h =
    run-AreProper k cs (step k now c m).1 n.1 (step-AreProper k now c m n.0 h)

-- After any sequence of calls without `clear` on a new queue manager, in which every task is
-- enqueued under a group name that is not empty, each container map has a name once, and no
-- priority queue has the empty name.
run-IsNamed :
    (mark_cancelled : Task → Task) (tasks : TaskPtr → Task) (cs : List (ℕ × Call))
    → All (λ e. NamesGroup e.1) cs
    → IsNamed (run mark_cancelled cs (new_manager tasks)).1
unfolding new_manager contains
run-IsNamed k tasks cs n = AreProper-IsNamed _ (
    run-AreProper k cs (new_manager tasks) n
      (record { fifo_queues = (tt, refl); lifo_queues = (tt, refl); priority_queues = (tt, refl) }))
