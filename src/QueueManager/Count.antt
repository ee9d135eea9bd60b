-- ===== src/QueueManager/Count.antt =====
-- `size` of QueueManager.cpp against the number of tasks in the containers.
use axon_queue.Prelude.{
  ℕ, ◌%◌, ◌≡◌, refl, sym, ap, ◌∙◌, none, some, List, [], ◌∷◌, arith, inl, inr, Bool-cases,
  Option-cases, length, u64_mod, nat_eq, Perm-length, All,
}
use axon_queue.Prelude.Dict.{find}
use axon_queue.Task.{Task, TaskPtr, TaskId}
use axon_queue.Queues.Family.{Group}
use axon_queue.QueueManager.{
  QueueManager, insert, enqueue, take_in, take_next, note_dequeued, dequeue, is_empty, new_manager,
  size, update_task_in_map,
}
use axon_queue.QueueManager.Access.{peek, add_dependency, remove_dependency}
use axon_queue.QueueManager.Stored.{stored, take_in-Took, insert_in-perm}
use axon_queue.QueueManager.Alone.{IsAlone, insert_in-mode, set_mode_lem}
use axon_queue.QueueManager.History.{
  Call, enqueues, dequeues, peeks, sets_mode, cancels, depends, undepends, step, run, registered,
  step-Conserves,
}

-- `size` is the number of tasks in the containers, modulo 2^64.
abbrev pub IsCounted : QueueManager → Type 0
IsCounted m = m.total_tasks ≡ length (stored m) % u64_mod

abbrev pub IsNoCancel : Call → Type 0
IsNoCancel (cancels id) = ⊥
IsNoCancel c = Unit

enqueue-IsCounted :
    (now : ℕ) (p : TaskPtr) (group : Group) (m : QueueManager)
    → IsCounted m
    → IsCounted (enqueue now (some p) group m)
unfolding enqueue insert update_task_in_map
enqueue-IsCounted now p group m c =
    let r = registered now p group m in
    let (_, total) = insert_in-mode m.mode group p r in
    omega (arith, total, Perm-length _ _ (insert_in-perm group p r m.mode), c)

dequeue-IsCounted : (now : ℕ) (m : QueueManager) → IsCounted m → IsCounted (dequeue now m).1
unfolding dequeue take_next note_dequeued
dequeue-IsCounted now m c =
    let t = take_in-Took m.mode m in
    elim (Bool-cases (is_empty m)) [
      | inl e ↦ rw (e, dequeue) c
      | inr e ↦ elim (Option-cases (take_in m.mode m).0) [
        | inl n ↦
            rw (e, dequeue, n)
              (t.keeps.total ∙ c ∙ ap (λ xs. length xs % u64_mod) (sym (t.nothing n)))
        | inr (p, s) ↦
            rw (e, dequeue, s) (omega (arith, t.keeps.total, Perm-length _ _ (t.taken p s), c))
      ]
    ]

depend-IsCounted :
    (d p : TaskId) (m : QueueManager) → IsCounted m → IsCounted (add_dependency d p m)
unfolding add_dependency
depend-IsCounted d p m c = elim (Option-cases (find d m.task_map)) [
  | inl e ↦ rw (e, add_dependency) c
  | inr (dep, e) ↦ elim (Option-cases (find p m.task_map)) [
    | inl e' ↦ rw (e, add_dependency, e') c
    | inr (req, e') ↦ rw (e, add_dependency, e') c
  ]
]

step-IsCounted :
    (mark_cancelled : Task → Task) (now : ℕ) (c : Call) (m : QueueManager)
    → IsNoCancel c
    → IsAlone m.mode m
    → IsCounted m
    → IsCounted (step mark_cancelled now c m).1
unfolding step enqueue peek remove_dependency
step-IsCounted k now (enqueues none group) m n a c = c
step-IsCounted k now (enqueues (some p) group) m n a c = enqueue-IsCounted now p group m c
step-IsCounted k now dequeues m n a c = dequeue-IsCounted now m c
step-IsCounted k now peeks m n a c = c
step-IsCounted k now (sets_mode mode) m n a c =
    let (perm, _, _, total) = set_mode_lem mode m a in omega (arith, total, Perm-length _ _ perm, c)
step-IsCounted k now (cancels id) m n a c = absurd n
step-IsCounted k now (depends d p) m n a c = depend-IsCounted d p m c
step-IsCounted k now (undepends d p) m n a c = c

run-IsCounted :
    (mark_cancelled : Task → Task) (cs : List (ℕ × Call)) (m : QueueManager)
    → All (λ e. IsNoCancel e.1) cs
    → IsAlone m.mode m
    → IsCounted m
    → IsCounted (run mark_cancelled cs m).1
unfolding run
run-IsCounted k [] m n a c = c
run-IsCounted k ((now, e) ∷ cs) m n a c =
    run-IsCounted k cs (step k now e m).1 n.1 (step-Conserves k now e m a).alone
      (step-IsCounted k now e m n.0 a c)

-- After any sequence of calls without `clear` and `cancelTask` on a new queue manager, `size` is the
-- number of tasks in the containers, modulo 2^64.
pub size_counts :
    (mark_cancelled : Task → Task) (tasks : TaskPtr → Task) (cs : List (ℕ × Call))
    → All (λ e. IsNoCancel e.1) cs
    → let m = (run mark_cancelled cs (new_manager tasks)).1 in size m ≡ length (stored m) % u64_mod
unfolding new_manager size
size_counts k tasks cs n = run-IsCounted k cs (new_manager tasks) n (refl, refl) refl
