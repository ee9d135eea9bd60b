-- ===== src/QueueManager/History.antt =====
-- Sequences of calls on a queue manager (QueueManager.cpp): no task is lost or made up, and the
-- size is the number of tasks in the containers as long as nothing is cancelled.
use mathlib.Core.List.{Perm, append_assoc, append-nil}
use mathlib.Core.List.Perm
use axon_queue.Prelude.{
  ℕ, refl, sym, ap, subst, ◌∙◌, Option, none, some, List, [], ◌∷◌, ◌++◌, inl, inr, Bool-cases,
  Option-cases, length, perm_swap_prefix, ◌==◌, nat_eq, string_eq,
}
use axon_queue.Prelude.Dict.{find}
use axon_queue.Task.{Task, TaskId, TaskPtr}
use axon_queue.Queues.Family.{Group, elements}
use axon_queue.QueueManager.{
  QueueManager, QueueMode, fifo, lifo, round_robin, priority, insert_in, insert, enqueue, take_in,
  take_next, note_dequeued, dequeue, is_empty, new_manager, set_task, add_name, update_task_in_map,
  get_task_round_robin, get_task_from_priority, highest, no_best,
}
use axon_queue.QueueManager.SetMode.{set_mode}
use axon_queue.QueueManager.Access.{peek, cancel_task, add_dependency, remove_dependency, is_queued}
use axon_queue.QueueManager.Stored.{
  stored, tasks_of, round_robin-others, take_in-Took, insert_in-perm,
}
use axon_queue.QueueManager.Alone.{IsAlone, insert_in-IsAlone, insert_in-mode, set_mode_lem}

-- The calls that change a queue manager, but for `clear`.
pub data Call : Type 0 where
  enqueues : Option TaskPtr → Group → Call
  dequeues peeks : Call
  sets_mode : QueueMode → Call
  cancels : TaskId → Call
  depends undepends : (dependent dependency : TaskId) → Call

-- The task that a call hands in.
abbrev pub given : Call → List TaskPtr
given (enqueues (some p) group) = p ∷ []
given c = []

abbrev pub given_all : List (ℕ × Call) → List TaskPtr
given_all [] = []
given_all ((now, c) ∷ cs) = given c ++ given_all cs

abbrev pub to_list : Option TaskPtr → List TaskPtr
to_list none = []
to_list (some p) = p ∷ []

module _ (mark_cancelled : Task → Task) where
  -- A call at the time `now`: the task that `dequeue` hands out, and the new state.
  unfoldable pub step : ℕ → Call → QueueManager → List TaskPtr × QueueManager
  step now (enqueues p group) m = ([], enqueue now p group m)
  step now dequeues m = let (r, m') = dequeue now m in (to_list r, m')
  step now peeks m = ([], (peek m).1)
  step now (sets_mode mode) m = ([], set_mode mode m)
  step now (cancels id) m = ([], (cancel_task mark_cancelled id m).1)
  step now (depends d p) m = ([], add_dependency d p m)
  step now (undepends d p) m = ([], remove_dependency d p m)

  unfoldable pub run : List (ℕ × Call) → QueueManager → List TaskPtr × QueueManager
  run [] m = ([], m)
  run ((now, c) ∷ cs) m =
      let (out, m') = step now c m in let (outs, m'') = run cs m' in (out ++ outs, m'')

-- What a call does to the stored tasks.
pub record Conserves (gave took : List TaskPtr) (m m' : QueueManager) : Type 0 where
  pub perm : Perm (took ++ stored m') (gave ++ stored m)
  pub alone : IsAlone m'.mode m'

-- The state that `enqueue` inserts into.
abbrev pub registered : ℕ → TaskPtr → Group → QueueManager → QueueManager
registered now p group m =
    let m₁ = record m { tasks = set_task p (record (m.tasks p) { enqueued_at = now }) m.tasks } in
    let m₂ = update_task_in_map p m₁ in record m₂ { group_names = add_name group m₂.group_names }

enqueue-Conserves :
    (now : ℕ) (p : TaskPtr) (group : Group) (m : QueueManager)
    → IsAlone m.mode m
    → Conserves (p ∷ []) [] m (enqueue now (some p) group m)
unfolding enqueue update_task_in_map insert
enqueue-Conserves now p group m a =
    let r = registered now p group m in
    record {
      perm = insert_in-perm group p r m.mode;
      alone =
          subst (λ d. IsAlone d (insert_in m.mode group p r))
            (sym (insert_in-mode m.mode group p r).0) (insert_in-IsAlone m.mode group p r a);
    }

take_in-IsAlone :
    (mode : QueueMode) (m : QueueManager) → IsAlone mode m → IsAlone mode (take_in mode m).1
unfolding take_in get_task_round_robin get_task_from_priority
take_in-IsAlone fifo m a = a
take_in-IsAlone lifo m a = a
take_in-IsAlone priority m a =
    elim (Bool-cases ((highest m.tasks m.priority_queues no_best).1 == "")) [
      | inl e ↦ rw (e, take_in) a
      | inr e ↦ rw (e, take_in) a
    ]
take_in-IsAlone round_robin m (l, q) =
    let (l', q') = round_robin-others (length m.group_names) m in
    (ap elements l' ∙ l, ap tasks_of q' ∙ q)

-- `dequeue` without the early return for an empty queue.
abbrev taken : ℕ → QueueManager → Option TaskPtr × QueueManager
taken now m = elim (take_next m).0 [
  | none ↦ (none, (take_next m).1)
  | some p ↦ (some p, note_dequeued now p (take_next m).1)
]

dequeue-Conserves :
    (now : ℕ) (m : QueueManager)
    → IsAlone m.mode m
    → Conserves [] (to_list (dequeue now m).0) m (dequeue now m).1
unfolding dequeue take_next note_dequeued
dequeue-Conserves now m a =
    let t = take_in-Took m.mode m in
    let a' = take_in-IsAlone m.mode m a in
    let at = subst (λ d. IsAlone d (take_in m.mode m).1) (sym t.keeps.mode) a' in
    elim (Bool-cases (is_empty m)) [
      | inl e ↦ rw (e, dequeue) (record { perm = Perm.refl _; alone = a })
      | inr e ↦ elim (Option-cases (take_in m.mode m).0) [
        | inl n ↦
            rw (e, dequeue, n)
              (record {
                perm = subst (λ xs. Perm xs (stored m)) (sym (t.nothing n)) (Perm.refl _);
                alone = at;
              })
        | inr (p, s) ↦ rw (e, dequeue, s) (record { perm = Perm.symm (t.taken p s); alone = at })
      ]
    ]

Conserves-refl : (m : QueueManager) → IsAlone m.mode m → Conserves [] [] m m
Conserves-refl m a = record { perm = Perm.refl _; alone = a }

cancel-Conserves :
    (mark_cancelled : Task → Task) (id : TaskId) (m : QueueManager)
    → IsAlone m.mode m
    → Conserves [] [] m (cancel_task mark_cancelled id m).1
unfolding cancel_task
cancel-Conserves mark_cancelled id m a = elim (Option-cases (find id m.task_map)) [
  | inl e ↦ rw (e, cancel_task) (Conserves-refl m a)
  | inr (p, e) ↦ elim (Bool-cases (is_queued (m.tasks p).status)) [
    | inl q ↦ rw (e, cancel_task, q) (record { perm = Perm.refl _; alone = a })
    | inr q ↦ rw (e, cancel_task, q) (Conserves-refl m a)
  ]
]

depend-Conserves :
    (d p : TaskId) (m : QueueManager) → IsAlone m.mode m → Conserves [] [] m (add_dependency d p m)
unfolding add_dependency
depend-Conserves d p m a = elim (Option-cases (find d m.task_map)) [
  | inl e ↦ rw (e, add_dependency) (record { perm = Perm.refl _; alone = a })
  | inr (dep, e) ↦ elim (Option-cases (find p m.task_map)) [
    | inl e' ↦ rw (e, add_dependency, e') (record { perm = Perm.refl _; alone = a })
    | inr (req, e') ↦ rw (e, add_dependency, e') (record { perm = Perm.refl _; alone = a })
  ]
]

pub step-Conserves :
    (mark_cancelled : Task → Task) (now : ℕ) (c : Call) (m : QueueManager)
    → IsAlone m.mode m
    → Conserves (given c) (step mark_cancelled now c m).0 m (step mark_cancelled now c m).1
unfolding step enqueue peek remove_dependency
step-Conserves k now (enqueues none group) m a = Conserves-refl m a
step-Conserves k now (enqueues (some p) group) m a = enqueue-Conserves now p group m a
step-Conserves k now dequeues m a = dequeue-Conserves now m a
step-Conserves k now peeks m a = record { perm = Perm.refl _; alone = a }
step-Conserves k now (sets_mode mode) m a =
    let (perm, alone, e, _) = set_mode_lem mode m a in
    record { perm = perm; alone = subst (λ d. IsAlone d (set_mode mode m)) (sym e) alone }
step-Conserves k now (cancels id) m a = cancel-Conserves k id m a
step-Conserves k now (depends d p) m a = depend-Conserves d p m a
step-Conserves k now (undepends d p) m a = record { perm = Perm.refl _; alone = a }

perm_exchange :
    (g g' t t' s s' s'' : List TaskPtr)
    → Perm (t ++ s') (g ++ s)
    → Perm (t' ++ s'') (g' ++ s')
    → Perm ((t ++ t') ++ s'') ((g ++ g') ++ s)
perm_exchange g g' t t' s s' s'' p q =
    rw (append_assoc t t' s'', append_assoc g g' s)
      (Perm.trans (Perm.append_left t q) (
        Perm.trans (perm_swap_prefix t g' s')
          (Perm.trans (Perm.append_left g' p) (perm_swap_prefix g' g s))))

-- Two conserving calls, one after the other.
Conserves-trans :
    (g g' t t' : List TaskPtr) (m m' m'' : QueueManager)
    → Conserves g t m m'
    → Conserves g' t' m' m''
    → Conserves (g ++ g') (t ++ t') m m''
Conserves-trans g g' t t' m m' m'' p q = record {
  perm = perm_exchange g g' t t' (stored m) (stored m') (stored m'') p.perm q.perm;
  alone = q.alone;
}

run-Conserves :
    (mark_cancelled : Task → Task) (cs : List (ℕ × Call)) (m : QueueManager)
    → IsAlone m.mode m
    → Conserves (given_all cs) (run mark_cancelled cs m).0 m (run mark_cancelled cs m).1
unfolding run
run-Conserves k [] m a = Conserves-refl m a
run-Conserves k ((now, c) ∷ cs) m a =
    let p = step-Conserves k now c m a in
    Conserves-trans (given c) (given_all cs) _ _ m _ _ p (run-Conserves k cs _ p.alone)

-- In any sequence of calls without `clear` on a new queue manager, the tasks that `dequeue` returned
-- and those still in the containers are together exactly the tasks that were enqueued, each as often
-- as it was enqueued; mode changes and cancellations included.
pub run_conserves :
    (mark_cancelled : Task → Task) (tasks : TaskPtr → Task) (cs : List (ℕ × Call))
    → let (out, m) = run mark_cancelled cs (new_manager tasks) in
      Perm (out ++ stored m) (given_all cs)
unfolding new_manager
run_conserves k tasks cs =
    let c = run-Conserves k cs (new_manager tasks) (refl, refl) in
    subst (Perm _) (append-nil (given_all cs)) c.perm
