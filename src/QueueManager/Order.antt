-- ===== src/QueueManager/Order.antt =====
-- Which task `dequeue` of QueueManager.cpp takes: the one that `peek` shows, and in the priority
-- mode one of the highest priority.
use axon_queue.Prelude.{
  ℕ, ◌≡◌, ◌≢◌, refl, sym, ap, subst, ◌∙◌, inl, inr, false, arith, ◌==◌, string_eq, Bool-cases,
  Option-cases, nat_eq,
}
use axon_queue.Prelude.IdSet.{contains}
use axon_queue.Queues.Family.{groups}
use axon_queue.Queues.Family.Keyed.{IsKeyed, distinct_names, peek_first_lem}
use axon_queue.QueueManager.{
  QueueManager, QueueMode, fifo, lifo, round_robin, priority, highest, no_best, take_in, take_next,
  dequeue, is_empty, size, get_task_from_priority,
}
use axon_queue.QueueManager.Highest.{
  BoundsFirsts, value, highest-value, highest-Selects, highest-BoundsFirsts,
}
use axon_queue.QueueManager.Access.{peek_in, peek}

-- The names of the containers, each once, and none of a priority queue empty.
pub record IsNamed (m : QueueManager) : Type 0 where
  pub fifo_queues : IsKeyed m.fifo_queues
  pub lifo_queues : IsKeyed m.lifo_queues
  pub priority_queues : IsKeyed m.priority_queues
  pub not_empty : contains (groups m.priority_queues) "" ≡ false

take_priority : (m : QueueManager) → IsNamed m → (take_in priority m).0 ≡ peek_in priority m
unfolding take_in peek_in get_task_from_priority
take_priority m h =
    let best = highest m.tasks m.priority_queues no_best in
    elim (highest-Selects m.tasks m.priority_queues no_best h.priority_queues) [
      | inl e ↦ rw (e, take_in, peek_in) refl
      | inr (c, t) ↦ elim (Bool-cases (best.1 == "")) [
        | inl e ↦ absurd (
            distinct_names "" best.1 (groups m.priority_queues) h.not_empty c
              (sym ((string_eq.agrees best.1 "").0 e)))
        | inr e ↦ rw (e, take_in) t
      ]
    ]

take_in-peek_in :
    (mode : QueueMode) (m : QueueManager)
    → mode ≢ round_robin
    → IsNamed m
    → (take_in mode m).0 ≡ peek_in mode m
unfolding take_in peek_in
take_in-peek_in fifo m n h = peek_first_lem m.fifo_queues h.fifo_queues
take_in-peek_in lifo m n h = peek_first_lem m.lifo_queues h.lifo_queues
take_in-peek_in priority m n h = take_priority m h
take_in-peek_in round_robin m n h = absurd (n refl)

pub dequeue-take_next :
    (now : ℕ) (m : QueueManager) → size m ≢ 0 → (dequeue now m).0 ≡ (take_next m).0
unfolding dequeue is_empty take_next size
dequeue-take_next now m n =
    let some_tasks : (m.total_tasks == 0) ≡ false = ground arith in
    elim (Option-cases (take_in m.mode m).0) [
      | inl e ↦ rw (some_tasks, dequeue, e) refl
      | inr (p, e) ↦ rw (some_tasks, dequeue, e) refl
    ]

-- In every mode but round robin, `dequeue` hands out the task that `peek` shows, if the size is not
-- 0, each container map has a name once, and no priority queue has the empty name.
pub dequeue-peek :
    (now : ℕ) (m : QueueManager)
    → m.mode ≢ round_robin
    → size m ≢ 0
    → IsNamed m
    → (dequeue now m).0 ≡ (peek m).0
unfolding take_next peek
dequeue-peek now m n s h = dequeue-take_next now m s ∙ take_in-peek_in m.mode m n h

peek-value :
    (m : QueueManager)
    → m.mode ≡ priority
    → value m.tasks (peek m).0 ≡ (highest m.tasks m.priority_queues no_best).0
unfolding peek peek_in
peek-value m e =
    ap (λ d. value m.tasks (peek_in d m)) e
    ∙ sym (highest-value m.tasks m.priority_queues no_best refl)

not_round_robin : (mode : QueueMode) → mode ≡ priority → mode ≢ round_robin
not_round_robin mode e r = cc

-- In the priority mode, if the size is not 0, each container map has a name once, and no priority
-- queue has the empty name: no first task of a container has a higher priority than the task that
-- `dequeue` hands out; and when it hands out none, every such task has the lowest priority of
-- all.
pub dequeue_highest :
    (now : ℕ) (m : QueueManager)
    → m.mode ≡ priority
    → size m ≢ 0
    → IsNamed m
    → BoundsFirsts m.tasks (value m.tasks (dequeue now m).0) m.priority_queues
dequeue_highest now m e s h =
    subst (λ v. BoundsFirsts m.tasks v m.priority_queues)
      (sym
        (ap (value m.tasks) (dequeue-peek now m (not_round_robin m.mode e) s h) ∙ peek-value m e))
      (highest-BoundsFirsts m.tasks m.priority_queues no_best)
