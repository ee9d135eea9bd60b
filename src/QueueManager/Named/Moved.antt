-- ===== src/QueueManager/Named/Moved.antt =====
-- `setMode` of QueueManager.cpp keeps one container for each group.
use axon_queue.Prelude.{
  ℕ, ◌≡◌, ◌≢◌, refl, false, List, [], ◌∷◌, arith, inl, inr, string_eq, nat_eq, Bool-cases, All,
  All-append,
}
use axon_queue.Prelude.IdSet.{contains}
use axon_queue.Task.{TaskPtr}
use axon_queue.Queues.Family.{Group, Family, groups, drain, with_group}
use axon_queue.QueueManager.{QueueManager, QueueMode, fifo, lifo, round_robin, priority, insert}
use axon_queue.QueueManager.SetMode.{
  same_mode, tasks_in, all_tasks, insert_all, set_mode, without_priority,
}
use axon_queue.QueueManager.Named.{AreProper, insert_in-AreProper}

-- The groups of a list of tasks have names.
abbrev AreGrouped {ℓ} : {A : Type ℓ} → List (Group × A) → Type 0
AreGrouped xs = All (λ e. e.0 ≢ "") xs

with_group-AreGrouped {ℓ} :
    {A : Type ℓ} (k : Group) (xs : List A) → k ≢ "" → AreGrouped (with_group k xs)
with_group-AreGrouped k [] n = tt
with_group-AreGrouped k (x ∷ xs) n = (n, with_group-AreGrouped k xs n)

head_name :
    (k : Group) (ks : List Group)
    → contains (k ∷ ks) "" ≡ false
    → (k ≢ "") × (contains ks "" ≡ false)
unfolding contains
head_name k ks h = ground (arith, string_eq.agrees k "")

drain-AreGrouped {ℓ} :
    {A : Type ℓ} (m : Family A) → contains (groups m) "" ≡ false → AreGrouped (drain m)
unfolding drain
drain-AreGrouped [] h = tt
drain-AreGrouped ((k, xs) ∷ m) h =
    let (n, rest) = head_name k (groups m) h in
    All-append (λ e. e.0 ≢ "") (with_group k xs) (drain m) (with_group-AreGrouped k xs n)
      (drain-AreGrouped m rest)

without_priority-AreGrouped :
    (xs : List (Group × (ℕ × TaskPtr))) → AreGrouped xs → AreGrouped (without_priority xs)
without_priority-AreGrouped [] h = tt
without_priority-AreGrouped ((g, (q, p)) ∷ xs) h = (h.0, without_priority-AreGrouped xs h.1)

tasks_in-AreGrouped :
    (mode : QueueMode) (m : QueueManager) → AreProper m → AreGrouped (tasks_in mode m)
unfolding tasks_in
tasks_in-AreGrouped fifo m h = drain-AreGrouped m.fifo_queues h.fifo_queues.1
tasks_in-AreGrouped round_robin m h = drain-AreGrouped m.fifo_queues h.fifo_queues.1
tasks_in-AreGrouped lifo m h = drain-AreGrouped m.lifo_queues h.lifo_queues.1
tasks_in-AreGrouped priority m h =
    without_priority-AreGrouped (drain m.priority_queues)
      (drain-AreGrouped m.priority_queues h.priority_queues.1)

insert_all-AreProper :
    (xs : List (Group × TaskPtr)) (m : QueueManager)
    → AreGrouped xs
    → AreProper m
    → AreProper (insert_all xs m)
unfolding insert_all insert
insert_all-AreProper [] m g h = h
insert_all-AreProper ((group, p) ∷ xs) m g h =
    insert_all-AreProper xs (insert group p m) g.1 (insert_in-AreProper m.mode group p m g.0 h)

pub set_mode-AreProper :
    (mode : QueueMode) (m : QueueManager) → AreProper m → AreProper (set_mode mode m)
unfolding set_mode all_tasks contains
set_mode-AreProper mode m h = elim (Bool-cases (same_mode m.mode mode)) [
  | inl e ↦ rw (e, set_mode) h
  | inr e ↦
      rw (e, set_mode)
        (insert_all-AreProper (tasks_in m.mode m) _ (tasks_in-AreGrouped m.mode m h) (record {
          fifo_queues = (tt, refl);
          lifo_queues = (tt, refl);
          priority_queues = (tt, refl);
        }))
]
