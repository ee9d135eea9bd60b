-- ===== src/QueueManager/Stored.antt =====
-- The tasks in the containers of a queue manager, as a collection: what the operations of
-- QueueManager.cpp add to it and take from it.
use mathlib.Core.List.{Perm, perm_middle, perm_append_singleton}
use mathlib.Core.List.Perm
use axon_queue.Prelude.{
  ℕ, zero, suc, ◌≡◌, refl, subst, ◌∙◌, Option, none, some, List, [], ◌∷◌, ◌++◌, ◌%◌, inc64, map,
  arith, inl, inr, Option-cases, Bool-cases, ◌==◌, string_eq, nat_eq, length,
}
use axon_queue.Task.{TaskPtr}
use axon_queue.Queues.Trace.{to_back, to_front}
use axon_queue.Queues.Family.{Group, Family, insert_by, add, groups, elements}
use axon_queue.Queues.Family.Laws.{
  insert_by-perm, add-perm, Takes, take_from-Takes, take_first-Takes,
}
use axon_queue.QueueManager.{
  QueueManager, QueueMode, fifo, lifo, round_robin, priority, insert_in, next_group_of, take_in,
  get_task_from_fifo, get_task_from_priority, task_of, round_robin_loop, get_task_round_robin,
  get_next_round_robin_group, highest, no_best, name_at,
}

abbrev pub tasks_of : Family (ℕ × TaskPtr) → List TaskPtr
tasks_of m = map (λ e. e.1) (elements m)

-- Every task in a container.
abbrev pub stored : QueueManager → List TaskPtr
stored m = elements m.fifo_queues ++ (elements m.lifo_queues ++ tasks_of m.priority_queues)

module _ (group : Group) (p : TaskPtr) (m : QueueManager) where
  fifo-perm : Perm (elements (add (to_back p) group m.fifo_queues)) (p ∷ elements m.fifo_queues)
  fifo-perm = add-perm (to_back p) group p m.fifo_queues (perm_append_singleton p)

  lifo-perm : Perm (elements (add (to_front p) group m.lifo_queues)) (p ∷ elements m.lifo_queues)
  lifo-perm = add-perm (to_front p) group p m.lifo_queues (λ xs. Perm.refl _)

  priority-perm :
      (q : ℕ)
      → Perm
          (tasks_of (add (insert_by q p) group m.priority_queues))
          (p ∷ tasks_of m.priority_queues)
  priority-perm q =
      Perm.map (λ e. e.1)
        (add-perm (insert_by q p) group (q, p) m.priority_queues (insert_by-perm q p))

  pub insert_in-perm : (mode : QueueMode) → Perm (stored (insert_in mode group p m)) (p ∷ stored m)
  unfolding insert_in
  insert_in-perm fifo = Perm.append_right _ fifo-perm
  insert_in-perm round_robin = Perm.append_right _ fifo-perm
  insert_in-perm lifo =
      Perm.trans (Perm.append_left _ (Perm.append_right _ lifo-perm)) (perm_middle _ _)
  insert_in-perm priority =
      Perm.trans (Perm.append_left _ (Perm.append_left _ (priority-perm _)))
        (Perm.trans (Perm.append_left _ (perm_middle _ _)) (perm_middle _ _))

-- What taking a task leaves alone.
pub record Keeps (m m' : QueueManager) : Type 0 where
  pub mode : m'.mode ≡ m.mode
  pub total : m'.total_tasks ≡ m.total_tasks
  pub names : m'.group_names ≡ m.group_names
  pub tasks : m'.tasks ≡ m.tasks
  pub task_map : m'.task_map ≡ m.task_map

-- What an operation that takes a task leaves: nothing else is lost.
pub record Took (m : QueueManager) (r : Option TaskPtr) (m' : QueueManager) : Type 0 where
  pub taken : (p : TaskPtr) → r ≡ some p → Perm (stored m) (p ∷ stored m')
  pub nothing : r ≡ none → stored m' ≡ stored m
  pub keeps : Keeps m m'

module _ (m m' : QueueManager) (k : Keeps m m') where
  nothing-Took : stored m' ≡ stored m → Took m none m'
  nothing-Took e = record { taken = λ p e. cc; nothing = λ _. e; keeps = k }

  task-Took : (p : TaskPtr) → Perm (stored m) (p ∷ stored m') → Took m (some p) m'
  task-Took p h = record {
    taken = λ q e.
        let same : p ≡ q = ground arith in subst (λ y. Perm (stored m) (y ∷ stored m')) same h;
    nothing = λ e. cc;
    keeps = k;
  }

module _ (m : QueueManager) where
  abbrev with_queues : Family TaskPtr → Family TaskPtr → Family (ℕ × TaskPtr) → ℕ → QueueManager
  with_queues f l q i = record m {
    fifo_queues = f;
    lifo_queues = l;
    priority_queues = q;
    current_group_index = i;
  }

  queues-Keeps :
      (f l : Family TaskPtr) (q : Family (ℕ × TaskPtr)) (i : ℕ) → Keeps m (with_queues f l q i)
  queues-Keeps f l q i = record {
    mode = refl;
    total = refl;
    names = refl;
    tasks = refl;
    task_map = refl;
  }

  fifo-Took :
      (r : Option TaskPtr) (f : Family TaskPtr) (i : ℕ)
      → Takes m.fifo_queues r f
      → Took m r (with_queues f m.lifo_queues m.priority_queues i)
  fifo-Took none f i t = nothing-Took m _ (queues-Keeps f _ _ i) (rw t)
  fifo-Took (some x) f i t = task-Took m _ (queues-Keeps f _ _ i) x (Perm.append_right _ t)

  lifo-Took :
      (r : Option TaskPtr) (l : Family TaskPtr)
      → Takes m.lifo_queues r l
      → Took m r (record m { lifo_queues = l })
  lifo-Took none l t = nothing-Took m _ (queues-Keeps _ l _ _) (rw t)
  lifo-Took (some x) l t =
      task-Took m _ (queues-Keeps _ l _ _) x
        (Perm.trans (Perm.append_left _ (Perm.append_right _ t)) (perm_middle _ _))

  priority-Took :
      (r : Option (ℕ × TaskPtr)) (q : Family (ℕ × TaskPtr))
      → Takes m.priority_queues r q
      → Took m (task_of r) (record m { priority_queues = q })
  priority-Took none q t = nothing-Took m _ (queues-Keeps _ _ q _) (rw t)
  priority-Took (some (n, x)) q t = task-Took m _ (queues-Keeps _ _ q _) x (
      Perm.trans (Perm.append_left _ (Perm.append_left _ (Perm.map (λ e. e.1) t)))
        (Perm.trans (Perm.append_left _ (perm_middle _ _)) (perm_middle _ _)))

  Took-none : Took m none m
  Took-none = nothing-Took m m (queues-Keeps _ _ _ _) refl

Keeps-trans : (a b c : QueueManager) → Keeps a b → Keeps b c → Keeps a c
Keeps-trans a b c p q = record {
  mode = q.mode ∙ p.mode;
  total = q.total ∙ p.total;
  names = q.names ∙ p.names;
  tasks = q.tasks ∙ p.tasks;
  task_map = q.task_map ∙ p.task_map;
}

-- A round that takes nothing, and what follows it.
Took-trans :
    (a b : QueueManager) (r : Option TaskPtr) (c : QueueManager)
    → Took a none b
    → Took b r c
    → Took a r c
Took-trans a b r c p q = record {
  taken = λ x e. subst (λ xs. Perm xs (x ∷ stored c)) (p.nothing refl) (q.taken x e);
  nothing = λ e. q.nothing e ∙ p.nothing refl;
  keeps = Keeps-trans a b c p.keeps q.keeps;
}

-- One round of the loop of `getTaskRoundRobin`.
abbrev pub round : QueueManager → Option TaskPtr × QueueManager
round m = get_task_from_fifo (get_next_round_robin_group m).0 (get_next_round_robin_group m).1

pub next_group :
    (names : List Group) (m : QueueManager)
    → (g : Group) × (i : ℕ) × (next_group_of names m ≡ (g, record m { current_group_index = i }))
unfolding next_group_of
next_group [] m = ("", m.current_group_index, refl)
next_group (x ∷ xs) m =
    (name_at (x ∷ xs) (m.current_group_index % length (x ∷ xs)), inc64 m.current_group_index, refl)

-- A round touches only the FIFO containers.
round-others :
    (m : QueueManager)
    → ((round m).1.lifo_queues ≡ m.lifo_queues) × ((round m).1.priority_queues ≡ m.priority_queues)
unfolding get_task_from_fifo get_next_round_robin_group
round-others m = let (g, i, e) = next_group m.group_names m in rw e (refl, refl)

pub round_robin-others :
    (n : ℕ) (m : QueueManager)
    → ((round_robin_loop n m).1.lifo_queues ≡ m.lifo_queues)
      × ((round_robin_loop n m).1.priority_queues ≡ m.priority_queues)
unfolding round_robin_loop
round_robin-others zero m = (refl, refl)
round_robin-others (suc n) m =
    let (l, q) = round-others m in
    elim (Option-cases (round m).0) [
      | inl e ↦
          let (l', q') = round_robin-others n (round m).1 in
          rw (e, round_robin_loop) (l' ∙ l, q' ∙ q)
      | inr (p, e) ↦ rw (e, round_robin_loop) (l, q)
    ]

round-Took : (m : QueueManager) → Took m (round m).0 (round m).1
unfolding get_task_from_fifo get_next_round_robin_group
round-Took m =
    let (g, i, e) = next_group m.group_names m in
    rw e (fifo-Took m _ _ i (take_from-Takes g m.fifo_queues))

round_robin-Took :
    (n : ℕ) (m : QueueManager) → Took m (round_robin_loop n m).0 (round_robin_loop n m).1
unfolding round_robin_loop
round_robin-Took zero m = Took-none m
round_robin-Took (suc n) m = elim (Option-cases (round m).0) [
  | inl e ↦
      rw (e, round_robin_loop)
        (Took-trans m (round m).1 _ _ (subst (λ r. Took m r (round m).1) e (round-Took m))
          (round_robin-Took n (round m).1))
  | inr (p, e) ↦ rw (e, round_robin_loop) (subst (λ r. Took m r (round m).1) e (round-Took m))
]

-- The `switch` of `dequeue` takes at most one task, whatever the mode.
pub take_in-Took :
    (mode : QueueMode) (m : QueueManager) → Took m (take_in mode m).0 (take_in mode m).1
unfolding take_in get_task_round_robin get_task_from_priority
take_in-Took fifo m =
    fifo-Took m _ _ m.current_group_index (take_first-Takes (groups m.fifo_queues) m.fifo_queues)
take_in-Took lifo m = lifo-Took m _ _ (take_first-Takes (groups m.lifo_queues) m.lifo_queues)
take_in-Took round_robin m = round_robin-Took (length m.group_names) m
take_in-Took priority m =
    let selected = (highest m.tasks m.priority_queues no_best).1 in
    elim (Bool-cases (selected == "")) [
      | inl e ↦ rw (e, take_in) (Took-none m)
      | inr e ↦ rw (e, take_in) (priority-Took m _ _ (take_from-Takes selected m.priority_queues))
    ]
