-- ===== src/QueueManager/Alone.antt =====
-- Only the containers of the current mode of QueueManager.cpp hold tasks, and `setMode` moves them.
use mathlib.Core.List.{Perm, perm_middle, append-nil}
use mathlib.Core.List.Perm
use axon_queue.Prelude.{
  ℕ, ◌≡◌, refl, sym, ap, subst, ◌∙◌, true, List, [], ◌∷◌, ◌++◌, map, arith, inl, inr, Bool-cases,
}
use axon_queue.Task.{TaskPtr}
use axon_queue.Queues.Family.{Group, Family, drain, elements}
use axon_queue.Queues.Family.Laws.{drain-elements}
use axon_queue.QueueManager.{
  QueueManager, QueueMode, fifo, lifo, round_robin, priority, insert_in, insert,
}
use axon_queue.QueueManager.SetMode.{
  same_mode, without_priority, tasks_in, all_tasks, insert_all, set_mode,
}
use axon_queue.QueueManager.Stored.{stored, tasks_of, insert_in-perm}

-- The containers of the other modes are empty.
abbrev pub OthersEmpty : QueueMode → Family TaskPtr → Family TaskPtr → Family (ℕ × TaskPtr) → Type 0
OthersEmpty lifo f l q = (elements f ≡ []) × (tasks_of q ≡ [])
OthersEmpty priority f l q = (elements f ≡ []) × (elements l ≡ [])
OthersEmpty fifo f l q = (elements l ≡ []) × (tasks_of q ≡ [])
OthersEmpty round_robin f l q = (elements l ≡ []) × (tasks_of q ≡ [])

abbrev pub IsAlone : QueueMode → QueueManager → Type 0
IsAlone mode m = OthersEmpty mode m.fifo_queues m.lifo_queues m.priority_queues

pub insert_in-IsAlone :
    (mode : QueueMode) (group : Group) (p : TaskPtr) (m : QueueManager)
    → IsAlone mode m
    → IsAlone mode (insert_in mode group p m)
unfolding insert_in
insert_in-IsAlone fifo group p m a = a
insert_in-IsAlone lifo group p m a = a
insert_in-IsAlone round_robin group p m a = a
insert_in-IsAlone priority group p m a = a

map-without_priority :
    (xs : List (Group × (ℕ × TaskPtr)))
    → map (λ e. e.1) (without_priority xs) ≡ map (λ e. e.1) (map (λ e. e.1) xs)
map-without_priority [] = refl
map-without_priority ((g, (q, p)) ∷ xs) = ap (◌∷◌ p) (map-without_priority xs)

-- What `setMode` collects is all that is stored.
tasks_in-stored :
    (mode : QueueMode) (m : QueueManager)
    → IsAlone mode m
    → map (λ e. e.1) (tasks_in mode m) ≡ stored m
unfolding tasks_in
tasks_in-stored fifo m (l, q) = drain-elements m.fifo_queues ∙ sym (simp (l, q, append-nil))
tasks_in-stored round_robin m (l, q) = drain-elements m.fifo_queues ∙ sym (simp (l, q, append-nil))
tasks_in-stored lifo m (f, q) = drain-elements m.lifo_queues ∙ sym (simp (f, q, append-nil))
tasks_in-stored priority m (f, l) =
    map-without_priority (drain m.priority_queues)
    ∙ (ap (map (λ e. e.1)) (drain-elements m.priority_queues) ∙ sym (simp (f, l)))

-- Filling the containers again adds every task, and keeps the mode and the other containers empty.
record Filled (mode : QueueMode) (xs : List (Group × TaskPtr)) (m m' : QueueManager) : Type 0 where
  perm : Perm (stored m') (map (λ e. e.1) xs ++ stored m)
  alone : IsAlone mode m'
  mode_ : m'.mode ≡ mode
  total : m'.total_tasks ≡ m.total_tasks

pub insert_in-mode :
    (mode : QueueMode) (group : Group) (p : TaskPtr) (m : QueueManager)
    → ((insert_in mode group p m).mode ≡ m.mode)
      × ((insert_in mode group p m).total_tasks ≡ m.total_tasks)
unfolding insert_in
insert_in-mode fifo group p m = (refl, refl)
insert_in-mode lifo group p m = (refl, refl)
insert_in-mode round_robin group p m = (refl, refl)
insert_in-mode priority group p m = (refl, refl)

insert-insert_in :
    (mode : QueueMode) (group : Group) (p : TaskPtr) (m : QueueManager)
    → m.mode ≡ mode
    → insert group p m ≡ insert_in mode group p m
unfolding insert
insert-insert_in mode group p m e = ap (λ d. insert_in d group p m) e

insert_all-Filled :
    (mode : QueueMode) (xs : List (Group × TaskPtr)) (m : QueueManager)
    → m.mode ≡ mode
    → IsAlone mode m
    → Filled mode xs m (insert_all xs m)
unfolding insert_all
insert_all-Filled mode [] m e a = record { perm = Perm.refl _; alone = a; mode_ = e; total = refl }
insert_all-Filled mode ((group, p) ∷ xs) m e a =
    let m' = insert_in mode group p m in
    let (mode', total') = insert_in-mode mode group p m in
    let rest = insert_all-Filled mode xs m' (mode' ∙ e) (insert_in-IsAlone mode group p m a) in
    rw (insert-insert_in mode group p m e) (record {
      perm =
          Perm.trans rest.perm
            (Perm.trans (Perm.append_left _ (insert_in-perm group p m mode)) (perm_middle _ _));
      alone = rest.alone;
      mode_ = rest.mode_;
      total = rest.total ∙ total';
    })

same_mode-eq : (a b : QueueMode) → same_mode a b ≡ true → a ≡ b
unfolding same_mode
same_mode-eq a b h = ground arith

abbrev pub emptied : QueueMode → QueueManager → QueueManager
emptied mode m = record m { mode = mode; fifo_queues = []; lifo_queues = []; priority_queues = [] }

emptied-IsAlone : (mode : QueueMode) (m : QueueManager) → IsAlone mode (emptied mode m)
emptied-IsAlone fifo m = (refl, refl)
emptied-IsAlone lifo m = (refl, refl)
emptied-IsAlone round_robin m = (refl, refl)
emptied-IsAlone priority m = (refl, refl)

-- If only the containers of the current mode hold tasks, changing the mode loses no task and adds
-- none, does not change the size, and leaves every task in the containers of the new mode.
pub set_mode_lem :
    (mode : QueueMode) (m : QueueManager)
    → IsAlone m.mode m
    → let m' = set_mode mode m in
      Perm (stored m') (stored m)
      × IsAlone mode m'
      × (m'.mode ≡ mode)
      × (m'.total_tasks ≡ m.total_tasks)
unfolding set_mode all_tasks
set_mode_lem mode m a = elim (Bool-cases (same_mode m.mode mode)) [
  | inl same ↦
      let e = same_mode-eq m.mode mode same in
      rw (same, set_mode) (Perm.refl _, subst (λ d. IsAlone d m) e a, e, refl)
  | inr other ↦
      let f =
        insert_all-Filled mode (tasks_in m.mode m) (emptied mode m) refl (emptied-IsAlone mode m) in
      rw (other, set_mode)
        (
          subst (λ xs. Perm (stored (insert_all (tasks_in m.mode m) (emptied mode m))) xs)
              (append-nil _ ∙ tasks_in-stored m.mode m a) f.perm,
          f.alone,
          f.mode_,
          f.total,
        )
]
