-- ===== src/Tests/ManagerTests.antt =====
-- The theorems on the queue manager at concrete inputs.
use mathlib.Core.List.{Perm}
use axon_queue.Prelude.{
  string_eq, ℕ, ◌≡◌, ◌≢◌, ◌%◌, refl, List, [], ◌∷◌, ◌++◌, some, true, arith, All, length, u64_mod,
  is_some,
}
use axon_queue.Prelude.Dict.{find}
use axon_queue.Task.{TaskId, queued, cancel}
use axon_queue.QueueManager.{QueueManager, lifo, round_robin, priority, new_manager, size}
use axon_queue.QueueManager.SetMode.{set_mode}
use axon_queue.QueueManager.Access.{find_task}
use axon_queue.QueueManager.Stored.{stored}
use axon_queue.QueueManager.Alone.{IsAlone, set_mode_lem}
use axon_queue.QueueManager.History.{
  Call, enqueues, dequeues, sets_mode, cancels, depends, run, run_conserves,
}
use axon_queue.QueueManager.Count.{IsNoCancel, size_counts}
use axon_queue.Prelude.IdSet.{contains}
use axon_queue.QueueManager.{dequeue}
use axon_queue.QueueManager.Access.{peek}
use axon_queue.QueueManager.Highest.{BoundsFirsts, value}
use axon_queue.QueueManager.Order.{IsNamed, dequeue-peek, dequeue_highest}
use axon_queue.QueueManager.Turns.{dequeue_turns}
use axon_queue.Graph.{Graph, Edge}
use axon_queue.Graph.Walk.{Reach}
use axon_queue.Graph.Dot.{Line, dot_text}
use axon_queue.Graph.Dot.Lines.{node_of, has_arrow}
use axon_queue.QueueManager.Drawn.{
  generate_dependency_graph, picture, IsDrawn, generate_dependency_graph_lem,
}
use axon_queue.Tests.Sample.{fresh, with_status}

abbrev calls : List (ℕ × Call)
calls =
    (10, enqueues (some 1) "mail")
    ∷ (11, enqueues (some 2) "build")
    ∷ (12, depends 1 2)
    ∷ (13, sets_mode priority)
    ∷ (14, dequeues)
    ∷ (15, sets_mode round_robin)
    ∷ (16, dequeues)
    ∷ []

run_conserves_example :
    let (out, m) = run (cancel 17) (calls ++ (17, cancels 1) ∷ []) (new_manager fresh) in
    Perm (out ++ stored m) (1 ∷ 2 ∷ [])
run_conserves_example = run_conserves (cancel 17) fresh (calls ++ (17, cancels 1) ∷ [])

no_cancel : All (λ e. IsNoCancel e.1) calls
no_cancel = (tt, (tt, (tt, (tt, (tt, (tt, (tt, tt)))))))

size_counts_example :
    let m = (run (cancel 17) calls (new_manager fresh)).1 in size m ≡ length (stored m) % u64_mod
size_counts_example = size_counts (cancel 17) fresh calls no_cancel

-- A manager in priority mode with a task in each of two groups.
abbrev two_groups : QueueManager
two_groups = record (new_manager fresh) {
  mode = priority;
  total_tasks = 2;
  priority_queues = ("mail", (9, 1) ∷ []) ∷ ("build", (5, 2) ∷ []) ∷ [];
}

two_groups-IsAlone : IsAlone priority two_groups
unfolding new_manager
two_groups-IsAlone = (refl, refl)

set_mode_lem_example :
    let m = set_mode lifo two_groups in
    Perm (stored m) (stored two_groups) × IsAlone lifo m × (m.mode ≡ lifo) × (m.total_tasks ≡ 2)
set_mode_lem_example = set_mode_lem lifo two_groups two_groups-IsAlone

-- A manager whose task 1 has been marked as queued.
abbrev one_queued : QueueManager
one_queued = record (new_manager (with_status queued)) {
  total_tasks = 1;
  task_map = (1, 1) ∷ [];
  fifo_queues = ("mail", 1 ∷ []) ∷ [];
}

one_queued_known : find_task 1 one_queued ≡ some 1
unfolding find_task find new_manager
one_queued_known = refl

one_queued_status : (one_queued.tasks 1).status ≡ queued
unfolding new_manager
one_queued_status = refl

two_groups-IsNamed : IsNamed two_groups
unfolding new_manager contains
two_groups-IsNamed = record {
  fifo_queues = tt;
  lifo_queues = tt;
  priority_queues = (refl, (refl, tt));
  not_empty = refl;
}

not_round : two_groups.mode ≢ round_robin
not_round e = ground (arith, e)

two_tasks : size two_groups ≢ 0
unfolding size
two_tasks e = omega (arith, e)

dequeue-peek_example : (dequeue 20 two_groups).0 ≡ (peek two_groups).0
dequeue-peek_example = dequeue-peek 20 two_groups not_round two_tasks two_groups-IsNamed

dequeue_highest_example :
    BoundsFirsts fresh
      (value fresh (dequeue 20 two_groups).0)
      (("mail", (9, 1) ∷ []) ∷ ("build", (5, 2) ∷ []) ∷ [])
unfolding new_manager
dequeue_highest_example = dequeue_highest 20 two_groups refl two_tasks two_groups-IsNamed

-- A manager in the round-robin mode whose second group has a task.
abbrev in_turns : QueueManager
in_turns = record (new_manager fresh) {
  mode = round_robin;
  total_tasks = 1;
  group_names = "mail" ∷ "build" ∷ [];
  current_group_index = 4;
  fifo_queues = ("mail", []) ∷ ("build", 2 ∷ []) ∷ [];
}

one_task : size in_turns ≢ 0
unfolding size
one_task e = omega (arith, e)

dequeue_turns_example : is_some (dequeue 20 in_turns).0 ≡ true
unfolding find
dequeue_turns_example =
    dequeue_turns 20 in_turns 1 "build" 2 [] refl one_task (omega arith) refl refl

-- 1, 2 and 3 are known; 1 depends on 2 and on 4, which is not.
abbrev drawable : QueueManager
drawable = record (new_manager fresh) {
  task_map = (1, 1) ∷ (2, 2) ∷ (3, 3) ∷ [];
  dependency_graph = record { dependencies = (1, 2 ∷ 4 ∷ []) ∷ []; dependents = [] };
}

generate_dependency_graph_lem_example :
    let g : Graph = (1, 2 ∷ 4 ∷ []) ∷ [] in
    (lines : List Line) × (generate_dependency_graph 1 drawable ≡ some (dot_text lines))
    × ((u : TaskId) → Reach g 1 u → node_of u lines ≡ some (picture drawable u))
    × ((u v : TaskId) → Reach g 1 u → Edge g u v → has_arrow u v lines ≡ true)
    × All (IsDrawn 1 drawable) lines
generate_dependency_graph_lem_example = generate_dependency_graph_lem 1 drawable
