-- ===== src/QueueManager/Access.antt =====
-- The other operations of QueueManager.cpp: peeking, clearing, lookup, cancellation, dependencies
-- and statistics.
use axon_queue.Prelude.{
  ℕ, ◌%◌, String, Bool, true, false, ◌&&◌, Option, none, some, List, [], ◌∷◌, nat_eq, string_eq,
  if◌then◌else◌, ltb, length, inc64, dec64, u64_mod,
}
use axon_queue.Prelude.Dict.{Dict, find, erase}
use axon_queue.Task.{Task, TaskId, TaskPtr, TaskStatus, created, queued, is_completed}
use axon_queue.Task
use axon_queue.Graph.TaskGraph.{get_dependencies}
use axon_queue.Graph.TaskGraph
use axon_queue.Queues.Family.{Group, Family, peek_first}
use axon_queue.QueueManager.{
  QueueManager, QueueMode, fifo, lifo, round_robin, priority, set_task, highest, no_best,
}

-- The `switch` of `peek`.
unfoldable pub peek_in : QueueMode → QueueManager → Option TaskPtr
peek_in fifo m = peek_first m.fifo_queues
peek_in round_robin m = peek_first m.fifo_queues
peek_in lifo m = peek_first m.lifo_queues
peek_in priority m = (highest m.tasks m.priority_queues no_best).2

unfoldable pub peek : QueueManager → Option TaskPtr × QueueManager
unfolding peek_in
peek m = (peek_in m.mode m, record m { peek_count = inc64 m.peek_count })

-- The group names and the counters stay.
unfoldable pub clear : QueueManager → QueueManager
clear m = record m {
  fifo_queues = [];
  lifo_queues = [];
  priority_queues = [];
  task_map = [];
  total_tasks = 0;
}

unfoldable pub find_task : TaskId → QueueManager → Option TaskPtr
find_task id m = find id m.task_map

abbrev pub is_queued : TaskStatus → Bool
is_queued queued = true
is_queued _ = false

unfoldable pub remove_task_from_map : TaskId → QueueManager → QueueManager
remove_task_from_map id m = record m { task_map = erase id m.task_map }

-- `mark_cancelled` is `Task::markCancelled`, which the sources call and do not define.
unfoldable pub cancel_task :
    (mark_cancelled : Task → Task) → TaskId → QueueManager → Bool × QueueManager
unfolding remove_task_from_map
cancel_task mark_cancelled id m = elim (find id m.task_map) [
  | none ↦ (false, m)
  | some p ↦
      if is_queued (m.tasks p).status
      then (let m₁ = record m { tasks = set_task p (mark_cancelled (m.tasks p)) m.tasks } in
          let m₂ = remove_task_from_map id m₁ in
          (
            true,
            record m₂ { cancel_count = inc64 m₂.cancel_count; total_tasks = dec64 m₂.total_tasks },
          ))
      else (false, m)
]

-- The dependency enters the graph, and the dependent task if both tasks are known.
unfoldable pub add_dependency : (dependent dependency : TaskId) → QueueManager → QueueManager
unfolding find_task
add_dependency dependent dependency m =
    let m₁ = record m {
      dependency_graph = TaskGraph.add_dependency dependent dependency m.dependency_graph;
    } in
    elim (find_task dependent m₁) [
      | none ↦ m₁
      | some dep_task ↦ elim (find_task dependency m₁) [
        | none ↦ m₁
        | some req_task ↦ record m₁ {
          tasks = set_task dep_task (Task.add_dependency req_task (m₁.tasks dep_task)) m₁.tasks;
        }
      ]
    ]

unfoldable pub remove_dependency : (dependent dependency : TaskId) → QueueManager → QueueManager
remove_dependency dependent dependency m = record m {
  dependency_graph = TaskGraph.remove_dependency dependent dependency m.dependency_graph;
}

-- The loop over the dependencies.
unfoldable pub all_known_completed : List TaskId → QueueManager → Bool
unfolding find_task
all_known_completed [] m = true
all_known_completed (id ∷ ids) m = elim (find_task id m) [
  | none ↦ false
  | some p ↦ is_completed (m.tasks p).status && all_known_completed ids m
]

unfoldable pub are_dependencies_met : TaskId → QueueManager → Bool
unfolding all_known_completed
are_dependencies_met id m = elim (get_dependencies id m.dependency_graph) [
  | [] ↦ true
  | dep ∷ deps ↦ all_known_completed (dep ∷ deps) m
]

unfoldable pub sizes {ℓ} : {A : Type ℓ} → Family A → Dict Group ℕ
sizes [] = []
sizes ((group, xs) ∷ m) = (group, length xs % u64_mod) ∷ sizes m

unfoldable pub get_queue_sizes : QueueManager → Dict Group ℕ
unfolding sizes
get_queue_sizes m = elim m.mode [
  | lifo ↦ sizes m.lifo_queues
  | priority ↦ sizes m.priority_queues
  | _ ↦ sizes m.fifo_queues
]

-- A metric is a `double`: a counter, or a quotient of two counters.
pub data Metric : Type 0 where
  count : ℕ → Metric
  average : (total number : ℕ) → Metric

abbrev pub average_of : ℕ → ℕ → Metric
average_of total number = if ltb 0 number then average total number else count 0

unfoldable pub get_metrics : QueueManager → Dict String Metric
get_metrics m =
    ("total_tasks", count m.total_tasks)
    ∷ ("enqueue_count", count m.enqueue_count)
    ∷ ("dequeue_count", count m.dequeue_count)
    ∷ ("peek_count", count m.peek_count)
    ∷ ("cancel_count", count m.cancel_count)
    ∷ ("avg_wait_time_ms", average_of m.total_wait_time_ms m.dequeue_count)
    ∷ ("avg_execution_time_ms", average_of m.total_execution_time_ms m.dequeue_count)
    ∷ []
