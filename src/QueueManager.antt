-- ===== src/QueueManager.antt =====
-- src/core/QueueManager.cpp and include/core/QueueManager.hpp: state and operations. Each operation
-- runs under the lock that it takes, so it is a function of the whole state; it reads the clock as
-- `now`. The task objects are in `tasks`; the queues and the map hold their addresses.
pub mod SetMode
pub mod Access
pub mod Drawn
pub mod Stored
pub mod Alone
pub mod History
pub mod Count
pub mod Cancel
pub mod Highest
pub mod Order
pub mod Named
pub mod Entered
pub mod Turns
use axon_queue.Prelude.{
  ℕ, zero, suc, ◌+◌, ◌-◌, ◌%◌, ◌^◌, ◌/◌, ◌≡◌, String, Bool, true, false, not, ◌&&◌, Option, none,
  some, List, [], ◌∷◌, ◌++◌, map, ◌==◌, nat_eq, string_eq, if◌then◌else◌, ltb, leb, length,
  get_elem?, inc64, dec64, add64, u64_mod, int_min,
}
use axon_queue.Prelude.Dict.{Dict, find, put, erase, find_or}
use axon_queue.Prelude.IdSet.{contains}
use axon_queue.Task.{Task, TaskId, TaskPtr, TaskStatus, queued, is_completed}
use axon_queue.Task
use axon_queue.Graph.TaskGraph.{TaskGraph, empty_graph, get_dependencies}
use axon_queue.Graph.TaskGraph
use axon_queue.Queues.Trace.{to_back, to_front}
use axon_queue.Queues.Family.{
  Group, Family, insert_by, add, take_from, groups, take_first, peek_first,
}

pub data QueueMode : Type 0 where
  fifo lifo round_robin priority : QueueMode

pub record QueueManager : Type 0 where
  pub mode : QueueMode
  pub task_map : Dict TaskId TaskPtr
  pub total_tasks : ℕ
  pub group_names : List Group
  pub current_group_index : ℕ
  pub fifo_queues : Family TaskPtr
  pub lifo_queues : Family TaskPtr
  pub priority_queues : Family (ℕ × TaskPtr)
  pub dependency_graph : TaskGraph
  pub enqueue_count : ℕ
  pub dequeue_count : ℕ
  pub peek_count : ℕ
  pub cancel_count : ℕ
  pub total_wait_time_ms : ℕ
  pub total_execution_time_ms : ℕ
  pub tasks : TaskPtr → Task

unfoldable pub new_manager : (TaskPtr → Task) → QueueManager
new_manager tasks = record {
  mode = fifo;
  task_map = [];
  total_tasks = 0;
  group_names = [];
  current_group_index = 0;
  fifo_queues = [];
  lifo_queues = [];
  priority_queues = [];
  dependency_graph = empty_graph;
  enqueue_count = 0;
  dequeue_count = 0;
  peek_count = 0;
  cancel_count = 0;
  total_wait_time_ms = 0;
  total_execution_time_ms = 0;
  tasks = tasks;
}

-- An assignment to the object at `p`.
abbrev pub set_task : TaskPtr → Task → (TaskPtr → Task) → TaskPtr → Task
set_task p t tasks q = if p == q then t else tasks q

unfoldable pub size : QueueManager → ℕ
size m = m.total_tasks

unfoldable pub is_empty : QueueManager → Bool
unfolding size
is_empty m = size m == 0

-- The `switch` of `enqueue`, and of the second half of `setMode`.
unfoldable pub insert_in : QueueMode → Group → TaskPtr → QueueManager → QueueManager
insert_in fifo group p m = record m { fifo_queues = add (to_back p) group m.fifo_queues }
insert_in lifo group p m = record m { lifo_queues = add (to_front p) group m.lifo_queues }
insert_in priority group p m = record m {
  priority_queues = add (insert_by (m.tasks p).priority p) group m.priority_queues;
}
insert_in round_robin group p m = record m { fifo_queues = add (to_back p) group m.fifo_queues }

unfoldable pub insert : Group → TaskPtr → QueueManager → QueueManager
unfolding insert_in
insert group p m = insert_in m.mode group p m

unfoldable pub update_task_in_map : TaskPtr → QueueManager → QueueManager
update_task_in_map p m = record m { task_map = put (m.tasks p).id p m.task_map }

abbrev pub add_name : Group → List Group → List Group
add_name group names = if contains names group then names else names ++ group ∷ []

-- A null task is ignored.
unfoldable pub enqueue : (now : ℕ) → Option TaskPtr → Group → QueueManager → QueueManager
unfolding insert update_task_in_map
enqueue now none group m = m
enqueue now (some p) group m =
    let m₁ = record m { tasks = set_task p (record (m.tasks p) { enqueued_at = now }) m.tasks } in
    let m₂ = update_task_in_map p m₁ in
    let m₃ = insert group p (record m₂ { group_names = add_name group m₂.group_names }) in
    record m₃ { enqueue_count = inc64 m₃.enqueue_count; total_tasks = inc64 m₃.total_tasks }

unfoldable pub get_task_from_fifo : Group → QueueManager → Option TaskPtr × QueueManager
get_task_from_fifo group m =
    let (r, queues) = take_from group m.fifo_queues in (r, record m { fifo_queues = queues })

-- The task of an element of a priority queue.
abbrev pub task_of : Option (ℕ × TaskPtr) → Option TaskPtr
task_of none = none
task_of (some (p, t)) = some t

unfoldable pub get_task_from_priority : Group → QueueManager → Option TaskPtr × QueueManager
get_task_from_priority group m =
    let (r, queues) = take_from group m.priority_queues in
    (task_of r, record m { priority_queues = queues })

abbrev pub name_at : List Group → ℕ → Group
name_at names i = elim (get_elem? names i) [ none ↦ "" | some name ↦ name ]

-- `getNextRoundRobinGroup`, given the group names.
unfoldable pub next_group_of : List Group → QueueManager → Group × QueueManager
next_group_of [] m = ("", m)
next_group_of (x ∷ xs) m = (
  name_at (x ∷ xs) (m.current_group_index % length (x ∷ xs)),
  record m { current_group_index = inc64 m.current_group_index },
)

unfoldable pub get_next_round_robin_group : QueueManager → Group × QueueManager
unfolding next_group_of
get_next_round_robin_group m = next_group_of m.group_names m

-- The loop of `getTaskRoundRobin`, with the rounds left.
unfoldable pub round_robin_loop : ℕ → QueueManager → Option TaskPtr × QueueManager
unfolding get_next_round_robin_group get_task_from_fifo
round_robin_loop zero m = (none, m)
round_robin_loop (suc n) m =
    let (group, m₁) = get_next_round_robin_group m in
    let (r, m₂) = get_task_from_fifo group m₁ in
    elim r [ some p ↦ (some p, m₂) | none ↦ round_robin_loop n m₂ ]

unfoldable pub get_task_round_robin : QueueManager → Option TaskPtr × QueueManager
unfolding round_robin_loop
get_task_round_robin m = round_robin_loop (length m.group_names) m

-- The loop over the priority queues: the highest priority of a first element so far, with its group
-- and task. The priority is read from the task.
unfoldable pub highest :
    (TaskPtr → Task)
    → Family (ℕ × TaskPtr)
    → ℕ × Group × Option TaskPtr
    → ℕ × Group × Option TaskPtr
highest tasks [] best = best
highest tasks ((group, []) ∷ m) best = highest tasks m best
highest tasks ((group, (q, p) ∷ rest) ∷ m) (top, selected, task) = highest tasks m (
    if ltb top (tasks p).priority
    then ((tasks p).priority, group, some p)
    else (top, selected, task))

abbrev pub no_best : ℕ × Group × Option TaskPtr
no_best = (int_min, "", none)

-- The `switch` of `dequeue`.
unfoldable pub take_in : QueueMode → QueueManager → Option TaskPtr × QueueManager
unfolding get_task_from_priority get_task_round_robin highest
take_in fifo m =
    let (r, queues) = take_first (groups m.fifo_queues) m.fifo_queues in
    (r, record m { fifo_queues = queues })
take_in lifo m =
    let (r, queues) = take_first (groups m.lifo_queues) m.lifo_queues in
    (r, record m { lifo_queues = queues })
take_in round_robin m = get_task_round_robin m
take_in priority m =
    let selected = (highest m.tasks m.priority_queues no_best).1 in
    if selected == "" then (none, m) else get_task_from_priority selected m

unfoldable pub take_next : QueueManager → Option TaskPtr × QueueManager
unfolding take_in
take_next m = take_in m.mode m

abbrev pub ticks_per_ms : ℕ
ticks_per_ms = 10 ^ 6

-- A wait in milliseconds as it is added to an unsigned counter; the clock may have been set back.
unfoldable pub wait_ms : (now since : ℕ) → ℕ
wait_ms now since =
    if leb since now
    then (now - since) / ticks_per_ms % u64_mod
    else (u64_mod - (since - now) / ticks_per_ms % u64_mod) % u64_mod

-- The bookkeeping for a task that `dequeue` returns.
unfoldable pub note_dequeued : (now : ℕ) → TaskPtr → QueueManager → QueueManager
unfolding wait_ms
note_dequeued now p m =
    let t = m.tasks p in
    record m {
      tasks = set_task p (record t { dequeued_at = now }) m.tasks;
      dequeue_count = inc64 m.dequeue_count;
      total_tasks = dec64 m.total_tasks;
      total_wait_time_ms = add64 m.total_wait_time_ms (wait_ms now t.enqueued_at);
    }

unfoldable pub dequeue : (now : ℕ) → QueueManager → Option TaskPtr × QueueManager
unfolding is_empty take_next note_dequeued
dequeue now m =
    if is_empty m
    then (none, m)
    else (let (r, m') = take_next m in
        elim r [ none ↦ (none, m') | some p ↦ (some p, note_dequeued now p m') ])
