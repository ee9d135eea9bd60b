-- ===== src/Task.antt =====
-- include/core/Task.hpp and src/core/Task.cpp: a task and the methods that change it.
-- A time point is a number of clock ticks, and each method that reads the clock takes it as `now`.
-- `enqueued_at` and `dequeued_at` are the members that QueueManager.cpp reads and writes and that
-- Task.hpp does not declare.
pub mod Lifecycle
pub mod Dependencies
pub mod Json
use axon_queue.Prelude.{
  ℕ, ◌+◌, ◌%◌, ◌^◌, ◌<◌, String, Bool, true, false, ◌&&◌, not, Option, none, some, List, [], ◌∷◌,
  ◌++◌, ltb, if◌then◌else◌, int32, inc64,
}

abbrev pub TaskId : Type 0
TaskId = ℕ

-- The address of a task object: what a `shared_ptr<Task>` holds.
abbrev pub TaskPtr : Type 0
TaskPtr = ℕ

-- `other` is a value that no enumerator has; `static_cast` from an `int` can produce it.
pub data TaskStatus : Type 0 where
  created queued running completed failed cancelled : TaskStatus
  other : ℕ → TaskStatus

-- `TaskPriority` is an enumeration over `int`, and every `int` is a value of it.
abbrev pub TaskPriority : Type 0
TaskPriority = ℕ

abbrev pub low : TaskPriority
low = int32 0

abbrev pub medium : TaskPriority
medium = int32 50

abbrev pub high : TaskPriority
high = int32 100

abbrev pub critical : TaskPriority
critical = int32 200

pub record Task : Type 0 where
  pub id : TaskId
  pub name : String
  pub priority : TaskPriority
  pub status : TaskStatus
  pub created_at : ℕ
  pub scheduled_for : ℕ
  pub started_at : ℕ
  pub completed_at : ℕ
  pub enqueued_at : ℕ
  pub dequeued_at : ℕ
  pub error_message : String
  pub retry_count : ℕ
  pub max_retries : ℕ
  pub dependencies : List TaskPtr

-- The time point of a default-constructed `TimePoint`.
abbrev epoch : ℕ
epoch = 0

-- The constructor: the id comes from `next_id_`, whose next value is returned too.
unfoldable pub new_task : (next_id now : ℕ) → String → TaskPriority → Task × ℕ
new_task next_id now name priority = (
  record {
    id = next_id;
    name = name;
    priority = priority;
    status = created;
    created_at = now;
    scheduled_for = now;
    started_at = epoch;
    completed_at = epoch;
    enqueued_at = epoch;
    dequeued_at = epoch;
    error_message = "";
    retry_count = 0;
    max_retries = 3;
    dependencies = [];
  },
  inc64 next_id,
)

unfoldable pub mark_queued : ℕ → Task → Task
mark_queued now t = elim t.status [
  | created ↦ record t { status = queued; scheduled_for = now }
  | _ ↦ t
]

unfoldable pub mark_started : ℕ → Task → Task
mark_started now t = elim t.status [
  | queued ↦ record t { status = running; started_at = now }
  | _ ↦ t
]

unfoldable pub mark_completed : ℕ → Task → Task
mark_completed now t = elim t.status [
  | running ↦ record t { status = completed; completed_at = now }
  | _ ↦ t
]

unfoldable pub can_retry : Task → Bool
can_retry t = ltb t.retry_count t.max_retries

-- What follows a successful exchange from running to failed.
retry : Task → Task
unfolding can_retry
retry t =
    if can_retry t
    then record t { retry_count = (t.retry_count + 1) % 2 ^ 32; status = created }
    else t

-- The message is stored whatever the status is.
unfoldable pub mark_failed : ℕ → String → Task → Task
unfolding retry
mark_failed now error t = elim t.status [
  | running ↦ retry (record t { error_message = error; status = failed; completed_at = now })
  | _ ↦ record t { error_message = error }
]

unfoldable pub cancel : ℕ → Task → Task
cancel now t = elim t.status [
  | completed ↦ t
  | failed ↦ t
  | cancelled ↦ t
  | _ ↦ record t { status = cancelled; completed_at = now }
]

unfoldable pub set_max_retries : ℕ → Task → Task
set_max_retries retries t = record t { max_retries = retries }

unfoldable pub add_dependency : TaskPtr → Task → Task
add_dependency dep t = record t { dependencies = t.dependencies ++ dep ∷ [] }

abbrev pub is_completed : TaskStatus → Bool
is_completed completed = true
is_completed _ = false

-- The loop over the weak pointers; `lock` gives nothing for a task that has been destroyed.
unfoldable pub all_completed : (TaskPtr → Option Task) → List TaskPtr → Bool
all_completed lock [] = true
all_completed lock (p ∷ ps) = elim (lock p) [
  | none ↦ all_completed lock ps
  | some dep ↦ is_completed dep.status && all_completed lock ps
]

unfoldable pub are_dependencies_met : (TaskPtr → Option Task) → Task → Bool
unfolding all_completed
are_dependencies_met lock t = all_completed lock t.dependencies
