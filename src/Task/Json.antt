-- ===== src/Task/Json.antt =====
-- `toJson` and `fromJson` of Task.cpp. The JSON library (nlohmann) is a parameter: objects with
-- `j[key] = value` and reading access.
pub mod Roundtrip
use axon_queue.Prelude.{
  ℕ, ◌+◌, ◌-◌, ◌%◌, ◌*◌, ◌/◌, ◌^◌, ◌<◌, ◌≡◌, refl, ◌≢◌, String, Bool, true, false, Option, none,
  some, List, [], ◌∷◌, arith, ◌==◌, nat_eq, string_eq, if◌then◌else◌, int32,
}
use axon_queue.Task.{
  Task, TaskId, TaskPtr, TaskStatus, created, queued, running, completed, failed, cancelled, other,
}

-- The values that the program writes into an object. `int` is kept as in `int32`.
pub data Value : Type 0 where
  int uint : ℕ → Value
  text : String → Value
  ids : List ℕ → Value

-- What the code relies on of the JSON library: an assignment under one key is read back, and leaves
-- the values under the other keys; what is dumped is parsed again. `none` is an access that throws.
-- A dumped text is kept as `Text`, which only the library reads.
pub record JsonLib : Type 1 where
  pub Json : Type 0
  pub Text : Type 0
  pub null : Json
  pub set : String → Value → Json → Json
  pub get : String → Json → Option Value
  pub set_json : String → Json → Json → Json
  pub get_json : String → Json → Option Json
  pub dump : Json → Text
  pub parse : Text → Option Json
  pub get-set :
      (k j : String) (v : Value) (o : Json)
      → get j (set k v o) ≡ (if k == j then some v else get j o)
  pub get-set_json :
      (k j : String) (v o : Json) → get j (set_json k v o) ≡ (if k == j then none else get j o)
  pub get_json-set_json :
      (k j : String) (v o : Json)
      → get_json j (set_json k v o) ≡ (if k == j then some v else get_json j o)
  pub parse-dump : (o : Json) → parse (dump o) ≡ some o

-- `get<int>()` and `get<uint64_t>()` convert between the integer types.
abbrev pub as_int : Value → Option ℕ
as_int (int n) = some n
as_int (uint n) = some (int32 n)
as_int _ = none

abbrev pub as_uint : Value → Option ℕ
as_uint (int n) = some ((n + (2 ^ 64 - 2 ^ 31)) % 2 ^ 64)
as_uint (uint n) = some n
as_uint _ = none

abbrev pub as_text : Value → Option String
as_text (text s) = some s
as_text _ = none

-- `static_cast<int>` of a status, and back.
unfoldable pub status_code : TaskStatus → ℕ
status_code created = int32 0
status_code queued = int32 1
status_code running = int32 2
status_code completed = int32 3
status_code failed = int32 4
status_code cancelled = int32 5
status_code (other n) = n

unfoldable pub status_of_code : ℕ → TaskStatus
status_of_code n =
    if n == int32 0
    then created
    else if n == int32 1
    then queued
    else if n == int32 2
    then running
    else if n == int32 3
    then completed
    else if n == int32 4
    then failed
    else if n == int32 5
    then cancelled
    else other n

-- The ids of the dependencies that still exist.
unfoldable pub dependency_ids : (TaskPtr → Option Task) → List TaskPtr → List TaskId
dependency_ids lock [] = []
dependency_ids lock (p ∷ ps) = elim (lock p) [
  | none ↦ dependency_ids lock ps
  | some dep ↦ dep.id ∷ dependency_ids lock ps
]

-- `std::chrono::system_clock` counts nanoseconds, `time_t` seconds. Time points are at or after the
-- epoch and have no upper bound here, so a negative `time_t` is not modelled.
abbrev pub ticks_per_second : ℕ
ticks_per_second = 10 ^ 9

unfoldable pub to_time_t : ℕ → ℕ
to_time_t t = t / ticks_per_second

unfoldable pub from_time_t : ℕ → ℕ
from_time_t s = s * ticks_per_second

-- `get<T>()` of a field, and the assignment of what it returns; it fails where `get` throws.
abbrev store {ℓ} : {A : Type ℓ} → Option A → (A → Task) → Option Task
store none f = none
store (some a) f = some (f a)

abbrev Assignment : Type 0
Assignment = Value → Task → Option Task

abbrev set_id : Assignment
set_id v t = store (as_uint v) λ n. record t { id = n }

abbrev set_name : Assignment
set_name v t = store (as_text v) λ s. record t { name = s }

abbrev set_priority : Assignment
set_priority v t = store (as_int v) λ n. record t { priority = n }

abbrev set_status : Assignment
set_status v t = store (as_int v) λ n. record t { status = status_of_code n }

abbrev set_created_at : Assignment
set_created_at v t = store (as_uint v) λ n. record t { created_at = from_time_t n }

abbrev set_scheduled_for : Assignment
set_scheduled_for v t = store (as_uint v) λ n. record t { scheduled_for = from_time_t n }

abbrev set_started_at : Assignment
set_started_at v t = store (as_uint v) λ n. record t { started_at = from_time_t n }

abbrev set_completed_at : Assignment
set_completed_at v t = store (as_uint v) λ n. record t { completed_at = from_time_t n }

abbrev set_error_message : Assignment
set_error_message v t = store (as_text v) λ s. record t { error_message = s }

abbrev set_retry_count : Assignment
set_retry_count v t = store (as_uint v) λ n. record t { retry_count = n % 2 ^ 32 }

abbrev set_max_retries : Assignment
set_max_retries v t = store (as_uint v) λ n. record t { max_retries = n % 2 ^ 32 }

-- The assignments of `fromJson`, in order.
abbrev fields : List (String × Assignment)
fields =
    ("id", set_id)
    ∷ ("name", set_name)
    ∷ ("priority", set_priority)
    ∷ ("status", set_status)
    ∷ ("created_at", set_created_at)
    ∷ ("scheduled_for", set_scheduled_for)
    ∷ ("started_at", set_started_at)
    ∷ ("completed_at", set_completed_at)
    ∷ ("error_message", set_error_message)
    ∷ ("retry_count", set_retry_count)
    ∷ ("max_retries", set_max_retries)
    ∷ []

module _ (lib : JsonLib) where
  open lib use {Json, null, set, get, get-set}

  unfoldable pub to_json : (TaskPtr → Option Task) → Task → Json
  to_json lock t = set "dependencies" (ids (dependency_ids lock t.dependencies)) (
      set "max_retries" (uint t.max_retries) (
        set "retry_count" (uint t.retry_count) (
          set "error_message" (text t.error_message) (
            set "completed_at" (uint (to_time_t t.completed_at)) (
              set "started_at" (uint (to_time_t t.started_at)) (
                set "scheduled_for" (uint (to_time_t t.scheduled_for)) (
                  set "created_at" (uint (to_time_t t.created_at)) (
                    set "status" (int (status_code t.status)) (
                      set "priority" (int t.priority)
                        (set "name" (text t.name) (set "id" (uint t.id) null)))))))))))

  assign : String → Assignment → Json → Task → Option Task
  assign key f j t = elim (get key j) [ none ↦ none | some v ↦ f v t ]

  -- The fields assigned before the first access that throws keep their new values. The flag says
  -- whether the call returned.
  load_fields : Json → List (String × Assignment) → Task → Task × Bool
  load_fields j [] t = (t, true)
  load_fields j ((key, f) ∷ rest) t = elim (assign key f j t) [
    | none ↦ (t, false)
    | some t' ↦ load_fields j rest t'
  ]

  unfoldable pub from_json : Json → Task → Task × Bool
  unfolding assign load_fields
  from_json j t = load_fields j fields t
