-- ===== src/Task/Json/Roundtrip.antt =====
-- What `fromJson` restores of what `toJson` of Task.cpp wrote.
use axon_queue.Prelude.{
  ℕ, ◌^◌, ◌<◌, ◌≡◌, refl, ◌∙◌, ◌≢◌, String, true, Option, some, arith, nat_eq, string_eq,
}
use axon_queue.Task.{
  Task, TaskPtr, TaskStatus, created, queued, running, completed, failed, cancelled, other,
}
use axon_queue.Task.Json.{
  JsonLib, int, uint, text, status_code, status_of_code, to_time_t, from_time_t, to_json, from_json,
}

module _ (lib : JsonLib) where
  open lib use {Json, set, get, get-set}

  -- What is left of a task in its object: times to the second.
  abbrev to_second : ℕ → ℕ
  to_second t = from_time_t (to_time_t t)

  abbrev pub Restored : Task → Task → Task
  Restored t u = record u {
    id = t.id;
    name = t.name;
    priority = t.priority;
    status = t.status;
    created_at = to_second t.created_at;
    scheduled_for = to_second t.scheduled_for;
    started_at = to_second t.started_at;
    completed_at = to_second t.completed_at;
    error_message = t.error_message;
    retry_count = t.retry_count;
    max_retries = t.max_retries;
  }

  -- The values that `toJson` stores are the ones read back under each key.
  record Holds (j : Json) (t : Task) : Type 0 where
    id : get "id" j ≡ some (uint t.id)
    name : get "name" j ≡ some (text t.name)
    priority : get "priority" j ≡ some (int t.priority)
    status : get "status" j ≡ some (int (status_code t.status))
    created_at : get "created_at" j ≡ some (uint (to_time_t t.created_at))
    scheduled_for : get "scheduled_for" j ≡ some (uint (to_time_t t.scheduled_for))
    started_at : get "started_at" j ≡ some (uint (to_time_t t.started_at))
    completed_at : get "completed_at" j ≡ some (uint (to_time_t t.completed_at))
    error_message : get "error_message" j ≡ some (text t.error_message)
    retry_count : get "retry_count" j ≡ some (uint t.retry_count)
    max_retries : get "max_retries" j ≡ some (uint t.max_retries)

  to_json-Holds : (lock : TaskPtr → Option Task) (t : Task) → Holds (to_json lib lock t) t
  unfolding to_json
  to_json-Holds lock t = record {
    id = simp get-set;
    name = simp get-set;
    priority = simp get-set;
    status = simp get-set;
    created_at = simp get-set;
    scheduled_for = simp get-set;
    started_at = simp get-set;
    completed_at = simp get-set;
    error_message = simp get-set;
    retry_count = simp get-set;
    max_retries = simp get-set;
  }

  -- Every status that is an enumerator survives `static_cast<int>` and back.
  status_roundtrip : (s : TaskStatus) → ((n : ℕ) → s ≢ other n) → status_of_code (status_code s) ≡ s
  unfolding status_of_code status_code
  status_roundtrip created h = refl
  status_roundtrip queued h = refl
  status_roundtrip running h = refl
  status_roundtrip completed h = refl
  status_roundtrip failed h = refl
  status_roundtrip cancelled h = refl
  status_roundtrip (other n) h = absurd (h n refl)

  from_json-Restored :
      (j : Json) (t u : Task) (h : Holds j t)
      → status_of_code (status_code t.status) ≡ t.status
      → t.retry_count < 2 ^ 32
      → t.max_retries < 2 ^ 32
      → from_json lib j u ≡ (Restored t u, true)
  unfolding from_json
  from_json-Restored j t u h c r m = ground arith

  -- Loading what `toJson` wrote into any task restores the id, name, priority, status, message and
  -- counts of a task whose status is an enumerator and whose counts fit 32 bits, and its times to
  -- the second; the call returns, and the dependencies of the loading task stay as they were.
  pub from_json-to_json :
      (lock : TaskPtr → Option Task) (t u : Task)
      → ((n : ℕ) → t.status ≢ other n)
      → t.retry_count < 2 ^ 32
      → t.max_retries < 2 ^ 32
      → from_json lib (to_json lib lock t) u ≡ (Restored t u, true)
  from_json-to_json lock t u e r m =
      from_json-Restored (to_json lib lock t) t u (to_json-Holds lock t)
        (status_roundtrip t.status e) r m

  abbrev pub with_status : TaskStatus → Task → Task
  with_status status t = record t { status = status }

  set_status-Holds :
      (status : TaskStatus) (j : Json) (t : Task)
      → Holds j t
      → Holds (set "status" (int (status_code status)) j) (with_status status t)
  set_status-Holds status j t h =
      let changed = λ (key : String). get-set "status" key (int (status_code status)) j in
      record {
        id = changed "id" ∙ h.id;
        name = changed "name" ∙ h.name;
        priority = changed "priority" ∙ h.priority;
        status = changed "status";
        created_at = changed "created_at" ∙ h.created_at;
        scheduled_for = changed "scheduled_for" ∙ h.scheduled_for;
        started_at = changed "started_at" ∙ h.started_at;
        completed_at = changed "completed_at" ∙ h.completed_at;
        error_message = changed "error_message" ∙ h.error_message;
        retry_count = changed "retry_count" ∙ h.retry_count;
        max_retries = changed "max_retries" ∙ h.max_retries;
      }

  -- The same for an object whose status has been assigned afterwards.
  pub from_json-set_status :
      (lock : TaskPtr → Option Task) (status : TaskStatus) (t u : Task)
      → ((n : ℕ) → status ≢ other n)
      → t.retry_count < 2 ^ 32
      → t.max_retries < 2 ^ 32
      → from_json lib (set "status" (int (status_code status)) (to_json lib lock t)) u
        ≡ (Restored (with_status status t) u, true)
  from_json-set_status lock status t u e r m =
      from_json-Restored (set "status" (int (status_code status)) (to_json lib lock t))
        (with_status status t) u
        (set_status-Holds status (to_json lib lock t) t (to_json-Holds lock t))
        (status_roundtrip status e) r m
