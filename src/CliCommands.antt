-- ===== src/CliCommands.antt =====
-- src/network/CLICommands.cpp and include/network/CLICommands.hpp: the commands over a queue manager
-- and a pool of storages. A command reads the clock as `now` throughout, its parameters are a JSON
-- object, and a key that is missing is an access that throws, where the library's `operator[]` on a
-- constant object leaves that case undefined. The storages are taken to be initialized.
pub mod TaskCommands
pub mod Settings
pub mod Files
pub mod Batches
pub mod Listing
pub mod Pool
pub mod Enqueued
pub mod Transfer
use axon_queue.Prelude.{
  ℕ, ◌+◌, ◌-◌, ◌*◌, ◌^◌, ◌%◌, String, Bool, true, false, ◌||◌, Option, none, some, List, [], ◌∷◌,
  ◌==◌, nat_eq, if◌then◌else◌, inc64, is_some,
}
use axon_queue.Prelude.Dict.{Dict}
use axon_queue.Task.{Task, TaskId, TaskPtr, TaskStatus}
use axon_queue.Task.Json.{JsonLib, Value, int, uint, text, as_int, as_uint, as_text, to_json}
use axon_queue.QueueManager.{QueueManager, set_task}
use axon_queue.Storage.{Storage, save_task, update_task_status, append_to_wal}
use axon_queue.Storage.Database.{RocksDb}

-- What the commands use besides: which tasks exist still, the message of the exception that an
-- access throws, the text of `generateDOTGraph`, which is not modelled and taken to return (it does
-- when the dependencies have no cycle), `Task::markCancelled`, the exception of a task's `execute`
-- if it throws one, `std::regex_match`, and the files that can be written.
pub record World (lib : JsonLib) : Type 0 where
  pub alive : TaskPtr → Bool
  pub what : String → lib.Json → String
  pub parse_error : lib.Text → String
  pub mark_cancelled : Task → Task
  pub execute : Task → Option String
  pub dot_graph : TaskId → QueueManager → String
  pub regex_match : (text pattern : String) → Bool
  pub writable : String → Bool

-- The members of a response besides its status.
pub data Field {ℓ} (Json : Type ℓ) : Type ℓ where
  number : ℕ → Field Json
  word : String → Field Json
  object : Json → Field Json
  objects : List Json → Field Json

-- An object with the status "success" and further members, or with the status "error" and a
-- message.
pub data Response {ℓ} (Json : Type ℓ) : Type ℓ where
  success : List (String × Field Json) → Response Json
  error : String → Response Json

abbrev pub storage_pool_size : ℕ
storage_pool_size = 32

module _ (lib : JsonLib) (rocks : RocksDb lib) (world : World lib) where
  open lib use {Json, Text, null, set, get, get_json}
  open world use {alive}

  -- `next_id` is `Task::next_id_`, and `files` are the files of the working directory. The storages
  -- of the pool are taken to be open; `initializeStoragePool` makes them and does not open them.
  pub record CliCommands : Type 0 where
    pub queue_manager : QueueManager
    pub storage : Storage lib rocks
    pub storage_pool : ℕ → Storage lib rocks
    pub storage_pool_index : ℕ
    pub next_id : ℕ
    pub files : Dict String Text

  abbrev pub Result : Type 0
  Result = Response Json × CliCommands

  -- The place in the pool of the storage to use.
  unfoldable pub get_storage_from_pool : CliCommands → ℕ × CliCommands
  get_storage_from_pool c = (
    c.storage_pool_index % storage_pool_size,
    record c { storage_pool_index = inc64 c.storage_pool_index },
  )

  -- A call on the next storage of the pool, whose result is ignored.
  unfoldable pub on_pool :
      (Storage lib rocks → Bool × Storage lib rocks) → CliCommands → CliCommands
  unfolding get_storage_from_pool
  on_pool call c =
      let (index, c₁) = get_storage_from_pool c in
      record c₁ {
        storage_pool = λ i. if i == index then (call (c₁.storage_pool i)).1 else c₁.storage_pool i;
      }

  -- `std::weak_ptr::lock`.
  abbrev pub lock : CliCommands → TaskPtr → Option Task
  lock c p = if alive p then some (c.queue_manager.tasks p) else none

  unfoldable pub save_in_pool : (now : ℕ) → TaskPtr → CliCommands → CliCommands
  unfolding on_pool
  save_in_pool now p c =
      on_pool (save_task lib rocks (lock c) now (some (c.queue_manager.tasks p))) c

  unfoldable pub status_in_pool : (now : ℕ) → TaskId → TaskStatus → CliCommands → CliCommands
  unfolding on_pool
  status_in_pool now id status c = on_pool (update_task_status lib rocks now id status) c

  unfoldable pub log_entry : (now : ℕ) → TaskId → (event details : String) → Json
  log_entry now id event details =
      set "details" (text details)
        (set "event" (text event) (set "task_id" (uint id) (set "timestamp" (uint now) null)))

  unfoldable pub log_event :
      (now : ℕ) → TaskId → (event details : String) → CliCommands → CliCommands
  unfolding on_pool log_entry
  log_event now id event details c =
      on_pool (append_to_wal lib rocks now "event_log" (log_entry now id event details)) c

  -- An assignment to a task object.
  unfoldable pub change_task : TaskPtr → (Task → Task) → CliCommands → CliCommands
  change_task p f c = record c {
    queue_manager = record c.queue_manager {
      tasks = set_task p (f (c.queue_manager.tasks p)) c.queue_manager.tasks;
    };
  }

  -- `params[key].get<T>()` for an id and for a text, and `params.contains(key)`.
  abbrev pub then_value {ℓ} : {A : Type ℓ} → (Value → Option A) → Option Value → Option A
  then_value f none = none
  then_value f (some v) = f v

  unfoldable pub uint_at : String → Json → Option ℕ
  uint_at key params = then_value as_uint (get key params)

  unfoldable pub text_at : String → Json → Option String
  text_at key params = then_value as_text (get key params)

  unfoldable pub contains_key : String → Json → Bool
  contains_key key params = is_some (get key params) || is_some (get_json key params)

  -- `params.value(key, default)`.
  unfoldable pub text_or : String → String → Json → Option String
  unfolding contains_key text_at
  text_or default key params = if contains_key key params then text_at key params else some default

  unfoldable pub int_or : ℕ → String → Json → Option ℕ
  unfolding contains_key
  int_or default key params =
      if contains_key key params then then_value as_int (get key params) else some default

  -- The time that is a number of milliseconds after `now`; a time before the clock's origin is cut
  -- off, and the clock is taken not to overflow.
  abbrev after_ms : ℕ → Value → Option ℕ
  after_ms now (int n) = some ((now + n * 10 ^ 6) - 2 ^ 31 * 10 ^ 6)
  after_ms now (uint n) = some (now + n * 10 ^ 6)
  after_ms now _ = none

  unfoldable pub time_at : (now : ℕ) → String → Json → Option ℕ
  time_at now key params = then_value (after_ms now) (get key params)

  -- A `try` block goes on with the value of an access, or catches its exception.
  abbrev pub reading {ℓ} :
      {A : Type ℓ}
      → Option A
      → (message : String) → (A → CliCommands → Result)
      → CliCommands
      → Result
  reading none message rest c = (error message, c)
  reading (some a) message rest c = rest a c

  -- `if (!task)`.
  abbrev pub finding : Option TaskPtr → (TaskPtr → CliCommands → Result) → CliCommands → Result
  finding none rest c = (error "Task not found", c)
  finding (some p) rest c = rest p c

  abbrev pub task_json : TaskPtr → CliCommands → Json
  task_json p c = to_json lib (lock c) (c.queue_manager.tasks p)
