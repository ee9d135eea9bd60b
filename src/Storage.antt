-- ===== src/Storage.antt =====
-- src/persistence/Storage.cpp and include/persistence/Storage.hpp: tasks and a write-ahead log in a
-- key-value store. RocksDB and the JSON library are parameters. Each operation runs under the
-- storage's mutex, so it is a function of the state.
pub mod Keys
pub mod Database
pub mod Tasks
pub mod Log
pub mod Batch
use Prim.Native.String.{◌++◌ as append, slice, len}
use package.text.Mathlib.Text.{starts_with}
use axon_queue.Prelude.{
  ℕ, suc, String, Bool, true, false, Option, none, some, List, [], ◌∷◌, ◌++◌, if◌then◌else◌, inc64,
}
use axon_queue.Prelude.Decimal.{to_string, stoull}
use axon_queue.Task.{Task, TaskId, TaskPtr, TaskStatus}
use axon_queue.Task.Json.{JsonLib, Value, int, uint, text, status_code, to_json, from_json}
use Database.{Edit, puts, deletes, prefixed, RocksDb}

abbrev pub task_prefix : String
task_prefix = "task:"

abbrev pub wal_prefix : String
wal_prefix = "wal:"

unfoldable pub make_task_key : TaskId → String
make_task_key id = append task_prefix (to_string id)

unfoldable pub make_wal_key : ℕ → String
make_wal_key sequence = append wal_prefix (to_string sequence)

-- `std::stoull` reads the leading digits. Its exception (for a rest that has none, or whose number
-- is 2^64 or more) is not modelled, nor is that it skips spaces and a sign before them.
unfoldable pub extract_task_id : String → TaskId
extract_task_id key =
    if starts_with key task_prefix then stoull (slice key (len task_prefix) (len key)) else 0

module _ (lib : JsonLib) (rocks : RocksDb lib) where
  open lib use {Json, Text, null, set, get, set_json, get_json, dump, parse}
  open rocks use {Db, find, seek, put, write, number, to_number}

  pub record Storage : Type 0 where
    pub db : Db
    pub wal_sequence : ℕ

  -- `initialize`, given the database that `DB::Open` opens, if it does.
  unfoldable pub initialize : Option Db → Storage → Bool × Storage
  unfolding make_wal_key
  initialize none s = (false, s)
  initialize (some db) s = elim (find (make_wal_key 0) db) [
    | none ↦ (true, record s { db = db })
    | some value ↦ (true, record { db = db; wal_sequence = to_number value })
  ]

  unfoldable pub wal_entry : (sequence now : ℕ) → String → Json → Json
  wal_entry sequence now operation payload = set_json "data" payload (
      set "operation" (text operation)
        (set "timestamp" (uint now) (set "sequence" (uint sequence) null)))

  unfoldable pub append_to_wal : (now : ℕ) → String → Json → Storage → Bool × Storage
  unfolding make_wal_key wal_entry
  append_to_wal now operation payload s =
      let sequence = inc64 s.wal_sequence in
      let entry = dump (wal_entry sequence now operation payload) in
      let (ok, db) = put (make_wal_key sequence) entry s.db in
      if ok
      then (
        true,
        record { db = (put (make_wal_key 0) (number sequence) db).1; wal_sequence = sequence },
      )
      else (false, record { db = db; wal_sequence = sequence })

  -- A null task is not saved.
  unfoldable pub save_task :
      (TaskPtr → Option Task) → (now : ℕ) → Option Task → Storage → Bool × Storage
  unfolding append_to_wal make_task_key
  save_task lock now none s = (false, s)
  save_task lock now (some t) s =
      let json = to_json lib lock t in
      let (ok, db) = put (make_task_key t.id) (dump json) s.db in
      if ok
      then (true, (append_to_wal now "save_task" json (record s { db = db })).1)
      else (false, record s { db = db })

  unfoldable pub status_note : TaskId → TaskStatus → Json
  status_note id status = set "status" (int (status_code status)) (set "task_id" (uint id) null)

  abbrev pub parsed : Option Text → Option Json
  parsed none = none
  parsed (some value) = parse value

  -- What follows reading and parsing the record of a task. The record is an object, as `saveTask`
  -- writes it; on another value the assignment throws, and the result is false.
  unfoldable pub store_status :
      (now : ℕ) → TaskId → TaskStatus → Option Json → Storage → Bool × Storage
  unfolding append_to_wal make_task_key status_note
  store_status now id status none s = (false, s)
  store_status now id status (some json) s =
      let changed = set "status" (int (status_code status)) json in
      let (ok, db) = put (make_task_key id) (dump changed) s.db in
      if ok
      then (
        true,
        (append_to_wal now "update_status" (status_note id status) (record s { db = db })).1,
      )
      else (false, record s { db = db })

  unfoldable pub update_task_status : (now : ℕ) → TaskId → TaskStatus → Storage → Bool × Storage
  unfolding store_status make_task_key
  update_task_status now id status s =
      store_status now id status (parsed (find (make_task_key id) s.db)) s

  -- `fresh` is the task that is constructed to be filled; a text that does not parse, or a field
  -- that cannot be read, gives no task.
  unfoldable pub read_task : Task → Text → Option Task
  read_task fresh value = elim (parse value) [
    | none ↦ none
    | some json ↦ let (t, returned) = from_json lib json fresh in if returned then some t else none
  ]

  unfoldable pub load_task : Task → TaskId → Storage → Option Task
  unfolding make_task_key read_task
  load_task fresh id s = elim (find (make_task_key id) s.db) [
    | none ↦ none
    | some value ↦ read_task fresh value
  ]

  -- The loop of `loadAllTasks`, with the next task that is constructed.
  unfoldable pub read_tasks : (ℕ → Task) → ℕ → List (String × Text) → List Task
  unfolding read_task
  read_tasks fresh n [] = []
  read_tasks fresh n ((k, value) ∷ rest) =
      let tasks = read_tasks fresh (suc n) rest in
      elim (read_task (fresh n) value) [ none ↦ tasks | some t ↦ t ∷ tasks ]

  unfoldable pub load_all_tasks : (ℕ → Task) → Storage → List Task
  unfolding read_tasks prefixed
  load_all_tasks fresh s = read_tasks fresh 0 (prefixed task_prefix (seek task_prefix s.db))
