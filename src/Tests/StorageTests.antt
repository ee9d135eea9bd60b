-- ===== src/Tests/StorageTests.antt =====
-- The theorems on the storage at concrete inputs.
use axon_queue.Prelude.{ℕ, ◌≡◌, ◌≢◌, refl, [], ◌∷◌, arith, none, some, if◌then◌else◌, ◌≤◌}
use axon_queue.Prelude.Dict
use axon_queue.Prelude.Decimal.{to_string}
use axon_queue.Task.{Task, failed, other, running}
use axon_queue.Task.Json.{uint, to_json}
use axon_queue.Task.Json.Roundtrip.{Restored, with_status}
use axon_queue.Storage.{
  Storage, make_task_key, make_wal_key, extract_task_id, save_task, load_task, store_status,
  update_task_status, append_to_wal, wal_entry, initialize, wal_prefix,
}
use axon_queue.Storage.Keys.{extract_task_id-make_task_key}
use axon_queue.Storage.Tasks.{IsStorable, load_task-save_task, load_task-update_task_status}
use axon_queue.Storage.Batch.{commit, batch_all, new_batch, save_all, commit-save_all}
use axon_queue.Storage.Log.{append_to_wal_lem, truncate_wal, truncate_wal_lem}
use package.text.Mathlib.Text.{starts_with}
use axon_queue.Tests.Trees.{empty, plain, tree_lib}
use axon_queue.Tests.Database.{tree_db}
use axon_queue.Tests.Sample as Sample

-- Two entries of the log and a task.
abbrev storage : Storage tree_lib tree_db
storage = record {
  db =
      ("wal:0", plain "n" (uint 2) empty)
      ∷ ("wal:1", empty)
      ∷ ("wal:2", empty)
      ∷ (make_task_key 4, to_json tree_lib (Sample.lock Sample.fresh) (Sample.fresh 4))
      ∷ [];
  wal_sequence = 2;
}

abbrev stored : Task
stored = Sample.with_status running 1

known_status : (n : ℕ) → running ≢ other n
known_status n e = ground (arith, e)

known_failed : (n : ℕ) → failed ≢ other n
known_failed n e = ground (arith, e)

IsStorable-stored : IsStorable stored
IsStorable-stored = record {
  enumerator = known_status;
  retry_count = omega arith;
  max_retries = omega arith;
}

extract_task_id-make_task_key_example : extract_task_id (make_task_key 4070) ≡ 4070
extract_task_id-make_task_key_example = extract_task_id-make_task_key 4070

load_task-save_task_example :
    let saved =
      (save_task tree_lib tree_db (Sample.lock Sample.fresh) 200 (some stored) storage).1 in
    (load_task tree_lib tree_db (Sample.fresh 7) 1 saved
      ≡ some (Restored tree_lib stored (Sample.fresh 7)))
    × ((id : ℕ)
        → 1 ≢ id
        → load_task tree_lib tree_db (Sample.fresh 7) id saved
          ≡ load_task tree_lib tree_db (Sample.fresh 7) id storage)
unfolding save_task
load_task-save_task_example =
    load_task-save_task tree_lib tree_db (Sample.lock Sample.fresh) 200 stored (Sample.fresh 7)
      storage IsStorable-stored refl

load_task-update_task_status_example :
    let saved =
      (save_task tree_lib tree_db (Sample.lock Sample.fresh) 200 (some stored) storage).1 in
    load_task tree_lib tree_db
      (Sample.fresh 7)
      1
      (update_task_status tree_lib tree_db 300 1 failed saved).1
    ≡ some (Restored tree_lib (with_status tree_lib failed stored) (Sample.fresh 7))
unfolding save_task update_task_status store_status Dict.find Dict.put to_string
load_task-update_task_status_example =
    load_task-update_task_status tree_lib tree_db (Sample.lock Sample.fresh) 200 300 failed stored
      (Sample.fresh 7) storage known_failed IsStorable-stored refl refl

commit-save_all_example :
    let lock = Sample.lock Sample.fresh in
    let ts = stored ∷ Sample.fresh 5 ∷ [] in
    tree_db.find
      (make_task_key 5)
      (commit tree_lib tree_db
        (batch_all tree_lib tree_db lock ts (new_batch tree_lib tree_db))
        storage).2.db
    ≡ tree_db.find (make_task_key 5) (save_all tree_lib tree_db lock 200 ts storage).1.db
unfolding commit save_all save_task
commit-save_all_example =
    commit-save_all tree_lib tree_db (Sample.lock Sample.fresh) 200 (stored ∷ Sample.fresh 5 ∷ [])
      storage 5 refl refl

append_to_wal_lem_example :
    let s' = (append_to_wal tree_lib tree_db 200 "save_task" empty storage).1 in
    (tree_db.find (make_wal_key 3) s'.db
      ≡ some (wal_entry tree_lib tree_db 3 200 "save_task" empty))
    × ((n : ℕ)
        → 1 ≤ n
        → n ≤ 2
        → tree_db.find (make_wal_key n) s'.db ≡ tree_db.find (make_wal_key n) storage.db)
    × ((initialize tree_lib tree_db (some s'.db) storage).1.wal_sequence ≡ 3)
append_to_wal_lem_example =
    append_to_wal_lem tree_lib tree_db 200 "save_task" empty storage storage refl refl (omega arith)

truncate_wal_lem_example :
    tree_db.find "wal:2" (truncate_wal tree_lib tree_db storage).1.db
    ≡ (if starts_with "wal:2" wal_prefix then none else tree_db.find "wal:2" storage.db)
unfolding truncate_wal
truncate_wal_lem_example = truncate_wal_lem tree_lib tree_db storage "wal:2" refl
