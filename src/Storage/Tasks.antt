-- ===== src/Storage/Tasks.antt =====
-- Saving, updating and loading tasks (Storage.cpp).
use axon_queue.Prelude.{
  ℕ, ◌^◌, ◌<◌, String, ◌≡◌, ◌≢◌, refl, sym, ap, ◌∙◌, true, Option, some, arith, string_eq, nat_eq,
  ==_refl, Bool-cases, inl, inr, inc64,
}
use axon_queue.Task.{Task, TaskId, TaskPtr, TaskStatus, other}
use axon_queue.Task.Json.{JsonLib, int, status_code, to_json, from_json}
use axon_queue.Task.Json.Roundtrip.{Restored, with_status, from_json-to_json, from_json-set_status}
use axon_queue.Storage.{
  Storage, make_task_key, make_wal_key, append_to_wal, wal_entry, save_task, status_note,
  store_status, parsed, update_task_status, load_task, read_task,
}
use axon_queue.Storage.Database.{RocksDb}
use axon_queue.Storage.Keys.{make_task_key_injective, task_key-ne-wal_key}

-- What can be stored of a task without a loss.
pub record IsStorable (t : Task) : Type 0 where
  pub enumerator : (n : ℕ) → t.status ≢ other n
  pub retry_count : t.retry_count < 2 ^ 32
  pub max_retries : t.max_retries < 2 ^ 32

module _ (lib : JsonLib) (rocks : RocksDb lib) where
  open lib use {Json, Text, set, dump, parse, parse-dump}
  open rocks use {Db, find, put, number, find-put, put-fails}

  -- A write leaves the other keys, whether it succeeds or not.
  pub find-put_other :
      (k j : String) (v : Text) (db : Db) → k ≢ j → find j (put k v db).1 ≡ find j db
  find-put_other k j v db n = elim (Bool-cases (put k v db).0) [
    | inl ok ↦ ground (arith, find-put k j v db ok, string_eq.agrees k j)
    | inr failed ↦ put-fails k j v db failed
  ]

  pub find-put_same :
      (k : String) (v : Text) (db : Db) → (put k v db).0 ≡ true → find k (put k v db).1 ≡ some v
  find-put_same k v db ok = find-put k k v db ok ∙ rw (==_refl k) refl

  -- The log does not touch the tasks.
  pub append_to_wal-find :
      (now : ℕ) (operation : String) (payload : Json) (s : Storage lib rocks) (id : TaskId)
      → find (make_task_key id) (append_to_wal lib rocks now operation payload s).1.db
        ≡ find (make_task_key id) s.db
  unfolding append_to_wal
  append_to_wal-find now operation payload s id =
      let sequence = inc64 s.wal_sequence in
      let entry = dump (wal_entry lib rocks sequence now operation payload) in
      let other_key =
        λ (n : ℕ) (e : make_wal_key n ≡ make_task_key id). task_key-ne-wal_key id n (sym e) in
      let first =
        find-put_other (make_wal_key sequence) (make_task_key id) entry s.db (other_key sequence) in
      elim (Bool-cases (put (make_wal_key sequence) entry s.db).0) [
        | inl ok ↦ rw ok (
            find-put_other (make_wal_key 0) (make_task_key id) (number sequence)
              (put (make_wal_key sequence) entry s.db).1 (other_key 0)
            ∙ first)
        | inr failed ↦ rw failed first
      ]

  pub save_task-find :
      (lock : TaskPtr → Option Task) (now : ℕ) (t : Task) (s : Storage lib rocks)
      → (save_task lib rocks lock now (some t) s).0 ≡ true
      → find (make_task_key t.id) (save_task lib rocks lock now (some t) s).1.db
        ≡ some (dump (to_json lib lock t))
  unfolding save_task
  save_task-find lock now t s h =
      let json = to_json lib lock t in
      let key = make_task_key t.id in
      elim (Bool-cases (put key (dump json) s.db).0) [
        | inl ok ↦
            let written = find-put_same key (dump json) s.db ok in
            rw ok (
              append_to_wal-find now "save_task" json
                (record s { db = (put key (dump json) s.db).1 }) t.id
              ∙ written)
        | inr failed ↦ absurd (ground (arith, h, failed))
      ]

  pub save_task-find_other :
      (lock : TaskPtr → Option Task) (now : ℕ) (t : Task) (id : TaskId) (s : Storage lib rocks)
      → t.id ≢ id
      → find (make_task_key id) (save_task lib rocks lock now (some t) s).1.db
        ≡ find (make_task_key id) s.db
  unfolding save_task
  save_task-find_other lock now t id s n =
      let json = to_json lib lock t in
      let key = make_task_key t.id in
      let kept =
        find-put_other key (make_task_key id) (dump json) s.db
          (λ e. n (make_task_key_injective t.id id e)) in
      elim (Bool-cases (put key (dump json) s.db).0) [
        | inl ok ↦ rw ok (
            append_to_wal-find now "save_task" json (record s { db = (put key (dump json) s.db).1 })
              id
            ∙ kept)
        | inr failed ↦ rw failed kept
      ]

  abbrev changed_status : TaskStatus → Json → Json
  changed_status status json = set "status" (int (status_code status)) json

  store_status-find :
      (now : ℕ) (id : TaskId) (status : TaskStatus) (json : Json) (s : Storage lib rocks)
      → (store_status lib rocks now id status (some json) s).0 ≡ true
      → find (make_task_key id) (store_status lib rocks now id status (some json) s).1.db
        ≡ some (dump (changed_status status json))
  unfolding store_status
  store_status-find now id status json s h =
      let key = make_task_key id in
      let value = dump (changed_status status json) in
      elim (Bool-cases (put key value s.db).0) [
        | inl ok ↦
            let written = find-put_same key value s.db ok in
            rw ok (
              append_to_wal-find now "update_status" (status_note lib rocks id status)
                (record s { db = (put key value s.db).1 }) id
              ∙ written)
        | inr failed ↦ absurd (ground (arith, h, failed))
      ]

  update_task_status-find :
      (now : ℕ) (id : TaskId) (status : TaskStatus) (json : Json) (s : Storage lib rocks)
      → find (make_task_key id) s.db ≡ some (dump json)
      → (update_task_status lib rocks now id status s).0 ≡ true
      → find (make_task_key id) (update_task_status lib rocks now id status s).1.db
        ≡ some (dump (changed_status status json))
  unfolding update_task_status
  update_task_status-find now id status json s e h =
      let found : parsed lib rocks (find (make_task_key id) s.db) ≡ some json =
        ap (parsed lib rocks) e ∙ parse-dump json in
      let run = λ (o : Option Json). store_status lib rocks now id status o s in
      ap (λ o. find (make_task_key id) (run o).1.db) found
      ∙ store_status-find now id status json s (ap (λ o. (run o).0) (sym found) ∙ h)

  load_task-find :
      (fresh t : Task) (id : TaskId) (json : Json) (s : Storage lib rocks)
      → find (make_task_key id) s.db ≡ some (dump json)
      → from_json lib json fresh ≡ (t, true)
      → load_task lib rocks fresh id s ≡ some t
  unfolding load_task read_task
  load_task-find fresh t id json s e f =
      rw (e, load_task, read_task, parse-dump json, ap (λ r. r.1) f) (ap some (ap (λ r. r.0) f))

  -- A task that `saveTask` has saved is loaded again, with its times to the second and without its
  -- dependencies, if its status is an enumerator and its counts fit 32 bits; the tasks under other
  -- ids are loaded as before.
  pub load_task-save_task :
      (lock : TaskPtr → Option Task) (now : ℕ) (t fresh : Task) (s : Storage lib rocks)
      → IsStorable t
      → (save_task lib rocks lock now (some t) s).0 ≡ true
      → let s' = (save_task lib rocks lock now (some t) s).1 in
        (load_task lib rocks fresh t.id s' ≡ some (Restored lib t fresh))
        × ((id : TaskId)
            → t.id ≢ id
            → load_task lib rocks fresh id s' ≡ load_task lib rocks fresh id s)
  unfolding load_task
  load_task-save_task lock now t fresh s i h = (
    load_task-find fresh _ t.id (to_json lib lock t) (save_task lib rocks lock now (some t) s).1
        (save_task-find lock now t s h)
        (from_json-to_json lib lock t fresh i.enumerator i.retry_count i.max_retries),
    λ id n. rw (save_task-find_other lock now t id s n, load_task) refl,
  )

  -- After `saveTask` and `updateTaskStatus` have both succeeded for a task, it is loaded with the
  -- new status, and otherwise as it was saved.
  pub load_task-update_task_status :
      (lock : TaskPtr → Option Task) (now later : ℕ) (status : TaskStatus) (t fresh : Task)
      (s : Storage lib rocks)
      → ((n : ℕ) → status ≢ other n)
      → IsStorable t
      → (save_task lib rocks lock now (some t) s).0 ≡ true
      → let saved = (save_task lib rocks lock now (some t) s).1 in
        (update_task_status lib rocks later t.id status saved).0 ≡ true
        → load_task lib rocks fresh t.id (update_task_status lib rocks later t.id status saved).1
          ≡ some (Restored lib (with_status lib status t) fresh)
  load_task-update_task_status lock now later status t fresh s e i h u =
      let saved = (save_task lib rocks lock now (some t) s).1 in
      load_task-find fresh _ t.id (changed_status status (to_json lib lock t)) _
        (update_task_status-find later t.id status (to_json lib lock t) saved
          (save_task-find lock now t s h) u)
        (from_json-set_status lib lock status t fresh e i.retry_count i.max_retries)
