-- ===== src/Storage/Batch.antt =====
-- `Storage::BatchOperation` of Storage.cpp: writes that are collected and applied at once. The
-- destructor rolls back what was not committed, which no one sees any more.
use mathlib.Core.List.{append_assoc, append-nil}
use axon_queue.Prelude.{
  ℕ, ◌≡◌, ◌≢◌, refl, sym, ap, ◌∙◌, Bool, true, false, ◌&&◌, Option, none, some, List, [], ◌∷◌, ◌++◌,
  arith, ◌==◌, string_eq, nat_eq, if◌then◌else◌, Bool-cases, inl, inr,
}
use axon_queue.Task.{Task, TaskId, TaskPtr, TaskStatus}
use axon_queue.Task.Json.{JsonLib, int, status_code, to_json}
use axon_queue.Storage.{Storage, make_task_key, save_task, parsed}
use axon_queue.Storage.Database.{RocksDb, Edit, puts, after}
use axon_queue.Storage.Tasks.{save_task-find, save_task-find_other}

module _ (lib : JsonLib) (rocks : RocksDb lib) where
  open lib use {Json, Text, set, dump, parse}
  open rocks use {Db, find, write, find-write}

  pub record BatchOperation : Type 0 where
    pub batch : List (Edit Text)
    pub committed : Bool

  abbrev pub new_batch : BatchOperation
  new_batch = record { batch = []; committed = false }

  abbrev appended : Edit Text → BatchOperation → BatchOperation
  appended e b = record b { batch = b.batch ++ e ∷ [] }

  unfoldable pub batch_save_task :
      (TaskPtr → Option Task) → Option Task → BatchOperation → Bool × BatchOperation
  batch_save_task lock none b = (false, b)
  batch_save_task lock (some t) b =
      (true, appended (puts (make_task_key t.id) (dump (to_json lib lock t))) b)

  -- The record is read from the database, not from the batch.
  unfoldable pub batch_update_task_status :
      TaskId → TaskStatus → Storage lib rocks → BatchOperation → Bool × BatchOperation
  batch_update_task_status id status s b = elim (parsed lib rocks (find (make_task_key id) s.db)) [
    | none ↦ (false, b)
    | some json ↦
        let changed = set "status" (int (status_code status)) json in
        (true, appended (puts (make_task_key id) (dump changed)) b)
  ]

  unfoldable pub commit :
      BatchOperation → Storage lib rocks → Bool × BatchOperation × Storage lib rocks
  commit b s =
      let (ok, db) = write b.batch s.db in (ok, record b { committed = ok }, record s { db = db })

  unfoldable pub rollback : BatchOperation → BatchOperation
  rollback b = record b { batch = [] }

  -- Tasks that are put into a batch one after the other, and tasks that are saved so.
  unfoldable pub batch_all : (TaskPtr → Option Task) → List Task → BatchOperation → BatchOperation
  unfolding batch_save_task
  batch_all lock [] b = b
  batch_all lock (t ∷ ts) b = batch_all lock ts (batch_save_task lock (some t) b).1

  unfoldable pub save_all :
      (TaskPtr → Option Task) → (now : ℕ) → List Task → Storage lib rocks → Bool × Storage lib rocks
  save_all lock now [] s = (true, s)
  save_all lock now (t ∷ ts) s =
      let (ok, s') = save_task lib rocks lock now (some t) s in
      let (rest, s'') = save_all lock now ts s' in (ok && rest, s'')

  abbrev saves : (TaskPtr → Option Task) → List Task → List (Edit Text)
  saves lock [] = []
  saves lock (t ∷ ts) = puts (make_task_key t.id) (dump (to_json lib lock t)) ∷ saves lock ts

  batch_all-batch :
      (lock : TaskPtr → Option Task) (ts : List Task) (b : BatchOperation)
      → (batch_all lock ts b).batch ≡ b.batch ++ saves lock ts
  unfolding batch_all batch_save_task
  batch_all-batch lock [] b = sym (append-nil b.batch)
  batch_all-batch lock (t ∷ ts) b =
      batch_all-batch lock ts (batch_save_task lock (some t) b).1
      ∙ append_assoc b.batch (puts (make_task_key t.id) (dump (to_json lib lock t)) ∷ [])
          (saves lock ts)

  save_task-find_if :
      (lock : TaskPtr → Option Task) (now : ℕ) (t : Task) (id : TaskId) (s : Storage lib rocks)
      → (save_task lib rocks lock now (some t) s).0 ≡ true
      → find (make_task_key id) (save_task lib rocks lock now (some t) s).1.db ≡ (
          if make_task_key t.id == make_task_key id
          then some (dump (to_json lib lock t))
          else find (make_task_key id) s.db)
  save_task-find_if lock now t id s ok =
      elim (Bool-cases (make_task_key t.id == make_task_key id)) [
        | inl same ↦
            let saved = save_task lib rocks lock now (some t) s in
            let key = (string_eq.agrees (make_task_key t.id) (make_task_key id)).0 same in
            rw same
              (ap (λ k. find k saved.1.db) (sym key) ∙ save_task-find lib rocks lock now t s ok)
        | inr other ↦
            let apart : t.id ≢ id = λ e. ground (
              arith,
              other,
              string_eq.agrees (make_task_key t.id) (make_task_key id),
              ap make_task_key e,
            ) in
            rw other (save_task-find_other lib rocks lock now t id s apart)
      ]

  save_all-after :
      (lock : TaskPtr → Option Task) (now : ℕ) (ts : List Task) (s : Storage lib rocks)
      (id : TaskId)
      → (save_all lock now ts s).0 ≡ true
      → find (make_task_key id) (save_all lock now ts s).1.db
        ≡ after (saves lock ts) (make_task_key id) (find (make_task_key id) s.db)
  unfolding save_all after
  save_all-after lock now [] s id h = refl
  save_all-after lock now (t ∷ ts) s id h =
      let key = make_task_key t.id in
      let value = dump (to_json lib lock t) in
      let saved = save_task lib rocks lock now (some t) s in
      let ok : saved.0 ≡ true = ground (arith, h) in
      let rest : (save_all lock now ts saved.1).0 ≡ true = ground (arith, h) in
      let here : find (make_task_key id) saved.1.db
          ≡ (if key == make_task_key id then some value else find (make_task_key id) s.db) =
        save_task-find_if lock now t id s ok in
      save_all-after lock now ts saved.1 id rest
      ∙ ap (after (saves lock ts) (make_task_key id)) here

  -- When a new batch of saved tasks is committed, and saving the tasks one after the other succeeds
  -- too, the database holds the same task records both ways.
  pub commit-save_all :
      (lock : TaskPtr → Option Task) (now : ℕ) (ts : List Task) (s : Storage lib rocks)
      (id : TaskId)
      → (commit (batch_all lock ts new_batch) s).0 ≡ true
      → (save_all lock now ts s).0 ≡ true
      → find (make_task_key id) (commit (batch_all lock ts new_batch) s).2.db
        ≡ find (make_task_key id) (save_all lock now ts s).1.db
  unfolding commit
  commit-save_all lock now ts s id c h =
      let key = make_task_key id in
      find-write (batch_all lock ts new_batch).batch key s.db c
      ∙ (ap (λ es. after es key (find key s.db)) (batch_all-batch lock ts new_batch)
          ∙ sym (save_all-after lock now ts s id h))
