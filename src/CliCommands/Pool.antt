-- ===== src/CliCommands/Pool.antt =====
-- The pool of storages of CLICommands.cpp: each call uses one storage, and the next call another.
use axon_queue.Prelude.{
  ℕ, ◌%◌, ◌≡◌, ◌≢◌, refl, Bool, true, false, Option, some, arith, ◌==◌, nat_eq, String, ==_refl,
  inc64,
}
use axon_queue.Task.{Task, TaskPtr}
use axon_queue.Task.Json.{JsonLib}
use axon_queue.Storage.{Storage, save_task, make_task_key}
use axon_queue.Storage.Database.{RocksDb}
use axon_queue.CliCommands.{World, CliCommands, storage_pool_size, get_storage_from_pool, on_pool}

module _ (lib : JsonLib) (rocks : RocksDb lib) (world : World lib) where
  open lib use {Text}
  open rocks use {Db, put}

  -- The place of the next storage.
  abbrev pub slot : CliCommands lib rocks world → ℕ
  slot c = c.storage_pool_index % storage_pool_size

  -- The storage at a place changes with a call that uses it, and only then.
  pub on_pool-same :
      (call : Storage lib rocks → Bool × Storage lib rocks) (c : CliCommands lib rocks world)
      → (on_pool lib rocks world call c).storage_pool (slot c) ≡ (call (c.storage_pool (slot c))).1
  unfolding on_pool get_storage_from_pool
  on_pool-same call c = rw (==_refl (slot c)) refl

  pub on_pool-other :
      (call : Storage lib rocks → Bool × Storage lib rocks) (c : CliCommands lib rocks world)
      (i : ℕ)
      → i ≢ slot c
      → (on_pool lib rocks world call c).storage_pool i ≡ c.storage_pool i
  unfolding on_pool get_storage_from_pool
  on_pool-other call c i n =
      let apart : (i == slot c) ≡ false = ground (arith, n, nat_eq.agrees i (slot c)) in
      rw apart refl

  -- The counter wraps around at a multiple of the size of the pool.
  slot_moves : (n : ℕ) → n % 32 ≢ inc64 n % 32
  slot_moves n e = omega (arith, e)

  pub slot-on_pool :
      (call : Storage lib rocks → Bool × Storage lib rocks) (c : CliCommands lib rocks world)
      → slot c ≢ slot (on_pool lib rocks world call c)
  unfolding on_pool get_storage_from_pool
  slot-on_pool call c = slot_moves c.storage_pool_index

  -- When writes succeed, a task is saved.
  pub save_task_works :
      (lock : TaskPtr → Option Task) (now : ℕ) (t : Task) (s : Storage lib rocks)
      → ((k : String) (v : Text) (db : Db) → (put k v db).0 ≡ true)
      → (save_task lib rocks lock now (some t) s).0 ≡ true
  unfolding save_task
  save_task_works lock now t s works = rw (works (make_task_key t.id) _ s.db) refl
