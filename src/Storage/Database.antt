-- ===== src/Storage/Database.antt =====
-- What Storage.cpp relies on of RocksDB: reads, writes that may fail and then change nothing, atomic
-- batches, and an iterator that starts at a key and goes on in the order of the keys.
use text.Mathlib.Text.{starts_with}
use axon_queue.Prelude.{
  ℕ, ◌≡◌, String, Bool, true, false, Option, none, some, List, [], ◌∷◌, ◌++◌, ◌==◌, string_eq, All,
  if◌then◌else◌,
}
use axon_queue.Prelude.Dict
use axon_queue.Task.Json.{JsonLib}

pub data Edit {ℓ} (A : Type ℓ) : Type ℓ where
  puts : String → A → Edit A
  deletes : String → Edit A

-- What a batch leaves under a key that held `before`.
unfoldable pub after {ℓ} : {A : Type ℓ} → List (Edit A) → String → Option A → Option A
after [] k before = before
after (puts j v ∷ es) k before = after es k (if j == k then some v else before)
after (deletes j ∷ es) k before = after es k (if j == k then none else before)

-- A loop over the entries of an iterator: it ends at the first key without the prefix.
unfoldable pub prefixed {ℓ} : {A : Type ℓ} → String → List (String × A) → List (String × A)
prefixed prefix [] = []
prefixed prefix ((k, v) ∷ rest) = if starts_with k prefix then (k, v) ∷ prefixed prefix rest else []

-- `number` is the text of a counter, and `to_number` reads it (`std::to_string`, `std::stoull`).
pub record RocksDb (lib : JsonLib) : Type 1 where
  pub Db : Type 0
  pub find : String → Db → Option lib.Text
  pub seek : String → Db → List (String × lib.Text)
  pub put : String → lib.Text → Db → Bool × Db
  pub write : List (Edit lib.Text) → Db → Bool × Db
  pub number : ℕ → lib.Text
  pub to_number : lib.Text → ℕ
  pub find-put :
      (k j : String) (v : lib.Text) (db : Db)
      → (put k v db).0 ≡ true
      → find j (put k v db).1 ≡ (if k == j then some v else find j db)
  pub put-fails :
      (k j : String) (v : lib.Text) (db : Db)
      → (put k v db).0 ≡ false
      → find j (put k v db).1 ≡ find j db
  pub find-write :
      (es : List (Edit lib.Text)) (k : String) (db : Db)
      → (write es db).0 ≡ true
      → find k (write es db).1 ≡ after es k (find k db)
  pub write-fails :
      (es : List (Edit lib.Text)) (k : String) (db : Db)
      → (write es db).0 ≡ false
      → find k (write es db).1 ≡ find k db
  -- `seek` goes to the first key that is not below the prefix. The keys that have it follow there in
  -- one run, which holds all of them, and no key behind it has the prefix.
  pub seek_runs :
      (prefix : String) (db : Db)
      → (run : List (String × lib.Text)) × (others : List (String × lib.Text)) × (seek prefix db
          ≡ run ++ others)
        × All (λ (e : String × lib.Text). starts_with e.0 prefix ≡ true) run
        × All (λ (e : String × lib.Text). starts_with e.0 prefix ≡ false) others
        × ((k : String) → starts_with k prefix ≡ true → Dict.find k run ≡ find k db)
  pub to_number-number : (n : ℕ) → to_number (number n) ≡ n
