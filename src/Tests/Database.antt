-- ===== src/Tests/Database.antt =====
-- A database that is an association list, in which every write succeeds.
use mathlib.Core.List.{append-nil}
use text.Mathlib.Text.{starts_with}
use axon_queue.Prelude.{
  ℕ, ◌≡◌, ◌≢◌, refl, ◌∙◌, String, true, false, List, [], ◌∷◌, ◌++◌, All, sym, arith, ◌==◌,
  string_eq, if◌then◌else◌, Bool-cases, inl, inr, ap,
}
use axon_queue.Prelude.Dict.{Dict}
use axon_queue.Prelude.Dict
use axon_queue.Task.Json.{uint}
use axon_queue.Storage.Database.{RocksDb, Edit, puts, deletes, after}
use axon_queue.Tests.Trees.{Tree, empty, plain, tree_lib}

pub edited : List (Edit Tree) → Dict String Tree → Dict String Tree
edited [] db = db
edited (puts k v ∷ es) db = edited es (Dict.put k v db)
edited (deletes k ∷ es) db = edited es (Dict.erase k db)

pub seek : String → Dict String Tree → Dict String Tree
seek prefix [] = []
seek prefix ((k, v) ∷ rest) =
    if starts_with k prefix then (k, v) ∷ seek prefix rest else seek prefix rest

pub to_number : Tree → ℕ
to_number (plain k (uint n) o) = n
to_number _ = 0

pub to_number-plain : (n : ℕ) → to_number (plain "n" (uint n) empty) ≡ n
unfolding to_number
to_number-plain n = refl

pub find-edited :
    (es : List (Edit Tree)) (k : String) (db : Dict String Tree)
    → Dict.find k (edited es db) ≡ after es k (Dict.find k db)
unfolding edited after
find-edited [] k db = refl
find-edited (puts j v ∷ es) k db =
    find-edited es k (Dict.put j v db) ∙ ap (after es k) (Dict.find-put j k v db)
find-edited (deletes j ∷ es) k db =
    find-edited es k (Dict.erase j db) ∙ ap (after es k) (Dict.find-erase j k db)

pub seek-same :
    (prefix k : String) (v : Tree) (db : Dict String Tree)
    → starts_with k prefix ≡ true
    → seek prefix ((k, v) ∷ db) ≡ (k, v) ∷ seek prefix db
unfolding seek
seek-same prefix k v db h = rw h refl

pub seek-other :
    (prefix k : String) (v : Tree) (db : Dict String Tree)
    → starts_with k prefix ≡ false
    → seek prefix ((k, v) ∷ db) ≡ seek prefix db
unfolding seek
seek-other prefix k v db h = rw h refl

pub seek-All :
    (prefix : String) (db : Dict String Tree)
    → All (λ (e : String × Tree). starts_with e.0 prefix ≡ true) (seek prefix db)
unfolding seek
seek-All prefix [] = tt
seek-All prefix ((k, v) ∷ db) = elim (Bool-cases (starts_with k prefix)) [
  | inl starts ↦ rw (seek-same prefix k v db starts) (starts, seek-All prefix db)
  | inr ends ↦ rw (seek-other prefix k v db ends) (seek-All prefix db)
]

pub find-seek_only :
    (prefix k : String) (db : Dict String Tree)
    → starts_with k prefix ≡ true
    → Dict.find k (seek prefix db) ≡ Dict.find k db
unfolding Dict.find seek
find-seek_only prefix k [] h = refl
find-seek_only prefix k ((j, v) ∷ db) h = elim (Bool-cases (starts_with j prefix)) [
  | inl starts ↦ rw (seek-same prefix j v db starts, find-seek_only prefix k db h) refl
  | inr ends ↦
      let apart : (j == k) ≡ false =
        ground
          (arith, string_eq.agrees j k, ends, h, λ (e : j ≡ k). ap (λ n. starts_with n prefix) e) in
      rw (seek-other prefix j v db ends, apart) (find-seek_only prefix k db h)
]

pub seek_runs_lem :
    (prefix : String) (db : Dict String Tree)
    → (run : List (String × Tree)) × (others : List (String × Tree)) × (seek prefix db
        ≡ run ++ others)
      × All (λ (e : String × Tree). starts_with e.0 prefix ≡ true) run
      × All (λ (e : String × Tree). starts_with e.0 prefix ≡ false) others
      × ((k : String) → starts_with k prefix ≡ true → Dict.find k run ≡ Dict.find k db)
seek_runs_lem prefix db = (
  seek prefix db,
  [],
  sym (append-nil (seek prefix db)),
  seek-All prefix db,
  tt,
  λ k h. find-seek_only prefix k db h,
)

pub never_fails : true ≢ false
never_fails e = ground (arith, e)

abbrev pub tree_db : RocksDb tree_lib
tree_db = record {
  Db = Dict String Tree;
  find = λ k db. Dict.find k db;
  seek = seek;
  put = λ k v db. (true, Dict.put k v db);
  write = λ es db. (true, edited es db);
  number = λ n. plain "n" (uint n) empty;
  to_number = to_number;
  find-put = λ k j v db h. Dict.find-put k j v db;
  put-fails = λ k j v db h. absurd (never_fails h);
  find-write = λ es k db h. find-edited es k db;
  write-fails = λ es k db h. absurd (never_fails h);
  seek_runs = seek_runs_lem;
  to_number-number = to_number-plain;
}
