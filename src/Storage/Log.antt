-- ===== src/Storage/Log.antt =====
-- The write-ahead log of Storage.cpp.
use package.text.Mathlib.Text.{starts_with}
use axon_queue.Prelude.{
  ℕ, ◌+◌, ◌<◌, ◌≤◌, String, ◌≡◌, ◌≢◌, refl, ap, ◌∙◌, Bool, true, false, Option, none, some, List,
  [], ◌∷◌, ◌++◌, All, sym, subst, arith, ◌==◌, string_eq, nat_eq, if◌then◌else◌, Bool-cases, inl,
  inr, inc64, u64_mod, is_some,
}
use axon_queue.Prelude.Dict
use axon_queue.Task.Json.{JsonLib, text}
use axon_queue.Storage.{Storage, wal_prefix, make_wal_key, append_to_wal, wal_entry, initialize}
use axon_queue.Storage.Database.{RocksDb, Edit, deletes, after, prefixed}
use axon_queue.Storage.Keys.{make_wal_key_injective}
use axon_queue.Storage.Tasks.{find-put_other, find-put_same}

module _ (lib : JsonLib) (rocks : RocksDb lib) where
  open lib use {Json, Text, null, get, get_json, dump, parse}
  open rocks use {
    Db, find, seek, put, write, number, to_number, find-put, find-write, seek_runs,
    to_number-number,
  }

  -- `get<std::string>` of a member, and `wal_entry["data"]`, which is null when there is none. Each
  -- entry that `appendToWAL` writes has an object there.
  abbrev read_entry : Option Json → Option (String × Json)
  read_entry none = none
  read_entry (some entry) = elim (get "operation" entry) [
    | some (text operation) ↦ elim (get_json "data" entry) [
      | none ↦ some (operation, null)
      | some payload ↦ some (operation, payload)
    ]
    | _ ↦ none
  ]

  -- The loop of `replayWAL`; a record that cannot be read is passed over.
  unfoldable pub read_entries : List (String × Text) → List (String × Json)
  read_entries [] = []
  read_entries ((k, value) ∷ rest) = elim (read_entry (parse value)) [
    | none ↦ read_entries rest
    | some operation ↦ operation ∷ read_entries rest
  ]

  unfoldable pub replay_wal : Storage lib rocks → List (String × Json)
  unfolding read_entries
  replay_wal s = read_entries (prefixed wal_prefix (seek wal_prefix s.db))

  unfoldable pub delete_all : List (String × Text) → List (Edit Text)
  delete_all [] = []
  delete_all ((k, value) ∷ rest) = deletes k ∷ delete_all rest

  unfoldable pub truncate_wal : Storage lib rocks → Bool × Storage lib rocks
  unfolding delete_all
  truncate_wal s =
      let (ok, db) = write (delete_all (prefixed wal_prefix (seek wal_prefix s.db))) s.db in
      (ok, record s { db = db })

  -- The storage after an entry has been written under the number `n`.
  abbrev recorded : ℕ → Text → Storage lib rocks → Storage lib rocks
  recorded n entry s = record {
    db = (put (make_wal_key 0) (number n) (put (make_wal_key n) entry s.db).1).1;
    wal_sequence = n;
  }

  wal_keys_differ : (m n : ℕ) → m ≢ n → make_wal_key m ≢ make_wal_key n
  wal_keys_differ m n d e = d (make_wal_key_injective m n e)

  append_to_wal-next :
      (now : ℕ) (operation : String) (payload : Json) (s : Storage lib rocks)
      → let next = s.wal_sequence + 1 in
        let entry = dump (wal_entry lib rocks next now operation payload) in
        (put (make_wal_key next) entry s.db).0 ≡ true
        → next < u64_mod
        → (append_to_wal lib rocks now operation payload s).1 ≡ recorded next entry s
  unfolding append_to_wal
  append_to_wal-next now operation payload s written room =
      let small : inc64 s.wal_sequence ≡ s.wal_sequence + 1 = omega (arith, room) in
      let entry = λ (n : ℕ). dump (wal_entry lib rocks n now operation payload) in
      rw (subst (λ n. (put (make_wal_key n) (entry n) s.db).0 ≡ true) (sym small) written)
        (ap (λ n. recorded n (entry n) s) small)

  -- When the entry and the counter can be written and the counter has not reached its end,
  -- `appendToWAL` stores the entry under the next number, leaves every earlier entry, and a storage
  -- that is initialized from the database goes on from that number.
  pub append_to_wal_lem :
      (now : ℕ) (operation : String) (payload : Json) (s restarted : Storage lib rocks)
      → let next = s.wal_sequence + 1 in
        let entry = dump (wal_entry lib rocks next now operation payload) in
        let (stored, db) = put (make_wal_key next) entry s.db in
        stored ≡ true
        → (put (make_wal_key 0) (number next) db).0 ≡ true
        → next < u64_mod
        → let s' = (append_to_wal lib rocks now operation payload s).1 in
          (find (make_wal_key next) s'.db ≡ some entry)
          × ((n : ℕ)
              → 1 ≤ n
              → n ≤ s.wal_sequence
              → find (make_wal_key n) s'.db ≡ find (make_wal_key n) s.db)
          × ((initialize lib rocks (some s'.db) restarted).1.wal_sequence ≡ next)
  unfolding append_to_wal initialize
  append_to_wal_lem now operation payload s restarted written counted room =
      let next = s.wal_sequence + 1 in
      let entry = dump (wal_entry lib rocks next now operation payload) in
      let first = (put (make_wal_key next) entry s.db).1 in
      let e = append_to_wal-next now operation payload s written room in
      let counter : find (make_wal_key 0) (recorded next entry s).db ≡ some (number next) =
        find-put_same lib rocks (make_wal_key 0) (number next) first counted in
      (
        ap (λ s'. find (make_wal_key next) s'.db) e
            ∙ (find-put_other lib rocks (make_wal_key 0) (make_wal_key next) (number next) first
                  (wal_keys_differ 0 next (omega arith))
                ∙ find-put_same lib rocks (make_wal_key next) entry s.db written),
        λ n low high.
            ap (λ s'. find (make_wal_key n) s'.db) e
            ∙ (find-put_other lib rocks (make_wal_key 0) (make_wal_key n) (number next) first
                  (wal_keys_differ 0 n (omega (arith, low)))
                ∙ find-put_other lib rocks (make_wal_key next) (make_wal_key n) entry s.db
                    (wal_keys_differ next n (omega (arith, high)))),
        ap (λ s'. (initialize lib rocks (some s'.db) restarted).1.wal_sequence) e
            ∙ rw (counter, initialize) (to_number-number next),
      )

  find-delete_all :
      (es : List (String × Text)) (k : String) (before : Option Text)
      → after (delete_all es) k before ≡ (if is_some (Dict.find k es) then none else before)
  unfolding after delete_all Dict.find
  find-delete_all [] k before = refl
  find-delete_all ((j, v) ∷ es) k before = elim (Bool-cases (j == k)) [
    | inl same ↦ rw same (ground (arith, find-delete_all es k none))
    | inr other ↦
        let kept : (if j == k then none else before) ≡ before = rw other refl in
        ap (after (delete_all es) k) kept ∙ (find-delete_all es k before ∙ rw other refl)
  ]

  prefixed-find :
      (prefix k : String) (es : List (String × Text))
      → starts_with k prefix ≡ false
      → Dict.find k (prefixed prefix es) ≡ none
  unfolding prefixed Dict.find
  prefixed-find prefix k [] h = refl
  prefixed-find prefix k ((j, v) ∷ es) h = elim (Bool-cases (starts_with j prefix)) [
    | inl starts ↦
        let apart : (j == k) ≡ false = ground (
          arith,
          string_eq.agrees j k,
          starts,
          h,
          λ (e : j ≡ k). ap (λ n. starts_with n prefix) e,
        ) in
        rw (starts, apart) (prefixed-find prefix k es h)
    | inr ends ↦ rw ends refl
  ]

  prefixed-run :
      (prefix : String) (run others : List (String × Text))
      → All (λ (e : String × Text). starts_with e.0 prefix ≡ true) run
      → All (λ (e : String × Text). starts_with e.0 prefix ≡ false) others
      → prefixed prefix (run ++ others) ≡ run
  unfolding prefixed
  prefixed-run prefix [] [] h o = refl
  prefixed-run prefix [] ((k, v) ∷ others) h o = rw o.0 refl
  prefixed-run prefix ((k, v) ∷ run) others h o =
      rw h.0 (ap (λ es. (k, v) ∷ es) (prefixed-run prefix run others h.1 o))

  -- The loop over an iterator meets every key that has the prefix.
  find-seek :
      (prefix k : String) (db : Db)
      → starts_with k prefix ≡ true
      → Dict.find k (prefixed prefix (seek prefix db)) ≡ find k db
  find-seek prefix k db h =
      let (run, others, e, has, lacks, all) = seek_runs prefix db in
      ap (λ es. Dict.find k (prefixed prefix es)) e
      ∙ (ap (Dict.find k) (prefixed-run prefix run others has lacks) ∙ all k h)

  -- When `truncateWAL` succeeds, no key of the log is left, its counter included, and all other
  -- keys are as before.
  pub truncate_wal_lem :
      (s : Storage lib rocks) (k : String)
      → (truncate_wal s).0 ≡ true
      → find k (truncate_wal s).1.db ≡ (if starts_with k wal_prefix then none else find k s.db)
  unfolding truncate_wal
  truncate_wal_lem s k h =
      let entries = prefixed wal_prefix (seek wal_prefix s.db) in
      find-write (delete_all entries) k s.db h
      ∙ (find-delete_all entries k (find k s.db) ∙ elim (Bool-cases (starts_with k wal_prefix)) [
        | inl log ↦ rw log (ground (arith, find-seek wal_prefix k s.db log))
        | inr other ↦ rw (other, prefixed-find wal_prefix k (seek wal_prefix s.db) other) refl
      ])
