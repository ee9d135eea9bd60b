-- ===== src/Storage/Keys.antt =====
-- The keys of Storage.cpp: a key names its task, and the two kinds of keys differ.
use Prim.Native.String.{◌++◌ as append, slice}
use package.text.Mathlib.TextLemmas.{append_cancel_left, cons-append}
use package.text.Mathlib.TextPositions.{starts_with-append, slice-append_right, len-append}
use Prim.Native.Char.{code}
use axon_queue.Prelude.{ℕ, String, ◌≡◌, ◌≢◌, refl, sym, ap, ◌∙◌, arith, string_eq, nat_eq}
use axon_queue.Prelude.Decimal.{to_string, stoull-to_string, to_string_injective}
use axon_queue.Task.{TaskId}
use axon_queue.Storage.{task_prefix, wal_prefix, make_task_key, make_wal_key, extract_task_id}

pub make_task_key_injective : (id j : TaskId) → make_task_key id ≡ make_task_key j → id ≡ j
unfolding make_task_key
make_task_key_injective id j e =
    to_string_injective id j (append_cancel_left task_prefix (to_string id) (to_string j) e)

pub make_wal_key_injective : (m n : ℕ) → make_wal_key m ≡ make_wal_key n → m ≡ n
unfolding make_wal_key
make_wal_key_injective m n e =
    to_string_injective m n (append_cancel_left wal_prefix (to_string m) (to_string n) e)

-- The first character of a text.
abbrev initial : String → ℕ
initial String.[] = 0
initial (String.◌∷◌ c s) = code c

pub task_key-ne-wal_key : (id : TaskId) (n : ℕ) → make_task_key id ≢ make_wal_key n
unfolding make_task_key make_wal_key
task_key-ne-wal_key id n e =
    let task_initial = ap initial (cons-append "t" "ask:" (to_string id)) in
    let wal_initial = ap initial (cons-append "w" "al:" (to_string n)) in
    absurd (omega (arith, sym task_initial ∙ (ap initial e ∙ wal_initial)))

-- The id is read back from the key of a task.
pub extract_task_id-make_task_key : (id : TaskId) → extract_task_id (make_task_key id) ≡ id
unfolding extract_task_id make_task_key
extract_task_id-make_task_key id =
    let rest =
      ap (slice (append task_prefix (to_string id)) 5) (len-append task_prefix (to_string id))
      ∙ slice-append_right task_prefix (to_string id) in
    rw (starts_with-append task_prefix (to_string id), rest, stoull-to_string id) refl
