-- ===== src/Queues/SkipList/Calls.antt =====
-- Sequences of calls on a `LockFreePriorityQueue`, and the sequence that they stand for.
use axon_queue.Prelude.{
  ℕ, ◌%◌, ◌<◌, not, is_some, Option, none, some, List, [], ◌∷◌, length, u64_mod,
}
use axon_queue.Queues.Family.{insert_by}
use axon_queue.Queues.Trace.{Answer, done, node, flag, count}
use axon_queue.Queues.SkipList.{Node, place_eq, SkipList, enqueue, dequeue, peek, is_empty, clear}
use axon_queue.Queues.SkipList.Towers.{place, HasLevel, IsApart}

pub data Op : Type 0 where
  inserts : (fuel : ℕ) (fails : ℕ → ℕ) → Node → Op
  removes : (fails : ℕ → ℕ) → Op
  peeks asks_empty asks_size clears : Op

-- `none` when a call does not end within its fuel.
unfoldable pub step : Op → SkipList → Option (Answer × SkipList)
step (inserts fuel fails new) s = elim (enqueue fuel fails new s) [
  | none ↦ none
  | some s' ↦ some (done, s')
]
step (removes fails) s = elim (dequeue fails s) [ none ↦ none | some r ↦ some (node r.0, r.1) ]
step peeks s = some (node (peek s), s)
step asks_empty s = some (flag (is_empty s), s)
step asks_size s = some (count s.size, s)
step clears s = some (done, clear s)

unfoldable pub run : List Op → SkipList → Option (List Answer)
unfolding step
run [] s = some []
run (o ∷ os) s = elim (step o s) [
  | none ↦ none
  | some r ↦ elim (run os r.1) [ none ↦ none | some answers ↦ some (r.0 ∷ answers) ]
]

-- The specification: pairs of a priority and a value.
abbrev pub front : List (ℕ × ℕ) → Option ℕ
front [] = none
front (e ∷ es) = some e.1

abbrev pub rest {ℓ} : {A : Type ℓ} → List A → List A
rest [] = []
rest (x ∷ xs) = xs

abbrev pub spec_step : Op → List (ℕ × ℕ) → Answer × List (ℕ × ℕ)
spec_step (inserts fuel fails new) es = (done, insert_by new.priority new.value es)
spec_step (removes fails) es = (node (front es), rest es)
spec_step peeks es = (node (front es), es)
spec_step asks_empty es = (flag (not (is_some (front es))), es)
spec_step asks_size es = (count (length es % u64_mod), es)
spec_step clears es = (done, [])

abbrev pub spec_run : List Op → List (ℕ × ℕ) → List Answer
spec_run [] es = []
spec_run (o ∷ os) es = (spec_step o es).0 ∷ spec_run os (spec_step o es).1

-- The nodes of the list after a call.
abbrev pub held : Op → List Node → List Node
held (inserts fuel fails new) xs = place new xs
held (removes fails) xs = rest xs
held clears xs = []
held o xs = xs

-- A new node has an address of its own and from 1 to 16 levels; there are more steps than nodes.
abbrev pub IsReady : Op → List Node → Type 0
IsReady (inserts fuel fails new) xs =
    HasLevel new × IsApart (some new.address) xs × (length xs < fuel)
IsReady o xs = Unit

abbrev pub AreReady : List Op → List Node → Type 0
AreReady [] xs = Unit
AreReady (o ∷ os) xs = IsReady o xs × AreReady os (held o xs)
