-- ===== src/Graph/Levels.antt =====
-- `calculateTaskLevels` of src/utils/DataStructures.cpp. The recursion is on fuel, and `none` means
-- that it ran out.
pub mod Known
pub mod Correct
use axon_queue.Prelude.{
  ℕ, zero, suc, Bool, true, false, Option, none, some, List, [], ◌∷◌, nat_eq, if◌then◌else◌, ltb,
  length,
}
use axon_queue.Prelude.Dict.{Dict, find, put}
use axon_queue.Task.{TaskId}
use axon_queue.Graph.{Graph, targets}
use axon_queue.Graph.Walk.{names}
use axon_queue.Graph.Cycle.{keys}

abbrev pub Levels : Type 0
Levels = Dict TaskId ℕ

abbrev pub max : ℕ → ℕ → ℕ
max a b = if ltb a b then b else a

-- The loop over the dependencies; `best` is `maxLevel + 1`.
unfoldable pub calc_all :
    (TaskId → Levels → Option (ℕ × Levels)) → List TaskId → ℕ → Levels → Option (ℕ × Levels)
calc_all f [] best l = some (best, l)
calc_all f (d ∷ ds) best l = elim (f d l) [
  | none ↦ none
  | some (n, l') ↦ calc_all f ds (max best (suc n)) l'
]

unfoldable pub set_level : TaskId → Option (ℕ × Levels) → Option (ℕ × Levels)
set_level id none = none
set_level id (some (n, l)) = some (n, put id n l)

-- `calcLevel`. Without dependencies the loop leaves 0, which is what the early return stores.
unfoldable pub calc_level : ℕ → Graph → TaskId → Levels → Option (ℕ × Levels)
unfolding calc_all set_level
calc_level zero g id l = none
calc_level (suc n) g id l = elim (find id l) [
  | some k ↦ some (k, l)
  | none ↦ set_level id (calc_all (calc_level n g) (targets id g) 0 l)
]

-- The last loop.
unfoldable pub calc_keys :
    (TaskId → Levels → Option (ℕ × Levels)) → List TaskId → Levels → Option Levels
calc_keys f [] l = some l
calc_keys f (k ∷ ks) l = elim (f k l) [ none ↦ none | some (n, l') ↦ calc_keys f ks l' ]

-- One more than the number of ids that the graph names.
abbrev pub levels_fuel : Graph → ℕ
levels_fuel g = suc (length (names g))

unfoldable pub calculate_task_levels : Graph → Option Levels
unfolding calc_level calc_keys
calculate_task_levels g = calc_keys (calc_level (levels_fuel g) g) (keys g) []
