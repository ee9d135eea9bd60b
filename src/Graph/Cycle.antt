-- ===== src/Graph/Cycle.antt =====
-- `hasCycle` of src/utils/DataStructures.cpp: depth-first search with three states. The recursion
-- is on fuel, and `none` means that it ran out.
pub mod Search
pub mod Correct
use axon_queue.Prelude.{
  ℕ, zero, suc, Bool, true, false, Option, none, some, List, [], ◌∷◌, nat_eq, length,
}
use axon_queue.Prelude.Dict.{Dict, put, find_or}
use axon_queue.Task.{TaskId}
use axon_queue.Graph.{Graph, targets}
use axon_queue.Graph.Walk.{names}

pub data State : Type 0 where
  unvisited in_progress visited : State

-- `states[id]` creates a missing entry with the first enumerator.
abbrev pub States : Type 0
States = Dict TaskId State

abbrev pub state : States → TaskId → State
state m id = find_or unvisited id m

-- The loop over the neighbours: true as soon as one is in progress, or its own search finds a cycle.
unfoldable pub scan :
    (TaskId → States → Option (Bool × States)) → List TaskId → States → Option (Bool × States)
scan f [] m = some (false, m)
scan f (w ∷ ws) m = elim (state m w) [
  | in_progress ↦ some (true, m)
  | unvisited ↦ elim (f w m) [
    | none ↦ none
    | some (b, m') ↦ elim b [ true ↦ some (true, m') | false ↦ scan f ws m' ]
  ]
  | visited ↦ scan f ws m
]

-- The end of the search of one id.
unfoldable pub finish : TaskId → Option (Bool × States) → Option (Bool × States)
finish id none = none
finish id (some (true, m)) = some (true, m)
finish id (some (false, m)) = some (false, put id visited m)

unfoldable pub dfs : ℕ → Graph → TaskId → States → Option (Bool × States)
unfolding scan finish
dfs zero g id m = none
dfs (suc n) g id m = finish id (scan (dfs n g) (targets id g) (put id in_progress m))

abbrev pub keys : Graph → List TaskId
keys [] = []
keys ((k, deps) ∷ g) = k ∷ keys g

-- The first loop.
unfoldable pub all_unvisited : List TaskId → States → States
all_unvisited [] m = m
all_unvisited (k ∷ ks) m = all_unvisited ks (put k unvisited m)

-- The last loop.
unfoldable pub scan_roots :
    (TaskId → States → Option (Bool × States)) → List TaskId → States → Option Bool
scan_roots f [] m = some false
scan_roots f (k ∷ ks) m = elim (state m k) [
  | unvisited ↦ elim (f k m) [
    | none ↦ none
    | some (b, m') ↦ elim b [ true ↦ some true | false ↦ scan_roots f ks m' ]
  ]
  | _ ↦ scan_roots f ks m
]

-- One more than the number of ids that the graph names.
abbrev pub cycle_fuel : Graph → ℕ
cycle_fuel g = suc (length (names g))

unfoldable pub has_cycle : Graph → Option Bool
unfolding dfs all_unvisited scan_roots
has_cycle g = scan_roots (dfs (cycle_fuel g) g) (keys g) (all_unvisited (keys g) [])
