-- ===== src/Graph/CriticalPath.antt =====
-- `findCriticalPath` of src/utils/DataStructures.cpp, and `QueueManager::getCriticalPath`. The two
-- `while` loops are on fuel, and `none` means that it ran out, or that the first element of an empty
-- vector was read. A vector that is read from its back is kept with its back first, so
-- `topologicalOrder` and `criticalPath` are here as `std::reverse` leaves them.
pub mod Order
pub mod Walk
pub mod Correct
use axon_queue.Prelude.{
  ℕ, zero, suc, Bool, true, false, Option, none, some, List, [], ◌∷◌, nat_eq, ◌==◌, if◌then◌else◌,
  ltb, length, is_some,
}
use axon_queue.Prelude.Dict.{Dict, find, put, find_or}
use axon_queue.Task.{TaskId}
use axon_queue.Graph.{Graph, targets}
use axon_queue.Graph.Walk.{names}
use axon_queue.Graph.TaskGraph.{TaskGraph}
use axon_queue.Graph.Subgraph.{get_subgraph}
use axon_queue.Graph.Cycle.{has_cycle, keys}

-- An `int`: `negsuc n` is -(n + 1).
pub data ℤ : Type 0 where
  pos negsuc : ℕ → ℤ

abbrev pub increment : ℤ → ℤ
increment (pos n) = pos (suc n)
increment (negsuc zero) = pos 0
increment (negsuc (suc n)) = negsuc n

abbrev pub decrement : ℤ → ℤ
decrement (pos zero) = negsuc 0
decrement (pos (suc n)) = pos n
decrement (negsuc n) = negsuc (suc n)

abbrev pub is_zero : ℤ → Bool
is_zero (pos zero) = true
is_zero (pos (suc n)) = false
is_zero (negsuc n) = false

abbrev pub Degrees : Type 0
Degrees = Dict TaskId ℤ

abbrev pub degree : TaskId → Degrees → ℤ
degree id m = find_or (pos 0) id m

-- `for (depId : deps) inDegree[depId]++;`
unfoldable pub count_all : List TaskId → Degrees → Degrees
count_all [] m = m
count_all (d ∷ ds) m = count_all ds (put d (increment (degree d m)) m)

unfoldable pub in_degrees : Graph → Degrees → Degrees
unfolding count_all
in_degrees [] m = m
in_degrees ((id, deps) ∷ g) m =
    in_degrees g (count_all deps (if is_some (find id m) then m else put id (pos 0) m))

-- The loop that fills the queue.
unfoldable pub push_zeros : Degrees → List TaskId → List TaskId
push_zeros [] queue = queue
push_zeros ((id, d) ∷ m) queue = push_zeros m (if is_zero d then id ∷ queue else queue)

-- The loop over the neighbours: `if (--inDegree[neighbor] == 0) queue.push_back(neighbor);`
unfoldable pub lower_all : List TaskId → Degrees → List TaskId → Degrees × List TaskId
lower_all [] m queue = (m, queue)
lower_all (n ∷ ns) m queue =
    let d = decrement (degree n m) in
    lower_all ns (put n d m) (if is_zero d then n ∷ queue else queue)

-- `while (!queue.empty())`
unfoldable pub sort_loop : ℕ → Graph → Degrees → (queue order : List TaskId) → Option (List TaskId)
unfolding lower_all
sort_loop zero g m queue order = none
sort_loop (suc n) g m [] order = some order
sort_loop (suc n) g m (current ∷ queue) order =
    let (m', queue') = lower_all (targets current g) m queue in
    sort_loop n g m' queue' (current ∷ order)

-- One more than the number of ids that the graph names.
abbrev pub path_fuel : Graph → ℕ
path_fuel g = suc (length (names g))

unfoldable pub topological_order : Graph → Option (List TaskId)
unfolding in_degrees push_zeros sort_loop
topological_order g = let m = in_degrees g [] in sort_loop (path_fuel g) g m (push_zeros m []) []

pub record Paths : Type 0 where
  pub distance : Dict TaskId ℕ
  pub parent : Dict TaskId TaskId

unfoldable pub no_distances : List TaskId → Dict TaskId ℕ → Dict TaskId ℕ
no_distances [] m = m
no_distances (k ∷ ks) m = no_distances ks (put k 0 m)

-- The loop over the neighbours of one id. A comparison that fails creates no entry, since the
-- neighbour has a distance then.
unfoldable pub relax_all : TaskId → List TaskId → Paths → Paths
relax_all id [] p = p
relax_all id (n ∷ ns) p =
    let next = suc (find_or 0 id p.distance) in
    relax_all id ns (
      if ltb (find_or 0 n p.distance) next
      then record { distance = put n next p.distance; parent = put n id p.parent }
      else p)

unfoldable pub relax_order : Graph → List TaskId → Paths → Paths
unfolding relax_all
relax_order g [] p = p
relax_order g (id ∷ ids) p = relax_order g ids (relax_all id (targets id g) p)

-- The loop that looks for `endNode`, over the ids of `distance`.
unfoldable pub farthest : List (TaskId × ℕ) → Dict TaskId ℕ → TaskId → TaskId
farthest [] distance end_node = end_node
farthest ((id, d) ∷ rest) distance end_node =
    farthest rest distance
      (if ltb (find_or 0 end_node distance) (find_or 0 id distance) then id else end_node)

-- The last loop; `path` is `criticalPath`.
unfoldable pub walk_parents : ℕ → Dict TaskId TaskId → TaskId → List TaskId → Option (List TaskId)
walk_parents zero parent current path = none
walk_parents (suc n) parent current path = elim (find current parent) [
  | none ↦ some (current ∷ path)
  | some p ↦ walk_parents n parent p (current ∷ path)
]

-- From the order on; the first element of the order is read.
unfoldable pub longest_path : Graph → List TaskId → Option (List TaskId)
unfolding no_distances relax_order farthest walk_parents
longest_path g [] = none
longest_path g (first ∷ rest) =
    let p =
      relax_order g (first ∷ rest) (record { distance = no_distances (keys g) []; parent = [] }) in
    walk_parents (path_fuel g) p.parent (farthest p.distance p.distance first) []

unfoldable pub sorted_path : Graph → List TaskId → Option (List TaskId)
unfolding longest_path
sorted_path g order = if length order == length g then longest_path g order else some []

unfoldable pub find_critical_path : Graph → Option (List TaskId)
unfolding topological_order sorted_path
find_critical_path g = elim (has_cycle g) [
  | none ↦ none
  | some true ↦ some []
  | some false ↦ elim (topological_order g) [ none ↦ none | some order ↦ sorted_path g order ]
]

-- `QueueManager::getCriticalPath` on the dependency graph of the manager.
unfoldable pub get_critical_path : TaskId → TaskGraph → Option (List TaskId)
unfolding find_critical_path
get_critical_path root g = elim (get_subgraph root g) [
  | none ↦ none
  | some subgraph ↦ find_critical_path subgraph
]
