-- ===== src/Graph/Subgraph.antt =====
-- `TaskGraph::getSubgraph` of DataStructures.hpp: the entries that a depth-first search from a root
-- meets. The recursion is on fuel, and `none` means that it ran out.
pub mod Visit
pub mod Entries
pub mod Correct
use axon_queue.Prelude.{
  ℕ, zero, suc, Bool, true, false, Option, none, some, List, [], ◌∷◌, nat_eq, if◌then◌else◌, length,
}
use axon_queue.Prelude.Dict.{find, put}
use axon_queue.Prelude.IdSet.{contains, insert}
use axon_queue.Task.{TaskId}
use axon_queue.Graph.{Graph}
use axon_queue.Graph.Walk.{names}
use axon_queue.Graph.TaskGraph.{TaskGraph}

pub record Search : Type 0 where
  pub visited : List TaskId
  pub subgraph : Graph

unfoldable pub enter : TaskId → List TaskId → Search → Search
enter id deps s = record { visited = insert id s.visited; subgraph = put id deps s.subgraph }

-- The loop over the dependencies of one id.
unfoldable pub visit_all : (TaskId → Search → Option Search) → List TaskId → Search → Option Search
visit_all f [] s = some s
visit_all f (d ∷ ds) s = elim (f d s) [ none ↦ none | some s' ↦ visit_all f ds s' ]

-- `buildSubgraph`.
unfoldable pub visit : ℕ → Graph → TaskId → Search → Option Search
unfolding visit_all enter
visit zero g id s = none
visit (suc n) g id s = if contains s.visited id then some s else elim (find id g) [
  | some deps ↦ visit_all (visit n g) deps (enter id deps s)
  | none ↦ some (enter id [] s)
]

-- One more than the number of ids that the search can meet.
abbrev pub search_fuel : TaskId → Graph → ℕ
search_fuel root g = suc (length (root ∷ names g))

unfoldable pub search_subgraph : TaskId → Graph → Option Graph
unfolding visit
search_subgraph root g =
    elim (visit (search_fuel root g) g root (record { visited = []; subgraph = [] })) [
      | none ↦ none
      | some s ↦ some s.subgraph
    ]

unfoldable pub get_subgraph : TaskId → TaskGraph → Option Graph
unfolding search_subgraph
get_subgraph root g = search_subgraph root g.dependencies
