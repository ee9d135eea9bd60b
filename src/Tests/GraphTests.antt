-- ===== src/Tests/GraphTests.antt =====
-- The theorems on dependency graphs at concrete inputs.
use axon_queue.Prelude.{◌≡◌, ◌↔◌, ◌⊎◌, refl, [], ◌∷◌, some, true, false, nat_eq, is_some, arith}
use axon_queue.Prelude.Dict.{find, find_or}
use axon_queue.Prelude.IdSet.{contains}
use axon_queue.Task.{TaskId}
use axon_queue.Graph.{Graph, targets}
use axon_queue.Graph.TaskGraph.{
  TaskGraph, empty_graph, add_dependency, remove_dependency, remove_task,
}
use axon_queue.Graph.Inverse.{
  AreInverse, has_entry, add_dependency_lem, add_dependency-AreInverse,
  remove_dependency-AreInverse, remove_task-dependencies, remove_task_stale,
}
use axon_queue.Graph.Walk.{Reach}
use axon_queue.Graph.Subgraph.{search_subgraph}
use axon_queue.Graph.Subgraph.Correct.{search_subgraph_correct}
use axon_queue.Graph.Cycle.{has_cycle}
use axon_queue.Graph.Cycle.Correct.{has_cycle_correct}
use axon_queue.Graph.Walk.{IsCyclic}

abbrev ring : Graph
ring = (1, 2 ∷ []) ∷ (2, 3 ∷ 4 ∷ []) ∷ (3, 1 ∷ []) ∷ []

has_cycle_correct_example :
    ((has_cycle ring ≡ some true) × IsCyclic ring)
    ⊎ ((has_cycle ring ≡ some false) × ¬ IsCyclic ring)
has_cycle_correct_example = has_cycle_correct ring

search_subgraph_correct_example :
    (h : Graph) × (search_subgraph 2 ring ≡ some h)
    × ((u : TaskId) → (is_some (find u h) ≡ true) ↔ Reach ring 2 u)
    × ((u : TaskId) → Reach ring 2 u → find u h ≡ some (targets u ring))
search_subgraph_correct_example = search_subgraph_correct ring 2

-- 1 depends on 2.
abbrev pair : TaskGraph
pair = record { dependencies = (1, 2 ∷ []) ∷ []; dependents = (2, 1 ∷ []) ∷ [] }

empty-AreInverse : AreInverse empty_graph
unfolding find_or find contains
empty-AreInverse j w = refl

built-AreInverse : AreInverse (add_dependency 1 2 empty_graph)
built-AreInverse = add_dependency-AreInverse 1 2 empty_graph empty-AreInverse

add_dependency-AreInverse_example : AreInverse (add_dependency 1 3 (add_dependency 1 2 empty_graph))
add_dependency-AreInverse_example =
    add_dependency-AreInverse 1 3 (add_dependency 1 2 empty_graph) built-AreInverse

remove_dependency-AreInverse_example :
    AreInverse (remove_dependency 1 2 (add_dependency 1 2 empty_graph))
remove_dependency-AreInverse_example =
    remove_dependency-AreInverse 1 2 (add_dependency 1 2 empty_graph) built-AreInverse

remove_task-dependencies_example : has_entry 1 2 (remove_task 2 pair).dependencies ≡ false
remove_task-dependencies_example = remove_task-dependencies 2 1 2 pair

built_entry : has_entry 1 2 (add_dependency 1 2 empty_graph).dependencies ≡ true
built_entry = ground (arith, add_dependency_lem 1 2 1 2 empty_graph)

remove_task_stale_example :
    let g = add_dependency 1 2 empty_graph in
    (has_entry 2 1 (remove_task 1 g).dependents ≡ true) × ¬ AreInverse (remove_task 1 g)
remove_task_stale_example =
    remove_task_stale 1 2 (add_dependency 1 2 empty_graph) built-AreInverse (ground arith)
      built_entry
