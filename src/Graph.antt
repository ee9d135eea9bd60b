-- ===== src/Graph.antt =====
-- Dependency graphs: `TaskGraph` of include/utils/DataStructures.hpp, and the functions of
-- src/utils/DataStructures.cpp on the maps that it hands out. A graph maps an id to the ids that it
-- depends on.
pub mod TaskGraph
pub mod Inverse
pub mod Subgraph
pub mod Cycle
pub mod Levels
pub mod CriticalPath
pub mod Dot
pub mod Walk
use axon_queue.Prelude.{ℕ, ◌≡◌, Bool, true, false, Option, none, some, List, [], ◌∷◌, nat_eq}
use axon_queue.Prelude.Dict.{Dict, find, find_or}
use axon_queue.Prelude.IdSet.{contains}
use axon_queue.Task.{TaskId}

abbrev pub Graph : Type 0
Graph = Dict TaskId (List TaskId)

-- The dependencies of an id, none for an id that is no key.
abbrev pub targets : TaskId → Graph → List TaskId
targets id g = find_or [] id g

abbrev pub Edge : Graph → TaskId → TaskId → Type 0
Edge g u v = contains (targets u g) v ≡ true
