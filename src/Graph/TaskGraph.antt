-- ===== src/Graph/TaskGraph.antt =====
-- `class TaskGraph` of DataStructures.hpp: what each id depends on, and what depends on it.
use axon_queue.Prelude.{
  Bool, true, false, not, none, some, List, [], ◌∷◌, nat_eq, if◌then◌else◌, is_some,
}
use axon_queue.Prelude.Dict.{find, put, erase, find_or}
use axon_queue.Prelude.IdSet.{insert, remove}
use axon_queue.Task.{TaskId}
use axon_queue.Graph.{Graph}

pub record TaskGraph : Type 0 where
  pub dependencies : Graph
  pub dependents : Graph

abbrev pub empty_graph : TaskGraph
empty_graph = record { dependencies = []; dependents = [] }

-- `if (m.find(k) == m.end()) m[k] = {}; m[k].insert(v);`
unfoldable pub add_entry : TaskId → TaskId → Graph → Graph
add_entry k v m =
    let m' = if is_some (find k m) then m else put k [] m in put k (insert v (find_or [] k m')) m'

-- `auto it = m.find(k); if (it != m.end()) it->second.erase(v);`
unfoldable pub remove_entry : TaskId → TaskId → Graph → Graph
remove_entry k v m = elim (find k m) [ none ↦ m | some vs ↦ put k (remove v vs) m ]

unfoldable pub add_dependency : (dependent dependency : TaskId) → TaskGraph → TaskGraph
unfolding add_entry
add_dependency dependent dependency g = record {
  dependencies = add_entry dependent dependency g.dependencies;
  dependents = add_entry dependency dependent g.dependents;
}

unfoldable pub remove_dependency : (dependent dependency : TaskId) → TaskGraph → TaskGraph
unfolding remove_entry
remove_dependency dependent dependency g = record {
  dependencies = remove_entry dependent dependency g.dependencies;
  dependents = remove_entry dependency dependent g.dependents;
}

unfoldable pub get_dependencies : TaskId → TaskGraph → List TaskId
get_dependencies id g = elim (find id g.dependencies) [ none ↦ [] | some deps ↦ deps ]

unfoldable pub get_dependents : TaskId → TaskGraph → List TaskId
get_dependents id g = elim (find id g.dependents) [ none ↦ [] | some deps ↦ deps ]

abbrev pub is_nil {ℓ} : {A : Type ℓ} → List A → Bool
is_nil [] = true
is_nil (x ∷ xs) = false

unfoldable pub has_dependencies : TaskId → TaskGraph → Bool
has_dependencies id g = elim (find id g.dependencies) [
  | none ↦ false
  | some deps ↦ not (is_nil deps)
]

unfoldable pub has_dependents : TaskId → TaskGraph → Bool
has_dependents id g = elim (find id g.dependents) [ none ↦ false | some deps ↦ not (is_nil deps) ]

-- The loop over the entries of `dependencies_`.
unfoldable pub ready_keys : Graph → List TaskId
ready_keys [] = []
ready_keys ((id, deps) ∷ m) = if is_nil deps then id ∷ ready_keys m else ready_keys m

unfoldable pub get_ready_tasks : TaskGraph → List TaskId
unfolding ready_keys
get_ready_tasks g = ready_keys g.dependencies

-- `for (auto &[_, deps] : dependencies_) deps.erase(id);`
unfoldable pub remove_everywhere : TaskId → Graph → Graph
remove_everywhere id [] = []
remove_everywhere id ((k, deps) ∷ m) = (k, remove id deps) ∷ remove_everywhere id m

-- `for (dependent : ...) if found, dependencies_[dependent].erase(id);`
unfoldable pub remove_from_all : List TaskId → TaskId → Graph → Graph
unfolding remove_entry
remove_from_all [] id m = m
remove_from_all (d ∷ ds) id m = remove_from_all ds id (remove_entry d id m)

unfoldable pub remove_task : TaskId → TaskGraph → TaskGraph
unfolding remove_everywhere remove_from_all
remove_task id g =
    let deps = remove_everywhere id (erase id g.dependencies) in
    elim (find id g.dependents) [
      | none ↦ record g { dependencies = deps }
      | some ds ↦ record {
        dependencies = remove_from_all ds id deps;
        dependents = erase id g.dependents;
      }
    ]
