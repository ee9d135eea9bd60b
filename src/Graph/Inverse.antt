-- ===== src/Graph/Inverse.antt =====
-- The two maps of a `TaskGraph` describe one relation.
use axon_queue.Prelude.{
  ◌≡◌, ◌≢◌, refl, Bool, true, not, ◌&&◌, ◌||◌, List, [], ◌∷◌, ◌==◌, nat_eq, if◌then◌else◌, arith,
  Option-cases, inl, inr,
}
use axon_queue.Prelude.Dict.{
  find, put, erase, find_or, find_or-put, find_or-erase, find_or-none, find_or-some,
}
use axon_queue.Prelude.IdSet.{contains, insert, remove, contains-insert, contains-remove}
use axon_queue.Task.{TaskId}
use axon_queue.Graph.{Graph, targets}
use axon_queue.Graph.TaskGraph.{
  TaskGraph, add_entry, remove_entry, add_dependency, remove_dependency, remove_everywhere,
  remove_from_all, remove_task,
}

-- `k` depends on `v` in the map `m`.
abbrev pub has_entry : TaskId → TaskId → Graph → Bool
has_entry k v m = contains (targets k m) v

targets-add_entry :
    (k v j : TaskId) (m : Graph)
    → targets j (add_entry k v m) ≡ (if k == j then insert v (targets k m) else targets j m)
unfolding add_entry
targets-add_entry k v j m = elim (Option-cases (find k m)) [
  | inl absent ↦ ground (
    arith,
    find_or-put [] k j (insert v (targets k (put k [] m))) (put k [] m),
    find_or-put [] k k [] m,
    find_or-put [] k j [] m,
    find_or-none [] k m absent,
  )
  | inr (vs, present) ↦ ground (arith, find_or-put [] k j (insert v (targets k m)) m)
]

targets-remove_entry :
    (k v j : TaskId) (m : Graph)
    → targets j (remove_entry k v m) ≡ (if k == j then remove v (targets k m) else targets j m)
unfolding remove_entry remove
targets-remove_entry k v j m = elim (Option-cases (find k m)) [
  | inl absent ↦ ground (arith, find_or-none [] k m absent)
  | inr (vs, present) ↦
      ground (arith, find_or-put [] k j (remove v vs) m, find_or-some [] k vs m present)
]

-- In the map, adding an entry adds one pair and removing one removes it.
add_entry_lem :
    (k v j w : TaskId) (m : Graph)
    → has_entry j w (add_entry k v m) ≡ ((k == j && v == w) || has_entry j w m)
add_entry_lem k v j w m =
    ground (arith, targets-add_entry k v j m, contains-insert v w (targets k m))

remove_entry_lem :
    (k v j w : TaskId) (m : Graph)
    → has_entry j w (remove_entry k v m) ≡ (not (k == j && v == w) && has_entry j w m)
remove_entry_lem k v j w m =
    ground (arith, targets-remove_entry k v j m, contains-remove v w (targets k m))

remove_everywhere_lem :
    (id j w : TaskId) (m : Graph)
    → has_entry j w (remove_everywhere id m) ≡ (not (id == w) && has_entry j w m)
unfolding remove_everywhere find_or find contains
remove_everywhere_lem id j w [] = ground arith
remove_everywhere_lem id j w ((k, deps) ∷ m) =
    ground (arith, contains-remove id w deps, remove_everywhere_lem id j w m)

remove_from_all_lem :
    (ds : List TaskId) (id j w : TaskId) (m : Graph)
    → has_entry j w (remove_from_all ds id m) ≡ (not (contains ds j && id == w) && has_entry j w m)
unfolding remove_from_all contains
remove_from_all_lem [] id j w m = refl
remove_from_all_lem (d ∷ ds) id j w m =
    ground (arith, remove_from_all_lem ds id j w (remove_entry d id m), remove_entry_lem d id j w m)

erase_lem :
    (id j w : TaskId) (m : Graph) → has_entry j w (erase id m) ≡ (not (id == j) && has_entry j w m)
unfolding contains
erase_lem id j w m = ground (arith, find_or-erase [] id j m)

-- `dependencies` has a pair exactly when `dependents` has the opposite one.
abbrev pub AreInverse : TaskGraph → Type 0
AreInverse g = (j w : TaskId) → has_entry j w g.dependencies ≡ has_entry w j g.dependents

-- `addDependency` adds the pair to both maps and leaves every other pair.
pub add_dependency_lem :
    (d p j w : TaskId) (g : TaskGraph)
    → (has_entry j w (add_dependency d p g).dependencies
        ≡ ((d == j && p == w) || has_entry j w g.dependencies))
      × (has_entry w j (add_dependency d p g).dependents
          ≡ ((p == w && d == j) || has_entry w j g.dependents))
unfolding add_dependency
add_dependency_lem d p j w g =
    (add_entry_lem d p j w g.dependencies, add_entry_lem p d w j g.dependents)

-- Adding a dependency keeps the two maps inverse to each other.
pub add_dependency-AreInverse :
    (d p : TaskId) (g : TaskGraph) → AreInverse g → AreInverse (add_dependency d p g)
add_dependency-AreInverse d p g inv j w = ground (arith, add_dependency_lem d p j w g, inv j w)

-- Removing a dependency keeps the two maps inverse to each other.
pub remove_dependency-AreInverse :
    (d p : TaskId) (g : TaskGraph) → AreInverse g → AreInverse (remove_dependency d p g)
unfolding remove_dependency
remove_dependency-AreInverse d p g inv j w =
    ground (
      arith,
      remove_entry_lem d p j w g.dependencies,
      remove_entry_lem p d w j g.dependents,
      inv j w,
    )

-- `removeTask` leaves of `dependencies` exactly the pairs that do not name the task.
pub remove_task-dependencies :
    (id j w : TaskId) (g : TaskGraph)
    → has_entry j w (remove_task id g).dependencies
      ≡ (not (id == j) && not (id == w) && has_entry j w g.dependencies)
unfolding remove_task
remove_task-dependencies id j w g =
    let swept = remove_everywhere id (erase id g.dependencies) in
    elim (Option-cases (find id g.dependents)) [
      | inl absent ↦ ground (
        arith,
        absent,
        remove_everywhere_lem id j w (erase id g.dependencies),
        erase_lem id j w g.dependencies,
      )
      | inr (ds, present) ↦ ground (
        arith,
        present,
        remove_from_all_lem ds id j w swept,
        remove_everywhere_lem id j w (erase id g.dependencies),
        erase_lem id j w g.dependencies,
      )
    ]

-- Of `dependents` it removes only the entry of the task itself.
remove_task-dependents :
    (id j w : TaskId) (g : TaskGraph)
    → has_entry w j (remove_task id g).dependents ≡ (not (id == w) && has_entry w j g.dependents)
unfolding remove_task contains
remove_task-dependents id j w g =
    ground (arith, erase_lem id w j g.dependents, find_or-none [] id g.dependents)

-- In a graph whose maps are inverse to each other, a task that depends on another one stays among
-- the dependents of that one after it was removed, so the maps are no longer inverse to each
-- other.
pub remove_task_stale :
    (id w : TaskId) (g : TaskGraph)
    → AreInverse g
    → id ≢ w
    → has_entry id w g.dependencies ≡ true
    → (has_entry w id (remove_task id g).dependents ≡ true) × ¬ AreInverse (remove_task id g)
remove_task_stale id w g inv ne e =
    let stale : has_entry w id (remove_task id g).dependents ≡ true =
      ground (arith, remove_task-dependents id id w g, inv id w) in
    (stale, λ inv'. ground (arith, inv' id w, remove_task-dependencies id id w g, stale))
