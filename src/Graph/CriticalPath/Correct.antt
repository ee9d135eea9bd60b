-- ===== src/Graph/CriticalPath/Correct.antt =====
-- The end of `findCriticalPath` and of `getCriticalPath`, and the ids that they return.
use axon_queue.Prelude.{
  ◌<◌, ◌≡◌, ◌≢◌, refl, false, Option, some, List, [], ◌∷◌, nat_eq, arith, length, ◌==◌, ◌⊎◌, inl,
  inr, Bool-cases,
}
use axon_queue.Prelude.Dict.{find}
use axon_queue.Prelude.IdSet.{contains}
use axon_queue.Task.{TaskId}
use axon_queue.Graph.{Graph, targets}
use axon_queue.Graph.Walk.{here, names, IsCyclic}
use axon_queue.Graph.Walk.Unseen.{unseen-le-length}
use axon_queue.Graph.TaskGraph.{TaskGraph}
use axon_queue.Graph.Subgraph.{get_subgraph}
use axon_queue.Graph.Subgraph.Correct.{search_subgraph_correct}
use axon_queue.Graph.Cycle.{keys}
use axon_queue.Graph.Cycle.Correct.{has_cycle_correct}
use axon_queue.Graph.CriticalPath.{
  Paths, no_distances, relax_order, farthest, path_fuel, topological_order, longest_path,
  sorted_path, find_critical_path, get_critical_path,
}
use axon_queue.Graph.CriticalPath.Order.{topological_order_ends}
use axon_queue.Graph.CriticalPath.Walk.{IsPath, relax_order-AreParents, walk_parents_lem}

-- A path of at least one id.
abbrev pub IsFound : Graph → Option (List TaskId) → Type 0
IsFound g o =
    (first : TaskId) × (rest : List TaskId) × (o ≡ some (first ∷ rest)) × IsPath g (first ∷ rest)

longest_path-IsFound :
    (g : Graph) (first : TaskId) (rest : List TaskId)
    → ¬ IsCyclic g
    → IsFound g (longest_path g (first ∷ rest))
unfolding longest_path contains find
longest_path-IsFound g first rest acyclic =
    let start : Paths = record { distance = no_distances (keys g) []; parent = [] } in
    let p = relax_order g (first ∷ rest) start in
    let h = relax_order-AreParents g (first ∷ rest) start (λ u q f. absurd (ground (arith, f))) in
    let (x, xs, e, path, _) =
      walk_parents_lem g acyclic p.parent h (path_fuel g) (farthest p.distance p.distance first) []
        (omega (arith, unseen-le-length (contains []) (names g)))
        (λ a c. absurd (ground (arith, c))) tt in
    (x, xs, e, path)

-- The sort leaves ids out, or reaches some twice.
abbrev pub IsShort : Graph → Type 0
IsShort g = (order : List TaskId) × (topological_order g ≡ some order) × (length order ≢ length g)

-- What the function returns on a graph.
abbrev IsCritical : Graph → Option (List TaskId) → Type 0
IsCritical g o =
    (IsCyclic g × (o ≡ some [])) ⊎ ((¬ IsCyclic g) × ((IsShort g × (o ≡ some [])) ⊎ IsFound g o))

sorted_path_lem :
    (g : Graph) (order : List TaskId)
    → ¬ IsCyclic g
    → 0 < length g
    → ((length order ≢ length g) × (sorted_path g order ≡ some []))
      ⊎ IsFound g (sorted_path g order)
unfolding sorted_path
sorted_path_lem g [] acyclic l =
    let out : (length {A = TaskId} [] == length g) ≡ false = ground (arith, l) in
    inl (λ e. omega (arith, e, l), rw (out, sorted_path) refl)
sorted_path_lem g (first ∷ rest) acyclic l = elim (Bool-cases (length (first ∷ rest) == length g)) [
  | inl whole ↦ inr (rw (whole, sorted_path) (longest_path-IsFound g first rest acyclic))
  | inr short ↦ inl ((λ e. ground (arith, e, short)), rw short refl)
]

find_critical_path-IsCritical : (g : Graph) → 0 < length g → IsCritical g (find_critical_path g)
unfolding find_critical_path
find_critical_path-IsCritical g l = elim (has_cycle_correct g) [
  | inl (answer, cycle) ↦ inl (cycle, rw (answer, find_critical_path) refl)
  | inr (answer, acyclic) ↦
      let (order, sorted) = topological_order_ends g in
      rw (answer, sorted, find_critical_path)
        (elim (sorted_path_lem g order acyclic l) [
          | inl (short, none_) ↦ inr (acyclic, inl ((order, refl, short), none_))
          | inr found ↦ inr (acyclic, inr found)
        ])
]

length-find : (g : Graph) (u : TaskId) (deps : List TaskId) → find u g ≡ some deps → 0 < length g
unfolding find
length-find [] u deps f = absurd (ground (arith, f))
length-find (e ∷ g) u deps f = omega arith

-- For every root, the entries that the root reaches are collected and the search of them ends: with
-- no ids if they have a cycle or the sort does not give as many ids as there are entries, and else
-- with at least one id, where each depends on the next.
get_critical_path_correct :
    (root : TaskId) (g : TaskGraph)
    → (h : Graph) × (get_subgraph root g ≡ some h) × IsCritical h (get_critical_path root g)
unfolding get_subgraph get_critical_path
get_critical_path_correct root g =
    let (h, e, _, same) = search_subgraph_correct g.dependencies root in
    (
      h,
      e,
      rw (e, get_critical_path)
          (find_critical_path-IsCritical h
            (length-find h root (targets root g.dependencies) (same root here))),
    )
