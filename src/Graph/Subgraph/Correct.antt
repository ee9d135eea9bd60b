-- ===== src/Graph/Subgraph/Correct.antt =====
-- `getSubgraph` returns the part of the graph that is reachable from the root.
use axon_queue.Prelude.{◌≡◌, refl, ◌↔◌, true, some, [], nat_eq, arith, ==_refl, is_some}
use axon_queue.Prelude.Dict.{find}
use axon_queue.Prelude.IdSet.{contains}
use axon_queue.Task.{TaskId}
use axon_queue.Graph.{Graph, targets}
use axon_queue.Graph.Walk.{Reach, here, step}
use axon_queue.Graph.Walk.Unseen.{unseen-le-length}
use axon_queue.Graph.Subgraph.{Search, visit, search_subgraph, search_fuel}
use axon_queue.Graph.Subgraph.Visit.{seen, universe, Inv, Visited, visit-Visited}

abbrev pub blank : Search
blank = record { visited = []; subgraph = [] }

module _ (g : Graph) (root : TaskId) where
  blank-Inv : Inv g root blank
  unfolding find contains
  blank-Inv = record { sound = λ u h. cc; stored = λ u. refl }

  found : Visited g root root blank (visit (search_fuel root g) g root blank)
  unfolding contains
  found =
      visit-Visited g root (search_fuel root g) root blank here (ground (arith, ==_refl root))
        (omega (arith, unseen-le-length (seen blank) (universe g root))) blank-Inv

  all_reached : {u : TaskId} → Reach g root u → seen found.final u ≡ true
  unfolding contains
  all_reached here = found.marked
  all_reached (step {v} {w} r e) = found.extends.closed v w refl (all_reached r) e

  -- The search ends, and what it returns has an entry for exactly the ids that are reachable from
  -- the root, each with its dependencies in the graph, the root included.
  pub search_subgraph_correct :
      (h : Graph) × (search_subgraph root g ≡ some h)
      × ((u : TaskId) → (is_some (find u h) ≡ true) ↔ Reach g root u)
      × ((u : TaskId) → Reach g root u → find u h ≡ some (targets u g))
  unfolding search_subgraph
  search_subgraph_correct = (
    found.final.subgraph,
    rw (found.ran, search_subgraph),
    λ u. (
      λ h. found.extends.inv.sound u (ground (arith, found.extends.inv.stored u)),
      λ r. ground (arith, found.extends.inv.stored u, all_reached r),
    ),
    λ u r. ground (arith, found.extends.inv.stored u, all_reached r),
  )
