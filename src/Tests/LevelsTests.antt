-- ===== src/Tests/LevelsTests.antt =====
-- The levels of a concrete graph.
use axon_queue.Prelude.{◌≡◌, refl, false, some, [], ◌∷◌, nat_eq, arith, inl, inr}
use axon_queue.Prelude.Dict.{find, put, find_or}
use axon_queue.Graph.{Graph}
use axon_queue.Graph.Walk.{IsCyclic}
use axon_queue.Graph.Cycle.{keys, has_cycle, dfs, scan, finish, scan_roots, all_unvisited}
use axon_queue.Graph.Cycle.Correct.{has_cycle_correct}
use axon_queue.Graph.Levels.{Levels, calculate_task_levels}
use axon_queue.Graph.Levels.Known.{AreKnown, AreLevels}
use axon_queue.Graph.Levels.Correct.{calculate_task_levels_correct}

-- 1 depends on 2 and 3, and 2 on 3.
abbrev diamond : Graph
diamond = (1, 3 ∷ 2 ∷ []) ∷ (2, 3 ∷ []) ∷ []

diamond_answer : has_cycle diamond ≡ some false
unfolding has_cycle dfs scan finish scan_roots all_unvisited find find_or put
diamond_answer = refl

diamond_acyclic : ¬ IsCyclic diamond
diamond_acyclic = elim (has_cycle_correct diamond) [
  | inl (e, c) ↦ ground (arith, e, diamond_answer)
  | inr (e, n) ↦ n
]

calculate_task_levels_correct_example :
    (l : Levels) × (calculate_task_levels diamond ≡ some l)
    × AreKnown (keys diamond) l
    × AreLevels diamond l
calculate_task_levels_correct_example = calculate_task_levels_correct diamond diamond_acyclic
