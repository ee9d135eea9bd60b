-- ===== src/Tests/TaskTests.antt =====
-- The theorems on tasks at concrete inputs.
use axon_queue.Prelude.{ℕ, ◌≡◌, ◌≢◌, ◌↔◌, refl, [], ◌∷◌, inl, arith, true, string_eq, All}
use axon_queue.Task.{Task, completed, running, other, are_dependencies_met}
use axon_queue.Task.Lifecycle.{
  Moves, queues, starts, fails, cancels, apply, apply-Moves, apply_all, apply_all-final,
}
use axon_queue.Task.Dependencies.{IsMet, are_dependencies_met_iff}
use axon_queue.Task.Json.{to_json, from_json}
use axon_queue.Task.Json.Roundtrip.{Restored, from_json-to_json}
use axon_queue.Tests.Trees.{tree_lib}
use axon_queue.Tests.Sample.{fresh, with_status, lock}

apply-Moves_example :
    Moves
      (fails "disk full")
      (with_status running 1)
      (apply 105 (fails "disk full") (with_status running 1)).status
apply-Moves_example = apply-Moves 105 (fails "disk full") (with_status running 1)

apply_all-final_example :
    (apply_all ((7, queues) ∷ (8, starts) ∷ (9, cancels) ∷ []) (with_status completed 1)).status
    ≡ completed
apply_all-final_example =
    apply_all-final ((7, queues) ∷ (8, starts) ∷ (9, cancels) ∷ []) (with_status completed 1)
      (inl refl)

abbrev waiting : Task
waiting = record (fresh 1) { dependencies = 2 ∷ 9 ∷ [] }

are_dependencies_met_iff_example :
    (are_dependencies_met (lock (with_status completed)) waiting ≡ true)
    ↔ All (IsMet (lock (with_status completed))) (2 ∷ 9 ∷ [])
are_dependencies_met_iff_example = are_dependencies_met_iff (lock (with_status completed)) waiting

known_status : (n : ℕ) → running ≢ other n
known_status n e = ground (arith, e)

abbrev stored_task : Task
stored_task = record (with_status running 1) { dependencies = 2 ∷ 9 ∷ [] }

from_json-to_json_example :
    from_json tree_lib (to_json tree_lib (lock fresh) stored_task) (fresh 2)
    ≡ (Restored tree_lib stored_task (fresh 2), true)
from_json-to_json_example =
    from_json-to_json tree_lib (lock fresh) stored_task (fresh 2) known_status (omega arith)
      (omega arith)
