-- ===== src/Graph/Walk.antt =====
-- Walks along the edges of a graph, and the ids that a search can meet.
pub mod Unseen
use axon_queue.Prelude.{ℕ, ◌≡◌, List, [], ◌∷◌, ◌++◌, nat_eq}
use axon_queue.Prelude.Dict.{find}
use axon_queue.Task.{TaskId}
use axon_queue.Graph.{Graph, Edge}

pub data Reach (g : Graph) (u : TaskId) : TaskId → Type 0 where
  here : Reach g u u
  step : {v w : TaskId} → Reach g u v → Edge g v w → Reach g u w

pub Reach-trans : {g : Graph} {u v w : TaskId} → Reach g u v → Reach g v w → Reach g u w
Reach-trans r here = r
Reach-trans r (step s e) = step (Reach-trans r s) e

-- A walk of at least one edge that comes back.
pub record IsCyclic (g : Graph) : Type 0 where
  pub start : TaskId
  pub second : TaskId
  pub leaves : Edge g start second
  pub returns : Reach g second start

-- Every id that a graph names, as a key or as a dependency.
abbrev pub names : Graph → List TaskId
names [] = []
names ((k, deps) ∷ g) = k ∷ deps ++ names g
