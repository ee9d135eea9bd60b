-- ===== src/Queues/Family.antt =====
-- The three maps of QueueManager.cpp from group names to containers. Each container is the sequence
-- of its elements in the order in which it gives them up, which is what IntrusiveList.Fifo,
-- Stack.Refines show of the node structures for the queues and the stacks.
pub mod Laws
pub mod Keyed
use axon_queue.Prelude.{
  ℕ, String, Bool, true, false, Option, none, some, List, [], ◌∷◌, ◌++◌, map, string_eq,
  if◌then◌else◌, ltb,
}
use axon_queue.Prelude.Dict.{Dict, find, put, find_or}

abbrev pub Group : Type 0
Group = String

abbrev pub Family {ℓ} : Type ℓ → Type ℓ
Family A = Dict Group (List A)

-- `LockFreePriorityQueue::enqueue` passes over the elements of a strictly higher priority.
unfoldable pub insert_by {ℓ} : {A : Type ℓ} → ℕ → A → List (ℕ × A) → List (ℕ × A)
insert_by p x [] = (p, x) ∷ []
insert_by p x ((q, y) ∷ ys) = if ltb p q then (q, y) ∷ insert_by p x ys else (p, x) ∷ (q, y) ∷ ys

module _ {ℓ} {A : Type ℓ} where
  -- `family[group]` with an element added; the entry is created if it is missing.
  unfoldable pub add : (List A → List A) → Group → Family A → Family A
  add place group m = put group (place (find_or [] group m)) m

  -- `getTaskFromFIFO`, `getTaskFromLIFO` and `getTaskFromPriority` on the map that they read.
  unfoldable pub take_from : Group → Family A → Option A × Family A
  take_from group m = elim (find group m) [
    | none ↦ (none, m)
    | some xs ↦ elim xs [ [] ↦ (none, m) | x ∷ rest ↦ (some x, put group rest m) ]
  ]

  abbrev pub groups : Family A → List Group
  groups [] = []
  groups ((k, xs) ∷ m) = k ∷ groups m

  -- `for (group : family) { task = getTask(group); if (task) break; }`
  unfoldable pub take_first : List Group → Family A → Option A × Family A
  unfolding take_from
  take_first [] m = (none, m)
  take_first (k ∷ ks) m = elim (take_from k m).0 [ none ↦ take_first ks m | some x ↦ take_from k m ]

  -- The first element of the first container that has one.
  unfoldable pub peek_first : Family A → Option A
  peek_first [] = none
  peek_first ((k, []) ∷ m) = peek_first m
  peek_first ((k, x ∷ xs) ∷ m) = some x

  abbrev pub with_group : Group → List A → List (Group × A)
  with_group k [] = []
  with_group k (x ∷ xs) = (k, x) ∷ with_group k xs

  -- What `setMode` moves to `all_tasks`: every container emptied, in order.
  unfoldable pub drain : Family A → List (Group × A)
  drain [] = []
  drain ((k, xs) ∷ m) = with_group k xs ++ drain m

  -- The elements of all containers.
  abbrev pub elements : Family A → List A
  elements [] = []
  elements ((k, xs) ∷ m) = xs ++ elements m
