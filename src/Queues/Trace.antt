-- ===== src/Queues/Trace.antt =====
-- Calls on a queue of nodes, and what a caller sees of them.
use axon_queue.Prelude.{
  ℕ, ◌%◌, ◌≡◌, nat_eq, Bool, false, not, Option, none, some, List, [], ◌∷◌, ◌++◌, length, u64_mod,
  is_some,
}
use axon_queue.Prelude.IdSet.{contains}
use axon_queue.Queues.IntrusiveList.Chain.{Node}

-- `fails` is the number of exchanges that fail before one succeeds.
pub data Op : Type 0 where
  inserts : (fails : ℕ) → Node → Op
  removes : (fails : ℕ) → Op
  peeks asks_empty asks_size : Op

pub data Answer : Type 0 where
  done : Answer
  node : Option Node → Answer
  flag : Bool → Answer
  count : ℕ → Answer

abbrev pub first : List Node → Option Node
first [] = none
first (x ∷ xs) = some x

abbrev pub rest : List Node → List Node
rest [] = []
rest (x ∷ xs) = xs

-- A node is inserted only while it is not in the queue.
abbrev pub IsFresh : Op → List Node → Type 0
IsFresh (inserts fails x) xs = contains xs x ≡ false
IsFresh o xs = Unit

-- The abstract queue: a sequence whose front is removed, where `place` says where a node goes.
module _ (place : Node → List Node → List Node) where
  abbrev pub spec_step : Op → List Node → Answer × List Node
  spec_step (inserts fails x) xs = (done, place x xs)
  spec_step (removes fails) xs = (node (first xs), rest xs)
  spec_step peeks xs = (node (first xs), xs)
  spec_step asks_empty xs = (flag (not (is_some (first xs))), xs)
  spec_step asks_size xs = (count (length xs % u64_mod), xs)

  abbrev pub spec_run : List Op → List Node → List Answer
  spec_run [] xs = []
  spec_run (o ∷ os) xs = (spec_step o xs).0 ∷ spec_run os (spec_step o xs).1

  abbrev pub AreFresh : List Op → List Node → Type 0
  AreFresh [] xs = Unit
  AreFresh (o ∷ os) xs = IsFresh o xs × AreFresh os (spec_step o xs).1

abbrev pub to_back : Node → List Node → List Node
to_back x xs = xs ++ x ∷ []

abbrev pub to_front : Node → List Node → List Node
to_front x xs = x ∷ xs
