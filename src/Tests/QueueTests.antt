-- ===== src/Tests/QueueTests.antt =====
-- The theorems on the queue and the stack at concrete inputs.
use axon_queue.Prelude.{ℕ, ◌≡◌, refl, List, [], ◌∷◌, Option, some, arith}
use axon_queue.Queues.Trace.{
  Op, inserts, removes, peeks, asks_empty, asks_size, spec_run, AreFresh, to_back, to_front,
}
use axon_queue.Prelude.IdSet.{contains}
use axon_queue.Queues.IntrusiveList.{new_list}
use axon_queue.Queues.IntrusiveList.Fifo.{run, fifo_refines}
use axon_queue.Queues.Stack.{new_stack}
use axon_queue.Queues.Stack.Refines
use axon_queue.Queues.Stack.Refines.{lifo_refines}
use axon_queue.Queues.SkipList
use axon_queue.Queues.SkipList.Towers
use axon_queue.Queues.SkipList.Calls
use axon_queue.Queues.SkipList.Refines.{priority_refines}

-- Node 7 goes in twice, the second time after it came out.
abbrev calls : List Op
calls =
    inserts 0 7
    ∷ inserts 2 8
    ∷ peeks
    ∷ removes 1
    ∷ removes 0
    ∷ asks_empty
    ∷ inserts 1 7
    ∷ asks_size
    ∷ removes 3
    ∷ removes 0
    ∷ []

-- Stale links are in the nodes at first.
abbrev links : ℕ → Option ℕ
links n = some 7

fresh_queue_calls : AreFresh to_back calls []
unfolding contains
fresh_queue_calls = (refl, (refl, (tt, (tt, (tt, (tt, (refl, (tt, (tt, (tt, tt))))))))))

fresh_stack_calls : AreFresh to_front calls []
unfolding contains
fresh_stack_calls = (refl, (refl, (tt, (tt, (tt, (tt, (refl, (tt, (tt, (tt, tt))))))))))

fifo_refines_example : run calls (new_list links) ≡ spec_run to_back calls []
unfolding contains
fifo_refines_example = fifo_refines links calls fresh_queue_calls

lifo_refines_example : Refines.run calls (new_stack links) ≡ spec_run to_front calls []
unfolding contains
lifo_refines_example = lifo_refines links calls fresh_stack_calls

abbrev low : SkipList.Node
low = record { address = 7; value = 1; priority = 2; level = 3 }

abbrev low_again : SkipList.Node
low_again = record { address = 8; value = 2; priority = 2; level = 1 }

abbrev high : SkipList.Node
high = record { address = 9; value = 3; priority = 5; level = 16 }

abbrev twice : ℕ → ℕ
twice i = 2

-- The second node comes out before the first, and its address is used again.
abbrev priority_calls : List Calls.Op
priority_calls =
    Calls.inserts 4 twice low
    ∷ Calls.inserts 4 twice low_again
    ∷ Calls.inserts 4 twice high
    ∷ Calls.peeks
    ∷ Calls.removes twice
    ∷ Calls.removes twice
    ∷ Calls.asks_size
    ∷ Calls.inserts 4 twice low_again
    ∷ Calls.removes twice
    ∷ Calls.clears
    ∷ Calls.asks_empty
    ∷ Calls.removes twice
    ∷ []

abbrev any_next : SkipList.Next
any_next q i = some low

ready_calls : Calls.AreReady priority_calls []
unfolding Towers.before Towers.behind
ready_calls = (
  ((refl, omega arith), tt, omega arith),
  (
    ((refl, omega arith), (refl, tt), omega arith),
    (
      ((refl, omega arith), (refl, (refl, tt)), omega arith),
      (
        tt,
        (
          tt,
          (tt, (tt, (((refl, omega arith), (refl, tt), omega arith), (tt, (tt, (tt, (tt, tt))))))),
        ),
      ),
    ),
  ),
)

priority_refines_example :
    Calls.run priority_calls (SkipList.new_list any_next) ≡ some (Calls.spec_run priority_calls [])
priority_refines_example = priority_refines any_next priority_calls ready_calls
