-- ===== src/Queues/Stack.antt =====
-- `LockFreeStack` of DataStructures.hpp, modelled as IntrusiveList.antt is.
pub mod Refines
use axon_queue.Prelude.{
  ℕ, zero, suc, Bool, true, false, Option, none, some, inc64, dec64, is_some, not,
}
use axon_queue.Queues.IntrusiveList.{Memory, set_next}
use axon_queue.Queues.IntrusiveList.Chain.{Node}

pub record Stack : Type 0 where
  pub next : Memory
  pub head : Option Node
  pub size : ℕ

unfoldable pub new_stack : Memory → Stack
new_stack next = record { next = next; head = none; size = 0 }

-- The loop of `push`: an exchange that fails stores the head it saw in `item->next_`.
push_loop : ℕ → Node → Stack → Stack
unfolding set_next
push_loop zero item s = record s { head = some item }
push_loop (suc fails) item s =
    push_loop fails item (record s { next = set_next s.next item s.head })

unfoldable pub push : (fails : ℕ) → Node → Stack → Stack
unfolding push_loop set_next
push fails item s =
    let s' = push_loop fails item (record s { next = set_next s.next item s.head }) in
    record s' { size = inc64 s'.size }

-- The loop of `pop`: an exchange that fails reloads the item from the head.
pop_loop : ℕ → Node → Stack → Option Node
pop_loop zero item s = some item
pop_loop (suc fails) item s = elim s.head [ none ↦ none | some item' ↦ pop_loop fails item' s ]

unfoldable pub pop : (fails : ℕ) → Stack → Option Node × Stack
unfolding pop_loop
pop fails s = elim s.head [
  | none ↦ (none, s)
  | some item ↦ elim (pop_loop fails item s) [
    | none ↦ (none, s)
    | some item' ↦ (some item', record s { head = s.next item'; size = dec64 s.size })
  ]
]

unfoldable pub peek : Stack → Option Node
peek s = s.head

unfoldable pub is_empty : Stack → Bool
is_empty s = not (is_some s.head)
