-- ===== src/Queues/IntrusiveList.antt =====
-- `IntrusiveList` and `LockFreeQueue` of DataStructures.hpp. A node is its address, the null
-- pointer is `none`, and `next` is the member that the nodes carry. The queue manager calls the
-- operations under a lock, so each runs alone; `compare_exchange_weak` may still fail, and the
-- number of its failures is an argument.
pub mod Chain
pub mod Refines
pub mod Fifo
use axon_queue.Prelude.{
  ℕ, zero, suc, ◌≡◌, Bool, true, false, Option, none, some, ◌==◌, nat_eq, if◌then◌else◌, inc64,
  dec64, is_some, not,
}
use Chain.{Node}

abbrev pub Memory : Type 0
Memory = Node → Option Node

-- A store to `node->next_`.
unfoldable pub set_next : Memory → Node → Option Node → Memory
set_next next n p m = if n == m then p else next m

pub record LinkedList : Type 0 where
  pub next : Memory
  pub head : Option Node
  pub tail : Option Node
  pub size : ℕ

unfoldable pub new_list : Memory → LinkedList
new_list next = record { next = next; head = none; tail = none; size = 0 }

-- The loop of `pushFront`: an exchange that fails stores the head it saw in `node->next_`.
push_front_loop : ℕ → Node → LinkedList → LinkedList
unfolding set_next
push_front_loop zero node l = record l { head = some node }
push_front_loop (suc fails) node l =
    push_front_loop fails node (record l { next = set_next l.next node l.head })

unfoldable pub push_front : (fails : ℕ) → Node → LinkedList → LinkedList
unfolding push_front_loop set_next
push_front fails node l =
    let l' = push_front_loop fails node (record l { next = set_next l.next node l.head }) in
    record l' { tail = if is_some (l'.next node) then l'.tail else some node; size = inc64 l'.size }

unfoldable pub push_back : Node → LinkedList → LinkedList
unfolding set_next
push_back node l =
    let cleared = set_next l.next node none in
    elim l.tail [
      | some prev_tail ↦ record l {
        next = set_next cleared prev_tail (some node);
        tail = some node;
        size = inc64 l.size;
      }
      | none ↦ record l { next = cleared; head = some node; tail = some node; size = inc64 l.size }
    ]

-- The loop of `popFront`: an exchange that fails reloads the node from the head, and the next node
-- from it. The result is the node and its successor as the last exchange saw them.
pop_front_loop : ℕ → Node → Option Node → LinkedList → Option (Node × Option Node)
pop_front_loop zero node next l = some (node, next)
pop_front_loop (suc fails) node next l = elim l.head [
  | none ↦ none
  | some node' ↦ pop_front_loop fails node' (l.next node') l
]

unfoldable pub pop_front : (fails : ℕ) → LinkedList → Option Node × LinkedList
unfolding pop_front_loop
pop_front fails l = elim l.head [
  | none ↦ (none, l)
  | some node ↦ elim (pop_front_loop fails node (l.next node) l) [
    | none ↦ (none, l)
    | some (node', next) ↦ (
      some node',
      record l { head = next; tail = if is_some next then l.tail else none; size = dec64 l.size },
    )
  ]
]

unfoldable pub is_empty : LinkedList → Bool
is_empty l = not (is_some l.head)

-- `LockFreeQueue` has one list, and passes its calls on.
unfoldable pub enqueue : Node → LinkedList → LinkedList
enqueue item l = push_back item l

unfoldable pub dequeue : (fails : ℕ) → LinkedList → Option Node × LinkedList
dequeue fails l = pop_front fails l

unfoldable pub peek : LinkedList → Option Node
peek l = l.head
