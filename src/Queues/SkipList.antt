-- ===== src/Queues/SkipList.antt =====
-- `LockFreePriorityQueue` of include/utils/DataStructures.hpp: a skip list, run one call at a time.
-- The source lacks the header of the loop over the levels in `enqueue`; it is taken to be
-- `for (int i = MAX_LEVEL - 1; i >= 0; --i)`. The fields of a node that never change are kept with
-- its address, and the `next` arrays are a memory, in which the head is at `none`. The random level
-- and the number of exchanges that fail are arguments.
pub mod Towers
pub mod Search
pub mod Link
pub mod Insert
pub mod Enqueue
pub mod Dequeue
pub mod Calls
pub mod Refines
use axon_queue.Prelude.{
  ℕ, zero, suc, ◌≡◌, ◌↔◌, refl, ap, Bool, true, false, ◌&&◌, Option, none, some, ◌==◌, HasEq,
  nat_eq, arith, if◌then◌else◌, ltb, inc64, dec64, is_some, not,
}

pub record Node : Type 0 where
  pub address : ℕ
  pub value : ℕ
  pub priority : ℕ
  pub level : ℕ

abbrev pub max_level : ℕ
max_level = 16

-- The address of a node, or the head.
abbrev pub Place : Type 0
Place = Option ℕ

abbrev same_place : Place → Place → Bool
same_place none none = true
same_place none (some b) = false
same_place (some a) none = false
same_place (some a) (some b) = a == b

pub same_place_iff : (p q : Place) → (same_place p q ≡ true) ↔ (p ≡ q)
same_place_iff none none = ground arith
same_place_iff none (some b) = ground arith
same_place_iff (some a) none = ground arith
same_place_iff (some a) (some b) = ground (arith, nat_eq.agrees a b)

instance abbrev pub place_eq : HasEq Place
place_eq = record { same = same_place; agrees = same_place_iff }

-- `next[i]` of the node at a place.
abbrev pub Next : Type 0
Next = Place → ℕ → Option Node

pub record SkipList : Type 0 where
  pub next : Next
  pub size : ℕ

unfoldable pub set_next : Place → ℕ → Option Node → Next → Next
set_next p i v next q j = if p == q && i == j then v else next q j

-- The constructor of a node.
unfoldable pub construct : Node → Next → Next
construct new next q j = if some new.address == q && ltb j new.level then none else next q j

-- The memory may hold anything but for the head.
unfoldable pub new_list : Next → SkipList
new_list memory = record {
  next = λ q j. elim q [ none ↦ none | some a ↦ memory (some a) j ];
  size = 0;
}

-- The inner loop of `enqueue`, with the steps that are left.
unfoldable pub advance : ℕ → Next → ℕ → ℕ → Place → Option Place
advance zero next i priority current = none
advance (suc n) next i priority current = elim (next current i) [
  | none ↦ some current
  | some x ↦
      let further = advance n next i priority (some x.address) in
      if ltb priority x.priority then further else some current
]

abbrev store {ℓ} : {A : Type ℓ} → (ℕ → A) → ℕ → A → ℕ → A
store f i v j = if i == j then v else f j

-- The outer loop, from the level below `i` down to 0.
unfoldable pub search : ℕ → Next → ℕ → ℕ → Place → (ℕ → Place) → Option (ℕ → Place)
unfolding advance
search fuel next priority zero current update = some update
search fuel next priority (suc i) current update = elim (advance fuel next i priority current) [
  | none ↦ none
  | some found ↦ search fuel next priority i found (store update i found)
]

-- The exchange of `update[i]->next[i]`; one that fails stores what it saw in `newNode->next[i]`.
unfoldable pub link : (fails : ℕ) → Node → ℕ → Place → Next → Next
unfolding set_next
link zero new i place next = set_next place i (some new) next
link (suc fails) new i place next =
    link fails new i place (set_next (some new.address) i (next place i) next)

unfoldable pub link_level : (fails : ℕ) → Node → ℕ → Place → Next → Next
unfolding link set_next
link_level fails new i place next =
    link fails new i place (set_next (some new.address) i (next place i) next)

-- The last loop of `enqueue`, with the rounds left.
unfoldable pub link_levels : (fails : ℕ → ℕ) → Node → (ℕ → Place) → (rounds i : ℕ) → Next → Next
unfolding link_level
link_levels fails new update zero i next = next
link_levels fails new update (suc n) i next =
    link_levels fails new update n (suc i) (link_level (fails i) new i (update i) next)

-- `none` means that the steps did not suffice.
unfoldable pub enqueue : (fuel : ℕ) → (fails : ℕ → ℕ) → Node → SkipList → Option SkipList
unfolding construct search link_levels
enqueue fuel fails new s =
    let next = construct new s.next in
    elim (search fuel next new.priority max_level none (λ i. none)) [
      | none ↦ none
      | some update ↦
          some
            (record { next = link_levels fails new update new.level 0 next; size = inc64 s.size })
    ]

-- What a loop of exchanges in `dequeue` ends with: the queue became empty, the exchange can never
-- succeed, or the node was unlinked.
pub data Unlinked : Type 0 where
  emptied stuck : Unlinked
  unlinked : Node → Next → Unlinked

abbrev is_node : Node → Option Node → Bool
is_node x none = false
is_node x (some y) = x.address == y.address

-- The exchange of `head_->next[i]`; one that fails reloads the first node.
unfoldable pub unlink : (fails : ℕ) → ℕ → Node → Next → Unlinked
unfolding set_next
unlink zero i x next =
    if is_node x (next none i)
    then unlinked x (set_next none i (next (some x.address) i) next)
    else stuck
unlink (suc fails) i x next = elim (next none 0) [ none ↦ emptied | some y ↦ unlink fails i y next ]

-- The loop of `dequeue` from the level below `i` down to 0.
unfoldable pub unlink_levels : (fails : ℕ → ℕ) → ℕ → Node → Next → Unlinked
unfolding unlink
unlink_levels fails zero x next = unlinked x next
unlink_levels fails (suc i) x next = elim (unlink (fails i) i x next) [
  | emptied ↦ emptied
  | stuck ↦ stuck
  | unlinked y next' ↦ unlink_levels fails i y next'
]

unfoldable pub finish : Unlinked → SkipList → Option (Option ℕ × SkipList)
finish emptied s = some (none, s)
finish stuck s = none
finish (unlinked x next) s = some (some x.value, record { next = next; size = dec64 s.size })

-- `none` means that the call does not return.
unfoldable pub dequeue : (fails : ℕ → ℕ) → SkipList → Option (Option ℕ × SkipList)
unfolding unlink_levels finish
dequeue fails s = elim (s.next none 0) [
  | none ↦ some (none, s)
  | some x ↦ finish (unlink_levels fails x.level x s.next) s
]

unfoldable pub peek : SkipList → Option ℕ
peek s = elim (s.next none 0) [ none ↦ none | some x ↦ some x.value ]

unfoldable pub is_empty : SkipList → Bool
is_empty s = not (is_some (s.next none 0))

-- The nodes are deleted, and no one reads their memory again.
unfoldable pub clear : SkipList → SkipList
clear s = record {
  next = λ q j. if none == q && ltb j max_level then none else s.next q j;
  size = 0;
}
