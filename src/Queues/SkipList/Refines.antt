-- ===== src/Queues/SkipList/Refines.antt =====
-- `LockFreePriorityQueue` behaves as a sequence by descending priority, last in first out within
-- a priority.
use axon_queue.Prelude.{
  ℕ, suc, ◌+◌, ◌-◌, ◌%◌, ◌≡◌, refl, ap, ◌∙◌, sym, subst, not, is_some, none, some, List, [], ◌∷◌,
  map, arith, All, length, length-append, length-map, u64_mod,
}
use axon_queue.Queues.Trace.{node, flag, count}
use axon_queue.Queues.SkipList.{
  Node, place_eq, Next, SkipList, new_list, dequeue, peek, is_empty, clear,
}
use axon_queue.Queues.SkipList.Towers.{
  tower, before, behind, place, entry, place-insert_by, before-append-behind, HasLevel, tower-zero,
  IsSorted, place-IsSorted, IsDistinct, place-IsDistinct, All-place,
}
use axon_queue.Queues.SkipList.Search.{Chain, AreChains}
use axon_queue.Queues.SkipList.Enqueue.{enqueue_chains}
use axon_queue.Queues.SkipList.Dequeue.{dequeue_chains}
use axon_queue.Queues.SkipList.Calls.{
  Op, inserts, removes, peeks, asks_empty, asks_size, clears, step, run, front, spec_step, spec_run,
  held, IsReady, AreReady,
}

-- Level `i` links the nodes of `xs` that have it, in order.
record Holds (s : SkipList) (xs : List Node) : Type 0 where
  chains : AreChains s.next xs
  size : s.size ≡ length xs % u64_mod
  levels : All HasLevel xs
  sorted : IsSorted xs
  distinct : IsDistinct xs

abbrev Agrees : Op → List Node → SkipList → Type 0
Agrees o xs s =
    (s' : SkipList) × (step o s ≡ some ((spec_step o (map entry xs)).0, s'))
    × (map entry (held o xs) ≡ (spec_step o (map entry xs)).1)
    × Holds s' (held o xs)

length-place : (new : Node) (xs : List Node) → length (place new xs) ≡ suc (length xs)
length-place new xs = omega (
  arith,
  length-append (before new.priority xs) (new ∷ behind new.priority xs),
  length-append (before new.priority xs) (behind new.priority xs),
  ap length (before-append-behind new.priority xs),
)

inserts-Agrees :
    (fuel : ℕ) (fails : ℕ → ℕ) (new : Node) (xs : List Node) (s : SkipList)
    → IsReady (inserts fuel fails new) xs
    → Holds s xs
    → Agrees (inserts fuel fails new) xs s
unfolding step
inserts-Agrees fuel fails new xs s (level, fresh, f) h =
    let (next, e, chains) =
      enqueue_chains new xs fuel fails s h.chains h.levels h.sorted h.distinct level fresh f in
    (
      record { next = next; size = (s.size + 1) % u64_mod },
      rw (e, step) refl,
      place-insert_by new xs,
      record {
        chains = chains;
        size = omega (arith, h.size, length-place new xs);
        levels = All-place HasLevel new xs level h.levels;
        sorted = place-IsSorted new xs h.sorted;
        distinct = place-IsDistinct new xs fresh h.distinct;
      },
    )

-- The lowest level links every node.
head-front : (xs : List Node) (s : SkipList) → Holds s xs → Chain s.next 0 (s.next none 0) xs
head-front xs s h =
    subst (Chain s.next 0 (s.next none 0)) (tower-zero xs h.levels) (h.chains 0 (omega arith))

head-first :
    (xs : List Node) (s : SkipList)
    → Holds s xs
    → (peek s ≡ front (map entry xs)) × (is_empty s ≡ not (is_some (front (map entry xs))))
unfolding peek is_empty
head-first [] s h = let e = head-front [] s h in rw (e, peek, is_empty) (refl, refl)
head-first (x ∷ xs) s h = let e = (head-front (x ∷ xs) s h).0 in rw (e, peek, is_empty) (refl, refl)

removes-Agrees :
    (fails : ℕ → ℕ) (xs : List Node) (s : SkipList) → Holds s xs → Agrees (removes fails) xs s
unfolding step dequeue IsSorted IsDistinct
removes-Agrees fails [] s h = let e = head-front [] s h in (s, rw (e, step, dequeue) refl, refl, h)
removes-Agrees fails (x ∷ xs) s h =
    let (next, e, chains) = dequeue_chains fails s x xs h.chains h.levels.0 in
    (
      record { next = next; size = (s.size + (u64_mod - 1)) % u64_mod },
      rw (e, step) refl,
      refl,
      record {
        chains = chains;
        size = omega (arith, h.size);
        levels = h.levels.1;
        sorted = h.sorted.1;
        distinct = h.distinct.1;
      },
    )

clear-Holds : (s : SkipList) → Holds (clear s) []
unfolding clear tower IsSorted IsDistinct
clear-Holds s = record {
  chains = λ j l. ground (arith, l);
  size = refl;
  levels = tt;
  sorted = tt;
  distinct = tt;
}

new_list-Holds : (memory : Next) → Holds (new_list memory) []
unfolding new_list tower IsSorted IsDistinct
new_list-Holds memory = record {
  chains = λ j l. refl;
  size = refl;
  levels = tt;
  sorted = tt;
  distinct = tt;
}

step-Agrees : (o : Op) (xs : List Node) (s : SkipList) → IsReady o xs → Holds s xs → Agrees o xs s
unfolding step
step-Agrees (inserts fuel fails new) xs s r h = inserts-Agrees fuel fails new xs s r h
step-Agrees (removes fails) xs s r h = removes-Agrees fails xs s h
step-Agrees peeks xs s r h = (s, ap (λ v. some (node v, s)) (head-first xs s h).0, refl, h)
step-Agrees asks_empty xs s r h = (s, ap (λ b. some (flag b, s)) (head-first xs s h).1, refl, h)
step-Agrees asks_size xs s r h = (
  s,
  ap (λ n. some (count n, s)) (h.size ∙ ap (λ n. n % u64_mod) (sym (length-map entry xs))),
  refl,
  h,
)
step-Agrees clears xs s r h = (clear s, refl, refl, clear-Holds s)

run-eq-spec :
    (os : List Op) (xs : List Node) (s : SkipList)
    → AreReady os xs
    → Holds s xs
    → run os s ≡ some (spec_run os (map entry xs))
unfolding run
run-eq-spec [] xs s r h = refl
run-eq-spec (o ∷ os) xs s r h =
    let (s', e, m, h') = step-Agrees o xs s r.0 h in
    let later = run-eq-spec os (held o xs) s' r.1 h' ∙ ap (λ es. some (spec_run os es)) m in
    rw (e, run, later) refl

-- Any sequence of calls on a new list, in which every new node has an address that no node of the
-- list has and from 1 to 16 levels, and the walks have more steps than the list has nodes, ends,
-- and gets the answers of a sequence that is sorted by descending priority and last in first out
-- within a priority, whatever exchanges fail and whatever levels are drawn.
pub priority_refines :
    (memory : Next) (os : List Op)
    → AreReady os []
    → run os (new_list memory) ≡ some (spec_run os [])
priority_refines memory os r = run-eq-spec os [] (new_list memory) r (new_list-Holds memory)
