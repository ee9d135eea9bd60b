-- ===== src/Queues/Stack/Refines.antt =====
-- `LockFreeStack` of DataStructures.hpp behaves as a last-in first-out stack.
use axon_queue.Prelude.{
  ℕ, zero, suc, ◌+◌, ◌-◌, ◌%◌, ◌≡◌, refl, ap, ap₂, false, Option, none, some, List, [], ◌∷◌, arith,
  ◌==◌, nat_eq, if◌then◌else◌, length, u64_mod,
}
use axon_queue.Prelude.IdSet.{contains}
use axon_queue.Queues.IntrusiveList.{set_next}
use axon_queue.Queues.IntrusiveList.Chain.{Node, Chain, Chain-outside}
use axon_queue.Queues.IntrusiveList.Refines.{set_next_lem}
use axon_queue.Queues.Trace.{
  Op, inserts, removes, peeks, asks_empty, asks_size, Answer, done, node, flag, count, first,
  spec_step, spec_run, IsFresh, AreFresh, to_front,
}
use axon_queue.Queues.Stack.{Stack, new_stack, push, push_loop, pop, pop_loop, peek, is_empty}

-- `s` holds the nodes `xs`, top first, and counts them modulo 2^64.
pub record Holds (s : Stack) (xs : List Node) : Type 0 where
  pub chain : Chain s.next s.head xs
  pub size : s.size ≡ length xs % u64_mod

record Pushed (x : Node) (s s' : Stack) : Type 0 where
  next : (m : Node) → s'.next m ≡ (if x == m then s.head else s.next m)
  head : s'.head ≡ some x
  size : s'.size ≡ (s.size + 1) % u64_mod

push_loop_lem :
    (fails : ℕ) (x : Node) (s : Stack)
    → s.next x ≡ s.head
    → (m : Node)
    → ((push_loop fails x s).next m ≡ s.next m)
      × ((push_loop fails x s).head ≡ some x)
      × ((push_loop fails x s).size ≡ s.size)
unfolding push_loop
push_loop_lem zero x s e m = (refl, refl, refl)
push_loop_lem (suc fails) x s e m =
    let s' = record s { next = set_next s.next x s.head } in
    ground (
      arith,
      set_next_lem s.next x x s.head,
      set_next_lem s.next x m s.head,
      push_loop_lem fails x s' (ground (arith, set_next_lem s.next x x s.head)) m,
    )

push-Pushed : (fails : ℕ) (x : Node) (s : Stack) → Pushed x s (push fails x s)
unfolding push
push-Pushed fails x s =
    let s' = record s { next = set_next s.next x s.head } in
    let at = λ (m : Node). set_next_lem s.next x m s.head in
    let links : s'.next x ≡ s'.head = ground (arith, at x) in
    let facts = push_loop_lem fails x s' links in
    record {
      next = λ m. ground (arith, facts m, at m);
      head = ground (arith, facts x);
      size = ground (arith, facts x);
    }

-- `push` of an item that is not in the stack puts it on top, however often the exchange fails.
pub push-Holds :
    (fails : ℕ) (x : Node) (xs : List Node) (s : Stack)
    → contains xs x ≡ false
    → Holds s xs
    → Holds (push fails x s) (x ∷ xs)
push-Holds fails x xs s out h =
    let p = push-Pushed fails x s in
    let to_head : (push fails x s).next x ≡ s.head = ground (arith, p.next x) in
    record {
      chain = (
        p.head,
        rw to_head (
            Chain-outside s.next (push fails x s).next s.head xs (λ m i. ground (arith, p.next m))
              h.chain),
      );
      size = omega (arith, p.size, h.size);
    }

pop_loop_lem : (fails : ℕ) (x : Node) (s : Stack) → s.head ≡ some x → pop_loop fails x s ≡ some x
unfolding pop_loop
pop_loop_lem zero x s e = refl
pop_loop_lem (suc fails) x s e = rw (e, pop_loop) (pop_loop_lem fails x s e)

abbrev popped : (x : Node) → Stack → Stack
popped x s = record s { head = s.next x; size = (s.size + (u64_mod - 1)) % u64_mod }

pop_eq : (fails : ℕ) (x : Node) (s : Stack) → s.head ≡ some x → pop fails s ≡ (some x, popped x s)
unfolding pop
pop_eq fails x s e = ground (arith, pop_loop_lem fails x s e)

pop-nil : (fails : ℕ) (s : Stack) → s.head ≡ none → pop fails s ≡ (none, s)
unfolding pop
pop-nil fails s e = ground arith

popped-Holds : (x : Node) (xs : List Node) (s : Stack) → Holds s (x ∷ xs) → Holds (popped x s) xs
popped-Holds x xs s h = record { chain = h.chain.1; size = omega (arith, h.size) }

unfoldable pub step : Op → Stack → Answer × Stack
step (inserts fails x) s = (done, push fails x s)
step (removes fails) s = let (r, s') = pop fails s in (node r, s')
step peeks s = (node (peek s), s)
step asks_empty s = (flag (is_empty s), s)
step asks_size s = (count s.size, s)

unfoldable pub run : List Op → Stack → List Answer
run [] s = []
run (o ∷ os) s = let (a, s') = step o s in a ∷ run os s'

abbrev Agrees : Op → List Node → Stack → Type 0
Agrees o xs s =
    ((step o s).0 ≡ (spec_step to_front o xs).0) × Holds (step o s).1 (spec_step to_front o xs).1

removes-Agrees : (fails : ℕ) (xs : List Node) (s : Stack) → Holds s xs → Agrees (removes fails) xs s
unfolding step
removes-Agrees fails [] s h = rw (pop-nil fails s h.chain) (refl, h)
removes-Agrees fails (x ∷ xs) s h = rw (pop_eq fails x s h.chain.0) (refl, popped-Holds x xs s h)

head-first : (xs : List Node) (s : Stack) → Holds s xs → s.head ≡ first xs
head-first [] s h = h.chain
head-first (x ∷ xs) s h = h.chain.0

step-Agrees : (o : Op) (xs : List Node) (s : Stack) → IsFresh o xs → Holds s xs → Agrees o xs s
unfolding step peek is_empty
step-Agrees (inserts fails x) xs s f h = (refl, push-Holds fails x xs s f h)
step-Agrees (removes fails) xs s f h = removes-Agrees fails xs s h
step-Agrees peeks xs s f h = (ap node (head-first xs s h), h)
step-Agrees asks_empty xs s f h = (rw (head-first xs s h), h)
step-Agrees asks_size xs s f h = (ap count h.size, h)

run-eq-spec :
    (os : List Op) (xs : List Node) (s : Stack)
    → AreFresh to_front os xs
    → Holds s xs
    → run os s ≡ spec_run to_front os xs
unfolding run
run-eq-spec [] xs s f h = refl
run-eq-spec (o ∷ os) xs s f h =
    let (e, h') = step-Agrees o xs s f.0 h in
    ap₂ ◌∷◌ e (run-eq-spec os (spec_step to_front o xs).1 (step o s).1 f.1 h')

-- Any sequence of calls on a new stack, in which no item is pushed while it is in the stack, gets
-- the answers of a last-in first-out sequence, whatever exchanges fail.
pub lifo_refines :
    (next : Node → Option Node) (os : List Op)
    → AreFresh to_front os []
    → run os (new_stack next) ≡ spec_run to_front os []
unfolding new_stack
lifo_refines next os f = run-eq-spec os [] (new_stack next) f (record { chain = refl; size = refl })
