-- ===== src/Queues/IntrusiveList/Fifo.antt =====
-- `LockFreeQueue` of DataStructures.hpp behaves as a first-in first-out queue.
use axon_queue.Prelude.{ℕ, ◌≡◌, refl, ap, ap₂, Option, List, [], ◌∷◌}
use axon_queue.Queues.Trace.{
  Op, inserts, removes, peeks, asks_empty, asks_size, Answer, done, node, flag, count, first,
  spec_step, spec_run, IsFresh, AreFresh, to_back,
}
use axon_queue.Queues.IntrusiveList.{LinkedList, new_list, enqueue, dequeue, peek, is_empty}
use axon_queue.Queues.IntrusiveList.Chain.{Node}
use axon_queue.Queues.IntrusiveList.Refines.{
  Holds, push_back-Holds, pop_front-Popped, new_list-Holds,
}

unfoldable pub step : Op → LinkedList → Answer × LinkedList
step (inserts fails x) l = (done, enqueue x l)
step (removes fails) l = let (r, l') = dequeue fails l in (node r, l')
step peeks l = (node (peek l), l)
step asks_empty l = (flag (is_empty l), l)
step asks_size l = (count l.size, l)

unfoldable pub run : List Op → LinkedList → List Answer
run [] l = []
run (o ∷ os) l = let (a, l') = step o l in a ∷ run os l'

-- Each call answers as the sequence does, and leaves a list that stands for the new sequence.
abbrev Agrees : Op → List Node → LinkedList → Type 0
Agrees o xs l =
    ((step o l).0 ≡ (spec_step to_back o xs).0) × Holds (step o l).1 (spec_step to_back o xs).1

removes-Agrees :
    (fails : ℕ) (xs : List Node) (l : LinkedList) → Holds l xs → Agrees (removes fails) xs l
unfolding step dequeue
removes-Agrees fails [] l h = let (e, p) = pop_front-Popped fails [] l h in (ap node e, p)
removes-Agrees fails (x ∷ xs) l h =
    let (e, p) = pop_front-Popped fails (x ∷ xs) l h in (ap node e, p)

head-first : (xs : List Node) (l : LinkedList) → Holds l xs → l.head ≡ first xs
head-first [] l h = h.chain
head-first (x ∷ xs) l h = h.chain.0

step-Agrees : (o : Op) (xs : List Node) (l : LinkedList) → IsFresh o xs → Holds l xs → Agrees o xs l
unfolding step enqueue peek is_empty
step-Agrees (inserts fails x) xs l f h = (refl, push_back-Holds x xs l f h)
step-Agrees (removes fails) xs l f h = removes-Agrees fails xs l h
step-Agrees peeks xs l f h = (ap node (head-first xs l h), h)
step-Agrees asks_empty xs l f h = (rw (head-first xs l h), h)
step-Agrees asks_size xs l f h = (ap count h.size, h)

run-eq-spec :
    (os : List Op) (xs : List Node) (l : LinkedList)
    → AreFresh to_back os xs
    → Holds l xs
    → run os l ≡ spec_run to_back os xs
unfolding run
run-eq-spec [] xs l f h = refl
run-eq-spec (o ∷ os) xs l f h =
    let (e, h') = step-Agrees o xs l f.0 h in
    ap₂ ◌∷◌ e (run-eq-spec os (spec_step to_back o xs).1 (step o l).1 f.1 h')

-- Any sequence of calls on a new queue, in which no node is enqueued while it is in the queue, gets
-- the answers of a first-in first-out sequence, whatever exchanges fail.
pub fifo_refines :
    (next : Node → Option Node) (os : List Op)
    → AreFresh to_back os []
    → run os (new_list next) ≡ spec_run to_back os []
fifo_refines next os f = run-eq-spec os [] (new_list next) f (new_list-Holds next)
