-- ===== src/Queues/IntrusiveList/Refines.antt =====
-- The list of nodes refines a sequence: the operations of IntrusiveList.antt against it.
use axon_queue.Prelude.{
  ℕ, zero, suc, ◌+◌, ◌-◌, ◌%◌, ◌≡◌, refl, sym, ◌∙◌, false, Option, none, some, List, [], ◌∷◌, ◌++◌,
  arith, ◌==◌, nat_eq, if◌then◌else◌, length, length-append, u64_mod, is_some,
}
use axon_queue.Prelude.IdSet.{contains}
use axon_queue.Queues.IntrusiveList.{
  LinkedList, set_next, new_list, push_front, push_front_loop, push_back, pop_front, pop_front_loop,
}
use axon_queue.Queues.IntrusiveList.Chain.{
  Node, Chain, Distinct, last, Chain-outside, Chain-snoc, contains-last, last-cons, last-snoc,
  Distinct-snoc,
}

-- `l` holds the distinct nodes `xs`, front first, and counts them modulo 2^64.
pub record Holds (l : LinkedList) (xs : List Node) : Type 0 where
  pub chain : Chain l.next l.head xs
  pub tail : l.tail ≡ last xs
  pub size : l.size ≡ length xs % u64_mod
  pub distinct : Distinct xs

pub new_list-Holds : (next : Node → Option Node) → Holds (new_list next) []
unfolding new_list
new_list-Holds next = record { chain = refl; tail = refl; size = refl; distinct = tt }

-- `set_next` in the if form.
pub set_next_lem :
    (next : Node → Option Node) (n m : Node) (p : Option Node)
    → set_next next n p m ≡ (if n == m then p else next m)
unfolding set_next
set_next_lem next n m p = refl

push_back-nil : (x : Node) (l : LinkedList) → Holds l [] → Holds (push_back x l) (x ∷ [])
unfolding push_back contains
push_back-nil x l h = record {
  chain = ground (arith, set_next_lem l.next x x none);
  tail = ground arith;
  size = ground arith;
  distinct = (refl, tt);
}

-- The list after `pushBack` behind the last node `z`.
abbrev linked : (x z : Node) → LinkedList → LinkedList
linked x z l = record {
  next = set_next (set_next l.next x none) z (some x);
  head = l.head;
  tail = some x;
  size = (l.size + 1) % u64_mod;
}

push_back_eq : (x z : Node) (l : LinkedList) → l.tail ≡ some z → push_back x l ≡ linked x z l
unfolding push_back
push_back_eq x z l e = ground arith

linked-Holds :
    (x y z : Node) (ys : List Node) (l : LinkedList)
    → contains (y ∷ ys) x ≡ false
    → last (y ∷ ys) ≡ some z
    → Holds l (y ∷ ys)
    → Holds (linked x z l) ((y ∷ ys) ++ x ∷ [])
linked-Holds x y z ys l out e h =
    let next' = set_next (set_next l.next x none) z (some x) in
    let seen = λ (m : Node). set_next_lem (set_next l.next x none) z m (some x) in
    let old = λ (m : Node). set_next_lem l.next x m none in
    let inside = contains-last (y ∷ ys) z e in
    record {
      chain =
          Chain-snoc l.next next' l.head y ys x (λ m i ne. ground (arith, seen m, old m))
            (λ m i. ground (arith, seen m)) (ground (arith, seen x, old x)) h.distinct h.chain;
      tail = sym (last-snoc (y ∷ ys) x);
      size = omega (arith, length-append (y ∷ ys) (x ∷ []), h.size);
      distinct = Distinct-snoc (y ∷ ys) x out h.distinct;
    }

-- `pushBack` of a node that is not in the list puts it at the end.
pub push_back-Holds :
    (x : Node) (xs : List Node) (l : LinkedList)
    → contains xs x ≡ false
    → Holds l xs
    → Holds (push_back x l) (xs ++ x ∷ [])
push_back-Holds x [] l out h = push_back-nil x l h
push_back-Holds x (y ∷ ys) l out h =
    let (z, e) = last-cons y ys in
    rw (push_back_eq x z l (h.tail ∙ e)) (linked-Holds x y z ys l out e h)

-- `popFront` takes the first node, however often the exchange fails, and nothing from the empty
-- list.
pop_front_loop_lem :
    (fails : ℕ) (x : Node) (l : LinkedList)
    → l.head ≡ some x
    → pop_front_loop fails x (l.next x) l ≡ some (x, l.next x)
unfolding pop_front_loop
pop_front_loop_lem zero x l e = refl
pop_front_loop_lem (suc fails) x l e = rw (e, pop_front_loop) (pop_front_loop_lem fails x l e)

abbrev unlinked : (x : Node) → LinkedList → LinkedList
unlinked x l = record {
  next = l.next;
  head = l.next x;
  tail = if is_some (l.next x) then l.tail else none;
  size = (l.size + (u64_mod - 1)) % u64_mod;
}

pop_front_eq :
    (fails : ℕ) (x : Node) (l : LinkedList)
    → l.head ≡ some x
    → pop_front fails l ≡ (some x, unlinked x l)
unfolding pop_front
pop_front_eq fails x l e = ground (arith, pop_front_loop_lem fails x l e)

pop_front-nil : (fails : ℕ) (l : LinkedList) → l.head ≡ none → pop_front fails l ≡ (none, l)
unfolding pop_front
pop_front-nil fails l e = ground arith

unlinked-Holds :
    (x : Node) (xs : List Node) (l : LinkedList) → Holds l (x ∷ xs) → Holds (unlinked x l) xs
unlinked-Holds x [] l h = ground arith
unlinked-Holds x (y ∷ ys) l h = record {
  chain = h.chain.1;
  tail = ground (arith, h.chain.1, h.tail);
  size = omega (arith, h.size);
  distinct = h.distinct.1;
}

-- What `popFront` returns and leaves.
abbrev pub Popped : List Node → Option Node × LinkedList → Type 0
Popped [] (r, l) = (r ≡ none) × Holds l []
Popped (x ∷ xs) (r, l) = (r ≡ some x) × Holds l xs

pub pop_front-Popped :
    (fails : ℕ) (xs : List Node) (l : LinkedList) → Holds l xs → Popped xs (pop_front fails l)
pop_front-Popped fails [] l h = rw (pop_front-nil fails l h.chain) (refl, h)
pop_front-Popped fails (x ∷ xs) l h =
    rw (pop_front_eq fails x l h.chain.0) (refl, unlinked-Holds x xs l h)

push_front_loop_lem :
    (fails : ℕ) (x : Node) (l : LinkedList)
    → l.next x ≡ l.head
    → (m : Node)
    → ((push_front_loop fails x l).next m ≡ l.next m)
      × ((push_front_loop fails x l).head ≡ some x)
      × ((push_front_loop fails x l).tail ≡ l.tail)
      × ((push_front_loop fails x l).size ≡ l.size)
unfolding push_front_loop
push_front_loop_lem zero x l e m = (refl, refl, refl, refl)
push_front_loop_lem (suc fails) x l e m =
    let l' = record l { next = set_next l.next x l.head } in
    ground (
      arith,
      set_next_lem l.next x x l.head,
      set_next_lem l.next x m l.head,
      push_front_loop_lem fails x l' (ground (arith, set_next_lem l.next x x l.head)) m,
    )

record PushedFront (x : Node) (l l' : LinkedList) : Type 0 where
  next : (m : Node) → l'.next m ≡ (if x == m then l.head else l.next m)
  head : l'.head ≡ some x
  tail : l'.tail ≡ (if is_some l.head then l.tail else some x)
  size : l'.size ≡ (l.size + 1) % u64_mod

push_front-PushedFront :
    (fails : ℕ) (x : Node) (l : LinkedList) → PushedFront x l (push_front fails x l)
unfolding push_front
push_front-PushedFront fails x l =
    let l' = record l { next = set_next l.next x l.head } in
    let at = λ (m : Node). set_next_lem l.next x m l.head in
    let links : l'.next x ≡ l'.head = ground (arith, at x) in
    let facts = push_front_loop_lem fails x l' links in
    record {
      next = λ m. ground (arith, facts m, at m);
      head = ground (arith, facts x);
      tail = ground (arith, facts x, at x);
      size = ground (arith, facts x);
    }

front_tail :
    (x : Node) (xs : List Node) (l : LinkedList)
    → Holds l xs
    → (if is_some l.head then l.tail else some x) ≡ last (x ∷ xs)
front_tail x [] l h = ground arith
front_tail x (y ∷ ys) l h = ground (arith, h.chain.0, h.tail)

-- `pushFront` of a node that is not in the list puts it in front, however often the exchange fails.
pub push_front-Holds :
    (fails : ℕ) (x : Node) (xs : List Node) (l : LinkedList)
    → contains xs x ≡ false
    → Holds l xs
    → Holds (push_front fails x l) (x ∷ xs)
push_front-Holds fails x xs l out h =
    let p = push_front-PushedFront fails x l in
    let to_head : (push_front fails x l).next x ≡ l.head = ground (arith, p.next x) in
    record {
      chain = (
        p.head,
        rw to_head (
            Chain-outside l.next (push_front fails x l).next l.head xs
              (λ m i. ground (arith, p.next m)) h.chain),
      );
      tail = p.tail ∙ front_tail x xs l h;
      size = omega (arith, p.size, h.size);
      distinct = (out, h.distinct);
    }
