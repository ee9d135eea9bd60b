-- ===== src/Queues/IntrusiveList/Chain.antt =====
-- Chains of `next` pointers and the lists that they stand for.
use axon_queue.Prelude.{
  ℕ, ◌≡◌, ◌≢◌, refl, sym, ◌∙◌, true, false, ◌||◌, Option, none, some, List, [], ◌∷◌, ◌++◌, arith,
  ◌==◌, nat_eq, ==_refl,
}
use axon_queue.Prelude.IdSet.{contains}

abbrev pub Node : Type 0
Node = ℕ

-- From `p` the pointers lead through `xs` to the null pointer.
abbrev pub Chain : (Node → Option Node) → Option Node → List Node → Type 0
Chain next p [] = p ≡ none
Chain next p (x ∷ xs) = (p ≡ some x) × Chain next (next x) xs

abbrev pub Distinct : List Node → Type 0
Distinct [] = Unit
Distinct (x ∷ xs) = (contains xs x ≡ false) × Distinct xs

abbrev pub last : List Node → Option Node
last [] = none
last (x ∷ []) = some x
last (x ∷ y ∷ xs) = last (y ∷ xs)

-- A chain does not see a store to a node outside it.
pub Chain-outside :
    (next next' : Node → Option Node) (p : Option Node) (xs : List Node)
    → ((m : Node) → contains xs m ≡ true → next' m ≡ next m)
    → Chain next p xs
    → Chain next' p xs
unfolding contains
Chain-outside next next' p [] same c = c
Chain-outside next next' p (x ∷ xs) same (e, c) = (
  e,
  rw (same x (ground (arith, ==_refl x)))
      (Chain-outside next next' (next x) xs (λ m h. same m (ground arith)) c),
)

pub contains-last : (xs : List Node) (m : Node) → last xs ≡ some m → contains xs m ≡ true
unfolding contains
contains-last [] m h = cc
contains-last (x ∷ []) m h = ground arith
contains-last (x ∷ y ∷ xs) m h = ground (arith, contains-last (y ∷ xs) m)

pub last-cons : (x : Node) (xs : List Node) → (z : Node) × (last (x ∷ xs) ≡ some z)
last-cons x [] = (x, refl)
last-cons x (y ∷ xs) = last-cons y xs

pub last-snoc : (xs : List Node) (x : Node) → last (xs ++ x ∷ []) ≡ some x
last-snoc [] x = refl
last-snoc (y ∷ []) x = refl
last-snoc (y ∷ z ∷ xs) x = last-snoc (z ∷ xs) x

pub contains-snoc :
    (xs : List Node) (x m : Node) → contains (xs ++ x ∷ []) m ≡ (contains xs m || x == m)
unfolding contains
contains-snoc [] x m = ground arith
contains-snoc (y ∷ xs) x m = ground (arith, contains-snoc xs x m)

pub Distinct-snoc :
    (xs : List Node) (x : Node) → contains xs x ≡ false → Distinct xs → Distinct (xs ++ x ∷ [])
unfolding contains
Distinct-snoc [] x h d = (refl, tt)
Distinct-snoc (y ∷ xs) x h d =
    (ground (arith, contains-snoc xs x y), Distinct-snoc xs x (ground arith) d.1)

-- The last node of a chain points to null; let it point to `x`, and `x` to null.
pub Chain-snoc :
    (next next' : Node → Option Node) (p : Option Node) (y : Node) (ys : List Node) (x : Node)
    → ((m : Node) → contains (y ∷ ys) m ≡ true → last (y ∷ ys) ≢ some m → next' m ≡ next m)
    → ((m : Node) → last (y ∷ ys) ≡ some m → next' m ≡ some x)
    → next' x ≡ none
    → Distinct (y ∷ ys)
    → Chain next p (y ∷ ys)
    → Chain next' p ((y ∷ ys) ++ x ∷ [])
unfolding contains
Chain-snoc next next' p y [] x same ends null d (e, c) = (e, (ends y refl, null))
Chain-snoc next next' p y (z ∷ zs) x same ends null d (e, c) = (
  e,
  rw (same y (ground (arith, ==_refl y)) (λ l. cc (sym d.0 ∙ contains-last (z ∷ zs) y l)))
      (Chain-snoc next next' (next y) z zs x (λ m h. same m (ground arith)) ends null d.1 c),
)
