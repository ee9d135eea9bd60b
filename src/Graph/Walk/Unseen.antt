-- ===== src/Graph/Walk/Unseen.antt =====
-- The number of ids that a search has still to mark: what bounds the depth of its recursion.
use axon_queue.Prelude.{
  ℕ, suc, ◌≤◌, ◌<◌, ◌≡◌, refl, Bool, true, false, ◌||◌, List, [], ◌∷◌, ◌++◌, nat_eq, arith,
  if◌then◌else◌, length, All, ==_refl,
}
use axon_queue.Prelude.Dict.{find, find_or}
use axon_queue.Prelude.IdSet.{contains}
use axon_queue.Task.{TaskId}
use axon_queue.Graph.{Graph, Edge}
use axon_queue.Graph.Walk.{names}

-- The members of `us` that are not marked.
abbrev pub unseen : (TaskId → Bool) → List TaskId → ℕ
unseen mark [] = 0
unseen mark (u ∷ us) = if mark u then unseen mark us else suc (unseen mark us)

pub unseen-le-length : (mark : TaskId → Bool) (us : List TaskId) → unseen mark us ≤ length us
unseen-le-length mark [] = omega arith
unseen-le-length mark (u ∷ us) = ground (arith, unseen-le-length mark us)

-- More marks, fewer unseen.
pub unseen_mono :
    (mark mark' : TaskId → Bool) (us : List TaskId)
    → ((u : TaskId) → mark u ≡ true → mark' u ≡ true)
    → unseen mark' us ≤ unseen mark us
unseen_mono mark mark' [] h = omega arith
unseen_mono mark mark' (u ∷ us) h = ground (arith, h u, unseen_mono mark mark' us h)

-- A new mark on a member makes strictly fewer.
pub unseen-lt :
    (mark mark' : TaskId → Bool) (us : List TaskId) (x : TaskId)
    → ((u : TaskId) → mark u ≡ true → mark' u ≡ true)
    → contains us x ≡ true
    → mark x ≡ false
    → mark' x ≡ true
    → unseen mark' us < unseen mark us
unfolding contains
unseen-lt mark mark' [] x h i a b = cc
unseen-lt mark mark' (u ∷ us) x h i a b =
    ground (arith, h u, unseen-lt mark mark' us x h, unseen_mono mark mark' us h)

pub contains-append :
    (xs ys : List TaskId) (a : TaskId) → contains (xs ++ ys) a ≡ (contains xs a || contains ys a)
unfolding contains
contains-append [] ys a = refl
contains-append (x ∷ xs) ys a = ground (arith, contains-append xs ys a)

-- An edge ends at an id that the graph names.
pub names-target : (g : Graph) (u v : TaskId) → Edge g u v → contains (names g) v ≡ true
unfolding contains find_or find
names-target [] u v e = cc
names-target ((k, deps) ∷ g) u v e =
    ground (arith, contains-append deps (names g) v, names-target g u v)

pub names-key :
    (g : Graph) (k : TaskId) (deps : List TaskId) → contains (names ((k, deps) ∷ g)) k ≡ true
unfolding contains
names-key g k deps = ground arith

contains-All-tail :
    (x : TaskId) (xs ds : List TaskId)
    → All (λ d. contains xs d ≡ true) ds
    → All (λ d. contains (x ∷ xs) d ≡ true) ds
unfolding contains
contains-All-tail x xs [] h = tt
contains-All-tail x xs (d ∷ ds) h = (ground (arith, h.0), contains-All-tail x xs ds h.1)

-- Every member is a member.
pub All-contains : (xs : List TaskId) → All (λ d. contains xs d ≡ true) xs
unfolding contains
All-contains [] = tt
All-contains (x ∷ xs) = (rw (==_refl x) refl, contains-All-tail x xs xs (All-contains xs))
