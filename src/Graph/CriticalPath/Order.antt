-- ===== src/Graph/CriticalPath/Order.antt =====
-- The topological sort of `findCriticalPath` ends: an id enters the queue when its degree falls to
-- zero, which it does once.
use axon_queue.Prelude.{
  ℕ, zero, suc, ◌+◌, ◌≤◌, ◌<◌, ◌≡◌, refl, ap, Bool, true, false, some, List, [], ◌∷◌, nat_eq, arith,
  if◌then◌else◌, length, length-append, is_some, ◌==◌, inl, inr, Bool-cases,
}
use axon_queue.Prelude.Dict.{find, put, find_or}
use axon_queue.Task.{TaskId}
use axon_queue.Graph.{Graph, targets}
use axon_queue.Graph.Walk.{names}
use axon_queue.Graph.CriticalPath.{
  ℤ, pos, negsuc, increment, decrement, is_zero, Degrees, degree, count_all, in_degrees, push_zeros,
  lower_all, sort_loop, path_fuel, topological_order,
}

abbrev one_if : Bool → ℕ
one_if true = 1
one_if false = 0

abbrev is_positive : ℤ → Bool
is_positive (pos zero) = false
is_positive (pos (suc n)) = true
is_positive (negsuc n) = false

-- The ids whose degree can still fall to zero.
abbrev positives : Degrees → ℕ
positives [] = 0
positives ((id, d) ∷ m) = one_if (is_positive d) + positives m

positives-put :
    (id : TaskId) (d : ℤ) (m : Degrees)
    → positives (put id d m) + one_if (is_positive (degree id m))
      ≡ positives m + one_if (is_positive d)
unfolding put find_or find
positives-put id d [] = omega arith
positives-put id d ((k, c) ∷ m) = elim (Bool-cases (k == id)) [
  | inl same ↦
      let e : degree id ((k, c) ∷ m) ≡ c = ground (arith, same) in
      rw same (omega (arith, ap (λ x. one_if (is_positive x)) e))
  | inr other ↦
      let e : degree id ((k, c) ∷ m) ≡ degree id m = ground (arith, other) in
      rw other (omega (arith, positives-put id d m, ap (λ x. one_if (is_positive x)) e))
]

-- A degree that falls to zero was positive.
decrement_lem :
    (d : ℤ)
    → one_if (is_positive (decrement d)) + one_if (is_zero (decrement d)) ≤ one_if (is_positive d)
decrement_lem (pos zero) = omega arith
decrement_lem (pos (suc zero)) = omega arith
decrement_lem (pos (suc (suc n))) = omega arith
decrement_lem (negsuc n) = omega arith

length-if :
    (b : Bool) (id : TaskId) (queue : List TaskId)
    → length (if b then id ∷ queue else queue) ≡ one_if b + length queue
length-if true id queue = omega arith
length-if false id queue = omega arith

lower_all_lem :
    (ns : List TaskId) (m : Degrees) (queue : List TaskId)
    → length (lower_all ns m queue).1 + positives (lower_all ns m queue).0
      ≤ length queue + positives m
unfolding lower_all
lower_all_lem [] m queue = omega arith
lower_all_lem (n ∷ ns) m queue =
    let d = decrement (degree n m) in
    omega (
      arith,
      lower_all_lem ns (put n d m) (if is_zero d then n ∷ queue else queue),
      length-if (is_zero d) n queue,
      positives-put n d m,
      decrement_lem (degree n m),
    )

-- With more fuel than ids that are in the queue or can enter it, the loop ends.
sort_loop_ends :
    (fuel : ℕ) (g : Graph) (m : Degrees) (queue order : List TaskId)
    → length queue + positives m < fuel
    → (result : List TaskId) × (sort_loop fuel g m queue order ≡ some result)
unfolding sort_loop
sort_loop_ends zero g m queue order f = absurd (omega (arith, f))
sort_loop_ends (suc n) g m [] order f = (order, refl)
sort_loop_ends (suc n) g m (current ∷ queue) order f =
    let l = lower_all (targets current g) m queue in
    sort_loop_ends n g l.0 l.1 (current ∷ order)
      (omega (arith, f, lower_all_lem (targets current g) m queue))

zero_or_positive : (d : ℤ) → one_if (is_zero d) + one_if (is_positive d) ≤ 1
zero_or_positive (pos zero) = omega arith
zero_or_positive (pos (suc n)) = omega arith
zero_or_positive (negsuc n) = omega arith

push_zeros_lem :
    (m : Degrees) (queue : List TaskId)
    → length (push_zeros m queue) + positives m ≤ length queue + length m
unfolding push_zeros
push_zeros_lem [] queue = omega arith
push_zeros_lem ((id, d) ∷ m) queue = omega (
  arith,
  push_zeros_lem m (if is_zero d then id ∷ queue else queue),
  length-if (is_zero d) id queue,
  zero_or_positive d,
)

length-put : (id : TaskId) (d : ℤ) (m : Degrees) → length (put id d m) ≤ suc (length m)
unfolding put
length-put id d [] = omega arith
length-put id d ((k, c) ∷ m) = elim (Bool-cases (k == id)) [
  | inl same ↦ rw same (omega arith)
  | inr other ↦ rw other (omega (arith, length-put id d m))
]

length-count_all : (ds : List TaskId) (m : Degrees) → length (count_all ds m) ≤ length ds + length m
unfolding count_all
length-count_all [] m = omega arith
length-count_all (d ∷ ds) m =
    let m' = put d (increment (degree d m)) m in
    omega (arith, length-count_all ds m', length-put d (increment (degree d m)) m)

length-in_degrees :
    (g : Graph) (m : Degrees) → length (in_degrees g m) ≤ length (names g) + length m
unfolding in_degrees
length-in_degrees [] m = omega arith
length-in_degrees ((id, deps) ∷ g) m =
    let m' = if is_some (find id m) then m else put id (pos 0) m in
    let grown : length m' ≤ suc (length m) = ground (arith, length-put id (pos 0) m) in
    omega (
      arith,
      length-in_degrees g (count_all deps m'),
      length-count_all deps m',
      grown,
      length-append deps (names g),
    )

pub topological_order_ends :
    (g : Graph) → (order : List TaskId) × (topological_order g ≡ some order)
unfolding topological_order
topological_order_ends g =
    let m = in_degrees g [] in
    sort_loop_ends (path_fuel g) g m (push_zeros m []) []
      (omega (arith, push_zeros_lem m [], length-in_degrees g []))
