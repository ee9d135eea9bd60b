-- ===== src/Prelude/IdSet.antt =====
-- `std::unordered_set` of ids as a list; the order stands for the order of iteration.
use mathlib.Core.Path.{◌≡◌, refl}
use mathlib.Core.Bool.{Bool, false, not, ◌&&◌, ◌||◌}
use mathlib.Core.List.{List, [], ◌∷◌}
use native.Mathlib.Omega.{arith}
use axon_queue.Prelude.Tests.{HasEq, ◌==◌, if◌then◌else◌}

module _ {ℓ} {K : Type ℓ} ⦃e : HasEq K⦄ where
  unfoldable pub contains : List K → K → Bool
  contains [] a = false
  contains (x ∷ xs) a = x == a || contains xs a

  unfoldable pub insert : K → List K → List K
  insert a [] = a ∷ []
  insert a (x ∷ xs) = if x == a then x ∷ xs else x ∷ insert a xs

  unfoldable pub remove : K → List K → List K
  remove a [] = []
  remove a (x ∷ xs) = if x == a then remove a xs else x ∷ remove a xs

  pub contains-insert :
      (a b : K) (xs : List K) → contains (insert a xs) b ≡ (a == b || contains xs b)
  unfolding contains insert
  contains-insert a b [] = refl
  contains-insert a b (x ∷ xs) =
      ground (arith, e.agrees a b, e.agrees x a, e.agrees x b, contains-insert a b xs)

  pub contains-remove :
      (a b : K) (xs : List K) → contains (remove a xs) b ≡ (not (a == b) && contains xs b)
  unfolding contains remove
  contains-remove a b [] = ground arith
  contains-remove a b (x ∷ xs) =
      ground (arith, e.agrees a b, e.agrees x a, e.agrees x b, contains-remove a b xs)
