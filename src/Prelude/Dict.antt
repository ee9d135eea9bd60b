-- ===== src/Prelude/Dict.antt =====
-- `std::unordered_map` as an association list. The order of the list stands for the order in
-- which the container is iterated; a new key is appended.
use mathlib.Core.Path.{◌≡◌, refl}
use mathlib.Core.Option.{Option, none, some}
use mathlib.Core.List.{List, [], ◌∷◌}
use native.Mathlib.Omega.{arith}
use axon_queue.Prelude.Tests.{HasEq, ◌==◌, if◌then◌else◌}

abbrev pub Dict {ℓ κ} : Type ℓ → Type κ → Type (ℓ ⊔ κ)
Dict K V = List (K × V)

module _ {ℓ κ} {K : Type ℓ} {V : Type κ} ⦃e : HasEq K⦄ where
  unfoldable pub find : K → Dict K V → Option V
  find k [] = none
  find k ((j, v) ∷ m) = if j == k then some v else find k m

  -- `m[k] = v`.
  unfoldable pub put : K → V → Dict K V → Dict K V
  put k v [] = (k, v) ∷ []
  put k v ((j, w) ∷ m) = if j == k then (j, v) ∷ m else (j, w) ∷ put k v m

  -- `m.erase(k)`.
  unfoldable pub erase : K → Dict K V → Dict K V
  erase k [] = []
  erase k ((j, w) ∷ m) = if j == k then erase k m else (j, w) ∷ erase k m

  -- The value under `k`, or what `operator[]` creates there.
  unfoldable pub find_or : V → K → Dict K V → V
  find_or d k m = elim (find k m) [ none ↦ d | some v ↦ v ]

  pub find-put :
      (k j : K) (v : V) (m : Dict K V) → find j (put k v m) ≡ (if k == j then some v else find j m)
  unfolding find put
  find-put k j v [] = refl
  find-put k j v ((i, w) ∷ m) =
      ground (arith, e.agrees k j, e.agrees i k, e.agrees i j, find-put k j v m)

  pub find-erase :
      (k j : K) (m : Dict K V) → find j (erase k m) ≡ (if k == j then none else find j m)
  unfolding find erase
  find-erase k j [] = ground arith
  find-erase k j ((i, w) ∷ m) =
      ground (arith, e.agrees k j, e.agrees i k, e.agrees i j, find-erase k j m)

  pub find_or-put :
      (d : V) (k j : K) (v : V) (m : Dict K V)
      → find_or d j (put k v m) ≡ (if k == j then v else find_or d j m)
  unfolding find_or
  find_or-put d k j v m = ground (arith, find-put k j v m)

  pub find_or-erase :
      (d : V) (k j : K) (m : Dict K V)
      → find_or d j (erase k m) ≡ (if k == j then d else find_or d j m)
  unfolding find_or
  find_or-erase d k j m = ground (arith, find-erase k j m)

  pub find_or-none : (d : V) (k : K) (m : Dict K V) → find k m ≡ none → find_or d k m ≡ d
  unfolding find_or
  find_or-none d k m e = rw (e, find_or)

  pub find_or-some : (d : V) (k : K) (v : V) (m : Dict K V) → find k m ≡ some v → find_or d k m ≡ v
  unfolding find_or
  find_or-some d k v m e = rw (e, find_or)
