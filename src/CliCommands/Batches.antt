-- ===== src/CliCommands/Batches.antt =====
-- `batchProcess` of CLICommands.cpp: each batch of the items is handled by a thread, and the threads
-- append what they have handled in the order in which they finish.
use mathlib.Core.List.{Perm, flatten}
use axon_queue.Prelude.{
  ℕ, zero, suc, ◌≤◌, ◌≡◌, refl, ap, subst, ◌∙◌, List, [], ◌∷◌, ◌++◌, arith, length, Perm-flatten,
}

module _ {ℓ} {A : Type ℓ} where
  abbrev take : ℕ → List A → List A
  take zero xs = []
  take (suc n) [] = []
  take (suc n) (x ∷ xs) = x ∷ take n xs

  abbrev drop : ℕ → List A → List A
  drop zero xs = xs
  drop (suc n) [] = []
  drop (suc n) (x ∷ xs) = drop n xs

  take-drop : (n : ℕ) (xs : List A) → take n xs ++ drop n xs ≡ xs
  take-drop zero xs = refl
  take-drop (suc n) [] = refl
  take-drop (suc n) (x ∷ xs) = ap (λ ys. x ∷ ys) (take-drop n xs)

  length-drop : (n : ℕ) (xs : List A) → length (drop n xs) ≤ length xs
  length-drop zero xs = omega arith
  length-drop (suc n) [] = omega arith
  length-drop (suc n) (x ∷ xs) = omega (arith, length-drop n xs)

  -- The loop `for (i = 0; i < items.size(); i += batch_size)`, on fuel.
  unfoldable pub batches : ℕ → (batch_size : ℕ) → List A → List (List A)
  batches zero batch_size xs = []
  batches (suc n) batch_size [] = []
  batches (suc n) batch_size (x ∷ xs) =
      take batch_size (x ∷ xs) ∷ batches n batch_size (drop batch_size (x ∷ xs))

  -- `finished` puts the batches in the order in which their threads finish.
  unfoldable pub batch_process :
      (finished : List (List A) → List (List A)) → (batch_size : ℕ) → List A → List A
  unfolding batches
  batch_process finished batch_size items =
      flatten (finished (batches (length items) batch_size items))

  flatten-batches : (n k : ℕ) (xs : List A) → length xs ≤ n → flatten (batches n (suc k) xs) ≡ xs
  unfolding batches flatten
  flatten-batches zero k [] h = refl
  flatten-batches zero k (x ∷ xs) h = absurd (omega (arith, h))
  flatten-batches (suc n) k [] h = refl
  flatten-batches (suc n) k (x ∷ xs) h =
      ap (λ ys. x ∷ take k xs ++ ys)
        (flatten-batches n k (drop k xs) (omega (arith, h, length-drop k xs)))
      ∙ ap (λ ys. x ∷ ys) (take-drop k xs)

  -- If the batches are not empty, every item is handled exactly once, in whatever order the threads
  -- finish.
  pub batch_process_lem :
      (finished : List (List A) → List (List A)) (batch_size : ℕ) (items : List A)
      → 1 ≤ batch_size
      → Perm
          (finished (batches (length items) batch_size items))
          (batches (length items) batch_size items)
      → Perm (batch_process finished batch_size items) items
  unfolding batch_process
  batch_process_lem finished zero items low order = absurd (omega (arith, low))
  batch_process_lem finished (suc k) items low order =
      subst (Perm (batch_process finished (suc k) items))
        (flatten-batches (length items) k items (omega arith))
        (Perm-flatten (finished (batches (length items) (suc k) items))
          (batches (length items) (suc k) items) order)
