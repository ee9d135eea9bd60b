-- ===== src/Queues/Family/Laws.antt =====
-- Adding to, taking from and draining a family of containers, as operations on all its elements.
use mathlib.Core.List.{Perm, perm_middle, map-append}
use mathlib.Core.List.Perm
use axon_queue.Prelude.{
  ℕ, ◌≡◌, refl, ap, subst, ◌∙◌, true, false, Option, none, some, List, [], ◌∷◌, ◌++◌, ◌==◌,
  string_eq, arith, ltb, Bool-cases, Option-cases, map, ap₂, inl, inr,
}
use axon_queue.Prelude.Dict.{find, put, find_or}
use axon_queue.Queues.Family.{
  Group, Family, insert_by, add, take_from, take_first, with_group, drain, elements,
}

pub insert_by-perm {ℓ} :
    {A : Type ℓ} (p : ℕ) (x : A) (ys : List (ℕ × A)) → Perm (insert_by p x ys) ((p, x) ∷ ys)
unfolding insert_by
insert_by-perm p x [] = Perm.refl _
insert_by-perm p x ((q, y) ∷ ys) = elim (Bool-cases (ltb p q)) [
  | inl higher ↦
      rw higher (Perm.trans (Perm.cons (q, y) (insert_by-perm p x ys)) (Perm.swap (p, x) (q, y) ys))
  | inr ne ↦ rw ne (Perm.refl _)
]

module _ {ℓ} {A : Type ℓ} where
  find_or-here :
      (group k : Group) (ys : List A) (m : Family A)
      → (k == group) ≡ true
      → find_or [] group ((k, ys) ∷ m) ≡ ys
  unfolding find_or find
  find_or-here group k ys m e = rw (e, find_or)

  find_or-there :
      (group k : Group) (ys : List A) (m : Family A)
      → (k == group) ≡ false
      → find_or [] group ((k, ys) ∷ m) ≡ find_or [] group m
  unfolding find_or find
  find_or-there group k ys m e = rw (e, find_or)

  -- A container that gains `x` makes the family gain `x`.
  put-perm :
      (group : Group) (x : A) (xs : List A) (m : Family A)
      → Perm xs (x ∷ find_or [] group m)
      → Perm (elements (put group xs m)) (x ∷ elements m)
  unfolding put find_or find
  put-perm group x xs [] h = Perm.append_right [] h
  put-perm group x xs ((k, ys) ∷ m) h = elim (Bool-cases (k == group)) [
    | inl same ↦ rw same (
        Perm.append_right (elements m)
          (subst (λ d. Perm xs (x ∷ d)) (find_or-here group k ys m same) h))
    | inr ne ↦ rw ne (
        Perm.trans
          (Perm.append_left ys (
            put-perm group x xs m (subst (λ d. Perm xs (x ∷ d)) (find_or-there group k ys m ne) h)))
          (perm_middle ys (elements m)))
  ]

  pub add-perm :
      (place : List A → List A) (group : Group) (x : A) (m : Family A)
      → ((xs : List A) → Perm (place xs) (x ∷ xs))
      → Perm (elements (add place group m)) (x ∷ elements m)
  unfolding add
  add-perm place group x m h = put-perm group x _ m (h (find_or [] group m))

  -- A container that loses its first element makes the family lose it.
  put-rest-perm :
      (group : Group) (x : A) (xs : List A) (m : Family A)
      → find group m ≡ some (x ∷ xs)
      → Perm (elements m) (x ∷ elements (put group xs m))
  unfolding put find
  put-rest-perm group x xs [] e = cc
  put-rest-perm group x xs ((k, ys) ∷ m) e = elim (Bool-cases (k == group)) [
    | inl same ↦
        let front : x ∷ xs ≡ ys = ground arith in
        rw same (subst (λ d. Perm (d ++ elements m) (x ∷ xs ++ elements m)) front (Perm.refl _))
    | inr ne ↦ rw ne (
        Perm.trans (Perm.append_left ys (put-rest-perm group x xs m (ground arith)))
          (perm_middle ys (elements (put group xs m))))
  ]

  -- What a call that takes an element does to the elements.
  abbrev pub Takes : Family A → Option A → Family A → Type ℓ
  Takes m none m' = m' ≡ m
  Takes m (some x) m' = Perm (elements m) (x ∷ elements m')

  pub take_from-Takes :
      (group : Group) (m : Family A) → Takes m (take_from group m).0 (take_from group m).1
  unfolding take_from
  take_from-Takes group m = elim (Option-cases (find group m)) [
    | inl absent ↦ rw (absent, take_from) refl
    | inr ([], e) ↦ rw (e, take_from) refl
    | inr (x ∷ xs, e) ↦ rw (e, take_from) (put-rest-perm group x xs m e)
  ]

  pub take_first-Takes :
      (ks : List Group) (m : Family A) → Takes m (take_first ks m).0 (take_first ks m).1
  unfolding take_first
  take_first-Takes [] m = refl
  take_first-Takes (k ∷ ks) m = elim (Option-cases (take_from k m).0) [
    | inl nothing ↦ rw (nothing, take_first) (take_first-Takes ks m)
    | inr (x, e) ↦ rw (e, take_first) (take_from-Takes k m)
  ]

  -- Draining keeps every element, in order.
  map-with_group : (k : Group) (xs : List A) → map (λ p. p.1) (with_group k xs) ≡ xs
  map-with_group k [] = refl
  map-with_group k (x ∷ xs) = ap (◌∷◌ x) (map-with_group k xs)

  pub drain-elements : (m : Family A) → map (λ p. p.1) (drain m) ≡ elements m
  unfolding drain
  drain-elements [] = refl
  drain-elements ((k, xs) ∷ m) =
      map-append (λ p. p.1) (with_group k xs) (drain m)
      ∙ ap₂ ◌++◌ (map-with_group k xs) (drain-elements m)
