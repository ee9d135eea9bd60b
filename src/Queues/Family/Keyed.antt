-- ===== src/Queues/Family/Keyed.antt =====
-- The maps of Queues/Family with one container for each group: the loops of `dequeue` and `peek`
-- over the groups, and what changes a map.
use axon_queue.Prelude.{
  ◌≡◌, ◌≢◌, refl, sym, ap, ap₂, ◌||◌, ◌∙◌, inl, inr, true, false, Option, none, some, List, [], ◌∷◌,
  arith, ◌==◌, string_eq, ==_refl, Bool-cases, Option-cases, nat_eq,
}
use axon_queue.Prelude.Dict.{find, put}
use axon_queue.Prelude.IdSet.{contains}
use axon_queue.Queues.Family.{Group, Family, take_from, take_first, peek_first, groups}

other_name : (k j : Group) (ks : List Group) → contains (j ∷ ks) k ≡ false → k ≢ j
unfolding contains
other_name k j ks h = ground (arith, string_eq.agrees j k)

rest_names : (k j : Group) (ks : List Group) → contains (j ∷ ks) k ≡ false → contains ks k ≡ false
unfolding contains
rest_names k j ks h = ground arith

pub distinct_names :
    (k j : Group) (ks : List Group) → contains ks k ≡ false → contains ks j ≡ true → k ≢ j
distinct_names k j ks h c e = cc

module _ {ℓ} {A : Type ℓ} where
  -- No group has two containers.
  abbrev pub IsKeyed : Family A → Type 0
  IsKeyed [] = Unit
  IsKeyed ((k, xs) ∷ m) = (contains (groups m) k ≡ false) × IsKeyed m

  pub take_from_other :
      (k j : Group) (xs : List A) (m : Family A)
      → k ≢ j
      → (take_from j ((k, xs) ∷ m)).0 ≡ (take_from j m).0
  unfolding take_from find
  take_from_other k j xs m n = ground (arith, string_eq.agrees k j)

  abbrev or_else : Option A → Option A → Option A
  or_else none b = b
  or_else (some a) b = some a

  take_first_or :
      (j : Group) (ks : List Group) (m : Family A)
      → (take_first (j ∷ ks) m).0 ≡ or_else (take_from j m).0 (take_first ks m).0
  unfolding take_first
  take_first_or j ks m = elim (Option-cases (take_from j m).0) [
    | inl e ↦ rw (e, take_first) refl
    | inr (x, e) ↦ rw (e, take_first) e
  ]

  take_first_other :
      (k : Group) (xs : List A) (ks : List Group) (m : Family A)
      → contains ks k ≡ false
      → (take_first ks ((k, xs) ∷ m)).0 ≡ (take_first ks m).0
  unfolding take_first
  take_first_other k xs [] m h = refl
  take_first_other k xs (j ∷ ks) m h =
      take_first_or j ks ((k, xs) ∷ m)
      ∙ (ap₂ or_else (take_from_other k j xs m (other_name k j ks h))
            (take_first_other k xs ks m (rest_names k j ks h))
          ∙ sym (take_first_or j ks m))

  pub take_from_self :
      (k : Group) (xs : List A) (m : Family A)
      → (take_from k ((k, xs) ∷ m)).0 ≡ elim xs [ [] ↦ none | x ∷ rest ↦ some x ]
  unfolding take_from find
  take_from_self k [] m = rw (==_refl k, take_from) refl
  take_from_self k (x ∷ xs) m = rw (==_refl k, take_from) refl

  -- The loop of `dequeue` takes the task that the loop of `peek` shows.
  pub peek_first_lem : (m : Family A) → IsKeyed m → (take_first (groups m) m).0 ≡ peek_first m
  unfolding take_first peek_first
  peek_first_lem [] h = refl
  peek_first_lem ((k, []) ∷ m) h =
      take_first_or k (groups m) ((k, []) ∷ m)
      ∙ (ap₂ or_else (take_from_self k [] m) (take_first_other k [] (groups m) m h.0)
          ∙ peek_first_lem m h.1)
  peek_first_lem ((k, x ∷ xs) ∷ m) h =
      take_first_or k (groups m) ((k, x ∷ xs) ∷ m)
      ∙ ap (λ o. or_else o (take_first (groups m) ((k, x ∷ xs) ∷ m)).0)
          (take_from_self k (x ∷ xs) m)

module _ {ℓ} {A : Type ℓ} where
  names-put :
      (k j : Group) (xs : List A) (m : Family A)
      → contains (groups (put k xs m)) j ≡ (contains (groups m) j || (k == j))
  unfolding put contains
  names-put k j xs [] = ground arith
  names-put k j xs ((i, ys) ∷ m) =
      ground (
        arith,
        string_eq.agrees i k,
        string_eq.agrees i j,
        string_eq.agrees k j,
        names-put k j xs m,
      )

  put-IsKeyed : (k : Group) (xs : List A) (m : Family A) → IsKeyed m → IsKeyed (put k xs m)
  unfolding put contains
  put-IsKeyed k xs [] h = (refl, tt)
  put-IsKeyed k xs ((i, ys) ∷ m) h = elim (Bool-cases (i == k)) [
    | inl e ↦ rw e h
    | inr e ↦ rw e (
      ground (arith, names-put k i xs m, h.0, e, string_eq.agrees i k, string_eq.agrees k i),
      put-IsKeyed k xs m h.1,
    )
  ]

  -- One container for each group, and none for the group without a name.
  abbrev pub IsProper : Family A → Type 0
  IsProper m = IsKeyed m × (contains (groups m) "" ≡ false)

  pub put-IsProper :
      (k : Group) (xs : List A) (m : Family A) → k ≢ "" → IsProper m → IsProper (put k xs m)
  put-IsProper k xs m n h =
      (put-IsKeyed k xs m h.0, ground (arith, names-put k "" xs m, h.1, string_eq.agrees k ""))

  find-name :
      (k : Group) (xs : List A) (m : Family A) → find k m ≡ some xs → contains (groups m) k ≡ true
  unfolding find contains
  find-name k xs [] e = cc
  find-name k xs ((i, ys) ∷ m) e = ground (arith, find-name k xs m)

  pub take_from-IsProper : (k : Group) (m : Family A) → IsProper m → IsProper (take_from k m).1
  unfolding take_from
  take_from-IsProper k m h = elim (Option-cases (find k m)) [
    | inl e ↦ rw (e, take_from) h
    | inr ([], e) ↦ rw (e, take_from) h
    | inr (x ∷ xs, e) ↦
        rw (e, take_from)
          (put-IsProper k xs m
            (λ f. distinct_names "" k (groups m) h.1 (find-name k (x ∷ xs) m e) (sym f)) h)
  ]

  pub take_first-IsProper :
      (ks : List Group) (m : Family A) → IsProper m → IsProper (take_first ks m).1
  unfolding take_first
  take_first-IsProper [] m h = h
  take_first-IsProper (k ∷ ks) m h = elim (Option-cases (take_from k m).0) [
    | inl e ↦ rw (e, take_first) (take_first-IsProper ks m h)
    | inr (x, e) ↦ rw (e, take_first) (take_from-IsProper k m h)
  ]
