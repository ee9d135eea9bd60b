-- ===== src/QueueManager/Highest.antt =====
-- The loop over the priority queues in `dequeue` and `peek` of QueueManager.cpp.
use axon_queue.Prelude.{
  ℕ, ◌≤◌, ◌≡◌, refl, sym, ap, subst, ◌∙◌, ◌⊎◌, inl, inr, true, false, Option, none, some, List, [],
  ◌∷◌, arith, string_eq, ==_refl, if◌then◌else◌, ltb, Bool-cases, nat_eq,
}
use axon_queue.Prelude.IdSet.{contains}
use axon_queue.Task.{Task, TaskPtr}
use axon_queue.Queues.Family.{Group, Family, take_from, groups}
use axon_queue.Queues.Family.Keyed.{IsKeyed, distinct_names, take_from_other, take_from_self}
use axon_queue.QueueManager.{highest, task_of}

-- A priority that no first element of the containers exceeds.
abbrev pub BoundsFirsts : (TaskPtr → Task) → ℕ → Family (ℕ × TaskPtr) → Type 0
BoundsFirsts tasks top [] = Unit
BoundsFirsts tasks top ((k, []) ∷ m) = BoundsFirsts tasks top m
BoundsFirsts tasks top ((k, (q, p) ∷ rest) ∷ m) =
    ((tasks p).priority ≤ top) × BoundsFirsts tasks top m

abbrev Best : Type 0
Best = ℕ × Group × Option TaskPtr

module _ (tasks : TaskPtr → Task) where
  -- One step of the loop over the containers.
  abbrev better : Group → TaskPtr → Best → Best
  better k p (top, selected, task) =
      if ltb top (tasks p).priority then ((tasks p).priority, k, some p) else (top, selected, task)

  better_top : (k : Group) (p : TaskPtr) (b : Best) → b.0 ≤ (better k p b).0
  better_top k p b = ground arith

  better_bound : (k : Group) (p : TaskPtr) (b : Best) → (tasks p).priority ≤ (better k p b).0
  better_bound k p b = ground arith

  highest_top : (m : Family (ℕ × TaskPtr)) (b : Best) → b.0 ≤ (highest tasks m b).0
  unfolding highest
  highest_top [] b = omega arith
  highest_top ((k, []) ∷ m) b = highest_top m b
  highest_top ((k, (q, p) ∷ rest) ∷ m) b =
      omega (arith, better_top k p b, highest_top m (better k p b))

  pub highest-BoundsFirsts :
      (m : Family (ℕ × TaskPtr)) (b : Best) → BoundsFirsts tasks (highest tasks m b).0 m
  unfolding highest
  highest-BoundsFirsts [] b = tt
  highest-BoundsFirsts ((k, []) ∷ m) b = highest-BoundsFirsts m b
  highest-BoundsFirsts ((k, (q, p) ∷ rest) ∷ m) b = (
    omega (arith, better_bound k p b, highest_top m (better k p b)),
    highest-BoundsFirsts m (better k p b),
  )

  -- The priority of the best task so far, the lowest one if there is none.
  abbrev pub value : Option TaskPtr → ℕ
  value none = 0
  value (some p) = (tasks p).priority

  better-value :
      (k : Group) (p : TaskPtr) (b : Best)
      → b.0 ≡ value b.2
      → (better k p b).0 ≡ value (better k p b).2
  better-value k p b h = elim (Bool-cases (ltb b.0 (tasks p).priority)) [
    | inl e ↦ rw e refl
    | inr e ↦ rw e h
  ]

  pub highest-value :
      (m : Family (ℕ × TaskPtr)) (b : Best)
      → b.0 ≡ value b.2
      → (highest tasks m b).0 ≡ value (highest tasks m b).2
  unfolding highest
  highest-value [] b h = h
  highest-value ((k, []) ∷ m) b h = highest-value m b h
  highest-value ((k, (q, p) ∷ rest) ∷ m) b h = highest-value m (better k p b) (better-value k p b h)

  -- The loop leaves its start, or the group and the first task of a container.
  abbrev Selects : Family (ℕ × TaskPtr) → Best → Best → Type 0
  Selects m b r = (r ≡ b) ⊎ ((contains (groups m) r.1 ≡ true) × (task_of (take_from r.1 m).0 ≡ r.2))

  Selects-tail :
      (k : Group) (xs : List (ℕ × TaskPtr)) (m : Family (ℕ × TaskPtr)) (r : Best)
      → contains (groups m) k ≡ false
      → contains (groups m) r.1 ≡ true
      → task_of (take_from r.1 m).0 ≡ r.2
      → (contains (groups ((k, xs) ∷ m)) r.1 ≡ true)
        × (task_of (take_from r.1 ((k, xs) ∷ m)).0 ≡ r.2)
  unfolding contains
  Selects-tail k xs m r h c t = (
    ground arith,
    ap task_of (take_from_other k r.1 xs m (distinct_names k r.1 (groups m) h c)) ∙ t,
  )

  abbrev Selected : Family (ℕ × TaskPtr) → Best → Type 0
  Selected m r = (contains (groups m) r.1 ≡ true) × (task_of (take_from r.1 m).0 ≡ r.2)

  head-Selected :
      (k : Group) (q : ℕ) (p : TaskPtr) (rest : List (ℕ × TaskPtr)) (m : Family (ℕ × TaskPtr))
      → Selected ((k, (q, p) ∷ rest) ∷ m) ((tasks p).priority, k, some p)
  unfolding contains
  head-Selected k q p rest m =
      (rw (==_refl k) refl, ap task_of (take_from_self k ((q, p) ∷ rest) m))

  better_cases :
      (k : Group) (p : TaskPtr) (b : Best)
      → (better k p b ≡ b) ⊎ (better k p b ≡ ((tasks p).priority, k, some p))
  better_cases k p b = elim (Bool-cases (ltb b.0 (tasks p).priority)) [
    | inl e ↦ inr (rw e refl)
    | inr e ↦ inl (rw e refl)
  ]

  pub highest-Selects :
      (m : Family (ℕ × TaskPtr)) (b : Best) → IsKeyed m → Selects m b (highest tasks m b)
  unfolding highest
  highest-Selects [] b h = inl refl
  highest-Selects ((k, []) ∷ m) b h = elim (highest-Selects m b h.1) [
    | inl e ↦ inl e
    | inr (c, t) ↦ inr (Selects-tail k [] m (highest tasks m b) h.0 c t)
  ]
  highest-Selects ((k, (q, p) ∷ rest) ∷ m) b h = elim (highest-Selects m (better k p b) h.1) [
    | inl e ↦ elim (better_cases k p b) [
      | inl same ↦ inl (e ∙ same)
      | inr new ↦
          inr
            (subst (Selected ((k, (q, p) ∷ rest) ∷ m)) (sym (e ∙ new)) (head-Selected k q p rest m))
    ]
    | inr (c, t) ↦ inr (Selects-tail k ((q, p) ∷ rest) m (highest tasks m (better k p b)) h.0 c t)
  ]
