-- ===== src/Graph/Levels/Correct.antt =====
-- `calculateTaskLevels` on a graph without a cycle.
use axon_queue.Prelude.{
  ℕ, zero, suc, ◌<◌, ◌≡◌, refl, sym, ap, subst, ◌∙◌, true, Option, some, List, [], ◌∷◌, arith,
  nat_eq, ◌==◌, All, inl, inr, Option-cases, Bool-cases, is_some, ==_refl,
}
use axon_queue.Prelude.Dict.{find, put, find-put, find_or-some}
use axon_queue.Prelude.IdSet.{contains}
use axon_queue.Task.{TaskId}
use axon_queue.Graph.{Graph, Edge, targets}
use axon_queue.Graph.Walk.{Reach, here, step, names, IsCyclic}
use axon_queue.Graph.Walk.Unseen.{unseen, unseen-lt, unseen-le-length, names-target, All-contains}
use axon_queue.Graph.Cycle.{keys}
use axon_queue.Graph.Cycle.Correct.{keys-names}
use axon_queue.Graph.Levels.{
  Levels, max, calc_all, set_level, calc_level, calc_keys, levels_fuel, calculate_task_levels,
}
use axon_queue.Graph.Levels.Known.{above, AreKnown, Extends, AreLevels, put-Extends, put-AreLevels}

module _ (g : Graph) where
  -- `calcLevel` returns the level of the id, and all that is stored are levels.
  abbrev Calculated : TaskId → Levels → Option (ℕ × Levels) → Type 0
  Calculated id l o =
      (n : ℕ) × (l' : Levels) × (o ≡ some (n, l'))
      × (find id l' ≡ some n)
      × Extends l l'
      × AreLevels g l'

  abbrev Scanned : List TaskId → ℕ → Levels → Option (ℕ × Levels) → Type 0
  Scanned ds best l o =
      (b : ℕ) × (l' : Levels) × (o ≡ some (b, l'))
      × AreKnown ds l'
      × (b ≡ above ds l' best)
      × Extends l l'
      × AreLevels g l'

  module _ (f : TaskId → Levels → Option (ℕ × Levels)) where
    abbrev Calculates : TaskId → Type 0
    Calculates d = (l : Levels) → AreLevels g l → Calculated d l (f d l)

    calc_all-Scanned :
        (ds : List TaskId) (best : ℕ) (l : Levels)
        → AreLevels g l
        → All Calculates ds
        → Scanned ds best l (calc_all f ds best l)
    unfolding calc_all
    calc_all-Scanned [] best l a h = (best, l, refl, tt, refl, (λ u n e. e), a)
    calc_all-Scanned (d ∷ ds) best l a h =
        let (n, l₁, e, found, x, a₁) = h.0 l a in
        let (b, l₂, e', known, eq, x', a₂) = calc_all-Scanned ds (max best (suc n)) l₁ a₁ h.1 in
        let same = find_or-some 0 d n l₂ (x' d n found) in
        (
          b,
          l₂,
          rw (e, calc_all) e',
          (ap is_some (x' d n found), known),
          eq ∙ ap (λ k. above ds l₂ (max best (suc k))) (sym same),
          (λ u k e. x' u k (x u k e)),
          a₂,
        )

    abbrev Known : List TaskId → Levels → Option Levels → Type 0
    Known ks l o = (l' : Levels) × (o ≡ some l') × AreKnown ks l' × Extends l l' × AreLevels g l'

    calc_keys-Known :
        (ks : List TaskId) (l : Levels)
        → AreLevels g l
        → All Calculates ks
        → Known ks l (calc_keys f ks l)
    unfolding calc_keys
    calc_keys-Known [] l a h = (l, refl, tt, (λ u n e. e), a)
    calc_keys-Known (k ∷ ks) l a h =
        let (n, l₁, e, found, x, a₁) = h.0 l a in
        let (l₂, e', known, x', a₂) = calc_keys-Known ks l₁ a₁ h.1 in
        (
          l₂,
          rw (e, calc_keys) e',
          (ap is_some (x' k n found), known),
          (λ u i e. x' u i (x u i e)),
          a₂,
        )

  set_level-Calculated :
      (id : TaskId) (l : Levels) (o : Option (ℕ × Levels))
      → Scanned (targets id g) 0 l o
      → Calculated id l (set_level id o)
  unfolding set_level
  set_level-Calculated id l o (b, l', e, known, eq, x, a) = (
    b,
    put id b l',
    rw e refl,
    find-put id id b l' ∙ rw (==_refl id) refl,
    (λ u k e'. put-Extends g id b l' a (known, eq) u k (x u k e')),
    put-AreLevels g id b l' a (known, eq),
  )

  -- Each id on the path of the recursion has a walk of at least one edge to `v`.
  abbrev LeadsOn : List TaskId → TaskId → Type 0
  LeadsOn path v = (u : TaskId) → contains path u ≡ true → (w : TaskId) × Edge g u w × Reach g w v

  LeadsOn-cons :
      (path : List TaskId) (id d : TaskId) → LeadsOn path id → Edge g id d → LeadsOn (id ∷ path) d
  unfolding contains
  LeadsOn-cons path id d h e u c = elim (Bool-cases (id == u)) [
    | inl same ↦ (d, subst (λ i. Edge g i d) ((nat_eq.agrees id u).0 same) e, here)
    | inr other ↦ let (w, e', r) = h u (ground (arith, c, other)) in (w, e', step r e)
  ]

  -- The path grows by an id that is not on it.
  path_grows :
      (path : List TaskId) (id : TaskId)
      → ¬ IsCyclic g
      → LeadsOn path id
      → contains (names g) id ≡ true
      → unseen (contains (id ∷ path)) (names g) < unseen (contains path) (names g)
  unfolding contains
  path_grows path id acyclic h named = elim (Bool-cases (contains path id)) [
    | inl on ↦
        let (w, e, r) = h id on in
        absurd (acyclic (record { start = id; second = w; leaves = e; returns = r }))
    | inr off ↦
        unseen-lt (contains path) (contains (id ∷ path)) (names g) id (λ u c. ground (arith, c))
          named off (rw (==_refl id) refl)
  ]

  All-from {ℓ κ} :
      {P : TaskId → Type ℓ} {Q : TaskId → Type κ} (ds : List TaskId)
      → ((d : TaskId) → P d → Q d)
      → All P ds
      → All Q ds
  All-from [] f h = tt
  All-from (d ∷ ds) f h = (f d h.0, All-from ds f h.1)

  calc_level-Calculated :
      (acyclic : ¬ IsCyclic g) (n : ℕ) (path : List TaskId) (id : TaskId)
      → LeadsOn path id
      → contains (names g) id ≡ true
      → unseen (contains path) (names g) < n
      → Calculates (calc_level n g) id
  unfolding calc_level
  calc_level-Calculated acyclic zero path id h named lt l a = absurd (omega (arith, lt))
  calc_level-Calculated acyclic (suc n) path id h named lt l a = elim (Option-cases (find id l)) [
    | inl e ↦
        let grows = path_grows path id acyclic h named in
        let child : (d : TaskId) → Edge g id d → Calculates (calc_level n g) d = λ d edge.
          calc_level-Calculated acyclic n (id ∷ path) d (LeadsOn-cons path id d h edge)
            (names-target g id d edge) (omega (arith, grows, lt)) in
        rw (e, calc_level)
          (set_level-Calculated id l _ (
            calc_all-Scanned (calc_level n g) (targets id g) 0 l a
              (All-from (targets id g) child (All-contains (targets id g)))))
    | inr (k, e) ↦ rw (e, calc_level) (k, l, refl, e, (λ u i e'. e'), a)
  ]

  no_path : (v : TaskId) → LeadsOn [] v
  unfolding contains
  no_path v u c = cc

  no_levels : AreLevels g []
  unfolding find
  no_levels u n e = cc

  -- For a graph without a cycle the calculation ends; every key has a level, and each level that is
  -- stored is 0 for an id without dependencies and else one more than the highest level of its
  -- dependencies, which are all stored.
  pub calculate_task_levels_correct :
      ¬ IsCyclic g
      → (l : Levels) × (calculate_task_levels g ≡ some l) × AreKnown (keys g) l × AreLevels g l
  unfolding calculate_task_levels
  calculate_task_levels_correct acyclic =
      let bound = unseen-le-length (contains []) (names g) in
      let root : (k : TaskId)
          → contains (keys g) k ≡ true
          → Calculates (calc_level (levels_fuel g) g) k =
        λ k c.
          calc_level-Calculated acyclic (levels_fuel g) [] k (no_path k) (keys-names g k c)
            (omega (arith, bound)) in
      let (l, e, known, x, a) =
        calc_keys-Known (calc_level (levels_fuel g) g) (keys g) [] no_levels
          (All-from (keys g) root (All-contains (keys g))) in
      (l, e, known, a)
