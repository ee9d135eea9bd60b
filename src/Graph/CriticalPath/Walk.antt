-- ===== src/Graph/CriticalPath/Walk.antt =====
-- The walk along the parents ends on a graph without a cycle, and is a path of the graph.
use axon_queue.Prelude.{
  ℕ, zero, suc, ◌<◌, ◌≡◌, refl, subst, true, false, Option, none, some, List, [], ◌∷◌, nat_eq,
  arith, ltb, ◌==◌, inl, inr, Bool-cases, Option-cases, ==_refl, All,
}
use axon_queue.Prelude.Dict.{Dict, find, put, find_or, find-put}
use axon_queue.Prelude.IdSet.{contains}
use axon_queue.Task.{TaskId}
use axon_queue.Graph.{Graph, Edge, targets}
use axon_queue.Graph.Walk.{Reach, here, step, Reach-trans, names, IsCyclic}
use axon_queue.Graph.Walk.Unseen.{unseen, unseen-lt, names-target, All-contains}
use axon_queue.Graph.CriticalPath.{Paths, relax_all, relax_order, walk_parents}

-- Each id depends on the next one.
abbrev pub IsPath : Graph → List TaskId → Type 0
IsPath g [] = Unit
IsPath g (x ∷ []) = Unit
IsPath g (x ∷ y ∷ ys) = Edge g x y × IsPath g (y ∷ ys)

module _ (g : Graph) where
  abbrev pub AreParents : Dict TaskId TaskId → Type 0
  AreParents parent = (u p : TaskId) → find u parent ≡ some p → Edge g p u

  relax_all-AreParents :
      (id : TaskId) (ns : List TaskId) (p : Paths)
      → All (λ n. Edge g id n) ns
      → AreParents p.parent
      → AreParents (relax_all id ns p).parent
  unfolding relax_all
  relax_all-AreParents id [] p e h = h
  relax_all-AreParents id (n ∷ ns) p e h =
      let next = suc (find_or 0 id p.distance) in
      elim (Bool-cases (ltb (find_or 0 n p.distance) next)) [
        | inl shorter ↦
            rw (shorter, relax_all)
              (relax_all-AreParents id ns
                (record { distance = put n next p.distance; parent = put n id p.parent }) e.1
                (λ u q f. ground (arith, find-put n u id p.parent, f, e.0, h u q)))
        | inr other ↦ rw (other, relax_all) (relax_all-AreParents id ns p e.1 h)
      ]

  pub relax_order-AreParents :
      (ids : List TaskId) (p : Paths)
      → AreParents p.parent
      → AreParents (relax_order g ids p).parent
  unfolding relax_order
  relax_order-AreParents [] p h = h
  relax_order-AreParents (id ∷ ids) p h =
      relax_order-AreParents ids (relax_all id (targets id g) p)
        (relax_all-AreParents id (targets id g) p (All-contains (targets id g)) h)

  -- A walk of at least one edge.
  abbrev pub Leads : TaskId → TaskId → Type 0
  Leads u v = (w : TaskId) × Edge g u w × Reach g w v

  module _ (acyclic : ¬ IsCyclic g) (parent : Dict TaskId TaskId) (h : AreParents parent) where
    abbrev pub IsWalked : Option (List TaskId) → Type 0
    IsWalked o =
        (first : TaskId) × (rest : List TaskId) × (o ≡ some (first ∷ rest))
        × IsPath g (first ∷ rest)
        × (find first parent ≡ none)

    fresh :
        (u : TaskId) (path : List TaskId)
        → ((a : TaskId) → contains path a ≡ true → Leads u a)
        → contains path u ≡ false
    fresh u path l = elim (Bool-cases (contains path u)) [
      | inl seen ↦
          let (w, e, r) = l u seen in
          absurd (acyclic (record { start = u; second = w; leaves = e; returns = r }))
      | inr new ↦ new
    ]

    pub walk_parents_lem :
        (fuel : ℕ) (current : TaskId) (path : List TaskId)
        → unseen (contains path) (names g) < fuel
        → ((a : TaskId) → contains path a ≡ true → Leads current a)
        → IsPath g (current ∷ path)
        → IsWalked (walk_parents fuel parent current path)
    unfolding walk_parents contains
    walk_parents_lem zero current path f l p = absurd (omega (arith, f))
    walk_parents_lem (suc n) current path f l p = elim (Option-cases (find current parent)) [
      | inl last ↦ rw (last, walk_parents) (current, path, refl, p, last)
      | inr (q, found) ↦
          let e = h current q found in
          let fewer : unseen (contains (current ∷ path)) (names g)
              < unseen (contains path) (names g) =
            unseen-lt (contains path) (contains (current ∷ path)) (names g) current
              (λ u s. ground (arith, s)) (names-target g q current e) (fresh current path l)
              (ground (arith, ==_refl current)) in
          rw (found, walk_parents)
            (walk_parents_lem n q (current ∷ path) (omega (arith, f, fewer))
              (λ a s. elim (Bool-cases (current == a)) [
                | inl same ↦
                    (current, e, subst (Reach g current) ((nat_eq.agrees current a).0 same) here)
                | inr other ↦
                    let (w, e', r) = l a (ground (arith, s, other)) in
                    (current, e, Reach-trans (step here e') r)
              ])
              (e, p))
    ]
