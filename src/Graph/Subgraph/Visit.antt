-- ===== src/Graph/Subgraph/Visit.antt =====
-- What one call of `buildSubgraph` does.
use axon_queue.Prelude.{
  ℕ, zero, suc, ◌≤◌, ◌<◌, ◌≡◌, refl, subst, Bool, true, false, ◌||◌, Option, none, some, List, [],
  ◌∷◌, ◌==◌, nat_eq, arith, if◌then◌else◌, ==_refl, Bool-cases, Option-cases, inl, inr,
}
use axon_queue.Prelude.Dict.{find, find-put, find_or-none, find_or-some}
use axon_queue.Prelude.IdSet.{contains, contains-insert}
use axon_queue.Task.{TaskId}
use axon_queue.Graph.{Graph, targets, Edge}
use axon_queue.Graph.Walk.{Reach, step, names}
use axon_queue.Graph.Walk.Unseen.{unseen, unseen_mono, unseen-lt, names-target}
use axon_queue.Graph.Subgraph.{Search, enter, visit_all, visit}

abbrev pub seen : Search → TaskId → Bool
seen s u = contains s.visited u

module _ (g : Graph) (root : TaskId) where
  -- The ids that the search can meet.
  abbrev pub universe : List TaskId
  universe = root ∷ names g

  -- What is visited is reachable, and what is stored is the visited part of the graph.
  pub record Inv (s : Search) : Type 0 where
    pub sound : (u : TaskId) → seen s u ≡ true → Reach g root u
    pub stored : (u : TaskId) → find u s.subgraph ≡ (if seen s u then some (targets u g) else none)

  -- From `s` to `t` the visited ids grow, and the new ones have all their targets visited.
  pub record Extends (s t : Search) : Type 0 where
    pub grows : (u : TaskId) → seen s u ≡ true → seen t u ≡ true
    pub closed : (u v : TaskId) → seen s u ≡ false → seen t u ≡ true → Edge g u v → seen t v ≡ true
    pub inv : Inv t

  pub record Visited (id : TaskId) (s : Search) (o : Option Search) : Type 0 where
    pub final : Search
    pub ran : o ≡ some final
    pub marked : seen final id ≡ true
    pub extends : Extends s final

  pub record AllVisited (ds : List TaskId) (s : Search) (o : Option Search) : Type 0 where
    pub final : Search
    pub ran : o ≡ some final
    pub marked : (d : TaskId) → contains ds d ≡ true → seen final d ≡ true
    pub extends : Extends s final

  Extends-refl : (s : Search) → Inv s → Extends s s
  Extends-refl s i = record { grows = λ u h. h; closed = λ u v a b e. cc; inv = i }

  Extends-trans : (s t w : Search) → Extends s t → Extends t w → Extends s w
  Extends-trans s t w p q = record {
    grows = λ u h. q.grows u (p.grows u h);
    closed = λ u v a b e. elim (Bool-cases (seen t u)) [
      | inl old ↦ q.grows v (p.closed u v a old e)
      | inr new ↦ q.closed u v new b e
    ];
    inv = q.inv;
  }

  abbrev pub left : Search → ℕ
  left s = unseen (seen s) universe

  left_mono : (s t : Search) → Extends s t → left t ≤ left s
  left_mono s t e = unseen_mono (seen s) (seen t) universe e.grows

  -- The loop, given what its calls do.
  visit_all-AllVisited :
      (n : ℕ) (f : TaskId → Search → Option Search)
      → ((d : TaskId) (s : Search)
          → Reach g root d
          → contains universe d ≡ true
          → left s < n
          → Inv s
          → Visited d s (f d s))
      → (ds : List TaskId)
      → ((d : TaskId) → contains ds d ≡ true → Reach g root d × (contains universe d ≡ true))
      → (s : Search) → left s < n
      → Inv s
      → AllVisited ds s (visit_all f ds s)
  unfolding visit_all contains
  visit_all-AllVisited n f call [] meets s h i = record {
    final = s;
    ran = refl;
    marked = λ d m. cc;
    extends = Extends-refl s i;
  }
  visit_all-AllVisited n f call (d ∷ ds) meets s h i =
      let (r, m) = meets d (ground (arith, ==_refl d)) in
      let one = call d s r m h i in
      let rest =
        visit_all-AllVisited n f call ds (λ x hx. meets x (ground arith)) one.final
          (omega (arith, left_mono s one.final one.extends)) one.extends.inv in
      record {
        final = rest.final;
        ran = rw (one.ran, visit_all) rest.ran;
        marked = λ x hx. ground (arith, rest.marked x, rest.extends.grows x, one.marked);
        extends = Extends-trans s one.final rest.final one.extends rest.extends;
      }

  module _ (id : TaskId) (s : Search) (r : Reach g root id) (i : Inv s)
      (new : seen s id ≡ false) where
    enter-Inv : Inv (enter id (targets id g) s)
    unfolding enter
    enter-Inv = record {
      sound = λ u h. elim (Bool-cases (id == u)) [
        | inl e ↦ subst (Reach g root) (ground arith) r
        | inr ne ↦ i.sound u (ground (arith, contains-insert id u s.visited))
      ];
      stored = λ u. ground (
        arith,
        find-put id u (targets id g) s.subgraph,
        contains-insert id u s.visited,
        i.stored u,
      );
    }

    enter-seen : (u : TaskId) → seen (enter id (targets id g) s) u ≡ (id == u || seen s u)
    unfolding enter
    enter-seen u = contains-insert id u s.visited

    left-enter : contains universe id ≡ true → left (enter id (targets id g) s) < left s
    left-enter m =
        unseen-lt (seen s) (seen (enter id (targets id g) s)) universe id
          (λ u h. ground (arith, enter-seen u)) m new (ground (arith, enter-seen id))

    -- From the entry of `id` and the visits of its targets.
    after-loop :
        (o : Option Search)
        → AllVisited (targets id g) (enter id (targets id g) s) o
        → Visited id s o
    after-loop o all = record {
      final = all.final;
      ran = all.ran;
      marked = all.extends.grows id (ground (arith, enter-seen id));
      extends = record {
        grows = λ u h. all.extends.grows u (ground (arith, enter-seen u));
        closed = λ u v a b e. elim (Bool-cases (id == u)) [
          | inl same ↦ all.marked v (ground arith)
          | inr ne ↦ all.extends.closed u v (ground (arith, enter-seen u)) b e
        ];
        inv = all.extends.inv;
      };
    }

  target-universe : (u v : TaskId) → Edge g u v → contains universe v ≡ true
  unfolding contains
  target-universe u v e = ground (arith, names-target g u v)

  -- An id that is no key is visited as one without dependencies.
  visit_step :
      (n : ℕ) (id : TaskId) (s : Search)
      → seen s id ≡ false
      → visit (suc n) g id s ≡ visit_all (visit n g) (targets id g) (enter id (targets id g) s)
  unfolding visit visit_all
  visit_step n id s new = elim (Option-cases (find id g)) [
    | inl absent ↦ rw (new, absent, find_or-none [] id g absent)
    | inr (deps, present) ↦ rw (new, present, find_or-some [] id deps g present)
  ]

  -- With more fuel than unvisited ids the call returns.
  pub visit-Visited :
      (n : ℕ) (id : TaskId) (s : Search)
      → Reach g root id
      → contains universe id ≡ true
      → left s < n
      → Inv s
      → Visited id s (visit n g id s)
  unfolding visit
  visit-Visited zero id s r m h i = absurd (omega arith)
  visit-Visited (suc n) id s r m h i = elim (Bool-cases (seen s id)) [
    | inl old ↦ record { final = s; ran = rw old; marked = old; extends = Extends-refl s i }
    | inr new ↦ rw (visit_step n id s new) (
        after-loop id s r i new _ (
          visit_all-AllVisited n (visit n g) (λ d t rd md ht it. visit-Visited n d t rd md ht it)
            (targets id g) (λ d e. (step r e, target-universe id d e)) (enter id (targets id g) s)
            (omega (arith, left-enter id s r i new m)) (enter-Inv id s r i new)))
  ]
