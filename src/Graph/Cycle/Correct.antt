-- ===== src/Graph/Cycle/Correct.antt =====
-- `hasCycle` answers whether the graph has a cycle.
use axon_queue.Prelude.{
  ◌<◌, ◌≡◌, refl, Bool, true, false, Option, some, List, [], ◌∷◌, ◌==◌, nat_eq, arith, ==_refl, ◌⊎◌,
  inl, inr, Bool-cases, subst, sym, ◌∙◌,
}
use axon_queue.Prelude.Dict.{find, find_or, put, find_or-put}
use axon_queue.Prelude.IdSet.{contains}
use axon_queue.Task.{TaskId}
use axon_queue.Graph.{Graph, Edge}
use axon_queue.Graph.Walk.{Reach, here, step, names, IsCyclic}
use axon_queue.Graph.Walk.Unseen.{unseen-le-length, contains-append}
use axon_queue.Graph.Cycle.{
  unvisited, States, state, dfs, keys, all_unvisited, scan_roots, cycle_fuel, has_cycle,
}
use axon_queue.Graph.Cycle.Search.{
  is_open, is_marked, Ends, ends, IsSafe, left, dfs-Outcome, State-cases, left_mono,
}

-- Every id is unvisited after the first loop.
all_unvisited_lem :
    (ks : List TaskId) (m : States)
    → ((u : TaskId) → state m u ≡ unvisited)
    → (u : TaskId) → state (all_unvisited ks m) u ≡ unvisited
unfolding all_unvisited
all_unvisited_lem [] m h u = h u
all_unvisited_lem (k ∷ ks) m h u =
    all_unvisited_lem ks (put k unvisited m)
      (λ x. ground (arith, find_or-put unvisited k x unvisited m, h x)) u

pub keys-names : (g : Graph) (k : TaskId) → contains (keys g) k ≡ true → contains (names g) k ≡ true
unfolding contains
keys-names ((j, deps) ∷ g) k h = ground (arith, keys-names g k, contains-append deps (names g) k)
keys-names [] k h = cc

-- An id that is no key has no edge.
edge-key : (g : Graph) (u v : TaskId) → Edge g u v → contains (keys g) u ≡ true
unfolding contains find_or find
edge-key [] u v e = cc
edge-key ((k, deps) ∷ g) u v e = ground (arith, edge-key g u v)

module _ (g : Graph) where
  first_step : {u v : TaskId} → Reach g u v → (u ≡ v) ⊎ ((x : TaskId) × Edge g u x × Reach g x v)
  first_step here = inl refl
  first_step (step {v} {w} r e) = elim (first_step r) [
    | inl same ↦ inr (w, subst (λ x. Edge g x w) (sym same) e, here)
    | inr (x, e', r') ↦ inr (x, e', step r' e)
  ]

  -- No cycle passes through an id whose every walk ends.
  no_cycle_from : (v w : TaskId) → Ends g v → Edge g v w → ¬ Reach g w v
  no_cycle_from v w (ends _ next) e r = elim (first_step r) [
    | inl same ↦ no_cycle_from w w (next w e) (subst (λ x. Edge g x w) (sym same) e) here
    | inr (x, e', r') ↦ no_cycle_from w x (next w e) e' (step r' e)
  ]

  -- The answer of the last loop, and why it is right.
  abbrev Answer : List TaskId → Option Bool → Type 0
  Answer ks o =
      ((o ≡ some true) × IsCyclic g)
      ⊎ ((o ≡ some false) × ((k : TaskId) → contains ks k ≡ true → Ends g k))

  Answer-cons :
      (k : TaskId) (ks : List TaskId) (o : Option Bool) → Ends g k → Answer ks o → Answer (k ∷ ks) o
  unfolding contains
  Answer-cons k ks o e (inl cycle) = inl cycle
  Answer-cons k ks o e (inr (r, all)) = inr (
    r,
    λ x i. elim (Bool-cases (k == x)) [
      | inl same ↦ subst (Ends g) (ground arith) e
      | inr ne ↦ all x (ground arith)
    ],
  )

  scan_roots-Answer :
      (ks : List TaskId)
      → ((k : TaskId) → contains ks k ≡ true → contains (names g) k ≡ true)
      → (m : States) → ((u : TaskId) → is_open (state m u) ≡ false)
      → left g m < cycle_fuel g
      → IsSafe g m
      → Answer ks (scan_roots (dfs (cycle_fuel g) g) ks m)
  unfolding scan_roots contains
  scan_roots-Answer [] named m closed h s = inr (refl, λ k i. cc)
  scan_roots-Answer (k ∷ ks) named m closed h s =
      let named' : (x : TaskId) → contains ks x ≡ true → contains (names g) x ≡ true =
        λ x i. named x (ground arith) in
      let search = λ (new : state m k ≡ unvisited).
        dfs-Outcome g (cycle_fuel g) k m new (named k (ground (arith, ==_refl k)))
          (λ u o. absurd (ground (arith, closed u))) h s in
      elim (State-cases (state m k)) [
        | inl new ↦ elim (search new) [
          | inl (m', ran, c) ↦ inl (rw (new, scan_roots, ran), c)
          | inr (m', ran, fin) ↦
              rw (new, scan_roots, ran, scan_roots)
                (Answer-cons k ks _ (fin.follows.safe k fin.done) (
                  scan_roots-Answer ks named' m' (λ u. fin.follows.same u ∙ closed u)
                    (omega (arith, left_mono g m m' fin.follows)) fin.follows.safe))
        ]
        | inr (inl open_) ↦ absurd (ground (arith, closed k))
        | inr (inr old) ↦
            rw (old, scan_roots)
              (Answer-cons k ks _ (s k (ground arith)) (scan_roots-Answer ks named' m closed h s))
      ]

  start : States
  start = all_unvisited (keys g) []

  start-state : (u : TaskId) → state start u ≡ unvisited
  unfolding start find_or find
  start-state u = all_unvisited_lem (keys g) [] (λ x. refl) u

  has_cycle-Answer : Answer (keys g) (has_cycle g)
  unfolding has_cycle start
  has_cycle-Answer =
      scan_roots-Answer (keys g) (keys-names g) start (λ u. ground (arith, start-state u))
        (omega (arith, unseen-le-length (λ u. is_marked (state start u)) (names g)))
        (λ u d. absurd (ground (arith, start-state u)))

  acyclic : ((k : TaskId) → contains (keys g) k ≡ true → Ends g k) → ¬ IsCyclic g
  acyclic all c =
      no_cycle_from c.start c.second (all c.start (edge-key g c.start c.second c.leaves)) c.leaves
        c.returns

  -- The search always ends; it answers true for a graph with a cycle and false for one without, and
  -- an answer of true comes with a cycle.
  pub has_cycle_correct :
      ((has_cycle g ≡ some true) × IsCyclic g) ⊎ ((has_cycle g ≡ some false) × ¬ IsCyclic g)
  has_cycle_correct = elim has_cycle-Answer [
    | inl cycle ↦ inl cycle
    | inr (r, all) ↦ inr (r, acyclic all)
  ]
