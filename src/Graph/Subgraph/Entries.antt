-- ===== src/Graph/Subgraph/Entries.antt =====
-- What holds of the entries that the search of `getSubgraph` makes.
use axon_queue.Prelude.{
  ℕ, zero, suc, ◌≡◌, refl, sym, ap, subst, ◌∙◌, Option, none, some, List, [], ◌∷◌, nat_eq, arith,
  ◌==◌, inl, inr, Bool-cases, Option-cases, All,
}
use axon_queue.Prelude.Dict.{find, put, find_or-some, find_or-none}
use axon_queue.Prelude.IdSet.{contains}
use axon_queue.Task.{TaskId}
use axon_queue.Graph.{Graph, targets}
use axon_queue.Graph.Subgraph.{Search, enter, visit_all, visit, search_fuel, search_subgraph}

some_injective {ℓ} : {A : Type ℓ} (x y : A) → some x ≡ some y → x ≡ y
some_injective x y e = ap (λ o. elim o [ none ↦ x | some z ↦ z ]) e

-- A property of graphs that a new entry of an id with its dependencies keeps.
module _ (g : Graph) (Keeps : Graph → Type 0)
    (step : (id : TaskId) (h : Graph) → Keeps h → Keeps (put id (targets id g) h)) where
  visit_all-Keeps :
      (f : TaskId → Search → Option Search)
      → ((d : TaskId) (s s' : Search) → Keeps s.subgraph → f d s ≡ some s' → Keeps s'.subgraph)
      → (ds : List TaskId) (s s' : Search) → Keeps s.subgraph
      → visit_all f ds s ≡ some s'
      → Keeps s'.subgraph
  unfolding visit_all
  visit_all-Keeps f hf [] s s' k e =
      subst (λ (r : Search). Keeps r.subgraph) (some_injective s s' e) k
  visit_all-Keeps f hf (d ∷ ds) s s' k e = elim (Option-cases (f d s)) [
    | inl out ↦
        let nothing : visit_all f (d ∷ ds) s ≡ none = rw (out, visit_all) refl in
        absurd (ground (arith, sym nothing ∙ e))
    | inr (s₁, ran) ↦
        let rest : visit_all f (d ∷ ds) s ≡ visit_all f ds s₁ = rw (ran, visit_all) refl in
        visit_all-Keeps f hf ds s₁ s' (hf d s s₁ k ran) (sym rest ∙ e)
  ]

  enter-Keeps :
      (id : TaskId) (deps : List TaskId) (s : Search)
      → targets id g ≡ deps
      → Keeps s.subgraph
      → Keeps (enter id deps s).subgraph
  unfolding enter
  enter-Keeps id deps s e k = subst (λ ds. Keeps (put id ds s.subgraph)) e (step id s.subgraph k)

  visit-Keeps :
      (fuel : ℕ) (id : TaskId) (s s' : Search)
      → Keeps s.subgraph
      → visit fuel g id s ≡ some s'
      → Keeps s'.subgraph
  unfolding visit
  visit-Keeps zero id s s' k e = absurd (ground (arith, e))
  visit-Keeps (suc n) id s s' k e = elim (Bool-cases (contains s.visited id)) [
    | inl seen ↦
        let same : visit (suc n) g id s ≡ some s = rw (seen, visit) refl in
        subst (λ (r : Search). Keeps r.subgraph) (some_injective s s' (sym same ∙ e)) k
    | inr new ↦ elim (Option-cases (find id g)) [
      | inl missing ↦
          let entered : visit (suc n) g id s ≡ some (enter id [] s) =
            rw (new, missing, visit) refl in
          subst (λ (r : Search). Keeps r.subgraph)
            (some_injective (enter id [] s) s' (sym entered ∙ e))
            (enter-Keeps id [] s (find_or-none [] id g missing) k)
      | inr (deps, found) ↦
          let rest : visit (suc n) g id s ≡ visit_all (visit n g) deps (enter id deps s) =
            rw (new, found, visit) refl in
          visit_all-Keeps (visit n g) (visit-Keeps n) deps (enter id deps s) s'
            (enter-Keeps id deps s (find_or-some [] id deps g found) k) (sym rest ∙ e)
    ]
  ]

  pub search_subgraph-Keeps :
      (root : TaskId) (h : Graph) → Keeps [] → search_subgraph root g ≡ some h → Keeps h
  unfolding search_subgraph
  search_subgraph-Keeps root h k e =
      let start : Search = record { visited = []; subgraph = [] } in
      elim (Option-cases (visit (search_fuel root g) g root start)) [
        | inl out ↦
            let nothing : search_subgraph root g ≡ none = rw (out, search_subgraph) refl in
            absurd (ground (arith, sym nothing ∙ e))
        | inr (s, ran) ↦
            let whole : search_subgraph root g ≡ some s.subgraph = rw (ran, search_subgraph) refl in
            subst Keeps (some_injective s.subgraph h (sym whole ∙ e))
              (visit-Keeps (search_fuel root g) root start s k ran)
      ]

-- Every entry has the dependencies of its id.
abbrev pub AreEntries : Graph → Graph → Type 0
AreEntries g h = All (λ (e : TaskId × List TaskId). e.1 ≡ targets e.0 g) h

put-AreEntries :
    (g : Graph) (id : TaskId) (h : Graph) → AreEntries g h → AreEntries g (put id (targets id g) h)
unfolding put
put-AreEntries g id [] a = (refl, tt)
put-AreEntries g id ((k, deps) ∷ h) a = elim (Bool-cases (k == id)) [
  | inl same ↦ rw same (ap (λ j. targets j g) (sym ((nat_eq.agrees k id).0 same)), a.1)
  | inr other ↦ rw other (a.0, put-AreEntries g id h a.1)
]

pub search_subgraph-AreEntries :
    (g : Graph) (root : TaskId) (h : Graph) → search_subgraph root g ≡ some h → AreEntries g h
search_subgraph-AreEntries g root h e =
    search_subgraph-Keeps g (AreEntries g) (put-AreEntries g) root h tt e
