-- ===== src/QueueManager/Drawn.antt =====
-- `QueueManager::generateDependencyGraph`.
use Prim.Native.String.{◌++◌ as append}
use axon_queue.Prelude.{
  ◌≡◌, refl, ap, sym, ◌∙◌, String, true, Option, none, some, List, [], ◌∷◌, nat_eq, arith, ◌==◌,
  is_some, subst, All, inl, inr, Bool-cases, Option-cases,
}
use axon_queue.Prelude.Dict.{Dict, find, put, find-put, find_or-some}
use axon_queue.Prelude.IdSet.{contains}
use axon_queue.Task.{TaskId, TaskStatus}
use axon_queue.Graph.{Graph, Edge, targets}
use axon_queue.Graph.Walk.{Reach}
use axon_queue.Graph.Cycle.{keys}
use axon_queue.Graph.Subgraph.{get_subgraph}
use axon_queue.Graph.Subgraph.Correct.{search_subgraph_correct}
use axon_queue.Graph.Walk.Unseen.{All-contains}
use axon_queue.Graph.Subgraph.Entries.{AreEntries, search_subgraph-AreEntries}
use axon_queue.Graph.Dot.{
  Line, node, arrow, name_of, color_of, label_of, dot_lines, dot_text, generate_dot_graph,
}
use axon_queue.Graph.Dot.Lines.{
  drawn, node_of, has_arrow, node_of-dot_lines, has_arrow-dot_lines, All-dot_lines,
}
use axon_queue.QueueManager.{QueueManager}
use axon_queue.QueueManager.Access.{find_task}

-- The loop that collects what the known tasks of the subgraph have.
unfoldable pub collect {ℓ} :
    {A : Type ℓ} → (TaskId → Option A) → List TaskId → Dict TaskId A → Dict TaskId A
collect f [] m = m
collect f (k ∷ ks) m = collect f ks (elim (f k) [ none ↦ m | some x ↦ put k x m ])

abbrev pub name_in : QueueManager → TaskId → Option String
unfolding find_task
name_in m id = elim (find_task id m) [ none ↦ none | some p ↦ some (m.tasks p).name ]

abbrev pub status_in : QueueManager → TaskId → Option TaskStatus
unfolding find_task
status_in m id = elim (find_task id m) [ none ↦ none | some p ↦ some (m.tasks p).status ]

-- `none` means that the search of the subgraph ran out of fuel.
unfoldable pub generate_dependency_graph : TaskId → QueueManager → Option String
unfolding collect name_in status_in generate_dot_graph
generate_dependency_graph root m = elim (get_subgraph root m.dependency_graph) [
  | none ↦ none
  | some subgraph ↦ some (
      generate_dot_graph subgraph (collect (name_in m) (keys subgraph) [])
        (collect (status_in m) (keys subgraph) []))
]

module _ {ℓ} {A : Type ℓ} (f : TaskId → Option A) (u : TaskId) where
  put_same :
      (k : TaskId) (x : A) (m : Dict TaskId A)
      → find u m ≡ f u
      → f k ≡ some x
      → find u (put k x m) ≡ f u
  put_same k x m h found = find-put k u x m ∙ elim (Bool-cases (k == u)) [
    | inl same ↦ rw same (sym found ∙ ap f ((nat_eq.agrees k u).0 same))
    | inr other ↦ rw other h
  ]

  collected :
      (ks : List TaskId) (m : Dict TaskId A) → find u m ≡ f u → find u (collect f ks m) ≡ f u
  unfolding collect
  collected [] m h = h
  collected (k ∷ ks) m h = elim (Option-cases (f k)) [
    | inl none_ ↦ rw none_ (collected ks m h)
    | inr (x, found) ↦ rw found (collected ks (put k x m) (put_same k x m h found))
  ]

  find-collect :
      (ks : List TaskId) (m : Dict TaskId A)
      → find u m ≡ none
      → contains ks u ≡ true
      → find u (collect f ks m) ≡ f u
  unfolding collect contains
  find-collect [] m h i = absurd (ground (arith, i))
  find-collect (k ∷ ks) m h i = elim (Bool-cases (k == u)) [
    | inl same ↦
        let e : f k ≡ f u = ap f ((nat_eq.agrees k u).0 same) in
        elim (Option-cases (f k)) [
          | inl none_ ↦ rw none_ (collected ks m (h ∙ (sym none_ ∙ e)))
          | inr (x, found) ↦
              rw found (collected ks (put k x m) (find-put k u x m ∙ rw same (sym found ∙ e)))
        ]
    | inr other ↦
        let rest : contains ks u ≡ true = ground (arith, i, other) in
        elim (Option-cases (f k)) [
          | inl none_ ↦ rw none_ (find-collect ks m h rest)
          | inr (x, found) ↦
              rw found (find-collect ks (put k x m) (find-put k u x m ∙ rw other h) rest)
        ]
  ]

find-keys : (g : Graph) (u : TaskId) → is_some (find u g) ≡ true → contains (keys g) u ≡ true
unfolding find contains
find-keys [] u h = absurd (ground (arith, h))
find-keys ((k, deps) ∷ g) u h = ground (arith, h, find-keys g u)

-- What is drawn for an id: the name and the color of its task, if the manager knows it.
abbrev pub picture : QueueManager → TaskId → String × String
picture m u =
    (label_of u (name_of u (name_in m u)), append ", fillcolor=" (color_of (status_in m u)))

-- A node stands for an id that the root reaches, and an arrow for a dependency of one.
abbrev pub IsDrawn : TaskId → QueueManager → Line → Type 0
IsDrawn root m (node u label style) =
    Reach m.dependency_graph.dependencies root u × ((label, style) ≡ picture m u)
IsDrawn root m (arrow u v) =
    Reach m.dependency_graph.dependencies root u × Edge m.dependency_graph.dependencies u v
IsDrawn root m _ = Unit

-- What holds of the ids that are found holds of the entries.
All-found :
    (P : TaskId → Type 0) (h : Graph)
    → ((u : TaskId) → is_some (find u h) ≡ true → P u)
    → All (λ (e : TaskId × List TaskId). P e.0) h
unfolding find
All-found P [] f = tt
All-found P ((k, deps) ∷ h) f = (f k (ground arith), All-found P h (λ u s. f u (ground (arith, s))))

All-edges :
    (g h : Graph)
    → AreEntries g h
    → All (λ (e : TaskId × List TaskId). All (λ d. Edge g e.0 d) e.1) h
All-edges g [] a = tt
All-edges g ((k, deps) ∷ h) a =
    (subst (λ ds. All (λ d. contains ds d ≡ true) deps) a.0 (All-contains deps), All-edges g h a.1)

with_each :
    (P : Type 0) (Q : TaskId → Type 0) (ds : List TaskId) → P → All Q ds → All (λ d. P × Q d) ds
with_each P Q [] p q = tt
with_each P Q (d ∷ ds) p q = ((p, q.0), with_each P Q ds p q.1)

All-both :
    (P : TaskId → Type 0) (Q : TaskId → TaskId → Type 0) (h : Graph)
    → All (λ (e : TaskId × List TaskId). P e.0) h
    → All (λ (e : TaskId × List TaskId). All (λ d. Q e.0 d) e.1) h
    → All (λ (e : TaskId × List TaskId). All (λ d. P e.0 × Q e.0 d) e.1) h
All-both P Q [] p q = tt
All-both P Q ((k, deps) ∷ h) p q = (with_each (P k) (Q k) deps p.0 q.0, All-both P Q h p.1 q.1)

pub generate_dependency_graph_lem :
    (root : TaskId) (m : QueueManager)
    → let g = m.dependency_graph.dependencies in
      (lines : List Line) × (generate_dependency_graph root m ≡ some (dot_text lines))
      × ((u : TaskId) → Reach g root u → node_of u lines ≡ some (picture m u))
      × ((u v : TaskId) → Reach g root u → Edge g u v → has_arrow u v lines ≡ true)
      × All (IsDrawn root m) lines
unfolding generate_dependency_graph get_subgraph find
generate_dependency_graph_lem root m =
    let g = m.dependency_graph.dependencies in
    let (h, e, reached, same) = search_subgraph_correct g root in
    let names = collect (name_in m) (keys h) [] in
    let statuses = collect (status_in m) (keys h) [] in
    let drawn_as : (u : TaskId) → is_some (find u h) ≡ true → drawn names statuses u ≡ picture m u =
      λ u here.
        let key = find-keys h u here in
        rw
          (
            find-collect (name_in m) u (keys h) [] refl key,
            find-collect (status_in m) u (keys h) [] refl key,
          )
          refl in
    let reach : All (λ (e : TaskId × List TaskId). Reach g root e.0) h =
      All-found (Reach g root) h (λ u here. (reached u).0 here) in
    (
      dot_lines h names statuses,
      rw (e, generate_dependency_graph) refl,
      (λ u r.
          let here = (reached u).1 r in
          node_of-dot_lines names statuses h u ∙ rw here (ap some (drawn_as u here))),
      (λ u v r edge.
          has_arrow-dot_lines names statuses h u v
            (ap (λ ds. contains ds v) (find_or-some [] u (targets u g) h (same u r)) ∙ edge)),
      All-dot_lines names statuses (IsDrawn root m) h (tt, tt, tt, tt)
          (All-found (λ u. Reach g root u × (drawn names statuses u ≡ picture m u)) h
            (λ u here. ((reached u).0 here, drawn_as u here)))
          (All-both (Reach g root) (Edge g) h reach
            (All-edges g h (search_subgraph-AreEntries g root h e))),
    )
