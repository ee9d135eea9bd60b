-- ===== src/Graph/Dot/Lines.antt =====
-- The lines of a drawn graph: one node for each entry, and an arrow for each dependency of one.
use Prim.Native.String.{◌++◌ as append}
use mathlib.Core.List.{append_assoc}
use axon_queue.Prelude.{
  ◌≡◌, refl, ap, ◌∙◌, String, Bool, true, false, ◌&&◌, ◌||◌, Option, none, some, List, [], ◌∷◌,
  ◌++◌, nat_eq, arith, ◌==◌, if◌then◌else◌, is_some, All, All-append, inl, inr, Bool-cases,
}
use axon_queue.Prelude.Dict.{Dict, find, find_or}
use axon_queue.Prelude.IdSet.{contains}
use axon_queue.Task.{TaskId, TaskStatus}
use axon_queue.Graph.{Graph, Edge}
use axon_queue.Graph.Dot.{
  Line, opening, task_graph, rankdir, node_style, closing, node, arrow, name_of, color_of, label_of,
  node_lines, arrows, arrow_lines, dot_lines,
}

-- The label and the style of the first node of an id.
unfoldable pub node_of : TaskId → List Line → Option (String × String)
node_of u [] = none
node_of u (opening title ∷ ls) = node_of u ls
node_of u (rankdir ∷ ls) = node_of u ls
node_of u (node_style ∷ ls) = node_of u ls
node_of u (closing ∷ ls) = node_of u ls
node_of u (arrow v w ∷ ls) = node_of u ls
node_of u (node v label style ∷ ls) =
    let later = node_of u ls in if v == u then some (label, style) else later

unfoldable pub has_arrow : TaskId → TaskId → List Line → Bool
has_arrow u v [] = false
has_arrow u v (opening title ∷ ls) = has_arrow u v ls
has_arrow u v (rankdir ∷ ls) = has_arrow u v ls
has_arrow u v (node_style ∷ ls) = has_arrow u v ls
has_arrow u v (closing ∷ ls) = has_arrow u v ls
has_arrow u v (node w label style ∷ ls) = has_arrow u v ls
has_arrow u v (arrow x y ∷ ls) = (x == u && y == v) || has_arrow u v ls

has_arrow-append :
    (u v : TaskId) (xs ys : List Line)
    → has_arrow u v (xs ++ ys) ≡ (has_arrow u v xs || has_arrow u v ys)
unfolding has_arrow
has_arrow-append u v [] ys = refl
has_arrow-append u v (opening title ∷ xs) ys = has_arrow-append u v xs ys
has_arrow-append u v (rankdir ∷ xs) ys = has_arrow-append u v xs ys
has_arrow-append u v (node_style ∷ xs) ys = has_arrow-append u v xs ys
has_arrow-append u v (closing ∷ xs) ys = has_arrow-append u v xs ys
has_arrow-append u v (node w label style ∷ xs) ys = has_arrow-append u v xs ys
has_arrow-append u v (arrow x y ∷ xs) ys = ground (arith, has_arrow-append u v xs ys)

has_arrow-arrows : (u v : TaskId) (ds : List TaskId) → has_arrow u v (arrows u ds) ≡ contains ds v
unfolding has_arrow arrows contains
has_arrow-arrows u v [] = refl
has_arrow-arrows u v (d ∷ ds) = ground (arith, has_arrow-arrows u v ds)

has_arrow-arrow_lines :
    (g : Graph) (u v : TaskId) → Edge g u v → has_arrow u v (arrow_lines g) ≡ true
unfolding arrow_lines find_or find contains
has_arrow-arrow_lines [] u v e = absurd (ground (arith, e))
has_arrow-arrow_lines ((id, deps) ∷ g) u v e = elim (Bool-cases (id == u)) [
  | inl same ↦ ground (
    arith,
    same,
    e,
    has_arrow-append u v (arrows id deps) (arrow_lines g),
    has_arrow-arrows u v deps,
    nat_eq.agrees id u,
  )
  | inr other ↦ ground (
    arith,
    has_arrow-append u v (arrows id deps) (arrow_lines g),
    has_arrow-arrow_lines g u v (ground (arith, other, e)),
  )
]

All-arrows :
    (P : Line → Type 0) (id : TaskId) (ds : List TaskId)
    → All (λ d. P (arrow id d)) ds
    → All P (arrows id ds)
unfolding arrows
All-arrows P id [] h = tt
All-arrows P id (d ∷ ds) h = (h.0, All-arrows P id ds h.1)

All-arrow_lines :
    (P : Line → Type 0) (g : Graph)
    → All (λ (e : TaskId × List TaskId). All (λ d. P (arrow e.0 d)) e.1) g
    → All P (arrow_lines g)
unfolding arrow_lines
All-arrow_lines P [] h = tt
All-arrow_lines P ((id, deps) ∷ g) h =
    All-append P (arrows id deps) (arrow_lines g) (All-arrows P id deps h.0)
      (All-arrow_lines P g h.1)

module _ (names : Dict TaskId String) (statuses : Dict TaskId TaskStatus) where
  -- What is drawn for an id.
  abbrev pub drawn : TaskId → String × String
  drawn u =
      (label_of u (name_of u (find u names)), append ", fillcolor=" (color_of (find u statuses)))

  no_node :
      (u : TaskId) (ds : List TaskId) (id : TaskId) (ls : List Line)
      → node_of u (arrows id ds ++ ls) ≡ node_of u ls
  unfolding node_of arrows
  no_node u [] id ls = refl
  no_node u (d ∷ ds) id ls = no_node u ds id ls

  no_nodes : (g : Graph) (u : TaskId) → node_of u (arrow_lines g ++ (closing ∷ [])) ≡ none
  unfolding node_of arrow_lines
  no_nodes [] u = refl
  no_nodes ((id, deps) ∷ g) u =
      ap (node_of u) (append_assoc (arrows id deps) (arrow_lines g) (closing ∷ []))
      ∙ (no_node u deps id (arrow_lines g ++ (closing ∷ [])) ∙ no_nodes g u)

  node_of-node_lines :
      (g : Graph) (u : TaskId) (ls : List Line)
      → node_of u ls ≡ none
      → node_of u (node_lines names statuses g ++ ls)
        ≡ (if is_some (find u g) then some (drawn u) else none)
  unfolding node_of node_lines find
  node_of-node_lines [] u ls h = h
  node_of-node_lines ((id, deps) ∷ g) u ls h = elim (Bool-cases (id == u)) [
    | inl same ↦ rw same (ap (λ k. some (drawn k)) ((nat_eq.agrees id u).0 same))
    | inr other ↦ rw other (node_of-node_lines g u ls h)
  ]

  -- A node is drawn for each entry, with the name and the status of its id, and for no other id.
  pub node_of-dot_lines :
      (g : Graph) (u : TaskId)
      → node_of u (dot_lines g names statuses)
        ≡ (if is_some (find u g) then some (drawn u) else none)
  unfolding dot_lines node_of
  node_of-dot_lines g u = node_of-node_lines g u (arrow_lines g ++ (closing ∷ [])) (no_nodes g u)

  no_arrow_nodes :
      (g : Graph) (u v : TaskId) (ls : List Line)
      → has_arrow u v (node_lines names statuses g ++ ls) ≡ has_arrow u v ls
  unfolding has_arrow node_lines
  no_arrow_nodes [] u v ls = refl
  no_arrow_nodes ((id, deps) ∷ g) u v ls = no_arrow_nodes g u v ls

  -- Every edge is drawn.
  pub has_arrow-dot_lines :
      (g : Graph) (u v : TaskId) → Edge g u v → has_arrow u v (dot_lines g names statuses) ≡ true
  unfolding dot_lines has_arrow
  has_arrow-dot_lines g u v e =
      let after = arrow_lines g ++ (closing ∷ []) in
      ground (
        arith,
        no_arrow_nodes g u v after,
        has_arrow-append u v (arrow_lines g) (closing ∷ []),
        has_arrow-arrow_lines g u v e,
      )

  All-node_lines :
      (P : Line → Type 0) (g : Graph) (ls : List Line)
      → All (λ (e : TaskId × List TaskId). P (node e.0 (drawn e.0).0 (drawn e.0).1)) g
      → All P ls
      → All P (node_lines names statuses g ++ ls)
  unfolding node_lines
  All-node_lines P [] ls h l = l
  All-node_lines P ((id, deps) ∷ g) ls h l = (h.0, All-node_lines P g ls h.1 l)

  -- All lines have a property that the nodes, the arrows and the other lines have.
  pub All-dot_lines :
      (P : Line → Type 0) (g : Graph)
      → P (opening task_graph) × P rankdir × P node_style × P closing
      → All (λ (e : TaskId × List TaskId). P (node e.0 (drawn e.0).0 (drawn e.0).1)) g
      → All (λ (e : TaskId × List TaskId). All (λ d. P (arrow e.0 d)) e.1) g
      → All P (dot_lines g names statuses)
  unfolding dot_lines
  All-dot_lines P g (o, r, s, c) nodes edges = (
    o,
    (
      r,
      (
        s,
        All-node_lines P g (arrow_lines g ++ (closing ∷ [])) nodes
            (All-append P (arrow_lines g) (closing ∷ []) (All-arrow_lines P g edges) (c, tt)),
      ),
    ),
  )
