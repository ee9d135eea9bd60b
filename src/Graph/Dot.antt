-- ===== src/Graph/Dot.antt =====
-- `generateDOTGraph` of src/utils/DataStructures.cpp and `TaskGraph::toDOT` of
-- include/utils/DataStructures.hpp. What is written to the stream is kept line by line, and
-- `dot_text` is the text of the lines.
pub mod Lines
use Prim.Native.String.{◌++◌ as append}
use axon_queue.Prelude.{String, Option, none, some, List, [], ◌∷◌, ◌++◌, nat_eq}
use axon_queue.Prelude.Dict.{Dict, find}
use axon_queue.Prelude.Decimal.{to_string}
use axon_queue.Task.{TaskId, TaskStatus, queued, running, completed, failed, cancelled}
use axon_queue.Graph.{Graph}
use axon_queue.Graph.TaskGraph.{TaskGraph}

-- The two drawings.
pub data Title : Type 0 where
  task_graph task_dependencies : Title

-- The first line, the two settings, the declaration of a node, an arrow, and the last line.
pub data Line : Type 0 where
  opening : Title → Line
  rankdir node_style closing : Line
  node : TaskId → (label style : String) → Line
  arrow : TaskId → TaskId → Line

unfoldable pub line_text : Line → String
unfolding to_string
line_text (opening task_graph) = "digraph TaskGraph {\n"
line_text (opening task_dependencies) = "digraph TaskDependencies {\n"
line_text rankdir = "  rankdir=LR;\n"
line_text node_style = "  node [shape=box, style=filled];\n"
line_text closing = "}\n"
line_text (node id label style) =
    append "  task_" (
      append (to_string id)
        (append " [label=\"" (append label (append "\"" (append style "];\n")))))
line_text (arrow id dep) =
    append "  task_" (append (to_string id) (append " -> task_" (append (to_string dep) ";\n")))

unfoldable pub dot_text : List Line → String
unfolding line_text
dot_text [] = ""
dot_text (l ∷ ls) = append (line_text l) (dot_text ls)

unfoldable pub name_of : TaskId → Option String → String
unfolding to_string
name_of id none = append "Task " (to_string id)
name_of id (some name) = name

-- The `switch` on the status.
unfoldable pub color_of : Option TaskStatus → String
color_of none = "white"
color_of (some queued) = "lightblue"
color_of (some running) = "yellow"
color_of (some completed) = "lightgreen"
color_of (some failed) = "salmon"
color_of (some cancelled) = "gray"
color_of (some _) = "white"

-- `name\nID: id`, where the backslash is written as such.
unfoldable pub label_of : TaskId → String → String
unfolding to_string
label_of id name = append name (append "\\nID: " (to_string id))

-- The first loop.
unfoldable pub node_lines : Dict TaskId String → Dict TaskId TaskStatus → Graph → List Line
unfolding name_of color_of label_of
node_lines names statuses [] = []
node_lines names statuses ((id, deps) ∷ g) =
    node id (label_of id (name_of id (find id names)))
      (append ", fillcolor=" (color_of (find id statuses)))
    ∷ node_lines names statuses g

-- The second loop.
unfoldable pub arrows : TaskId → List TaskId → List Line
arrows id [] = []
arrows id (d ∷ ds) = arrow id d ∷ arrows id ds

unfoldable pub arrow_lines : Graph → List Line
unfolding arrows
arrow_lines [] = []
arrow_lines ((id, deps) ∷ g) = arrows id deps ++ arrow_lines g

unfoldable pub dot_lines : Graph → Dict TaskId String → Dict TaskId TaskStatus → List Line
unfolding node_lines arrow_lines
dot_lines g names statuses =
    opening task_graph
    ∷ rankdir
    ∷ node_style
    ∷ (node_lines names statuses g ++ (arrow_lines g ++ (closing ∷ [])))

unfoldable pub generate_dot_graph : Graph → Dict TaskId String → Dict TaskId TaskStatus → String
unfolding dot_lines dot_text
generate_dot_graph g names statuses = dot_text (dot_lines g names statuses)

-- The first loop of `toDOT`.
unfoldable pub plain_lines : Dict TaskId String → Graph → List Line
unfolding name_of
plain_lines names [] = []
plain_lines names ((id, deps) ∷ g) = node id (name_of id (find id names)) "" ∷ plain_lines names g

unfoldable pub to_dot : Dict TaskId String → TaskGraph → String
unfolding plain_lines arrow_lines dot_text
to_dot names g = dot_text (
    opening task_dependencies
    ∷ (plain_lines names g.dependencies ++ (arrow_lines g.dependencies ++ (closing ∷ []))))
