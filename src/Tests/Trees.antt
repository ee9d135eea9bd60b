-- ===== src/Tests/Trees.antt =====
-- JSON objects as lists of members, the last assignment first; a dumped text is the object.
use axon_queue.Prelude.{◌≡◌, refl, String, Option, none, some, ◌==◌, string_eq, if◌then◌else◌}
use axon_queue.Task.Json.{JsonLib, Value}

pub data Tree : Type 0 where
  empty : Tree
  plain : String → Value → Tree → Tree
  nested : String → Tree → Tree → Tree

unfoldable pub get : String → Tree → Option Value
get j empty = none
get j (plain k v o) = if k == j then some v else get j o
get j (nested k v o) = if k == j then none else get j o

unfoldable pub get_json : String → Tree → Option Tree
get_json j empty = none
get_json j (plain k v o) = if k == j then none else get_json j o
get_json j (nested k v o) = if k == j then some v else get_json j o

pub get-plain :
    (k j : String) (v : Value) (o : Tree)
    → get j (plain k v o) ≡ (if k == j then some v else get j o)
unfolding get
get-plain k j v o = refl

pub get-nested :
    (k j : String) (v o : Tree) → get j (nested k v o) ≡ (if k == j then none else get j o)
unfolding get
get-nested k j v o = refl

pub get_json-nested :
    (k j : String) (v o : Tree)
    → get_json j (nested k v o) ≡ (if k == j then some v else get_json j o)
unfolding get_json
get_json-nested k j v o = refl

abbrev pub tree_lib : JsonLib
tree_lib = record {
  Json = Tree;
  Text = Tree;
  null = empty;
  set = plain;
  get = get;
  set_json = nested;
  get_json = get_json;
  dump = λ o. o;
  parse = some;
  get-set = get-plain;
  get-set_json = get-nested;
  get_json-set_json = get_json-nested;
  parse-dump = λ o. refl;
}
