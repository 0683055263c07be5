-- ===== src/Graph/Clean/Samples.antt =====
-- Removing unused instances: the theorems at a concrete graph.
use floem.Prelude.{
  String, ◌≡◌, ◌↔◌, contains, String_equality, refl, true, none, some, [], ◌∷◌, ok, get, keys,
  values, remove,
}
use floem.Graph.{Graph, Node}
use floem.Graph.Starts.{unused}
use floem.Graph.Clean.{remove_unused_elements}
use floem.Graph.Clean.Used.{IsUsed}
use floem.Graph.Clean.Unused.{remove_unused_elements_lem, remove_unused_elements_threads}
use floem.Graph.Samples.{no_graph, node, forward, src_node, left_node}

abbrev waiting : Node
waiting = node "waiting" forward [] [] (some "f")

-- `alone` and `waiting` are not connected; an API function calls `waiting`.
abbrev crowded : Graph
crowded = record no_graph {
  instances =
      ("src", src_node)
      ∷ ("left", left_node)
      ∷ ("alone", node "alone" forward [] [] none)
      ∷ ("waiting", waiting)
      ∷ [];
  threads_api =
      record {
        object = 0;
        name = "f";
        call_types = [];
        return_type = none;
        default_val = none;
        call_instance = some "waiting";
        return_instance = none;
        return_port = none;
      }
      ∷ [];
  threads_roots = "src" ∷ "alone" ∷ "waiting" ∷ [];
}

abbrev cleaned : Graph
cleaned = record crowded {
  instances = ("src", src_node) ∷ ("left", left_node) ∷ ("waiting", waiting) ∷ [];
  threads_roots = "src" ∷ "waiting" ∷ [];
}

clean_run : remove_unused_elements crowded true ≡ ok cleaned
unfolding remove_unused_elements unused values remove
clean_run = refl

remove_unused_elements_lem_example :
    ((get cleaned.instances "waiting" ≡ some waiting) ↔ IsUsed crowded.threads_api waiting)
    × ((contains "waiting" cleaned.threads_roots ≡ true)
        ↔ ((contains "waiting" crowded.threads_roots ≡ true) × IsUsed crowded.threads_api waiting))
unfolding keys get
remove_unused_elements_lem_example =
    remove_unused_elements_lem crowded cleaned true "waiting" waiting
      (refl, (refl, (refl, (refl, tt)))) clean_run refl

threads_run : (t : String) × (left_node.thread ≡ some t)
unfolding get
threads_run = remove_unused_elements_threads crowded cleaned "left" left_node clean_run refl
