-- ===== src/Graph/Instances/Samples.antt =====
-- A new instance of an element with a state, at one end of a queue.
use floem.Prelude.{
  String, ◌≡◌, refl, ◌==◌, String_equality, none, some, [], ◌∷◌, ok, err, get, put, if◌then◌else◌,
}
use floem.Graph.{Graph, Element, Node, StateNode, Special, no_init, exception}
use floem.Graph.Samples.{no_graph, element, node, port}
use floem.Graph.Instances.{Queue, user_end, node_end, new_element_instance}
use floem.Graph.Instances.Typed.{Fits, new_element_instance-Fits}

abbrev pub table : StateNode
table = record {
  name = "table";
  state = record { name = "Table"; content = some "int n;"; init = no_init; processes = [] };
  init = no_init;
  processes = [];
  buffer_for = none;
}

abbrev enqueue : Element
enqueue = record (element "Enqueue" (port "in" ∷ []) []) {
  state_params = ("Table", "this") ∷ [];
  special = Special.queue "q";
}

abbrev declared : Graph
declared = record no_graph {
  elements = ("Enqueue", enqueue) ∷ [];
  state_instances = ("table", table) ∷ [];
}

abbrev queue : Queue
queue = record { enq = user_end "enq" "Enqueue" ∷ []; deq = none; clean = none }

abbrev grown : Graph
grown = record declared {
  instances = ("enq", record (node "enq" enqueue [] [] none) { state_args = "table" ∷ [] }) ∷ [];
}

new_run :
    new_element_instance declared
      (("q", queue) ∷ [])
      "Enqueue"
      "enq"
      ("table" ∷ [])
      (some (user_end "enq" "Enqueue"))
    ≡ ok (grown, ("q", record queue { enq = node_end "enq" ∷ [] }) ∷ [])
unfolding new_element_instance get put
new_run = refl

-- Without its state the instance is refused.
refused_run :
    new_element_instance declared
      (("q", queue) ∷ [])
      "Enqueue"
      "enq"
      []
      (some (user_end "enq" "Enqueue"))
    ≡ err exception
unfolding new_element_instance get put
refused_run = refl

new_element_instance-Fits_example :
    (e : Element) × (i : Node) × (get declared.elements "Enqueue" ≡ some e)
    × (i.element ≡ e)
    × (i.name ≡ "enq")
    × (i.output2ele ≡ [])
    × (i.input2ele ≡ [])
    × (i.thread ≡ none)
    × Fits declared.state_instances e.state_params i.state_args
    × ((k : String)
        → get grown.instances k ≡ (if "enq" == k then some i else get declared.instances k))
    × (record declared { instances = grown.instances } ≡ grown)
new_element_instance-Fits_example =
    new_element_instance-Fits declared grown (("q", queue) ∷ [])
      (("q", record queue { enq = node_end "enq" ∷ [] }) ∷ []) "Enqueue" "enq" ("table" ∷ [])
      (some (user_end "enq" "Enqueue")) new_run
