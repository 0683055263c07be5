-- ===== src/Graph/Samples.antt =====
-- A small graph, for the tests of the modules of `Graph`: `src` sends to `left` and `right`, and
-- `left` sends to `right`; `right` has two input ports.
use floem.Prelude.{String, false, Option, none, some, List, [], ◌∷◌, Dict}
use floem.Graph.{Port, Element, by_port, plain, all, InPort, single, Node, Graph}

abbrev pub port : String → Port
port n = record { name = n; argtypes = "int" ∷ []; pipeline = false }

abbrev pub element : String → List Port → List Port → Element
element n i o = record {
  name = n;
  inports = i;
  outports = o;
  code = "";
  code_cavium = none;
  cleanup = "";
  state_params = [];
  output_fire = some all;
  output_code = by_port [];
  output_code_cavium = none;
  special = plain;
  defs = [];
  uses = [];
}

abbrev pub node :
    String → Element → Dict (String × InPort) → Dict (List (String × String)) → Option String → Node
node n e o i t = record {
  name = n;
  element = e;
  output2ele = o;
  input2ele = i;
  state_args = [];
  core_id = false;
  thread = t;
  join_ports_same_thread = none;
}

abbrev pub fork : Element
fork = element "Fork" [] (port "out1" ∷ port "out2" ∷ [])

abbrev pub forward : Element
forward = element "Forward" (port "in" ∷ []) (port "out" ∷ [])

abbrev pub join : Element
join = element "Join" (port "in1" ∷ port "in2" ∷ []) []

abbrev pub no_graph : Graph
no_graph = record {
  elements = [];
  instances = [];
  states = [];
  state_instances = [];
  state_order = [];
  state_instance_order = [];
  threads_internal = [];
  threads_api = [];
  threads_order = [];
  threads_roots = [];
  api_outputs = [];
  pipeline_states = [];
  processes = [];
  devices = [];
  thread2process = [];
  thread2device = [];
  process2device = [];
  default_process = "tmp";
  master_process = none;
}

abbrev pub src_node : Node
src_node =
    node "src" fork (("out1", ("left", single "in")) ∷ ("out2", ("right", single "in1")) ∷ []) []
      (some "t")

abbrev pub left_node : Node
left_node =
    node "left" forward (("out", ("right", single "in2")) ∷ []) (("in", ("src", "out1") ∷ []) ∷ [])
      (some "t")

abbrev pub right_node : Node
right_node =
    node "right" join [] (("in1", ("src", "out2") ∷ []) ∷ ("in2", ("left", "out") ∷ []) ∷ []) none

abbrev pub small : Graph
small = record no_graph {
  instances = ("src", src_node) ∷ ("left", left_node) ∷ ("right", right_node) ∷ [];
}

-- Before anything is connected.
abbrev pub apart : Graph
apart = record no_graph {
  instances = ("src", node "src" fork [] [] none) ∷ ("right", node "right" join [] [] none) ∷ [];
}
