-- ===== src/Program/Samples.antt =====
-- A program with a composite, and the theorems at inputs that meet their hypotheses.
use floem.Prelude.{
  ℕ, ◌≤◌, String, ◌≡◌, ◌≢◌, refl, String_equality, none, [], ◌∷◌, arith, ok, err, get, put,
}
use floem.Graph.{Element, single, out_of_fuel, port_names}
use floem.Graph.Samples.{no_graph, node, port, element as declared_as}
use floem.Graph.Build.{add_element}
use floem.Graph.Connect.{connect}
use floem.Graph.Instances.{new_element_instance}
use floem.Program.{
  Item, program, element, element_instance, connection, composite, composite_instance, Items,
  no_items, next_item, Generator, get_node_name, note_element, interpret, program_to_graph_pass,
}
use floem.Program.Kept.{IsDeclared}
use floem.Program.Declared.{program_to_graph_pass-IsDeclared}
use floem.Program.Ends.{height, IsOrdered, IsRanked, interpret_ends}

abbrev source : Element
source = declared_as "Source" [] (port "out" ∷ [])

abbrev sink : Element
sink = declared_as "Sink" (port "in" ∷ []) []

abbrev start : Generator
start = record {
  graph = no_graph;
  composites = [];
  elements = [];
  queues = [];
  next_object = 0;
  memory_regions = [];
  populates = [];
  compares = [];
}

-- One instance of a composite that connects two instances.
abbrev pair : Items
pair =
    next_item (element_instance "Source" "a" []) (
      next_item (element_instance "Sink" "b" [])
        (next_item (connection "a" "b" none none) no_items))

abbrev whole_program : Item
whole_program = program (
    next_item (element source) (
      next_item (element sink)
        (next_item (composite "Pair" pair) (next_item (composite_instance "Pair" "p") no_items))))

abbrev made : Generator
made = record {
  graph = record no_graph {
    elements = ("Source", source) ∷ ("Sink", sink) ∷ [];
    instances =
        ("_p_a", node "_p_a" source (("out", ("_p_b", single "in")) ∷ []) [] none)
        ∷ ("_p_b", node "_p_b" sink [] (("in", ("_p_a", "out") ∷ []) ∷ []) none)
        ∷ [];
  };
  composites = ("Pair", pair) ∷ [];
  elements = ("Source", source) ∷ ("Sink", sink) ∷ [];
  queues = [];
  next_object = 0;
  memory_regions = [];
  populates = [];
  compares = [];
}

interpret_run : interpret 3 [] start whole_program ≡ ok made
unfolding interpret get put get_node_name add_element connect note_element new_element_instance
    port_names
interpret_run = refl

-- The name of an instance does not tell the composites around it.
same_name : get_node_name ("a" ∷ []) "b_c" ≡ get_node_name ("a" ∷ "b" ∷ []) "c"
unfolding get_node_name
same_name = refl

pass_run : program_to_graph_pass 3 whole_program "tmp" none [] 0 ≡ ok made
unfolding program_to_graph_pass get put get_node_name add_element connect note_element
    new_element_instance port_names
pass_run = refl

program_to_graph_pass-IsDeclared_example : IsDeclared made.graph
program_to_graph_pass-IsDeclared_example =
    program_to_graph_pass-IsDeclared 3 whole_program "tmp" none [] 0 made tt pass_run

abbrev rank : String → ℕ
rank k = 1

start-IsRanked : IsRanked rank []
unfolding get
start-IsRanked = λ k l h. absurd (ground (arith, h))

program-IsOrdered : IsOrdered rank whole_program
unfolding IsOrdered height
program-IsOrdered = (tt, (tt, ((omega arith, (tt, (tt, (tt, tt)))), (tt, tt))))

program_height : height rank whole_program ≤ 3
unfolding height
program_height = omega arith

interpret_ends_example : interpret 3 [] start whole_program ≢ err out_of_fuel
interpret_ends_example =
    interpret_ends 3 rank [] start whole_program start-IsRanked program-IsOrdered program_height
