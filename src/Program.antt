-- ===== src/Program.antt =====
-- floem/program.py: the statements of a program, and `GraphGenerator`, which makes the graph.
pub mod Statements
mod Calls
pub mod Kept
pub mod Declared
pub mod Ends
mod Samples
unfoldable pub use Statements.*
use Prim.Native.String.{◌++◌ as joined}
use floem.Prelude.{
  ℕ, zero, suc, ◌+◌, String, Bool, true, false, not, ◌&&◌, Option, none, some, List, [], ◌∷◌, ◌++◌,
  ◌==◌, Equality, String_equality, if◌then◌else◌, Result, ok, err, ◌>>=◌, ◌>>◌, Dict, get, put, has,
  map,
}
use floem.Graph.{
  GraphError, exception, out_of_fuel, Init, no_init, text_init, address_of, list_init, other_init,
  Inits, last_init, next_init, Special, plain, Element, State, Node, Trigger, Api, Before,
  instance_before, group_before, Graph, lookup,
}
use floem.Graph.Build.{check, add_element, add_state, new_state_instance}
use floem.Graph.Connect.{connect, set_instance}
use floem.Graph.Instances.{Queue, QueueEnd, user_end, new_element_instance}
use floem.Graph.Edit.{add_pipeline_state}
use floem.Storage.{
  StorageState, PopulateState, add, add_element_instance, clone, clone_populate, change_entry,
}

-- `GraphGenerator`, with the queues that elements share, the number of the next object, and the
-- memory regions and the tables `inject_populates` and `probe_compares` of the graph.
pub record Generator : Type 0 where
  pub graph : Graph
  pub composites : Dict Items
  pub elements : Dict Element
  pub queues : Dict Queue
  pub next_object : ℕ
  pub memory_regions : List MemoryRegion
  pub populates : Dict PopulateState
  pub compares : Dict StorageState

abbrev pub set_graph : Generator → Graph → Generator
set_graph s g = record s { graph = g }

unfoldable pub add_trigger : Generator → List String → String → Generator
unfolding get_resource_name
add_trigger s stack name = record s {
  graph = record s.graph {
    threads_internal =
        s.graph.threads_internal
        ++ record {
          object = s.next_object;
          name = get_resource_name stack name;
          call_instance = none;
        }
          ∷ [];
  };
  next_object = suc s.next_object;
}

unfoldable pub add_api :
    Generator
    → List String
    → String
    → List String
    → Option String
    → Option String
    → List String
    → Generator
unfolding get_resource_name
add_api s stack name call_types return_type default outputs = record s {
  graph = record s.graph {
    api_outputs = s.graph.api_outputs ++ map (get_node_name stack) outputs;
    threads_api =
        s.graph.threads_api
        ++ record {
          object = s.next_object;
          name = get_resource_name stack name;
          call_types = call_types;
          return_type = return_type;
          default_val = default;
          call_instance = none;
          return_instance = none;
          return_port = none;
        }
          ∷ [];
  };
  next_object = suc s.next_object;
}

-- An element instance with one argument, a state that is filled.
unfoldable pub note_element : Dict PopulateState → String → List String → Dict PopulateState
note_element d name (a ∷ []) = change_entry (λ p. add_element_instance p name) d a
note_element d name _ = d

-- The loop over the statements of a program.
unfoldable pub interpret_each :
    (Generator → Item → Result GraphError Generator)
    → Generator
    → Items
    → Result GraphError Generator
interpret_each call s no_items = ok s
interpret_each call s (next_item x l) = do t ← call s x; interpret_each call t l

-- The statements that are no program and no composite instance.
unfoldable pub interpret_one : List String → Generator → Item → Result GraphError Generator
unfolding add_element add_state connect new_element_instance new_state_instance add_pipeline_state
    map_resource start_core before_name add_trigger add_api adjust_init
interpret_one stack s (program l) = ok s
interpret_one stack s (composite_instance e name) = ok s
interpret_one stack s (element e) = do
  (new, g) ← add_element s.graph e
  ok (record s { graph = g; elements = put s.elements e.name e })
interpret_one stack s (state x) = do (new, g) ← add_state s.graph x; ok (set_graph s g)
interpret_one stack s (element_instance e name args) = do
  (g, q) ←
      new_element_instance s.graph s.queues e (get_node_name stack name)
        (map (get_node_name stack) args) (some (user_end name e))
  ok (record s {
    graph = g;
    queues = q;
    populates = note_element s.populates (get_node_name stack name) args;
  })
interpret_one stack s (state_instance x name init) = ok (record s {
  graph = new_state_instance s.graph x (get_node_name stack name) (adjust_init s.graph stack init);
  populates =
      change_entry (λ p. record p { storage = add p.storage (get_node_name stack name) })
        s.populates name;
  compares = change_entry (λ c. add c (get_node_name stack name)) s.compares name;
})
interpret_one stack s (memory_region r) =
    ok (record s { memory_regions = s.memory_regions ++ r ∷ [] })
interpret_one stack s (populate_state p) =
    ok (record s { populates = put s.populates p.storage.state_instance (clone_populate p) })
interpret_one stack s (compare_state c) =
    ok (record s { compares = put s.compares c.state_instance (clone c) })
interpret_one stack s (connection a b out1 in2) = do
  g ← connect s.graph (get_node_name stack a) (get_node_name stack b) out1 in2 false
  ok (set_graph s g)
interpret_one stack s (composite name l) = ok (record s { composites = put s.composites name l })
interpret_one stack s (internal_trigger name) = ok (add_trigger s stack name)
interpret_one stack s (api_function name call_types return_type default outputs) =
    ok (add_api s stack name call_types return_type default outputs)
interpret_one stack s (resource_map resource inst) = do
  g ← map_resource s.graph (get_node_name stack inst) (get_resource_name stack resource)
  ok (set_graph s g)
interpret_one stack s (resource_order a b) = ok (
    set_graph s (record s.graph {
      threads_order =
          s.graph.threads_order ++ (before_name stack a, get_resource_name stack b) ∷ [];
    }))
interpret_one stack s (process_map p thread) = ok (
    set_graph s (record s.graph {
      thread2process = put s.graph.thread2process (get_resource_name stack thread) p;
    }))
interpret_one stack s (device_map device thread cores) = ok (
    set_graph s (record s.graph {
      thread2device = put s.graph.thread2device (get_resource_name stack thread) (device, cores);
    }))
interpret_one stack s (master_process p) =
    ok (set_graph s (record s.graph { master_process = some p }))
interpret_one stack s (pipeline_state inst x) = do
  g ← add_pipeline_state s.graph (get_node_name stack inst) x
  ok (set_graph s g)
interpret_one stack s (start_with_core_id inst) = do g ← start_core s.graph inst; ok (set_graph s g)

-- The statements of a program, or of the program of an instance's composite, with the names around
-- them; none for another statement.
unfoldable pub statements_of :
    Generator → List String → Item → Result GraphError (Option (List String × Items))
statements_of s stack (program l) = ok (some (stack, l))
statements_of s stack (composite_instance e name) = do
  l ← lookup s.composites e
  ok (some (stack ++ name ∷ [], l))
statements_of s stack _ = ok none

-- `GraphGenerator.interpret` and `interpret_CompositeInstance`. The first number bounds the depth of
-- the calls.
unfoldable pub interpret : ℕ → List String → Generator → Item → Result GraphError Generator
unfolding statements_of interpret_each interpret_one
interpret zero stack s x = err out_of_fuel
interpret (suc fuel) stack s x = do
  inner ← statements_of s stack x
  elim inner [ some p ↦ interpret_each (interpret fuel p.0) s p.1 | none ↦ interpret_one stack s x ]

-- The rest of the call of `interpret`, once it has the statements.
abbrev pub interpret_inner :
    ℕ → List String → Generator → Item → Option (List String × Items) → Result GraphError Generator
interpret_inner fuel stack s x inner = elim inner [
  | some p ↦ interpret_each (interpret fuel p.0) s p.1
  | none ↦ interpret_one stack s x
]

-- `Graph.__init__`, and `GraphGenerator.__init__` with it
unfoldable pub new_graph : String → Option Graph → Graph
new_graph default original = record {
  elements = elim original [ none ↦ [] | some g ↦ g.elements ];
  instances = [];
  states = elim original [ none ↦ [] | some g ↦ g.states ];
  state_instances = elim original [ none ↦ [] | some g ↦ g.state_instances ];
  state_order = [];
  state_instance_order = [];
  threads_internal = [];
  threads_api = [];
  threads_order = [];
  threads_roots = [];
  api_outputs = [];
  pipeline_states = [];
  processes = [];
  devices = [];
  thread2process = [];
  thread2device = [];
  process2device = [];
  default_process = default;
  master_process = none;
}

unfoldable pub new_generator : String → Option Generator → Dict Queue → ℕ → Generator
unfolding new_graph
new_generator default original queues next = record {
  graph = new_graph default (elim original [ none ↦ none | some s ↦ some s.graph ]);
  composites = [];
  elements = [];
  queues = queues;
  next_object = next;
  memory_regions = [];
  populates = elim original [ none ↦ [] | some s ↦ s.populates ];
  compares = elim original [ none ↦ [] | some s ↦ s.compares ];
}

-- `program_to_graph_pass`, which goes on from the elements, states and tables of an original graph.
unfoldable pub program_to_graph_pass :
    ℕ → Item → String → Option Generator → Dict Queue → ℕ → Result GraphError Generator
unfolding interpret new_generator
program_to_graph_pass fuel x default original queues next =
    interpret fuel [] (new_generator default original queues next) x
