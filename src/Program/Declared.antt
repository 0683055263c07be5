-- ===== src/Program/Declared.antt =====
-- Each instance of a graph that `interpret` makes is one of a declared element.
use floem.Prelude.{
  [], get, Dict, ℕ, zero, suc, String, ◌≡◌, refl, subst, false, Option, none, some, List, arith,
  String_equality, Result, ok, ok-of_bind, ok-injective, map,
}
use floem.Graph.{GraphError}
use floem.Graph.Build.{add_element, add_state}
use floem.Graph.Connect.{connect}
use floem.Graph.Instances.{user_end, new_element_instance}
use floem.Graph.Edit.{add_pipeline_state}
use floem.Graph.Instances.{Queue}
use floem.Program.{
  Item, program, element, state, element_instance, state_instance, connection, composite,
  composite_instance, internal_trigger, api_function, resource_map, resource_order, process_map,
  device_map, master_process, pipeline_state, start_with_core_id, memory_region, populate_state,
  compare_state, Items, no_items, next_item, Generator, get_node_name, get_resource_name,
  adjust_init, map_resource, start_core, statements_of, interpret_each, interpret_one,
  interpret_inner, interpret, new_generator, program_to_graph_pass, add_trigger, add_api,
}
use floem.Program.Kept.{
  IsDeclared, add_element-IsDeclared, add_state-IsDeclared, new_state_instance-IsDeclared,
  new_element_instance-IsDeclared, connect-IsDeclared, map_resource-IsDeclared,
  start_core-IsDeclared, like-IsDeclared, add_pipeline_state-IsDeclared,
}

returned :
    {s t : Generator}
    → ◌≡◌ {A = Result GraphError Generator} (ok s) (ok t)
    → IsDeclared s.graph
    → IsDeclared t.graph
returned h w = subst (λ (t : Generator). IsDeclared t.graph) (ok-injective h) w

-- A statement that is neither a program nor a composite instance.
interpret_one-IsDeclared :
    (stack : List String) (s t : Generator) (x : Item)
    → IsDeclared s.graph
    → interpret_one stack s x ≡ ok t
    → IsDeclared t.graph
unfolding interpret_one add_trigger add_api
interpret_one-IsDeclared stack s t (program l) w h = returned h w
interpret_one-IsDeclared stack s t (composite_instance e name) w h = returned h w
interpret_one-IsDeclared stack s t (element e) w h =
    let ((new, g), a, b) = ok-of_bind (add_element s.graph e) _ h in
    returned b (add_element-IsDeclared s.graph g e new w a)
interpret_one-IsDeclared stack s t (state x) w h =
    let ((new, g), a, b) = ok-of_bind (add_state s.graph x) _ h in
    returned b (add_state-IsDeclared s.graph g x new w a)
interpret_one-IsDeclared stack s t (element_instance e name args) w h =
    let ((g, q), a, b) =
      ok-of_bind
        (new_element_instance s.graph s.queues e (get_node_name stack name)
          (map (get_node_name stack) args) (some (user_end name e)))
        _ h in
    returned b (
      new_element_instance-IsDeclared s.graph g s.queues q e (get_node_name stack name)
        (map (get_node_name stack) args) (some (user_end name e)) w a)
interpret_one-IsDeclared stack s t (state_instance x name init) w h = returned h (
    new_state_instance-IsDeclared s.graph x (get_node_name stack name)
      (adjust_init s.graph stack init) w)
interpret_one-IsDeclared stack s t (connection a b out1 in2) w h =
    let (g, x, y) =
      ok-of_bind (connect s.graph (get_node_name stack a) (get_node_name stack b) out1 in2 false) _
        h in
    returned y
      (connect-IsDeclared s.graph g (get_node_name stack a) (get_node_name stack b) out1 in2 w x)
interpret_one-IsDeclared stack s t (composite name l) w h = returned h w
interpret_one-IsDeclared stack s t (internal_trigger name) w h =
    returned h (like-IsDeclared s.graph _ w refl refl refl)
interpret_one-IsDeclared stack s t (api_function name c r d o) w h =
    returned h (like-IsDeclared s.graph _ w refl refl refl)
interpret_one-IsDeclared stack s t (resource_map resource inst) w h =
    let (g, a, b) =
      ok-of_bind
        (map_resource s.graph (get_node_name stack inst) (get_resource_name stack resource)) _ h in
    returned b (
      map_resource-IsDeclared s.graph g (get_node_name stack inst)
        (get_resource_name stack resource) w a)
interpret_one-IsDeclared stack s t (resource_order a b) w h =
    returned h (like-IsDeclared s.graph _ w refl refl refl)
interpret_one-IsDeclared stack s t (process_map p thread) w h =
    returned h (like-IsDeclared s.graph _ w refl refl refl)
interpret_one-IsDeclared stack s t (device_map d thread cores) w h =
    returned h (like-IsDeclared s.graph _ w refl refl refl)
interpret_one-IsDeclared stack s t (master_process p) w h =
    returned h (like-IsDeclared s.graph _ w refl refl refl)
interpret_one-IsDeclared stack s t (pipeline_state inst x) w h =
    let (g, a, b) = ok-of_bind (add_pipeline_state s.graph (get_node_name stack inst) x) _ h in
    returned b (add_pipeline_state-IsDeclared s.graph g (get_node_name stack inst) x w a)
interpret_one-IsDeclared stack s t (memory_region r) w h = returned h w
interpret_one-IsDeclared stack s t (populate_state p) w h = returned h w
interpret_one-IsDeclared stack s t (compare_state c) w h = returned h w
interpret_one-IsDeclared stack s t (start_with_core_id inst) w h =
    let (g, a, b) = ok-of_bind (start_core s.graph inst) _ h in
    returned b (start_core-IsDeclared s.graph g inst w a)

interpret_each-IsDeclared :
    (call : Generator → Item → Result GraphError Generator) (s t : Generator) (l : Items)
    → ((s t : Generator) (x : Item) → IsDeclared s.graph → call s x ≡ ok t → IsDeclared t.graph)
    → IsDeclared s.graph
    → interpret_each call s l ≡ ok t
    → IsDeclared t.graph
unfolding interpret_each
interpret_each-IsDeclared call s t no_items calls w h = returned h w
interpret_each-IsDeclared call s t (next_item x l) calls w h =
    let (u, a, b) = ok-of_bind (call s x) _ h in
    interpret_each-IsDeclared call u t l calls (calls s u x w a) b

-- If `interpret` returns, starting from a graph whose instances are stored under their names, each of a
-- declared element that has as many state parameters as the instance has arguments, and whose elements
-- and state instances are stored under their names, then it leaves such a graph.
pub interpret-IsDeclared :
    (fuel : ℕ) (stack : List String) (s t : Generator) (x : Item)
    → IsDeclared s.graph
    → interpret fuel stack s x ≡ ok t
    → IsDeclared t.graph
unfolding interpret
interpret-IsDeclared zero stack s t x w h = absurd (ground (arith, h))
interpret-IsDeclared (suc fuel) stack s t x w h =
    let (inner, a, b) = ok-of_bind (statements_of s stack x) _ h in
    each_case inner b (λ stack s t x w h. interpret-IsDeclared fuel stack s t x w h)
  where
    each_case :
        (inner : Option (List String × Items))
        → interpret_inner fuel stack s x inner ≡ ok t
        → ((stack : List String) (s t : Generator) (x : Item)
            → IsDeclared s.graph
            → interpret fuel stack s x ≡ ok t
            → IsDeclared t.graph)
        → IsDeclared t.graph
    each_case none b calls = interpret_one-IsDeclared stack s t x w b
    each_case (some p) b calls =
        interpret_each-IsDeclared (interpret fuel p.0) s t p.1 (calls p.0) w b

abbrev pub IsDeclaredIfGiven : Option Generator → Type 0
IsDeclaredIfGiven none = Unit
IsDeclaredIfGiven (some s) = IsDeclared s.graph

-- If `program_to_graph_pass` returns, starting without an original graph or with one for which the
-- same holds, each instance of its graph is stored under its name, its element is declared under the
-- element's name, and it has as many state arguments as the element has parameters; and elements and
-- state instances are stored under their names.
pub program_to_graph_pass-IsDeclared :
    (fuel : ℕ) (x : Item) (default : String) (original : Option Generator) (queues : Dict Queue)
    (next : ℕ) (t : Generator)
    → IsDeclaredIfGiven original
    → program_to_graph_pass fuel x default original queues next ≡ ok t
    → IsDeclared t.graph
unfolding program_to_graph_pass get
program_to_graph_pass-IsDeclared fuel x default none queues next t w h =
    interpret-IsDeclared fuel [] (new_generator default none queues next) t x
      (record {
        elements_named = λ k e f. absurd (ground (arith, f));
        instances_declared = λ k i f. absurd (ground (arith, f));
        states_named = λ k i f. absurd (ground (arith, f));
      })
      h
program_to_graph_pass-IsDeclared fuel x default (some s) queues next t w h =
    interpret-IsDeclared fuel [] (new_generator default (some s) queues next) t x
      (record {
        elements_named = w.elements_named;
        instances_declared = λ k i f. absurd (ground (arith, f));
        states_named = w.states_named;
      })
      h
