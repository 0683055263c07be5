-- ===== src/Program/Calls.antt =====
-- The calls of `interpret_one` and the look up of a composite do not run out of a bound.
use floem.Prelude.{
  String, ◌≢◌, inl, inr, Bool, true, false, not, ◌&&◌, Option, none, some, List, [], ◌∷◌, ◌==◌,
  arith, String_equality, Result, ok, err, bind_avoids, Dict, get, put, has, length, nat_eq,
  Option-cases,
}
use floem.Graph.{
  GraphError, exception, assertion, out_of_fuel, Node, Port, Element, State, StateNode, Special,
  InPort, Graph, lookup,
}
use floem.Graph.Build.{check, add_element, add_state}
use floem.Graph.Connect.{connect, choose_outport, choose_inport, connect_output_port}
use floem.Graph.Instances.{
  Queue, QueueEnd, node_end, link_queue, link_special, replace_end, check_states,
  new_element_instance,
}
use floem.Graph.Edit.{add_pipeline_state}
use floem.Program.{
  Item, program, element, state, element_instance, connection, composite_instance, resource_map,
  pipeline_state, start_with_core_id, Generator, is_plain, map_resource, start_core, statements_of,
  interpret_one,
}

abbrev pub stuck : GraphError
stuck = out_of_fuel

pub lookup_ends : {V : Type 0} (d : Dict V) (k : String) → lookup d k ≢ err stuck
lookup_ends d k h = elim (Option-cases (get d k)) [
  | inl e ↦ ground (arith, rw (lookup, e) at h)
  | inr (v, e) ↦ ground (arith, rw (lookup, e) at h)
]

pub check_ends : (b : Bool) (e : GraphError) → e ≢ stuck → check b e ≢ err stuck
check_ends true e n h = ground (arith, h)
check_ends false e n h = n (ground (arith, h))

add_element_ends : (g : Graph) (e : Element) → add_element g e ≢ err stuck
unfolding add_element
add_element_ends g e h = elim (Option-cases (get g.elements e.name)) [
  | inl f ↦ ground (arith, rw (f, add_element) at h)
  | inr (old, f) ↦ ground (arith, rw (f, add_element) at h)
]

add_state_ends : (g : Graph) (x : State) → add_state g x ≢ err stuck
unfolding add_state
add_state_ends g x h = elim (Option-cases (get g.states x.name)) [
  | inl f ↦ ground (arith, rw (f, add_state) at h)
  | inr (old, f) ↦ ground (arith, rw (f, add_state) at h)
]

link_queue_ends :
    (q : Queue) (user : Option QueueEnd) (new : QueueEnd) → link_queue q user new ≢ err stuck
unfolding link_queue
link_queue_ends q user new h = elim (Option-cases (replace_end q.enq user new)) [
  | inl e ↦ ground (arith, rw (e, link_queue) at h)
  | inr (l, e) ↦ ground (arith, rw (e, link_queue) at h)
]

link_special_ends :
    (queues : Dict Queue) (s : Special) (user : Option QueueEnd) (name : String)
    → link_special queues s user name ≢ err stuck
unfolding link_special
link_special_ends queues (Special.queue q) user name h =
    bind_avoids (lookup queues q) _ stuck (lookup_ends queues q)
      (λ old.
        bind_avoids (link_queue old user (node_end name)) _ stuck
          (link_queue_ends old user (node_end name)) (λ new q. cc))
      h
link_special_ends queues _ user name h = ground (arith, h)

check_states_ends :
    (states : Dict StateNode) (params : List (String × String)) (args : List String)
    → check_states states params args ≢ err stuck
unfolding check_states
check_states_ends states [] args h = ground (arith, h)
check_states_ends states (p ∷ params) [] h = ground (arith, h)
check_states_ends states (p ∷ params) (s ∷ args) h =
    bind_avoids (lookup states s) _ stuck (lookup_ends states s)
      (λ i.
        bind_avoids (check (i.state.name == p.0) exception) _ stuck
          (check_ends (i.state.name == p.0) exception (λ q. cc))
          (λ u. check_states_ends states params args))
      h

new_element_instance_ends :
    (g : Graph) (queues : Dict Queue) (kind name : String) (args : List String)
    (user : Option QueueEnd)
    → new_element_instance g queues kind name args user ≢ err stuck
unfolding new_element_instance
new_element_instance_ends g queues kind name args user h =
    elim (Option-cases (get g.elements kind)) [
      | inl x ↦ ground (arith, rw (x, new_element_instance) at h)
      | inr (e, x) ↦
          bind_avoids (link_special queues e.special user name) _ stuck
            (link_special_ends queues e.special user name)
            (λ q.
              bind_avoids (check (nat_eq (length args) (length e.state_params)) exception) _ stuck
                (check_ends (nat_eq (length args) (length e.state_params)) exception (λ q. cc))
                (λ u.
                  bind_avoids (check_states g.state_instances e.state_params args) _ stuck
                    (check_states_ends g.state_instances e.state_params args) (λ u q. cc)))
            (rw (x, new_element_instance) at h)
    ]

choose_outport_ends : (e : Element) (p : Option String) → choose_outport e p ≢ err stuck
unfolding choose_outport
choose_outport_ends e (some p) h = ground (arith, h)
choose_outport_ends e none h = only_port e.outports h
  where
    only_port :
        (l : List Port)
        → ◌≢◌ {A = Result GraphError String}
            (elim l [
              | [] ↦ err assertion
              | p ∷ l ↦ elim l [ [] ↦ ok p.name | _ ∷ _ ↦ err assertion ]
            ])
            (err stuck)
    only_port [] h = ground (arith, h)
    only_port (p ∷ []) h = ground (arith, h)
    only_port (p ∷ q ∷ l) h = ground (arith, h)

choose_inport_ends : (e : Element) (p : Option String) → choose_inport e p ≢ err stuck
unfolding choose_inport
choose_inport_ends e (some p) h = ground (arith, h)
choose_inport_ends e none h = ground (arith, h)

connect_output_port_ends :
    (i : Node) (port f : String) (r : InPort) (overwrite : Bool)
    → connect_output_port i port f r overwrite ≢ err stuck
unfolding connect_output_port
connect_output_port_ends i port f r overwrite h = ground (arith, h)

connect_ends :
    (g : Graph) (a b : String) (out1 in2 : Option String) → connect g a b out1 in2 false ≢ err stuck
unfolding connect
connect_ends g a b out1 in2 =
    bind_avoids (lookup g.instances a) _ stuck (lookup_ends g.instances a) (λ i1.
      bind_avoids (lookup g.instances b) _ stuck (lookup_ends g.instances b) (λ i2.
        bind_avoids (choose_outport i1.element out1) _ stuck (choose_outport_ends i1.element out1)
          (λ port.
            bind_avoids (choose_inport i2.element in2) _ stuck (choose_inport_ends i2.element in2)
              (λ r.
                bind_avoids (connect_output_port i1 port i2.name r false) _ stuck
                  (connect_output_port_ends i1 port i2.name r false)
                  (λ j.
                    bind_avoids (lookup (put g.instances a j) b) _ stuck
                      (lookup_ends (put g.instances a j) b) (λ k q. cc))))))

map_resource_ends : (g : Graph) (inst resource : String) → map_resource g inst resource ≢ err stuck
unfolding map_resource
map_resource_ends g inst resource =
    bind_avoids (lookup g.instances inst) _ stuck (lookup_ends g.instances inst) (λ i.
      bind_avoids
        (check
          (not (
            (elim i.thread [ none ↦ false | some t ↦ not (resource == t) ])
            && is_plain i.element.special))
          exception)
        _ stuck (check_ends _ exception (λ q. cc)) (λ u q. cc))

start_core_ends : (g : Graph) (inst : String) → start_core g inst ≢ err stuck
unfolding start_core
start_core_ends g inst =
    bind_avoids (lookup g.instances inst) _ stuck (lookup_ends g.instances inst) (λ i q. cc)

add_pipeline_state_ends : (g : Graph) (inst x : String) → add_pipeline_state g inst x ≢ err stuck
unfolding add_pipeline_state
add_pipeline_state_ends g inst x =
    bind_avoids (check (not (has g.pipeline_states inst)) assertion) _ stuck
      (check_ends (not (has g.pipeline_states inst)) assertion (λ q. cc)) (λ u q. cc)

pub interpret_one_ends :
    (stack : List String) (s : Generator) (x : Item) → interpret_one stack s x ≢ err stuck
unfolding interpret_one
interpret_one_ends stack s (element e) =
    bind_avoids (add_element s.graph e) _ stuck (add_element_ends s.graph e) (λ a q. cc)
interpret_one_ends stack s (state x) =
    bind_avoids (add_state s.graph x) _ stuck (add_state_ends s.graph x) (λ a q. cc)
interpret_one_ends stack s (element_instance e name args) =
    bind_avoids (new_element_instance s.graph s.queues e _ _ _) _ stuck
      (new_element_instance_ends s.graph s.queues e _ _ _) (λ a q. cc)
interpret_one_ends stack s (connection a b out1 in2) =
    bind_avoids (connect s.graph _ _ out1 in2 false) _ stuck (connect_ends s.graph _ _ out1 in2)
      (λ a q. cc)
interpret_one_ends stack s (resource_map resource inst) =
    bind_avoids (map_resource s.graph _ _) _ stuck (map_resource_ends s.graph _ _) (λ a q. cc)
interpret_one_ends stack s (pipeline_state inst x) =
    bind_avoids (add_pipeline_state s.graph _ x) _ stuck (add_pipeline_state_ends s.graph _ x)
      (λ a q. cc)
interpret_one_ends stack s (start_with_core_id inst) =
    bind_avoids (start_core s.graph inst) _ stuck (start_core_ends s.graph inst) (λ a q. cc)
interpret_one_ends stack s _ = λ h. ground (arith, h)

pub statements_of_ends :
    (s : Generator) (stack : List String) (x : Item) → statements_of s stack x ≢ err stuck
unfolding statements_of
statements_of_ends s stack (program l) h = ground (arith, h)
statements_of_ends s stack (composite_instance e name) h =
    bind_avoids (lookup s.composites e) _ stuck (lookup_ends s.composites e) (λ l q. cc) h
statements_of_ends s stack _ h = ground (arith, h)
