-- ===== src/Graph/Edit.antt =====
-- floem/graph.py: removing and changing instances, and reading their fields.
pub mod Deleted
mod Elements
pub mod Refined
mod Samples
use floem.Prelude.{
  ℕ, zero, suc, String, Bool, true, false, not, ◌&&◌, ◌||◌, Option, none, some, List, [], ◌∷◌, ◌++◌,
  ◌==◌, Equality, String_equality, if◌then◌else◌, Result, ok, err, ◌>>=◌, ◌>>◌, Dict, get, put,
  remove, has, values, length, ltb, filter,
}
use floem.Graph.{
  GraphError, assertion, exception, key_error, type_error, undefined_port, undefined_instance,
  Special, queue, Port, Element, InPort, single, several, Node, Graph, lookup, find_port,
}
use floem.Graph.Build.{check}
use floem.Graph.Connect.{set_instance}
use floem.Graph.Instances.{Queue, QueueEnd, node_end, end_eq}

-- The first loop of `delete_instance`, over what one input port notes, and over all input ports.
unfoldable pub drop_output :
    Dict Node → String → List (String × String) → Result GraphError (Dict Node)
drop_output d name [] = ok d
drop_output d name ((next, port) ∷ l) = do
  other ← lookup d next
  (this, r) ← lookup other.output2ele port
  let e = put d next (record other { output2ele = remove other.output2ele port })
  drop_output (if this == name then e else d) name l

unfoldable pub drop_outputs :
    Dict Node → String → List (List (String × String)) → Result GraphError (Dict Node)
unfolding drop_output
drop_outputs d name [] = ok d
drop_outputs d name (l ∷ k) = do e ← drop_output d name l; drop_outputs e name k

-- The second loop of `delete_instance`. A list of input ports is no key.
unfoldable pub drop_noted : Node → String → String → InPort → Result GraphError Node
drop_noted other name port (several l) = err type_error
drop_noted other name port (single q) = do
  l ← lookup other.input2ele q
  let k = filter (λ x. not (x.0 == name && x.1 == port)) l
  ok (record other {
    input2ele = if ltb 0 (length k) then put other.input2ele q k else remove other.input2ele q;
  })

unfoldable pub drop_inputs :
    Dict Node → String → Dict (String × InPort) → Result GraphError (Dict Node)
unfolding drop_noted
drop_inputs d name [] = ok d
drop_inputs d name ((port, (next, r)) ∷ o) = do
  other ← lookup d next
  new ← drop_noted other name port r
  drop_inputs (put d next new) name o

-- `Graph.delete_instance`
unfoldable pub delete_instance : Graph → String → Result GraphError Graph
unfolding drop_outputs drop_inputs values
delete_instance g name = do
  i ← lookup g.instances name
  d ← drop_outputs (remove g.instances name) name (values i.input2ele)
  e ← drop_inputs d name i.output2ele
  ok (record g { instances = e })

-- `q.enq.remove(instance)`, where the instance is there.
unfoldable pub remove_end : List QueueEnd → String → List QueueEnd
unfolding end_eq
remove_end [] name = []
remove_end (x ∷ l) name =
    if end_eq (some x) (some (node_end name)) then l else x ∷ remove_end l name

unfoldable pub unlink_special : Dict Queue → Special → String → Result GraphError (Dict Queue)
unfolding remove_end
unlink_special queues (queue q) name = do
  old ← lookup queues q
  ok (put queues q (record old { enq = remove_end old.enq name }))
unlink_special queues _ name = ok queues

unfoldable pub all_empty : List (List (String × String)) → Bool
all_empty [] = true
all_empty (l ∷ k) = not (ltb 0 (length l)) && all_empty k

-- `Graph.deleteElementInstance`
unfoldable pub delete_element_instance :
    Graph → Dict Queue → String → Bool → Result GraphError (Graph × Dict Queue)
unfolding unlink_special all_empty values
delete_element_instance g queues name force = do
  i ← lookup g.instances name
  check (force || all_empty (values i.input2ele)) assertion
  check (force || not (ltb 0 (length (values i.output2ele)))) exception
  unlinked ← unlink_special queues i.element.special name
  ok (record g { instances = remove g.instances name }, unlinked)

-- `Graph.get_thread_of` and `Graph.set_thread`
unfoldable pub get_thread_of : Graph → String → Result GraphError (Option String)
get_thread_of g name = do i ← lookup g.instances name; ok i.thread

unfoldable pub set_thread : Graph → String → Option String → Result GraphError Graph
set_thread g name t = do
  i ← lookup g.instances name
  ok (set_instance g name (record i { thread = t }))

-- `Graph.get_cores_from_thread` and `Graph.get_device_from_thread`
unfoldable pub get_cores_from_thread : Graph → String → List ℕ
get_cores_from_thread g t = elim (get g.thread2device t) [ none ↦ 0 ∷ [] | some d ↦ d.1 ]

unfoldable pub get_device_from_thread : Graph → String → String
get_device_from_thread g t = elim (get g.thread2device t) [ none ↦ "CPU" | some d ↦ d.0 ]

-- `Graph.add_pipeline_state`
unfoldable pub add_pipeline_state : Graph → String → String → Result GraphError Graph
add_pipeline_state g inst state = do
  check (not (has g.pipeline_states inst)) assertion
  ok (record g { pipeline_states = put g.pipeline_states inst state })

-- `Graph.clear_APIs`
unfoldable pub clear_threads : Dict Node → Dict Node
clear_threads [] = []
clear_threads ((k, i) ∷ d) = (k, record i { thread = none }) ∷ clear_threads d

unfoldable pub clear_apis : Graph → Graph
unfolding clear_threads
clear_apis g = record g {
  threads_api = [];
  threads_internal = [];
  instances = clear_threads g.instances;
}

-- `Graph.is_state` and `Graph.has_element_instance`
unfoldable pub is_state : Graph → String → Bool
is_state g name = has g.states name

unfoldable pub has_element_instance : Graph → String → Bool
has_element_instance g name = has g.instances name

-- `Graph.get_inport_argtypes` and `Graph.get_outport_argtypes`
unfoldable pub port_argtypes : String → List Port → Result GraphError (List String)
unfolding find_port
port_argtypes name l = elim (find_port name l) [
  | none ↦ err undefined_port
  | some p ↦ ok p.argtypes
]

unfoldable pub get_inport_argtypes : Graph → String → String → Result GraphError (List String)
unfolding port_argtypes
get_inport_argtypes g name port = elim (get g.instances name) [
  | none ↦ err undefined_instance
  | some i ↦ port_argtypes port i.element.inports
]

unfoldable pub get_outport_argtypes : Graph → String → String → Result GraphError (List String)
unfolding port_argtypes
get_outport_argtypes g name port = elim (get g.instances name) [
  | none ↦ err undefined_instance
  | some i ↦ port_argtypes port i.element.outports
]
