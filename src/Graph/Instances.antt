-- ===== src/Graph/Instances.antt =====
-- floem/graph.py, `newElementInstance`, and the ends of a smart queue, `Queue` of floem/graph_ir.py.
pub mod Typed
mod Samples
use floem.Prelude.{
  ℕ, String, Bool, true, false, not, ◌&&◌, Option, none, some, List, [], ◌∷◌, ◌==◌, Equality,
  String_equality, if◌then◌else◌, Result, ok, err, ◌>>=◌, ◌>>◌, Dict, get, put, length, nat_eq,
}
use floem.Graph.{
  GraphError, exception, key_error, Special, queue, Element, Node, StateNode, Graph, lookup,
}
use floem.Graph.Build.{check}

-- What a queue holds for an end: an instance of the user's program, which has a name and an element,
-- or the instance of the graph that it has become. The latter is no equal of an instance of the program.
pub data QueueEnd : Type 0 where
  user_end : String → String → QueueEnd
  node_end : String → QueueEnd

-- `Queue.enq`, `Queue.deq` and `Queue.clean`. Elements share a queue by its name.
pub record Queue : Type 0 where
  pub enq : List QueueEnd
  pub deq : Option QueueEnd
  pub clean : Option QueueEnd

-- `ElementInstance.__eq__`, of an instance of the program; None is equal to no end but None.
unfoldable pub end_eq : Option QueueEnd → Option QueueEnd → Bool
end_eq none none = true
end_eq (some (user_end a e)) (some (user_end b f)) = a == b && e == f
end_eq (some (node_end a)) (some (node_end b)) = a == b
end_eq _ _ = false

-- `e.special.enq[index] = ret`, where `index` is of the first end that is the user's instance; none if
-- there is no such end.
unfoldable pub replace_end : List QueueEnd → Option QueueEnd → QueueEnd → Option (List QueueEnd)
unfolding end_eq
replace_end [] user new = none
replace_end (x ∷ l) user new =
    let rest = replace_end l user new in
    if end_eq (some x) user
    then some (new ∷ l)
    else (elim rest [ none ↦ none | some k ↦ some (x ∷ k) ])

unfoldable pub link_queue : Queue → Option QueueEnd → QueueEnd → Result GraphError Queue
unfolding replace_end
link_queue q user new = elim (replace_end q.enq user new) [
  | some l ↦ ok (record q { enq = l })
  | none ↦
      if end_eq q.deq user
      then ok (record q { deq = some new })
      else if end_eq q.clean user
      then ok (record q { clean = some new })
      else err exception
]

-- The queue of an element, if it has one, gets the instance in the user's instance's place.
unfoldable pub link_special :
    Dict Queue → Special → Option QueueEnd → String → Result GraphError (Dict Queue)
unfolding link_queue
link_special queues (queue q) user name = do
  old ← lookup queues q
  new ← link_queue old user (node_end name)
  ok (put queues q new)
link_special queues _ user name = ok queues

-- The loop over the state arguments, of as many parameters.
unfoldable pub check_states :
    Dict StateNode → List (String × String) → List String → Result GraphError (Unit {0})
check_states states ((type, local_name) ∷ params) (s ∷ args) = do
  inst ← lookup states s
  check (inst.state.name == type) exception
  check_states states params args
check_states states _ _ = ok tt

-- `Graph.newElementInstance`. An instance of the same name is replaced.
unfoldable pub new_element_instance :
    Graph
    → Dict Queue
    → String
    → String
    → List String
    → Option QueueEnd
    → Result GraphError (Graph × Dict Queue)
unfolding link_special check_states
new_element_instance g queues element name args user = elim (get g.elements element) [
  | none ↦ err exception
  | some e ↦ do
    linked ← link_special queues e.special user name
    check (nat_eq (length args) (length e.state_params)) exception
    check_states g.state_instances e.state_params args
    ok (
      record g {
        instances = put g.instances name (record {
          name = name;
          element = e;
          output2ele = [];
          input2ele = [];
          state_args = args;
          core_id = false;
          thread = none;
          join_ports_same_thread = none;
        });
      },
      linked,
    )
]
