-- ===== src/Graph/Starts.antt =====
-- Tests on one instance: `is_start`, `process_of_thread`, `device_of_thread` and
-- `check_input_ports` of floem/graph.py; `unused`, `no_inport` and `check_input_ports` of
-- `ElementNode` in floem/graph_ir.py.
pub mod Fed
mod Samples
use floem.Prelude.{
  ℕ, String, Bool, true, false, not, ◌&&◌, ◌||◌, Option, none, some, List, [], ◌∷◌, ◌++◌, ◌==◌,
  Equality, String_equality, if◌then◌else◌, Result, ok, err, ◌>>=◌, ◌>>◌, Dict, get, values, has,
  contains, length, ltb, nat_eq,
}
use floem.Graph.{GraphError, conflict_connection, Special, clean, Element, Node, Graph, lookup}
use floem.Graph.Build.{option_text_eq, check}

-- `is_queue_clean`
unfoldable pub is_queue_clean : Node → Bool
is_queue_clean i = elim i.element.special [ clean ↦ true | _ ↦ false ]

-- The loops of `is_start`: some instance on the same thread leads to the instance.
unfoldable pub fed_by : Graph → Option String → List (String × String) → Result GraphError Bool
fed_by g thread [] = ok false
fed_by g thread ((name, port) ∷ l) =
    let rest = fed_by g thread l in
    (do
      other ← lookup g.instances name
      if option_text_eq other.thread thread then ok true else rest)

unfoldable pub fed_by_any :
    Graph → Option String → List (List (String × String)) → Result GraphError Bool
unfolding fed_by
fed_by_any g thread [] = ok false
fed_by_any g thread (k ∷ l) =
    let rest = fed_by_any g thread l in (do b ← fed_by g thread k; if b then ok true else rest)

-- `Graph.is_start`
unfoldable pub is_start : Graph → Node → Result GraphError Bool
unfolding is_queue_clean fed_by_any
is_start g my =
    if is_queue_clean my
    then ok false
    else (do b ← fed_by_any g my.thread (values my.input2ele); ok (not b))

-- `ElementNode.unused` and `no_inport`
unfoldable pub unused : Node → Bool
unfolding is_queue_clean
unused i =
    if i.core_id
    then false
    else if is_queue_clean i
    then false
    else if ltb 0 (length i.element.inports)
    then nat_eq (length i.input2ele) 0
    else ltb 0 (length i.element.outports) && nat_eq (length i.output2ele) 0

unfoldable pub no_inport : Node → Bool
no_inport i = nat_eq (length i.element.inports) 0

-- `Graph.process_of_thread` and `device_of_thread`
unfoldable pub process_of_thread : Graph → String → String
process_of_thread g t = elim (get g.thread2process t) [ none ↦ g.default_process | some p ↦ p ]

unfoldable pub device_of_thread : Graph → String → String × List ℕ
device_of_thread g t = elim (get g.thread2device t) [ none ↦ ("CPU", 0 ∷ []) | some d ↦ d ]

-- `ElementNode.check_input_ports` and `Graph.check_input_ports`: each input port of an instance
-- that several are connected of is connected once.
unfoldable pub check_each_port : List (List (String × String)) → Result GraphError (Unit {0})
check_each_port [] = ok tt
check_each_port (k ∷ l) = if ltb 1 (length k) then err conflict_connection else check_each_port l

unfoldable pub check_node_ports : Node → Result GraphError (Unit {0})
unfolding check_each_port
check_node_ports i =
    if ltb 1 (length i.input2ele) then check_each_port (values i.input2ele) else ok tt

unfoldable pub check_nodes : List Node → Result GraphError (Unit {0})
unfolding check_node_ports
check_nodes [] = ok tt
check_nodes (i ∷ l) = do check_node_ports i; check_nodes l

unfoldable pub check_input_ports : Graph → Result GraphError (Unit {0})
unfolding check_nodes
check_input_ports g = check_nodes (values g.instances)
