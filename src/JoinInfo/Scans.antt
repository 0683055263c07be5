-- ===== src/JoinInfo/Scans.antt =====
-- floem/join_handling.py, the first loop of `annotate_join_info`: it finds the join instances.
use floem.Prelude.{
  String, not, ◌&&◌, none, some, List, [], ◌∷◌, ◌++◌, String_equality, ×_equality, if◌then◌else◌,
  Result, ok, err, ◌>>=◌, ◌>>◌, Dict, get, put, has, contains, length, filter, ltb, nat_eq,
}
use floem.Topo.{TopoError}
use floem.Graph.{GraphError, value_error, assertion, Port, Node, Graph, lookup}
use floem.Graph.Build.{check, option_text_eq}
use floem.Graph.Connect.{set_instance}
use floem.Joins.{JoinError}
use floem.Program.{is_plain}

pub data InfoError : Type 0 where
  join : JoinError → InfoError
  graph : GraphError → InfoError
  topo : TopoError → InfoError

unfoldable pub of_graph : {A : Type 0} → Result GraphError A → Result InfoError A
of_graph (ok a) = ok a
of_graph (err e) = err (graph e)

unfoldable pub of_join : {A : Type 0} → Result JoinError A → Result InfoError A
of_join (ok a) = ok a
of_join (err e) = err (join e)

unfoldable pub of_topo : {A : Type 0} → Result TopoError A → Result InfoError A
of_topo (ok a) = ok a
of_topo (err e) = err (topo e)

-- `nodes_same_thread`, `ports_same_thread` and `save`
pub record Scan : Type 0 where
  pub nodes : List (String × String)
  pub ports : List Port
  pub save : Dict (List String)

abbrev pub no_scan : Scan
no_scan = record { nodes = []; ports = []; save = [] }

unfoldable pub save_each : Dict (List String) → List (String × String) → Dict (List String)
save_each save [] = save
save_each save ((prev, port) ∷ l) =
    save_each
      (elim (get save prev) [
        | some k ↦ put save prev (k ++ port ∷ [])
        | none ↦ put save prev (port ∷ [])
      ])
      l

unfoldable pub first_of : List (String × String) → Result GraphError (String × String)
first_of [] = err value_error
first_of (x ∷ l) = ok x

-- A connected port: its first connection is tested, and all are saved.
unfoldable pub scan_connected :
    Graph → Node → Scan → Port → List (String × String) → Result GraphError Scan
unfolding first_of save_each
scan_connected g i s port l = do
  x ← first_of l
  prev ← lookup g.instances x.0
  let new = record s {
    nodes = s.nodes ++ x ∷ [];
    ports = s.ports ++ port ∷ [];
    save = save_each s.save l;
  }
  let old = record s { save = save_each s.save l }
  ok (if option_text_eq prev.thread i.thread && not (contains x s.nodes) then new else old)

unfoldable pub scan_port : Graph → Node → Scan → Port → Result GraphError Scan
unfolding scan_connected
scan_port g i s port = elim (get i.input2ele port.name) [
  | none ↦ ok (record s { ports = s.ports ++ port ∷ [] })
  | some l ↦ scan_connected g i s port l
]

unfoldable pub scan_ports : Graph → Node → Scan → List Port → Result GraphError Scan
unfolding scan_port
scan_ports g i s [] = ok s
scan_ports g i s (p ∷ l) = do t ← scan_port g i s p; scan_ports g i t l

-- `connect`, the number of connected input ports
unfoldable pub connected_ports : Node → List Port
connected_ports i = filter (λ p. has i.input2ele p.name) i.element.inports

-- The state of the pass: the graph, and `join_output2save` of its instances.
pub record Info : Type 0 where
  pub graph : Graph
  pub output2save : Dict (Dict String)

unfoldable pub entry : Dict (Dict String) → String → Dict String
entry d n = elim (get d n) [ none ↦ [] | some x ↦ x ]

unfoldable pub save_outputs :
    Dict (Dict String) → String → String → List String → Dict (Dict String)
unfolding entry
save_outputs d node name [] = d
save_outputs d node name (p ∷ l) = save_outputs (put d node (put (entry d node) p name)) node name l

-- The loop over `save`; its instances are there, since each has been looked up or is a source.
unfoldable pub save_all : Info → String → Dict (List String) → Result GraphError Info
unfolding save_outputs
save_all r name [] = ok r
save_all r name ((node, l) ∷ d) = do
  i ← lookup r.graph.instances node
  save_all (record r { output2save = save_outputs r.output2save node name l }) name d

-- The body of the first loop of `annotate_join_info`.
unfoldable pub find_join : Info → String → Node → Result GraphError Info
unfolding scan_ports connected_ports save_all is_plain
find_join r k i = do
  s ← scan_ports r.graph i no_scan i.element.inports
  let n = length (connected_ports i)
  let marked = (do
    check (nat_eq n (length i.element.inports)) assertion
    save_all
        (record r {
          graph = set_instance r.graph k (record i { join_ports_same_thread = some s.ports });
        })
        i.name s.save)
  if (ltb 1 (length s.ports) && is_plain i.element.special) && ltb 0 n then marked else ok r

unfoldable pub find_joins : Info → Dict Node → Result GraphError Info
unfolding find_join
find_joins r [] = ok r
find_joins r ((k, i) ∷ d) = do t ← find_join r k i; find_joins t d
