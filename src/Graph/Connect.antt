-- ===== src/Graph/Connect.antt =====
-- Connecting instances: `ElementNode.connect_output_port` and `connect_input_port` of
-- floem/graph_ir.py, `connect` and `disconnect` of floem/graph.py.
pub mod Edges
pub mod Linked
pub mod Samples
use floem.Prelude.{
  ℕ, String, Bool, true, false, not, ◌&&◌, ◌||◌, Option, none, some, List, [], ◌∷◌, ◌++◌, ◌==◌,
  Equality, String_equality, List_equality, ×_equality, if◌then◌else◌, Result, ok, err, ◌>>=◌, ◌>>◌,
  Dict, get, put, remove, has, contains, length, ltb, list_beq, filter,
}
use floem.Graph.{
  GraphError, key_error, value_error, type_error, assertion, conflict_connection, Port, Element,
  InPort, single, several, Node, Graph, lookup, port_names,
}
use floem.Graph.Build.{check}

-- `ElementNode.connect_output_port`
unfoldable pub connect_output_port : Node → String → String → InPort → Bool → Result GraphError Node
connect_output_port i port f fport overwrite =
    if not overwrite && has i.output2ele port
    then err conflict_connection
    else ok (record i { output2ele = put i.output2ele port (f, fport) })

-- `ElementNode.connect_input_port`
unfoldable pub connect_input_port : Node → String → String → String → Node
connect_input_port i port f fport = record i {
  input2ele = elim (get i.input2ele port) [
    | some l ↦ put i.input2ele port (l ++ (f, fport) ∷ [])
    | none ↦ put i.input2ele port ((f, fport) ∷ [])
  ];
}

unfoldable pub connect_input_ports : Node → List String → String → String → Node
unfolding connect_input_port
connect_input_ports i [] f fport = i
connect_input_ports i (port ∷ l) f fport =
    connect_input_ports (connect_input_port i port f fport) l f fport

-- The output port that `connect` takes: the named one, or the only one.
unfoldable pub choose_outport : Element → Option String → Result GraphError String
choose_outport e (some p) = if contains p (port_names e.outports) then ok p else err assertion
choose_outport e none = elim e.outports [
  | [] ↦ err assertion
  | p ∷ l ↦ elim l [ [] ↦ ok p.name | _ ∷ _ ↦ err assertion ]
]

-- The input ports that `connect` takes: the named one, the only one, or all together.
unfoldable pub all_inports : List Port → InPort
all_inports (p ∷ []) = single p.name
all_inports l = several (port_names l)

unfoldable pub choose_inport : Element → Option String → Result GraphError InPort
unfolding all_inports
choose_inport e (some p) =
    if contains p (port_names e.inports) then ok (single p) else err assertion
choose_inport e none = ok (all_inports e.inports)

abbrev pub in_names : InPort → List String
in_names (single p) = p ∷ []
in_names (several l) = l

abbrev pub set_instance : Graph → String → Node → Graph
set_instance g n i = record g { instances = put g.instances n i }

-- `Graph.connect`. Where the two names are one, the second write sees the first.
unfoldable pub connect :
    Graph → String → String → Option String → Option String → Bool → Result GraphError Graph
unfolding connect_output_port connect_input_ports choose_outport choose_inport
connect g name1 name2 out1 in2 overwrite = do
  i1 ← lookup g.instances name1
  i2 ← lookup g.instances name2
  out_port ← choose_outport i1.element out1
  in_port ← choose_inport i2.element in2
  i1' ← connect_output_port i1 out_port i2.name in_port overwrite
  i2' ← lookup (put g.instances name1 i1') name2
  ok (
      set_instance (set_instance g name1 i1') name2
        (connect_input_ports i2' (in_names in_port) i1.name out_port))

unfoldable pub in_port_eq : InPort → InPort → Bool
in_port_eq (single a) (single b) = a == b
in_port_eq (several a) (several b) = list_beq a b
in_port_eq _ _ = false

-- `l.remove(x)`
unfoldable pub remove_first :
    String × String → List (String × String) → Result GraphError (List (String × String))
remove_first x [] = err value_error
remove_first x (y ∷ l) =
    let rest = remove_first x l in if y == x then ok l else (do k ← rest; ok (y ∷ k))

-- The end of `disconnect`: an input port that nothing leads to has no entry.
unfoldable pub drop_input : Node → InPort → String × String → Result GraphError Node
unfolding remove_first
drop_input i (several l) x = err type_error
drop_input i (single q) x = do
  l ← lookup i.input2ele q
  k ← remove_first x l
  ok (record i {
    input2ele = if ltb 0 (length k) then put i.input2ele q k else remove i.input2ele q;
  })

-- `Graph.disconnect`. All that fails ends the compiler, so the order of the writes is not seen.
unfoldable pub disconnect :
    Graph → String → String → String → Option InPort → Result GraphError Graph
unfolding drop_input in_port_eq
disconnect g name1 name2 out1 in2 = do
  i1 ← lookup g.instances name1
  i2 ← lookup g.instances name2
  (in_name, in_port) ← lookup i1.output2ele out1
  check (name2 == in_name) assertion
  check (elim in2 [ none ↦ true | some p ↦ in_port_eq p in_port ]) assertion
  let i1' = record i1 { output2ele = remove i1.output2ele out1 }
  j ← lookup (put g.instances name1 i1') name2
  j' ← drop_input j in_port (name1, out1)
  ok (set_instance (set_instance g name1 i1') name2 j')
