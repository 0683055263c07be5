-- ===== src/JoinInfo.antt =====
-- floem/join_handling.py, `annotate_join_info` and `clean_minimal_join_info`: which instances are join
-- instances, which output ports are saved for them, and what `annotate_for_instance` notes for each.
pub mod Scans
pub mod Near
pub mod Found
mod Samples
unfoldable pub use Scans.*
use Prim.Native.Nat.{◌/◌, ◌%◌}
use Prim.Native.String.{slice, ◌++◌ as joined}
use floem.Prelude.{
  ℕ, zero, suc, String, Bool, true, false, not, ◌&&◌, Option, none, some, List, [], ◌∷◌, ◌++◌, ◌==◌,
  Equality, String_equality, ×_equality, if◌then◌else◌, Result, ok, err, ◌>>=◌, ◌>>◌, Dict, get,
  put, has, keys, values, map, contains, length, filter, ltb, nat_eq,
}
use floem.Topo.{TopoError, order_function_calls}
use floem.Graph.{
  GraphError, value_error, assertion, Port, Special, State, Node, Graph, no_init, lookup,
  port_names,
}
use floem.Graph.Build.{check, option_text_eq, add_state}
use floem.Graph.Connect.{set_instance}
use floem.Graph.Walk.{find_roots}
use floem.Joins.{
  JoinError, Answer, Marks, cover_roots, dominant_nodes, passing_nodes, annotate_for_instance,
}
use floem.Program.{is_plain}

-- `"%d" % n`. The first number bounds the digits.
unfoldable pub digit : ℕ → String
digit n = slice "0123456789" n (suc n)

unfoldable pub number : ℕ → ℕ → String
unfolding digit
number zero n = digit n
number (suc fuel) n =
    let rest = number fuel (n / 10) in if ltb n 10 then digit n else joined rest (digit (n % 10))

-- `content` of the join buffer: a field for each argument of each port.
unfoldable pub buffer_fields : String → ℕ → List String → String
unfolding number
buffer_fields name k [] = ""
buffer_fields name k (t ∷ l) = joined t (
    joined " " (
      joined name
        (joined "_arg" (joined (number k k) (joined "; " (buffer_fields name (suc k) l))))))

unfoldable pub buffer_content : List Port → String
unfolding buffer_fields
buffer_content [] = ""
buffer_content (p ∷ l) = joined (buffer_fields p.name 0 p.argtypes) (buffer_content l)

-- `get_join_buffer_name`
unfoldable pub get_join_buffer_name : String → String
get_join_buffer_name name = joined "_" (joined name "_join_buffer")

-- `dominants` and `passing_nodes` of a join instance, which `annotate_for_instance` sets without
-- `detail`.
pub record Minimal : Type 0 where
  pub dominants : List String
  pub passing : List String

unfoldable pub annotate_minimal :
    ℕ
    → Graph
    → Node
    → List String
    → Result JoinError (Minimal × List (String × List (String × String)))
unfolding cover_roots dominant_nodes passing_nodes
annotate_minimal fuel g i roots = do
  s ←
      cover_roots fuel g i.name (length i.element.inports) roots
        (record { answer = []; orders = [] })
  ok (record { dominants = dominant_nodes s.answer; passing = passing_nodes s.answer }, s.orders)

-- What the pass writes: the graph, `join_output2save`, the marks or the dominants for each join
-- instance, and `join_partial_order` of each instance.
pub record Annotated : Type 0 where
  pub info : Info
  pub marks : Dict Marks
  pub minimal : Dict Minimal
  pub pairs : List (String × List (String × String))
  pub orders : Dict (List String)

unfoldable pub add_buffer : Graph → Node → List Port → Result GraphError Graph
unfolding add_state buffer_content get_join_buffer_name
add_buffer g i ports = do
  (new, h) ← add_state g (record {
    name = get_join_buffer_name i.name;
    content = some (buffer_content ports);
    init = no_init;
    processes = [];
  })
  ok h

-- The body of the second loop, for a join instance.
unfoldable pub annotate_join :
    ℕ → Bool → List String → Annotated → Node → List Port → Result InfoError Annotated
unfolding annotate_for_instance annotate_minimal add_buffer of_join of_graph
annotate_join fuel true roots s i ports = do
  m ← of_join (annotate_for_instance fuel s.info.graph i roots)
  h ← of_graph (add_buffer s.info.graph i ports)
  ok (record s {
    info = record s.info { graph = h };
    marks = put s.marks i.name m;
    pairs = s.pairs ++ m.orders;
  })
annotate_join fuel false roots s i ports = do
  (m, o) ← of_join (annotate_minimal fuel s.info.graph i roots)
  ok (record s { minimal = put s.minimal i.name m; pairs = s.pairs ++ o })

-- The second loop, and its test.
unfoldable pub annotate_if_join :
    ℕ → Bool → List String → Annotated → Node → Option (List Port) → Result InfoError Annotated
unfolding annotate_join
annotate_if_join fuel detail roots s i none = ok s
annotate_if_join fuel detail roots s i (some ports) =
    if ltb 0 (length ports) then annotate_join fuel detail roots s i ports else ok s

unfoldable pub annotate_joins :
    ℕ → Bool → List String → Annotated → List Node → Result InfoError Annotated
unfolding annotate_if_join
annotate_joins fuel detail roots s [] = ok s
annotate_joins fuel detail roots s (i ∷ l) = do
  t ← annotate_if_join fuel detail roots s i i.join_ports_same_thread
  annotate_joins fuel detail roots t l

-- What was appended to an instance's `join_partial_order`.
unfoldable pub pairs_of : List (String × List (String × String)) → String → List (String × String)
pairs_of [] n = []
pairs_of ((m, l) ∷ k) n = if m == n then l ++ pairs_of k n else pairs_of k n

-- The last loop.
unfoldable pub order_calls :
    List (String × List (String × String)) → List Node → Result InfoError (Dict (List String))
unfolding order_function_calls pairs_of of_topo port_names
order_calls pairs [] = ok []
order_calls pairs (i ∷ l) = do
  o ← of_topo (order_function_calls (pairs_of pairs i.name) (port_names i.element.outports))
  r ← order_calls pairs l
  ok ((i.name, o) ∷ r)

-- `annotate_join_info`. The last argument is what an earlier call has appended to the lists
-- `join_partial_order`, which nothing clears.
unfoldable pub annotate_join_info :
    ℕ → Bool → Graph → List (String × List (String × String)) → Result InfoError Annotated
unfolding find_joins annotate_joins order_calls find_roots values of_graph
annotate_join_info fuel detail g earlier = do
  r ← of_graph (find_joins (record { graph = g; output2save = [] }) g.instances)
  s ←
      annotate_joins fuel detail (find_roots g)
        (record { info = r; marks = []; minimal = []; pairs = earlier; orders = [] })
        (values r.graph.instances)
  o ← (if detail then order_calls s.pairs (values s.info.graph.instances) else ok [])
  ok (record s { orders = o })

-- `clean_minimal_join_info`
unfoldable pub clean_nodes : Dict Node → Dict Node
clean_nodes [] = []
clean_nodes ((k, i) ∷ d) = (k, record i { join_ports_same_thread = none }) ∷ clean_nodes d

unfoldable pub clean_minimal_join_info : Graph → Graph
unfolding clean_nodes
clean_minimal_join_info g = record g { instances = clean_nodes g.instances }
