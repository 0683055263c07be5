-- ===== src/Joins.antt =====
-- floem/join_handling.py: which input ports of a join instance each instance fires (`wrap_port`,
-- `dfs_cover`), and the instances that create and pass its buffer (`annotate_for_instance`).
pub mod Derived
pub mod Valid
pub mod Sums
pub mod Ends
pub mod Marked
mod Samples
use floem.Prelude.{
  ℕ, zero, suc, String, Bool, true, false, not, ◌&&◌, ◌||◌, Option, none, some, List, [], ◌∷◌, ◌++◌,
  ◌==◌, Equality, String_equality, if◌then◌else◌, Result, ok, err, ◌>>=◌, ◌>>◌, Dict, get, put,
  keys, values, has, contains, length, ltb, nat_eq,
}
use floem.Flow.{
  FlowError, Piece, FlowCollection, piece_eq, no_flow, port_flow, goal_flow, union, intersection,
  append, full, empty, happens_before,
}
use floem.Graph.{
  GraphError, Fire, all, one, multi, zero_or_one, Port, InPort, single, several, Element, Node,
  Graph,
}

pub data JoinError : Type 0 where
  -- an exception of a method of `FlowCollection`, or of Python
  flow : FlowError → JoinError
  graph : GraphError → JoinError
  -- the exceptions of `dfs_cover`, for the four kinds of elements, and of `annotate_for_instance`
  fired_twice fires_differ fired_often fires_some no_dominant : JoinError

-- A method of `FlowCollection` that is called here.
unfoldable pub of_flow : {A : Type 0} → Result FlowError A → Result JoinError A
of_flow (ok a) = ok a
of_flow (err e) = err (flow e)

-- `[port.name for port in ports].index(name)`, from an index on
unfoldable pub index_from : ℕ → List Port → String → Option ℕ
index_from k [] n = none
index_from k (p ∷ l) n = if p.name == n then some k else index_from (suc k) l n

unfoldable pub port_index : List Port → Option InPort → Result JoinError ℕ
unfolding index_from
port_index l (some (single n)) = elim (index_from 0 l n) [
  | none ↦ err (graph GraphError.value_error)
  | some k ↦ ok k
]
port_index l (some (several k)) = err (graph GraphError.value_error)
port_index l none = err (graph GraphError.value_error)

-- `if instance.join_ports_same_thread`
unfoldable pub is_join : Node → Bool
is_join i = elim i.join_ports_same_thread [ none ↦ false | some l ↦ ltb 0 (length l) ]

-- `wrap_port`. Values are not shared, so `clone` is the identity.
unfoldable pub wrap_port :
    FlowCollection → Node → String → ℕ → Option InPort → Result JoinError FlowCollection
unfolding is_join port_index of_flow
wrap_port cover i target n port =
    if full cover
    then ok (goal_flow target n)
    else if is_join i
    then (do
      k ← port_index i.element.inports port
      of_flow (
          append cover
            (record { instance_name = i.name; ports = k ∷ []; total = length i.element.inports })))
    else ok cover

-- `FlowCollection.__eq__`
unfoldable pub pieces_eq : List Piece → List Piece → Bool
pieces_eq [] [] = true
pieces_eq (x ∷ k) (y ∷ l) = piece_eq x y && pieces_eq k l
pieces_eq _ _ = false

unfoldable pub flow_eq : FlowCollection → FlowCollection → Bool
unfolding pieces_eq
flow_eq a b =
    pieces_eq a.collection b.collection && (nat_eq a.total b.total && a.target == b.target)

-- `cover` and `cover_map` of `dfs_cover`
pub record Cover : Type 0 where
  pub flows : FlowCollection
  pub by_port : Dict FlowCollection

abbrev pub no_cover : String → ℕ → Cover
no_cover target n = record { flows = no_flow target n; by_port = [] }

-- The body of the loop over the output ports, after its call.
unfoldable pub cover_port : Option Fire → Cover → String → FlowCollection → Result JoinError Cover
unfolding flow_eq of_flow
cover_port (some all) c out l = do
  x ← of_flow (intersection c.flows l)
  let added = (do
    u ← of_flow (union c.flows l)
    ok (record { flows = u; by_port = put c.by_port out l }))
  if not (empty x) then err fired_twice else added
cover_port (some one) c out l =
    if ltb 0 (length c.by_port) && not (flow_eq c.flows l)
    then err fires_differ
    else ok (record { flows = l; by_port = put c.by_port out l })
cover_port (some multi) c out l = if not (empty l) then err fired_often else ok c
cover_port (some zero_or_one) c out l =
    if not (full l) && not (empty l) then err fires_some else ok c
cover_port none c out l = if not (full l) && not (empty l) then err fires_some else ok c

-- The two loops over `cover_map`: the pairs that are appended to `join_partial_order`.
unfoldable pub order_after :
    String → FlowCollection → Dict FlowCollection → Result JoinError (List (String × String))
unfolding of_flow
order_after out1 c1 [] = ok []
order_after out1 c1 ((out2, c2) ∷ l) = do
  b ← of_flow (happens_before c1 c2)
  r ← order_after out1 c1 l
  ok (if b then (out1, out2) ∷ r else r)

unfoldable pub order_ports :
    Dict FlowCollection → Dict FlowCollection → Result JoinError (List (String × String))
unfolding order_after
order_ports [] d = ok []
order_ports ((out1, c1) ∷ l) d = do a ← order_after out1 c1 d; b ← order_ports l d; ok (a ++ b)

unfoldable pub port_order :
    Option Fire → Dict FlowCollection → Result JoinError (List (String × String))
unfolding order_ports
port_order (some all) d = order_ports d d
port_order _ d = ok []

-- The map `answer`, and what the calls append to the `join_partial_order` of an instance.
pub record Answer : Type 0 where
  pub answer : Dict FlowCollection
  pub orders : List (String × List (String × String))

-- The loop over the output ports, with the call as an argument.
unfoldable pub cover_ports :
    (String → Option InPort → Answer → Result JoinError (FlowCollection × Answer))
    → Option Fire
    → Dict (String × InPort)
    → Cover
    → Answer
    → Result JoinError (Cover × Answer)
unfolding cover_port
cover_ports call fire [] c s = ok (c, s)
cover_ports call fire ((out, (next, port)) ∷ l) c s = do
  (x, t) ← call next (some port) s
  d ← cover_port fire c out x
  cover_ports call fire l d t

-- `dfs_cover`. The first number bounds the depth of the calls.
unfoldable pub dfs_cover :
    ℕ
    → Graph
    → String
    → ℕ
    → String
    → Option InPort
    → Answer
    → Result JoinError (FlowCollection × Answer)
unfolding port_index cover_ports wrap_port port_order
dfs_cover zero g target n node port s = err (graph GraphError.out_of_fuel)
dfs_cover (suc fuel) g target n node port s = elim (get g.instances node) [
  | none ↦ err (graph GraphError.key_error)
  | some i ↦
      let deeper = (do
        (c, t) ←
            cover_ports (dfs_cover fuel g target n) i.element.output_fire i.output2ele
              (no_cover target n) s
        o ← port_order i.element.output_fire c.by_port
        r ← wrap_port c.flows i target n port
        ok (
          r,
          record { answer = put t.answer node c.flows; orders = t.orders ++ (node, o) ∷ [] },
        )) in
      if node == target
      then (do k ← port_index i.element.inports port; ok (port_flow target n k, s))
      else (elim (get s.answer node) [
        | some c ↦ do r ← wrap_port c i target n port; ok (r, s)
        | none ↦ deeper
      ])
]

-- The loop over the roots.
unfoldable pub cover_roots : ℕ → Graph → String → ℕ → List String → Answer → Result JoinError Answer
unfolding dfs_cover
cover_roots fuel g target n [] s = ok s
cover_roots fuel g target n (root ∷ l) s = do
  (c, t) ← dfs_cover fuel g target n root none s
  if not (empty c) then err no_dominant else cover_roots fuel g target n l t

-- `dominant_nodes` and `passing_nodes`
unfoldable pub dominant_nodes : Dict FlowCollection → List String
dominant_nodes [] = []
dominant_nodes ((name, c) ∷ d) = if full c then name ∷ dominant_nodes d else dominant_nodes d

unfoldable pub passing_nodes : Dict FlowCollection → List String
passing_nodes [] = []
passing_nodes ((name, c) ∷ d) =
    if not (full c) && not (empty c) then name ∷ passing_nodes d else passing_nodes d

-- `instance.element.inports[-1].name`
unfoldable pub last_inport : List Port → Result JoinError String
last_inport [] = err (graph GraphError.value_error)
last_inport (p ∷ []) = ok p.name
last_inport (p ∷ q ∷ l) = last_inport (q ∷ l)

unfoldable pub names_of : List (String × String) → List String
names_of [] = []
names_of ((n, p) ∷ l) = n ∷ names_of l

-- `invoke_nodes`
unfoldable pub invoke_nodes : Node → Result JoinError (List String)
unfolding last_inport names_of
invoke_nodes i = do
  q ← last_inport i.element.inports
  elim (get i.input2ele q) [ none ↦ err (graph GraphError.key_error) | some l ↦ ok (names_of l) ]

-- The instances whose `join_state_create`, `join_func_params` and `join_call` get the join instance,
-- and what is appended to the `join_partial_order` of instances.
pub record Marks : Type 0 where
  pub state_create : List String
  pub func_params : List String
  pub join_call : List String
  pub orders : List (String × List (String × String))

-- `annotate_for_instance` with `detail`
unfoldable pub annotate_for_instance : ℕ → Graph → Node → List String → Result JoinError Marks
unfolding cover_roots dominant_nodes passing_nodes invoke_nodes
annotate_for_instance fuel g i roots = do
  s ←
      cover_roots fuel g i.name (length i.element.inports) roots
        (record { answer = []; orders = [] })
  invoke ← invoke_nodes i
  ok (record {
    state_create = dominant_nodes s.answer;
    func_params = passing_nodes s.answer;
    join_call = invoke;
    orders = s.orders;
  })
