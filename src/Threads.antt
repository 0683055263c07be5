-- ===== src/Threads.antt =====
-- floem/thread_allocation.py: the starting instance of each thread, and what the API functions and
pub mod Ends
mod Samples
pub mod Served
pub mod Returned
pub mod Started
pub mod Order
-- triggers call and return.
use floem.Prelude.{
  ℕ, zero, suc, String, Bool, true, false, not, ◌&&◌, ◌||◌, Option, none, some, List, [], ◌∷◌, ◌++◌,
  ◌==◌, Equality, String_equality, if◌then◌else◌, Result, ok, err, ◌>>=◌, ◌>>◌, Dict, get, put,
  values, has, is_some, contains, length, ltb, nat_eq, list_beq,
}
use floem.Graph.{GraphError, assertion, exception, Port, Element, Node, Trigger, Api, Graph, lookup}
use floem.Graph.Build.{check, or_else}
use floem.Graph.Walk.{depth, on_thread, find_roots}
use floem.Graph.Starts.{is_start}

-- `ThreadAllocator.find_roots`: `self.roots` and `graph.threads_roots` are one set.
unfoldable pub find_thread_roots : Graph → Graph
find_thread_roots g = record g { threads_roots = find_roots g }

-- `types_port_list` of floem/common.py
unfoldable pub types_port_list : List Port → List String
types_port_list [] = []
types_port_list (p ∷ l) = p.argtypes ++ types_port_list l

-- The triple that `dfs_collect_return` returns.
pub record Return : Type 0 where
  pub types : List String
  pub instance_name : Option String
  pub port : Option String

abbrev pub no_return : Return
no_return = record { types = []; instance_name = none; port = none }

-- What a call adds to the triple.
unfoldable pub join_return : Return → Return → Result GraphError Return
unfolding or_else
join_return r s =
    let types = r.types ++ s.types in
    let port = or_else s.port r.port in
    elim s.instance_name [
      | none ↦ ok (record { types = types; instance_name = r.instance_name; port = port })
      | some n ↦
          if is_some r.instance_name
          then err assertion
          else ok (record { types = types; instance_name = some n; port = port })
    ]

-- What a port adds to the triple and to the set of visited instances.
unfoldable pub return_of_port :
    (String → List String → Result GraphError (Return × List String))
    → String
    → Node
    → Port
    → Return
    → List String
    → Result GraphError (Return × List String)
unfolding join_return
return_of_port call name i p r visit = elim (get i.output2ele p.name) [
  | some (next, port) ↦ do (s, v) ← call next visit; t ← join_return r s; ok (t, v)
  | none ↦
      if ltb 0 (length p.argtypes)
      then ok (
        record { types = r.types ++ p.argtypes; instance_name = some name; port = some p.name },
        visit,
      )
      else ok (r, visit)
]

unfoldable pub return_of_ports :
    (String → List String → Result GraphError (Return × List String))
    → String
    → Node
    → List Port
    → Return
    → List String
    → Result GraphError (Return × List String)
unfolding return_of_port
return_of_ports call name i [] r visit = ok (r, visit)
return_of_ports call name i (p ∷ l) r visit = do
  (s, v) ← return_of_port call name i p r visit
  return_of_ports call name i l s v

-- `dfs_collect_return`. The first number bounds the depth of the calls.
unfoldable pub collect_return :
    ℕ → Graph → String → String → List String → Result GraphError (Return × List String)
unfolding return_of_ports
collect_return zero g thread name visit = err GraphError.out_of_fuel
collect_return (suc fuel) g thread name visit = elim (get g.instances name) [
  | none ↦ err GraphError.key_error
  | some i ↦
      let deeper =
        return_of_ports (collect_return fuel g thread) name i i.element.outports no_return
          (visit ++ name ∷ []) in
      if contains name visit
      then ok (no_return, visit)
      else if not (on_thread (some thread) i)
      then ok (no_return, visit)
      else deeper
]

unfoldable pub dfs_collect_return : Graph → String → String → Result GraphError Return
unfolding collect_return
dfs_collect_return g name thread = do (r, v) ← collect_return (depth g) g thread name []; ok r

-- The first loop of `check_resources`, without the table that nothing reads.
unfoldable pub note_start : Graph → Node → Dict Node → Result GraphError (Dict Node)
note_start g i starts = elim i.thread [
  | none ↦ ok starts
  | some t ↦ do
    s ← is_start g i
    if not s then ok starts else if has starts t then err exception else ok (put starts t i)
]

unfoldable pub find_starts : Graph → List Node → Dict Node → Result GraphError (Dict Node)
unfolding note_start
find_starts g [] starts = ok starts
find_starts g (i ∷ l) starts = do d ← note_start g i starts; find_starts g l d

-- The test of the types that are returned.
unfoldable pub is_promised : Option String → List String → Bool
is_promised none types = list_beq types []
is_promised (some t) types = list_beq types (t ∷ [])

-- The tests of an API function, which gets its first instance and what it returns.
unfoldable pub check_api : Graph → Dict Node → Api → Result GraphError Api
unfolding dfs_collect_return types_port_list is_promised
check_api g starts api = do
  check (has starts api.name) assertion
  start ← lookup starts api.name
  check
      (if contains start.name g.threads_roots
        then list_beq (types_port_list start.element.inports) api.call_types
        else list_beq api.call_types [])
      assertion
  r ← dfs_collect_return g start.name api.name
  check (is_promised api.return_type r.types) assertion
  ok (record api {
    call_instance = some start.name;
    return_instance = r.instance_name;
    return_port = r.port;
  })

unfoldable pub check_apis : Graph → Dict Node → List Api → Result GraphError (List Api)
unfolding check_api
check_apis g starts [] = ok []
check_apis g starts (a ∷ l) = do b ← check_api g starts a; k ← check_apis g starts l; ok (b ∷ k)

-- The tests of a trigger.
unfoldable pub check_trigger : Graph → Dict Node → Trigger → Result GraphError Trigger
unfolding dfs_collect_return
check_trigger g starts trigger = do
  check (has starts trigger.name) assertion
  start ← lookup starts trigger.name
  check
      (not (contains start.name g.threads_roots)
        || (nat_eq (length start.element.inports) 0
            || (nat_eq (length start.element.inports) 1 && start.core_id)))
      assertion
  r ← dfs_collect_return g start.name trigger.name
  check (list_beq r.types []) assertion
  ok (record trigger { call_instance = some start.name })

unfoldable pub check_triggers : Graph → Dict Node → List Trigger → Result GraphError (List Trigger)
unfolding check_trigger
check_triggers g starts [] = ok []
check_triggers g starts (a ∷ l) = do
  b ← check_trigger g starts a
  k ← check_triggers g starts l
  ok (b ∷ k)

-- `ThreadAllocator.check_resources`
unfoldable pub check_resources : Graph → Result GraphError Graph
unfolding find_starts check_apis check_triggers
check_resources g = do
  starts ← find_starts g (values g.instances) []
  apis ← check_apis g starts g.threads_api
  triggers ← check_triggers g starts g.threads_internal
  ok (record g { threads_api = apis; threads_internal = triggers })
