-- ===== src/Returns.antt =====
-- floem/api_handling.py, the functions: which instances return the value of an API function.
pub mod Always
pub mod Sure
pub mod Served
pub mod Ends
mod Samples
use floem.Prelude.{
  ℕ, zero, suc, String, Bool, true, false, not, ◌&&◌, ◌||◌, Option, none, some, List, [], ◌∷◌, ◌++◌,
  ◌==◌, Equality, String_equality, if◌then◌else◌, Result, ok, err, ◌>>=◌, ◌>>◌, Dict, get, put,
  is_some, length, ltb, nat_eq, values,
}
use floem.Flow.{
  FlowError, Piece, whole, FlowCollection, InstancePart, no_flow, port_flow, union, intersection,
  append, full, empty,
}
use floem.Graph.{
  GraphError, Fire, all, one, multi, zero_or_one, InPort, single, several, Node, Api, Graph,
}
use floem.Joins.{index_from, is_join, flow_eq}

pub data ReturnError : Type 0 where
  flow : FlowError → ReturnError
  graph : GraphError → ReturnError
  -- `l[-1]` of an empty list, `len` of None, a failed `assert`
  index_error type_error assertion : ReturnError
  -- the exceptions of `dfs_cover_return`, `mark_return` and `annotate_api_info`
  fired_twice fires_differ fires_some fired_often never_returns returns_twice no_default :
      ReturnError

unfoldable pub of_flow : {A : Type 0} → Result FlowError A → Result ReturnError A
of_flow (ok a) = ok a
of_flow (err e) = err (flow e)

abbrev pub key_error : ReturnError
key_error = graph GraphError.key_error

abbrev pub found : {V : Type 0} → Dict V → String → Result ReturnError V
found d k = elim (get d k) [ none ↦ err key_error | some v ↦ ok v ]

abbrev pub present : Option String → Result ReturnError String
present none = err key_error
present (some n) = ok n

abbrev pub index_of : Node → String → Result ReturnError ℕ
index_of i n = elim (index_from 0 i.element.inports n) [
  | none ↦ err (graph GraphError.value_error)
  | some k ↦ ok k
]

abbrev pub assert : Bool → Result ReturnError (Unit {0})
assert true = ok tt
assert false = err assertion

-- The part of the cover at a port of a join node.
unfoldable pub join_part : FlowCollection → Node → Option InPort → Result ReturnError FlowCollection
unfolding of_flow index_from
join_part cover i none = err type_error
join_part cover i (some (single n)) = do
  k ← index_of i n
  of_flow (
      append cover
        (record { instance_name = i.name; ports = k ∷ []; total = length i.element.inports }))
join_part cover i (some (several l)) = do
  assert (nat_eq (length l) (length i.element.inports))
  ok cover

-- `wrap_port`
unfoldable pub wrap_port : FlowCollection → Node → Option InPort → Result ReturnError FlowCollection
unfolding join_part is_join
wrap_port cover i port = if is_join i then join_part cover i port else ok cover

-- `FlowCollection(target, num_ports, port=[target], is_port=False, goal=True)`
abbrev pub full_flow : String → ℕ → FlowCollection
full_flow t n = record { collection = whole t ∷ []; target = t; total = n; goal = true }

-- The cover of the target node.
unfoldable pub target_cover : Node → String → ℕ → Option InPort → Result ReturnError FlowCollection
unfolding index_from
target_cover i target n none = ok (full_flow target n)
target_cover i target n (some (single p)) =
    if ltb 1 n then (do k ← index_of i p; ok (port_flow target n k)) else ok (full_flow target n)
target_cover i target n (some (several l)) =
    if ltb 0 (length l) && ltb 1 n
    then (do assert (nat_eq (length l) n); ok (full_flow target n))
    else ok (full_flow target n)

-- An element that may fire no port, or fires several times.
unfoldable pub cover_some : FlowCollection → FlowCollection → Result ReturnError FlowCollection
cover_some cover l =
    if not (full l) && not (empty l) then err fires_some else ok (if empty cover then l else cover)

-- The body of the loop over the output ports, after its call.
unfoldable pub cover_port :
    Option Fire → FlowCollection → FlowCollection → Result ReturnError FlowCollection
unfolding of_flow cover_some
cover_port (some all) cover l = do
  x ← of_flow (intersection cover l)
  let joined = of_flow (union cover l)
  if not (empty x) then err fired_twice else joined
cover_port (some one) cover l =
    if not (empty cover) && (not (empty l) && not (flow_eq cover l))
    then err fires_differ
    else ok (if empty cover then l else cover)
cover_port (some multi) cover l = cover_some cover l
cover_port (some zero_or_one) cover l = cover_some cover l
cover_port none cover l = cover_some cover l

unfoldable pub cover_ports :
    (String
      → Option InPort
      → Dict FlowCollection
      → Result ReturnError (FlowCollection × Dict FlowCollection))
    → Option Fire
    → List (String × InPort)
    → FlowCollection
    → Dict FlowCollection
    → Result ReturnError (FlowCollection × Dict FlowCollection)
unfolding cover_port
cover_ports call fire [] cover answer = ok (cover, answer)
cover_ports call fire ((next, port) ∷ l) cover answer = do
  (x, a) ← call next (some port) answer
  c ← cover_port fire cover x
  cover_ports call fire l c a

-- `dfs_cover_return`. The first number bounds the depth of the calls.
unfoldable pub dfs_cover_return :
    ℕ
    → Graph
    → String
    → ℕ
    → String
    → Option InPort
    → Dict FlowCollection
    → Result ReturnError (FlowCollection × Dict FlowCollection)
unfolding target_cover cover_ports wrap_port
dfs_cover_return zero g target n node port answer = err (graph GraphError.out_of_fuel)
dfs_cover_return (suc fuel) g target n node port answer = elim (get g.instances node) [
  | none ↦ err key_error
  | some i ↦
      let deeper = (do
        (c, a) ←
            cover_ports (dfs_cover_return fuel g target n) i.element.output_fire
              (values i.output2ele) (no_flow target n) answer
        r ← wrap_port c i port
        ok (r, put a node c)) in
      if node == target
      then (do c ← target_cover i target n port; ok (c, put answer node c))
      else (elim (get answer node) [
        | some c ↦ do r ← wrap_port c i port; ok (r, answer)
        | none ↦ deeper
      ])
]

-- The fields of an instance that `mark_return` writes.
pub record Mark : Type 0 where
  pub api_return : Option String
  pub api_default_val : Option String
  pub api_return_final : Option ℕ
  pub api_return_from : List String

abbrev pub no_mark : Mark
no_mark = record {
  api_return = none;
  api_default_val = none;
  api_return_final = none;
  api_return_from = [];
}

pub record Marking : Type 0 where
  pub marks : Dict Mark
  pub visit : Dict Bool

unfoldable pub change_mark : Marking → String → (Mark → Mark) → Marking
change_mark s n f = record s {
  marks = put s.marks n (f (elim (get s.marks n) [ none ↦ no_mark | some m ↦ m ]));
}

abbrev pub set_return_from : Marking → String → List String → Marking
set_return_from s n l = change_mark s n (λ m. record m { api_return_from = l })

-- `return_nodes`
unfoldable pub return_nodes :
    Dict FlowCollection → List (String × InPort) → Result ReturnError (List String)
return_nodes covers [] = ok []
return_nodes covers ((next, port) ∷ l) = do
  c ← found covers next
  r ← return_nodes covers l
  ok (if not (empty c) then next ∷ r else r)

-- `l[-1]`
unfoldable pub last_of : List String → Result ReturnError String
last_of [] = err index_error
last_of (x ∷ []) = ok x
last_of (x ∷ y ∷ l) = last_of (y ∷ l)

-- The loop over `return_nodes`, with `always_return`.
unfoldable pub mark_each :
    (String → Marking → Result ReturnError (Bool × Marking))
    → List String
    → Bool
    → Marking
    → Result ReturnError (Bool × Marking)
mark_each call [] always s = ok (always, s)
mark_each call (n ∷ l) always s = do (b, t) ← call n s; mark_each call l (always && b) t

-- The loop, where `my_return` is False after it.
abbrev pub mark_some :
    (String → Marking → Result ReturnError (Bool × Marking))
    → List String
    → Marking
    → Result ReturnError (Bool × Marking)
mark_some call l s = do (b, t) ← mark_each call l true s; ok (false, t)

-- What an instance that is not the target does with its `return_nodes`; `order` is its
-- `join_partial_order`, the names of its output ports in the order of their calls.
unfoldable pub mark_children :
    (String → Marking → Result ReturnError (Bool × Marking))
    → Option Fire
    → String
    → Node
    → List String
    → List String
    → Marking
    → Result ReturnError (Bool × Marking)
unfolding change_mark last_of mark_each
mark_children call (some all) name i order [] s = err never_returns
mark_children call (some all) name i order (n ∷ []) s = call n (set_return_from s name (n ∷ []))
mark_children call (some all) name i order (n ∷ m ∷ l) s = do
  port ← last_of order
  (next, _) ← found i.output2ele port
  call next (set_return_from s name (next ∷ []))
mark_children call (some one) name i order nodes s =
    mark_each call nodes true (set_return_from s name nodes)
mark_children call (some multi) name i order nodes s =
    mark_some call nodes (set_return_from s name nodes)
mark_children call (some zero_or_one) name i order nodes s =
    mark_some call nodes (set_return_from s name nodes)
mark_children call none name i order nodes s = mark_some call nodes (set_return_from s name nodes)

-- Whether the target always returns.
unfoldable pub mark_target : Option Fire → Result ReturnError Bool
mark_target (some zero_or_one) = ok false
mark_target (some multi) = err fired_often
mark_target (some all) = ok true
mark_target (some one) = ok true
mark_target none = ok true

-- The fields that each visited instance gets.
abbrev pub start_mark : Api → String → Marking → Marking
start_mark api name s =
    change_mark s name
      (λ m. record m { api_return = api.return_type; api_default_val = api.default_val })

abbrev pub final_mark : Api → String → Marking → Marking
final_mark api name s = change_mark s name (λ m. record m { api_return_final = some api.object })

abbrev pub visited : String → Bool → Marking → Marking
visited name b s = record s { visit = put s.visit name b }

abbrev pub order_of : Dict (List String) → String → List String
order_of orders name = elim (get orders name) [ none ↦ [] | some l ↦ l ]

-- `mark_return`. The first number bounds the depth of the calls.
unfoldable pub mark_return :
    ℕ
    → Graph
    → Dict (List String)
    → Api
    → Dict FlowCollection
    → String
    → String
    → Marking
    → Result ReturnError (Bool × Marking)
unfolding return_nodes mark_children mark_target change_mark
mark_return zero g orders api covers target name s = err (graph GraphError.out_of_fuel)
mark_return (suc fuel) g orders api covers target name s =
    let deeper = λ (i : Node). (do
      nodes ← return_nodes covers (values i.output2ele)
      (b, t) ←
          mark_children (mark_return fuel g orders api covers target) i.element.output_fire name i
            (order_of orders name) nodes (start_mark api name s)
      ok (b, visited name b t)) in
    elim (get s.visit name) [
      | some b ↦ ok (b, s)
      | none ↦ elim (get g.instances name) [
        | none ↦ err key_error
        | some i ↦
            if target == name
            then (do
              b ← mark_target i.element.output_fire
              ok (b, visited name b (final_mark api name (start_mark api name s))))
            else deeper i
      ]
    ]

-- Whether a text is neither `None` nor empty.
unfoldable pub is_given : Option String → Bool
is_given none = false
is_given (some s) = not (s == "")

-- The tests of a function's cover, and of the answer for the called instance.
unfoldable pub check_cover :
    FlowCollection
    → Option String
    → Result ReturnError (Bool × Marking)
    → Result ReturnError (Dict Mark)
unfolding is_given
check_cover cover default marking =
    let marked = (do
      (always, s) ← marking
      if not always && not (is_given default) then err no_default else ok s.marks) in
    if empty cover
    then err never_returns
    else if not (full cover)
    then err returns_twice
    else marked

-- The body of the loop of `annotate_api_info`, for a function with a return type. A new `visit` for
-- each function.
unfoldable pub annotate_api :
    ℕ → Graph → Dict (List String) → Api → Dict Mark → Result ReturnError (Dict Mark)
unfolding dfs_cover_return mark_return check_cover
annotate_api fuel g orders api marks = do
  target ← present api.return_instance
  start ← present api.call_instance
  i ← found g.instances target
  (cover, covers) ← dfs_cover_return fuel g target (length i.element.inports) start none []
  check_cover cover api.default_val
      (mark_return fuel g orders api covers target start (record { marks = marks; visit = [] }))

-- `annotate_api_info`
unfoldable pub annotate_api_info :
    ℕ → Graph → Dict (List String) → List Api → Dict Mark → Result ReturnError (Dict Mark)
unfolding annotate_api is_given
annotate_api_info fuel g orders [] marks = ok marks
annotate_api_info fuel g orders (a ∷ l) marks = do
  m ← (if is_given a.return_type then annotate_api fuel g orders a marks else ok marks)
  annotate_api_info fuel g orders l m
