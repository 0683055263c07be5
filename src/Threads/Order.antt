-- ===== src/Threads/Order.antt =====
-- floem/thread_allocation.py: `insert_ports`, `merge_as_no_join` and `insert_resource_order`, which
-- connect the instances of a required order by ports without values.
pub mod Decimal
pub mod Paired
pub mod Kept
mod Samples
use Prim.Native.String.{◌++◌ as joined}
use floem.Prelude.{
  ℕ, zero, suc, ◌+◌, String, Bool, true, false, not, Option, none, some, List, [], ◌∷◌, ◌++◌,
  String_equality, if◌then◌else◌, Result, ok, err, ◌>>=◌, ◌>>◌, Dict, get, put, has, keys, contains,
  set_union, length,
}
use floem.Graph.{
  GraphError, exception, InPort, single, Node, Before, instance_before, group_before, Graph, lookup,
}
use floem.Graph.Build.{check, add_element}
use floem.Graph.Connect.{set_instance}
use floem.Graph.Walk.{find_subgraph_same_thread}
use floem.Graph.Clone.{clone_element, add_empty_outports, add_empty_inports}
use floem.Threads.Order.Decimal.{str}

-- `extra_out` and `extra_in`: for an instance, the others with the numbers of their ports.
pub record Extras : Type 0 where
  pub outs : Dict (List (String × ℕ))
  pub ins : Dict (List (String × ℕ))

unfoldable pub entries : Dict (List (String × ℕ)) → String → List (String × ℕ)
unfolding get
entries d k = elim (get d k) [ none ↦ [] | some l ↦ l ]

unfoldable pub append_entry :
    Dict (List (String × ℕ)) → String → String × ℕ → Dict (List (String × ℕ))
unfolding entries put
append_entry d k e = put d k (entries d k ++ e ∷ [])

-- The ports for one order of `a` before `b`.
unfoldable pub add_extra : Extras → String → String → Extras
unfolding append_entry
add_extra x a b = record {
  outs = append_entry x.outs a (b, length (entries x.ins b));
  ins = append_entry x.ins b (a, length (entries x.outs a));
}

-- The loop that fills `bPointsTo`, and its body.
unfoldable pub note_reach :
    Graph → Dict (List String) → String → Result GraphError (Dict (List String))
unfolding find_subgraph_same_thread put get
note_reach g points a = do
  i ← lookup g.instances a
  reach ← find_subgraph_same_thread g a [] i.thread
  ok (put points a reach)

unfoldable pub note_reach_once :
    Graph → Dict (List String) → String → Result GraphError (Dict (List String))
unfolding note_reach
note_reach_once g points a = if has points a then ok points else note_reach g points a

unfoldable pub collect_reach :
    Graph → List (Before × String) → Dict (List String) → Result GraphError (Dict (List String))
unfolding note_reach_once
collect_reach g [] points = ok points
collect_reach g ((group_before l, b) ∷ order) points = collect_reach g order points
collect_reach g ((instance_before a, b) ∷ order) points = do
  p ← note_reach_once g points a
  q ← note_reach_once g p b
  collect_reach g order q

-- The loop that collects the extra ports, and its body.
unfoldable pub collect_extra :
    Dict (List String) → Extras → String → String → Result GraphError Extras
unfolding add_extra get
collect_extra points x a b = do
  of_b ← lookup points b
  check (not (contains a of_b)) exception
  of_a ← lookup points a
  ok (if contains b of_a then x else add_extra x a b)

unfoldable pub collect_extras :
    Dict (List String) → List (Before × String) → Extras → Result GraphError Extras
unfolding collect_extra
collect_extras points [] x = ok x
collect_extras points ((group_before l, b) ∷ order) x = collect_extras points order x
collect_extras points ((instance_before a, b) ∷ order) x = do
  y ← collect_extra points x a b
  collect_extras points order y

-- `[prefix + str(i) for i in range(n)]`, from a first number
unfoldable pub numbered : String → ℕ → List (String × ℕ) → List String
unfolding str
numbered prefix n [] = []
numbered prefix n (e ∷ l) = joined prefix (str n) ∷ numbered prefix (suc n) l

unfoldable pub link_outs : Dict (String × InPort) → ℕ → List (String × ℕ) → Dict (String × InPort)
unfolding str put
link_outs d n [] = d
link_outs d n ((next, id) ∷ l) =
    link_outs (put d (joined "_out" (str n)) (next, single (joined "_in" (str id)))) (suc n) l

unfoldable pub link_ins :
    Dict (List (String × String)) → ℕ → List (String × ℕ) → Dict (List (String × String))
unfolding str put
link_ins d n [] = d
link_ins d n ((prev, id) ∷ l) =
    link_ins (put d (joined "_in" (str n)) ((prev, joined "_out" (str id)) ∷ [])) (suc n) l

-- What a count of ports adds to the name of the clone.
unfoldable pub suffix : String → List (String × ℕ) → String
unfolding str
suffix mark [] = ""
suffix mark (e ∷ l) = joined mark (str (length (e ∷ l)))

-- `insert_ports`. A list that is missing is empty.
unfoldable pub insert_ports :
    Graph → String → List (String × ℕ) → List (String × ℕ) → Result GraphError Graph
unfolding numbered link_outs link_ins suffix clone_element add_empty_outports add_empty_inports
    add_element put get
insert_ports g name extra_in extra_out = do
  i ← lookup g.instances name
  let copy = clone_element i.element (
      joined i.element.name
        (joined "_clone" (joined (suffix "_i" extra_in) (suffix "_o" extra_out))))
  e ← (elim extra_out [
    | [] ↦ ok copy
    | x ∷ l ↦ add_empty_outports copy (numbered "_out" 0 (x ∷ l))
  ])
  let f = add_empty_inports e (numbered "_in" 0 extra_in)
  (fresh, h) ← add_element g f
  ok (
      set_instance h name (record i {
        element = f;
        output2ele = link_outs i.output2ele 0 extra_out;
        input2ele = link_ins i.input2ele 0 extra_in;
      }))

unfoldable pub insert_all_ports : Graph → Extras → List String → Result GraphError Graph
unfolding insert_ports entries
insert_all_ports g x [] = ok g
insert_all_ports g x (name ∷ l) = do
  h ← insert_ports g name (entries x.ins name) (entries x.outs name)
  insert_all_ports h x l

-- The loop of `merge_as_no_join`
unfoldable pub merge_from : Graph → String → String → Result GraphError Graph
unfolding clone_element add_empty_outports add_element put get
merge_from g to name = do
  i ← lookup g.instances name
  e ← add_empty_outports (clone_element i.element (joined i.element.name "_clone_o")) ("_out" ∷ [])
  (fresh, h) ← add_element g e
  ok (
      set_instance h name
        (record i { element = e; output2ele = put i.output2ele "_out" (to, single "_in") }))

unfoldable pub merge_froms : Graph → String → List String → Result GraphError Graph
unfolding merge_from
merge_froms g to [] = ok g
merge_froms g to (f ∷ l) = do h ← merge_from g to f; merge_froms h to l

unfoldable pub from_out : List String → List (String × String)
from_out [] = []
from_out (f ∷ l) = (f, "_out") ∷ from_out l

-- `merge_as_no_join`
unfoldable pub merge_as_no_join : Graph → List String → String → Result GraphError Graph
unfolding merge_froms from_out clone_element add_empty_inports add_element put get
merge_as_no_join g froms to = do
  h ← merge_froms g to froms
  i ← lookup h.instances to
  let e =
      add_empty_inports (clone_element i.element (joined i.element.name "_clone_i")) ("_in" ∷ [])
  (fresh, k) ← add_element h e
  ok (
      set_instance k to
        (record i { element = e; input2ele = put i.input2ele "_in" (from_out froms) }))

unfoldable pub merge_groups : Graph → List (Before × String) → Result GraphError Graph
unfolding merge_as_no_join
merge_groups g [] = ok g
merge_groups g ((instance_before a, b) ∷ order) = merge_groups g order
merge_groups g ((group_before l, b) ∷ order) = do h ← merge_as_no_join g l b; merge_groups h order

abbrev pub no_extras : Extras
no_extras = record { outs = []; ins = [] }

-- `insert_resource_order`
unfoldable pub insert_resource_order : Graph → Result GraphError Graph
unfolding collect_reach collect_extras insert_all_ports merge_groups keys
insert_resource_order g = do
  points ← collect_reach g g.threads_order []
  x ← collect_extras points g.threads_order no_extras
  h ← insert_all_ports g x (set_union (keys x.outs) (keys x.ins))
  merge_groups h g.threads_order
