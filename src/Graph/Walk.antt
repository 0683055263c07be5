-- ===== src/Graph/Walk.antt =====
-- floem/graph.py: the roots of the graph, and what can be reached from an instance.
pub mod Closed
pub mod Reached
pub mod Ends
pub mod Roots
mod Samples
use floem.Prelude.{
  ℕ, zero, suc, String, Bool, true, false, not, ◌&&◌, ◌||◌, Option, none, some, List, [], ◌∷◌, ◌++◌,
  ◌==◌, map, Equality, String_equality, if◌then◌else◌, Result, ok, err, ◌>>=◌, Dict, get, keys,
  values, has, contains, length, filter,
}
use floem.Graph.{GraphError, out_of_fuel, InPort, Node, Graph, Special, clean, lookup}
use floem.Graph.Build.{option_text_eq}

-- The instances that the output ports of an instance lead to.
unfoldable pub targets : Node → List String
unfolding values
targets i = map (λ v. v.0) (values i.output2ele)

-- The loop over the output ports, with the call as an argument.
unfoldable pub collect_each :
    (String → List String → Result GraphError (List String))
    → List String
    → List String
    → Result GraphError (List String)
collect_each call [] sub = ok sub
collect_each call (n ∷ l) sub = do s ← call n sub; collect_each call l s

-- `find_subgraph` and `find_subgraph_same_thread`, which differ in the test of an instance. The
-- first number bounds the depth of the calls.
unfoldable pub collect :
    (Node → Bool) → ℕ → Graph → String → List String → Result GraphError (List String)
unfolding collect_each targets
collect wanted zero g root sub = err out_of_fuel
collect wanted (suc fuel) g root sub = elim (get g.instances root) [
  | none ↦ err GraphError.key_error
  | some i ↦
      let deeper = collect_each (collect wanted fuel g) (targets i) (sub ++ i.name ∷ []) in
      if not (contains i.name sub) && wanted i then deeper else ok sub
]

-- Each nested call has one more instance in the set.
abbrev pub depth : Graph → ℕ
depth g = suc (length (keys g.instances))

abbrev pub any_instance : Node → Bool
any_instance i = true

abbrev pub on_thread : Option String → Node → Bool
on_thread t i = option_text_eq i.thread t

-- `Graph.find_subgraph(root, subgraph)`
unfoldable pub find_subgraph : Graph → String → List String → Result GraphError (List String)
unfolding collect
find_subgraph g root sub = collect any_instance (depth g) g root sub

-- `Graph.find_subgraph_same_thread(root, subgraph, thread)`
unfoldable pub find_subgraph_same_thread :
    Graph → String → List String → Option String → Result GraphError (List String)
unfolding collect
find_subgraph_same_thread g root sub thread = collect (on_thread thread) (depth g) g root sub

-- `not_roots` of `find_roots`
unfoldable pub all_targets : List Node → List String
unfolding targets
all_targets [] = []
all_targets (i ∷ l) = targets i ++ all_targets l

-- `Graph.find_roots`
unfoldable pub find_roots : Graph → List String
unfolding all_targets
find_roots g = filter (λ n. not (contains n (all_targets (values g.instances)))) (keys g.instances)
