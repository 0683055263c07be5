-- ===== src/Graph/Clean.antt =====
-- floem/graph.py, `remove_unused_elements` and `remove_unused_states`.
mod Used
pub mod Unused
mod Samples
use floem.Prelude.{
  ℕ, String, Bool, true, false, not, ◌&&◌, Option, none, some, List, [], ◌∷◌, ◌==◌, Equality,
  String_equality, if◌then◌else◌, Result, ok, err, ◌>>=◌, ◌>>◌, Dict, get, remove, values, contains,
  length, ltb, nat_eq, filter,
}
use floem.Graph.{GraphError, key_error, value_error, exception, Node, StateNode, Api, Graph}
use floem.Graph.Starts.{unused}

-- `set([x.call_instance for x in self.threads_API])`, without None
unfoldable pub called : List Api → List String
called [] = []
called (a ∷ l) = elim a.call_instance [ none ↦ called l | some n ↦ n ∷ called l ]

-- The test of the first loop, and its list `delete`.
unfoldable pub is_unused : List Api → Node → Bool
unfolding called
is_unused apis i = unused i && not (contains i.name (called apis))

unfoldable pub unused_names : List Api → Dict Node → List String
unfolding is_unused
unused_names apis [] = []
unused_names apis ((name, i) ∷ d) =
    if is_unused apis i then name ∷ unused_names apis d else unused_names apis d

unfoldable pub remove_names {ℓ} : {V : Type ℓ} → List String → Dict V → Dict V
remove_names [] d = d
remove_names (n ∷ l) d = remove_names l (remove d n)

-- `set.remove` for each name
unfoldable pub remove_roots : List String → List String → Result GraphError (List String)
remove_roots [] roots = ok roots
remove_roots (n ∷ l) roots =
    let rest = remove_roots l (filter (λ m. not (m == n)) roots) in
    if contains n roots then rest else err key_error

-- The loop that looks for an instance without a thread.
unfoldable pub check_threads : List Node → Result GraphError (Unit {0})
check_threads [] = ok tt
check_threads (i ∷ l) = elim i.thread [ none ↦ err exception | some t ↦ check_threads l ]

-- `Graph.remove_unused_elements`
unfoldable pub remove_unused_elements : Graph → Bool → Result GraphError Graph
unfolding unused_names remove_names remove_roots check_threads
remove_unused_elements g resource =
    let names = unused_names g.threads_api g.instances in
    let d = remove_names names g.instances in
    (do
      roots ←
          if ltb 0 (length g.threads_roots)
          then remove_roots names g.threads_roots
          else ok g.threads_roots
      if resource then check_threads (values d) else ok tt
      ok (record g { instances = d; threads_roots = roots }))

-- `self.state_instance_order.remove(name)`
unfoldable pub remove_from_order : String → List String → Result GraphError (List String)
remove_from_order n [] = err value_error
remove_from_order n (m ∷ l) =
    let rest = remove_from_order n l in if m == n then ok l else (do k ← rest; ok (m ∷ k))

unfoldable pub remove_all_from_order : List String → List String → Result GraphError (List String)
unfolding remove_from_order
remove_all_from_order [] l = ok l
remove_all_from_order (n ∷ ns) l = do k ← remove_from_order n l; remove_all_from_order ns k

unfoldable pub idle_states : Dict StateNode → List String
idle_states [] = []
idle_states ((name, s) ∷ d) =
    if nat_eq (length s.processes) 0 then name ∷ idle_states d else idle_states d

-- `Graph.remove_unused_states`
unfoldable pub remove_unused_states : Graph → Result GraphError Graph
unfolding idle_states remove_names remove_all_from_order
remove_unused_states g = do
  order ← remove_all_from_order (idle_states g.state_instances) g.state_instance_order
  ok (record g {
    state_instances = remove_names (idle_states g.state_instances) g.state_instances;
    state_instance_order = order;
  })
