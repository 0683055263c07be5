-- ===== src/Graph/Build.antt =====
-- floem/graph.py: adding elements and states, and merging two graphs.
pub mod Merged
pub mod Added
mod Samples
use floem.Prelude.{
  ℕ, String, Bool, true, false, not, ◌&&◌, ◌||◌, Option, none, some, List, [], ◌∷◌, ◌++◌, ◌==◌,
  Equality, String_equality, if◌then◌else◌, Result, ok, err, ◌>>=◌, ◌>>◌, Dict, get, put, has, keys,
  contains, set_union, nat_eq, list_beq,
}
use floem.Graph.{
  GraphError, assertion, redefine_error, Init, no_init, text_init, address_of, list_init,
  other_init, Inits, last_init, next_init, Element, element_eq, State, Graph, Trigger, Api, Before,
  instance_before, group_before,
}

-- The loop of `merge_dict` and its body.
unfoldable pub merge_key {ℓ} : {V : Type ℓ} → Dict V → Dict V → String → Dict V
merge_key this other k =
    if has this k then this else elim (get other k) [ none ↦ this | some v ↦ put this k v ]

unfoldable pub merge_keys {ℓ} : {V : Type ℓ} → Dict V → Dict V → List String → Dict V
merge_keys this other [] = this
merge_keys this other (k ∷ l) = merge_keys (merge_key this other k) other l

-- `Graph.merge_dict`
unfoldable pub merge_dict {ℓ} : {V : Type ℓ} → Dict V → Dict V → Dict V
unfolding merge_keys keys
merge_dict this other = merge_keys this other (keys other)

-- `x in this`, by a test
unfoldable pub occurs {ℓ} : {A : Type ℓ} → (A → A → Bool) → A → List A → Bool
occurs test x [] = false
occurs test x (y ∷ l) = test y x || occurs test x l

-- `Graph.merge_list`, with the `==` of its elements
unfoldable pub merge_list {ℓ} : {A : Type ℓ} → (A → A → Bool) → List A → List A → List A
unfolding occurs
merge_list test this [] = this
merge_list test this (x ∷ l) =
    merge_list test (if occurs test x this then this else this ++ x ∷ []) l

abbrev pub same_text : String → String → Bool
same_text a b = a == b

abbrev pub same_trigger : Trigger → Trigger → Bool
same_trigger a b = nat_eq a.object b.object

abbrev pub same_api : Api → Api → Bool
same_api a b = nat_eq a.object b.object

unfoldable pub same_before : Before → Before → Bool
same_before (instance_before a) (instance_before b) = a == b
same_before (group_before a) (group_before b) = list_beq a b
same_before _ _ = false

abbrev pub same_order : Before × String → Before × String → Bool
same_order a b = same_before a.0 b.0 && a.1 == b.1

abbrev pub check : Bool → GraphError → Result GraphError (Unit {0})
check true e = ok tt
check false e = err e

-- A process name that is None, or that agrees with the other.
unfoldable pub agrees : Option String → Option String → Bool
agrees a none = true
agrees none (some b) = true
agrees (some a) (some b) = a == b

-- `self.master_process or other.master_process`; no process has an empty name.
unfoldable pub or_else : Option String → Option String → Option String
or_else none b = b
or_else (some a) b = some a

-- The graph that `merge` leaves.
unfoldable pub merged : Graph → Graph → Graph
unfolding merge_list or_else same_before
merged g h = record {
  elements = merge_dict g.elements h.elements;
  instances = merge_dict g.instances h.instances;
  states = merge_dict g.states h.states;
  state_instances = merge_dict g.state_instances h.state_instances;
  state_order = merge_list same_text g.state_order h.state_order;
  state_instance_order = merge_list same_text g.state_instance_order h.state_instance_order;
  threads_internal = merge_list same_trigger g.threads_internal h.threads_internal;
  threads_api = merge_list same_api g.threads_api h.threads_api;
  threads_order = merge_list same_order g.threads_order h.threads_order;
  threads_roots = set_union g.threads_roots h.threads_roots;
  api_outputs = merge_list same_text g.api_outputs h.api_outputs;
  pipeline_states = g.pipeline_states;
  processes = set_union g.processes h.processes;
  devices = set_union g.devices h.devices;
  thread2process = merge_dict g.thread2process h.thread2process;
  thread2device = merge_dict g.thread2device h.thread2device;
  process2device = merge_dict g.process2device h.process2device;
  default_process = g.default_process;
  master_process = or_else g.master_process h.master_process;
}

-- `Graph.merge`
unfoldable pub merge : Graph → Graph → Result GraphError Graph
unfolding agrees merged
merge g h = do
  check (h.default_process == "tmp" || g.default_process == h.default_process) assertion
  check (agrees g.master_process h.master_process) assertion
  ok (merged g h)

abbrev pub option_text_eq : Option String → Option String → Bool
option_text_eq none none = true
option_text_eq (some a) (some b) = a == b
option_text_eq _ _ = false

-- `==` on initial values, with `AddressOf.__eq__`
unfoldable mutual
  pub init_eq : Init → Init → Bool
  init_eq no_init no_init = true
  init_eq (text_init a) (text_init b) = a == b
  init_eq (address_of a) (address_of b) = init_eq a b
  init_eq (list_init k) (list_init l) = inits_eq k l
  init_eq (other_init m) (other_init n) = nat_eq m n
  init_eq _ _ = false

  pub inits_eq : Inits → Inits → Bool
  inits_eq last_init last_init = true
  inits_eq (next_init a k) (next_init b l) = init_eq a b && inits_eq k l
  inits_eq _ _ = false

-- `State.__eq__`
unfoldable pub state_eq : State → State → Bool
unfolding init_eq
state_eq a b = a.name == b.name && (option_text_eq a.content b.content && init_eq a.init b.init)

-- `Graph.addState`: whether the state is new, with the graph.
unfoldable pub add_state : Graph → State → Result GraphError (Bool × Graph)
unfolding state_eq
add_state g s = elim (get g.states s.name) [
  | some old ↦ if state_eq old s then ok (false, g) else err redefine_error
  | none ↦ ok (
    true,
    record g { states = put g.states s.name s; state_order = g.state_order ++ s.name ∷ [] },
  )
]

-- `Graph.addElement`
unfoldable pub add_element : Graph → Element → Result GraphError (Bool × Graph)
unfolding element_eq
add_element g e = elim (get g.elements e.name) [
  | some old ↦ if element_eq old e then ok (false, g) else err redefine_error
  | none ↦ ok (true, record g { elements = put g.elements e.name e })
]

-- `Graph.newStateInstance`. Its state need not be known.
unfoldable pub new_state_instance : Graph → String → String → Init → Graph
new_state_instance g state name init =
    let s : State = elim (get g.states state) [
      | some s ↦ s
      | none ↦ record { name = state; content = none; init = no_init; processes = [] }
    ] in
    record g {
      state_instances =
          put g.state_instances name
            (record { name = name; state = s; init = init; processes = []; buffer_for = none });
      state_instance_order = g.state_instance_order ++ name ∷ [];
    }
