-- ===== src/Processes.antt =====
-- floem/process_handling.py: the process and the device of each instance, the processes that use a
-- state, and the test that no pointer is shared between processes.
pub mod Grown
pub mod Shared
pub mod Ends
mod Samples
use Prim.Native.String.{[] as no_letter, ◌∷◌ as letter}
use text.Mathlib.Text.{find?}
use floem.Prelude.{
  ℕ, zero, suc, String, Bool, true, false, not, ◌&&◌, Option, none, some, List, [], ◌∷◌, ◌++◌, ◌==◌,
  Equality, String_equality, if◌then◌else◌, Result, ok, err, ◌>>=◌, ◌>>◌, Dict, get, put, has,
  is_some, values, length, ltb, set_union,
}
use floem.Graph.{
  GraphError, key_error, type_error, attribute_error, exception, out_of_fuel, Init, no_init,
  text_init, address_of, list_init, other_init, Inits, last_init, next_init, State, StateNode, Node,
  Api, Graph, lookup,
}
use floem.Graph.Build.{check}
use floem.Graph.Starts.{process_of_thread, device_of_thread}

-- `st_inst.processes.add(process)` and `state.processes.add(process)`. The state of the program is
-- shared; the state instances keep copies, and only this instance's copy follows.
unfoldable pub add_process : State → String → State
add_process x p = record x { processes = set_union x.processes (p ∷ []) }

unfoldable pub note_process : Graph → String → StateNode → String → Graph
unfolding add_process
note_process g name i p = record g {
  state_instances =
      put g.state_instances name
        (record i { processes = set_union i.processes (p ∷ []); state = add_process i.state p });
  states = elim (get g.states i.state.name) [
    | none ↦ g.states
    | some x ↦ put g.states i.state.name (add_process x p)
  ];
}

-- The letters of a text, over which `for x in inits` goes.
unfoldable pub letters : String → List String
letters no_letter = []
letters (letter c s) = letter c no_letter ∷ letters s

-- The body of the loop of `inner` for a text.
unfoldable pub assign_text :
    (Graph → String → Result GraphError Graph) → Graph → String → Result GraphError Graph
assign_text call g x = if has g.state_instances x then call g x else ok g

unfoldable pub assign_letters :
    (Graph → String → Result GraphError Graph) → Graph → List String → Result GraphError Graph
unfolding assign_text
assign_letters call g [] = ok g
assign_letters call g (x ∷ l) = do h ← assign_text call g x; assign_letters call h l

-- The loop of `inner`, and its body. `AddressOf` what is no text is no key.
unfoldable mutual
  unfolding assign_text

  pub assign_item :
      (Graph → String → Result GraphError Graph) → Graph → Init → Result GraphError Graph
  assign_item call g no_init = ok g
  assign_item call g (text_init x) = assign_text call g x
  assign_item call g (address_of (text_init x)) = call g x
  assign_item call g (address_of _) = err key_error
  assign_item call g (list_init l) = assign_items call g l
  assign_item call g (other_init n) = ok g

  pub assign_items :
      (Graph → String → Result GraphError Graph) → Graph → Inits → Result GraphError Graph
  assign_items call g last_init = ok g
  assign_items call g (next_init x l) = do h ← assign_item call g x; assign_items call h l

-- `inner(st_inst.init)`
unfoldable pub assign_init :
    (Graph → String → Result GraphError Graph) → Graph → Init → Result GraphError Graph
unfolding assign_item assign_letters letters
assign_init call g no_init = ok g
assign_init call g (text_init x) = assign_letters call g (letters x)
assign_init call g (address_of a) = err type_error
assign_init call g (list_init l) = assign_items call g l
assign_init call g (other_init n) = err type_error

-- `assign_process_for_state_instance`. The first number bounds the depth of the calls.
unfoldable pub assign_process_for_state_instance :
    ℕ → String → Graph → String → Result GraphError Graph
unfolding note_process assign_init
assign_process_for_state_instance zero p g name = err out_of_fuel
assign_process_for_state_instance (suc fuel) p g name = do
  i ← lookup g.state_instances name
  assign_init (assign_process_for_state_instance fuel p) (note_process g name i p) i.init

unfoldable pub assign_all : ℕ → String → Graph → List String → Result GraphError Graph
unfolding assign_process_for_state_instance
assign_all fuel p g [] = ok g
assign_all fuel p g (s ∷ l) = do
  h ← assign_process_for_state_instance fuel p g s
  assign_all fuel p h l

-- The process of an instance: that of its thread, or the device that is a process of its own.
unfoldable pub process_for : Graph → Option String → String
unfolding process_of_thread
process_for g none = g.default_process
process_for g (some t) = process_of_thread g t

unfoldable pub device_for : Graph → Option String → String × List ℕ
unfolding device_of_thread
device_for g none = ("CPU", 0 ∷ [])
device_for g (some t) = device_of_thread g t

unfoldable pub process_at : Graph → Option String → String
unfolding process_for device_for
process_at g t = let d = device_for g t in if d.0 == "CAVIUM" then d.0 else process_for g t

-- What the pass writes: the graph, `process` and `device` of each instance, and `process` of each API
-- function, by its object.
pub record Placed : Type 0 where
  pub graph : Graph
  pub places : Dict (String × (String × List ℕ))
  pub api_processes : List (ℕ × String)

-- The first loop of `annotate_process_info`.
unfoldable pub place_each : ℕ → Dict Node → Placed → Result GraphError Placed
unfolding assign_all process_at
place_each fuel [] s = ok s
place_each fuel ((k, i) ∷ d) s = do
  let p = process_at s.graph i.thread
  let device = device_for s.graph i.thread
  let g = record s.graph {
    process2device = put s.graph.process2device p device.0;
    processes = set_union s.graph.processes (p ∷ []);
    devices = set_union s.graph.devices (device.0 ∷ []);
  }
  h ← assign_all fuel p g i.state_args
  place_each fuel d (record s { graph = h; places = put s.places i.name (p, device) })

-- `state.content.find('*') >= 0`
unfoldable pub has_pointer : Option String → Result GraphError Bool
has_pointer none = err attribute_error
has_pointer (some c) = ok (is_some (find? c "*"))

-- The last loop: a state instance of several processes has no pointer.
unfoldable pub check_shared : List StateNode → Result GraphError (Unit {0})
unfolding has_pointer
check_shared [] = ok tt
check_shared (x ∷ l) =
    let rest = check_shared l in
    if ltb 1 (length x.processes)
    then (do b ← has_pointer x.state.content; check (not b) exception; rest)
    else rest

unfoldable pub choose_master : Graph → Graph
choose_master g = elim g.master_process [
  | some p ↦ g
  | none ↦ record g {
    master_process = elim g.processes [ [] ↦ some g.default_process | p ∷ l ↦ some p ];
  }
]

unfoldable pub place_apis : Graph → List Api → List (ℕ × String)
unfolding process_of_thread
place_apis g [] = []
place_apis g (a ∷ l) = (a.object, process_of_thread g a.name) ∷ place_apis g l

unfoldable pub note_master : Graph → Option String → Graph
note_master g none = g
note_master g (some p) = record g { processes = set_union g.processes (p ∷ []) }

-- `annotate_process_info`
unfoldable pub annotate_process_info : ℕ → Graph → Result GraphError Placed
unfolding note_master place_each choose_master place_apis check_shared values
annotate_process_info fuel g = do
  s ←
      place_each fuel g.instances
        (record { graph = note_master g g.master_process; places = []; api_processes = [] })
  let h = choose_master s.graph
  check_shared (values h.state_instances)
  ok (record s { graph = h; api_processes = place_apis h h.threads_api })
