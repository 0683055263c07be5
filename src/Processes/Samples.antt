-- ===== src/Processes/Samples.antt =====
-- Two instances on two processes, and the theorems at inputs that meet their hypotheses.
use floem.Prelude.{
  ℕ, ◌<◌, String, ◌≡◌, ◌≢◌, refl, false, ◌==◌, String_equality, none, some, List, [], ◌∷◌, arith,
  ok, err, get, put, if◌then◌else◌, contains, Option-cases, get-All, All, contains-All, inl, inr,
  ap,
}
use floem.Graph.{
  Graph, Node, StateNode, Init, no_init, list_init, address_of, text_init, next_init, last_init,
  exception, out_of_fuel,
}
use floem.Graph.Samples.{no_graph, node, element}
use floem.Processes.{Placed, has_pointer, process_at, annotate_process_info}
use floem.Processes.Grown.{content_of}
use floem.Processes.Shared.{annotate_process_info-has_pointer}
use floem.Processes.Ends.{IsRanked, init_names, annotate_process_info_ends}

-- A table that holds the address of a counter.
abbrev state_node : String → String → Init → List String → StateNode
state_node name content init processes = record {
  name = name;
  state = record { name = name; content = some content; init = no_init; processes = processes };
  init = init;
  processes = processes;
  buffer_for = none;
}

abbrev user : String → String → Node
user name thread = record (node name (element "User" [] []) [] [] (some thread)) {
  state_args = "table" ∷ [];
}

abbrev table_init : Init
table_init = list_init (next_init (address_of (text_init "count")) last_init)

abbrev shared : String → Graph
shared content = record no_graph {
  instances = ("a", user "a" "t") ∷ ("b", user "b" "u") ∷ [];
  state_instances =
      ("table", state_node "table" content table_init [])
      ∷ ("count", state_node "count" "int n;" no_init [])
      ∷ [];
  thread2process = ("t", "p") ∷ ("u", "q") ∷ [];
}

abbrev placed : Placed
placed = record {
  graph = record (shared "int n;") {
    state_instances =
        ("table", state_node "table" "int n;" table_init ("p" ∷ "q" ∷ []))
        ∷ ("count", state_node "count" "int n;" no_init ("p" ∷ "q" ∷ []))
        ∷ [];
    processes = "p" ∷ "q" ∷ [];
    devices = "CPU" ∷ [];
    process2device = ("p", "CPU") ∷ ("q", "CPU") ∷ [];
    master_process = some "p";
  };
  places = ("a", ("p", ("CPU", 0 ∷ []))) ∷ ("b", ("q", ("CPU", 0 ∷ []))) ∷ [];
  api_processes = [];
}

annotate_run : annotate_process_info 2 (shared "int n;") ≡ ok placed
unfolding annotate_process_info get put
annotate_run = refl

-- A pointer in the shared state is refused.
pointer_run : annotate_process_info 2 (shared "int* n;") ≡ err exception
unfolding annotate_process_info get put
pointer_run = refl

unequal : (a b : String) → (a == b) ≡ false → a ≢ b
unequal a b n h = ground (arith, n, String_equality.same_iff a b, h)

different : process_at (shared "int n;") (some "t") ≢ process_at (shared "int n;") (some "u")
unfolding get process_at
different = unequal "p" "q" refl

annotate_process_info-has_pointer_example :
    has_pointer (content_of (shared "int n;") "table") ≡ ok false
unfolding get process_at
annotate_process_info-has_pointer_example =
    annotate_process_info-has_pointer 2 (shared "int n;") placed "a" "b" "table" (user "a" "t")
      (user "b" "u") annotate_run refl refl refl refl different

abbrev rank : String → ℕ
rank s = if s == "table" then 1 else 0

shared-IsRanked : IsRanked (shared "int n;") rank
unfolding get init_names
shared-IsRanked = record {
  falls = λ s n x e m. elim (Option-cases (get (shared "int n;").state_instances s)) [
    | inl f ↦ absurd (ground (arith, f, e))
    | inr (i, f) ↦
        let lower =
          get-All (λ k i. All (λ n. rank n < rank k) (init_names i.init))
            (shared "int n;").state_instances s i ((omega arith, tt), (tt, tt)) f in
        let same : i.init ≡ x = ground (arith, f, e) in
        contains-All (λ n. rank n < rank s) n (init_names i.init) lower
          (ground (arith, m, ap (λ x. contains n (init_names x)) same))
  ];
}

annotate_process_info_ends_example : annotate_process_info 2 (shared "int n;") ≢ err out_of_fuel
annotate_process_info_ends_example =
    annotate_process_info_ends 2 (shared "int n;") rank shared-IsRanked (λ s. ground arith)
