-- ===== src/JoinInfo/Samples.antt =====
-- The small graph on one thread, and the theorem at inputs that meet its hypotheses.
use floem.Prelude.{
  String, ◌≡◌, refl, true, String_equality, none, some, List, [], ◌∷◌, ok, get, put, keys, values,
  get-All,
}
use floem.Flow.{
  intersection, meet_all, empty, union, add_all, add, add_within, find_merge, happens_before,
  last_port, max_port, full, piece_eq, part_eq, merge_parts, remove_piece,
}
use floem.Graph.{no_init, Graph, Node, Port, port_names}
use floem.Graph.Samples.{no_graph, src_node, left_node, right_node, port}
use floem.JoinInfo.{Annotated, annotate_join_info}
use floem.JoinInfo.Found.{IsJoin, annotate_join_info-IsJoin}

abbrev on_thread : Graph
on_thread = record no_graph {
  instances =
      ("src", src_node)
      ∷ ("left", left_node)
      ∷ ("right", record right_node { thread = some "t" })
      ∷ [];
}

abbrev ports : List Port
ports = port "in1" ∷ port "in2" ∷ []

abbrev joined_node : Node
joined_node = record right_node { thread = some "t"; join_ports_same_thread = some ports }

abbrev pairs : List (String × List (String × String))
pairs = ("left", []) ∷ ("src", ("out2", "out1") ∷ []) ∷ []

abbrev annotated : Annotated
annotated = record {
  info = record {
    graph = record on_thread {
      instances = ("src", src_node) ∷ ("left", left_node) ∷ ("right", joined_node) ∷ [];
      states =
          (
            "_right_join_buffer",
            record {
              name = "_right_join_buffer";
              content = some "int in1_arg0; int in2_arg0; ";
              init = no_init;
              processes = [];
            },
          )
          ∷ [];
      state_order = "_right_join_buffer" ∷ [];
    };
    output2save = ("src", ("out2", "right") ∷ []) ∷ ("left", ("out", "right") ∷ []) ∷ [];
  };
  marks =
      (
        "right",
        record {
          state_create = "src" ∷ [];
          func_params = "left" ∷ [];
          join_call = "left" ∷ [];
          orders = pairs;
        },
      )
      ∷ [];
  minimal = [];
  pairs = pairs;
  orders = ("src", "out2" ∷ "out1" ∷ []) ∷ ("left", []) ∷ ("right", []) ∷ [];
}

annotate_run : annotate_join_info 4 true on_thread [] ≡ ok annotated
unfolding annotate_join_info get put keys values port_names intersection meet_all empty union
    add_all add add_within find_merge happens_before last_port max_port full piece_eq part_eq
    merge_parts remove_piece
annotate_run = refl

annotate_join_info-IsJoin_example :
    (i : Node) × (get on_thread.instances "right" ≡ some i)
    × (record i { join_ports_same_thread = some ports } ≡ joined_node)
    × IsJoin on_thread i ports
unfolding get keys
annotate_join_info-IsJoin_example =
    annotate_join_info-IsJoin 4 true on_thread [] annotated "right" joined_node ports
      (refl, (refl, (refl, tt)))
      (λ k i e.
        get-All (λ k i. i.join_ports_same_thread ≡ none) on_thread.instances k i
          (refl, (refl, (refl, tt))) e)
      annotate_run refl refl
