-- ===== src/Graph/Edit/Samples.antt =====
-- Changes of a small graph: the theorems at inputs that meet their hypotheses.
use floem.Prelude.{
  String, ◌≡◌, refl, false, not, ◌&&◌, ◌==◌, String_equality, none, some, [], ◌∷◌, List, ok, err,
  get, put, remove, values,
}
use floem.Graph.{Graph, key_error, single, port_names}
use floem.Graph.Connect.{connect}
use floem.Graph.Connect.Edges.{out_edge}
use floem.Graph.Connect.Linked.{IsLinked, connect-IsLinked}
use floem.Graph.Connect.Samples.{apart-IsLinked, joined}
use floem.Graph.Samples.{apart, node, fork, join}
use floem.Graph.Edit.{delete_instance, set_thread}
use floem.Graph.Edit.Deleted.{delete_instance-IsLinked}
use floem.Graph.Edit.Refined.{
  Change, connecting, deleting, threading, change_all, Steps, view, change_all-Steps,
}

abbrev alone : Graph
alone = record apart { instances = ("src", node "src" fork [] [] none) ∷ [] }

abbrev linked : Graph
linked = record apart {
  instances =
      ("src", node "src" fork (("out1", ("right", single "in1")) ∷ []) [] none)
      ∷ ("right", node "right" join [] (("in1", ("src", "out1") ∷ []) ∷ []) none)
      ∷ [];
}

linked_run : connect apart "src" "right" (some "out1") (some "in1") false ≡ ok linked
unfolding connect get put port_names
linked_run = refl

linked-IsLinked : IsLinked linked
linked-IsLinked =
    connect-IsLinked apart linked "src" "right" (some "out1") (some "in1") apart-IsLinked linked_run

delete_run : delete_instance linked "right" ≡ ok alone
unfolding delete_instance get put remove values
delete_run = refl

-- An instance that one output port leads to at two input ports cannot be deleted.
delete_refused : delete_instance joined "right" ≡ err key_error
unfolding delete_instance get put remove values
delete_refused = refl

delete_instance-IsLinked_example :
    IsLinked alone
    × (get alone.instances "right" ≡ none)
    × ((n p m q : String)
        → out_edge alone n p m q
          ≡ (out_edge linked n p m q && (not ("right" == n) && not ("right" == m))))
delete_instance-IsLinked_example =
    delete_instance-IsLinked linked alone "right" linked-IsLinked delete_run

abbrev changes : List Change
changes =
    connecting "src" "right" (some "out1") (some "in1")
    ∷ threading "src" (some "t")
    ∷ deleting "right"
    ∷ []

abbrev threaded : Graph
threaded = record apart { instances = ("src", node "src" fork [] [] (some "t")) ∷ [] }

change_run : change_all apart changes ≡ ok threaded
unfolding change_all connect delete_instance set_thread get put remove values port_names
change_run = refl

change_all-Steps_example : IsLinked threaded × Steps changes (view apart) (view threaded)
change_all-Steps_example = change_all-Steps apart threaded changes apart-IsLinked change_run
