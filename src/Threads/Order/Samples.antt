-- ===== src/Threads/Order/Samples.antt =====
-- Runs of `insert_resource_order`, and the theorems at inputs that meet their hypotheses.
use floem.Prelude.{String, none, List, [], ◌∷◌, ◌≡◌, refl, Dict, ok, err, All}
use floem.Graph.{exception, by_port, Element, single, Before, instance_before, Graph}
use floem.Graph.Samples.{port, node, fork, forward, join, apart, small}
use floem.Graph.Clone.{empty_port}
use floem.Threads.Order.{Extras, no_extras, collect_extras, merge_as_no_join, insert_resource_order}
use floem.Threads.Order.Decimal.{str}
use floem.Threads.Order.Paired.{IsPaired, IsBounded, collect_extras-IsPaired}
use floem.Threads.Order.Kept.{IsFree, insert_resource_order-IsFree}

str_run : str 407 ≡ "407"
unfolding str
str_run = refl

abbrev ordered : Graph
ordered = record apart { threads_order = (instance_before "src", "right") ∷ [] }

abbrev fork_before : Element
fork_before = record fork {
  name = "Fork_clone_o1";
  code = "  ";
  outports = port "out1" ∷ port "out2" ∷ empty_port "_out0" ∷ [];
  output_code = by_port (("_out0", "_out0()") ∷ []);
}

abbrev join_after : Element
join_after = record join {
  name = "Join_clone_i1";
  code = "  ";
  inports = port "in1" ∷ port "in2" ∷ empty_port "_in0" ∷ [];
}

abbrev in_order : Graph
in_order = record ordered {
  elements = ("Fork_clone_o1", fork_before) ∷ ("Join_clone_i1", join_after) ∷ [];
  instances =
      ("src", node "src" fork_before (("_out0", ("right", single "_in0")) ∷ []) [] none)
      ∷ ("right", node "right" join_after [] (("_in0", ("src", "_out0") ∷ []) ∷ []) none)
      ∷ [];
}

in_order_run : insert_resource_order ordered ≡ ok in_order
unfolding insert_resource_order
in_order_run = refl

-- What `left` leads to cannot come before it.
against_run :
    insert_resource_order (record small {
      instances =
          ("a", node "a" forward (("out", ("b", single "in")) ∷ []) [] none)
          ∷ ("b", node "b" forward [] (("in", ("a", "out") ∷ []) ∷ []) none)
          ∷ [];
      threads_order = (instance_before "b", "a") ∷ [];
    })
    ≡ err exception
unfolding insert_resource_order
against_run = refl

insert_resource_order-IsFree_example : All (IsFree ordered) ordered.threads_order
insert_resource_order-IsFree_example = insert_resource_order-IsFree ordered in_order in_order_run

abbrev reaches : Dict (List String)
reaches = ("a", "a" ∷ []) ∷ ("b", "b" ∷ []) ∷ ("c", "c" ∷ []) ∷ []

abbrev orders : List (Before × String)
orders = (instance_before "a", "c") ∷ (instance_before "b", "c") ∷ (instance_before "b", "a") ∷ []

abbrev given : Extras
given = record {
  outs = ("a", ("c", 0) ∷ []) ∷ ("b", ("c", 1) ∷ ("a", 0) ∷ []) ∷ [];
  ins = ("c", ("a", 0) ∷ ("b", 0) ∷ []) ∷ ("a", ("b", 1) ∷ []) ∷ [];
}

given_run : collect_extras reaches orders no_extras ≡ ok given
unfolding collect_extras
given_run = refl

collect_extras-IsPaired_example :
    IsPaired given × IsBounded given.outs given.ins × IsBounded given.ins given.outs
collect_extras-IsPaired_example = collect_extras-IsPaired reaches orders given given_run

-- Two instances before one, without the order of the two.
abbrev grouped : Graph
grouped = record apart {
  instances =
      ("a", node "a" forward [] [] none)
      ∷ ("b", node "b" forward [] [] none)
      ∷ ("right", node "right" join [] [] none)
      ∷ [];
}

abbrev forward_before : Element
forward_before = record forward {
  name = "Forward_clone_o";
  code = "  ";
  outports = port "out" ∷ empty_port "_out" ∷ [];
  output_code = by_port (("_out", "_out()") ∷ []);
}

abbrev join_of_group : Element
join_of_group = record join {
  name = "Join_clone_i";
  code = "  ";
  inports = port "in1" ∷ port "in2" ∷ empty_port "_in" ∷ [];
}

grouped_run :
    merge_as_no_join grouped ("a" ∷ "b" ∷ []) "right"
    ≡ ok (record grouped {
      elements = ("Forward_clone_o", forward_before) ∷ ("Join_clone_i", join_of_group) ∷ [];
      instances =
          ("a", node "a" forward_before (("_out", ("right", single "_in")) ∷ []) [] none)
          ∷ ("b", node "b" forward_before (("_out", ("right", single "_in")) ∷ []) [] none)
          ∷ (
            "right",
            node "right" join_of_group [] (("_in", ("a", "_out") ∷ ("b", "_out") ∷ []) ∷ []) none,
          )
          ∷ [];
    })
unfolding merge_as_no_join
grouped_run = refl
