-- ===== src/Threads/Samples.antt =====
-- Runs of `check_resources`, and the theorems at inputs that meet their hypotheses.
use floem.Prelude.{
  ◌≡◌, ◌≢◌, refl, String_equality, none, some, [], ◌∷◌, ok, err, get, put, keys, values, All,
  get-All,
}
use floem.Graph.{Graph, GraphError, Node, Api}
use floem.Graph.Starts.{is_start}
use floem.Graph.Walk.Closed.{IsNamed}
use floem.Graph.Samples.{no_graph, node, element, port}
use floem.Threads.{Return, check_resources, dfs_collect_return}
use floem.Threads.Started.{IsStart, check_resources-IsStart}
use floem.Threads.Returned.{Gives, dfs_collect_return-Gives}
use floem.Threads.Served.{IsServed, check_resources-IsServed}
use floem.Threads.Ends.{dfs_collect_return_ends}

-- One instance, which an API function starts and whose output the function returns.
abbrev one : Node
one = node "one" (element "One" [] (port "out" ∷ [])) [] [] (some "get_one")

abbrev function : Api
function = record {
  object = 0;
  name = "get_one";
  call_types = [];
  return_type = some "int";
  default_val = none;
  call_instance = none;
  return_instance = none;
  return_port = none;
}

abbrev before : Graph
before = record no_graph {
  instances = ("one", one) ∷ [];
  threads_api = function ∷ [];
  threads_roots = "one" ∷ [];
}

abbrev after : Graph
after = record before {
  threads_api =
      record function {
        call_instance = some "one";
        return_instance = some "one";
        return_port = some "out";
      }
      ∷ [];
}

resources_run : check_resources before ≡ ok after
unfolding check_resources values is_start get put
resources_run = refl

abbrev returned : Return
returned = record { types = "int" ∷ []; instance_name = some "one"; port = some "out" }

return_run : dfs_collect_return before "one" "get_one" ≡ ok returned
unfolding dfs_collect_return get
return_run = refl

before-IsNamed : IsNamed before
before-IsNamed = record {
  at_key = λ k i h. get-All (λ k i. i.name ≡ k) before.instances k i (refl, tt) h;
}

one-IsStart : IsStart before "get_one" one
unfolding is_start values
one-IsStart = record { on_thread = refl; starts = refl }

check_resources-IsStart_example : one ≡ one
unfolding get
check_resources-IsStart_example =
    check_resources-IsStart before after "get_one" "one" "one" one one resources_run refl refl
      one-IsStart one-IsStart

check_resources-IsServed_example : All (IsServed before) after.threads_api
unfolding keys
check_resources-IsServed_example =
    check_resources-IsServed before after (refl, tt) before-IsNamed resources_run

dfs_collect_return-Gives_example : Gives before "get_one" returned
dfs_collect_return-Gives_example =
    dfs_collect_return-Gives before "one" "get_one" returned return_run

dfs_collect_return_ends_example :
    dfs_collect_return before "one" "get_one" ≢ err GraphError.out_of_fuel
dfs_collect_return_ends_example = dfs_collect_return_ends before "one" "get_one"
