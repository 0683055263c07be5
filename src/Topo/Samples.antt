-- ===== src/Topo/Samples.antt =====
-- Runs of `order_function_calls`, and the theorems at inputs that meet their hypotheses.
use floem.Prelude.{
  String, ◌≡◌, ◌≢◌, refl, true, List, [], ◌∷◌, String_equality, ×_equality, contains, IsDistinct,
  All, ok, err,
}
use floem.Topo.{Edges, cycle, out_of_fuel, order_function_calls}
use floem.Topo.Visit.{IsOrdered}
use floem.Topo.Sorts.{order_function_calls_sorts}
use floem.Topo.Ends.{order_function_calls_ends}
use floem.Topo.Cycles.{Follows, order_function_calls_fails, order_function_calls_acyclic}

abbrev pairs : Edges
pairs = ("b", "a") ∷ ("d", "b") ∷ []

abbrev four_ports : List String
four_ports = "a" ∷ "b" ∷ "c" ∷ "d" ∷ []

abbrev sorted : List String
sorted = "c" ∷ "d" ∷ "b" ∷ "a" ∷ []

sorted_run : order_function_calls pairs four_ports ≡ ok sorted
unfolding order_function_calls
sorted_run = refl

loop_run : order_function_calls (("a", "b") ∷ ("b", "a") ∷ []) ("a" ∷ "b" ∷ []) ≡ err cycle
unfolding order_function_calls
loop_run = refl

order_function_calls_sorts_example :
    IsOrdered pairs sorted × IsDistinct sorted × All (λ a. contains a sorted ≡ true) four_ports
order_function_calls_sorts_example =
    order_function_calls_sorts ("b", "a") (("d", "b") ∷ []) four_ports sorted sorted_run

order_function_calls_fails_example : (a : String) × Follows (("a", "b") ∷ ("b", "a") ∷ []) a a
order_function_calls_fails_example =
    order_function_calls_fails (("a", "b") ∷ ("b", "a") ∷ []) ("a" ∷ "b" ∷ []) loop_run

order_function_calls_acyclic_example : ¬ Follows pairs "d" "d"
order_function_calls_acyclic_example =
    order_function_calls_acyclic pairs four_ports sorted "d" sorted_run refl

order_function_calls_ends_example : order_function_calls pairs four_ports ≢ err out_of_fuel
order_function_calls_ends_example = order_function_calls_ends pairs four_ports
