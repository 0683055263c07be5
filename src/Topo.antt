-- ===== src/Topo.antt =====
-- floem/join_handling.py, `topo_sort` and `order_function_calls`: the order in which an element
-- instance calls its output ports.
pub mod Visit
pub mod Sorts
pub mod Cycles
pub mod Ends
mod Samples
use mathlib.Core.List.{reverse}
use floem.Prelude.{
  ℕ, zero, suc, ◌+◌, String, Bool, true, false, List, [], ◌∷◌, ◌++◌, ◌==◌, String_equality,
  if◌then◌else◌, length, contains, Result, ok, err, ◌>>=◌,
}

pub data TopoError : Type 0 where
  -- "Cannot resolve order of function calls for all join elements due to a cycle ..."
  cycle : TopoError
  out_of_fuel : TopoError

-- A pair (a, b): port a is called before port b.
abbrev pub Edges : Type 0
Edges = List (String × String)

-- The two lists that the calls of `topo_sort` share.
pub record Search : Type 0 where
  pub order : List String
  pub visit : List String

abbrev pub start : Search
start = record { order = []; visit = [] }

-- The loop `for n1, n2 in join_partial_order`, with the call of `topo_sort` as an argument.
unfoldable pub visit_each :
    (Search → String → Result TopoError Search) → String → Edges → Search → Result TopoError Search
visit_each call port [] s = ok s
visit_each call port ((a, b) ∷ l) s =
    if port == a then (do t ← call s b; visit_each call port l t) else visit_each call port l s

-- The first number bounds the depth of the calls.
unfoldable pub topo_sort : ℕ → Edges → Search → String → Result TopoError Search
unfolding visit_each
topo_sort zero edges s port = err out_of_fuel
topo_sort (suc fuel) edges s port =
    let deeper =
      visit_each (topo_sort fuel edges) port edges (record s { visit = s.visit ++ port ∷ [] }) in
    if contains port s.order
    then ok s
    else if contains port s.visit
    then err cycle
    else (do t ← deeper; ok (record t { order = t.order ++ port ∷ [] }))

unfoldable pub sort_each : ℕ → Edges → List String → Search → Result TopoError Search
unfolding topo_sort
sort_each fuel edges [] s = ok s
sort_each fuel edges (port ∷ l) s = do t ← topo_sort fuel edges s port; sort_each fuel edges l t

-- A call visits a new port: one of the instance's, or a second port of a pair.
abbrev pub depth : Edges → List String → ℕ
depth edges ports = suc (length ports + length edges)

-- The new `join_partial_order`, from the pairs in it and the names of the output ports.
unfoldable pub order_function_calls : Edges → List String → Result TopoError (List String)
unfolding sort_each
order_function_calls [] ports = ok []
order_function_calls (e ∷ edges) ports = do
  t ← sort_each (depth (e ∷ edges) ports) (e ∷ edges) (reverse ports) start
  ok (reverse t.order)
