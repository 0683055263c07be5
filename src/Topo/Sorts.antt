-- ===== src/Topo/Sorts.antt =====
-- The order that `order_function_calls` returns.
use mathlib.Core.List.{reverse}
use floem.Prelude.{
  ℕ, String, ◌≡◌, ap, subst, true, List, [], ◌∷◌, arith, String_equality, ×_equality, contains,
  contains-reverse, IsDistinct, IsDistinct-reverse, All, All-of_contains, ok, ok-of_bind,
  ok-injective,
}
use floem.Topo.{Edges, Search, start, topo_sort, sort_each, depth, order_function_calls}
use floem.Topo.Visit.{IsOrdered, IsSearch, Extends, Extends-trans, Extends-refl, topo_sort-Finishes}

pub IsSearch-start : (edges : Edges) → IsSearch edges start
IsSearch-start edges = record { visited = λ a h. cc; distinct = tt; ordered = tt }

-- Every port that was sorted is finished.
pub sort_each-Finishes :
    (fuel : ℕ) (edges : Edges) (l : List String) (s t : Search)
    → IsSearch edges s
    → sort_each fuel edges l s ≡ ok t
    → IsSearch edges t
      × Extends s t
      × ((a : String) → contains a l ≡ true → contains a t.order ≡ true)
unfolding sort_each
sort_each-Finishes fuel edges [] s t h e =
    let same : s ≡ t = ok-injective e in
    (subst (IsSearch edges) same h, subst (Extends s) same (Extends-refl s), λ a m. cc)
sort_each-Finishes fuel edges (port ∷ l) s t h e =
    let (u, p, q) = ok-of_bind (topo_sort fuel edges s port) (sort_each fuel edges l) e in
    let first = topo_sort-Finishes fuel edges s u port h p in
    let (search, extends, found) = sort_each-Finishes fuel edges l u t first.search q in
    (
      search,
      Extends-trans s u t first.extends extends,
      λ a m. ground (
        arith,
        String_equality.same_iff port a,
        λ (e : port ≡ a). ap (λ x. contains x t.order) e,
        extends.keeps_order port first.finished,
        found a,
      ),
    )

-- If `order_function_calls` orders the calls of an instance with some pair (a, b), then in the
-- result b stands behind a for each pair (a, b) whose a is in it, no port stands twice, and each
-- output port of the instance is in it.
pub order_function_calls_sorts :
    (e : String × String) (edges : Edges) (ports r : List String)
    → order_function_calls (e ∷ edges) ports ≡ ok r
    → IsOrdered (e ∷ edges) r × IsDistinct r × All (λ a. contains a r ≡ true) ports
unfolding order_function_calls
order_function_calls_sorts e edges ports r h =
    let all = e ∷ edges in
    let (t, p, q) = ok-of_bind (sort_each (depth all ports) all (reverse ports) start) _ h in
    let (search, extends, found) =
      sort_each-Finishes (depth all ports) all (reverse ports) start t (IsSearch-start all) p in
    let same : reverse t.order ≡ r = ok-injective q in
    (
      subst (IsOrdered all) same search.ordered,
      subst IsDistinct same (IsDistinct-reverse t.order search.distinct),
      All-of_contains ports
          (λ a m. rw (← same, contains-reverse) (found a (rw contains-reverse m))),
    )
