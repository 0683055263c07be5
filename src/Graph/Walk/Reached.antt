-- ===== src/Graph/Walk/Reached.antt =====
-- `find_subgraph` returns exactly what can be reached.
use floem.Prelude.{
  ℕ, String, ◌≡◌, refl, Bool, true, ◌↔◌, Option, List, [], String_equality, ok, contains,
}
use floem.Graph.{Node, Graph}
use floem.Graph.Walk.{
  collect, depth, any_instance, on_thread, find_subgraph, find_subgraph_same_thread,
}
use floem.Graph.Walk.Closed.{leads_to, is_wanted, IsNamed, Collects, collect-Collects}

-- A walk from the first instance to the second, along connections and through wanted instances.
pub data Reaches (g : Graph) (wanted : Node → Bool) (a : String) : String → Type 0 where
  here : is_wanted g wanted a ≡ true → Reaches g wanted a a
  next :
      {b c : String}
      → Reaches g wanted a b
      → leads_to g b c ≡ true
      → is_wanted g wanted c ≡ true
      → Reaches g wanted a c

module _ (g : Graph) (wanted : Node → Bool) (named : IsNamed g) (root : String) where
  -- The root, or what a reached instance leads to.
  abbrev IsMet : String → Type 0
  IsMet n = is_wanted g wanted n ≡ true → Reaches g wanted root n

  Reaches-collect :
      (fuel : ℕ) (r : List String)
      → collect wanted fuel g root [] ≡ ok r
      → (x : String) → (contains x r ≡ true) ↔ Reaches g wanted root x
  Reaches-collect fuel r h x =
      let (c, found) =
        collect-Collects g wanted IsMet named (λ n m p w e. λ v. next (p w) e v) fuel root [] r
          (λ w. here w) h in
      (λ m. let (p, w) = c.sound x m refl in p w, complete c found)
    where
      complete :
          Collects g wanted IsMet [] r
          → (is_wanted g wanted root ≡ true → contains root r ≡ true)
          → {x : String} → Reaches g wanted root x
          → contains x r ≡ true
      complete c found (here w) = found w
      complete c found (next {b = a} {c = y} p e w) = c.closed a y (complete c found p) refl e w

-- If each instance is stored under its name and `find_subgraph` from an empty set returns, it has
-- found exactly the instances that a walk along the connections leads to.
pub find_subgraph-Reaches :
    (g : Graph) (root : String) (r : List String) (x : String)
    → IsNamed g
    → find_subgraph g root [] ≡ ok r
    → (contains x r ≡ true) ↔ Reaches g any_instance root x
unfolding find_subgraph
find_subgraph-Reaches g root r x named h = Reaches-collect g any_instance named root (depth g) r h x

-- If each instance is stored under its name and `find_subgraph_same_thread` from an empty set
-- returns, it has found exactly the instances that a walk through instances of the thread leads to.
pub find_subgraph_same_thread-Reaches :
    (g : Graph) (root : String) (thread : Option String) (r : List String) (x : String)
    → IsNamed g
    → find_subgraph_same_thread g root [] thread ≡ ok r
    → (contains x r ≡ true) ↔ Reaches g (on_thread thread) root x
unfolding find_subgraph_same_thread
find_subgraph_same_thread-Reaches g root thread r x named h =
    Reaches-collect g (on_thread thread) named root (depth g) r h x
