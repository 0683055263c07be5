-- ===== src/Graph/Walk/Samples.antt =====
-- What can be reached: the theorems at inputs that meet their hypotheses.
use floem.Prelude.{
  String, ◌≡◌, refl, true, String_equality, some, List, [], ◌∷◌, ok, get, get-All, All,
  contains-All, values, has, inl, inr, ◌↔◌, contains, keys, Option-cases, arith,
}
use floem.Graph.Walk.{
  targets, find_subgraph, find_subgraph_same_thread, find_roots, any_instance, on_thread,
}
use floem.Graph.Walk.Closed.{IsNamed}
use floem.Graph.Walk.Reached.{Reaches, find_subgraph-Reaches, find_subgraph_same_thread-Reaches}
use floem.Graph.Walk.Ends.{IsComplete, find_subgraph_ends}
use floem.Graph.Walk.Roots.{IsFirst, find_roots-IsFirst}
use floem.Graph.Samples.{small}

abbrev whole : List String
whole = "src" ∷ "left" ∷ "right" ∷ []

abbrev same_thread : List String
same_thread = "src" ∷ "left" ∷ []

small-IsNamed : IsNamed small
small-IsNamed = record {
  at_key = λ k i h. get-All (λ k i. i.name ≡ k) small.instances k i (refl, (refl, (refl, tt))) h;
}

small-IsComplete : IsComplete small
unfolding get targets values
small-IsComplete = record {
  present = λ n m h. elim (Option-cases (get small.instances n)) [
    | inl e ↦ absurd (ground (arith, e))
    | inr (i, e) ↦
        let there =
          get-All (λ k i. All (λ m. has small.instances m ≡ true) (targets i)) small.instances n i
            ((refl, (refl, tt)), ((refl, tt), (tt, tt))) e in
        contains-All (λ m. has small.instances m ≡ true) m (targets i) there (ground (arith, e))
  ];
}

subgraph_run : find_subgraph small "src" [] ≡ ok whole
unfolding find_subgraph get keys
subgraph_run = refl

thread_run : find_subgraph_same_thread small "src" [] (some "t") ≡ ok same_thread
unfolding find_subgraph_same_thread get keys
thread_run = refl

find_subgraph-Reaches_example :
    (contains "right" whole ≡ true) ↔ Reaches small any_instance "src" "right"
find_subgraph-Reaches_example =
    find_subgraph-Reaches small "src" whole "right" small-IsNamed subgraph_run

find_subgraph_same_thread-Reaches_example :
    (contains "left" same_thread ≡ true) ↔ Reaches small (on_thread (some "t")) "src" "left"
find_subgraph_same_thread-Reaches_example =
    find_subgraph_same_thread-Reaches small "src" (some "t") same_thread "left" small-IsNamed
      thread_run

find_subgraph_ends_example : (r : List String) × (find_subgraph small "src" [] ≡ ok r)
unfolding get
find_subgraph_ends_example = find_subgraph_ends small "src" small-IsNamed small-IsComplete refl

find_roots-IsFirst_example :
    (contains "src" (find_roots small) ≡ true)
    ↔ ((has small.instances "src" ≡ true) × IsFirst small "src")
unfolding keys
find_roots-IsFirst_example = find_roots-IsFirst small "src" (refl, (refl, (refl, tt)))
