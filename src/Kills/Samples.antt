-- ===== src/Kills/Samples.antt =====
-- Kill sets in a small graph, and the theorems at inputs that meet their hypotheses.
use floem.Prelude.{
  ℕ, ◌<◌, String, ◌≡◌, ◌≢◌, ◌↔◌, contains, true, refl, ◌==◌, String_equality, none, some, List, [],
  ◌∷◌, if◌then◌else◌, ok, err, get, get-All, All, put, arith, Dict,
}
use floem.Graph.{Graph, InPort, Element, one, single}
use floem.Graph.Samples.{no_graph, node, element, port}
use floem.Kills.{KillError, out_of_fuel, entries, join_collect_killset}
use floem.Kills.Defined.{Goes, now, after, join_collect_killset_fails}
use floem.Kills.Exact.{Defines, join_collect_killset-Defines}
use floem.Kills.Ends.{Falls, join_collect_killset_ends}

-- An element that defines a field of the state.
abbrev setter : Element
setter = record (element "Setter" (port "in" ∷ []) (port "out" ∷ [])) { defs = "size" ∷ [] }

-- `dom` fires both ports, `set` and `far` define a field each, and the walk goes no further than
-- `last`, which is out of scope.
abbrev fan : Graph
fan = record no_graph {
  instances =
      (
        "dom",
        node "dom" (element "Dom" [] (port "a" ∷ port "b" ∷ []))
            (("a", ("set", single "in")) ∷ ("b", ("far", single "in")) ∷ []) [] none,
      )
      ∷ ("set", node "set" setter (("out", ("join", single "in")) ∷ []) [] none)
      ∷ (
        "far",
        node "far" (record setter { defs = "key" ∷ [] }) (("out", ("last", single "in")) ∷ []) []
            none,
      )
      ∷ (
        "last",
        node "last" (record setter { defs = "late" ∷ [] }) (("out", ("end", single "in")) ∷ []) []
            none,
      )
      ∷ ("end", node "end" (record setter { defs = "end" ∷ [] }) [] [] none)
      ∷ ("join", node "join" (element "Join" (port "in" ∷ []) []) [] [] none)
      ∷ [];
}

abbrev kept : Dict (List String)
kept = ("set", []) ∷ ("far", "late" ∷ []) ∷ ("dom", "size" ∷ "key" ∷ "late" ∷ []) ∷ []

abbrev collected : List String
collected = "size" ∷ "key" ∷ "late" ∷ []

abbrev inside : List String
inside = "set" ∷ "far" ∷ "dom" ∷ []

kill_run : join_collect_killset 4 fan "join" inside "dom" [] ≡ ok (collected, kept)
unfolding join_collect_killset get put
kill_run = refl

join_collect_killset-Defines_example :
    (contains "end" collected ≡ true) ↔ Defines fan "join" inside "end" "dom"
join_collect_killset-Defines_example =
    join_collect_killset-Defines 4 fan "join" inside "dom" "end" kept collected kill_run

size_run : Defines fan "join" inside "size" "dom"
size_run =
    (join_collect_killset-Defines 4 fan "join" inside "dom" "size" kept collected kill_run).0 refl

-- The first instance fires one of two ports.
abbrev choice : Graph
choice = record no_graph {
  instances =
      (
        "dom",
        node "dom" (record (element "Dom" [] (port "a" ∷ port "b" ∷ [])) { output_fire = some one })
            (("a", ("join", single "in")) ∷ ("b", ("join", single "in")) ∷ []) [] none,
      )
      ∷ ("join", node "join" (element "Join" (port "in" ∷ []) []) [] [] none)
      ∷ [];
}

refused_run :
    join_collect_killset 3 choice "join" ("dom" ∷ []) "dom" [] ≡ err KillError.attribute_error
unfolding join_collect_killset get
refused_run = refl

join_collect_killset_fails_example :
    join_collect_killset 3 choice "join" ("dom" ∷ []) "dom" [] ≢ ok ([], [])
unfolding get
join_collect_killset_fails_example =
    join_collect_killset_fails 3 choice "join" ("dom" ∷ []) "dom" []
      (node "dom" (record (element "Dom" [] (port "a" ∷ port "b" ∷ [])) { output_fire = some one })
        (("a", ("join", single "in")) ∷ ("b", ("join", single "in")) ∷ []) [] none)
      ("join", single "in") ("join", single "in") [] ([], []) refl refl refl refl refl refl

abbrev rank : String → ℕ
rank k = if k == "dom" then 1 else 0

goes_to :
    (P : String → Type 0) {m : String} {l : List (String × InPort)}
    → All (λ v. P v.0) l
    → Goes m l
    → P m
goes_to P h now = h.0
goes_to P h (after x) = goes_to P h.1 x

choice-Falls : Falls choice rank
choice-Falls = record {
  falls = λ n m i e x.
      get-All (λ k i. (m : String) → Goes m (entries i) → rank m < rank k) choice.instances n i
        (
          (λ m x. goes_to (λ m. rank m < 1) (omega arith, (omega arith, tt)) x),
          ((λ m x. goes_to (λ m. rank m < 0) tt x), tt),
        )
        e m x;
}

join_collect_killset_ends_example :
    join_collect_killset 2 choice "join" ("dom" ∷ []) "dom" [] ≢ err out_of_fuel
join_collect_killset_ends_example =
    join_collect_killset_ends 2 choice rank "join" ("dom" ∷ []) "dom" [] choice-Falls (omega arith)
