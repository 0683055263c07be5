-- ===== src/Returns/Samples.antt =====
-- A function of the small graph, and the theorems at inputs that meet their hypotheses.
use floem.Prelude.{
  ℕ, ◌<◌, String, ◌≡◌, ◌≢◌, refl, sym, ap, subst, ◌∙◌, List, Option, false, none, some, [], ◌∷◌,
  ◌==◌, inl, inr, arith, ok, err, Dict, get, put, All, String_equality, if◌then◌else◌, Option-cases,
  get-All, contains-All, values,
}
use floem.Flow.{append, full, empty, intersection, union, piece_eq}
use floem.Graph.{Graph, GraphError, Api, Fire, single, Node, InPort}
use floem.Kills.Defined.{Goes, now, after}
use floem.Graph.Samples.{no_graph, node, element, port, forward}
use floem.Graph.Walk.{targets}
use floem.Joins.Ends.{IsRanked}
use floem.Returns.{ReturnError, Mark, no_mark, annotate_api_info, no_default}
use floem.Returns.Sure.{IsSure, there, through_all, through_one}
use floem.Returns.Ends.{annotate_api_info_ends}

-- The call goes to `first`, and `last` makes the value.
abbrev chain : Graph
chain = record no_graph {
  instances =
      ("first", node "first" forward (("out", ("last", single "in")) ∷ []) [] none)
      ∷ ("last", node "last" (element "Last" (port "in" ∷ []) []) [] [] none)
      ∷ [];
}

abbrev function : Api
function = record {
  object = 7;
  name = "pull";
  call_types = "int" ∷ [];
  return_type = some "int";
  default_val = none;
  call_instance = some "first";
  return_instance = some "last";
  return_port = some "out";
}

abbrev plain_mark : Mark
plain_mark = record no_mark { api_return = some "int" }

abbrev chain_marks : Dict Mark
chain_marks =
    ("first", record plain_mark { api_return_from = "last" ∷ [] })
    ∷ ("last", record plain_mark { api_return_final = some 7 })
    ∷ []

-- A call that is not answered each time needs a default value.
abbrev unsure : Graph
unsure = record no_graph {
  instances =
      (
        "first",
        node "first" (record forward { output_fire = some Fire.zero_or_one })
            (("out", ("last", single "in")) ∷ []) [] none,
      )
      ∷ ("last", node "last" (element "Last" (port "in" ∷ []) []) [] [] none)
      ∷ [];
}

unsure_run : annotate_api_info 3 unsure [] (function ∷ []) [] ≡ err no_default
unfolding annotate_api_info get put empty full intersection union append values piece_eq
unsure_run = refl

-- A port that leads to no return instance is not asked, so this function, which answers through one of
-- two ports, needs no default value.
abbrev half : Graph
half = record no_graph {
  instances =
      (
        "first",
        node "first"
            (record (element "First" (port "in" ∷ []) (port "a" ∷ port "b" ∷ [])) {
              output_fire = some Fire.one;
            })
            (("a", ("last", single "in")) ∷ ("b", ("sink", single "in")) ∷ []) [] none,
      )
      ∷ ("last", node "last" (element "Last" (port "in" ∷ []) []) [] [] none)
      ∷ ("sink", node "sink" (element "Sink" (port "in" ∷ []) []) [] [] none)
      ∷ [];
}

half_run : annotate_api_info 3 half [] (function ∷ []) [] ≡ ok chain_marks
unfolding annotate_api_info get put empty full intersection union append values piece_eq
half_run = refl

abbrev rank : String → ℕ
rank k = if k == "first" then 1 else 0

chain-IsRanked : IsRanked chain rank
unfolding targets values
chain-IsRanked = record {
  falls = λ n m h. elim (Option-cases (get chain.instances n)) [
    | inl e ↦ absurd (ground (arith, e))
    | inr (i, e) ↦
        let lower =
          get-All (λ k i. All (λ m. rank m < rank k) (targets i)) chain.instances n i
            ((omega arith, tt), (tt, tt)) e in
        contains-All (λ m. rank m < rank n) m (targets i) lower (ground (arith, e))
  ];
}

annotate_api_info_ends_example :
    annotate_api_info 2 chain [] (function ∷ []) [] ≢ err (ReturnError.graph GraphError.out_of_fuel)
annotate_api_info_ends_example =
    annotate_api_info_ends 2 chain rank [] (function ∷ []) [] chain-IsRanked (λ n. ground arith)

nowhere : (n : String) → Goes n [] → ⊥
nowhere n x = elim x [ ]

differs : (a b : String) → (a == b) ≡ false → a ≡ b → ⊥
differs a b h q = let e = (String_equality.same_iff a b).1 q in absurd (ground (arith, h, e))

-- What the entry of an instance says of its connections and its firing.
abbrev outs_of : Option Node → List (String × InPort)
outs_of o = elim o [ none ↦ [] | some i ↦ values i.output2ele ]

abbrev fire_of : Option Node → Option Fire
fire_of o = elim o [ none ↦ none | some i ↦ i.element.output_fire ]

-- Not each run from `first` returns: the one through the other port ends at `sink`.
sink_unsure : (n : String) → IsSure half "last" n → n ≡ "sink" → ⊥
unfolding get values
sink_unsure n (there f e) q = differs "last" "sink" refl q
sink_unsure n (through_all {next = next} {i = i} f e x s) q =
    let h : get half.instances "sink" ≡ some i = subst (λ n. get half.instances n ≡ some i) q f in
    nowhere next (subst (λ l. Goes next l) (sym (ap outs_of h)) x)
sink_unsure n (through_one {first = first} {i = i} f e x k) q =
    let h : get half.instances "sink" ≡ some i = subst (λ n. get half.instances n ≡ some i) q f in
    nowhere first (subst (λ l. Goes first l) (sym (ap outs_of h)) x)

first_unsure : (n : String) → IsSure half "last" n → n ≡ "first" → ⊥
unfolding get values
first_unsure n (there f e) q = differs "last" "first" refl q
first_unsure n (through_all {i = i} f e x s) q =
    let h : get half.instances "first" ≡ some i = subst (λ n. get half.instances n ≡ some i) q f in
    let fire : some Fire.one ≡ some Fire.all = ap fire_of h ∙ e in cc
first_unsure n (through_one {i = i} f e x k) q =
    let h : get half.instances "first" ≡ some i = subst (λ n. get half.instances n ≡ some i) q f in
    sink_unsure "sink" (k "sink" (subst (λ l. Goes "sink" l) (ap outs_of h) (after now))) refl
