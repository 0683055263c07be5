-- ===== src/Graph/Connect/Samples.antt =====
-- Connecting instances: the theorems at inputs that meet their hypotheses.
use floem.Prelude.{
  String, ◌≡◌, refl, sym, ◌∙◌, false, String_equality, none, some, [], ◌∷◌, ok, get, get-All, put,
  inl, inr, ap, Option-cases, arith,
}
use floem.Graph.{Graph, several, port_names}
use floem.Graph.Connect.{connect}
use floem.Graph.Connect.Edges.{out_edge, in_edge, leads, comes}
use floem.Graph.Connect.Linked.{IsLinked, connect-IsLinked}
use floem.Graph.Samples.{apart, node, fork, join}

abbrev pub joined : Graph
joined = record apart {
  instances =
      ("src", node "src" fork (("out1", ("right", several ("in1" ∷ "in2" ∷ []))) ∷ []) [] none)
      ∷ (
        "right",
        node "right" join [] (("in1", ("src", "out1") ∷ []) ∷ ("in2", ("src", "out1") ∷ []) ∷ [])
            none,
      )
      ∷ [];
}

pub connect_run : connect apart "src" "right" (some "out1") none false ≡ ok joined
unfolding connect get put port_names
connect_run = refl

apart_out : (n p m q : String) → out_edge apart n p m q ≡ false
unfolding get
apart_out n p m q = elim (Option-cases (get apart.instances n)) [
  | inl e ↦ ground (arith, e)
  | inr (i, e) ↦
      let none_there : i.output2ele ≡ [] =
        get-All (λ k i. i.output2ele ≡ []) apart.instances n i (refl, (refl, tt)) e in
      ground (arith, e, ap (λ o. leads (get o p) m q) none_there)
]

apart_in : (n p m q : String) → in_edge apart n p m q ≡ false
unfolding get
apart_in n p m q = elim (Option-cases (get apart.instances m)) [
  | inl e ↦ ground (arith, e)
  | inr (i, e) ↦
      let none_there : i.input2ele ≡ [] =
        get-All (λ k i. i.input2ele ≡ []) apart.instances m i (refl, (refl, tt)) e in
      ground (arith, e, ap (λ o. comes (get o q) n p) none_there)
]

pub apart-IsLinked : IsLinked apart
apart-IsLinked = record {
  named = λ k i h. get-All (λ k i. i.name ≡ k) apart.instances k i (refl, (refl, tt)) h;
  agree = λ n p m q. apart_out n p m q ∙ sym (apart_in n p m q);
}

connect-IsLinked_example : IsLinked joined
connect-IsLinked_example =
    connect-IsLinked apart joined "src" "right" (some "out1") none apart-IsLinked connect_run
