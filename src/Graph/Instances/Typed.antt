-- ===== src/Graph/Instances/Typed.antt =====
-- What holds of an instance that `newElementInstance` has made.
use floem.Prelude.{
  String, ◌≡◌, refl, ap, sym, ◌∙◌, inl, inr, Bool, true, false, Option, none, some, List, [], ◌∷◌,
  ◌==◌, arith, String_equality, if◌then◌else◌, ok, ok-of_bind, ok-injective, Dict, get, get-put,
  length, nat_eq, nat_eq_iff, Option-cases,
}
use floem.Graph.{GraphError, exception, Element, Node, StateNode, Graph, lookup}
use floem.Graph.Build.{check}
use floem.Graph.Connect.Linked.{lookup-eq-ok}
use floem.Graph.Instances.{Queue, QueueEnd, link_special, check_states, new_element_instance}

-- Each argument names a state instance, of the state that the element wants there.
abbrev pub Fits : Dict StateNode → List (String × String) → List String → Type 0
Fits states [] [] = Unit
Fits states [] (s ∷ args) = ⊥
Fits states (p ∷ params) [] = ⊥
Fits states (p ∷ params) (s ∷ args) =
    ((i : StateNode) × (get states s ≡ some i) × (i.state.name ≡ p.0)) × Fits states params args

check-true : (b : Bool) (e : GraphError) (u : Unit {0}) → check b e ≡ ok u → b ≡ true
check-true true e u h = refl
check-true false e u h = absurd (ground (arith, h))

check_states-Fits :
    (states : Dict StateNode) (params : List (String × String)) (args : List String) (u : Unit {0})
    → length args ≡ length params
    → check_states states params args ≡ ok u
    → Fits states params args
unfolding check_states
check_states-Fits states [] [] u n h = tt
check_states-Fits states [] (s ∷ args) u n h = absurd (omega (arith, n))
check_states-Fits states (p ∷ params) [] u n h = absurd (omega (arith, n))
check_states-Fits states (p ∷ params) (s ∷ args) u n h =
    let (i, a, h1) = ok-of_bind (lookup states s) _ h in
    let (v, b, h2) = ok-of_bind (check (i.state.name == p.0) exception) _ h1 in
    (
      (
        i,
        lookup-eq-ok states s i a,
        (String_equality.same_iff i.state.name p.0).0 (check-true _ _ v b),
      ),
      check_states-Fits states params args u (omega (arith, n)) h2,
    )

-- If `newElementInstance` returns, the element is declared, the name leads to a new instance of it
-- without connections or a thread, its state arguments name state instances of the states that the
-- element wants, as many as it wants, other names lead where they did, and the rest of the graph is
-- as it was.
pub new_element_instance-Fits :
    (g h : Graph) (queues linked : Dict Queue) (element name : String) (args : List String)
    (user : Option QueueEnd)
    → new_element_instance g queues element name args user ≡ ok (h, linked)
    → (e : Element) × (i : Node) × (get g.elements element ≡ some e)
      × (i.element ≡ e)
      × (i.name ≡ name)
      × (i.output2ele ≡ [])
      × (i.input2ele ≡ [])
      × (i.thread ≡ none)
      × Fits g.state_instances e.state_params i.state_args
      × ((k : String) → get h.instances k ≡ (if name == k then some i else get g.instances k))
      × (record g { instances = h.instances } ≡ h)
unfolding new_element_instance
new_element_instance-Fits g h queues linked element name args user r =
    elim (Option-cases (get g.elements element)) [
      | inl x ↦ absurd (ground (arith, rw (x, new_element_instance) at r))
      | inr (e, x) ↦
          let (q, a, r1) =
            ok-of_bind (link_special queues e.special user name) _
              (rw (x, new_element_instance) at r) in
          let (u, b, r2) =
            ok-of_bind (check (nat_eq (length args) (length e.state_params)) exception) _ r1 in
          let (v, c, r3) = ok-of_bind (check_states g.state_instances e.state_params args) _ r2 in
          let same = ap (λ x. x.0) (ok-injective r3) in
          let i : Node = record {
            name = name;
            element = e;
            output2ele = [];
            input2ele = [];
            state_args = args;
            core_id = false;
            thread = none;
            join_ports_same_thread = none;
          } in
          (
            e,
            i,
            x,
            refl,
            refl,
            refl,
            refl,
            refl,
            check_states-Fits g.state_instances e.state_params args v
                ((nat_eq_iff (length args) (length e.state_params)).0 (check-true _ _ u b)) c,
            λ k. ap (λ (h : Graph). get h.instances k) (sym same) ∙ get-put g.instances name k i,
            ap (λ (h : Graph). record g { instances = h.instances }) (sym same) ∙ same,
          )
    ]
