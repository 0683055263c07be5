-- ===== src/Program/Kept.antt =====
-- The operations that make a graph keep its instances those of declared elements.
use floem.Prelude.{
  suc, String, ◌≡◌, refl, ap, sym, subst, ◌∙◌, inl, inr, Bool, true, false, not, ◌&&◌, Option, none,
  some, List, [], ◌∷◌, ◌==◌, arith, String_equality, ok, ok-of_bind, ok-injective, Dict, get, put,
  get-put, has, length, Option-cases, Bool-cases,
}
use floem.Graph.{exception, Init, Node, Element, State, StateNode, Graph, lookup}
use floem.Graph.Build.{check, add_element, add_state, state_eq, new_state_instance}
use floem.Graph.Build.Added.{add_element-cases}
use floem.Graph.Connect.{connect, connect_input_ports, connect_input_port, in_names, set_instance}
use floem.Graph.Connect.Edges.{connect_output_port-cases, name-connect_input_ports}
use floem.Graph.Connect.Linked.{connect-cases, lookup-eq-ok}
use floem.Graph.Instances.{Queue, QueueEnd, new_element_instance}
use floem.Graph.Instances.Typed.{Fits, new_element_instance-Fits}
use floem.Graph.Edit.{add_pipeline_state}
use floem.Program.{is_plain, map_resource, start_core}

-- The element of an instance is declared under its name, and has as many state parameters as the
-- instance has arguments.
abbrev pub Declares : Dict Element → String → Node → Type 0
Declares elements k i =
    (i.name ≡ k)
    × (get elements i.element.name ≡ some i.element)
    × (length i.state_args ≡ length i.element.state_params)

pub record IsDeclared (g : Graph) : Type 0 where
  pub elements_named : (k : String) (e : Element) → get g.elements k ≡ some e → e.name ≡ k
  pub instances_declared :
      (k : String) (i : Node) → get g.instances k ≡ some i → Declares g.elements k i
  pub states_named : (k : String) (x : StateNode) → get g.state_instances k ≡ some x → x.name ≡ k

-- What holds of the new entry and of all old ones holds of all.
put-holds :
    {V : Type 0} (P : String → V → Type 0) (d : Dict V) (k : String) (v : V)
    → ((j : String) (w : V) → get d j ≡ some w → P j w)
    → P k v
    → (j : String) (w : V) → get (put d k v) j ≡ some w
    → P j w
put-holds P d k v old new j w h = elim (Bool-cases (k == j)) [
  | inl e ↦
      let same : v ≡ w = ground (arith, get-put d k j v, e, h) in
      subst (λ j. P j w) ((String_equality.same_iff k j).0 e) (subst (P k) same new)
  | inr e ↦ old j w (ground (arith, get-put d k j v, e, h))
]

-- An instance that differs in its connections, its thread or its start only.
pub change-IsDeclared :
    (g : Graph) (k : String) (i j : Node)
    → get g.instances k ≡ some i
    → j.name ≡ i.name
    → j.element ≡ i.element
    → j.state_args ≡ i.state_args
    → IsDeclared g
    → IsDeclared (set_instance g k j)
change-IsDeclared g k i j found n e a w =
    let (x, y, z) = w.instances_declared k i found in
    record {
      elements_named = w.elements_named;
      instances_declared = put-holds (Declares g.elements) g.instances k j w.instances_declared (
        n ∙ x,
        subst (λ (e : Element). get g.elements e.name ≡ some e) (sym e) y,
        ap length a ∙ z ∙ ap (λ (e : Element). length e.state_params) (sym e),
      );
      states_named = w.states_named;
    }

pub add_element-IsDeclared :
    (g h : Graph) (e : Element) (new : Bool)
    → IsDeclared g
    → add_element g e ≡ ok (new, h)
    → IsDeclared h
add_element-IsDeclared g h e new w a = elim (add_element-cases g h e new a) [
  | inl (_, absent, same) ↦ subst IsDeclared same (record {
    elements_named = put-holds (λ k e. e.name ≡ k) g.elements e.name e w.elements_named refl;
    instances_declared = λ k i f.
        let (x, y, z) = w.instances_declared k i f in
        (
          x,
          ground (
            arith,
            y,
            absent,
            get-put g.elements e.name i.element.name e,
            String_equality.same_iff e.name i.element.name,
            λ (s : e.name ≡ i.element.name). ap (get g.elements) s,
          ),
          z,
        );
    states_named = w.states_named;
  })
  | inr (old, _, _, _, same) ↦ subst IsDeclared same w
]

pub add_state-IsDeclared :
    (g h : Graph) (x : State) (new : Bool)
    → IsDeclared g
    → add_state g x ≡ ok (new, h)
    → IsDeclared h
unfolding add_state
add_state-IsDeclared g h x new w a = elim (Option-cases (get g.states x.name)) [
  | inl f ↦ subst IsDeclared (ap (λ p. p.1) (ok-injective (rw (f, add_state) at a))) (record {
    elements_named = w.elements_named;
    instances_declared = w.instances_declared;
    states_named = w.states_named;
  })
  | inr (old, f) ↦ elim (Bool-cases (state_eq old x)) [
    | inl t ↦ subst IsDeclared (ap (λ p. p.1) (ok-injective (rw (f, t, add_state) at a))) w
    | inr t ↦ absurd (ground (arith, rw (f, t, add_state) at a))
  ]
]

pub new_state_instance-IsDeclared :
    (g : Graph) (x name : String) (init : Init)
    → IsDeclared g
    → IsDeclared (new_state_instance g x name init)
unfolding new_state_instance
new_state_instance-IsDeclared g x name init w = record {
  elements_named = w.elements_named;
  instances_declared = w.instances_declared;
  states_named =
      put-holds (λ k (x : StateNode). x.name ≡ k) g.state_instances name _ w.states_named refl;
}

Fits-length :
    (states : Dict StateNode) (params : List (String × String)) (args : List String)
    → Fits states params args
    → length args ≡ length params
Fits-length states [] [] f = refl
Fits-length states [] (s ∷ args) f = absurd f
Fits-length states (p ∷ params) [] f = absurd f
Fits-length states (p ∷ params) (s ∷ args) f = ap suc (Fits-length states params args f.1)

pub new_element_instance-IsDeclared :
    (g h : Graph) (queues linked : Dict Queue) (kind name : String) (args : List String)
    (user : Option QueueEnd)
    → IsDeclared g
    → new_element_instance g queues kind name args user ≡ ok (h, linked)
    → IsDeclared h
new_element_instance-IsDeclared g h queues linked kind name args user w r =
    let (e, i, x, same_e, n, _, _, _, fits, at_key, same) =
      new_element_instance-Fits g h queues linked kind name args user r in
    let own = w.elements_named kind e x in
    let declared : Declares g.elements name i = (
      n,
      subst (λ (e : Element). get g.elements e.name ≡ some e) (sym same_e)
          (ap (get g.elements) own ∙ x),
      Fits-length g.state_instances e.state_params i.state_args fits
          ∙ ap (λ (e : Element). length e.state_params) (sym same_e),
    ) in
    subst IsDeclared same (record {
      elements_named = w.elements_named;
      instances_declared = λ k j f. elim (Bool-cases (name == k)) [
        | inl q ↦
            let is_new : i ≡ j = ground (arith, q, at_key k, f) in
            subst (λ k. Declares g.elements k j) ((String_equality.same_iff name k).0 q)
              (subst (Declares g.elements name) is_new declared)
        | inr q ↦ w.instances_declared k j (ground (arith, q, at_key k, f))
      ];
      states_named = w.states_named;
    })

args-connect_input_ports :
    (i : Node) (l : List String) (n p : String)
    → ((connect_input_ports i l n p).element ≡ i.element)
      × ((connect_input_ports i l n p).state_args ≡ i.state_args)
unfolding connect_input_ports connect_input_port
args-connect_input_ports i [] n p = (refl, refl)
args-connect_input_ports i (port ∷ l) n p =
    args-connect_input_ports (connect_input_port i port n p) l n p

pub connect-IsDeclared :
    (g h : Graph) (a b : String) (out1 in2 : Option String)
    → IsDeclared g
    → connect g a b out1 in2 false ≡ ok h
    → IsDeclared h
connect-IsDeclared g h a b out1 in2 w e =
    let (i1, i2, port, r, i1', i2', found1, found2, _, _, x, found, same) =
      connect-cases g h a b out1 in2 false e in
    let (free, z) = connect_output_port-cases i1 i1' port i2.name r false x in
    let (same_e, same_args) = args-connect_input_ports i2' (in_names r) i1.name port in
    subst IsDeclared same (
      change-IsDeclared (set_instance g a i1') b i2'
        (connect_input_ports i2' (in_names r) i1.name port) found
        (name-connect_input_ports i2' (in_names r) i1.name port) same_e same_args
        (change-IsDeclared g a i1 i1' found1 (ap (λ (y : Node). y.name) (sym z))
          (ap (λ (y : Node). y.element) (sym z)) (ap (λ (y : Node). y.state_args) (sym z)) w))

pub map_resource-IsDeclared :
    (g h : Graph) (inst resource : String)
    → IsDeclared g
    → map_resource g inst resource ≡ ok h
    → IsDeclared h
unfolding map_resource
map_resource-IsDeclared g h inst resource w e =
    let (i, a, e1) = ok-of_bind (lookup g.instances inst) _ e in
    let (u, b, e2) =
      ok-of_bind
        (check
          (not (
            (elim i.thread [ none ↦ false | some t ↦ not (resource == t) ])
            && is_plain i.element.special))
          exception)
        _ e1 in
    subst IsDeclared (ok-injective e2) (
      change-IsDeclared g inst i (record i { thread = some resource })
        (lookup-eq-ok g.instances inst i a) refl refl refl w)

pub start_core-IsDeclared :
    (g h : Graph) (inst : String) → IsDeclared g → start_core g inst ≡ ok h → IsDeclared h
unfolding start_core
start_core-IsDeclared g h inst w e =
    let (i, a, e1) = ok-of_bind (lookup g.instances inst) _ e in
    subst IsDeclared (ok-injective e1) (
      change-IsDeclared g inst i (record i { core_id = true }) (lookup-eq-ok g.instances inst i a)
        refl refl refl w)

-- A graph with the same elements, instances and states.
pub like-IsDeclared :
    (g h : Graph)
    → IsDeclared g
    → h.elements ≡ g.elements
    → h.instances ≡ g.instances
    → h.state_instances ≡ g.state_instances
    → IsDeclared h
like-IsDeclared g h w a b c = record {
  elements_named =
      subst (λ d. (k : String) (e : Element) → get d k ≡ some e → e.name ≡ k) (sym a)
        w.elements_named;
  instances_declared =
      subst (λ d. (k : String) (i : Node) → get d k ≡ some i → Declares h.elements k i) (sym b)
        (subst (λ d. (k : String) (i : Node) → get g.instances k ≡ some i → Declares d k i) (sym a)
          w.instances_declared);
  states_named =
      subst (λ d. (k : String) (x : StateNode) → get d k ≡ some x → x.name ≡ k) (sym c)
        w.states_named;
}

pub add_pipeline_state-IsDeclared :
    (g h : Graph) (inst x : String)
    → IsDeclared g
    → add_pipeline_state g inst x ≡ ok h
    → IsDeclared h
unfolding add_pipeline_state
add_pipeline_state-IsDeclared g h inst x w e =
    let (u, a, e1) = ok-of_bind (check (not (has g.pipeline_states inst)) _) _ e in
    subst IsDeclared (ok-injective e1) (like-IsDeclared g _ w refl refl refl)
