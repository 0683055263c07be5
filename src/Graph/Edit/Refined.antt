-- ===== src/Graph/Edit/Refined.antt =====
-- The abstract view of a graph, its connections as a set and its elements, and that a run of
-- `connect`, `delete_instance` and `set_thread` is a run on that view.
use floem.Prelude.{
  String, ◌≡◌, refl, ap, sym, subst, ◌∙◌, Bool, true, false, none, some, inl, inr, Bool-cases,
  if◌then◌else◌, err, not, ◌&&◌, ◌||◌, Option, List, [], ◌∷◌, ◌==◌, arith, String_equality, put,
  contains, Result, ok, ◌>>=◌, ok-injective, ok-of_bind,
}
use floem.Graph.{GraphError, assertion, InPort, Port, Element, Node, Graph, lookup, port_names}
use floem.Graph.Connect.{
  connect, connect_input_ports, in_names, choose_outport, choose_inport, all_inports,
}
use floem.Graph.Edit.Elements.{
  element_at, element_at-some, element_at-put, element-connect_input_ports,
  element_at-delete_instance,
}
use floem.Graph.Connect.Edges.{out_edge, output2ele-connect_input_ports, connect_output_port-cases}
use floem.Graph.Connect.Linked.{
  IsLinked, connect-cases, some_out_free, some_out-put_same, some_in-put_same, some_out-put_output,
  named-put, lookup-eq-ok, connect-IsLinked,
}
use floem.Graph.Edit.{delete_instance, set_thread}
use floem.Graph.Edit.Deleted.{delete_instance-IsLinked}

-- The changes of a graph, and the calls that make them.
pub data Change : Type 0 where
  connecting : String → String → Option String → Option String → Change
  deleting : String → Change
  threading : String → Option String → Change

unfoldable pub change : Graph → Change → Result GraphError Graph
change g (connecting a b out1 in2) = connect g a b out1 in2 false
change g (deleting a) = delete_instance g a
change g (threading a t) = set_thread g a t

unfoldable pub change_all : Graph → List Change → Result GraphError Graph
unfolding change
change_all g [] = ok g
change_all g (c ∷ l) = do h ← change g c; change_all h l

-- The connections as a set.
abbrev pub Edges : Type 0
Edges = String → String → String → String → Bool

-- The abstract view: the connections, and the element of each instance.
pub record View : Type 0 where
  pub edges : Edges
  pub elements : String → Option Element

abbrev pub view : Graph → View
view g = record { edges = out_edge g; elements = λ n. element_at g.instances n }

-- The output port that a request means: the one that it names, or the only one.
abbrev pub IsOutport : Element → Option String → String → Type 0
IsOutport e (some p) port = (port ≡ p) × (contains p (port_names e.outports) ≡ true)
IsOutport e none port = port_names e.outports ≡ port ∷ []

-- The input ports that a request means: the one that it names, or all.
abbrev pub IsInports : Element → Option String → List String → Type 0
IsInports e (some p) l = (l ≡ p ∷ []) × (contains p (port_names e.inports) ≡ true)
IsInports e none l = l ≡ port_names e.inports

-- What a request to connect does: the output port that it means, which was not connected, leads to
-- the input ports that it means.
pub record Connects (a b : String) (out1 in2 : Option String) (v w : View) : Type 0 where
  pub sender : Element
  pub receiver : Element
  pub outport : String
  pub inports : List String
  pub sends : v.elements a ≡ some sender
  pub receives : v.elements b ≡ some receiver
  pub from_port : IsOutport sender out1 outport
  pub to_ports : IsInports receiver in2 inports
  pub was_free : (m q : String) → v.edges a outport m q ≡ false
  pub edges :
      (n p m q : String)
      → w.edges n p m q
        ≡ (v.edges n p m q || (a == n && (outport == p && (b == m && contains q inports))))
  pub elements : (n : String) → w.elements n ≡ v.elements n

-- What a change does to the view.
abbrev pub IsStep : Change → View → View → Type 0
IsStep (connecting a b out1 in2) v w = Connects a b out1 in2 v w
IsStep (deleting a) v w =
    ((n p m q : String) → w.edges n p m q ≡ (v.edges n p m q && (not (a == n) && not (a == m))))
    × ((n : String) → w.elements n ≡ (if a == n then none else v.elements n))
IsStep (threading a t) v w =
    ((n p m q : String) → w.edges n p m q ≡ v.edges n p m q)
    × ((n : String) → w.elements n ≡ v.elements n)

-- A chain of steps.
pub data Steps : List Change → View → View → Type 0 where
  done : {v : View} → Steps [] v v
  step :
      {c : Change} {l : List Change} {u v w : View} → IsStep c u v → Steps l v w → Steps (c ∷ l) u w

choose_outport-IsOutport :
    (e : Element) (o : Option String) (port : String)
    → choose_outport e o ≡ ok port
    → IsOutport e o port
unfolding choose_outport port_names
choose_outport-IsOutport e (some p) port h =
    elim (Bool-cases (contains p (port_names e.outports))) [
      | inl q ↦ (sym (ok-injective (rw (q, choose_outport) at h)), q)
      | inr q ↦ absurd (ground (arith, rw (q, choose_outport) at h))
    ]
choose_outport-IsOutport e none port h = only e.outports h
  where
    only :
        (l : List Port)
        → ◌≡◌ {A = Result GraphError String}
            (elim l [
              | [] ↦ err assertion
              | p ∷ k ↦ elim k [ [] ↦ ok p.name | _ ∷ _ ↦ err assertion ]
            ])
            (ok port)
        → port_names l ≡ port ∷ []
    only [] h = cc
    only (p ∷ []) h = ap (λ n. n ∷ []) (ok-injective h)
    only (p ∷ x ∷ k) h = cc

choose_inport-IsInports :
    (e : Element) (o : Option String) (r : InPort)
    → choose_inport e o ≡ ok r
    → IsInports e o (in_names r)
unfolding choose_inport all_inports port_names
choose_inport-IsInports e (some p) r h = elim (Bool-cases (contains p (port_names e.inports))) [
  | inl q ↦ (ap in_names (sym (ok-injective (rw (q, choose_inport) at h))), q)
  | inr q ↦ absurd (ground (arith, rw (q, choose_inport) at h))
]
choose_inport-IsInports e none r h = ap in_names (sym (ok-injective h)) ∙ all_names e.inports
  where
    all_names : (l : List Port) → in_names (all_inports l) ≡ port_names l
    all_names [] = refl
    all_names (p ∷ []) = refl
    all_names (p ∷ x ∷ l) = refl

connect-IsStep :
    (g h : Graph) (a b : String) (out1 in2 : Option String)
    → IsLinked g
    → connect g a b out1 in2 false ≡ ok h
    → Connects a b out1 in2 (view g) (view h)
connect-IsStep g h a b out1 in2 w e =
    let (i1, i2, port, r, i1', i2', found1, found2, out, into, x, found, same) =
      connect-cases g h a b out1 in2 false e in
    let (free, z) = connect_output_port-cases i1 i1' port i2.name r false x in
    let j = connect_input_ports i2' (in_names r) i1.name port in
    let d = put g.instances a i1' in
    let was_free = some_out_free g.instances a i1 port found1 free in
    record {
      sender = i1.element;
      receiver = i2.element;
      outport = port;
      inports = in_names r;
      sends = element_at-some g.instances a i1 found1;
      receives = element_at-some g.instances b i2 found2;
      from_port = choose_outport-IsOutport i1.element out1 port out;
      to_ports = choose_inport-IsInports i2.element in2 r into;
      was_free = λ m q.
          was_free a port m q
            (ground (arith, String_equality.same_iff a a, String_equality.same_iff port port));
      edges = λ n p m q. ground (
        arith,
        ap (λ (h : Graph). out_edge h n p m q) same,
        some_out-put_same d b i2' j found
            (output2ele-connect_input_ports i2' (in_names r) i1.name port) n p m q,
        some_out-put_output g.instances a i1 i1' found1 port i2.name r
            (ap (λ (y : Node). y.output2ele) (sym z)) n p m q,
        ap (λ x. x == m) (w.named b i2 found2),
        was_free n p m q,
      );
      elements = λ n.
          ap (λ (h : Graph). element_at h.instances n) (sym same)
          ∙ element_at-put d b n i2' j found
              (element-connect_input_ports i2' (in_names r) i1.name port)
          ∙ element_at-put g.instances a n i1 i1' found1 (ap (λ (y : Node). y.element) (sym z));
    }

set_thread-IsLinked :
    (g h : Graph) (a : String) (t : Option String)
    → IsLinked g
    → set_thread g a t ≡ ok h
    → IsLinked h × IsStep (threading a t) (view g) (view h)
unfolding set_thread
set_thread-IsLinked g h a t w e =
    let (i, x, e1) = ok-of_bind (lookup g.instances a) _ e in
    let found = lookup-eq-ok g.instances a i x in
    let j : Node = record i { thread = t } in
    let out = some_out-put_same g.instances a i j found refl in
    let into = some_in-put_same g.instances a i j found refl in
    let same = ok-injective e1 in
    (
      subst IsLinked same (record {
        named = named-put g.instances a i j found refl w.named;
        agree = λ n p m q. out n p m q ∙ w.agree n p m q ∙ sym (into n p m q);
      }),
      (
        (λ n p m q. ap (λ (h : Graph). out_edge h n p m q) (sym same) ∙ out n p m q),
        λ n.
            ap (λ (h : Graph). element_at h.instances n) (sym same)
            ∙ element_at-put g.instances a n i j found refl,
      ),
    )

change-IsStep :
    (g h : Graph) (c : Change)
    → IsLinked g
    → change g c ≡ ok h
    → IsLinked h × IsStep c (view g) (view h)
unfolding change
change-IsStep g h (connecting a b out1 in2) w e =
    (connect-IsLinked g h a b out1 in2 w e, connect-IsStep g h a b out1 in2 w e)
change-IsStep g h (deleting a) w e =
    let (linked, _, edges) = delete_instance-IsLinked g h a w e in
    (linked, (edges, λ n. element_at-delete_instance g h a n e))
change-IsStep g h (threading a t) w e = set_thread-IsLinked g h a t w e

-- If the graph is well linked and a run of `connect` without `overwrite`, `delete_instance` and
-- `set_thread` returns, the graph is still well linked, and its view, the set of connections and the
-- element of each instance, comes from the first by the steps that the changes are on views: a request
-- to connect adds the connections from the output port that it means, the named or the only one, which
-- was free, to the input ports that it means, the named one or all; a deleted instance leaves with its
-- connections; a thread changes nothing.
pub change_all-Steps :
    (g h : Graph) (l : List Change)
    → IsLinked g
    → change_all g l ≡ ok h
    → IsLinked h × Steps l (view g) (view h)
unfolding change_all
change_all-Steps g h [] w e =
    let same = ok-injective e in
    (subst IsLinked same w, subst (λ (h : Graph). Steps [] (view g) (view h)) same done)
change_all-Steps g h (c ∷ l) w e =
    let (k, a, b) = ok-of_bind (change g c) _ e in
    let (linked, s) = change-IsStep g k c w a in
    let (last, rest) = change_all-Steps k h l linked b in (last, step s rest)
