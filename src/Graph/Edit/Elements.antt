-- ===== src/Graph/Edit/Elements.antt =====
-- `connect` and `delete_instance` of floem/graph.py leave the elements of the instances.
use floem.Prelude.{
  String, ◌≡◌, refl, sym, subst, ap, ◌∙◌, Bool, true, false, Option, none, some, List, [], ◌∷◌,
  ◌==◌, arith, String_equality, if◌then◌else◌, ok, ok-of_bind, ok-injective, Dict, get, put,
  get-put, remove, get-remove, values, Bool-cases, inl, inr,
}
use floem.Graph.{Element, InPort, single, several, Node, Graph, lookup}
use floem.Graph.Connect.{connect_input_port, connect_input_ports}
use floem.Graph.Connect.Linked.{lookup-eq-ok}
use floem.Graph.Edit.{drop_output, drop_outputs, drop_noted, drop_inputs, delete_instance}

abbrev element_of : Option Node → Option Element
element_of none = none
element_of (some i) = some i.element

unfoldable pub element_at : Dict Node → String → Option Element
element_at d n = element_of (get d n)

pub element_at-some :
    (d : Dict Node) (n : String) (i : Node) → get d n ≡ some i → element_at d n ≡ some i.element
unfolding element_at
element_at-some d n i e = ap element_of e

pub element_at-put :
    (d : Dict Node) (k n : String) (i j : Node)
    → get d k ≡ some i
    → j.element ≡ i.element
    → element_at (put d k j) n ≡ element_at d n
unfolding element_at
element_at-put d k n i j found same = elim (Bool-cases (k == n)) [
  | inl e ↦
      let there : get d n ≡ some i =
        subst (λ m. get d m ≡ some i) ((String_equality.same_iff k n).0 e) found in
      let now : get (put d k j) n ≡ some j =
        get-put d k n j ∙ ap (λ b. if b then some j else get d n) e in
      ap element_of now ∙ ap some same ∙ sym (ap element_of there)
  | inr e ↦ ap element_of (get-put d k n j ∙ ap (λ b. if b then some j else get d n) e)
]

pub element-connect_input_ports :
    (i : Node) (l : List String) (f port : String)
    → (connect_input_ports i l f port).element ≡ i.element
unfolding connect_input_ports connect_input_port
element-connect_input_ports i [] f port = refl
element-connect_input_ports i (p ∷ l) f port =
    element-connect_input_ports (connect_input_port i p f port) l f port

element_at-drop_output :
    (d e : Dict Node) (name n : String) (l : List (String × String))
    → drop_output d name l ≡ ok e
    → element_at e n ≡ element_at d n
unfolding drop_output
element_at-drop_output d e name n [] h = ap (λ x. element_at x n) (sym (ok-injective h))
element_at-drop_output d e name n ((next, port) ∷ l) h =
    let (other, a, h1) = ok-of_bind (lookup d next) _ h in
    let ((this, r), b, h2) = ok-of_bind (lookup other.output2ele port) _ h1 in
    let new : Node = record other { output2ele = remove other.output2ele port } in
    elim (Bool-cases (this == name)) [
      | inl t ↦
          element_at-drop_output (put d next new) e name n l (rw t at h2)
          ∙ element_at-put d next n other new (lookup-eq-ok d next other a) refl
      | inr t ↦ element_at-drop_output d e name n l (rw t at h2)
    ]

element_at-drop_outputs :
    (d e : Dict Node) (name n : String) (l : List (List (String × String)))
    → drop_outputs d name l ≡ ok e
    → element_at e n ≡ element_at d n
unfolding drop_outputs
element_at-drop_outputs d e name n [] h = ap (λ x. element_at x n) (sym (ok-injective h))
element_at-drop_outputs d e name n (l ∷ k) h =
    let (f, a, b) = ok-of_bind (drop_output d name l) _ h in
    element_at-drop_outputs f e name n k b ∙ element_at-drop_output d f name n l a

element-drop_noted :
    (other new : Node) (name port : String) (r : InPort)
    → drop_noted other name port r ≡ ok new
    → new.element ≡ other.element
unfolding drop_noted
element-drop_noted other new name port (several l) h = absurd (ground (arith, h))
element-drop_noted other new name port (single r) h =
    let (l, a, b) = ok-of_bind (lookup other.input2ele r) _ h in
    ap (λ (i : Node). i.element) (sym (ok-injective b))

element_at-drop_inputs :
    (d e : Dict Node) (name n : String) (o : Dict (String × InPort))
    → drop_inputs d name o ≡ ok e
    → element_at e n ≡ element_at d n
unfolding drop_inputs
element_at-drop_inputs d e name n [] h = ap (λ x. element_at x n) (sym (ok-injective h))
element_at-drop_inputs d e name n ((port, (next, r)) ∷ o) h =
    let (other, a, h1) = ok-of_bind (lookup d next) _ h in
    let (new, b, h2) = ok-of_bind (drop_noted other name port r) _ h1 in
    element_at-drop_inputs (put d next new) e name n o h2
    ∙ element_at-put d next n other new (lookup-eq-ok d next other a)
        (element-drop_noted other new name port r b)

pub element_at-delete_instance :
    (g h : Graph) (name n : String)
    → delete_instance g name ≡ ok h
    → element_at h.instances n ≡ (if name == n then none else element_at g.instances n)
unfolding delete_instance element_at
element_at-delete_instance g h name n r =
    let (i, a, r1) = ok-of_bind (lookup g.instances name) _ r in
    let (d, b, r2) =
      ok-of_bind (drop_outputs (remove g.instances name) name (values i.input2ele)) _ r1 in
    let (e, c, r3) = ok-of_bind (drop_inputs d name i.output2ele) _ r2 in
    ap (λ (h : Graph). element_at h.instances n) (sym (ok-injective r3))
    ∙ element_at-drop_inputs d e name n i.output2ele c
    ∙ element_at-drop_outputs (remove g.instances name) d name n (values i.input2ele) b
    ∙ gone (get g.instances n) (name == n) (get-remove g.instances name n)
  where
    gone :
        {o : Option Node} (p : Option Node) (b : Bool)
        → o ≡ (if b then none else p)
        → element_of o ≡ (if b then none else element_of p)
    gone p true h = ap element_of h
    gone p false h = ap element_of h
