-- ===== src/Graph/Connect/Linked.antt =====
-- `connect` keeps the two ends of each connection in step.
use floem.Prelude.{
  String, ◌≡◌, refl, ap, sym, subst, inl, inr, Bool, true, false, not, ◌&&◌, ◌||◌, Option, none,
  some, List, ◌==◌, arith, String_equality, ×_equality, if◌then◌else◌, Dict, get, put, get-put, has,
  contains, Option-cases, ok, ok-injective, ok-of_bind,
}
use floem.Graph.{InPort, Node, Graph, lookup}
use floem.Graph.Connect.{
  connect_output_port, connect_input_ports, in_names, set_instance, choose_inport, choose_outport,
  connect,
}
use floem.Graph.Connect.Edges.{
  leads, comes, node_in, some_out, some_in, out_edge, in_edge, node_in-connect_input_ports,
  output2ele-connect_input_ports, name-connect_input_ports, connect_output_port-cases,
}

pub lookup-eq-ok :
    {V : Type 0} (d : Dict V) (k : String) (v : V) → lookup d k ≡ ok v → get d k ≡ some v
lookup-eq-ok d k v h = elim (Option-cases (get d k)) [
  | inl e ↦ absurd (ground (arith, e))
  | inr (w, e) ↦ ground (arith, e)
]

-- An instance is stored under its name, and an output port leads to an input port exactly if the
-- input port notes the output port.
pub record IsLinked (g : Graph) : Type 0 where
  pub named : (k : String) (i : Node) → get g.instances k ≡ some i → i.name ≡ k
  pub agree : (n p m q : String) → out_edge g n p m q ≡ in_edge g n p m q

abbrev name_of : String → Option Node → String
name_of k none = k
name_of k (some i) = i.name

module _ (d : Dict Node) (k : String) (i j : Node) (found : get d k ≡ some i) where
  pub some_out-put_same :
      j.output2ele ≡ i.output2ele
      → (n p m q : String) → some_out (get (put d k j) n) p m q ≡ some_out (get d n) p m q
  some_out-put_same e n p m q = ground (
    arith,
    get-put d k n j,
    String_equality.same_iff k n,
    λ (s : k ≡ n). ap (get d) s,
    ap (λ o. leads (get o p) m q) e,
  )

  pub some_in-put_same :
      j.input2ele ≡ i.input2ele
      → (n p m q : String) → some_in (get (put d k j) m) q n p ≡ some_in (get d m) q n p
  some_in-put_same e n p m q = ground (
    arith,
    get-put d k m j,
    String_equality.same_iff k m,
    λ (s : k ≡ m). ap (get d) s,
    ap (λ o. comes (get o q) n p) e,
  )

  pub named-put :
      j.name ≡ i.name
      → ((k : String) (i : Node) → get d k ≡ some i → i.name ≡ k)
      → (n : String) (x : Node) → get (put d k j) n ≡ some x
      → x.name ≡ n
  named-put e named n x h = ground (
    arith,
    get-put d k n j,
    String_equality.same_iff k n,
    named k i found,
    named n x,
    ap (name_of n) h,
  )

  pub some_out-put_output :
      (port f : String) (r : InPort)
      → j.output2ele ≡ put i.output2ele port (f, r)
      → (n p m q : String)
      → some_out (get (put d k j) n) p m q ≡ (
          if k == n && port == p
          then f == m && contains q (in_names r)
          else some_out (get d n) p m q)
  some_out-put_output port f r e n p m q = ground (
    arith,
    get-put d k n j,
    String_equality.same_iff k n,
    λ (s : k ≡ n). ap (get d) s,
    ap (λ o. leads (get o p) m q) e,
    get-put i.output2ele port p (f, r),
  )

  some_in-put_inputs :
      (l : List String) (a b : String)
      → j ≡ connect_input_ports i l a b
      → (n p m q : String)
      → some_in (get (put d k j) m) q n p
        ≡ (some_in (get d m) q n p || (k == m && (contains q l && (a == n && b == p))))
  some_in-put_inputs l a b e n p m q = ground (
    arith,
    get-put d k m j,
    String_equality.same_iff k m,
    λ (s : k ≡ m). ap (get d) s,
    ap (λ (y : Node). node_in y q n p) e,
    node_in-connect_input_ports i l a b q n p,
  )

pub some_out_free :
    (d : Dict Node) (k : String) (i : Node) (port : String)
    → get d k ≡ some i
    → (not false && has i.output2ele port) ≡ false
    → (n p m q : String) → (k == n && port == p) ≡ true
    → some_out (get d n) p m q ≡ false
some_out_free d k i port found free n p m q h = ground (
  arith,
  String_equality.same_iff k n,
  String_equality.same_iff port p,
  λ (s : k ≡ n). ap (get d) s,
  λ (s : port ≡ p). ap (get i.output2ele) s,
)

-- What `connect` does, where it returns.
pub connect-cases :
    (g h : Graph) (name1 name2 : String) (out1 in2 : Option String) (overwrite : Bool)
    → connect g name1 name2 out1 in2 overwrite ≡ ok h
    → (i1 : Node) × (i2 : Node) × (port : String) × (r : InPort) × (i1' : Node) × (i2' : Node)
      × (get g.instances name1 ≡ some i1)
      × (get g.instances name2 ≡ some i2)
      × (choose_outport i1.element out1 ≡ ok port)
      × (choose_inport i2.element in2 ≡ ok r)
      × (connect_output_port i1 port i2.name r overwrite ≡ ok i1')
      × (get (put g.instances name1 i1') name2 ≡ some i2')
      × (set_instance
            (set_instance g name1 i1')
            name2
            (connect_input_ports i2' (in_names r) i1.name port)
          ≡ h)
unfolding connect
connect-cases g h name1 name2 out1 in2 overwrite e =
    let (i1, a, e) = ok-of_bind (lookup g.instances name1) _ e in
    let (i2, b, e) = ok-of_bind (lookup g.instances name2) _ e in
    let (port, c, e) = ok-of_bind (choose_outport i1.element out1) _ e in
    let (r, d, e) = ok-of_bind (choose_inport i2.element in2) _ e in
    let (i1', f, e) = ok-of_bind (connect_output_port i1 port i2.name r overwrite) _ e in
    let (i2', k, e) = ok-of_bind (lookup (put g.instances name1 i1') name2) _ e in
    (
      i1,
      i2,
      port,
      r,
      i1',
      i2',
      lookup-eq-ok g.instances name1 i1 a,
      lookup-eq-ok g.instances name2 i2 b,
      c,
      d,
      f,
      lookup-eq-ok (put g.instances name1 i1') name2 i2' k,
      ok-injective e,
    )

-- If the graph is well linked, `connect` without `overwrite` leaves it so when it returns.
pub connect-IsLinked :
    (g h : Graph) (name1 name2 : String) (out1 in2 : Option String)
    → IsLinked g
    → connect g name1 name2 out1 in2 false ≡ ok h
    → IsLinked h
connect-IsLinked g h name1 name2 out1 in2 w e =
    let (i1, i2, port, r, i1', i2', found1, found2, _, _, a, found, same) =
      connect-cases g h name1 name2 out1 in2 false e in
    let (free, b) = connect_output_port-cases i1 i1' port i2.name r false a in
    let j = connect_input_ports i2' (in_names r) i1.name port in
    let d = put g.instances name1 i1' in
    subst IsLinked same (record {
      named =
          named-put d name2 i2' j found (name-connect_input_ports i2' (in_names r) i1.name port)
            (named-put g.instances name1 i1 i1' found1 (ap (λ (y : Node). y.name) (sym b)) w.named);
      agree = λ n p m q. ground (
        arith,
        some_out-put_same d name2 i2' j found
            (output2ele-connect_input_ports i2' (in_names r) i1.name port) n p m q,
        some_out-put_output g.instances name1 i1 i1' found1 port i2.name r
            (ap (λ (y : Node). y.output2ele) (sym b)) n p m q,
        some_in-put_inputs d name2 i2' j found (in_names r) i1.name port refl n p m q,
        some_in-put_same g.instances name1 i1 i1' found1 (ap (λ (y : Node). y.input2ele) (sym b)) n
            p m q,
        w.agree n p m q,
        ap (λ x. x == n) (w.named name1 i1 found1),
        ap (λ x. x == m) (w.named name2 i2 found2),
        some_out_free g.instances name1 i1 port found1 free n p m q,
      );
    })
