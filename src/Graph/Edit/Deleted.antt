-- ===== src/Graph/Edit/Deleted.antt =====
-- `delete_instance` removes the connections of the instance, at both ends.
use floem.Prelude.{
  String, ◌≡◌, ◌∙◌, refl, ap, sym, subst, inl, inr, Bool, true, false, not, ◌&&◌, ◌||◌, none, some,
  List, [], ◌∷◌, ◌==◌, arith, String_equality, ×_equality, Dict, get, put, remove, get-put,
  get-remove, contains, contains-filter, Bool-cases, ok, ok-injective, ok-of_bind, values, length,
  ltb, filter,
}
use floem.Graph.{InPort, single, several, Node, Graph, lookup}
use floem.Graph.Connect.{in_names}
use floem.Graph.Connect.Edges.{leads, comes, some_out, some_in, out_edge, in_edge}
use floem.Graph.Connect.Linked.{IsLinked, named-put, lookup-eq-ok}
use floem.Graph.Edit.{drop_output, drop_outputs, drop_noted, drop_inputs, delete_instance}

abbrev Named : Dict Node → Type 0
Named d = (k : String) (i : Node) → get d k ≡ some i → i.name ≡ k

-- What the first loop leaves of a connection.
abbrev is_noted : List (List (String × String)) → String → String → Bool
is_noted [] n p = false
is_noted (l ∷ k) n p = contains (n, p) l || is_noted k n p

drop_output-lem :
    (d e : Dict Node) (name : String) (l : List (String × String))
    → drop_output d name l ≡ ok e
    → (n p m q : String)
    → (some_out (get e n) p m q
        ≡ (some_out (get d n) p m q && not (name == m && contains (n, p) l)))
      × (some_in (get e m) q n p ≡ some_in (get d m) q n p)
unfolding drop_output
drop_output-lem d e name [] h n p m q = (
  ground (arith, ap (λ x. some_out (get x n) p m q) (ok-injective h)),
  ap (λ x. some_in (get x m) q n p) (sym (ok-injective h)),
)
drop_output-lem d e name ((next, port) ∷ l) h n p m q =
    let (other, a, h1) = ok-of_bind (lookup d next) _ h in
    let ((this, r), b, h2) = ok-of_bind (lookup other.output2ele port) _ h1 in
    let found = lookup-eq-ok d next other a in
    let leading = lookup-eq-ok other.output2ele port (this, r) b in
    let new : Node = record other { output2ele = remove other.output2ele port } in
    elim (Bool-cases (this == name)) [
      | inl t ↦
          let (x, y) = drop_output-lem (put d next new) e name l (rw t at h2) n p m q in
          (
            ground (
              arith,
              x,
              found,
              leading,
              t,
              get-put d next n new,
              String_equality.same_iff next n,
              λ (s : next ≡ n). ap (get d) s,
              get-remove other.output2ele port p,
              String_equality.same_iff port p,
              λ (s : port ≡ p). ap (get other.output2ele) s,
              String_equality.same_iff this name,
              λ (s : this ≡ name). ap (λ z. z == m) s,
            ),
            ground (
              arith,
              y,
              found,
              get-put d next m new,
              String_equality.same_iff next m,
              λ (s : next ≡ m). ap (get d) s,
            ),
          )
      | inr t ↦
          let (x, y) = drop_output-lem d e name l (rw t at h2) n p m q in
          (
            ground (
              arith,
              x,
              found,
              leading,
              t,
              String_equality.same_iff next n,
              λ (s : next ≡ n). ap (get d) s,
              String_equality.same_iff port p,
              λ (s : port ≡ p). ap (get other.output2ele) s,
              String_equality.same_iff this m,
              String_equality.same_iff name m,
              String_equality.same_iff this name,
              λ (s : this ≡ m). λ (z : name ≡ m). s ∙ sym z,
            ),
            y,
          )
    ]

drop_outputs-lem :
    (d e : Dict Node) (name : String) (l : List (List (String × String)))
    → drop_outputs d name l ≡ ok e
    → (n p m q : String)
    → (some_out (get e n) p m q ≡ (some_out (get d n) p m q && not (name == m && is_noted l n p)))
      × (some_in (get e m) q n p ≡ some_in (get d m) q n p)
unfolding drop_outputs
drop_outputs-lem d e name [] h n p m q = (
  ground (arith, ap (λ x. some_out (get x n) p m q) (ok-injective h)),
  ap (λ x. some_in (get x m) q n p) (sym (ok-injective h)),
)
drop_outputs-lem d e name (l ∷ k) h n p m q =
    let (f, a, b) = ok-of_bind (drop_output d name l) _ h in
    let (x, y) = drop_output-lem d f name l a n p m q in
    let (z, w) = drop_outputs-lem f e name k b n p m q in (ground (arith, x, z), w ∙ y)

-- An output port among those listed leads to the input port.
abbrev is_led : Dict (String × InPort) → String → String → String → Bool
is_led [] p m q = false
is_led ((port, v) ∷ o) p m q = (port == p && leads (some v) m q) || is_led o p m q

is_led-get :
    (o : Dict (String × InPort)) (p m q : String)
    → leads (get o p) m q ≡ true
    → is_led o p m q ≡ true
unfolding get
is_led-get [] p m q h = absurd (ground (arith, h))
is_led-get ((port, v) ∷ o) p m q h = elim (Bool-cases (port == p)) [
  | inl e ↦ ground (arith, e, rw (e, get) at h)
  | inr e ↦ ground (arith, is_led-get o p m q (rw (e, get) at h))
]

drop_noted-lem :
    (other new : Node) (name port : String) (r : InPort)
    → drop_noted other name port r ≡ ok new
    → (new.name ≡ other.name)
      × (new.output2ele ≡ other.output2ele)
      × ((q n p : String)
          → comes (get new.input2ele q) n p ≡ (
              comes (get other.input2ele q) n p
              && not (contains q (in_names r) && (name == n && port == p))))
unfolding drop_noted
drop_noted-lem other new name port (several l) h = absurd (ground (arith, h))
drop_noted-lem other new name port (single r) h =
    let (l, a, b) = ok-of_bind (lookup other.input2ele r) _ h in
    let found = lookup-eq-ok other.input2ele r l a in
    let k = filter (λ x. not (x.0 == name && x.1 == port)) l in
    let same = ok-injective b in
    (
      ap (λ (i : Node). i.name) (sym same),
      ap (λ (i : Node). i.output2ele) (sym same),
      λ q n p. ground (
        arith,
        found,
        ap (λ (i : Node). comes (get i.input2ele q) n p) same,
        get-put other.input2ele r q k,
        get-remove other.input2ele r q,
        String_equality.same_iff r q,
        λ (s : r ≡ q). ap (get other.input2ele) s,
        contains-filter (n, p) (λ x. not (x.0 == name && x.1 == port)) l,
        nothing k,
        String_equality.same_iff n name,
        String_equality.same_iff name n,
        String_equality.same_iff p port,
        String_equality.same_iff port p,
      ),
    )
  where
    nothing : (k : List (String × String)) → ltb 0 (length k) ≡ false → k ≡ []
    nothing [] h = refl
    nothing (x ∷ k) h = absurd (ground (arith, h))

drop_inputs-lem :
    (d e : Dict Node) (name : String) (o : Dict (String × InPort))
    → drop_inputs d name o ≡ ok e
    → (n p m q : String)
    → (some_out (get e n) p m q ≡ some_out (get d n) p m q)
      × (some_in (get e m) q n p ≡ (some_in (get d m) q n p && not (name == n && is_led o p m q)))
unfolding drop_inputs
drop_inputs-lem d e name [] h n p m q = (
  ap (λ x. some_out (get x n) p m q) (sym (ok-injective h)),
  ground (arith, ap (λ x. some_in (get x m) q n p) (ok-injective h)),
)
drop_inputs-lem d e name ((port, (next, r)) ∷ o) h n p m q =
    let (other, a, h1) = ok-of_bind (lookup d next) _ h in
    let (new, b, h2) = ok-of_bind (drop_noted other name port r) _ h1 in
    let found = lookup-eq-ok d next other a in
    let (_, outs, ins) = drop_noted-lem other new name port r b in
    let (x, y) = drop_inputs-lem (put d next new) e name o h2 n p m q in
    (
      ground (
        arith,
        x,
        found,
        get-put d next n new,
        String_equality.same_iff next n,
        λ (s : next ≡ n). ap (get d) s,
        ap (λ o. leads (get o p) m q) outs,
      ),
      ground (
        arith,
        y,
        found,
        get-put d next m new,
        String_equality.same_iff next m,
        λ (s : next ≡ m). ap (get d) s,
        ins q n p,
      ),
    )

is_noted-get :
    (d : Dict (List (String × String))) (q n p : String)
    → comes (get d q) n p ≡ true
    → is_noted (values d) n p ≡ true
unfolding get values
is_noted-get [] q n p h = absurd (ground (arith, h))
is_noted-get ((port, l) ∷ d) q n p h = elim (Bool-cases (port == q)) [
  | inl e ↦ ground (arith, rw (e, get) at h)
  | inr e ↦ ground (arith, is_noted-get d q n p (rw (e, get) at h))
]

-- Both loops leave each instance under its name, and store no name anew.
abbrev Keeps : String → Dict Node → Dict Node → Type 0
Keeps name d e = (Named d → Named e) × (get d name ≡ none → get e name ≡ none)

put-Keeps :
    (d : Dict Node) (name k : String) (i j : Node)
    → get d k ≡ some i
    → j.name ≡ i.name
    → Keeps name d (put d k j)
put-Keeps d name k i j found same = (
  λ w. named-put d k i j found same w,
  λ h. ground (
    arith,
    found,
    get-put d k name j,
    String_equality.same_iff k name,
    λ (s : k ≡ name). ap (get d) s,
  ),
)

drop_output-Keeps :
    (d e : Dict Node) (name : String) (l : List (String × String))
    → drop_output d name l ≡ ok e
    → Keeps name d e
unfolding drop_output
drop_output-Keeps d e name [] h = subst (Keeps name d) (ok-injective h) (λ w. w, λ w. w)
drop_output-Keeps d e name ((next, port) ∷ l) h =
    let (other, a, h1) = ok-of_bind (lookup d next) _ h in
    let ((this, r), b, h2) = ok-of_bind (lookup other.output2ele port) _ h1 in
    let new : Node = record other { output2ele = remove other.output2ele port } in
    elim (Bool-cases (this == name)) [
      | inl t ↦
          let x = put-Keeps d name next other new (lookup-eq-ok d next other a) refl in
          let y = drop_output-Keeps (put d next new) e name l (rw t at h2) in
          (λ w. y.0 (x.0 w), λ w. y.1 (x.1 w))
      | inr t ↦ drop_output-Keeps d e name l (rw t at h2)
    ]

drop_outputs-Keeps :
    (d e : Dict Node) (name : String) (l : List (List (String × String)))
    → drop_outputs d name l ≡ ok e
    → Keeps name d e
unfolding drop_outputs
drop_outputs-Keeps d e name [] h = subst (Keeps name d) (ok-injective h) (λ w. w, λ w. w)
drop_outputs-Keeps d e name (l ∷ k) h =
    let (f, a, b) = ok-of_bind (drop_output d name l) _ h in
    let x = drop_output-Keeps d f name l a in
    let y = drop_outputs-Keeps f e name k b in (λ w. y.0 (x.0 w), λ w. y.1 (x.1 w))

drop_inputs-Keeps :
    (d e : Dict Node) (name : String) (o : Dict (String × InPort))
    → drop_inputs d name o ≡ ok e
    → Keeps name d e
unfolding drop_inputs
drop_inputs-Keeps d e name [] h = subst (Keeps name d) (ok-injective h) (λ w. w, λ w. w)
drop_inputs-Keeps d e name ((port, (next, r)) ∷ o) h =
    let (other, a, h1) = ok-of_bind (lookup d next) _ h in
    let (new, b, h2) = ok-of_bind (drop_noted other name port r) _ h1 in
    let x =
      put-Keeps d name next other new (lookup-eq-ok d next other a)
        (drop_noted-lem other new name port r b).0 in
    let y = drop_inputs-Keeps (put d next new) e name o h2 in (λ w. y.0 (x.0 w), λ w. y.1 (x.1 w))

-- If the graph is well linked and `delete_instance` returns, the graph is still well linked, the
-- instance is gone, and the connections are those that neither leave nor enter the instance.
pub delete_instance-IsLinked :
    (g h : Graph) (name : String)
    → IsLinked g
    → delete_instance g name ≡ ok h
    → IsLinked h
      × (get h.instances name ≡ none)
      × ((n p m q : String)
          → out_edge h n p m q ≡ (out_edge g n p m q && (not (name == n) && not (name == m))))
unfolding delete_instance
delete_instance-IsLinked g h name w r =
    let (i, a, r1) = ok-of_bind (lookup g.instances name) _ r in
    let (d, b, r2) =
      ok-of_bind (drop_outputs (remove g.instances name) name (values i.input2ele)) _ r1 in
    let (e, c, r3) = ok-of_bind (drop_inputs d name i.output2ele) _ r2 in
    let found = lookup-eq-ok g.instances name i a in
    let same = ok-injective r3 in
    let removed = λ (k : String). get-remove g.instances name k in
    let x = drop_outputs-Keeps (remove g.instances name) d name (values i.input2ele) b in
    let y = drop_inputs-Keeps d e name i.output2ele c in
    let edges : (n p m q : String)
        → (some_out (get e n) p m q ≡ (out_edge g n p m q && (not (name == n) && not (name == m))))
          × (some_in (get e m) q n p
              ≡ (in_edge g n p m q && (not (name == n) && not (name == m)))) =
      λ n p m q.
        let u = drop_outputs-lem (remove g.instances name) d name (values i.input2ele) b n p m q in
        let v = drop_inputs-lem d e name i.output2ele c n p m q in
        let out : some_out (get e n) p m q
            ≡ (out_edge g n p m q && (not (name == n) && not (name == m))) =
          ground (
            arith,
            u.0,
            v.0,
            removed n,
            found,
            String_equality.same_iff name m,
            λ (s : name ≡ m). ap (get g.instances) s,
            w.agree n p m q,
            is_noted-get i.input2ele q n p,
          ) in
        let into : some_in (get e m) q n p
            ≡ (in_edge g n p m q && (not (name == n) && not (name == m))) =
          ground (
            arith,
            u.1,
            v.1,
            removed m,
            found,
            String_equality.same_iff name n,
            λ (s : name ≡ n). ap (get g.instances) s,
            w.agree n p m q,
            is_led-get i.output2ele p m q,
          ) in
        (out, into) in
    (
      subst IsLinked same (record {
        named = y.0 (x.0 (λ k j f. w.named k j (ground (arith, f, removed k))));
        agree = λ n p m q. ground (arith, (edges n p m q).0, (edges n p m q).1, w.agree n p m q);
      }),
      ap (λ (h : Graph). get h.instances name) (sym same)
          ∙ y.1 (x.1 (ground (arith, removed name, String_equality.same_iff name name))),
      λ n p m q. ap (λ (h : Graph). out_edge h n p m q) (sym same) ∙ (edges n p m q).0,
    )
