-- ===== src/Threads/Returned.antt =====
-- What `dfs_collect_return` finds is an output port that leads nowhere.
use floem.Prelude.{
  ℕ, zero, suc, String, ◌≡◌, refl, sym, ap, subst, ◌∙◌, inl, inr, true, none, some, List, [], ◌∷◌,
  ◌++◌, arith, All, ltb, length, String_equality, Result, ok, ok-of_bind, ok-injective, get,
  contains, Bool-cases, Option-cases,
}
use floem.Graph.{GraphError, Node, Graph, Port}
use floem.Graph.Walk.{depth, on_thread}
use floem.Threads.{
  Return, no_return, join_return, return_of_port, return_of_ports, collect_return,
  dfs_collect_return,
}

pub data Among (p : Port) : List Port → Type 0 where
  first : {l : List Port} → Among p (p ∷ l)
  later : {q : Port} {l : List Port} → Among p l → Among p (q ∷ l)

ports_of_longer :
    (q : Port) (k l : List Port) → All (λ p. Among p l) k → All (λ p. Among p (q ∷ l)) k
ports_of_longer q [] l h = tt
ports_of_longer q (p ∷ k) l h = (later h.0, ports_of_longer q k l h.1)

every_port_there : (l : List Port) → All (λ p. Among p l) l
every_port_there [] = tt
every_port_there (p ∷ l) = (first, ports_of_longer p l l (every_port_there l))

-- Instance `n` of the thread has an output port `q` that carries `types` and leads nowhere.
pub record IsOpen (g : Graph) (thread n q : String) (types : List String) : Type 0 where
  pub node : Node
  pub port : Port
  pub found : get g.instances n ≡ some node
  pub runs : on_thread (some thread) node ≡ true
  pub among : Among port node.element.outports
  pub name : port.name ≡ q
  pub leads_nowhere : get node.output2ele q ≡ none
  pub carries : port.argtypes ≡ types

-- Nothing is returned; or the last of the types are those of an open port, which is named.
pub data Gives (g : Graph) (thread : String) (r : Return) : Type 0 where
  nothing : r ≡ no_return → Gives g thread r
  through :
      (before types : List String) (n q : String)
      → r ≡ record { types = before ++ types; instance_name = some n; port = some q }
      → ltb 0 (length types) ≡ true
      → IsOpen g thread n q types
      → Gives g thread r

module _ (g : Graph) (thread : String) where
  append_nil : (l : List String) → l ++ [] ≡ l
  append_nil [] = refl
  append_nil (x ∷ l) = ap (λ k. x ∷ k) (append_nil l)

  join_return-nothing : (r : Return) → join_return r no_return ≡ ok r
  unfolding join_return
  join_return-nothing r = ap (λ l. ok (record r { types = l })) (append_nil r.types)

  join_return-Gives :
      (r s t : Return)
      → Gives g thread r
      → Gives g thread s
      → join_return r s ≡ ok t
      → Gives g thread t
  unfolding join_return
  join_return-Gives r s t a (nothing e) h =
      subst (Gives g thread) (ok-injective (sym (join_return-nothing r) ∙ rw e at h)) a
  join_return-Gives r s t (nothing d) (through before types n q e more free) h =
      through before types n q (sym (ok-injective (rw (d, e) at h))) more free
  join_return-Gives r s t (through b u m p d w o) (through before types n q e more free) h =
      absurd (ground (arith, rw (d, e) at h))

  module _ (call : String → List String → Result GraphError (Return × List String))
      (calls : (n : String) (v w : List String) (r : Return)
        → call n v ≡ ok (r, w)
        → Gives g thread r)
      (name : String) (i : Node) (found : get g.instances name ≡ some i)
      (runs : on_thread (some thread) i ≡ true) where
    return_of_port-Gives :
        (p : Port) (r s : Return) (v w : List String)
        → Among p i.element.outports
        → Gives g thread r
        → return_of_port call name i p r v ≡ ok (s, w)
        → Gives g thread s
    unfolding return_of_port
    return_of_port-Gives p r s v w m a h = elim (Option-cases (get i.output2ele p.name)) [
      | inr (next, e) ↦
          let ((t, u), c, k) = ok-of_bind (call next.0 v) _ (rw (e, return_of_port) at h) in
          let (x, d, k) = ok-of_bind (join_return r t) _ k in
          subst (Gives g thread) (ap (λ x. x.0) (ok-injective k))
            (join_return-Gives r t x a (calls next.0 v u t c) d)
      | inl e ↦ elim (Bool-cases (ltb 0 (length p.argtypes))) [
        | inl l ↦
            through r.types p.argtypes name p.name
              (ap (λ x. x.0) (sym (ok-injective (rw (e, l, return_of_port) at h)))) l
              (record {
                node = i;
                port = p;
                found = found;
                runs = runs;
                among = m;
                name = refl;
                leads_nowhere = e;
                carries = refl;
              })
        | inr l ↦
            subst (Gives g thread) (ap (λ x. x.0) (ok-injective (rw (e, l, return_of_port) at h))) a
      ]
    ]

    return_of_ports-Gives :
        (l : List Port) (r s : Return) (v w : List String)
        → All (λ p. Among p i.element.outports) l
        → Gives g thread r
        → return_of_ports call name i l r v ≡ ok (s, w)
        → Gives g thread s
    unfolding return_of_ports
    return_of_ports-Gives [] r s v w m a h =
        subst (Gives g thread) (ap (λ x. x.0) (ok-injective h)) a
    return_of_ports-Gives (p ∷ l) r s v w m a h =
        let ((t, u), c, k) = ok-of_bind (return_of_port call name i p r v) _ h in
        return_of_ports-Gives l t s u w m.1 (return_of_port-Gives p r t v u m.0 a c) k

  collect_return-Gives :
      (fuel : ℕ) (n : String) (v w : List String) (r : Return)
      → collect_return fuel g thread n v ≡ ok (r, w)
      → Gives g thread r
  unfolding collect_return
  collect_return-Gives zero n v w r h = absurd (ground (arith, h))
  collect_return-Gives (suc fuel) n v w r h = elim (Option-cases (get g.instances n)) [
    | inl e ↦ absurd (ground (arith, rw (e, collect_return) at h))
    | inr (i, e) ↦ elim (Bool-cases (contains n v)) [
      | inl m ↦ nothing (ap (λ x. x.0) (sym (ok-injective (rw (e, m, collect_return) at h))))
      | inr m ↦ elim (Bool-cases (on_thread (some thread) i)) [
        | inl t ↦
            return_of_ports-Gives (collect_return fuel g thread)
              (λ n v w r. collect_return-Gives fuel n v w r) n i e t i.element.outports no_return r
              (v ++ n ∷ []) w (every_port_there i.element.outports) (nothing refl)
              (rw (e, m, t, collect_return) at h)
        | inr t ↦ nothing (ap (λ x. x.0) (sym (ok-injective (rw (e, m, t, collect_return) at h))))
      ]
    ]
  ]

-- If `dfs_collect_return` returns, it has found no type, instance or port; or the instance has the
-- port, it runs on the thread, the port leads nowhere, and the types end with those of the port, one
-- at least.
pub dfs_collect_return-Gives :
    (g : Graph) (name thread : String) (r : Return)
    → dfs_collect_return g name thread ≡ ok r
    → Gives g thread r
unfolding dfs_collect_return
dfs_collect_return-Gives g name thread r h =
    let ((s, w), c, k) = ok-of_bind (collect_return (depth g) g thread name []) _ h in
    subst (Gives g thread) (ok-injective k) (collect_return-Gives g thread (depth g) name [] w s c)
