-- ===== src/Joins/Ends.antt =====
-- `dfs_cover` ends on a graph without cycles.
use floem.Prelude.{
  ℕ, zero, suc, ◌<◌, String, ◌≡◌, ◌≢◌, true, not, ◌&&◌, Option, none, some, List, [], ◌∷◌, ◌==◌,
  arith, Result, ok, err, Dict, get, String_equality, bind_avoids, Bool-cases, Option-cases, inl,
  inr, length, ltb, values, map, contains,
}
use floem.Flow.{FlowError, FlowCollection, full, empty, intersection, union, happens_before}
use floem.Graph.{
  Fire, all, one, multi, zero_or_one, InPort, single, several, Node, Graph, GraphError, Port,
}
use floem.Graph.Walk.{targets}
use floem.Graph.Walk.Closed.{leads_to}
use floem.Joins.{
  JoinError, graph, Cover, no_cover, Answer, of_flow, index_from, port_index, is_join, wrap_port,
  flow_eq, cover_port, cover_ports, order_after, order_ports, port_order, dfs_cover,
}

-- Each connection leads to an instance of a lower rank.
pub record IsRanked (g : Graph) (rank : String → ℕ) : Type 0 where
  pub falls : (n m : String) → leads_to g n m ≡ true → rank m < rank n

abbrev stuck : JoinError
stuck = graph GraphError.out_of_fuel

of_flow_ends : {A : Type 0} (r : Result FlowError A) → of_flow r ≢ err stuck
unfolding of_flow
of_flow_ends (ok a) h = ground (arith, h)
of_flow_ends (err e) h = ground (arith, h)

port_index_ends : (l : List Port) (port : Option InPort) → port_index l port ≢ err stuck
unfolding port_index
port_index_ends l (some (single n)) h = elim (Option-cases (index_from 0 l n)) [
  | inl e ↦ ground (arith, rw (e, port_index) at h)
  | inr (k, e) ↦ ground (arith, rw (e, port_index) at h)
]
port_index_ends l (some (several k)) h = ground (arith, h)
port_index_ends l none h = ground (arith, h)

wrap_port_ends :
    (c : FlowCollection) (i : Node) (target : String) (n : ℕ) (port : Option InPort)
    → wrap_port c i target n port ≢ err stuck
unfolding wrap_port
wrap_port_ends c i target n port h = elim (Bool-cases (full c)) [
  | inl f ↦ ground (arith, rw (f, wrap_port) at h)
  | inr f ↦ elim (Bool-cases (is_join i)) [
    | inr j ↦ ground (arith, rw (f, j, wrap_port) at h)
    | inl j ↦
        bind_avoids (port_index i.element.inports port) _ stuck
          (port_index_ends i.element.inports port) (λ k. of_flow_ends _) (rw (f, j, wrap_port) at h)
  ]
]

cover_port_ends :
    (fire : Option Fire) (c : Cover) (out : String) (x : FlowCollection)
    → cover_port fire c out x ≢ err stuck
unfolding cover_port
cover_port_ends (some all) c out x =
    bind_avoids (of_flow (intersection c.flows x)) _ stuck (of_flow_ends _) (λ y h.
      elim (Bool-cases (not (empty y))) [
        | inl e ↦ ground (arith, rw e at h)
        | inr e ↦
            bind_avoids (of_flow (union c.flows x)) _ stuck (of_flow_ends _) (λ u q. cc) (rw e at h)
      ])
cover_port_ends (some one) c out x = λ h.
    elim (Bool-cases (ltb 0 (length c.by_port) && not (flow_eq c.flows x))) [
      | inl e ↦ ground (arith, rw (e, cover_port) at h)
      | inr e ↦ ground (arith, rw (e, cover_port) at h)
    ]
cover_port_ends (some multi) c out x = λ h. elim (Bool-cases (not (empty x))) [
  | inl e ↦ ground (arith, rw (e, cover_port) at h)
  | inr e ↦ ground (arith, rw (e, cover_port) at h)
]
cover_port_ends (some zero_or_one) c out x = λ h.
    elim (Bool-cases (not (full x) && not (empty x))) [
      | inl e ↦ ground (arith, rw (e, cover_port) at h)
      | inr e ↦ ground (arith, rw (e, cover_port) at h)
    ]
cover_port_ends none c out x = λ h. elim (Bool-cases (not (full x) && not (empty x))) [
  | inl e ↦ ground (arith, rw (e, cover_port) at h)
  | inr e ↦ ground (arith, rw (e, cover_port) at h)
]

order_after_ends :
    (out : String) (c : FlowCollection) (l : Dict FlowCollection) → order_after out c l ≢ err stuck
unfolding order_after
order_after_ends out c [] = λ h. ground (arith, h)
order_after_ends out c ((out2, c2) ∷ l) =
    bind_avoids (of_flow (happens_before c c2)) _ stuck (of_flow_ends _)
      (λ b. bind_avoids (order_after out c l) _ stuck (order_after_ends out c l) (λ r q. cc))

order_ports_ends : (l d : Dict FlowCollection) → order_ports l d ≢ err stuck
unfolding order_ports
order_ports_ends [] d = λ h. ground (arith, h)
order_ports_ends ((out1, c1) ∷ l) d =
    bind_avoids (order_after out1 c1 d) _ stuck (order_after_ends out1 c1 d)
      (λ a. bind_avoids (order_ports l d) _ stuck (order_ports_ends l d) (λ r q. cc))

port_order_ends : (fire : Option Fire) (d : Dict FlowCollection) → port_order fire d ≢ err stuck
unfolding port_order
port_order_ends (some all) d = order_ports_ends d d
port_order_ends (some one) d = λ h. ground (arith, h)
port_order_ends (some multi) d = λ h. ground (arith, h)
port_order_ends (some zero_or_one) d = λ h. ground (arith, h)
port_order_ends none d = λ h. ground (arith, h)

cover_ports_ends :
    (call : String → Option InPort → Answer → Result JoinError (FlowCollection × Answer))
    (fire : Option Fire) (l : Dict (String × InPort)) (c : Cover) (s : Answer)
    → ((m : String) (p : Option InPort) (s : Answer)
        → contains m (map (λ v. v.0) (values l)) ≡ true
        → call m p s ≢ err stuck)
    → cover_ports call fire l c s ≢ err stuck
unfolding cover_ports values
cover_ports_ends call fire [] c s calls = λ h. ground (arith, h)
cover_ports_ends call fire ((out, (next, port)) ∷ l) c s calls =
    bind_avoids (call next (some port) s) _ stuck
      (calls next (some port) s (ground (arith, String_equality.same_iff next next)))
      (λ x.
        bind_avoids (cover_port fire c out x.0) _ stuck (cover_port_ends fire c out x.0)
          (λ d. cover_ports_ends call fire l d x.1 (λ m p s k. calls m p s (ground (arith, k)))))

-- If each connection of the graph leads to an instance of a lower rank and the bound is above the
-- rank of the instance, `dfs_cover` does not run out of its bound.
pub dfs_cover_ends :
    (fuel : ℕ) (g : Graph) (rank : String → ℕ) (target : String) (n : ℕ) (node : String)
    (port : Option InPort) (s : Answer)
    → IsRanked g rank
    → rank node < fuel
    → dfs_cover fuel g target n node port s ≢ err (graph GraphError.out_of_fuel)
unfolding dfs_cover targets
dfs_cover_ends zero g rank target n node port s w h q = omega (arith, h)
dfs_cover_ends (suc fuel) g rank target n node port s w h q =
    elim (Option-cases (get g.instances node)) [
      | inl e ↦ ground (arith, rw (e, dfs_cover) at q)
      | inr (i, e) ↦ elim (Bool-cases (node == target)) [
        | inl t ↦
            bind_avoids (port_index i.element.inports port) _ stuck
              (port_index_ends i.element.inports port) (λ k q. cc) (rw (e, t, dfs_cover) at q)
        | inr t ↦ elim (Option-cases (get s.answer node)) [
          | inr (c, f) ↦
              bind_avoids (wrap_port c i target n port) _ stuck (wrap_port_ends c i target n port)
                (λ r q. cc) (rw (e, t, f, dfs_cover) at q)
          | inl f ↦
              bind_avoids
                (cover_ports (dfs_cover fuel g target n) i.element.output_fire i.output2ele
                  (no_cover target n) s)
                _ stuck
                (cover_ports_ends (dfs_cover fuel g target n) i.element.output_fire i.output2ele
                  (no_cover target n) s
                  (λ m p s k.
                    dfs_cover_ends fuel g rank target n m p s w
                      (omega (arith, h, w.falls node m (ground (arith, e, k))))))
                (λ x.
                  bind_avoids (port_order i.element.output_fire x.0.by_port) _ stuck
                    (port_order_ends i.element.output_fire x.0.by_port)
                    (λ o.
                      bind_avoids (wrap_port x.0.flows i target n port) _ stuck
                        (wrap_port_ends x.0.flows i target n port) (λ r q. cc)))
                (rw (e, t, f, dfs_cover) at q)
        ]
      ]
    ]
