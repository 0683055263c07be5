-- ===== src/Returns/Ends.antt =====
-- `annotate_api_info` ends on a graph without cycles.
use floem.Prelude.{
  ℕ, zero, suc, ◌<◌, String, ◌≡◌, ◌≢◌, ap, true, false, not, ◌&&◌, Bool, Option, none, some, List,
  [], ◌∷◌, ◌==◌, arith, Result, ok, err, ok-of_bind, err-of_bind, ok-injective, Dict, get,
  String_equality, bind_avoids, Bool-cases, Option-cases, inl, inr, length, ltb, nat_eq, values,
  map, contains, if◌then◌else◌,
}
use floem.Flow.{FlowError, FlowCollection, no_flow, full, empty, intersection, union}
use floem.Graph.{
  Fire, all, one, multi, zero_or_one, InPort, single, several, Node, Api, Graph, GraphError,
}
use floem.Graph.Walk.{targets}
use floem.Joins.{index_from, is_join}
use floem.Joins.Ends.{IsRanked}
use floem.Returns.{
  ReturnError, join_part, cover_some, of_flow, index_of, assert, found, present, wrap_port,
  target_cover, cover_port, cover_ports, dfs_cover_return, Mark, Marking, set_return_from,
  start_mark, order_of, return_nodes, last_of, mark_each, mark_some, mark_children, mark_target,
  mark_return, is_given, check_cover, annotate_api, annotate_api_info,
}

abbrev stuck : ReturnError
stuck = ReturnError.graph GraphError.out_of_fuel

of_flow_ends : {A : Type 0} (r : Result FlowError A) → of_flow r ≢ err stuck
unfolding of_flow
of_flow_ends (ok a) h = ground (arith, h)
of_flow_ends (err e) h = ground (arith, h)

index_of_ends : (i : Node) (n : String) → index_of i n ≢ err stuck
index_of_ends i n h = elim (Option-cases (index_from 0 i.element.inports n)) [
  | inl e ↦ ground (arith, rw (index_of, e) at h)
  | inr (k, e) ↦ ground (arith, rw (index_of, e) at h)
]

assert_ends : (b : Bool) → assert b ≢ err stuck
assert_ends true h = ground (arith, h)
assert_ends false h = ground (arith, h)

present_ends : (o : Option String) → present o ≢ err stuck
present_ends none h = ground (arith, h)
present_ends (some n) h = ground (arith, h)

found_ends : {V : Type 0} (d : Dict V) (k : String) → found d k ≢ err stuck
found_ends d k h = elim (Option-cases (get d k)) [
  | inl e ↦ ground (arith, rw (found, e) at h)
  | inr (v, e) ↦ ground (arith, rw (found, e) at h)
]

join_part_ends :
    (c : FlowCollection) (i : Node) (port : Option InPort) → join_part c i port ≢ err stuck
unfolding join_part
join_part_ends c i none h = ground (arith, h)
join_part_ends c i (some (single n)) h =
    bind_avoids (index_of i n) _ stuck (index_of_ends i n) (λ k. of_flow_ends _) h
join_part_ends c i (some (several l)) h =
    bind_avoids (assert (nat_eq (length l) (length i.element.inports))) _ stuck (assert_ends _)
      (λ k q. cc) h

wrap_port_ends :
    (c : FlowCollection) (i : Node) (port : Option InPort) → wrap_port c i port ≢ err stuck
unfolding wrap_port
wrap_port_ends c i port h = elim (Bool-cases (is_join i)) [
  | inr j ↦ ground (arith, rw (j, wrap_port) at h)
  | inl j ↦ join_part_ends c i port (rw (j, wrap_port) at h)
]

target_cover_ends :
    (i : Node) (target : String) (n : ℕ) (port : Option InPort)
    → target_cover i target n port ≢ err stuck
unfolding target_cover
target_cover_ends i target n none h = ground (arith, h)
target_cover_ends i target n (some (single p)) h = elim (Bool-cases (ltb 1 n)) [
  | inl e ↦
      bind_avoids (index_of i p) _ stuck (index_of_ends i p) (λ k q. cc) (rw (e, target_cover) at h)
  | inr e ↦ ground (arith, rw (e, target_cover) at h)
]
target_cover_ends i target n (some (several l)) h =
    elim (Bool-cases (ltb 0 (length l) && ltb 1 n)) [
      | inl e ↦
          bind_avoids (assert (nat_eq (length l) n)) _ stuck (assert_ends _) (λ k q. cc)
            (rw (e, target_cover) at h)
      | inr e ↦ ground (arith, rw (e, target_cover) at h)
    ]

cover_some_ends : (c x : FlowCollection) → cover_some c x ≢ err stuck
unfolding cover_some
cover_some_ends c x h = ground (arith, h)

cover_port_ends : (fire : Option Fire) (c x : FlowCollection) → cover_port fire c x ≢ err stuck
unfolding cover_port
cover_port_ends (some all) c x =
    bind_avoids (of_flow (intersection c x)) _ stuck (of_flow_ends _) (λ y h.
      elim (Bool-cases (not (empty y))) [
        | inl e ↦ ground (arith, rw e at h)
        | inr e ↦ of_flow_ends (union c x) (rw e at h)
      ])
cover_port_ends (some one) c x = λ h. ground (arith, h)
cover_port_ends (some multi) c x = cover_some_ends c x
cover_port_ends (some zero_or_one) c x = cover_some_ends c x
cover_port_ends none c x = cover_some_ends c x

cover_ports_ends :
    (call : String
      → Option InPort
      → Dict FlowCollection
      → Result ReturnError (FlowCollection × Dict FlowCollection))
    (fire : Option Fire) (l : List (String × InPort)) (c : FlowCollection) (d : Dict FlowCollection)
    → ((m : String) (p : Option InPort) (d : Dict FlowCollection)
        → contains m (map (λ v. v.0) l) ≡ true
        → call m p d ≢ err stuck)
    → cover_ports call fire l c d ≢ err stuck
unfolding cover_ports
cover_ports_ends call fire [] c d calls = λ h. ground (arith, h)
cover_ports_ends call fire ((next, port) ∷ l) c d calls =
    bind_avoids (call next (some port) d) _ stuck
      (calls next (some port) d (ground (arith, String_equality.same_iff next next)))
      (λ x.
        bind_avoids (cover_port fire c x.0) _ stuck (cover_port_ends fire c x.0)
          (λ y. cover_ports_ends call fire l y x.1 (λ m p d k. calls m p d (ground (arith, k)))))

-- If each connection of the graph leads to an instance of a lower rank and the bound is above the
-- rank of the instance, `dfs_cover_return` does not run out of its bound.
dfs_cover_return_ends :
    (fuel : ℕ) (g : Graph) (rank : String → ℕ) (target : String) (n : ℕ) (node : String)
    (port : Option InPort) (d : Dict FlowCollection)
    → IsRanked g rank
    → rank node < fuel
    → dfs_cover_return fuel g target n node port d ≢ err stuck
unfolding dfs_cover_return targets
dfs_cover_return_ends zero g rank target n node port d w r h = omega (arith, r)
dfs_cover_return_ends (suc fuel) g rank target n node port d w r h =
    elim (Option-cases (get g.instances node)) [
      | inl e ↦ ground (arith, rw (e, dfs_cover_return) at h)
      | inr (i, e) ↦ elim (Bool-cases (node == target)) [
        | inl t ↦
            bind_avoids (target_cover i target n port) _ stuck (target_cover_ends i target n port)
              (λ k q. cc) (rw (e, t, dfs_cover_return) at h)
        | inr t ↦ elim (Option-cases (get d node)) [
          | inr (c, f) ↦
              bind_avoids (wrap_port c i port) _ stuck (wrap_port_ends c i port) (λ k q. cc)
                (rw (e, t, f, dfs_cover_return) at h)
          | inl f ↦
              bind_avoids
                (cover_ports (dfs_cover_return fuel g target n) i.element.output_fire
                  (values i.output2ele) (no_flow target n) d)
                _ stuck
                (cover_ports_ends (dfs_cover_return fuel g target n) i.element.output_fire
                  (values i.output2ele) (no_flow target n) d
                  (λ m p d k.
                    dfs_cover_return_ends fuel g rank target n m p d w
                      (omega (arith, r, w.falls node m (ground (arith, e, k))))))
                (λ x.
                  bind_avoids (wrap_port x.0 i port) _ stuck (wrap_port_ends x.0 i port)
                    (λ k q. cc))
                (rw (e, t, f, dfs_cover_return) at h)
        ]
      ]
    ]

return_nodes_ends :
    (covers : Dict FlowCollection) (l : List (String × InPort)) → return_nodes covers l ≢ err stuck
unfolding return_nodes
return_nodes_ends covers [] h = ground (arith, h)
return_nodes_ends covers ((next, port) ∷ l) h =
    bind_avoids (found covers next) _ stuck (found_ends covers next)
      (λ c. bind_avoids (return_nodes covers l) _ stuck (return_nodes_ends covers l) (λ r q. cc)) h

return_nodes-contains :
    (covers : Dict FlowCollection) (l : List (String × InPort)) (r : List String) (m : String)
    → return_nodes covers l ≡ ok r
    → contains m r ≡ true
    → contains m (map (λ v. v.0) l) ≡ true
unfolding return_nodes
return_nodes-contains covers [] r m h k =
    absurd (ground (arith, k, ap (contains m) (ok-injective h)))
return_nodes-contains covers ((next, port) ∷ l) r m h k =
    let (c, a, h1) = ok-of_bind (found covers next) _ h in
    let (s, b, h2) = ok-of_bind (return_nodes covers l) _ h1 in
    let old : contains m (if not (empty c) then next ∷ s else s) ≡ contains m r =
      ap (contains m) (ok-injective h2) in
    ground (arith, old, k, return_nodes-contains covers l s m b)

last_of_ends : (l : List String) → last_of l ≢ err stuck
unfolding last_of
last_of_ends [] h = ground (arith, h)
last_of_ends (x ∷ []) h = ground (arith, h)
last_of_ends (x ∷ y ∷ l) h = last_of_ends (y ∷ l) h

mark_target_ends : (fire : Option Fire) → mark_target fire ≢ err stuck
unfolding mark_target
mark_target_ends (some all) h = ground (arith, h)
mark_target_ends (some one) h = ground (arith, h)
mark_target_ends (some multi) h = ground (arith, h)
mark_target_ends (some zero_or_one) h = ground (arith, h)
mark_target_ends none h = ground (arith, h)

contains-values :
    (d : Dict (String × InPort)) (k : String) (v : String × InPort)
    → get d k ≡ some v
    → contains v.0 (map (λ v. v.0) (values d)) ≡ true
unfolding get values
contains-values [] k v h = absurd (ground (arith, h))
contains-values ((j, w) ∷ d) k v h = elim (Bool-cases (j == k)) [
  | inl q ↦
      let same : w ≡ v = ground (arith, rw (q, get) at h) in
      ground (arith, String_equality.same_iff w.0 v.0, ap (λ x. x.0) same)
  | inr q ↦ ground (arith, contains-values d k v (rw (q, get) at h))
]

module _ (call : String → Marking → Result ReturnError (Bool × Marking)) where
  mark_each_ends :
      (l : List String) (always : Bool) (s : Marking)
      → ((m : String) (s : Marking) → contains m l ≡ true → call m s ≢ err stuck)
      → mark_each call l always s ≢ err stuck
  unfolding mark_each
  mark_each_ends [] always s calls = λ h. ground (arith, h)
  mark_each_ends (n ∷ l) always s calls =
      bind_avoids (call n s) _ stuck (calls n s (ground (arith, String_equality.same_iff n n)))
        (λ x. mark_each_ends l (always && x.0) x.1 (λ m s k. calls m s (ground (arith, k))))

  mark_some_ends :
      (l : List String) (s : Marking)
      → ((m : String) (s : Marking) → contains m l ≡ true → call m s ≢ err stuck)
      → mark_some call l s ≢ err stuck
  mark_some_ends l s calls =
      bind_avoids (mark_each call l true s) _ stuck (mark_each_ends l true s calls) (λ x q. cc)

  mark_children_ends :
      (fire : Option Fire) (name : String) (i : Node) (order nodes : List String) (s : Marking)
      → ((m : String) (s : Marking) → contains m nodes ≡ true → call m s ≢ err stuck)
      → ((m : String) (s : Marking) → contains m (targets i) ≡ true → call m s ≢ err stuck)
      → mark_children call fire name i order nodes s ≢ err stuck
  unfolding mark_children targets
  mark_children_ends (some all) name i order [] s calls others = λ h. ground (arith, h)
  mark_children_ends (some all) name i order (n ∷ []) s calls others =
      calls n _ (ground (arith, String_equality.same_iff n n))
  mark_children_ends (some all) name i order (n ∷ m ∷ l) s calls others =
      bind_avoids (last_of order) _ stuck (last_of_ends order) (λ port.
        elim (Option-cases (get i.output2ele port)) [
          | inl e ↦ λ h. ground (arith, rw (found, e) at h)
          | inr (v, e) ↦ λ h.
              others v.0 (set_return_from s name (v.0 ∷ [])) (contains-values i.output2ele port v e)
                (rw (found, e) at h)
        ])
  mark_children_ends (some one) name i order l s calls others =
      mark_each_ends l true (set_return_from s name l) calls
  mark_children_ends (some multi) name i order l s calls others =
      mark_some_ends l (set_return_from s name l) calls
  mark_children_ends (some zero_or_one) name i order l s calls others =
      mark_some_ends l (set_return_from s name l) calls
  mark_children_ends none name i order l s calls others =
      mark_some_ends l (set_return_from s name l) calls

module _ (g : Graph) (rank : String → ℕ) (orders : Dict (List String))
    (falls : IsRanked g rank) where
  mark_return_ends :
      (fuel : ℕ) (api : Api) (covers : Dict FlowCollection) (target name : String) (s : Marking)
      → rank name < fuel
      → mark_return fuel g orders api covers target name s ≢ err stuck
  unfolding mark_return targets
  mark_return_ends zero api covers target name s r h = omega (arith, r)
  mark_return_ends (suc fuel) api covers target name s r h =
      elim (Option-cases (get s.visit name)) [
        | inr (b, f) ↦ ground (arith, rw (f, mark_return) at h)
        | inl f ↦ elim (Option-cases (get g.instances name)) [
          | inl e ↦ ground (arith, rw (f, e, mark_return) at h)
          | inr (i, e) ↦ elim (Bool-cases (target == name)) [
            | inl t ↦
                bind_avoids (mark_target i.element.output_fire) _ stuck
                  (mark_target_ends i.element.output_fire) (λ b q. cc)
                  (rw (f, e, t, mark_return) at h)
            | inr t ↦
                let deeper = λ (m : String) (s : Marking) (k : contains m (targets i) ≡ true).
                  mark_return_ends fuel api covers target m s
                    (omega (arith, r, falls.falls name m (ground (arith, e, k)))) in
                elim (err-of_bind (return_nodes covers (values i.output2ele)) _
                  (rw (f, e, t, mark_return) at h)) [
                    | inl a ↦ return_nodes_ends covers (values i.output2ele) a
                    | inr (nodes, a, h1) ↦
                        bind_avoids
                          (mark_children (mark_return fuel g orders api covers target)
                            i.element.output_fire name i (order_of orders name) nodes
                            (start_mark api name s))
                          _ stuck
                          (mark_children_ends (mark_return fuel g orders api covers target)
                            i.element.output_fire name i (order_of orders name) nodes
                            (start_mark api name s)
                            (λ m s k.
                              deeper m s
                                (return_nodes-contains covers (values i.output2ele) nodes m a k))
                            deeper)
                          (λ x q. cc) h1
                  ]
          ]
        ]
      ]

  check_cover_ends :
      (c : FlowCollection) (default : Option String) (r : Result ReturnError (Bool × Marking))
      → r ≢ err stuck
      → check_cover c default r ≢ err stuck
  unfolding check_cover
  check_cover_ends c default r w h = elim (Bool-cases (empty c)) [
    | inl a ↦ ground (arith, rw (a, check_cover) at h)
    | inr a ↦ elim (Bool-cases (full c)) [
      | inr b ↦ ground (arith, rw (a, b, check_cover) at h)
      | inl b ↦ bind_avoids r _ stuck w (λ x q. ground (arith, q)) (rw (a, b, check_cover) at h)
    ]
  ]

  annotate_api_ends :
      (fuel : ℕ) (api : Api) (d : Dict Mark)
      → ((n : String) → rank n < fuel)
      → annotate_api fuel g orders api d ≢ err stuck
  unfolding annotate_api
  annotate_api_ends fuel api d above =
      bind_avoids (present api.return_instance) _ stuck (present_ends api.return_instance)
        (λ target.
          bind_avoids (present api.call_instance) _ stuck (present_ends api.call_instance) (λ start.
            bind_avoids (found g.instances target) _ stuck (found_ends g.instances target) (λ i.
              bind_avoids (dfs_cover_return fuel g target (length i.element.inports) start none [])
                _ stuck
                (dfs_cover_return_ends fuel g rank target (length i.element.inports) start none []
                  falls (above start))
                (λ x. check_cover_ends x.0 api.default_val _ (
                  mark_return_ends fuel api x.1 target start (record { marks = d; visit = [] })
                    (above start))))))

-- If each connection of the graph leads to an instance of a lower rank and the bound is above each
-- rank, `annotate_api_info` does not run out of its bound.
pub annotate_api_info_ends :
    (fuel : ℕ) (g : Graph) (rank : String → ℕ) (orders : Dict (List String)) (l : List Api)
    (d : Dict Mark)
    → IsRanked g rank
    → ((n : String) → rank n < fuel)
    → annotate_api_info fuel g orders l d ≢ err (ReturnError.graph GraphError.out_of_fuel)
unfolding annotate_api_info
annotate_api_info_ends fuel g rank orders [] d falls above = λ h. ground (arith, h)
annotate_api_info_ends fuel g rank orders (a ∷ l) d falls above =
    bind_avoids (if is_given a.return_type then annotate_api fuel g orders a d else ok d) _ stuck
      (one_ends a) (λ m. annotate_api_info_ends fuel g rank orders l m falls above)
  where
    one_ends :
        (a : Api)
        → (if is_given a.return_type then annotate_api fuel g orders a d else ok d) ≢ err stuck
    one_ends a h = elim (Bool-cases (is_given a.return_type)) [
      | inl q ↦ annotate_api_ends g rank orders falls fuel a d above (rw q at h)
      | inr q ↦ ground (arith, rw q at h)
    ]
