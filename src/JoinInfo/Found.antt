-- ===== src/JoinInfo/Found.antt =====
-- What holds of an instance that `annotate_join_info` takes for a join instance.
use floem.Prelude.{
  ℕ, ◌<◌, String, ◌≡◌, refl, ap, sym, subst, ◌∙◌, inl, inr, Bool, true, false, ◌&&◌, Option, none,
  some, List, [], ◌∷◌, ◌==◌, arith, String_equality, ×_equality, if◌then◌else◌, Result, ok, err,
  ok-of_bind, ok-injective, Dict, get, get-put, has, keys, values, All, contains, IsDistinct,
  length, length-filter-le, filter, ltb, nat_eq, nat_eq_iff, get-first, get-later, Option-cases,
  Bool-cases,
}
use floem.Graph.{GraphError, assertion, Port, Node, State, Graph, lookup}
use floem.Graph.Build.{check, option_text_eq, add_state, state_eq}
use floem.Graph.Connect.{set_instance}
use floem.Graph.Walk.{find_roots}
use floem.Joins.{annotate_for_instance}
use floem.Program.{is_plain}
use floem.JoinInfo.{
  no_scan, scan_ports, connected_ports, Info, save_outputs, save_all, find_join, find_joins,
  of_graph, of_join, annotate_minimal, annotate_if_join, order_calls, Annotated, annotate_join,
  annotate_joins, annotate_join_info, add_buffer,
}
use floem.JoinInfo.Near.{sources, IsNear, scan_ports-IsScanned, scan_ports-All}

All-of_filter :
    (f : Port → Bool) (l : List Port) → length (filter f l) ≡ length l → All (λ p. f p ≡ true) l
All-of_filter f [] h = tt
All-of_filter f (p ∷ l) h = elim (Bool-cases (f p)) [
  | inl e ↦ (e, All-of_filter f l (ground (arith, h, e)))
  | inr e ↦ absurd (ground (arith, h, e, length-filter-le f l))
]

All-apply : (P Q : Port → Type 0) (l : List Port) → All (λ p. P p → Q p) l → All P l → All Q l
All-apply P Q [] f w = tt
All-apply P Q (p ∷ l) f w = (f.0 w.0, All-apply P Q l f.1 w.1)

-- A join instance: several input ports, all connected, of which those listed come from different ports
-- of instances on its own thread.
pub record IsJoin (g : Graph) (i : Node) (ports : List Port) : Type 0 where
  pub several : 1 < length ports
  pub special : is_plain i.element.special ≡ true
  pub all_connected : All (λ p. has i.input2ele p.name ≡ true) i.element.inports
  pub near : All (IsNear g i) ports
  pub apart : IsDistinct (sources i ports)

-- Each instance is that of the first graph but for its join ports, which make it a join instance.
abbrev pub Follows : Graph → Dict Node → Type 0
Follows g d =
    (k : String) (j : Node)
    → get d k ≡ some j
    → (i : Node) × (get g.instances k ≡ some i)
      × (record i { join_ports_same_thread = j.join_ports_same_thread } ≡ j)
      × ((ports : List Port) → j.join_ports_same_thread ≡ some ports → IsJoin g i ports)

All-map : (P Q : Port → Type 0) (l : List Port) → ((p : Port) → P p → Q p) → All P l → All Q l
All-map P Q [] f w = tt
All-map P Q (p ∷ l) f w = (f p w.0, All-map P Q l f w.1)

IsNear-Follows :
    (g h : Graph) (i : Node) (p : Port) → Follows g h.instances → IsNear h i p → IsNear g i p
IsNear-Follows g h i p w n =
    let (from, a, b, _) = w n.source.0 n.from n.there in
    record {
      source = n.source;
      others = n.others;
      from = from;
      connected = n.connected;
      there = a;
      near = ap (λ (j : Node). option_text_eq j.thread i.thread) b ∙ n.near;
    }

save_all-graph :
    (r t : Info) (name : String) (d : Dict (List String))
    → save_all r name d ≡ ok t
    → t.graph ≡ r.graph
unfolding save_all
save_all-graph r t name [] h = ap (λ (r : Info). r.graph) (sym (ok-injective h))
save_all-graph r t name ((node, l) ∷ d) h =
    let (i, a, b) = ok-of_bind (lookup r.graph.instances node) _ h in
    save_all-graph (record r { output2save = save_outputs r.output2save node name l }) t name d b

check-true : (b : Bool) (e : GraphError) (u : Unit {0}) → check b e ≡ ok u → b ≡ true
check-true true e u h = refl
check-true false e u h = absurd (ground (arith, h))

find_join-Follows :
    (g : Graph) (r t : Info) (k : String) (i : Node)
    → get g.instances k ≡ some i
    → Follows g r.graph.instances
    → find_join r k i ≡ ok t
    → Follows g t.graph.instances
unfolding find_join connected_ports sources
find_join-Follows g r t k i found w h =
    let (s, a, h1) = ok-of_bind (scan_ports r.graph i no_scan i.element.inports) _ h in
    let n = length (connected_ports i) in
    elim (Bool-cases ((ltb 1 (length s.ports) && is_plain i.element.special) && ltb 0 n)) [
      | inr q ↦ subst (λ (r : Info). Follows g r.graph.instances) (ok-injective (rw q at h1)) w
      | inl q ↦
          let (u, b, h2) =
            ok-of_bind (check (nat_eq n (length i.element.inports)) assertion) _ (rw q at h1) in
          let j : Node = record i { join_ports_same_thread = some s.ports } in
          let all_in =
            All-of_filter (λ p. has i.input2ele p.name) i.element.inports
              ((nat_eq_iff n (length i.element.inports)).0 (check-true _ _ u b)) in
          let scanned =
            scan_ports-IsScanned r.graph i no_scan s i.element.inports (tt, refl, tt) a in
          let inside =
            scan_ports-All (λ p. has i.input2ele p.name ≡ true) r.graph i no_scan s
              i.element.inports tt all_in a in
          let joined : IsJoin g i s.ports = record {
            several = ground (arith, q);
            special = ground (arith, q);
            all_connected = all_in;
            near =
                All-map (IsNear r.graph i) (IsNear g i) s.ports
                  (λ p. IsNear-Follows g r.graph i p w)
                  (All-apply (λ p. has i.input2ele p.name ≡ true) (IsNear r.graph i) s.ports
                    scanned.0 inside);
            apart = subst IsDistinct (sym scanned.1) scanned.2;
          } in
          subst (λ (h : Graph). Follows g h.instances)
            (sym
              (save_all-graph (record r { graph = set_instance r.graph k j }) t i.name s.save h2))
            (λ m x e. elim (Bool-cases (k == m)) [
              | inr z ↦ w m x (ground (arith, z, get-put r.graph.instances k m j, e))
              | inl z ↦
                  let same : j ≡ x = ground (arith, z, get-put r.graph.instances k m j, e) in
                  (
                    i,
                    subst (λ m. get g.instances m ≡ some i) ((String_equality.same_iff k m).0 z)
                        found,
                    subst
                        (λ (x : Node).
                          record i { join_ports_same_thread = x.join_ports_same_thread } ≡ x)
                        same refl,
                    λ ports f.
                        subst (IsJoin g i)
                          (ground (arith, f, ap (λ (x : Node). x.join_ports_same_thread) same))
                          joined,
                  )
            ])
    ]

find_joins-Follows :
    (g : Graph) (r t : Info) (d : Dict Node)
    → All (λ p. get g.instances p.0 ≡ some p.1) d
    → Follows g r.graph.instances
    → find_joins r d ≡ ok t
    → Follows g t.graph.instances
unfolding find_joins
find_joins-Follows g r t [] f w h =
    subst (λ (r : Info). Follows g r.graph.instances) (ok-injective h) w
find_joins-Follows g r t ((k, i) ∷ d) f w h =
    let (u, a, b) = ok-of_bind (find_join r k i) _ h in
    find_joins-Follows g u t d f.1 (find_join-Follows g r u k i f.0 w a) b

-- In a dictionary each entry is what its key leads to.
found_later :
    (k : String) (v : Node) (d e : Dict Node)
    → contains k (keys d) ≡ false
    → All (λ p. get d p.0 ≡ some p.1) e
    → All (λ p. get ((k, v) ∷ d) p.0 ≡ some p.1) e
found_later k v d [] new w = tt
found_later k v d ((n, x) ∷ e) new w = (get-later k n v x d new w.0, found_later k v d e new w.1)

entries_found : (d : Dict Node) → IsDistinct (keys d) → All (λ p. get d p.0 ≡ some p.1) d
unfolding keys
entries_found [] u = tt
entries_found ((k, v) ∷ d) u = (get-first k v d, found_later k v d d u.0 (entries_found d u.1))

add_state-instances :
    (g h : Graph) (x : State) (new : Bool) → add_state g x ≡ ok (new, h) → h.instances ≡ g.instances
unfolding add_state
add_state-instances g h x new a = elim (Option-cases (get g.states x.name)) [
  | inl f ↦ ap (λ p. p.1.instances) (sym (ok-injective (rw (f, add_state) at a)))
  | inr (old, f) ↦ elim (Bool-cases (state_eq old x)) [
    | inl t ↦ ap (λ p. p.1.instances) (sym (ok-injective (rw (f, t, add_state) at a)))
    | inr t ↦ absurd (ground (arith, rw (f, t, add_state) at a))
  ]
]

add_buffer-instances :
    (g h : Graph) (i : Node) (ports : List Port)
    → add_buffer g i ports ≡ ok h
    → h.instances ≡ g.instances
unfolding add_buffer
add_buffer-instances g h i ports e =
    let ((new, k), a, b) = ok-of_bind (add_state g _) _ e in
    ap (λ (g : Graph). g.instances) (sym (ok-injective b)) ∙ add_state-instances g k _ new a

ok_of_graph : {A : Type 0} (r : Result GraphError A) (a : A) → of_graph r ≡ ok a → r ≡ ok a
unfolding of_graph
ok_of_graph (ok b) a h = ap ok (ok-injective h)
ok_of_graph (err e) a h = absurd (ground (arith, h))

annotate_join-instances :
    (fuel : ℕ) (detail : Bool) (roots : List String) (s t : Annotated) (i : Node)
    (ports : List Port)
    → annotate_join fuel detail roots s i ports ≡ ok t
    → t.info.graph.instances ≡ s.info.graph.instances
unfolding annotate_join
annotate_join-instances fuel true roots s t i ports h =
    let (m, a, h1) = ok-of_bind (of_join (annotate_for_instance fuel s.info.graph i roots)) _ h in
    let (g, b, h2) = ok-of_bind (of_graph (add_buffer s.info.graph i ports)) _ h1 in
    ap (λ (t : Annotated). t.info.graph.instances) (sym (ok-injective h2))
    ∙ add_buffer-instances s.info.graph g i ports
        (ok_of_graph (add_buffer s.info.graph i ports) g b)
annotate_join-instances fuel false roots s t i ports h =
    let ((m, o), a, h1) = ok-of_bind (of_join (annotate_minimal fuel s.info.graph i roots)) _ h in
    ap (λ (t : Annotated). t.info.graph.instances) (sym (ok-injective h1))

annotate_joins-instances :
    (fuel : ℕ) (detail : Bool) (roots : List String) (s t : Annotated) (l : List Node)
    → annotate_joins fuel detail roots s l ≡ ok t
    → t.info.graph.instances ≡ s.info.graph.instances
unfolding annotate_joins
annotate_joins-instances fuel detail roots s t [] h =
    ap (λ (t : Annotated). t.info.graph.instances) (sym (ok-injective h))
annotate_joins-instances fuel detail roots s t (i ∷ l) h =
    let (u, a, b) =
      ok-of_bind (annotate_if_join fuel detail roots s i i.join_ports_same_thread) _ h in
    annotate_joins-instances fuel detail roots u t l b ∙ one_node i.join_ports_same_thread u a
  where
    one_node :
        (o : Option (List Port)) (u : Annotated)
        → annotate_if_join fuel detail roots s i o ≡ ok u
        → u.info.graph.instances ≡ s.info.graph.instances
    one_node none u a = ap (λ (t : Annotated). t.info.graph.instances) (sym (ok-injective a))
    one_node (some ports) u a = elim (Bool-cases (ltb 0 (length ports))) [
      | inl q ↦ annotate_join-instances fuel detail roots s u i ports (rw q at a)
      | inr q ↦ ap (λ (t : Annotated). t.info.graph.instances) (sym (ok-injective (rw q at a)))
    ]

-- If each name stands for one instance, none of which has join ports, and `annotate_join_info` returns,
-- then an instance that has join ports is, but for them, one of the first graph, is not special, has
-- more than one join port, all its input ports are connected, and the join ports are connected first
-- from different output ports of instances on its own thread.
pub annotate_join_info-IsJoin :
    (fuel : ℕ) (detail : Bool) (g : Graph) (earlier : List (String × List (String × String)))
    (t : Annotated) (k : String) (j : Node) (ports : List Port)
    → IsDistinct (keys g.instances)
    → ((k : String) (i : Node) → get g.instances k ≡ some i → i.join_ports_same_thread ≡ none)
    → annotate_join_info fuel detail g earlier ≡ ok t
    → get t.info.graph.instances k ≡ some j
    → j.join_ports_same_thread ≡ some ports
    → (i : Node) × (get g.instances k ≡ some i)
      × (record i { join_ports_same_thread = some ports } ≡ j)
      × IsJoin g i ports
unfolding annotate_join_info
annotate_join_info-IsJoin fuel detail g earlier t k j ports distinct unmarked h found marked =
    let start : Info = record { graph = g; output2save = [] } in
    let (r, a, h1) = ok-of_bind (of_graph (find_joins start g.instances)) _ h in
    let begin : Annotated = record {
      info = r;
      marks = [];
      minimal = [];
      pairs = earlier;
      orders = [];
    } in
    let (s, b, h2) =
      ok-of_bind (annotate_joins fuel detail (find_roots g) begin (values r.graph.instances)) _
        h1 in
    let (o, c, h3) =
      ok-of_bind (if detail then order_calls s.pairs (values s.info.graph.instances) else ok []) _
        h2 in
    let same =
      ap (λ (t : Annotated). t.info.graph.instances) (sym (ok-injective h3))
      ∙ annotate_joins-instances fuel detail (find_roots g) begin s (values r.graph.instances) b in
    let follows =
      find_joins-Follows g start r g.instances (entries_found g.instances distinct)
        (λ k j e. (j, e, refl, λ ports f. absurd (ground (arith, f, unmarked k j e))))
        (ok_of_graph (find_joins start g.instances) r a) in
    let (i, x, y, z) = follows k j (subst (λ d. get d k ≡ some j) same found) in
    (i, x, subst (λ o. record i { join_ports_same_thread = o } ≡ j) marked y, z ports marked)
