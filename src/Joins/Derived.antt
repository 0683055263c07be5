-- ===== src/Joins/Derived.antt =====
-- `dfs_cover` keeps what it has computed; it finds what a computation that keeps nothing derives.
use floem.Prelude.{
  ℕ, zero, suc, String, ◌≡◌, ap, subst, inl, inr, true, false, Option, some, [], ◌∷◌, ◌==◌, arith,
  String_equality, Result, ok, ok-of_bind, ok-injective, Dict, get, get-All, All-put, All,
  Bool-cases, Option-cases,
}
use floem.Flow.{FlowCollection, port_flow}
use floem.Graph.{Fire, InPort, Node, Graph}
use floem.Joins.{
  JoinError, Cover, no_cover, Answer, port_index, wrap_port, cover_port, cover_ports, port_order,
  dfs_cover,
}

-- What is derived: the flows of an instance, those that it has for a caller at one of its input
-- ports, and what the loop over output ports makes of a cover.
pub data Claim : Type 0 where
  has_flows : String → FlowCollection → Claim
  gives : String → Option InPort → FlowCollection → Claim
  covers : Option Fire → Dict (String × InPort) → Cover → Cover → Claim

pub data Derives (g : Graph) (target : String) (n : ℕ) : Claim → Type 0 where
  instance_flows :
      {node : String} {i : Node} {c : Cover}
      → get g.instances node ≡ some i
      → Derives g target n (covers i.element.output_fire i.output2ele (no_cover target n) c)
      → Derives g target n (has_flows node c.flows)
  at_target :
      {node : String} {i : Node} {port : Option InPort} {k : ℕ}
      → get g.instances node ≡ some i
      → (node == target) ≡ true
      → port_index i.element.inports port ≡ ok k
      → Derives g target n (gives node port (port_flow target n k))
  at_port :
      {node : String} {i : Node} {port : Option InPort} {c r : FlowCollection}
      → get g.instances node ≡ some i
      → (node == target) ≡ false
      → Derives g target n (has_flows node c)
      → wrap_port c i target n port ≡ ok r
      → Derives g target n (gives node port r)
  no_ports : {fire : Option Fire} {c : Cover} → Derives g target n (covers fire [] c c)
  one_port :
      {fire : Option Fire} {out next : String} {port : InPort} {l : Dict (String × InPort)}
      {x : FlowCollection} {c d e : Cover}
      → Derives g target n (gives next (some port) x)
      → cover_port fire c out x ≡ ok d
      → Derives g target n (covers fire l d e)
      → Derives g target n (covers fire ((out, (next, port)) ∷ l) c e)

module _ (g : Graph) (target : String) (n : ℕ) where
  -- What has been kept is derived.
  abbrev pub IsDerived : Answer → Type 0
  IsDerived s = All (λ p. Derives g target n (has_flows p.0 p.1)) s.answer

  cover_ports-Derives :
      (call : String → Option InPort → Answer → Result JoinError (FlowCollection × Answer))
      → ((m : String) (p : Option InPort) (s t : Answer) (r : FlowCollection)
          → IsDerived s
          → call m p s ≡ ok (r, t)
          → IsDerived t × Derives g target n (gives m p r))
      → (fire : Option Fire) (l : Dict (String × InPort)) (c d : Cover) (s t : Answer) → IsDerived s
      → cover_ports call fire l c s ≡ ok (d, t)
      → IsDerived t × Derives g target n (covers fire l c d)
  unfolding cover_ports
  cover_ports-Derives call calls fire [] c d s t w h =
      let same = ok-injective h in
      (
        subst IsDerived (ap (λ x. x.1) same) w,
        subst (λ d. Derives g target n (covers fire [] c d)) (ap (λ x. x.0) same) no_ports,
      )
  cover_ports-Derives call calls fire ((out, (next, port)) ∷ l) c d s t w h =
      let ((x, u), a, h) = ok-of_bind (call next (some port) s) _ h in
      let (e, b, h) = ok-of_bind (cover_port fire c out x) _ h in
      let (v, der) = calls next (some port) s u x w a in
      let (z, rest) = cover_ports-Derives call calls fire l e d u t v h in (z, one_port der b rest)

  pub Derives-of_dfs_cover :
      (fuel : ℕ) (node : String) (port : Option InPort) (s t : Answer) (r : FlowCollection)
      → IsDerived s
      → dfs_cover fuel g target n node port s ≡ ok (r, t)
      → IsDerived t × Derives g target n (gives node port r)
  unfolding dfs_cover
  Derives-of_dfs_cover zero node port s t r w h = absurd (ground (arith, h))
  Derives-of_dfs_cover (suc fuel) node port s t r w h = elim (Option-cases (get g.instances node)) [
    | inl e ↦ absurd (ground (arith, rw (e, dfs_cover) at h))
    | inr (i, e) ↦ elim (Bool-cases (node == target)) [
      | inl q ↦
          let (k, a, b) =
            ok-of_bind (port_index i.element.inports port) _ (rw (e, q, dfs_cover) at h) in
          let same = ok-injective b in
          (
            subst IsDerived (ap (λ x. x.1) same) w,
            subst (λ r. Derives g target n (gives node port r)) (ap (λ x. x.0) same)
                (at_target e q a),
          )
      | inr q ↦ elim (Option-cases (get s.answer node)) [
        | inr (c, f) ↦
            let (k, a, b) =
              ok-of_bind (wrap_port c i target n port) _ (rw (e, q, f, dfs_cover) at h) in
            let same = ok-injective b in
            (
              subst IsDerived (ap (λ x. x.1) same) w,
              subst (λ r. Derives g target n (gives node port r)) (ap (λ x. x.0) same)
                  (at_port e q
                    (get-All (λ k c. Derives g target n (has_flows k c)) s.answer node c w f) a),
            )
        | inl f ↦
            let ((c, u), a, k) =
              ok-of_bind
                (cover_ports (dfs_cover fuel g target n) i.element.output_fire i.output2ele
                  (no_cover target n) s)
                _ (rw (e, q, f, dfs_cover) at h) in
            let (o, _, k) = ok-of_bind (port_order i.element.output_fire c.by_port) _ k in
            let (x, b, k) = ok-of_bind (wrap_port c.flows i target n port) _ k in
            let (v, der) =
              cover_ports-Derives (dfs_cover fuel g target n)
                (λ m p s t r w h. Derives-of_dfs_cover fuel m p s t r w h) i.element.output_fire
                i.output2ele (no_cover target n) c s u w a in
            let flows = instance_flows e der in
            let same = ok-injective k in
            (
              subst IsDerived (ap (λ x. x.1) same) (
                  All-put (λ p. Derives g target n (has_flows p.0 p.1)) u.answer node c.flows v
                    flows),
              subst (λ r. Derives g target n (gives node port r)) (ap (λ x. x.0) same)
                  (at_port e q flows b),
            )
      ]
    ]
  ]

abbrev pub no_answer : Answer
no_answer = record { answer = []; orders = [] }

-- If `dfs_cover` returns, starting without answers, it returns what `Derives` gives: the result of the
-- recursion over the output ports that keeps no answers.
pub dfs_cover-Derives :
    (fuel : ℕ) (g : Graph) (target : String) (n : ℕ) (node : String) (port : Option InPort)
    (t : Answer) (r : FlowCollection)
    → dfs_cover fuel g target n node port no_answer ≡ ok (r, t)
    → Derives g target n (gives node port r)
dfs_cover-Derives fuel g target n node port t r h =
    (Derives-of_dfs_cover g target n fuel node port no_answer t r tt h).1

-- If `dfs_cover` returns, starting without answers, each answer is the flows that `Derives` gives to
-- its instance.
pub dfs_cover_answers :
    (fuel : ℕ) (g : Graph) (target : String) (n : ℕ) (node k : String) (port : Option InPort)
    (t : Answer) (r c : FlowCollection)
    → dfs_cover fuel g target n node port no_answer ≡ ok (r, t)
    → get t.answer k ≡ some c
    → Derives g target n (has_flows k c)
dfs_cover_answers fuel g target n node k port t r c h =
    get-All (λ k c. Derives g target n (has_flows k c)) t.answer k c
      (Derives-of_dfs_cover g target n fuel node port no_answer t r tt h).0
