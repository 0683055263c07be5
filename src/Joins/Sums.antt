-- ===== src/Joins/Sums.antt =====
-- An instance that fires all its output ports fires at the target what its ports fire together.
use floem.Prelude.{
  ℕ, ◌+◌, String, ◌≡◌, ap, subst, ◌∙◌, Option, some, List, [], ◌∷◌, arith, ok, Dict, get,
}
use floem.Flow.{FlowCollection}
use floem.Flow.Parts.{Choice, fires}
use floem.Flow.Merge.{IsChoice}
use floem.Flow.Fires.{fires-union}
use floem.Graph.{Fire, all, InPort, Node, Graph}
use floem.Joins.{Cover, Answer, cover_port, dfs_cover}
use floem.Joins.Derived.{
  has_flows, gives, covers, Derives, instance_flows, no_ports, one_port, no_answer,
  dfs_cover_answers,
}
use floem.Joins.Valid.{
  IsCounted, IsValid, Derives-IsValid, cover_port-IsValid, cover_port_all-cases,
}

-- The flows that the output ports of an instance give, in the order of the ports.
pub data PortFlows (g : Graph) (target : String) (n : ℕ)
    : Dict (String × InPort) → List FlowCollection → Type 0 where
  no_flows : PortFlows g target n [] []
  flows_of :
      {out next : String} {port : InPort} {l : Dict (String × InPort)} {x : FlowCollection}
      {xs : List FlowCollection}
      → Derives g target n (gives next (some port) x)
      → PortFlows g target n l xs
      → PortFlows g target n ((out, (next, port)) ∷ l) (x ∷ xs)

abbrev pub fires_of : Choice → List FlowCollection → ℕ
fires_of ω [] = 0
fires_of ω (x ∷ xs) = fires ω x.collection + fires_of ω xs

module _ (g : Graph) (total : String → ℕ) (target : String) (n : ℕ) (w : IsCounted g total target n)
    (ω : Choice) (valid : IsChoice total ω) where
  fires-cover_port :
      (c d : Cover) (out : String) (x : FlowCollection)
      → IsValid g total target n w c.flows
      → IsValid g total target n w x
      → cover_port (some all) c out x ≡ ok d
      → fires ω d.flows.collection ≡ fires ω c.flows.collection + fires ω x.collection
  fires-cover_port c d out x a b h =
      fires-union total ω valid c.flows x d.flows a b (cover_port_all-cases c d out x h).3

  fires-covers :
      {fire : Option Fire} {l : Dict (String × InPort)} {c d : Cover}
      → fire ≡ some all
      → IsValid g total target n w c.flows
      → Derives g target n (covers fire l c d)
      → (xs : List FlowCollection) × PortFlows g target n l xs
        × (fires ω d.flows.collection ≡ fires ω c.flows.collection + fires_of ω xs)
  fires-covers e v no_ports = ([], no_flows, omega arith)
  fires-covers {c = c} {d = d} e v (one_port {out = out} {x = x} {d = m} h s k) =
      let valid_x = Derives-IsValid g total target n w _ h in
      let s' : cover_port (some all) c out x ≡ ok m =
        subst (λ f. cover_port f c out x ≡ ok m) e s in
      let (xs, p, q) =
        fires-covers e (cover_port-IsValid g total target n w (some all) c m out x v valid_x s')
          k in
      (x ∷ xs, flows_of h p, omega (arith, q, fires-cover_port c m out x v valid_x s'))

  fires-has_flows :
      {k : String} {c : FlowCollection} {i : Node}
      → get g.instances k ≡ some i
      → i.element.output_fire ≡ some all
      → Derives g target n (has_flows k c)
      → (xs : List FlowCollection) × PortFlows g target n i.output2ele xs
        × (fires ω c.collection ≡ fires_of ω xs)
  fires-has_flows {i = i} e f (instance_flows {i = j} a h) =
      let same : j ≡ i = ground (arith, a, e) in
      let (xs, p, q) = fires-covers (ap (λ (i : Node). i.element.output_fire) same ∙ f) tt h in
      (xs, subst (λ (i : Node). PortFlows g target n i.output2ele xs) same p, omega (arith, q))

-- Let `total` give the number of input ports of each instance that has some, `n` be that of the target,
-- and each instance be stored under its name. If `dfs_cover` returns, starting without answers, then a
-- choice of one port for each join instance is fired by the answer of an instance that fires all its
-- output ports exactly as often as by what these ports give, together.
pub dfs_cover-fires :
    (fuel : ℕ) (g : Graph) (total : String → ℕ) (ω : Choice) (target : String) (n : ℕ)
    (node k : String) (port : Option InPort) (t : Answer) (r c : FlowCollection) (i : Node)
    → IsCounted g total target n
    → IsChoice total ω
    → dfs_cover fuel g target n node port no_answer ≡ ok (r, t)
    → get t.answer k ≡ some c
    → get g.instances k ≡ some i
    → i.element.output_fire ≡ some all
    → (xs : List FlowCollection) × PortFlows g target n i.output2ele xs
      × (fires ω c.collection ≡ fires_of ω xs)
dfs_cover-fires fuel g total ω target n node k port t r c i w valid h e f a =
    fires-has_flows g total target n w ω valid f a
      (dfs_cover_answers fuel g target n node k port t r c h e)
