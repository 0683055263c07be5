-- ===== src/Joins/Valid.antt =====
-- What `dfs_cover` derives are valid collections: each part in them names ports of its instance.
use floem.Prelude.{
  ℕ, suc, ◌+◌, ◌<◌, String, ◌≡◌, refl, sym, ap, subst, ◌∙◌, ◌⊎◌, inl, inr, true, false, not, ◌&&◌,
  Option, none, some, List, [], ◌∷◌, ◌==◌, arith, All, All-append, String_equality, length, Result,
  ok, err, ok-of_bind, ok-injective, get, put, Bool-cases, Option-cases, ltb,
}
use floem.Flow.{
  FlowError, FlowCollection, InstancePart, Piece, whole, parts, port_flow, full, empty, append,
  append_each, union, intersection,
}
use floem.Flow.Merge.{IsPart, IsPiece}
use floem.Flow.Fires.{union-IsPiece}
use floem.Graph.{Fire, all, one, multi, zero_or_one, InPort, single, several, Node, Graph, Port}
use floem.Joins.{Cover, of_flow, index_from, port_index, is_join, wrap_port, cover_port, flow_eq}
use floem.Joins.Derived.{
  Claim, has_flows, gives, covers, Derives, instance_flows, at_target, at_port, no_ports, one_port,
}

pub of_flow-eq-ok : {A : Type 0} (r : Result FlowError A) (a : A) → of_flow r ≡ ok a → r ≡ ok a
unfolding of_flow
of_flow-eq-ok (ok b) a h = ap ok (ok-injective h)
of_flow-eq-ok (err e) a h = absurd (ground (arith, h))

index_from-bounded :
    (k : ℕ) (l : List Port) (n : String) (j : ℕ) → index_from k l n ≡ some j → j < k + length l
unfolding index_from
index_from-bounded k [] n j h = absurd (ground (arith, h))
index_from-bounded k (p ∷ l) n j h = elim (Bool-cases (p.name == n)) [
  | inl e ↦ let same : k ≡ j = ground (arith, rw (e, index_from) at h) in omega (arith, same)
  | inr e ↦ omega (arith, index_from-bounded (suc k) l n j (rw (e, index_from) at h))
]

port_index-bounded :
    (l : List Port) (port : Option InPort) (j : ℕ) → port_index l port ≡ ok j → j < length l
unfolding port_index
port_index-bounded l (some (single n)) j h = elim (Option-cases (index_from 0 l n)) [
  | inl e ↦ absurd (ground (arith, rw (e, port_index) at h))
  | inr (k, e) ↦
      let same : k ≡ j = ok-injective (rw (e, port_index) at h) in
      omega (arith, index_from-bounded 0 l n k e, same)
]
port_index-bounded l (some (several k)) j h = absurd (ground (arith, h))
port_index-bounded l none j h = absurd (ground (arith, h))

-- What `cover_port` does, where it returns: for an element that fires all ports, one, or another number.
pub cover_port_all-cases :
    (c d : Cover) (out : String) (x : FlowCollection)
    → cover_port (some all) c out x ≡ ok d
    → (y : FlowCollection) × (intersection c.flows x ≡ ok y)
      × (empty y ≡ true)
      × (union c.flows x ≡ ok d.flows)
unfolding cover_port
cover_port_all-cases c d out x h =
    let (y, a, h) = ok-of_bind (of_flow (intersection c.flows x)) _ h in
    elim (Bool-cases (not (empty y))) [
      | inl e ↦ absurd (ground (arith, rw e at h))
      | inr e ↦
          let (u, b, k) = ok-of_bind (of_flow (union c.flows x)) _ (rw e at h) in
          (
            y,
            of_flow-eq-ok (intersection c.flows x) y a,
            ground (arith, e),
            of_flow-eq-ok (union c.flows x) u b ∙ ap (λ (d : Cover). ok d.flows) (ok-injective k),
          )
    ]

pub flow_eq-cover_port :
    (c d : Cover) (out : String) (x : FlowCollection)
    → cover_port (some one) c out x ≡ ok d
    → ((ltb 0 (length c.by_port) && not (flow_eq c.flows x)) ≡ false)
      × (record { flows = x; by_port = put c.by_port out x } ≡ d)
unfolding cover_port
flow_eq-cover_port c d out x h =
    elim (Bool-cases (ltb 0 (length c.by_port) && not (flow_eq c.flows x))) [
      | inl e ↦ absurd (ground (arith, rw (e, cover_port) at h))
      | inr e ↦ (e, ok-injective (rw (e, cover_port) at h))
    ]

cover_port-cases :
    (fire : Option Fire) (c d : Cover) (out : String) (x : FlowCollection)
    → cover_port fire c out x ≡ ok d
    → (union c.flows x ≡ ok d.flows) ⊎ ((x ≡ d.flows) ⊎ (c ≡ d))
unfolding cover_port
cover_port-cases (some all) c d out x h = inl (cover_port_all-cases c d out x h).3
cover_port-cases (some one) c d out x h =
    inr (inl (ap (λ (d : Cover). d.flows) (flow_eq-cover_port c d out x h).1))
cover_port-cases (some multi) c d out x h = elim (Bool-cases (not (empty x))) [
  | inl e ↦ absurd (ground (arith, rw (e, cover_port) at h))
  | inr e ↦ inr (inr (ok-injective (rw (e, cover_port) at h)))
]
cover_port-cases (some zero_or_one) c d out x h =
    elim (Bool-cases (not (full x) && not (empty x))) [
      | inl e ↦ absurd (ground (arith, rw (e, cover_port) at h))
      | inr e ↦ inr (inr (ok-injective (rw (e, cover_port) at h)))
    ]
cover_port-cases none c d out x h = elim (Bool-cases (not (full x) && not (empty x))) [
  | inl e ↦ absurd (ground (arith, rw (e, cover_port) at h))
  | inr e ↦ inr (inr (ok-injective (rw (e, cover_port) at h)))
]

-- Each instance is stored under its name, `total` gives the number of its input ports, if it has any,
-- and `n` is that of the target.
pub record IsCounted (g : Graph) (total : String → ℕ) (target : String) (n : ℕ) : Type 0 where
  pub named : (k : String) (i : Node) → get g.instances k ≡ some i → i.name ≡ k
  pub counted :
      (k : String) (i : Node)
      → get g.instances k ≡ some i
      → 0 < length i.element.inports
      → total k ≡ length i.element.inports
  pub of_target : n ≡ total target

module _ (g : Graph) (total : String → ℕ) (target : String) (n : ℕ)
    (w : IsCounted g total target n) where
  abbrev pub IsValid : FlowCollection → Type 0
  IsValid f = All (IsPiece total) f.collection

  port_flow-IsValid :
      (node : String) (i : Node) (port : Option InPort) (k : ℕ)
      → get g.instances node ≡ some i
      → (node == target) ≡ true
      → port_index i.element.inports port ≡ ok k
      → IsValid (port_flow target n k)
  port_flow-IsValid node i port k e q h =
      let below = port_index-bounded i.element.inports port k h in
      let count = w.counted node i e (omega (arith, below)) in
      let there = ap total ((String_equality.same_iff node target).0 q) in
      (
        (
          record {
            same = w.of_target;
            distinct = (refl, tt);
            bounded = (omega (arith, w.of_target, below, count, there), tt);
          },
          tt,
        ),
        tt,
      )

  append_each-IsPiece :
      (p : InstancePart) (l k : List Piece)
      → IsPart total p
      → All (IsPiece total) l
      → append_each p l ≡ ok k
      → All (IsPiece total) k
  unfolding append_each
  append_each-IsPiece p [] k v a h = subst (All (IsPiece total)) (ok-injective h) tt
  append_each-IsPiece p (whole m ∷ l) k v a h = absurd (ground (arith, h))
  append_each-IsPiece p (parts xs ∷ l) k v a h =
      let (r, b, c) = ok-of_bind (append_each p l) _ h in
      subst (All (IsPiece total)) (ok-injective c)
        (All-append (IsPart total) xs (p ∷ []) a.0 (v, tt), append_each-IsPiece p l r v a.1 b)

  wrap_port-IsValid :
      (node : String) (i : Node) (port : Option InPort) (c r : FlowCollection)
      → get g.instances node ≡ some i
      → IsValid c
      → wrap_port c i target n port ≡ ok r
      → IsValid r
  unfolding wrap_port append
  wrap_port-IsValid node i port c r e v h = elim (Bool-cases (full c)) [
    | inl f ↦ subst IsValid (ok-injective (rw (f, wrap_port) at h)) tt
    | inr f ↦ elim (Bool-cases (is_join i)) [
      | inr j ↦ subst IsValid (ok-injective (rw (f, j, wrap_port) at h)) v
      | inl j ↦
          let (k, a, b) =
            ok-of_bind (port_index i.element.inports port) _ (rw (f, j, wrap_port) at h) in
          let below = port_index-bounded i.element.inports port k a in
          let p : InstancePart = record {
            instance_name = i.name;
            ports = k ∷ [];
            total = length i.element.inports;
          } in
          let (l, d, s) =
            ok-of_bind (append_each p c.collection) _ (of_flow-eq-ok (append c p) r b) in
          subst IsValid (ok-injective s) (
            append_each-IsPiece p c.collection l
              (record {
                same =
                    sym (w.counted node i e (omega (arith, below)))
                    ∙ ap total (sym (w.named node i e));
                distinct = (refl, tt);
                bounded = (below, tt);
              })
              v d)
    ]
  ]

  pub cover_port-IsValid :
      (fire : Option Fire) (c d : Cover) (out : String) (x : FlowCollection)
      → IsValid c.flows
      → IsValid x
      → cover_port fire c out x ≡ ok d
      → IsValid d.flows
  cover_port-IsValid fire c d out x v a h = elim (cover_port-cases fire c d out x h) [
    | inl e ↦ union-IsPiece total c.flows x d.flows v a e
    | inr (inl e) ↦ subst IsValid e a
    | inr (inr e) ↦ subst (λ (c : Cover). IsValid c.flows) e v
  ]

  -- What a claim says of collections that are valid.
  abbrev pub Holds : Claim → Type 0
  Holds (has_flows node c) = IsValid c
  Holds (gives node port c) = IsValid c
  Holds (covers fire l c d) = IsValid c.flows → IsValid d.flows

  pub Derives-IsValid : (claim : Claim) → Derives g target n claim → Holds claim
  Derives-IsValid _ (instance_flows e h) = Derives-IsValid _ h tt
  Derives-IsValid _ (at_target e q h) = port_flow-IsValid _ _ _ _ e q h
  Derives-IsValid _ (at_port e q h s) = wrap_port-IsValid _ _ _ _ _ e (Derives-IsValid _ h) s
  Derives-IsValid _ no_ports = λ v. v
  Derives-IsValid _ (one_port h e k) =
      λ v. Derives-IsValid _ k (cover_port-IsValid _ _ _ _ _ v (Derives-IsValid _ h) e)
