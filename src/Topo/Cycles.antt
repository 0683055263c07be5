-- ===== src/Topo/Cycles.antt =====
-- `order_function_calls` raises exactly where the pairs form a cycle.
use mathlib.Core.List.{reverse}
use floem.Prelude.{
  ℕ, zero, suc, String, ◌≡◌, ap, subst, inl, inr, true, false, List, [], ◌∷◌, arith,
  String_equality, ×_equality, contains, contains-append, Bool-cases, contains-All, IsDistinct,
  Result, ok, err, err-of_bind,
}
use floem.Topo.{
  Edges, Search, TopoError, cycle, start, visit_each, topo_sort, sort_each, depth,
  order_function_calls,
}
use floem.Topo.Visit.{
  IsOrdered, IsSearch, Extends, Finishes, topo_sort-Finishes, IsSearch-opened, opened,
}
use floem.Topo.Sorts.{IsSearch-start, order_function_calls_sorts}

-- A chain of one pair or more leads from the first port to the second.
pub data Follows (edges : Edges) : String → String → Type 0 where
  one : {a b : String} → contains (a, b) edges ≡ true → Follows edges a b
  more : {a b c : String} → contains (a, b) edges ≡ true → Follows edges b c → Follows edges a c

Follows-snoc :
    {edges : Edges} {a b c : String}
    → Follows edges a b
    → contains (b, c) edges ≡ true
    → Follows edges a c
Follows-snoc (one h) k = more h (one k)
Follows-snoc (more h f) k = more h (Follows-snoc f k)

-- The ports that are visited and not finished lead to the port at hand.
abbrev LeadTo : Edges → Search → String → Type 0
LeadTo edges s port =
    (a : String) → contains a s.visit ≡ true → contains a s.order ≡ false → Follows edges a port

abbrev HasCycle : Edges → Type 0
HasCycle edges = (a : String) × Follows edges a a

LeadTo-Extends :
    (edges : Edges) (s t : Search) (port : String)
    → Extends s t
    → LeadTo edges s port
    → LeadTo edges t port
LeadTo-Extends edges s t port x h a v o = elim (Bool-cases (contains a s.visit)) [
  | inl old ↦ elim (Bool-cases (contains a s.order)) [
    | inl done ↦ absurd (ground (arith, x.keeps_order a done))
    | inr open_port ↦ h a old open_port
  ]
  | inr new ↦ absurd (ground (arith, x.finishes a v new))
]

LeadTo-opened :
    (edges : Edges) (s : Search) (port b : String)
    → LeadTo edges s port
    → contains (port, b) edges ≡ true
    → LeadTo edges (opened s port) b
LeadTo-opened edges s port b h k a v o = elim (Bool-cases (contains a s.visit)) [
  | inl old ↦ Follows-snoc (h a old o) k
  | inr new ↦
      let same : port ≡ a =
        ground (arith, contains-append a s.visit (port ∷ []), String_equality.same_iff port a) in
      one (rw (← same) k)
]

module _ (edges : Edges) (call : Search → String → Result TopoError Search) where
  abbrev Calls : Type 0
  Calls =
      (s t : Search) (port : String)
      → IsSearch edges s
      → call s port ≡ ok t
      → Finishes edges s t port

  abbrev CallsFail : Type 0
  CallsFail =
      (s : Search) (port : String)
      → IsSearch edges s
      → LeadTo edges s port
      → call s port ≡ err cycle
      → HasCycle edges

  visit_each-fails :
      Calls
      → CallsFail
      → (port : String) (l : Edges) (s : Search)
      → ((b : String) → contains (port, b) l ≡ true → contains (port, b) edges ≡ true)
      → IsSearch edges s
      → ((b : String) → contains (port, b) edges ≡ true → LeadTo edges s b)
      → visit_each call port l s ≡ err cycle
      → HasCycle edges
  unfolding visit_each
  visit_each-fails calls fails port [] s inside h lead e = absurd (cc)
  visit_each-fails calls fails port ((a, b) ∷ l) s inside h lead e =
      elim (Bool-cases (String_equality.same port a)) [
        | inl m ↦
            let edge : contains (port, b) edges ≡ true = inside b (
              ground (
                arith,
                String_equality.same_iff port a,
                String_equality.same_iff a port,
                String_equality.same_iff b b,
              )) in
            elim (err-of_bind (call s b) (visit_each call port l) (rw (m, visit_each) at e)) [
              | inl f ↦ fails s b h (lead b edge) f
              | inr (t, p, q) ↦
                  let first = calls s t b h p in
                  visit_each-fails calls fails port l t
                    (λ c k. inside c (
                      ground
                        (arith, String_equality.same_iff port a, String_equality.same_iff a port)))
                    first.search (λ c k. LeadTo-Extends edges s t c first.extends (lead c k)) q
            ]
        | inr m ↦
            visit_each-fails calls fails port l s
              (λ c k.
                inside c (
                  ground (arith, String_equality.same_iff port a, String_equality.same_iff a port)))
              h lead (rw (m, visit_each) at e)
      ]

topo_sort-fails :
    (fuel : ℕ) (edges : Edges) (s : Search) (port : String)
    → IsSearch edges s
    → LeadTo edges s port
    → topo_sort fuel edges s port ≡ err cycle
    → HasCycle edges
unfolding topo_sort
topo_sort-fails zero edges s port h lead e = absurd (cc)
topo_sort-fails (suc fuel) edges s port h lead e = elim (Bool-cases (contains port s.order)) [
  | inl done ↦ absurd (ground (arith, done))
  | inr new ↦ elim (Bool-cases (contains port s.visit)) [
    | inl open_port ↦ (port, lead port open_port new)
    | inr fresh ↦
        elim (err-of_bind (visit_each (topo_sort fuel edges) port edges (opened s port)) _
          (rw (new, fresh, topo_sort) at e)) [
            | inl f ↦
                visit_each-fails edges (topo_sort fuel edges)
                  (λ s t q. topo_sort-Finishes fuel edges s t q)
                  (λ s q. topo_sort-fails fuel edges s q) port edges (opened s port) (λ b k. k)
                  (IsSearch-opened edges s s port h) (λ b k. LeadTo-opened edges s port b lead k) f
            | inr (t, p, q) ↦ absurd (cc)
          ]
  ]
]

sort_each-fails :
    (fuel : ℕ) (edges : Edges) (l : List String) (s : Search)
    → IsSearch edges s
    → ((a : String) → contains a s.visit ≡ true → contains a s.order ≡ true)
    → sort_each fuel edges l s ≡ err cycle
    → HasCycle edges
unfolding sort_each
sort_each-fails fuel edges [] s h all e = absurd (cc)
sort_each-fails fuel edges (port ∷ l) s h all e =
    elim (err-of_bind (topo_sort fuel edges s port) (sort_each fuel edges l) e) [
      | inl f ↦ topo_sort-fails fuel edges s port h (λ a v o. absurd (ground (arith, all a v))) f
      | inr (t, p, q) ↦
          let first = topo_sort-Finishes fuel edges s t port h p in
          sort_each-fails fuel edges l t first.search
            (λ a v. ground (arith, first.extends.finishes a v, first.extends.keeps_order a, all a))
            q
    ]

-- `order_function_calls` raises its exception only if some port must be called before itself.
pub order_function_calls_fails :
    (edges : Edges) (ports : List String)
    → order_function_calls edges ports ≡ err cycle
    → (a : String) × Follows edges a a
unfolding order_function_calls
order_function_calls_fails [] ports h = absurd (cc)
order_function_calls_fails (e ∷ edges) ports h =
    elim (err-of_bind (sort_each (depth (e ∷ edges) ports) (e ∷ edges) (reverse ports) start) _ h) [
      | inl f ↦
          sort_each-fails (depth (e ∷ edges) ports) (e ∷ edges) (reverse ports) start
            (IsSearch-start (e ∷ edges)) (λ a v. cc) f
      | inr (t, p, q) ↦ absurd (cc)
    ]

-- In an ordered list a pair leads from a port to one that stands behind it.
contains-edge :
    (edges : Edges) (l : List String) (a b : String)
    → IsOrdered edges l
    → contains a l ≡ true
    → contains (a, b) edges ≡ true
    → contains b l ≡ true
contains-edge edges [] a b h m k = cc
contains-edge edges (x ∷ l) a b h m k = ground (
  arith,
  String_equality.same_iff x a,
  λ (e : x ≡ a). ap (λ y. contains (y, b) edges) e,
  h.0 b,
  contains-edge edges l a b h.1,
)

contains-Follows :
    (edges : Edges) (l : List String) {a b : String}
    → IsOrdered edges l
    → contains a l ≡ true
    → Follows edges a b
    → contains b l ≡ true
contains-Follows edges l {a} {b} h m (one k) = contains-edge edges l a b h m k
contains-Follows edges l {a} h m (more {b = c} k f) =
    contains-Follows edges l h (contains-edge edges l a c h m k) f

contains-Follows-tail :
    (edges : Edges) (l : List String) {a b : String}
    → IsOrdered edges (a ∷ l)
    → Follows edges a b
    → contains b l ≡ true
contains-Follows-tail edges l {a} {b} h (one k) = h.0 b k
contains-Follows-tail edges l {a} h (more {b = c} k f) = contains-Follows edges l h.1 (h.0 c k) f

not-Follows-self :
    (edges : Edges) (l : List String) (a : String)
    → IsOrdered edges l
    → IsDistinct l
    → contains a l ≡ true
    → ¬ Follows edges a a
not-Follows-self edges [] a h d m f = cc
not-Follows-self edges (x ∷ l) a h d m f = elim (Bool-cases (String_equality.same x a)) [
  | inl e ↦
      let same : x ≡ a = (String_equality.same_iff x a).0 e in
      let behind =
        contains-Follows-tail edges l {a = a} (subst (λ y. IsOrdered edges (y ∷ l)) same h) f in
      let apart : contains a l ≡ false = subst (λ y. contains y l ≡ false) same d.0 in cc
  | inr e ↦ not-Follows-self edges l a h.1 d.1 (ground (arith, e)) f
]

-- If `order_function_calls` returns, no output port of the instance must be called before itself.
pub order_function_calls_acyclic :
    (edges : Edges) (ports r : List String) (a : String)
    → order_function_calls edges ports ≡ ok r
    → contains a ports ≡ true
    → ¬ Follows edges a a
order_function_calls_acyclic [] ports r a h m (one k) = cc
order_function_calls_acyclic [] ports r a h m (more k f) = cc
order_function_calls_acyclic (e ∷ edges) ports r a h m f =
    let (ordered, distinct, found) = order_function_calls_sorts e edges ports r h in
    not-Follows-self (e ∷ edges) r a ordered distinct
      (contains-All (λ a. contains a r ≡ true) a ports found m) f
