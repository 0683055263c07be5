-- ===== src/Topo/Ends.antt =====
-- `order_function_calls` ends: each nested call visits a port that was not visited.
use mathlib.Core.List.{reverse}
use floem.Prelude.{
  ℕ, zero, suc, ◌+◌, ◌≤◌, ◌<◌, String, ◌≡◌, ◌≢◌, refl, ap, subst, inl, inr, true, false, List, [],
  ◌∷◌, ◌++◌, map, arith, String_equality, ×_equality, Bool-cases, contains, contains-append,
  contains-reverse, IsDistinct, IsDistinct-snoc, length, length-append, length-le_of_subset, Result,
  ok, err, ok-of_bind, err-of_bind, ok-injective,
}
use floem.Topo.Visit.{opened, topo_sort-cases}
use floem.Topo.{
  Edges, Search, TopoError, out_of_fuel, start, visit_each, topo_sort, sort_each, depth,
  order_function_calls,
}

-- All ports that a call may meet.
abbrev seconds : Edges → List String
seconds = map (λ e. e.1)

-- The visited ports are a set of the ports in `all`.
record IsWithin (all : List String) (s : Search) : Type 0 where
  distinct : IsDistinct s.visit
  within : (a : String) → contains a s.visit ≡ true → contains a all ≡ true

record Grows (all : List String) (s t : Search) : Type 0 where
  within : IsWithin all t
  grows : length s.visit ≤ length t.visit

module _ (all : List String) (call : Search → String → Result TopoError Search) where
  abbrev CallsGrow : Type 0
  CallsGrow =
      (s t : Search) (b : String)
      → IsWithin all s
      → contains b all ≡ true
      → call s b ≡ ok t
      → Grows all s t

  visit_each-Grows :
      CallsGrow
      → (port : String) (l : Edges) (s t : Search)
      → ((b : String) → contains (port, b) l ≡ true → contains b all ≡ true)
      → IsWithin all s
      → visit_each call port l s ≡ ok t
      → Grows all s t
  unfolding visit_each
  visit_each-Grows calls port [] s t inside h e =
      subst (Grows all s) (ok-injective e) (record { within = h; grows = omega arith })
  visit_each-Grows calls port ((a, b) ∷ l) s t inside h e =
      elim (Bool-cases (String_equality.same port a)) [
        | inl m ↦
            let (u, p, q) =
              ok-of_bind (call s b) (visit_each call port l) (rw (m, visit_each) at e) in
            let first =
              calls s u b h
                (inside b (
                  ground (
                    arith,
                    String_equality.same_iff port a,
                    String_equality.same_iff a port,
                    String_equality.same_iff b b,
                  )))
                p in
            let rest =
              visit_each-Grows calls port l u t (λ c k. inside c (ground (arith, k))) first.within
                q in
            record { within = rest.within; grows = omega (arith, first.grows, rest.grows) }
        | inr m ↦
            visit_each-Grows calls port l s t (λ c k. inside c (ground (arith, k))) h
              (rw (m, visit_each) at e)
      ]

  visit_each-ends :
      CallsGrow
      → (room : ℕ)
      → ((s : Search) (b : String)
          → IsWithin all s
          → contains b all ≡ true
          → room ≤ length s.visit
          → call s b ≢ err out_of_fuel)
      → (port : String) (l : Edges) (s : Search)
      → ((b : String) → contains (port, b) l ≡ true → contains b all ≡ true)
      → IsWithin all s
      → room ≤ length s.visit
      → visit_each call port l s ≢ err out_of_fuel
  unfolding visit_each
  visit_each-ends calls room ends port [] s inside h r e = cc
  visit_each-ends calls room ends port ((a, b) ∷ l) s inside h r e =
      elim (Bool-cases (String_equality.same port a)) [
        | inl m ↦
            let b_in = inside b (
              ground (
                arith,
                String_equality.same_iff port a,
                String_equality.same_iff a port,
                String_equality.same_iff b b,
              )) in
            elim (err-of_bind (call s b) (visit_each call port l) (rw (m, visit_each) at e)) [
              | inl f ↦ ends s b h b_in r f
              | inr (u, p, q) ↦
                  let first = calls s u b h b_in p in
                  visit_each-ends calls room ends port l u (λ c k. inside c (ground (arith, k)))
                    first.within (omega (arith, first.grows)) q
            ]
        | inr m ↦
            visit_each-ends calls room ends port l s (λ c k. inside c (ground (arith, k))) h r
              (rw (m, visit_each) at e)
      ]

topo_sort-out_of_fuel :
    (fuel : ℕ) (edges : Edges) (s : Search) (port : String)
    → topo_sort (suc fuel) edges s port ≡ err out_of_fuel
    → (contains port s.visit ≡ false)
      × (visit_each (topo_sort fuel edges) port edges (opened s port) ≡ err out_of_fuel)
unfolding topo_sort
topo_sort-out_of_fuel fuel edges s port h = ground arith

module _ (all : List String) (edges : Edges)
    (inside : (a b : String) → contains (a, b) edges ≡ true → contains b all ≡ true) where
  IsWithin-opened :
      (s : Search) (port : String)
      → IsWithin all s
      → contains port all ≡ true
      → contains port s.visit ≡ false
      → IsWithin all (opened s port)
  IsWithin-opened s port h m fresh = record {
    distinct = IsDistinct-snoc s.visit port h.distinct fresh;
    within = λ a v. ground (
      arith,
      contains-append a s.visit (port ∷ []),
      String_equality.same_iff port a,
      λ (e : port ≡ a). ap (λ x. contains x all) e,
      h.within a,
    );
  }

  topo_sort-Grows :
      (fuel : ℕ) (s t : Search) (port : String)
      → IsWithin all s
      → contains port all ≡ true
      → topo_sort fuel edges s port ≡ ok t
      → Grows all s t
  topo_sort-Grows zero s t port h m e = absurd (unfold topo_sort in cc)
  topo_sort-Grows (suc fuel) s t port h m e = elim (topo_sort-cases fuel edges s t port e) [
    | inl (done, same) ↦ subst (Grows all s) same (record { within = h; grows = omega arith })
    | inr (u, new, fresh, p, same) ↦
        let deeper =
          visit_each-Grows all (topo_sort fuel edges) (λ s t b. topo_sort-Grows fuel s t b) port
            edges (opened s port) u (λ b k. inside port b k) (IsWithin-opened s port h m fresh) p in
        subst (Grows all s) same (record {
          within = record { distinct = deeper.within.distinct; within = deeper.within.within };
          grows = omega (arith, deeper.grows, length-append s.visit (port ∷ []));
        })
  ]

  topo_sort-ends :
      (fuel : ℕ) (s : Search) (port : String)
      → IsWithin all s
      → contains port all ≡ true
      → length all < fuel + length s.visit
      → topo_sort fuel edges s port ≢ err out_of_fuel
  topo_sort-ends zero s port h m r e =
      absurd (omega (arith, length-le_of_subset s.visit all h.distinct h.within))
  topo_sort-ends (suc fuel) s port h m r e =
      let (fresh, f) = topo_sort-out_of_fuel fuel edges s port e in
      visit_each-ends all (topo_sort fuel edges) (λ s t b. topo_sort-Grows fuel s t b)
        (suc (length s.visit)) (λ v b k n q. topo_sort-ends fuel v b k n (omega arith)) port edges
        (opened s port) (λ b k. inside port b k) (IsWithin-opened s port h m fresh)
        (omega (arith, length-append s.visit (port ∷ []))) f

  sort_each-ends :
      (fuel : ℕ) (l : List String) (s : Search)
      → IsWithin all s
      → ((a : String) → contains a l ≡ true → contains a all ≡ true)
      → length all < fuel + length s.visit
      → sort_each fuel edges l s ≢ err out_of_fuel
  unfolding sort_each
  sort_each-ends fuel [] s h m r e = cc
  sort_each-ends fuel (port ∷ l) s h m r e =
      let here = m port (ground (arith, String_equality.same_iff port port)) in
      elim (err-of_bind (topo_sort fuel edges s port) (sort_each fuel edges l) e) [
        | inl f ↦ topo_sort-ends fuel s port h here r f
        | inr (t, p, q) ↦
            let first = topo_sort-Grows fuel s t port h here p in
            sort_each-ends fuel l t first.within (λ a k. m a (ground (arith, k)))
              (omega (arith, first.grows)) q
      ]

contains-seconds :
    (edges : Edges) (a b : String)
    → contains (a, b) edges ≡ true
    → contains b (seconds edges) ≡ true
contains-seconds [] a b h = cc
contains-seconds ((c, d) ∷ edges) a b h =
    ground (arith, String_equality.same_iff d b, contains-seconds edges a b)

length-seconds : (edges : Edges) → length (seconds edges) ≡ length edges
length-seconds [] = refl
length-seconds (e ∷ edges) = ap suc (length-seconds edges)

-- `order_function_calls` returns an order or raises: its nested calls end.
pub order_function_calls_ends :
    (edges : Edges) (ports : List String) → order_function_calls edges ports ≢ err out_of_fuel
unfolding order_function_calls
order_function_calls_ends [] ports h = cc
order_function_calls_ends (e ∷ edges) ports h =
    let es = e ∷ edges in
    let all = ports ++ seconds es in
    elim (err-of_bind (sort_each (depth es ports) es (reverse ports) start) _ h) [
      | inl f ↦
          sort_each-ends all es
            (λ a b k.
              ground (arith, contains-append b ports (seconds es), contains-seconds es a b k))
            (depth es ports) (reverse ports) start (record { distinct = tt; within = λ a k. cc })
            (λ a k. ground (arith, contains-append a ports (seconds es), contains-reverse a ports))
            (omega (arith, length-append ports (seconds es), length-seconds edges)) f
      | inr (t, p, q) ↦ absurd (cc)
    ]
