-- ===== src/Topo/Visit.antt =====
-- What one call of `topo_sort` does to the two lists: the finished ports and the visited ports.
use mathlib.Core.List.{reverse, reverse-append}
use floem.Prelude.{
  ℕ, zero, suc, String, ◌≡◌, refl, ap, subst, ◌⊎◌, inl, inr, true, false, List, [], ◌∷◌, ◌++◌,
  arith, String_equality, ×_equality, Bool-cases, contains, contains-append, contains-reverse,
  IsDistinct, IsDistinct-append, Result, ok, ok-of_bind, ok-injective,
}
use floem.Topo.{Edges, Search, TopoError, visit_each, topo_sort}

-- Whoever must be called after a port of the list stands behind it.
abbrev pub IsOrdered : Edges → List String → Type 0
IsOrdered edges [] = Unit
IsOrdered edges (a ∷ l) =
    ((b : String) → contains (a, b) edges ≡ true → contains b l ≡ true) × IsOrdered edges l

-- Finished ports are visited, once each, after all that must be called after them.
pub record IsSearch (edges : Edges) (s : Search) : Type 0 where
  pub visited : (a : String) → contains a s.order ≡ true → contains a s.visit ≡ true
  pub distinct : IsDistinct s.order
  pub ordered : IsOrdered edges (reverse s.order)

-- From `s` to `t` ports are visited and all of them finished; nothing else changes.
pub record Extends (s t : Search) : Type 0 where
  pub keeps_order : (a : String) → contains a s.order ≡ true → contains a t.order ≡ true
  pub keeps_visit : (a : String) → contains a s.visit ≡ true → contains a t.visit ≡ true
  pub finishes :
      (a : String)
      → contains a t.visit ≡ true
      → contains a s.visit ≡ false
      → contains a t.order ≡ true
  pub leaves_open :
      (a : String)
      → contains a s.visit ≡ true
      → contains a s.order ≡ false
      → contains a t.order ≡ false

pub Extends-refl : (s : Search) → Extends s s
Extends-refl s = record {
  keeps_order = λ a h. h;
  keeps_visit = λ a h. h;
  finishes = λ a h k. cc;
  leaves_open = λ a h k. k;
}

pub Extends-trans : (s t u : Search) → Extends s t → Extends t u → Extends s u
Extends-trans s t u h k = record {
  keeps_order = λ a m. k.keeps_order a (h.keeps_order a m);
  keeps_visit = λ a m. k.keeps_visit a (h.keeps_visit a m);
  finishes = λ a m n. ground (arith, h.finishes a, k.finishes a, k.keeps_order a);
  leaves_open = λ a m n. k.leaves_open a (h.keeps_visit a m) (h.leaves_open a m n);
}

-- What a returning call of `topo_sort` on a port ensures.
pub record Finishes (edges : Edges) (s t : Search) (port : String) : Type 0 where
  pub search : IsSearch edges t
  pub extends : Extends s t
  pub finished : contains port t.order ≡ true

module _ (edges : Edges) (call : Search → String → Result TopoError Search) where
  abbrev pub Calls : Type 0
  Calls =
      (s t : Search) (port : String)
      → IsSearch edges s
      → call s port ≡ ok t
      → Finishes edges s t port

  visit_each-Extends :
      Calls
      → (port : String) (l : Edges) (s t : Search) → IsSearch edges s
      → visit_each call port l s ≡ ok t
      → IsSearch edges t
        × Extends s t
        × ((b : String) → contains (port, b) l ≡ true → contains b t.order ≡ true)
  unfolding visit_each
  visit_each-Extends calls port [] s t h e =
      let same : s ≡ t = ok-injective e in
      (subst (IsSearch edges) same h, subst (Extends s) same (Extends-refl s), λ b m. cc)
  visit_each-Extends calls port ((a, b) ∷ l) s t h e =
      elim (Bool-cases (String_equality.same port a)) [
        | inl m ↦
            let (u, p, q) =
              ok-of_bind (call s b) (visit_each call port l) (rw (m, visit_each) at e) in
            let first = calls s u b h p in
            let (search, extends, found) = visit_each-Extends calls port l u t first.search q in
            (
              search,
              Extends-trans s u t first.extends extends,
              λ c k. ground (
                arith,
                String_equality.same_iff b c,
                ap (λ x. contains x t.order) {x = b} {y = c},
                extends.keeps_order b first.finished,
                found c,
              ),
            )
        | inr m ↦
            let (search, extends, found) =
              visit_each-Extends calls port l s t h (rw (m, visit_each) at e) in
            (
              search,
              extends,
              λ c k. ground (
                arith,
                String_equality.same_iff a port,
                String_equality.same_iff port a,
                found c,
              ),
            )
      ]

abbrev pub opened : Search → String → Search
opened s port = record s { visit = s.visit ++ port ∷ [] }

abbrev pub closed : Search → String → Search
closed t port = record t { order = t.order ++ port ∷ [] }

pub topo_sort-cases :
    (fuel : ℕ) (edges : Edges) (s t : Search) (port : String)
    → topo_sort (suc fuel) edges s port ≡ ok t
    → ((contains port s.order ≡ true) × (s ≡ t))
      ⊎ ((u : Search) × (contains port s.order ≡ false)
          × (contains port s.visit ≡ false)
          × (visit_each (topo_sort fuel edges) port edges (opened s port) ≡ ok u)
          × (closed u port ≡ t))
unfolding topo_sort
topo_sort-cases fuel edges s t port h = elim (Bool-cases (contains port s.order)) [
  | inl done ↦ inl (done, ok-injective (rw (done, topo_sort) at h))
  | inr new ↦ elim (Bool-cases (contains port s.visit)) [
    | inl open_port ↦ absurd (ground (arith, new, open_port))
    | inr fresh ↦
        let (u, p, q) =
          ok-of_bind (visit_each (topo_sort fuel edges) port edges (opened s port)) _
            (rw (new, fresh, topo_sort) at h) in
        inr (u, new, fresh, p, ok-injective q)
  ]
]

module _ (edges : Edges) (s u : Search) (port : String) where
  pub IsSearch-opened : IsSearch edges s → IsSearch edges (opened s port)
  IsSearch-opened h = record {
    visited = λ a m. ground (arith, contains-append a s.visit (port ∷ []), h.visited a m);
    distinct = h.distinct;
    ordered = h.ordered;
  }

  Finishes-closed :
      contains port s.order ≡ false
      → contains port s.visit ≡ false
      → IsSearch edges u
      → Extends (opened s port) u
      → ((b : String) → contains (port, b) edges ≡ true → contains b u.order ≡ true)
      → Finishes edges s (closed u port) port
  Finishes-closed new fresh h x found =
      let seen : contains port (opened s port).visit ≡ true =
        ground
          (arith, contains-append port s.visit (port ∷ []), String_equality.same_iff port port) in
      let still_open : contains port u.order ≡ false = x.leaves_open port seen new in
      record {
        search = record {
          visited = λ a m. ground (
            arith,
            contains-append a s.visit (port ∷ []),
            contains-append a u.order (port ∷ []),
            h.visited a,
            x.keeps_visit a,
          );
          distinct =
              IsDistinct-append u.order (port ∷ []) h.distinct (refl, tt)
                (λ a m. ground (
                  arith,
                  String_equality.same_iff port a,
                  λ (e : port ≡ a). ap (λ x. contains x u.order) e,
                ));
          ordered =
              rw (reverse-append u.order (port ∷ []))
                (λ b m. rw contains-reverse (found b m), h.ordered);
        };
        extends = record {
          keeps_order =
              λ a m. ground (arith, contains-append a u.order (port ∷ []), x.keeps_order a m);
          keeps_visit =
              λ a m. ground (arith, contains-append a s.visit (port ∷ []), x.keeps_visit a);
          finishes = λ a m n. ground (
            arith,
            contains-append a s.visit (port ∷ []),
            contains-append a u.order (port ∷ []),
            x.finishes a m,
          );
          leaves_open = λ a m n. ground (
            arith,
            contains-append a s.visit (port ∷ []),
            contains-append a u.order (port ∷ []),
            x.leaves_open a,
            String_equality.same_iff port a,
            λ (e : port ≡ a). ap (λ x. contains x s.visit) e,
          );
        };
        finished =
            ground
              (arith, contains-append port u.order (port ∷ []), String_equality.same_iff port port);
      }

pub topo_sort-Finishes :
    (fuel : ℕ) (edges : Edges) (s t : Search) (port : String)
    → IsSearch edges s
    → topo_sort fuel edges s port ≡ ok t
    → Finishes edges s t port
topo_sort-Finishes zero edges s t port h e = absurd (unfold topo_sort in cc)
topo_sort-Finishes (suc fuel) edges s t port h e = elim (topo_sort-cases fuel edges s t port e) [
  | inl (done, same) ↦
      subst (λ (t : Search). Finishes edges s t port) same
        (record { search = h; extends = Extends-refl s; finished = done })
  | inr (u, new, fresh, p, same) ↦
      let (search, extends, found) =
        visit_each-Extends edges (topo_sort fuel edges)
          (λ s t q. topo_sort-Finishes fuel edges s t q) port edges (opened s port) u
          (IsSearch-opened edges s u port h) p in
      subst (λ (t : Search). Finishes edges s t port) same
        (Finishes-closed edges s u port new fresh search extends found)
]
