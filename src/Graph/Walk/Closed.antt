-- ===== src/Graph/Walk/Closed.antt =====
-- What a call of `collect` adds to the set: instances that satisfy any property which holds of the
-- root and follows the connections; and with each instance those that it leads to.
use floem.Prelude.{
  ℕ, zero, suc, String, ◌≡◌, ap, sym, ◌∙◌, subst, ◌⊎◌, inl, inr, Bool, true, false, not, ◌&&◌, none,
  some, List, [], ◌∷◌, ◌++◌, arith, String_equality, Result, ok, ok-of_bind, ok-injective, get,
  contains, contains-append, Bool-cases, Option-cases,
}
use floem.Graph.{GraphError, Node, Graph}
use floem.Graph.Walk.{targets, collect_each, collect}

-- Some output port of the first instance leads to the second.
abbrev pub leads_to : Graph → String → String → Bool
leads_to g n m = elim (get g.instances n) [ none ↦ false | some i ↦ contains m (targets i) ]

abbrev pub is_wanted : Graph → (Node → Bool) → String → Bool
is_wanted g wanted n = elim (get g.instances n) [ none ↦ false | some i ↦ wanted i ]

-- Each instance is stored under its name.
pub record IsNamed (g : Graph) : Type 0 where
  pub at_key : (k : String) (i : Node) → get g.instances k ≡ some i → i.name ≡ k

module _ (g : Graph) (wanted : Node → Bool) (P : String → Type 0) where
  pub record Collects (s r : List String) : Type 0 where
    pub grows : (x : String) → contains x s ≡ true → contains x r ≡ true
    pub closed :
        (x y : String)
        → contains x r ≡ true
        → contains x s ≡ false
        → leads_to g x y ≡ true
        → is_wanted g wanted y ≡ true
        → contains y r ≡ true
    pub sound :
        (x : String)
        → contains x r ≡ true
        → contains x s ≡ false
        → P x × (is_wanted g wanted x ≡ true)

  Collects-refl : (s : List String) → Collects s s
  Collects-refl s = record { grows = λ x h. h; closed = λ x y h k. cc; sound = λ x h k. cc }

  Collects-trans : (s t r : List String) → Collects s t → Collects t r → Collects s r
  Collects-trans s t r h k = record {
    grows = λ x m. k.grows x (h.grows x m);
    closed = λ x y m n e w. elim (Bool-cases (contains x t)) [
      | inl a ↦ k.grows y (h.closed x y a n e w)
      | inr a ↦ k.closed x y m a e w
    ];
    sound =
        λ x m n. elim (Bool-cases (contains x t)) [ inl a ↦ h.sound x a n | inr a ↦ k.sound x m a ];
  }

  abbrev Calls : (String → List String → Result GraphError (List String)) → Type 0
  Calls call =
      (n : String) (s r : List String)
      → P n
      → call n s ≡ ok r
      → Collects s r × (is_wanted g wanted n ≡ true → contains n r ≡ true)

  collect_each-Collects :
      (call : String → List String → Result GraphError (List String))
      → Calls call
      → (l s r : List String) → ((n : String) → contains n l ≡ true → P n)
      → collect_each call l s ≡ ok r
      → Collects s r
        × ((n : String) → contains n l ≡ true → is_wanted g wanted n ≡ true → contains n r ≡ true)
  unfolding collect_each
  collect_each-Collects call calls [] s r p h =
      (subst (Collects s) (ok-injective h) (Collects-refl s), λ n m. cc)
  collect_each-Collects call calls (n ∷ l) s r p h =
      let (t, a, b) = ok-of_bind (call n s) (collect_each call l) h in
      let (first, here) = calls n s t (p n (ground (arith, String_equality.same_iff n n))) a in
      let (rest, there) =
        collect_each-Collects call calls l t r (λ x m. p x (ground (arith, m))) b in
      (
        Collects-trans s t r first rest,
        λ x m w. elim (Bool-cases (String_equality.same n x)) [
          | inl e ↦
              let same = (String_equality.same_iff n x).0 e in
              subst (λ y. contains y r ≡ true) same
                (rest.grows n (here (subst (λ y. is_wanted g wanted y ≡ true) (sym same) w)))
          | inr e ↦ there x (ground (arith, m, e)) w
        ],
      )

  -- What one call did, where it returned.
  collect-cases :
      (fuel : ℕ) (root : String) (s r : List String)
      → collect wanted (suc fuel) g root s ≡ ok r
      → (i : Node) × (get g.instances root ≡ some i)
        × (((not (contains i.name s) && wanted i) ≡ true)
              × (collect_each (collect wanted fuel g) (targets i) (s ++ i.name ∷ []) ≡ ok r)
            ⊎ ((not (contains i.name s) && wanted i) ≡ false) × (s ≡ r))
  unfolding collect
  collect-cases fuel root s r h = elim (Option-cases (get g.instances root)) [
    | inl e ↦ absurd (ground (arith, e))
    | inr (i, e) ↦ elim (Bool-cases (not (contains i.name s) && wanted i)) [
      | inl t ↦ (i, e, inl (t, rw (e, t, collect) at h))
      | inr t ↦ (i, e, inr (t, ok-injective (rw (e, t, collect) at h)))
    ]
  ]

  module _ (named : IsNamed g)
      (follow : (n m : String)
        → P n
        → is_wanted g wanted n ≡ true
        → leads_to g n m ≡ true
        → P m) where
    Collects-deeper :
        (root : String) (i : Node) (s r : List String)
        → P root
        → get g.instances root ≡ some i
        → (not (contains i.name s) && wanted i) ≡ true
        → Collects (s ++ i.name ∷ []) r
        → ((n : String)
            → contains n (targets i) ≡ true
            → is_wanted g wanted n ≡ true
            → contains n r ≡ true)
        → Collects s r × (contains root r ≡ true)
    Collects-deeper root i s r p found t c all =
        let name : i.name ≡ root = named.at_key root i found in
        let snoc = λ (x : String). contains-append x s (i.name ∷ []) in
        let is_root = λ (x : String). String_equality.same_iff i.name x in
        (
          record {
            grows = λ x m. ground (arith, snoc x, c.grows x, m);
            closed = λ x y m n e w. elim (Bool-cases (String_equality.same i.name x)) [
              | inl q ↦
                  all y
                    (ground (
                      arith,
                      found,
                      e,
                      sym name ∙ (is_root x).0 q,
                      λ (a : root ≡ x). ap (get g.instances) a,
                    ))
                    w
              | inr q ↦ c.closed x y m (ground (arith, snoc x, n, q)) e w
            ];
            sound = λ x m n. elim (Bool-cases (String_equality.same i.name x)) [
              | inl q ↦
                  let at_root : root ≡ x = sym name ∙ (is_root x).0 q in
                  (
                    subst P at_root p,
                    subst (λ y. is_wanted g wanted y ≡ true) at_root (ground (arith, found, t)),
                  )
              | inr q ↦ c.sound x m (ground (arith, snoc x, n, q))
            ];
          },
          c.grows root (ground (arith, snoc root, is_root root, name)),
        )

    pub collect-Collects :
        (fuel : ℕ) (root : String) (s r : List String)
        → P root
        → collect wanted fuel g root s ≡ ok r
        → Collects s r × (is_wanted g wanted root ≡ true → contains root r ≡ true)
    collect-Collects zero root s r p h = absurd (unfold collect in cc)
    collect-Collects (suc fuel) root s r p h =
        let (i, found, cases) = collect-cases fuel root s r h in
        elim cases [
          | inl (t, e) ↦
              let (c, all) =
                collect_each-Collects (collect wanted fuel g)
                  (λ n s r q. collect-Collects fuel n s r q) (targets i) (s ++ i.name ∷ []) r
                  (λ n m. follow root n p (ground (arith, found, t)) (ground (arith, found, m)))
                  e in
              let (d, here) = Collects-deeper root i s r p found t c all in (d, λ w. here)
          | inr (t, e) ↦ (
            subst (Collects s) e (Collects-refl s),
            λ w.
                subst (λ l. contains root l ≡ true) e
                  (ground (arith, found, t, w, ap (λ x. contains x s) (named.at_key root i found))),
          )
        ]
