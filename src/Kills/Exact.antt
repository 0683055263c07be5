-- ===== src/Kills/Exact.antt =====
-- What `join_collect_killset` of floem/pipeline_state.py collects: the fields that are defined on a
-- walk between the first instance and the join instance.
use floem.Prelude.{
  ℕ, zero, suc, String, ◌≡◌, ◌↔◌, ◌⊎◌, sym, ap, subst, ◌∙◌, true, false, Option, none, some, List,
  [], ◌∷◌, ◌==◌, arith, String_equality, Result, ok, ok-of_bind, ok-injective, Dict, get, get-All,
  All-put, All, set_union, contains, contains-set_union, Bool-cases, Option-cases, inl, inr,
}
use floem.Graph.{Fire, all, one, multi, zero_or_one, InPort, Node, Graph}
use floem.Kills.{
  KillError, node_of, next_kills, kills_of_all, kills_of_one, kills_of_fire, entries,
  join_collect_killset,
}
use floem.Kills.Defined.{Goes, now, after}

-- The firings for which the fields behind an instance count: all output ports, or one.
abbrev pub IsCounted : Option Fire → Type 0
IsCounted (some all) = Unit
IsCounted (some one) = Unit
IsCounted _ = ⊥

module _ (g : Graph) (target : String) (scope : List String) (field : String) where
  -- A walk goes on from an instance that is not the join instance, is in scope, and counts.
  pub record Passes (name : String) (i : Node) : Type 0 where
    pub before_join : (name == target) ≡ false
    pub in_scope : contains name scope ≡ true
    pub there : get g.instances name ≡ some i
    pub counted : IsCounted i.element.output_fire

  -- A walk from the named instance reaches an instance whose element defines the field. All of its
  -- instances but the last are ones from which a walk goes on.
  pub data Defines : String → Type 0 where
    next_defines :
        {name next : String} {i j : Node}
        → Passes name i
        → Goes next (entries i)
        → get g.instances next ≡ some j
        → contains field j.element.defs ≡ true
        → Defines name
    walk_defines :
        {name next : String} {i : Node}
        → Passes name i
        → Goes next (entries i)
        → Defines next
        → Defines name

  -- The element of an instance defines the field, or one behind it does.
  abbrev At : String → Type 0
  At n =
      ((j : Node) × (get g.instances n ≡ some j) × (contains field j.element.defs ≡ true))
      ⊎ Defines n

  abbrev Some : List (String × InPort) → Type 0
  Some l = (n : String) × Goes n l × At n

  Defines-of : (name : String) (i : Node) → Passes name i → Some (entries i) → Defines name
  Defines-of name i p (n, x, inl (j, f, c)) = next_defines p x f c
  Defines-of name i p (n, x, inr w) = walk_defines p x w

  Some-of : (name : String) → Defines name → (i : Node) × Passes name i × Some (entries i)
  Some-of name (next_defines p x f c) = (_, p, (_, x, inl (_, f, c)))
  Some-of name (walk_defines p x w) = (_, p, (_, x, inr w))

  nothing_behind : Some [] → ⊥
  nothing_behind (n, x, a) = elim x [ ]

  Some-cases :
      (n : String) (port : InPort) (l : List (String × InPort))
      → Some ((n, port) ∷ l)
      → At n ⊎ Some l
  Some-cases n port l (m, now, a) = inl a
  Some-cases n port l (m, after x, a) = inr (m, x, a)

  Some-later : (x : String × InPort) (l : List (String × InPort)) → Some l → Some (x ∷ l)
  Some-later x l (n, y, a) = (n, after y, a)

  abbrev IsExact : Dict (List String) → Type 0
  IsExact d = All (λ p. (contains field p.1 ≡ true) ↔ Defines p.0) d

  abbrev Answer : Type 0 → List String × Dict (List String) → Type 0
  Answer P r = IsExact r.1 × ((contains field r.0 ≡ true) ↔ P)

  abbrev Calls :
      (String → Dict (List String) → Result KillError (List String × Dict (List String))) → Type 0
  Calls call =
      (n : String) (d : Dict (List String)) (r : List String × Dict (List String))
      → IsExact d
      → call n d ≡ ok r
      → Answer (Defines n) r

  module _
      (call : String → Dict (List String) → Result KillError (List String × Dict (List String)))
      (calls : Calls call) where
    next_kills-At :
        (next : String) (d : Dict (List String)) (r : List String × Dict (List String))
        → IsExact d
        → next_kills call g next d ≡ ok r
        → Answer (At next) r
    unfolding next_kills
    next_kills-At next d r w h =
        let (j, f, h1) = ok-of_bind (node_of g next) _ h in
        let ((m, u), a, b) = ok-of_bind (call next d) _ h1 in
        let (v, walk) = calls next d (m, u) w a in
        let there = node_of-some next j f in
        let both = contains-set_union field j.element.defs m in
        subst (Answer (At next)) (ok-injective b) (
          v,
          (
            λ c. elim (Bool-cases (contains field j.element.defs)) [
              | inl q ↦ inl (j, there, q)
              | inr q ↦ inr (walk.0 (ground (arith, q, c, both)))
            ],
            λ x. elim x [
              | inl (i, e, c) ↦
                  let same : i ≡ j = some_same i j (sym e ∙ there) in
                  let c' : contains field j.element.defs ≡ true =
                    subst (λ (n : Node). contains field n.element.defs ≡ true) same c in
                  ground (arith, c', both)
              | inr z ↦ let c = walk.1 z in ground (arith, c, both)
            ],
          ),
        )
      where
        node_of-some : (n : String) (j : Node) → node_of g n ≡ ok j → get g.instances n ≡ some j
        node_of-some n j h = elim (Option-cases (get g.instances n)) [
          | inl e ↦ absurd (ground (arith, rw (e, node_of) at h))
          | inr (i, e) ↦ e ∙ ap some (ok-injective (rw (e, node_of) at h))
        ]

        some_same : (i j : Node) → some i ≡ some j → i ≡ j
        some_same i j h = cc

    kills_of_all-Some :
        (l : List (String × InPort)) (kills : List String) (d : Dict (List String))
        (r : List String × Dict (List String))
        → IsExact d
        → kills_of_all call g l kills d ≡ ok r
        → Answer ((contains field kills ≡ true) ⊎ Some l) r
    unfolding kills_of_all
    kills_of_all-Some [] kills d r w h =
        subst (Answer ((contains field kills ≡ true) ⊎ Some [])) (ok-injective h)
          (w, (λ c. inl c, λ x. elim x [ inl c ↦ c | inr s ↦ absurd (nothing_behind s) ]))
    kills_of_all-Some ((next, port) ∷ l) kills d r w h =
        let ((m, u), a, b) = ok-of_bind (next_kills call g next d) _ h in
        let (v, new) = next_kills-At next d (m, u) w a in
        let (z, rest) = kills_of_all-Some l (set_union kills m) u r v b in
        let both = contains-set_union field kills m in
        (
          z,
          (
            λ c. elim (rest.0 c) [
              | inl q ↦ elim (Bool-cases (contains field kills)) [
                | inl y ↦ inl y
                | inr y ↦ inr (next, now, new.0 (ground (arith, q, y, both)))
              ]
              | inr s ↦ inr (Some-later (next, port) l s)
            ],
            λ x. rest.1 (elim x [
              | inl c ↦ inl (ground (arith, c, both))
              | inr s ↦ elim (Some-cases next port l s) [
                | inl y ↦ let c = new.1 y in inl (ground (arith, c, both))
                | inr y ↦ inr y
              ]
            ]),
          ),
        )

    kills_of_one-Some :
        (l : List (String × InPort)) (d : Dict (List String)) (r : List String × Dict (List String))
        → IsExact d
        → kills_of_one call g l true [] d ≡ ok r
        → Answer (Some l) r
    unfolding kills_of_one
    kills_of_one-Some [] d r w h =
        subst (Answer (Some [])) (ok-injective h) (w, (λ c. cc, λ s. absurd (nothing_behind s)))
    kills_of_one-Some ((next, port) ∷ []) d r w h =
        let ((m, u), a, b) = ok-of_bind (next_kills call g next d) _ h in
        let (v, new) = next_kills-At next d (m, u) w a in
        subst (Answer (Some ((next, port) ∷ []))) (ok-injective b) (
          v,
          (
            λ c. (next, now, new.0 c),
            λ s. elim (Some-cases next port [] s) [
              | inl y ↦ new.1 y
              | inr y ↦ absurd (nothing_behind y)
            ],
          ),
        )
    kills_of_one-Some ((next, port) ∷ (last, p) ∷ l) d r w h =
        let ((m, u), a, b) = ok-of_bind (next_kills call g next d) _ h in
        let ((n, z), e, y) = ok-of_bind (next_kills call g last u) _ b in absurd (ground (arith, y))

    not_counted :
        (P : Type 0) (d : Dict (List String)) (r : List String × Dict (List String))
        → IsExact d
        → ◌≡◌ {A = Result KillError (List String × Dict (List String))} (ok ([], d)) (ok r)
        → Answer (⊥ × P) r
    not_counted P d r w h = subst (Answer (⊥ × P)) (ok-injective h) (w, (λ c. cc, λ x. absurd x.0))

    kills_of_fire-Some :
        (fire : Option Fire) (l : List (String × InPort)) (d : Dict (List String))
        (r : List String × Dict (List String))
        → IsExact d
        → kills_of_fire call g fire l d ≡ ok r
        → Answer (IsCounted fire × Some l) r
    unfolding kills_of_fire
    kills_of_fire-Some (some all) l d r w h =
        let (v, e) = kills_of_all-Some l [] d r w h in
        (v, (λ c. elim (e.0 c) [ inl q ↦ cc | inr s ↦ (tt, s) ], λ x. e.1 (inr x.1)))
    kills_of_fire-Some (some one) l d r w h =
        let (v, e) = kills_of_one-Some l d r w h in (v, (λ c. (tt, e.0 c), λ x. e.1 x.1))
    kills_of_fire-Some (some multi) l d r w h = not_counted (Some l) d r w h
    kills_of_fire-Some (some zero_or_one) l d r w h = not_counted (Some l) d r w h
    kills_of_fire-Some none l d r w h = not_counted (Some l) d r w h

  no_walk :
      (name : String) (d : Dict (List String)) (r : List String × Dict (List String))
      → IsExact d
      → (Defines name → ⊥)
      → ◌≡◌ {A = Result KillError (List String × Dict (List String))} (ok ([], d)) (ok r)
      → Answer (Defines name) r
  no_walk name d r w never h =
      subst (Answer (Defines name)) (ok-injective h) (w, (λ c. cc, λ x. absurd (never x)))

  killset-Defines :
      (fuel : ℕ) (name : String) (d : Dict (List String)) (r : List String × Dict (List String))
      → IsExact d
      → join_collect_killset fuel g target scope name d ≡ ok r
      → Answer (Defines name) r
  unfolding join_collect_killset
  killset-Defines zero name d r w h = absurd (ground (arith, h))
  killset-Defines (suc fuel) name d r w h = elim (Bool-cases (name == target)) [
    | inl q ↦
        no_walk name d r w
          (λ x. let (i, p, s) = Some-of name x in let e = p.before_join in ground (arith, q, e))
          (rw (q, join_collect_killset) at h)
    | inr q ↦ elim (Option-cases (get d name)) [
      | inr (m, f) ↦
          subst (Answer (Defines name)) (ok-injective (rw (q, f, join_collect_killset) at h))
            (w, get-All (λ n m. (contains field m ≡ true) ↔ Defines n) d name m w f)
      | inl f ↦ elim (Bool-cases (contains name scope)) [
        | inr s ↦
            no_walk name d r w
              (λ x. let (i, p, _) = Some-of name x in let e = p.in_scope in ground (arith, s, e))
              (rw (q, f, s, join_collect_killset) at h)
        | inl s ↦ elim (Option-cases (get g.instances name)) [
          | inl x ↦ absurd (ground (arith, rw (q, f, s, x, join_collect_killset, node_of) at h))
          | inr (i, x) ↦
              let call = join_collect_killset fuel g target scope in
              let ((m, u), a, b) =
                ok-of_bind (kills_of_fire call g i.element.output_fire (entries i) d) _
                  (rw (q, f, s, x, join_collect_killset, node_of) at h) in
              let (v, new) =
                kills_of_fire-Some call (λ n d r w h. killset-Defines fuel n d r w h)
                  i.element.output_fire (entries i) d (m, u) w a in
              let walk = walks name i m q s x new in
              subst (Answer (Defines name)) (ok-injective b)
                (All-put (λ p. (contains field p.1 ≡ true) ↔ Defines p.0) u name m v walk, walk)
        ]
      ]
    ]
  ]
    where
      same_node : {o : Option Node} (i j : Node) → o ≡ some i → o ≡ some j → i ≡ j
      same_node i j e f = cc

      walks :
          (name : String) (i : Node) (m : List String)
          → (name == target) ≡ false
          → contains name scope ≡ true
          → get g.instances name ≡ some i
          → ((contains field m ≡ true) ↔ (IsCounted i.element.output_fire × Some (entries i)))
          → (contains field m ≡ true) ↔ Defines name
      walks name i m q s x new = (
        λ c.
            let (counted, y) = new.0 c in
            Defines-of name i
              (record { before_join = q; in_scope = s; there = x; counted = counted }) y,
        λ z.
            let (j, p, y) = Some-of name z in
            new.1 (
              subst (λ (j : Node). IsCounted j.element.output_fire × Some (entries j))
                (same_node j i p.there x) (p.counted, y)),
      )

-- If `join_collect_killset` returns, starting without a set of any instance, a field is in the set
-- exactly if a walk from the first instance reaches an instance whose element defines it. The walk
-- goes on only from instances that are in scope, are not the join instance, and fire all their output
-- ports or one of them.
pub join_collect_killset-Defines :
    (fuel : ℕ) (g : Graph) (target : String) (scope : List String) (name field : String)
    (e : Dict (List String)) (k : List String)
    → join_collect_killset fuel g target scope name [] ≡ ok (k, e)
    → (contains field k ≡ true) ↔ Defines g target scope field name
join_collect_killset-Defines fuel g target scope name field e k h =
    (killset-Defines g target scope field fuel name [] (k, e) tt h).1
