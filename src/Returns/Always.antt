-- ===== src/Returns/Always.antt =====
-- What an answer of `mark_return` that an instance always returns stands on. It says nothing of ports
-- that lead to an empty cover; `Returns.Sure` relates it to the runs of the graph.
use floem.Prelude.{
  ℕ, zero, suc, String, ◌≡◌, refl, sym, subst, values, Bool, true, ◌&&◌, Option, none, some, List,
  [], ◌∷◌, ◌==◌, arith, String_equality, Result, ok, ok-of_bind, ok-injective, Dict, get, get-All,
  All-put, All, contains, Bool-cases, Option-cases, inl, inr,
}
use floem.Flow.{FlowCollection}
use floem.Graph.{Fire, all, one, multi, zero_or_one, InPort, Node, Api, Graph}
use floem.Returns.{
  ReturnError, found, Marking, change_mark, set_return_from, return_nodes, last_of, mark_each,
  mark_some, mark_children, mark_target, start_mark, order_of, mark_return,
}

module _ (g : Graph) (orders : Dict (List String)) (covers : Dict FlowCollection)
    (target : String) where
  -- The instances that `mark_return` asks answer in turn: the return instance, which is firing; the only
  -- one with a part of the cover; the one behind the last of several ports; or, where one port fires,
  -- each one with a part of the cover.
  pub data Returns : String → Type 0 where
    at_target :
        {i : Node}
        → get g.instances target ≡ some i
        → mark_target i.element.output_fire ≡ ok true
        → Returns target
    by_only :
        {name next : String} {i : Node}
        → get g.instances name ≡ some i
        → i.element.output_fire ≡ some all
        → return_nodes covers (values i.output2ele) ≡ ok (next ∷ [])
        → Returns next
        → Returns name
    by_last :
        {name next port x y : String} {p : InPort} {l : List String} {i : Node}
        → get g.instances name ≡ some i
        → i.element.output_fire ≡ some all
        → return_nodes covers (values i.output2ele) ≡ ok (x ∷ y ∷ l)
        → last_of (order_of orders name) ≡ ok port
        → get i.output2ele port ≡ some (next, p)
        → Returns next
        → Returns name
    by_each :
        {name : String} {l : List String} {i : Node}
        → get g.instances name ≡ some i
        → i.element.output_fire ≡ some one
        → return_nodes covers (values i.output2ele) ≡ ok l
        → ((next : String) → contains next l ≡ true → Returns next)
        → Returns name

  abbrev pub IsSound : Dict Bool → Type 0
  IsSound d = All (λ p. p.1 ≡ true → Returns p.0) d

  abbrev Calls : (String → Marking → Result ReturnError (Bool × Marking)) → Type 0
  Calls call =
      (n : String) (s t : Marking) (b : Bool)
      → IsSound s.visit
      → call n s ≡ ok (b, t)
      → IsSound t.visit × (b ≡ true → Returns n)

  kept :
      (P : Bool → Type 0) {b c : Bool} {s t : Marking}
      → IsSound s.visit
      → P b
      → ◌≡◌ {A = Result ReturnError (Bool × Marking)} (ok (b, s)) (ok (c, t))
      → IsSound t.visit × P c
  kept P w p h =
      let same = ok-injective h in
      (subst (λ x. IsSound x.1.visit) same w, subst (λ x. P x.0) same p)

  module _ (call : String → Marking → Result ReturnError (Bool × Marking))
      (calls : Calls call) where
    mark_each-Returns :
        (l : List String) (always b : Bool) (s t : Marking)
        → IsSound s.visit
        → mark_each call l always s ≡ ok (b, t)
        → IsSound t.visit
          × (b ≡ true → (always ≡ true) × ((n : String) → contains n l ≡ true → Returns n))
    unfolding mark_each
    mark_each-Returns [] always b s t w h =
        kept (λ b. b ≡ true → (always ≡ true) × ((n : String) → contains n [] ≡ true → Returns n)) w
          (λ e. (e, λ n m. cc)) h
    mark_each-Returns (x ∷ l) always b s t w h =
        let ((c, u), e, k) = ok-of_bind (call x s) _ h in
        let (v, new) = calls x s u c w e in
        let (z, rest) = mark_each-Returns l (always && c) b u t v k in
        (
          z,
          λ q. (
            ground (arith, (rest q).0),
            λ n m. elim (Bool-cases (x == n)) [
              | inl same ↦
                  subst Returns ((String_equality.same_iff x n).0 same)
                    (new (ground (arith, (rest q).0)))
              | inr same ↦ (rest q).1 n (ground (arith, m, same))
            ],
          ),
        )

    never_always :
        (name : String) (l : List String) (s t : Marking) (b : Bool)
        → IsSound s.visit
        → mark_some call l (set_return_from s name l) ≡ ok (b, t)
        → IsSound t.visit × (b ≡ true → Returns name)
    unfolding change_mark
    never_always name l s t b w h =
        let ((c, u), e, k) = ok-of_bind (mark_each call l true (set_return_from s name l)) _ h in
        kept (λ b. b ≡ true → Returns name)
          (mark_each-Returns l true c (set_return_from s name l) u w e).0 (λ q. cc) k

    mark_children-Returns :
        (fire : Option Fire) (name : String) (i : Node) (nodes : List String) (s t : Marking)
        (b : Bool)
        → get g.instances name ≡ some i
        → i.element.output_fire ≡ fire
        → return_nodes covers (values i.output2ele) ≡ ok nodes
        → IsSound s.visit
        → mark_children call fire name i (order_of orders name) nodes s ≡ ok (b, t)
        → IsSound t.visit × (b ≡ true → Returns name)
    unfolding mark_children change_mark
    mark_children-Returns (some all) name i [] s t b f e r w h = absurd (ground (arith, h))
    mark_children-Returns (some all) name i (n ∷ []) s t b f e r w h =
        let (v, new) = calls n (set_return_from s name (n ∷ [])) t b w h in
        (v, λ q. by_only f e r (new q))
    mark_children-Returns (some all) name i (n ∷ m ∷ l) s t b f e r w h =
        let (port, x, k) = ok-of_bind (last_of (order_of orders name)) _ h in
        elim (Option-cases (get i.output2ele port)) [
          | inl z ↦ absurd (ground (arith, rw (z, found) at k))
          | inr ((next, p), z) ↦
              let (v, new) =
                calls next (set_return_from s name (next ∷ [])) t b w (rw (found, z) at k) in
              (v, λ q. by_last f e r x z (new q))
        ]
    mark_children-Returns (some one) name i l s t b f e r w h =
        let (v, new) = mark_each-Returns l true b (set_return_from s name l) t w h in
        (v, λ q. by_each f e r (new q).1)
    mark_children-Returns (some multi) name i l s t b f e r w h = never_always name l s t b w h
    mark_children-Returns (some zero_or_one) name i l s t b f e r w h =
        never_always name l s t b w h
    mark_children-Returns none name i l s t b f e r w h = never_always name l s t b w h

  mark_target-Returns :
      (i : Node) (b : Bool)
      → get g.instances target ≡ some i
      → mark_target i.element.output_fire ≡ ok b
      → b ≡ true
      → Returns target
  mark_target-Returns i b f e q = at_target f (ground (arith, e, q))

  -- If `mark_return` answers that an instance always returns, starting from answers that stand on
  -- `Returns`, then so does its own, and so do the answers that it leaves.
  pub mark_return-Returns :
      (fuel : ℕ) (api : Api) (name : String) (s t : Marking) (b : Bool)
      → IsSound s.visit
      → mark_return fuel g orders api covers target name s ≡ ok (b, t)
      → IsSound t.visit × (b ≡ true → Returns name)
  unfolding mark_return change_mark
  mark_return-Returns zero api name s t b w h = absurd (ground (arith, h))
  mark_return-Returns (suc fuel) api name s t b w h = elim (Option-cases (get s.visit name)) [
    | inr (c, f) ↦
        kept (λ b. b ≡ true → Returns name) w
          (get-All (λ n b. b ≡ true → Returns n) s.visit name c w f) (rw (f, mark_return) at h)
    | inl f ↦ elim (Option-cases (get g.instances name)) [
      | inl x ↦ absurd (ground (arith, rw (f, x, mark_return) at h))
      | inr (i, x) ↦ elim (Bool-cases (target == name)) [
        | inl q ↦
            let (c, e, k) =
              ok-of_bind (mark_target i.element.output_fire) _ (rw (f, x, q, mark_return) at h) in
            let same = (String_equality.same_iff target name).0 q in
            let new =
              subst (λ n. c ≡ true → Returns n) same
                (mark_target-Returns i c (subst (λ n. get g.instances n ≡ some i) (sym same) x)
                  e) in
            kept (λ b. b ≡ true → Returns name)
              (All-put (λ p. p.1 ≡ true → Returns p.0) s.visit name c w new) new k
        | inr q ↦
            let (nodes, e, k) =
              ok-of_bind (return_nodes covers (values i.output2ele)) _
                (rw (f, x, q, mark_return) at h) in
            let ((c, u), a, z) =
              ok-of_bind
                (mark_children (mark_return fuel g orders api covers target) i.element.output_fire
                  name i (order_of orders name) nodes (start_mark api name s))
                _ k in
            let (v, new) =
              mark_children-Returns (mark_return fuel g orders api covers target)
                (λ n s t b w h. mark_return-Returns fuel api n s t b w h) i.element.output_fire name
                i nodes (start_mark api name s) u c x refl e w a in
            kept (λ b. b ≡ true → Returns name)
              (All-put (λ p. p.1 ≡ true → Returns p.0) u.visit name c v new) new z
      ]
    ]
  ]
