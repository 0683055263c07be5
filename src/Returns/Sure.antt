-- ===== src/Returns/Sure.antt =====
-- What an instance is sure to call, by the firing of the elements and the connections, and how that
-- follows from the answers of `mark_return` of floem/api_handling.py.
use floem.Prelude.{
  String, ◌≡◌, refl, sym, ap, subst, ◌∙◌, values, Bool, true, false, not, Option, none, some, List,
  [], ◌∷◌, ◌==◌, ◌⊎◌, inl, inr, arith, String_equality, if◌then◌else◌, ok, ok-of_bind, ok-injective,
  Dict, get, contains, Bool-cases, Option-cases,
}
use floem.Flow.{FlowCollection, empty}
use floem.Graph.{Fire, all, one, multi, zero_or_one, InPort, Node, Graph}
use floem.Kills.Defined.{Goes, now, after}
use floem.Returns.{found, return_nodes, mark_target, last_of, order_of}
use floem.Returns.Always.{Returns, at_target, by_only, by_last, by_each}

-- An element that fires each of its output ports, or one of them, whenever it runs, or of which the
-- graph does not say how it fires.
abbrev pub IsFiring : Option Fire → Type 0
IsFiring (some all) = Unit
IsFiring (some one) = Unit
IsFiring none = Unit
IsFiring _ = ⊥

abbrev IsMissed : Dict FlowCollection → String → Type 0
IsMissed covers n = (c : FlowCollection) × (get covers n ≡ some c) × (empty c ≡ true)

abbrev IsTaken : Dict FlowCollection → String → Type 0
IsTaken covers n = (c : FlowCollection) × (get covers n ≡ some c) × (empty c ≡ false)

module _ (g : Graph) (orders : Dict (List String)) (covers : Dict FlowCollection) where
  -- A run may end without a value. Behind the instance, on a walk through instances that have a part of
  -- the cover, is one that fires one of its ports and leads to an empty cover, or to nothing, or one
  -- that fires all its ports, of which the last leads to an empty cover.
  pub data MayMiss : String → Type 0 where
    misses :
        {name next : String} {i : Node} {c : FlowCollection}
        → get g.instances name ≡ some i
        → i.element.output_fire ≡ some one
        → Goes next (values i.output2ele)
        → get covers next ≡ some c
        → empty c ≡ true
        → MayMiss name
    stops :
        {name : String} {i : Node}
        → get g.instances name ≡ some i
        → i.element.output_fire ≡ some one
        → values i.output2ele ≡ []
        → MayMiss name
    loses :
        {name next port : String} {p : InPort} {i : Node} {c : FlowCollection}
        → get g.instances name ≡ some i
        → i.element.output_fire ≡ some all
        → last_of (order_of orders name) ≡ ok port
        → get i.output2ele port ≡ some (next, p)
        → get covers next ≡ some c
        → empty c ≡ true
        → MayMiss name
    behind :
        {name next : String} {i : Node} {c : FlowCollection}
        → get g.instances name ≡ some i
        → Goes next (values i.output2ele)
        → get covers next ≡ some c
        → empty c ≡ false
        → MayMiss next
        → MayMiss name

module _ (g : Graph) (target : String) where
  -- Each run from the instance reaches the return instance, which is firing: an instance that
  -- fires all its ports has one port that leads to such an instance, and an instance that fires one of
  -- its ports has such ports and no other.
  pub data IsSure : String → Type 0 where
    there :
        {i : Node}
        → get g.instances target ≡ some i
        → IsFiring i.element.output_fire
        → IsSure target
    through_all :
        {name next : String} {i : Node}
        → get g.instances name ≡ some i
        → i.element.output_fire ≡ some all
        → Goes next (values i.output2ele)
        → IsSure next
        → IsSure name
    through_one :
        {name first : String} {i : Node}
        → get g.instances name ≡ some i
        → i.element.output_fire ≡ some one
        → Goes first (values i.output2ele)
        → ((next : String) → Goes next (values i.output2ele) → IsSure next)
        → IsSure name

goes-get :
    (d : Dict (String × InPort)) (port next : String) (p : InPort)
    → get d port ≡ some (next, p)
    → Goes next (values d)
unfolding get values
goes-get [] port next p h = cc
goes-get ((k, v) ∷ d) port next p h = elim (Bool-cases (k == port)) [
  | inl e ↦
      let same : v ≡ (next, p) = one_value (rw (e, get) at h) in
      subst (λ (x : String × InPort). Goes next (x ∷ values d)) (sym same) now
  | inr e ↦ after (goes-get d port next p (rw (e, get) at h))
]
  where
    one_value : {x y : String × InPort} → some x ≡ some y → x ≡ y
    one_value h = cc

pub found_some :
    {V : Type 0} (d : Dict V) (k : String) (v : V) → found d k ≡ ok v → get d k ≡ some v
found_some d k v h = elim (Option-cases (get d k)) [
  | inl e ↦ absurd (ground (arith, rw (found, e) at h))
  | inr (w, e) ↦ e ∙ ap some (ok-injective (rw (found, e) at h))
]

goes_cases :
    (n next : String) (port : InPort) (l : List (String × InPort))
    → Goes n ((next, port) ∷ l)
    → (next ≡ n) ⊎ Goes n l
goes_cases n next port l now = inl refl
goes_cases n next port l (after x) = inr x

-- Each return node is an entry with a part of the cover, and an entry is a return node or has an empty
-- cover.
abbrev AreChosen : Dict FlowCollection → List (String × InPort) → List String → Type 0
AreChosen covers l nodes =
    ((n : String) → contains n nodes ≡ true → Goes n l × IsTaken covers n)
    × ((n : String) → Goes n l → (contains n nodes ≡ true) ⊎ IsMissed covers n)

AreChosen-add :
    (covers : Dict FlowCollection) (next : String) (port : InPort) (l : List (String × InPort))
    (r : List String) (c : FlowCollection) (b : Bool)
    → get covers next ≡ some c
    → empty c ≡ b
    → AreChosen covers l r
    → AreChosen covers ((next, port) ∷ l) (if not b then next ∷ r else r)
AreChosen-add covers next port l r c true f e (from, to) = (
  λ n m. (after (from n m).0, (from n m).1),
  λ n x. elim (goes_cases n next port l x) [
    | inl s ↦ inr (subst (IsMissed covers) s (c, f, e))
    | inr y ↦ to n y
  ],
)
AreChosen-add covers next port l r c false f e (from, to) = (
  λ n m. elim (Bool-cases (next == n)) [
    | inl s ↦
        subst (λ k. Goes k ((next, port) ∷ l) × IsTaken covers k)
          ((String_equality.same_iff next n).0 s) (now, (c, f, e))
    | inr s ↦ let x = from n (ground (arith, s, m)) in (after x.0, x.1)
  ],
  λ n x. elim (goes_cases n next port l x) [
    | inl s ↦
        let same : (next == n) ≡ true = (String_equality.same_iff next n).1 s in
        inl (ground (arith, same))
    | inr y ↦ elim (to n y) [ inl m ↦ inl (ground (arith, m)) | inr z ↦ inr z ]
  ],
)

return_nodes-AreChosen :
    (covers : Dict FlowCollection) (l : List (String × InPort)) (nodes : List String)
    → return_nodes covers l ≡ ok nodes
    → AreChosen covers l nodes
unfolding return_nodes
return_nodes-AreChosen covers [] nodes h =
    subst (AreChosen covers []) (ok-injective h) ((λ n m. cc), λ n x. elim x [ ])
return_nodes-AreChosen covers ((next, port) ∷ l) nodes h =
    let (c, a, h1) = ok-of_bind (found covers next) _ h in
    let (r, b, h2) = ok-of_bind (return_nodes covers l) _ h1 in
    subst (AreChosen covers ((next, port) ∷ l)) (ok-injective h2) (
      AreChosen-add covers next port l r c (empty c) (found_some covers next c a) refl
        (return_nodes-AreChosen covers l r b))

-- What holds of each entry, unless something else does, holds of all of them, unless it does.
each_or :
    (P : String → Type 0) (Q : Type 0) (l : List (String × InPort))
    → ((n : String) → Goes n l → P n ⊎ Q)
    → ((n : String) → Goes n l → P n) ⊎ Q
each_or P Q [] h = inl (λ n x. elim x [ ])
each_or P Q ((next, port) ∷ l) h = elim (h next now) [
  | inr q ↦ inr q
  | inl p ↦ elim (each_or P Q l (λ n x. h n (after x))) [
    | inr q ↦ inr q
    | inl k ↦ inl (λ n x. elim (goes_cases n next port l x) [ inl s ↦ subst P s p | inr y ↦ k n y ])
  ]
]

goes_somewhere : (l : List (String × InPort)) → (l ≡ []) ⊎ ((n : String) × Goes n l)
goes_somewhere [] = inl refl
goes_somewhere ((n, port) ∷ l) = inr (n, now)

mark_target-IsFiring : (fire : Option Fire) → mark_target fire ≡ ok true → IsFiring fire
unfolding mark_target
mark_target-IsFiring (some all) h = tt
mark_target-IsFiring (some one) h = tt
mark_target-IsFiring (some zero_or_one) h = absurd (ground (arith, h))
mark_target-IsFiring (some multi) h = absurd (ground (arith, h))
mark_target-IsFiring none h = tt

module _ (g : Graph) (orders : Dict (List String)) (covers : Dict FlowCollection)
    (target : String) where
  -- An instance that `mark_return` answers to return always does, or a run may end without a value.
  pub Returns-IsSure :
      (name : String)
      → Returns g orders covers target name
      → IsSure g target name ⊎ MayMiss g orders covers name
  Returns-IsSure name (at_target f e) = inl (there f (mark_target-IsFiring _ e))
  Returns-IsSure name (by_only {next = next} f e r w) =
      let same : (next == next) ≡ true = (String_equality.same_iff next next).1 refl in
      let (goes, (c, d, v)) = (return_nodes-AreChosen covers _ _ r).0 next (ground (arith, same)) in
      elim (Returns-IsSure next w) [
        | inl s ↦ inl (through_all f e goes s)
        | inr m ↦ inr (behind f goes d v m)
      ]
  Returns-IsSure name (by_last {next = next} {port = port} {p = p} {i = i} f e r x z w) =
      let goes = goes-get i.output2ele port next p z in
      let chosen = return_nodes-AreChosen covers _ _ r in
      elim (chosen.1 next goes) [
        | inr (c, d, v) ↦ inr (loses f e x z d v)
        | inl taken ↦
            let (_, (c, d, v)) = chosen.0 next taken in
            elim (Returns-IsSure next w) [
              | inl s ↦ inl (through_all f e goes s)
              | inr m ↦ inr (behind f goes d v m)
            ]
      ]
  Returns-IsSure name (by_each {i = i} f e r each) =
      let chosen = return_nodes-AreChosen covers _ _ r in
      elim (each_or (IsSure g target) (MayMiss g orders covers name) (values i.output2ele) λ n x.
        elim (chosen.1 n x) [
          | inr (c, d, v) ↦ inr (misses f e x d v)
          | inl m ↦
              let (_, (c, d, v)) = chosen.0 n m in
              elim (Returns-IsSure n (each n m)) [ inl s ↦ inl s | inr y ↦ inr (behind f x d v y) ]
        ]) [
          | inr m ↦ inr m
          | inl s ↦ elim (goes_somewhere (values i.output2ele)) [
            | inl q ↦ inr (stops f e q)
            | inr (n, x) ↦ inl (through_one f e x s)
          ]
        ]
