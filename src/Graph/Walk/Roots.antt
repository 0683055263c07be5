-- ===== src/Graph/Walk/Roots.antt =====
-- The roots are the instances that nothing leads to.
use floem.Prelude.{
  String, ◌≡◌, ap, inl, inr, ◌↔◌, Bool, true, false, not, Option, none, some, [], ◌∷◌, arith, Dict,
  String_equality, get, get-first, get-later, has, keys, values, contains, contains-append,
  contains-filter, contains-keys, IsDistinct, Bool-cases, Option-cases,
}
use floem.Graph.{Node, Graph}
use floem.Graph.Walk.{targets, all_targets, find_roots}
use floem.Graph.Walk.Closed.{leads_to}

contains-all_targets :
    (d : Dict Node) (n m : String) (i : Node)
    → get d n ≡ some i
    → contains m (targets i) ≡ true
    → contains m (all_targets (values d)) ≡ true
unfolding all_targets values get
contains-all_targets [] n m i e h = cc
contains-all_targets ((k, j) ∷ d) n m i e h = elim (Bool-cases (String_equality.same k n)) [
  | inl t ↦
      ground (arith, contains-append m (targets j) (all_targets (values d)), ap (λ o. source m o) e)
  | inr t ↦ ground (
    arith,
    contains-append m (targets j) (all_targets (values d)),
    contains-all_targets d n m i (rw (t, get) at e) h,
  )
]
  where
    source : String → Option Node → Bool
    source m none = false
    source m (some x) = contains m (targets x)

leading :
    (d : Dict Node) (m : String)
    → IsDistinct (keys d)
    → contains m (all_targets (values d)) ≡ true
    → (n : String) × (i : Node) × (get d n ≡ some i) × (contains m (targets i) ≡ true)
unfolding all_targets values keys
leading [] m d h = absurd (cc)
leading ((k, j) ∷ d) m u h = elim (Bool-cases (contains m (targets j))) [
  | inl t ↦ (k, j, get-first k j d, t)
  | inr t ↦
      let (n, i, e, c) =
        leading d m u.1 (ground (arith, contains-append m (targets j) (all_targets (values d)))) in
      (n, i, get-later k n j i d u.0 e, c)
]

module _ (g : Graph) (m : String) where
  -- No output port of an instance leads to the instance.
  abbrev pub IsFirst : Type 0
  IsFirst = (n : String) → leads_to g n m ≡ false

  -- In a dictionary without a second entry for a name, the roots are exactly the instances that no
  -- output port of an instance leads to.
  pub find_roots-IsFirst :
      IsDistinct (keys g.instances)
      → (contains m (find_roots g) ≡ true) ↔ ((has g.instances m ≡ true) × IsFirst)
  unfolding find_roots
  find_roots-IsFirst u =
      let all = all_targets (values g.instances) in
      let kept = contains-filter m (λ n. not (contains n all)) (keys g.instances) in
      let known = contains-keys g.instances m in
      (
        λ h. (
          ground (arith, kept, known),
          λ n. elim (Option-cases (get g.instances n)) [
            | inl e ↦ ground (arith, e)
            | inr (i, e) ↦ ground (arith, e, kept, contains-all_targets g.instances n m i e)
          ],
        ),
        λ h. elim (Bool-cases (contains m all)) [
          | inl t ↦
              let (n, i, e, c) = leading g.instances m u t in absurd (ground (arith, e, h.1 n))
          | inr t ↦ ground (arith, kept, known, h.0, t)
        ],
      )
