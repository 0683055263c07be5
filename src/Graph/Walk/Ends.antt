-- ===== src/Graph/Walk/Ends.antt =====
-- `find_subgraph` returns: each nested call has one more instance in the set.
use floem.Prelude.{
  ℕ, zero, suc, ◌+◌, ◌≤◌, ◌<◌, String, ◌≡◌, refl, ap, ◌∙◌, inl, inr, Bool, true, false, not, ◌&&◌,
  some, List, [], ◌∷◌, ◌++◌, arith, String_equality, Result, ok, get, has, keys, contains,
  contains-append, contains-keys, IsDistinct, IsDistinct-snoc, length, length-append,
  length-le_of_subset, Bool-cases, Option-cases,
}
use floem.Graph.{GraphError, Node, Graph}
use floem.Graph.Walk.{targets, collect_each, collect, depth, any_instance, find_subgraph}
use floem.Graph.Walk.Closed.{leads_to, IsNamed}

-- No output port leads to a name that is no instance.
pub record IsComplete (g : Graph) : Type 0 where
  pub present : (n m : String) → leads_to g n m ≡ true → has g.instances m ≡ true

module _ (g : Graph) where
  -- A set of names of instances.
  pub record IsWithin (s : List String) : Type 0 where
    pub distinct : IsDistinct s
    pub within : (x : String) → contains x s ≡ true → has g.instances x ≡ true

  record Returns (s : List String) (call : Result GraphError (List String)) : Type 0 where
    result : List String
    returns : call ≡ ok result
    within : IsWithin result
    grows : length s ≤ length result

  collect_each-Returns :
      (call : String → List String → Result GraphError (List String)) (room : ℕ)
      → ((n : String) (s : List String)
          → has g.instances n ≡ true
          → IsWithin s
          → room ≤ length s
          → Returns s (call n s))
      → (l s : List String) → ((n : String) → contains n l ≡ true → has g.instances n ≡ true)
      → IsWithin s
      → room ≤ length s
      → Returns s (collect_each call l s)
  unfolding collect_each
  collect_each-Returns call room calls [] s inside h r = record {
    result = s;
    returns = refl;
    within = h;
    grows = omega arith;
  }
  collect_each-Returns call room calls (n ∷ l) s inside h r =
      let a = calls n s (inside n (ground (arith, String_equality.same_iff n n))) h r in
      let b =
        collect_each-Returns call room calls l a.result (λ x m. inside x (ground (arith, m)))
          a.within (omega (arith, a.grows)) in
      record {
        result = b.result;
        returns = rw a.returns b.returns;
        within = b.within;
        grows = omega (arith, a.grows, b.grows);
      }

  module _ (wanted : Node → Bool) (fuel : ℕ) (root : String) (i : Node) (s : List String)
      (e : get g.instances root ≡ some i) where
    collect-step :
        (not (contains i.name s) && wanted i) ≡ true
        → collect wanted (suc fuel) g root s
          ≡ collect_each (collect wanted fuel g) (targets i) (s ++ i.name ∷ [])
    unfolding collect
    collect-step t = rw (e, t, collect)

    collect-stop :
        (not (contains i.name s) && wanted i) ≡ false → collect wanted (suc fuel) g root s ≡ ok s
    unfolding collect
    collect-stop t = rw (e, t, collect)

  pub IsWithin-snoc :
      (s : List String) (x : String)
      → IsWithin s
      → has g.instances x ≡ true
      → contains x s ≡ false
      → IsWithin (s ++ x ∷ [])
  IsWithin-snoc s x h m new = record {
    distinct = IsDistinct-snoc s x h.distinct new;
    within = λ y k. ground (
      arith,
      contains-append y s (x ∷ []),
      String_equality.same_iff x y,
      λ (e : x ≡ y). ap (λ z. has g.instances z) e,
      h.within y,
    );
  }

  module _ (named : IsNamed g) (whole : IsComplete g) (wanted : Node → Bool) where
    collect-Returns :
        (fuel : ℕ) (root : String) (s : List String)
        → has g.instances root ≡ true
        → IsWithin s
        → length (keys g.instances) < fuel + length s
        → Returns s (collect wanted fuel g root s)
    collect-Returns zero root s m h r = absurd (
        omega (
          arith,
          length-le_of_subset s (keys g.instances) h.distinct
              (λ x k. contains-keys g.instances x ∙ h.within x k),
        ))
    collect-Returns (suc fuel) root s m h r = elim (Option-cases (get g.instances root)) [
      | inl e ↦ absurd (ground (arith, e, m))
      | inr (i, e) ↦ elim (Bool-cases (not (contains i.name s) && wanted i)) [
        | inl t ↦
            let deeper =
              collect_each-Returns (collect wanted fuel g) (suc (length s))
                (λ n v k w q. collect-Returns fuel n v k w (omega arith)) (targets i)
                (s ++ i.name ∷ []) (λ n k. whole.present root n (ground (arith, e, k)))
                (IsWithin-snoc s i.name h (rw (named.at_key root i e) m) (ground (arith, t)))
                (omega (arith, length-append s (i.name ∷ []))) in
            record {
              result = deeper.result;
              returns = collect-step wanted fuel root i s e t ∙ deeper.returns;
              within = deeper.within;
              grows = omega (arith, deeper.grows, length-append s (i.name ∷ []));
            }
        | inr t ↦ record {
          result = s;
          returns = collect-stop wanted fuel root i s e t;
          within = h;
          grows = omega arith;
        }
      ]
    ]

-- If each instance is stored under its name and no output port leads to a name that is no
-- instance, `find_subgraph` of an instance returns.
pub find_subgraph_ends :
    (g : Graph) (root : String)
    → IsNamed g
    → IsComplete g
    → has g.instances root ≡ true
    → (r : List String) × (find_subgraph g root [] ≡ ok r)
unfolding find_subgraph
find_subgraph_ends g root named whole m =
    let r =
      collect-Returns g named whole any_instance (depth g) root [] m
        (record { distinct = tt; within = λ x k. cc }) (omega arith) in
    (r.result, r.returns)
