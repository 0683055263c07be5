-- ===== src/Joins/Marked.antt =====
-- Which instances `annotate_for_instance` marks.
use floem.Prelude.{
  ℕ, String, ◌≡◌, subst, Bool, true, not, ◌&&◌, none, List, [], ◌∷◌, arith, All, ok, Dict,
  String_equality, ok-of_bind, ok-injective, Bool-cases, inl, inr, length,
}
use floem.Flow.{FlowCollection, full, empty}
use floem.Graph.{Node, Graph}
use floem.Joins.{
  Answer, Marks, dfs_cover, cover_roots, dominant_nodes, passing_nodes, invoke_nodes,
  annotate_for_instance,
}
use floem.Joins.Derived.{Derives, has_flows, gives, IsDerived, Derives-of_dfs_cover, no_answer}

-- The instance has derived flows that pass the test.
pub record Flows (g : Graph) (target : String) (n : ℕ) (test : FlowCollection → Bool)
    (name : String) : Type 0 where
  pub flows : FlowCollection
  pub derived : Derives g target n (has_flows name flows)
  pub passes : test flows ≡ true

-- A caller of the instance gets derived flows without a piece.
pub record GivesNothing (g : Graph) (target : String) (n : ℕ) (name : String) : Type 0 where
  pub flows : FlowCollection
  pub derived : Derives g target n (gives name none flows)
  pub is_empty : empty flows ≡ true

abbrev pub in_part : FlowCollection → Bool
in_part c = not (full c) && not (empty c)

module _ (g : Graph) (target : String) (n : ℕ) where
  cover_roots-Derives :
      (fuel : ℕ) (roots : List String) (s t : Answer)
      → IsDerived g target n s
      → cover_roots fuel g target n roots s ≡ ok t
      → IsDerived g target n t × All (GivesNothing g target n) roots
  unfolding cover_roots
  cover_roots-Derives fuel [] s t w h = (subst (IsDerived g target n) (ok-injective h) w, tt)
  cover_roots-Derives fuel (root ∷ l) s t w h =
      let ((c, u), a, h) = ok-of_bind (dfs_cover fuel g target n root none s) _ h in
      let (v, der) = Derives-of_dfs_cover g target n fuel root none s u c w a in
      elim (Bool-cases (not (empty c))) [
        | inl e ↦ absurd (ground (arith, rw e at h))
        | inr e ↦
            let (z, rest) = cover_roots-Derives fuel l u t v (rw e at h) in
            (z, (record { flows = c; derived = der; is_empty = ground (arith, e) }, rest))
      ]

  dominant_nodes-Flows :
      (d : Dict FlowCollection)
      → All (λ p. Derives g target n (has_flows p.0 p.1)) d
      → All (Flows g target n full) (dominant_nodes d)
  unfolding dominant_nodes
  dominant_nodes-Flows [] h = tt
  dominant_nodes-Flows ((k, c) ∷ d) h = elim (Bool-cases (full c)) [
    | inl e ↦
        rw (e, dominant_nodes)
          (record { flows = c; derived = h.0; passes = e }, dominant_nodes-Flows d h.1)
    | inr e ↦ rw (e, dominant_nodes) (dominant_nodes-Flows d h.1)
  ]

  passing_nodes-Flows :
      (d : Dict FlowCollection)
      → All (λ p. Derives g target n (has_flows p.0 p.1)) d
      → All (Flows g target n in_part) (passing_nodes d)
  unfolding passing_nodes
  passing_nodes-Flows [] h = tt
  passing_nodes-Flows ((k, c) ∷ d) h = elim (Bool-cases (in_part c)) [
    | inl e ↦
        rw (e, passing_nodes)
          (record { flows = c; derived = h.0; passes = e }, passing_nodes-Flows d h.1)
    | inr e ↦ rw (e, passing_nodes) (passing_nodes-Flows d h.1)
  ]

-- If `annotate_for_instance` returns, no root has flows for the join instance; an instance that
-- creates its buffer has derived flows that are full, and one that passes the buffer on has derived
-- flows that are neither full nor empty.
pub annotate_for_instance_lem :
    (fuel : ℕ) (g : Graph) (i : Node) (roots : List String) (m : Marks)
    → annotate_for_instance fuel g i roots ≡ ok m
    → All (GivesNothing g i.name (length i.element.inports)) roots
      × All (Flows g i.name (length i.element.inports) full) m.state_create
      × All (Flows g i.name (length i.element.inports) in_part) m.func_params
unfolding annotate_for_instance
annotate_for_instance_lem fuel g i roots m h =
    let n = length i.element.inports in
    let (s, a, h) = ok-of_bind (cover_roots fuel g i.name n roots no_answer) _ h in
    let (k, b, h) = ok-of_bind (invoke_nodes i) _ h in
    let same = ok-injective h in
    let (v, nothing) = cover_roots-Derives g i.name n fuel roots no_answer s tt a in
    (
      nothing,
      subst (λ (m : Marks). All (Flows g i.name n full) m.state_create) same
          (dominant_nodes-Flows g i.name n s.answer v),
      subst (λ (m : Marks). All (Flows g i.name n in_part) m.func_params) same
          (passing_nodes-Flows g i.name n s.answer v),
    )
