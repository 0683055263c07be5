-- ===== src/Program/Ends.antt =====
-- `interpret` ends on a program whose composites do not hold each other in a circle.
use Prim.Native.Nat.{max}
use floem.Prelude.{
  ℕ, zero, suc, ◌≤◌, ◌<◌, String, ◌≡◌, ◌≢◌, ap, subst, inl, inr, false, Option, none, some, List,
  ◌==◌, arith, String_equality, Result, ok, err, ok-of_bind, err-of_bind, ok-injective, Dict, get,
  get-put, Bool-cases,
}
use floem.Graph.{GraphError, out_of_fuel, lookup}
use floem.Graph.Build.{add_element, add_state}
use floem.Graph.Connect.{connect}
use floem.Graph.Connect.Linked.{lookup-eq-ok}
use floem.Graph.Instances.{new_element_instance}
use floem.Graph.Edit.{add_pipeline_state}
use floem.Program.{
  Item, program, element, state, element_instance, connection, composite, composite_instance,
  resource_map, pipeline_state, start_with_core_id, Items, no_items, next_item, Generator,
  map_resource, start_core, statements_of, interpret_each, interpret_one, interpret_inner,
  interpret,
}
use floem.Program.Calls.{stuck, interpret_one_ends, statements_of_ends}

-- The depth of the calls for a statement, where the rank of a composite bounds that for an instance.
unfoldable mutual
  pub height : (String → ℕ) → Item → ℕ
  height rank (program l) = suc (heights rank l)
  height rank (composite_instance e name) = suc (rank e)
  height rank _ = 1

  pub heights : (String → ℕ) → Items → ℕ
  heights rank no_items = 0
  heights rank (next_item x l) = max (height rank x) (heights rank l)

-- Each composite that the statement declares has statements of a height that its rank bounds.
unfoldable mutual
  pub IsOrdered : (String → ℕ) → Item → Type 0
  IsOrdered rank (program l) = AreOrdered rank l
  IsOrdered rank (composite name l) = (heights rank l ≤ rank name) × AreOrdered rank l
  IsOrdered rank _ = Unit

  pub AreOrdered : (String → ℕ) → Items → Type 0
  AreOrdered rank no_items = Unit
  AreOrdered rank (next_item x l) = IsOrdered rank x × AreOrdered rank l

abbrev pub IsRanked : (String → ℕ) → Dict Items → Type 0
IsRanked rank d =
    (k : String) (l : Items) → get d k ≡ some l → (heights rank l ≤ rank k) × AreOrdered rank l

statements_of-height :
    (rank : String → ℕ) (s : Generator) (stack : List String) (x : Item) (p : List String × Items)
    (fuel : ℕ)
    → IsRanked rank s.composites
    → height rank x ≤ suc fuel
    → IsOrdered rank x
    → statements_of s stack x ≡ ok (some p)
    → (heights rank p.1 ≤ fuel) × AreOrdered rank p.1
unfolding statements_of height IsOrdered
statements_of-height rank s stack (program l) p fuel w r o h =
    let same : l ≡ p.1 = ground (arith, h) in
    (omega (arith, r, ap (heights rank) same), subst (AreOrdered rank) same o)
statements_of-height rank s stack (composite_instance e name) p fuel w r o h =
    let (l, a, b) = ok-of_bind (lookup s.composites e) _ h in
    let same : l ≡ p.1 = ground (arith, b) in
    let (bound, ordered) = w e l (lookup-eq-ok s.composites e l a) in
    (omega (arith, r, bound, ap (heights rank) same), subst (AreOrdered rank) same ordered)
statements_of-height rank s stack _ p fuel w r o h = absurd (ground (arith, h))

same_composites :
    {rank : String → ℕ} {s t : Generator}
    → ◌≡◌ {A = Result GraphError Generator} (ok s) (ok t)
    → IsRanked rank s.composites
    → IsRanked rank t.composites
same_composites {rank} h w =
    subst (λ (t : Generator). IsRanked rank t.composites) (ok-injective h) w

height-positive : (rank : String → ℕ) (x : Item) → 0 < height rank x
unfolding height
height-positive rank (program l) = omega arith
height-positive rank (composite_instance e name) = omega arith
height-positive rank _ = omega arith

-- The composites that a statement leaves.
interpret_one-IsRanked :
    (rank : String → ℕ) (stack : List String) (s t : Generator) (x : Item)
    → IsRanked rank s.composites
    → IsOrdered rank x
    → interpret_one stack s x ≡ ok t
    → IsRanked rank t.composites
unfolding interpret_one IsOrdered
interpret_one-IsRanked rank stack s t (composite name l) w o h =
    subst (λ (t : Generator). IsRanked rank t.composites) (ok-injective h)
      (λ k m f. elim (Bool-cases (name == k)) [
        | inl q ↦
            let same : l ≡ m = ground (arith, q, get-put s.composites name k l, f) in
            subst (λ k. (heights rank m ≤ rank k) × AreOrdered rank m)
              ((String_equality.same_iff name k).0 q)
              (subst (λ m. (heights rank m ≤ rank name) × AreOrdered rank m) same o)
        | inr q ↦ w k m (ground (arith, q, get-put s.composites name k l, f))
      ])
interpret_one-IsRanked rank stack s t (element e) w o h =
    let (a, _, b) = ok-of_bind (add_element s.graph e) _ h in same_composites b w
interpret_one-IsRanked rank stack s t (state x) w o h =
    let (a, _, b) = ok-of_bind (add_state s.graph x) _ h in same_composites b w
interpret_one-IsRanked rank stack s t (element_instance e name args) w o h =
    let (a, _, b) = ok-of_bind (new_element_instance s.graph s.queues e _ _ _) _ h in
    same_composites b w
interpret_one-IsRanked rank stack s t (connection a b out1 in2) w o h =
    let (a, _, b) = ok-of_bind (connect s.graph _ _ out1 in2 false) _ h in same_composites b w
interpret_one-IsRanked rank stack s t (resource_map resource inst) w o h =
    let (a, _, b) = ok-of_bind (map_resource s.graph _ _) _ h in same_composites b w
interpret_one-IsRanked rank stack s t (pipeline_state inst x) w o h =
    let (a, _, b) = ok-of_bind (add_pipeline_state s.graph _ x) _ h in same_composites b w
interpret_one-IsRanked rank stack s t (start_with_core_id inst) w o h =
    let (a, _, b) = ok-of_bind (start_core s.graph inst) _ h in same_composites b w
interpret_one-IsRanked rank stack s t _ w o h = same_composites h w

module _ (rank : String → ℕ) where
  abbrev Ends : (Generator → Item → Result GraphError Generator) → ℕ → Type 0
  Ends call n =
      (s : Generator) (x : Item)
      → IsRanked rank s.composites
      → height rank x ≤ n
      → IsOrdered rank x
      → (call s x ≢ err stuck) × ((t : Generator) → call s x ≡ ok t → IsRanked rank t.composites)

  interpret_each-Ends :
      (call : Generator → Item → Result GraphError Generator) (n : ℕ) (s : Generator) (l : Items)
      → Ends call n
      → IsRanked rank s.composites
      → heights rank l ≤ n
      → AreOrdered rank l
      → (interpret_each call s l ≢ err stuck)
        × ((t : Generator) → interpret_each call s l ≡ ok t → IsRanked rank t.composites)
  unfolding interpret_each height IsOrdered
  interpret_each-Ends call n s no_items calls w r o =
      (λ h. ground (arith, h), λ t h. same_composites h w)
  interpret_each-Ends call n s (next_item x l) calls w r o =
      let first = calls s x w (omega (arith, r)) o.0 in
      (
        λ h. elim (err-of_bind (call s x) _ h) [
          | inl a ↦ first.0 a
          | inr (u, a, b) ↦
              (interpret_each-Ends call n u l calls (first.1 u a) (omega (arith, r)) o.1).0 b
        ],
        λ t h.
            let (u, a, b) = ok-of_bind (call s x) _ h in
            (interpret_each-Ends call n u l calls (first.1 u a) (omega (arith, r)) o.1).1 t b,
      )

  -- One call of `interpret`.
  inner-Ends :
      (fuel : ℕ) (stack : List String) (s : Generator) (x : Item)
      (inner : Option (List String × Items))
      → ((stack : List String) → Ends (interpret fuel stack) fuel)
      → IsRanked rank s.composites
      → height rank x ≤ suc fuel
      → IsOrdered rank x
      → statements_of s stack x ≡ ok inner
      → (interpret_inner fuel stack s x inner ≢ err stuck)
        × ((t : Generator)
            → interpret_inner fuel stack s x inner ≡ ok t
            → IsRanked rank t.composites)
  inner-Ends fuel stack s x none calls w r o h =
      (interpret_one_ends stack s x, λ t. interpret_one-IsRanked rank stack s t x w o)
  inner-Ends fuel stack s x (some p) calls w r o h =
      let (bound, ordered) = statements_of-height rank s stack x p fuel w r o h in
      interpret_each-Ends (interpret fuel p.0) fuel s p.1 (calls p.0) w bound ordered

  interpret-Ends : (fuel : ℕ) (stack : List String) → Ends (interpret fuel stack) fuel
  unfolding interpret
  interpret-Ends zero stack s x w r o = absurd (omega (arith, r, height-positive rank x))
  interpret-Ends (suc fuel) stack s x w r o =
      let inner = λ (i : Option (List String × Items)) (a : statements_of s stack x ≡ ok i).
        inner-Ends fuel stack s x i (λ stack s x w r o. interpret-Ends fuel stack s x w r o) w r o
          a in
      (
        λ h. elim (err-of_bind (statements_of s stack x) _ h) [
          | inl a ↦ statements_of_ends s stack x a
          | inr (i, a, b) ↦ (inner i a).0 b
        ],
        λ t h. let (i, a, b) = ok-of_bind (statements_of s stack x) _ h in (inner i a).1 t b,
      )

-- If the composites have a rank that bounds the depth of their statements, those known and those that
-- the statement declares, and the bound is not below the depth of the statement, `interpret` does not
-- run out of its bound.
pub interpret_ends :
    (fuel : ℕ) (rank : String → ℕ) (stack : List String) (s : Generator) (x : Item)
    → IsRanked rank s.composites
    → IsOrdered rank x
    → height rank x ≤ fuel
    → interpret fuel stack s x ≢ err out_of_fuel
interpret_ends fuel rank stack s x w o r = (interpret-Ends rank fuel stack s x w r o).0
