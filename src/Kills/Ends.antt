-- ===== src/Kills/Ends.antt =====
-- `join_collect_killset` ends on a graph without cycles.
use floem.Prelude.{
  ℕ, zero, suc, ◌<◌, String, ◌≡◌, ◌≢◌, Bool, true, false, Option, none, some, List, [], ◌∷◌, ◌==◌,
  arith, String_equality, Result, err, bind_avoids, Dict, get, set_union, contains, Bool-cases,
  Option-cases, inl, inr,
}
use floem.Graph.{Fire, all, one, multi, zero_or_one, InPort, Node, Graph}
use floem.Kills.{
  KillError, out_of_fuel, node_of, next_kills, kills_of_all, kills_of_one, kills_of_fire, entries,
  join_collect_killset,
}
use floem.Kills.Defined.{Goes, now, after}

-- Each connection leads to an instance of a lower rank.
pub record Falls (g : Graph) (rank : String → ℕ) : Type 0 where
  pub falls :
      (n m : String) (i : Node) → get g.instances n ≡ some i → Goes m (entries i) → rank m < rank n

module _ (g : Graph)
    (call : String → Dict (List String) → Result KillError (List String × Dict (List String))) where
  next_kills_ends :
      (next : String) (d : Dict (List String))
      → call next d ≢ err out_of_fuel
      → next_kills call g next d ≢ err out_of_fuel
  unfolding next_kills
  next_kills_ends next d calls h = elim (Option-cases (get g.instances next)) [
    | inl f ↦ ground (arith, rw (f, next_kills, node_of) at h)
    | inr (j, f) ↦
        bind_avoids (call next d) _ out_of_fuel calls (λ a q. cc) (rw (f, next_kills, node_of) at h)
  ]

  kills_of_all_ends :
      (l : List (String × InPort)) (kills : List String) (d : Dict (List String))
      → ((n : String) (d : Dict (List String)) → Goes n l → call n d ≢ err out_of_fuel)
      → kills_of_all call g l kills d ≢ err out_of_fuel
  unfolding kills_of_all
  kills_of_all_ends [] kills d calls = λ h. ground (arith, h)
  kills_of_all_ends ((next, port) ∷ l) kills d calls =
      bind_avoids (next_kills call g next d) _ out_of_fuel
        (next_kills_ends next d (calls next d now))
        (λ a. kills_of_all_ends l (set_union kills a.0) a.1 (λ n d x. calls n d (after x)))

  kills_of_one_ends :
      (l : List (String × InPort)) (first : Bool) (kills : List String) (d : Dict (List String))
      → ((n : String) (d : Dict (List String)) → Goes n l → call n d ≢ err out_of_fuel)
      → kills_of_one call g l first kills d ≢ err out_of_fuel
  unfolding kills_of_one
  kills_of_one_ends [] first kills d calls = λ h. ground (arith, h)
  kills_of_one_ends ((next, port) ∷ l) true kills d calls =
      bind_avoids (next_kills call g next d) _ out_of_fuel
        (next_kills_ends next d (calls next d now))
        (λ a. kills_of_one_ends l false a.0 a.1 (λ n d x. calls n d (after x)))
  kills_of_one_ends ((next, port) ∷ l) false kills d calls =
      bind_avoids (next_kills call g next d) _ out_of_fuel
        (next_kills_ends next d (calls next d now)) (λ a q. ground (arith, q))

  kills_of_fire_ends :
      (fire : Option Fire) (l : List (String × InPort)) (d : Dict (List String))
      → ((n : String) (d : Dict (List String)) → Goes n l → call n d ≢ err out_of_fuel)
      → kills_of_fire call g fire l d ≢ err out_of_fuel
  unfolding kills_of_fire
  kills_of_fire_ends (some all) l d calls = kills_of_all_ends l [] d calls
  kills_of_fire_ends (some one) l d calls = kills_of_one_ends l true [] d calls
  kills_of_fire_ends (some multi) l d calls = λ h. ground (arith, h)
  kills_of_fire_ends (some zero_or_one) l d calls = λ h. ground (arith, h)
  kills_of_fire_ends none l d calls = λ h. ground (arith, h)

-- If each connection of the graph leads to an instance of a lower rank and the bound is above the
-- rank of the instance, `join_collect_killset` does not run out of its bound.
pub join_collect_killset_ends :
    (fuel : ℕ) (g : Graph) (rank : String → ℕ) (target : String) (scope : List String)
    (name : String) (d : Dict (List String))
    → Falls g rank
    → rank name < fuel
    → join_collect_killset fuel g target scope name d ≢ err out_of_fuel
unfolding join_collect_killset
join_collect_killset_ends zero g rank target scope name d w r h = omega (arith, r)
join_collect_killset_ends (suc fuel) g rank target scope name d w r h =
    elim (Bool-cases (name == target)) [
      | inl q ↦ ground (arith, rw (q, join_collect_killset) at h)
      | inr q ↦ elim (Option-cases (get d name)) [
        | inr (m, f) ↦ ground (arith, rw (q, f, join_collect_killset) at h)
        | inl f ↦ elim (Bool-cases (contains name scope)) [
          | inr s ↦ ground (arith, rw (q, f, s, join_collect_killset) at h)
          | inl s ↦ elim (Option-cases (get g.instances name)) [
            | inl x ↦ ground (arith, rw (q, f, s, x, join_collect_killset, node_of) at h)
            | inr (i, x) ↦
                bind_avoids
                  (kills_of_fire (join_collect_killset fuel g target scope) g i.element.output_fire
                    (entries i) d)
                  _ out_of_fuel
                  (kills_of_fire_ends g (join_collect_killset fuel g target scope)
                    i.element.output_fire (entries i) d
                    (λ n d y.
                      join_collect_killset_ends fuel g rank target scope n d w
                        (omega (arith, r, w.falls name n i x y))))
                  (λ a q. cc) (rw (q, f, s, x, join_collect_killset, node_of) at h)
          ]
        ]
      ]
    ]
