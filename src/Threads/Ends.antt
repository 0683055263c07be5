-- ===== src/Threads/Ends.antt =====
-- `dfs_collect_return` ends: each nested call has visited one more instance.
use floem.Prelude.{
  ℕ, zero, suc, ◌+◌, ◌≤◌, ◌<◌, String, ◌≡◌, ◌≢◌, refl, ◌∙◌, ◌⊎◌, inl, inr, Option, some, List, [],
  ◌∷◌, ◌++◌, arith, ltb, String_equality, Result, ok, err, get, is_some, keys, contains,
  contains-keys, length, length-append, length-le_of_subset, Bool-cases, Option-cases,
}
use floem.Graph.{GraphError, out_of_fuel, Node, Graph, Port}
use floem.Graph.Build.{or_else}
use floem.Graph.Walk.{depth, on_thread}
use floem.Graph.Walk.Ends.{IsWithin, IsWithin-snoc}
use floem.Threads.{
  Return, no_return, join_return, return_of_port, return_of_ports, collect_return,
  dfs_collect_return,
}

module _ (g : Graph) where
  -- A call returns with a set of visited instances that has not shrunk, or it raises.
  data Settles (v : List String) (call : Result GraphError (Return × List String)) : Type 0 where
    returns :
        (r : Return) (w : List String)
        → call ≡ ok (r, w)
        → IsWithin g w
        → length v ≤ length w
        → Settles v call
    raises : (e : GraphError) → call ≡ err e → e ≢ out_of_fuel → Settles v call

  join_return-cases :
      (r s : Return)
      → ((t : Return) × (join_return r s ≡ ok t)) ⊎ (join_return r s ≡ err GraphError.assertion)
  unfolding join_return
  join_return-cases r s = elim (Option-cases s.instance_name) [
    | inl e ↦ inl (joined r.instance_name, rw (e, join_return) refl)
    | inr (n, e) ↦ elim (Bool-cases (is_some r.instance_name)) [
      | inl k ↦ inr (rw (e, k, join_return) refl)
      | inr k ↦ inl (joined (some n), rw (e, k, join_return) refl)
    ]
  ]
    where
      joined : Option String → Return
      joined n = record {
        types = r.types ++ s.types;
        instance_name = n;
        port = or_else s.port r.port;
      }

  module _ (call : String → List String → Result GraphError (Return × List String)) (room : ℕ)
      (calls : (n : String) (v : List String)
        → IsWithin g v
        → room ≤ length v
        → Settles v (call n v))
      (name : String) (i : Node) where
    return_of_port-Settles :
        (p : Port) (r : Return) (v : List String)
        → IsWithin g v
        → room ≤ length v
        → Settles v (return_of_port call name i p r v)
    unfolding return_of_port
    return_of_port-Settles p r v h k = elim (Option-cases (get i.output2ele p.name)) [
      | inl e ↦ elim (Bool-cases (ltb 0 (length p.argtypes))) [
        | inl m ↦
            returns
              (record {
                types = r.types ++ p.argtypes;
                instance_name = some name;
                port = some p.name;
              })
              v (rw (e, m, return_of_port) refl) h (omega arith)
        | inr m ↦ returns r v (rw (e, m, return_of_port) refl) h (omega arith)
      ]
      | inr (next, e) ↦ elim (calls next.0 v h k) [
        | raises x a b ↦ raises x (rw (e, a, return_of_port) refl) b
        | returns s w a b c ↦ elim (join_return-cases r s) [
          | inl (t, j) ↦ returns t w (rw (e, a, j, return_of_port) refl) b c
          | inr j ↦ raises GraphError.assertion (rw (e, a, j, return_of_port) refl) (λ q. cc)
        ]
      ]
    ]

    return_of_ports-Settles :
        (l : List Port) (r : Return) (v : List String)
        → IsWithin g v
        → room ≤ length v
        → Settles v (return_of_ports call name i l r v)
    unfolding return_of_ports
    return_of_ports-Settles [] r v h k = returns r v refl h (omega arith)
    return_of_ports-Settles (p ∷ l) r v h k = elim (return_of_port-Settles p r v h k) [
      | raises x a b ↦ raises x (rw (a, return_of_ports) refl) b
      | returns s w a b c ↦ elim (return_of_ports-Settles l s w b (omega arith)) [
        | raises x d e ↦ raises x (rw (a, d, return_of_ports) refl) e
        | returns t u d e f ↦ returns t u (rw (a, d, return_of_ports) refl) e (omega (arith, c, f))
      ]
    ]

  collect_return-Settles :
      (fuel : ℕ) (thread n : String) (v : List String)
      → IsWithin g v
      → length (keys g.instances) < fuel + length v
      → Settles v (collect_return fuel g thread n v)
  unfolding collect_return
  collect_return-Settles zero thread n v h k = absurd (
      omega (
        arith,
        length-le_of_subset v (keys g.instances) h.distinct
            (λ x m. contains-keys g.instances x ∙ h.within x m),
      ))
  collect_return-Settles (suc fuel) thread n v h k = elim (Option-cases (get g.instances n)) [
    | inl e ↦ raises GraphError.key_error (rw (e, collect_return) refl) (λ q. cc)
    | inr (i, e) ↦ elim (Bool-cases (contains n v)) [
      | inl m ↦ returns no_return v (rw (e, m, collect_return) refl) h (omega arith)
      | inr m ↦ elim (Bool-cases (on_thread (some thread) i)) [
        | inr t ↦ returns no_return v (rw (e, m, t, collect_return) refl) h (omega arith)
        | inl t ↦
            elim (return_of_ports-Settles (collect_return fuel g thread) (suc (length v))
              (λ x w a b. collect_return-Settles fuel thread x w a (omega arith)) n i
              i.element.outports no_return (v ++ n ∷ [])
              (IsWithin-snoc g v n h (ground (arith, e)) m)
              (omega (arith, length-append v (n ∷ [])))) [
                | raises x a b ↦ raises x (rw (e, m, t, collect_return) a) b
                | returns r w a b c ↦
                    returns r w (rw (e, m, t, collect_return) a) b
                      (omega (arith, c, length-append v (n ∷ [])))
              ]
      ]
    ]
  ]

-- `dfs_collect_return` never runs out of its bound.
pub dfs_collect_return_ends :
    (g : Graph) (name thread : String) → dfs_collect_return g name thread ≢ err out_of_fuel
unfolding dfs_collect_return
dfs_collect_return_ends g name thread e =
    elim (collect_return-Settles g (depth g) thread name []
      (record { distinct = tt; within = λ x k. cc }) (omega arith)) [
        | returns r w a b c ↦ absurd (ground (arith, rw a at e))
        | raises x a b ↦ b (ground (arith, rw a at e))
      ]
