-- ===== src/Kills/Defined.antt =====
-- The connections of an instance; and an element that fires one of several ports is refused.
use floem.Prelude.{
  ℕ, zero, suc, String, ◌≡◌, ◌≢◌, true, false, none, some, List, ◌∷◌, ◌==◌, arith, String_equality,
  ok, ok-of_bind, Dict, get, contains,
}
use floem.Graph.{one, InPort, Node, Graph}
use floem.Kills.{node_of, next_kills, kills_of_one, kills_of_fire, entries, join_collect_killset}

-- The list of connections has one to the instance.
pub data Goes (next : String) : List (String × InPort) → Type 0 where
  now : {port : InPort} {l : List (String × InPort)} → Goes next ((next, port) ∷ l)
  after : {x : String × InPort} {l : List (String × InPort)} → Goes next l → Goes next (x ∷ l)

-- For an instance between the dominant and the join instance that fires one of several output ports,
-- and that has no set yet, `join_collect_killset` never returns.
pub join_collect_killset_fails :
    (fuel : ℕ) (g : Graph) (target : String) (scope : List String) (name : String)
    (d : Dict (List String)) (i : Node) (x y : String × InPort) (l : List (String × InPort))
    (r : List String × Dict (List String))
    → get g.instances name ≡ some i
    → i.element.output_fire ≡ some one
    → entries i ≡ x ∷ y ∷ l
    → (name == target) ≡ false
    → get d name ≡ none
    → contains name scope ≡ true
    → join_collect_killset fuel g target scope name d ≢ ok r
unfolding join_collect_killset kills_of_fire kills_of_one
join_collect_killset_fails zero g target scope name d i x y l r found fire outs q f s h =
    ground (arith, h)
join_collect_killset_fails (suc fuel) g target scope name d i x y l r found fire outs q f s h =
    let call = join_collect_killset fuel g target scope in
    let (p, a, _) =
      ok-of_bind (kills_of_fire call g i.element.output_fire (entries i) d) _
        (rw (q, f, s, found, join_collect_killset, node_of) at h) in
    let (m, b, c) = ok-of_bind (next_kills call g x.0 d) _ (rw (fire, outs, kills_of_fire) at a) in
    let (n, e, z) = ok-of_bind (next_kills call g y.0 m.1) _ c in ground (arith, z)
