-- ===== src/Threads/Order/Kept.antt =====
-- What `insert_resource_order` of floem/thread_allocation.py refuses.
use floem.Prelude.{
  String, Bool, true, false, not, Option, none, some, List, [], ◌∷◌, ◌≡◌, refl, subst, inl, inr,
  Dict, get, has, get-All, All, ap, arith, String_equality, All-put, Bool-cases, contains, Result,
  ok, err, ok-of_bind, ok-injective,
}
use floem.Graph.{
  GraphError, key_error, exception, Node, Before, instance_before, group_before, Graph, lookup,
}
use floem.Graph.Build.{check}
use floem.Graph.Walk.{find_subgraph_same_thread}
use floem.Threads.Order.{
  Extras, no_extras, note_reach, note_reach_once, collect_reach, collect_extra, collect_extras,
  insert_resource_order,
}

-- `reach` is what instance `a` leads to on its thread.
abbrev pub Reach : Graph → String → List String → Type 0
Reach g a reach =
    (i : Node) × (get g.instances a ≡ some i)
    × (find_subgraph_same_thread g a [] i.thread ≡ ok reach)

found :
    {A : Type 0} (o : Option A) (v : A)
    → ◌≡◌ {A = Result GraphError A} (elim o [ none ↦ err key_error | some w ↦ ok w ]) (ok v)
    → o ≡ some v
found none v h = cc
found (some w) v h = ap some (ok-injective h)

lookup-get : {B : Type 0} (d : Dict B) (k : String) (v : B) → lookup d k ≡ ok v → get d k ≡ some v
lookup-get d k v h = found (get d k) v h

abbrev AllReach : Graph → Dict (List String) → Type 0
AllReach g points = All (λ p. Reach g p.0 p.1) points

note_reach_once-AllReach :
    (g : Graph) (points next : Dict (List String)) (a : String)
    → AllReach g points
    → note_reach_once g points a ≡ ok next
    → AllReach g next
unfolding note_reach_once note_reach
note_reach_once-AllReach g points next a h r = elim (Bool-cases (has points a)) [
  | inl e ↦ subst (AllReach g) (ok-injective (rw e at r)) h
  | inr e ↦
      let r' : note_reach g points a ≡ ok next = rw e at r in
      let (i, s, t) = ok-of_bind (lookup g.instances a) _ r' in
      let (reach, u, v) = ok-of_bind (find_subgraph_same_thread g a [] i.thread) _ t in
      subst (AllReach g) (ok-injective v)
        (All-put (λ p. Reach g p.0 p.1) points a reach h (i, lookup-get g.instances a i s, u))
]

collect_reach-AllReach :
    (g : Graph) (order : List (Before × String)) (points next : Dict (List String))
    → AllReach g points
    → collect_reach g order points ≡ ok next
    → AllReach g next
unfolding collect_reach
collect_reach-AllReach g [] points next h r = subst (AllReach g) (ok-injective r) h
collect_reach-AllReach g ((group_before l, b) ∷ order) points next h r =
    collect_reach-AllReach g order points next h r
collect_reach-AllReach g ((instance_before a, b) ∷ order) points next h r =
    let (p, s, t) = ok-of_bind (note_reach_once g points a) _ r in
    let (q, u, v) = ok-of_bind (note_reach_once g p b) _ t in
    collect_reach-AllReach g order q next
      (note_reach_once-AllReach g p q b (note_reach_once-AllReach g points p a h s) u) v

-- No order of two instances goes against the connections of the second one's thread.
abbrev pub IsFree : Graph → Before × String → Type 0
IsFree g (group_before l, b) = Unit
IsFree g (instance_before a, b) =
    (reach : List String) × Reach g b reach × (contains a reach ≡ false)

check-true : (b : Bool) {u : Unit {0}} → check b exception ≡ ok u → b ≡ true
check-true true h = refl
check-true false h = cc

collect_extra-IsFree :
    (g : Graph) (points : Dict (List String)) (x y : Extras) (a b : String)
    → AllReach g points
    → collect_extra points x a b ≡ ok y
    → IsFree g (instance_before a, b)
unfolding collect_extra
collect_extra-IsFree g points x y a b h r =
    let (of_b, s, t) = ok-of_bind (lookup points b) _ r in
    let (u, v, w) = ok-of_bind (check (not (contains a of_b)) exception) _ t in
    let allowed : not (contains a of_b) ≡ true = check-true (not (contains a of_b)) v in
    (of_b, get-All (Reach g) points b of_b h (lookup-get points b of_b s), ground (arith, allowed))

collect_extras-IsFree :
    (g : Graph) (points : Dict (List String)) (order : List (Before × String)) (x y : Extras)
    → AllReach g points
    → collect_extras points order x ≡ ok y
    → All (IsFree g) order
unfolding collect_extras
collect_extras-IsFree g points [] x y h r = tt
collect_extras-IsFree g points ((group_before l, b) ∷ order) x y h r =
    (tt, collect_extras-IsFree g points order x y h r)
collect_extras-IsFree g points ((instance_before a, b) ∷ order) x y h r =
    let (z, s, t) = ok-of_bind (collect_extra points x a b) _ r in
    (collect_extra-IsFree g points x z a b h s, collect_extras-IsFree g points order z y h t)

-- If `insert_resource_order` returns, then for each required order of one instance before another,
-- the second is an instance of the graph, and the first is none of those that the connections of
-- the second one's thread lead to.
pub insert_resource_order-IsFree :
    (g h : Graph) → insert_resource_order g ≡ ok h → All (IsFree g) g.threads_order
unfolding insert_resource_order
insert_resource_order-IsFree g h r =
    let (points, s, t) = ok-of_bind (collect_reach g g.threads_order []) _ r in
    let (x, u, v) = ok-of_bind (collect_extras points g.threads_order no_extras) _ t in
    collect_extras-IsFree g points g.threads_order no_extras x
      (collect_reach-AllReach g g.threads_order [] points tt s) u
