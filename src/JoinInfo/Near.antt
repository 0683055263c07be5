-- ===== src/JoinInfo/Near.antt =====
-- What the scan of the input ports of an instance finds.
use mathlib.Core.List.{append-nil, append_assoc}
use floem.Prelude.{
  String, ◌≡◌, ap, sym, subst, ◌∙◌, inl, inr, true, not, ◌&&◌, Option, none, some, List, [], ◌∷◌,
  ◌++◌, arith, String_equality, ×_equality, ok, ok-of_bind, ok-injective, get, has, All, All-append,
  contains, IsDistinct, IsDistinct-snoc, Option-cases, Bool-cases,
}
use floem.Graph.{Port, Node, Graph, lookup}
use floem.Graph.Build.{option_text_eq}
use floem.Graph.Connect.Linked.{lookup-eq-ok}
use floem.JoinInfo.{Scan, first_of, scan_connected, scan_port, scan_ports}

-- The first connections of the ports that have one.
abbrev pub first : Option (List (String × String)) → List (String × String)
first none = []
first (some []) = []
first (some (x ∷ l)) = x ∷ []

unfoldable pub sources : Node → List Port → List (String × String)
sources i [] = []
sources i (p ∷ l) = first (get i.input2ele p.name) ++ sources i l

-- The first connection of the port comes from an instance on the same thread.
pub record IsNear (g : Graph) (i : Node) (p : Port) : Type 0 where
  pub source : String × String
  pub others : List (String × String)
  pub from : Node
  pub connected : get i.input2ele p.name ≡ some (source ∷ others)
  pub there : get g.instances source.0 ≡ some from
  pub near : option_text_eq from.thread i.thread ≡ true

sources-append :
    (i : Node) (k : List Port) (p : Port)
    → sources i (k ++ p ∷ []) ≡ sources i k ++ first (get i.input2ele p.name)
unfolding sources
sources-append i [] p = append-nil (first (get i.input2ele p.name))
sources-append i (q ∷ k) p =
    ap (λ l. first (get i.input2ele q.name) ++ l) (sources-append i k p)
    ∙ sym (
        append_assoc (first (get i.input2ele q.name)) (sources i k)
          (first (get i.input2ele p.name)))

module _ (g : Graph) (i : Node) where
  -- What the scan of the ports has found.
  abbrev pub IsScanned : Scan → Type 0
  IsScanned s =
      All (λ p. has i.input2ele p.name ≡ true → IsNear g i p) s.ports
      × (sources i s.ports ≡ s.nodes)
      × IsDistinct s.nodes

  scan_port-IsScanned :
      (s t : Scan) (p : Port) → IsScanned s → scan_port g i s p ≡ ok t → IsScanned t
  unfolding scan_port scan_connected first_of
  scan_port-IsScanned s t p w h = elim (Option-cases (get i.input2ele p.name)) [
    | inl e ↦ subst IsScanned (ok-injective (rw (e, scan_port) at h)) (
      All-append _ s.ports (p ∷ []) w.0 ((λ c. absurd (ground (arith, e, c))), tt),
      sources-append i s.ports p
          ∙ ap (λ o. sources i s.ports ++ first o) e
          ∙ append-nil (sources i s.ports)
          ∙ w.1,
      w.2,
    )
    | inr (l, e) ↦ connected l e (rw (e, scan_port) at h)
  ]
    where
      connected :
          (l : List (String × String))
          → get i.input2ele p.name ≡ some l
          → scan_connected g i s p l ≡ ok t
          → IsScanned t
      connected [] e h = absurd (ground (arith, h))
      connected (x ∷ l) e h =
          let (prev, a, b) = ok-of_bind (lookup g.instances x.0) _ h in
          elim (Bool-cases (option_text_eq prev.thread i.thread && not (contains x s.nodes))) [
            | inl q ↦ subst IsScanned (ok-injective (rw q at b)) (
              All-append _ s.ports (p ∷ []) w.0 (
                (λ c. record {
                  source = x;
                  others = l;
                  from = prev;
                  connected = e;
                  there = lookup-eq-ok g.instances x.0 prev a;
                  near = ground (arith, q);
                }),
                tt,
              ),
              sources-append i s.ports p
                  ∙ ap (λ o. sources i s.ports ++ first o) e
                  ∙ ap (λ k. k ++ x ∷ []) w.1,
              IsDistinct-snoc s.nodes x w.2 (ground (arith, q)),
            )
            | inr q ↦ subst IsScanned (ok-injective (rw q at b)) w
          ]

  pub scan_ports-IsScanned :
      (s t : Scan) (l : List Port) → IsScanned s → scan_ports g i s l ≡ ok t → IsScanned t
  unfolding scan_ports
  scan_ports-IsScanned s t [] w h = subst IsScanned (ok-injective h) w
  scan_ports-IsScanned s t (p ∷ l) w h =
      let (u, a, b) = ok-of_bind (scan_port g i s p) _ h in
      scan_ports-IsScanned u t l (scan_port-IsScanned s u p w a) b

pub scan_ports-All :
    (P : Port → Type 0) (g : Graph) (i : Node) (s t : Scan) (l : List Port)
    → All P s.ports
    → All P l
    → scan_ports g i s l ≡ ok t
    → All P t.ports
unfolding scan_ports scan_port scan_connected
scan_ports-All P g i s t [] w v h = subst (λ (s : Scan). All P s.ports) (ok-injective h) w
scan_ports-All P g i s t (p ∷ l) w v h =
    let (u, a, b) = ok-of_bind (scan_port g i s p) _ h in
    scan_ports-All P g i u t l (one_port u a) v.1 b
  where
    longer : All P (s.ports ++ p ∷ [])
    longer = All-append P s.ports (p ∷ []) w (v.0, tt)

    one_port : (u : Scan) → scan_port g i s p ≡ ok u → All P u.ports
    one_port u a = elim (Option-cases (get i.input2ele p.name)) [
      | inl e ↦ subst (λ (s : Scan). All P s.ports) (ok-injective (rw (e, scan_port) at a)) longer
      | inr (k, e) ↦
          let (x, b, c) = ok-of_bind (first_of k) _ (rw (e, scan_port) at a) in
          let (prev, d, f) = ok-of_bind (lookup g.instances x.0) _ c in
          elim (Bool-cases (option_text_eq prev.thread i.thread && not (contains x s.nodes))) [
            | inl q ↦ subst (λ (s : Scan). All P s.ports) (ok-injective (rw q at f)) longer
            | inr q ↦ subst (λ (s : Scan). All P s.ports) (ok-injective (rw q at f)) w
          ]
    ]
