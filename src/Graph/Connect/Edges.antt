-- ===== src/Graph/Connect/Edges.antt =====
-- The two ends of a connection: what output ports lead to, and what input ports come from.
use floem.Prelude.{
  String, ◌≡◌, refl, ap, inl, inr, Bool, false, not, ◌&&◌, ◌||◌, Option, none, some, List, [], ◌∷◌,
  ◌++◌, ◌==◌, arith, String_equality, ×_equality, get, put, get-put, has, contains, contains-append,
  Option-cases, Bool-cases, ok, ok-injective,
}
use floem.Graph.{InPort, Node, Graph}
use floem.Graph.Connect.{connect_output_port, connect_input_port, connect_input_ports, in_names}

abbrev pub leads : Option (String × InPort) → String → String → Bool
leads none m q = false
leads (some (n, r)) m q = n == m && contains q (in_names r)

-- Output port `p` of the instance leads to input port `q` of `m`.
abbrev pub node_out : Node → String → String → String → Bool
node_out i p m q = leads (get i.output2ele p) m q

abbrev pub comes : Option (List (String × String)) → String → String → Bool
comes none n p = false
comes (some l) n p = contains (n, p) l

-- Output port `p` of `n` is noted at input port `q` of the instance.
abbrev pub node_in : Node → String → String → String → Bool
node_in i q n p = comes (get i.input2ele q) n p

abbrev pub some_out : Option Node → String → String → String → Bool
some_out none p m q = false
some_out (some i) p m q = node_out i p m q

abbrev pub some_in : Option Node → String → String → String → Bool
some_in none q n p = false
some_in (some i) q n p = node_in i q n p

abbrev pub out_edge : Graph → String → String → String → String → Bool
out_edge g n p m q = some_out (get g.instances n) p m q

abbrev pub in_edge : Graph → String → String → String → String → Bool
in_edge g n p m q = some_in (get g.instances m) q n p

pair_same : (a b c d : String) → ×_equality.same (a, b) (c, d) ≡ (a == c && b == d)
pair_same a b c d = refl

-- One more connection is noted at one input port.
node_in-connect_input_port :
    (i : Node) (port n p q n' p' : String)
    → node_in (connect_input_port i port n p) q n' p'
      ≡ (node_in i q n' p' || (port == q && (n == n' && p == p')))
unfolding connect_input_port
node_in-connect_input_port i port n p q n' p' = elim (Option-cases (get i.input2ele port)) [
  | inl e ↦ ground (
    arith,
    e,
    get-put i.input2ele port q ((n, p) ∷ []),
    String_equality.same_iff port q,
    λ (s : port ≡ q). ap (get i.input2ele) s,
  )
  | inr (l, e) ↦ ground (
    arith,
    e,
    get-put i.input2ele port q (l ++ (n, p) ∷ []),
    String_equality.same_iff port q,
    λ (s : port ≡ q). ap (get i.input2ele) s,
    contains-append (n', p') l ((n, p) ∷ []),
  )
]

pub node_in-connect_input_ports :
    (i : Node) (l : List String) (n p q n' p' : String)
    → node_in (connect_input_ports i l n p) q n' p'
      ≡ (node_in i q n' p' || (contains q l && (n == n' && p == p')))
unfolding connect_input_ports
node_in-connect_input_ports i [] n p q n' p' = ground arith
node_in-connect_input_ports i (port ∷ l) n p q n' p' = ground (
  arith,
  node_in-connect_input_ports (connect_input_port i port n p) l n p q n' p',
  node_in-connect_input_port i port n p q n' p',
)

pub output2ele-connect_input_ports :
    (i : Node) (l : List String) (n p : String)
    → (connect_input_ports i l n p).output2ele ≡ i.output2ele
unfolding connect_input_ports connect_input_port
output2ele-connect_input_ports i [] n p = refl
output2ele-connect_input_ports i (port ∷ l) n p =
    output2ele-connect_input_ports (connect_input_port i port n p) l n p

pub name-connect_input_ports :
    (i : Node) (l : List String) (n p : String) → (connect_input_ports i l n p).name ≡ i.name
unfolding connect_input_ports connect_input_port
name-connect_input_ports i [] n p = refl
name-connect_input_ports i (port ∷ l) n p =
    name-connect_input_ports (connect_input_port i port n p) l n p

-- What `connect_output_port` does, where it returns.
pub connect_output_port-cases :
    (i j : Node) (port f : String) (r : InPort) (overwrite : Bool)
    → connect_output_port i port f r overwrite ≡ ok j
    → ((not overwrite && has i.output2ele port) ≡ false)
      × (record i { output2ele = put i.output2ele port (f, r) } ≡ j)
unfolding connect_output_port
connect_output_port-cases i j port f r overwrite h =
    elim (Bool-cases (not overwrite && has i.output2ele port)) [
      | inl e ↦ absurd (ground (arith, e))
      | inr e ↦ (e, ok-injective (rw (e, connect_output_port) at h))
    ]
