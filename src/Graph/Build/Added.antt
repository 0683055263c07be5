-- ===== src/Graph/Build/Added.antt =====
-- An element or a state that was added is there, and adding it again changes nothing.
use floem.Prelude.{
  ×_equality, String, ◌≡◌, refl, ap, subst, inl, inr, Bool, true, false, ◌&&◌, Option, none, some,
  List, [], ◌∷◌, arith, ◌==◌, String_equality, List_equality, list_beq_iff, if◌then◌else◌, ok, get,
  put, has, get-put, Option-cases, Bool-cases, ok-injective, nat_eq_iff, sym, ◌⊎◌, not,
}
use floem.Graph.{
  Init, no_init, text_init, address_of, list_init, other_init, Inits, last_init, next_init, Graph,
  Port, Element, State, port_eq, ports_eq, element_eq,
}
use floem.Graph.Build.{add_element, state_eq, init_eq, inits_eq, option_text_eq}

option_text_eq_refl : (a : Option String) → option_text_eq a a ≡ true
option_text_eq_refl none = refl
option_text_eq_refl (some a) = (String_equality.same_iff a a).1 refl

mutual
  unfolding init_eq

  init_eq_refl : (a : Init) → init_eq a a ≡ true
  init_eq_refl no_init = refl
  init_eq_refl (text_init a) = (String_equality.same_iff a a).1 refl
  init_eq_refl (address_of a) = init_eq_refl a
  init_eq_refl (list_init l) = inits_eq_refl l
  init_eq_refl (other_init n) = (nat_eq_iff n n).1 refl

  inits_eq_refl : (l : Inits) → inits_eq l l ≡ true
  inits_eq_refl last_init = refl
  inits_eq_refl (next_init a l) = ground (arith, init_eq_refl a, inits_eq_refl l)

state_eq_refl : (s : State) → state_eq s s ≡ true
unfolding state_eq
state_eq_refl s = ground (
  arith,
  String_equality.same_iff s.name s.name,
  option_text_eq_refl s.content,
  init_eq_refl s.init,
)

ports_eq_refl : (l : List Port) → ports_eq l l ≡ true
unfolding ports_eq port_eq
ports_eq_refl [] = refl
ports_eq_refl (p ∷ l) = ground (
  arith,
  String_equality.same_iff p.name p.name,
  list_beq_iff p.argtypes p.argtypes,
  ports_eq_refl l,
)

element_eq_refl : (e : Element) → element_eq e e ≡ true
unfolding element_eq
element_eq_refl e = ground (
  arith,
  String_equality.same_iff e.name e.name,
  ports_eq_refl e.inports,
  ports_eq_refl e.outports,
  String_equality.same_iff e.code e.code,
  list_beq_iff e.state_params e.state_params,
)

pub add_element-cases :
    (g h : Graph) (e : Element) (new : Bool)
    → add_element g e ≡ ok (new, h)
    → ((new ≡ true)
        × (get g.elements e.name ≡ none)
        × (record g { elements = put g.elements e.name e } ≡ h))
      ⊎ ((old : Element) × (new ≡ false)
          × (get g.elements e.name ≡ some old)
          × (element_eq old e ≡ true)
          × (g ≡ h))
unfolding add_element
add_element-cases g h e new a = elim (Option-cases (get g.elements e.name)) [
  | inl f ↦
      let same = ok-injective (rw (f, add_element) at a) in
      inl (ap (λ p. p.0) (sym same), f, ap (λ p. p.1) same)
  | inr (old, f) ↦ elim (Bool-cases (element_eq old e)) [
    | inl t ↦
        let same = ok-injective (rw (f, t, add_element) at a) in
        inr (old, ap (λ p. p.0) (sym same), f, t, ap (λ p. p.1) same)
    | inr t ↦ absurd (ground (arith, rw (f, t, add_element) at a))
  ]
]

add_element-known :
    (g : Graph) (e old : Element)
    → get g.elements e.name ≡ some old
    → element_eq old e ≡ true
    → add_element g e ≡ ok (false, g)
unfolding add_element
add_element-known g e old f t = rw (f, t, add_element)

-- If `addElement` returns, it has said whether the name is new, other names lead where they did, and
-- a second `addElement` of the same element says that it is not new and leaves the graph alone.
pub add_element_again :
    (g h : Graph) (e : Element) (new : Bool) (k : String)
    → add_element g e ≡ ok (new, h)
    → (new ≡ not (has g.elements e.name))
      × (get h.elements k ≡ (if new && e.name == k then some e else get g.elements k))
      × (add_element h e ≡ ok (false, h))
add_element_again g h e new k a = elim (add_element-cases g h e new a) [
  | inl (is_new, absent, same) ↦
      let at_key = λ (j : String). get-put g.elements e.name j e in
      let self : get h.elements e.name ≡ some e = ground (
        arith,
        ap (λ (g : Graph). get g.elements e.name) same,
        at_key e.name,
        String_equality.same_iff e.name e.name,
      ) in
      (
        ground (arith),
        ground (arith, ap (λ (g : Graph). get g.elements k) same, at_key k),
        add_element-known h e e self (element_eq_refl e),
      )
  | inr (old, is_old, found, equal, same) ↦ (
    ground (arith),
    ground (arith, ap (λ (g : Graph). get g.elements k) same),
    add_element-known h e old (subst (λ (g : Graph). get g.elements e.name ≡ some old) same found)
        equal,
  )
]
