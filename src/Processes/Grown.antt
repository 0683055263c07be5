-- ===== src/Processes/Grown.antt =====
-- The assignment of processes only adds to the processes of the states.
use floem.Prelude.{
  ℕ, zero, suc, String, ◌≡◌, refl, ap, subst, ◌∙◌, inl, inr, true, Option, none, some, List, [],
  ◌∷◌, ◌==◌, arith, String_equality, Result, ok, ok-of_bind, ok-injective, get, get-put, has,
  contains, set_union, contains-set_union, Bool-cases,
}
use floem.Graph.{
  GraphError, Init, no_init, text_init, address_of, list_init, other_init, Inits, last_init,
  next_init, StateNode, Graph, lookup,
}
use floem.Graph.Connect.Linked.{lookup-eq-ok}
use floem.Processes.{
  add_process, note_process, letters, assign_text, assign_letters, assign_item, assign_items,
  assign_init, assign_process_for_state_instance, assign_all,
}

abbrev pub processes_of : Graph → String → List String
processes_of g s = elim (get g.state_instances s) [ none ↦ [] | some i ↦ i.processes ]

abbrev pub content_of : Graph → String → Option String
content_of g s = elim (get g.state_instances s) [ none ↦ none | some i ↦ i.state.content ]

abbrev pub init_of : Graph → String → Option Init
init_of g s = elim (get g.state_instances s) [ none ↦ none | some i ↦ some i.init ]

pub record Grows (g h : Graph) : Type 0 where
  pub kept :
      (s p : String) → contains p (processes_of g s) ≡ true → contains p (processes_of h s) ≡ true
  pub content : (s : String) → content_of h s ≡ content_of g s
  pub inits : (s : String) → init_of h s ≡ init_of g s
  pub threads : h.thread2process ≡ g.thread2process
  pub devices : h.thread2device ≡ g.thread2device
  pub default : h.default_process ≡ g.default_process

pub Grows-refl : (g : Graph) → Grows g g
Grows-refl g = record {
  kept = λ s p h. h;
  content = λ s. refl;
  inits = λ s. refl;
  threads = refl;
  devices = refl;
  default = refl;
}

pub Grows-trans : {g h k : Graph} → Grows g h → Grows h k → Grows g k
Grows-trans a b = record {
  kept = λ s p h. b.kept s p (a.kept s p h);
  content = λ s. b.content s ∙ a.content s;
  inits = λ s. b.inits s ∙ a.inits s;
  threads = b.threads ∙ a.threads;
  devices = b.devices ∙ a.devices;
  default = b.default ∙ a.default;
}

pub note_process-Grows :
    (g : Graph) (name p : String) (i : StateNode)
    → get g.state_instances name ≡ some i
    → Grows g (note_process g name i p)
      × (contains p (processes_of (note_process g name i p) name) ≡ true)
unfolding note_process add_process
note_process-Grows g name p i found =
    let j : StateNode = record i {
      processes = set_union i.processes (p ∷ []);
      state = add_process i.state p;
    } in
    let here = λ (s : String). get-put g.state_instances name s j in
    let more = λ (q : String). contains-set_union q i.processes (p ∷ []) in
    (
      record {
        kept = λ s q h. ground (
          arith,
          h,
          here s,
          found,
          String_equality.same_iff name s,
          λ (e : name ≡ s). ap (get g.state_instances) e,
          more q,
        );
        content = λ s. ground (
          arith,
          here s,
          found,
          String_equality.same_iff name s,
          λ (e : name ≡ s). ap (get g.state_instances) e,
        );
        inits = λ s. ground (
          arith,
          here s,
          found,
          String_equality.same_iff name s,
          λ (e : name ≡ s). ap (get g.state_instances) e,
        );
        threads = refl;
        devices = refl;
        default = refl;
      },
      ground (
        arith,
        here name,
        String_equality.same_iff name name,
        more p,
        String_equality.same_iff p p,
      ),
    )

abbrev pub Calls : (Graph → String → Result GraphError Graph) → Type 0
Calls call = (g h : Graph) (s : String) → call g s ≡ ok h → Grows g h

module _ (call : Graph → String → Result GraphError Graph) (calls : Calls call) where
  pub assign_text-Grows : (g h : Graph) (x : String) → assign_text call g x ≡ ok h → Grows g h
  unfolding assign_text
  assign_text-Grows g h x e = elim (Bool-cases (has g.state_instances x)) [
    | inl q ↦ calls g h x (rw (q, assign_text) at e)
    | inr q ↦ subst (Grows g) (ok-injective (rw (q, assign_text) at e)) (Grows-refl g)
  ]

  pub assign_letters-Grows :
      (g h : Graph) (l : List String) → assign_letters call g l ≡ ok h → Grows g h
  unfolding assign_letters
  assign_letters-Grows g h [] e = subst (Grows g) (ok-injective e) (Grows-refl g)
  assign_letters-Grows g h (x ∷ l) e =
      let (k, a, b) = ok-of_bind (assign_text call g x) _ e in
      Grows-trans (assign_text-Grows g k x a) (assign_letters-Grows k h l b)

  mutual
    unfolding assign_item

    pub assign_item-Grows : (g h : Graph) (x : Init) → assign_item call g x ≡ ok h → Grows g h
    assign_item-Grows g h no_init e = subst (Grows g) (ok-injective e) (Grows-refl g)
    assign_item-Grows g h (text_init x) e = assign_text-Grows g h x e
    assign_item-Grows g h (address_of (text_init x)) e = calls g h x e
    assign_item-Grows g h (address_of no_init) e = absurd (ground (arith, e))
    assign_item-Grows g h (address_of (address_of a)) e = absurd (ground (arith, e))
    assign_item-Grows g h (address_of (list_init l)) e = absurd (ground (arith, e))
    assign_item-Grows g h (address_of (other_init n)) e = absurd (ground (arith, e))
    assign_item-Grows g h (list_init l) e = assign_items-Grows g h l e
    assign_item-Grows g h (other_init n) e = subst (Grows g) (ok-injective e) (Grows-refl g)

    pub assign_items-Grows : (g h : Graph) (l : Inits) → assign_items call g l ≡ ok h → Grows g h
    assign_items-Grows g h last_init e = subst (Grows g) (ok-injective e) (Grows-refl g)
    assign_items-Grows g h (next_init x l) e =
        let (k, a, b) = ok-of_bind (assign_item call g x) _ e in
        Grows-trans (assign_item-Grows g k x a) (assign_items-Grows k h l b)

  assign_init-Grows : (g h : Graph) (x : Init) → assign_init call g x ≡ ok h → Grows g h
  unfolding assign_init
  assign_init-Grows g h no_init e = subst (Grows g) (ok-injective e) (Grows-refl g)
  assign_init-Grows g h (text_init x) e = assign_letters-Grows g h (letters x) e
  assign_init-Grows g h (address_of a) e = absurd (ground (arith, e))
  assign_init-Grows g h (list_init l) e = assign_items-Grows g h l e
  assign_init-Grows g h (other_init n) e = absurd (ground (arith, e))

pub assign-Grows :
    (fuel : ℕ) (p : String) (g h : Graph) (s : String)
    → assign_process_for_state_instance fuel p g s ≡ ok h
    → Grows g h × (contains p (processes_of h s) ≡ true)
unfolding assign_process_for_state_instance
assign-Grows zero p g h s e = absurd (ground (arith, e))
assign-Grows (suc fuel) p g h s e =
    let (i, a, b) = ok-of_bind (lookup g.state_instances s) _ e in
    let (first, new) = note_process-Grows g s p i (lookup-eq-ok g.state_instances s i a) in
    let rest =
      assign_init-Grows (assign_process_for_state_instance fuel p)
        (λ g h s e. (assign-Grows fuel p g h s e).0) (note_process g s i p) h i.init b in
    (Grows-trans first rest, rest.kept s p new)

pub assign_all-Grows :
    (fuel : ℕ) (p : String) (g h : Graph) (l : List String)
    → assign_all fuel p g l ≡ ok h
    → Grows g h × ((s : String) → contains s l ≡ true → contains p (processes_of h s) ≡ true)
unfolding assign_all
assign_all-Grows fuel p g h [] e = (subst (Grows g) (ok-injective e) (Grows-refl g), λ s m. cc)
assign_all-Grows fuel p g h (x ∷ l) e =
    let (k, a, b) = ok-of_bind (assign_process_for_state_instance fuel p g x) _ e in
    let (first, new) = assign-Grows fuel p g k x a in
    let (rest, later) = assign_all-Grows fuel p k h l b in
    (
      Grows-trans first rest,
      λ s m. elim (Bool-cases (x == s)) [
        | inl q ↦ rest.kept s p (
            subst (λ s. contains p (processes_of k s) ≡ true) ((String_equality.same_iff x s).0 q)
              new)
        | inr q ↦ later s (ground (arith, m, q))
      ],
    )
