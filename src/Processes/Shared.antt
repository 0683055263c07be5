-- ===== src/Processes/Shared.antt =====
-- No state instance with a pointer is used by instances of two processes.
use floem.Prelude.{
  ℕ, String, ◌≡◌, ◌≢◌, refl, ap, sym, subst, ◌∙◌, inl, inr, Bool, true, false, not, Option, none,
  some, List, [], ◌∷◌, arith, String_equality, ok, ok-of_bind, ok-injective, Dict, get, put, values,
  get-All, values-All, All, contains, set_union, length, ltb, Option-cases, Bool-cases,
}
use floem.Graph.{exception, Node, StateNode, Graph}
use floem.Graph.Build.{check}
use floem.Graph.Starts.{process_of_thread, device_of_thread}
use floem.Processes.{
  process_for, device_for, process_at, Placed, place_each, has_pointer, check_shared, choose_master,
  note_master, annotate_process_info, assign_all,
}
use floem.Processes.Grown.{
  processes_of, content_of, Grows, Grows-refl, Grows-trans, assign_all-Grows,
}

process_at-Grows : (g h : Graph) → Grows g h → (t : Option String) → process_at h t ≡ process_at g t
unfolding process_at process_for device_for process_of_thread device_of_thread
process_at-Grows g h w none = w.default
process_at-Grows g h w (some t) =
    ground (arith, ap (λ d. get d t) w.threads, ap (λ d. get d t) w.devices, w.default)

-- Each state argument of the instance is noted for the instance's process.
abbrev Noted : Graph → Graph → Node → Type 0
Noted g h i =
    (s : String)
    → contains s i.state_args ≡ true
    → contains (process_at g i.thread) (processes_of h s) ≡ true

place_each-Noted :
    (fuel : ℕ) (d : Dict Node) (s t : Placed)
    → place_each fuel d s ≡ ok t
    → Grows s.graph t.graph × All (λ p. Noted s.graph t.graph p.1) d
unfolding place_each
place_each-Noted fuel [] s t e =
    (subst (λ (t : Placed). Grows s.graph t.graph) (ok-injective e) (Grows-refl s.graph), tt)
place_each-Noted fuel ((k, i) ∷ d) s t e =
    let p = process_at s.graph i.thread in
    let device = device_for s.graph i.thread in
    let g : Graph = record s.graph {
      process2device = put s.graph.process2device p device.0;
      processes = set_union s.graph.processes (p ∷ []);
      devices = set_union s.graph.devices (device.0 ∷ []);
    } in
    let (h, a, b) = ok-of_bind (assign_all fuel p g i.state_args) _ e in
    let (grown, new) = assign_all-Grows fuel p g h i.state_args a in
    let first : Grows s.graph h = record {
      kept = grown.kept;
      content = grown.content;
      inits = grown.inits;
      threads = grown.threads;
      devices = grown.devices;
      default = grown.default;
    } in
    let next : Placed = record s { graph = h; places = put s.places i.name (p, device) } in
    let (rest, later) = place_each-Noted fuel d next t b in
    (Grows-trans first rest, (λ x m. rest.kept x p (new x m), all_noted d t.graph first later))
  where
    all_noted :
        (d : Dict Node) (t : Graph) {g h : Graph}
        → Grows g h
        → All (λ p. Noted h t p.1) d
        → All (λ p. Noted g t p.1) d
    all_noted [] t w n = tt
    all_noted ((k, i) ∷ d) t {g} {h} w n = (
      λ s m.
          subst (λ p. contains p (processes_of t s) ≡ true) (process_at-Grows g h w i.thread)
            (n.0 s m),
      all_noted d t w n.1,
    )

-- A state instance has one process at most, or no pointer.
abbrev IsUnshared : StateNode → Type 0
IsUnshared x = ltb 1 (length x.processes) ≡ true → has_pointer x.state.content ≡ ok false

check_shared-IsUnshared :
    (l : List StateNode) (u : Unit {0}) → check_shared l ≡ ok u → All IsUnshared l
unfolding check_shared
check_shared-IsUnshared [] u e = tt
check_shared-IsUnshared (x ∷ l) u e = elim (Bool-cases (ltb 1 (length x.processes))) [
  | inr q ↦
      (λ h. absurd (ground (arith, q, h)), check_shared-IsUnshared l u (rw (q, check_shared) at e))
  | inl q ↦
      let (b, a, e1) = ok-of_bind (has_pointer x.state.content) _ (rw (q, check_shared) at e) in
      let (v, c, e2) = ok-of_bind (check (not b) exception) _ e1 in
      (λ h. a ∙ ap ok (unset b v c), check_shared-IsUnshared l u e2)
]
  where
    unset : (b : Bool) (v : Unit {0}) → check (not b) exception ≡ ok v → b ≡ false
    unset true v c = absurd (ground (arith, c))
    unset false v c = refl

at_most_one :
    (l : List String) (a b : String)
    → contains a l ≡ true
    → contains b l ≡ true
    → a ≢ b
    → ltb 1 (length l) ≡ true
at_most_one [] a b h k n = cc
at_most_one (x ∷ []) a b h k n = absurd (
    n (
      sym ((String_equality.same_iff x a).0 (ground (arith, h)))
      ∙ (String_equality.same_iff x b).0 (ground (arith, k))))
at_most_one (x ∷ y ∷ l) a b h k n = ground arith

choose_master-states : (g : Graph) → (choose_master g).state_instances ≡ g.state_instances
unfolding choose_master
choose_master-states g = elim (Option-cases g.master_process) [
  | inl e ↦ rw e refl
  | inr (p, e) ↦ rw e refl
]

pub note_master-Grows : (g : Graph) (p : Option String) → Grows g (note_master g p)
unfolding note_master
note_master-Grows g none = Grows-refl g
note_master-Grows g (some p) = record {
  kept = λ s p h. h;
  content = λ s. refl;
  inits = λ s. refl;
  threads = refl;
  devices = refl;
  default = refl;
}

-- The state instance that two processes use.
unshared :
    (h : Graph) (s p q : String)
    → All IsUnshared (values h.state_instances)
    → contains p (processes_of h s) ≡ true
    → contains q (processes_of h s) ≡ true
    → p ≢ q
    → has_pointer (content_of h s) ≡ ok false
unshared h s p q w in_p in_q differ = elim (Option-cases (get h.state_instances s)) [
  | inl e ↦ absurd (ground (arith, e, in_p))
  | inr (x, e) ↦
      let used = λ (p : String) (m : contains p (processes_of h s) ≡ true).
        subst
          (λ (o : Option StateNode).
            contains p (elim o [ none ↦ [] | some i ↦ i.processes ]) ≡ true)
          e m in
      let free = values-All IsUnshared h.state_instances s x w e in
      subst
        (λ (o : Option StateNode).
          has_pointer (elim o [ none ↦ none | some i ↦ i.state.content ]) ≡ ok false)
        (sym e) (free (at_most_one x.processes p q (used p in_p) (used q in_q) differ))
]

-- If `annotate_process_info` returns, then a state instance that is an argument of two instances with
-- different processes is of a state whose content is given and has no `*`.
pub annotate_process_info-has_pointer :
    (fuel : ℕ) (g : Graph) (t : Placed) (a b s : String) (i j : Node)
    → annotate_process_info fuel g ≡ ok t
    → get g.instances a ≡ some i
    → get g.instances b ≡ some j
    → contains s i.state_args ≡ true
    → contains s j.state_args ≡ true
    → process_at g i.thread ≢ process_at g j.thread
    → has_pointer (content_of g s) ≡ ok false
unfolding annotate_process_info
annotate_process_info-has_pointer fuel g t a b s i j e found_a found_b in_a in_b differ =
    let base = note_master g g.master_process in
    let start : Placed = record { graph = base; places = []; api_processes = [] } in
    let (r, x, e1) = ok-of_bind (place_each fuel g.instances start) _ e in
    let (u, y, e2) =
      ok-of_bind (check_shared (values (choose_master r.graph).state_instances)) _ e1 in
    let (grown, noted) = place_each-Noted fuel g.instances start r x in
    let first = note_master-Grows g g.master_process in
    let used =
      λ (c : String) (k : Node) (found : get g.instances c ≡ some k)
          (m : contains s k.state_args ≡ true).
        subst (λ p. contains p (processes_of r.graph s) ≡ true)
          (process_at-Grows g base first k.thread)
          (get-All (λ n k. Noted base r.graph k) g.instances c k noted found s m) in
    let free =
      subst (λ d. All IsUnshared (values d)) (choose_master-states r.graph)
        (check_shared-IsUnshared (values (choose_master r.graph).state_instances) u y) in
    subst (λ c. has_pointer c ≡ ok false) (grown.content s ∙ first.content s)
      (unshared r.graph s (process_at g i.thread) (process_at g j.thread) free
        (used a i found_a in_a) (used b j found_b in_b) differ)
