-- ===== src/Processes/Ends.antt =====
-- `annotate_process_info` ends where no state instance is initialized with itself, in a circle.
use floem.Prelude.{
  ℕ, zero, suc, ◌<◌, String, ◌≡◌, ◌≢◌, sym, ◌∙◌, inl, inr, Bool, true, false, not, Option, none,
  some, List, [], ◌∷◌, ◌++◌, arith, String_equality, Result, err, err-of_bind, bind_avoids, Dict,
  get, put, values, has, contains, contains-append, set_union, length, ltb, Option-cases,
  Bool-cases,
}
use floem.Graph.{
  GraphError, exception, out_of_fuel, Init, no_init, text_init, address_of, list_init, other_init,
  Inits, last_init, next_init, Node, StateNode, Graph, lookup,
}
use floem.Graph.Build.{check}
use floem.Graph.Connect.Linked.{lookup-eq-ok}
use floem.Processes.{
  note_process, letters, assign_text, assign_letters, assign_item, assign_items, assign_init,
  assign_process_for_state_instance, assign_all, device_for, process_at, Placed, place_each,
  has_pointer, check_shared, choose_master, note_master, annotate_process_info,
}
use floem.Processes.Grown.{
  init_of, Grows, Calls, assign_text-Grows, assign_item-Grows, note_process-Grows, assign-Grows,
  assign_all-Grows,
}
use floem.Processes.Shared.{note_master-Grows}

-- The names that an initial value may lead to.
unfoldable mutual
  pub item_names : Init → List String
  item_names no_init = []
  item_names (text_init x) = x ∷ []
  item_names (address_of a) = item_names a
  item_names (list_init l) = items_names l
  item_names (other_init n) = []

  pub items_names : Inits → List String
  items_names last_init = []
  items_names (next_init x l) = item_names x ++ items_names l

unfoldable pub init_names : Init → List String
unfolding item_names letters
init_names (text_init x) = letters x
init_names x = item_names x

-- Each name that the initial value of a state instance may lead to has a lower rank.
pub record IsRanked (g : Graph) (rank : String → ℕ) : Type 0 where
  pub falls :
      (s n : String) (x : Init)
      → init_of g s ≡ some x
      → contains n (init_names x) ≡ true
      → rank n < rank s

IsRanked-Grows : (g h : Graph) (rank : String → ℕ) → Grows g h → IsRanked g rank → IsRanked h rank
IsRanked-Grows g h rank w r = record { falls = λ s n x e m. r.falls s n x (sym (w.inits s) ∙ e) m }

abbrev stuck : GraphError
stuck = out_of_fuel

lookup_ends : {V : Type 0} (d : Dict V) (k : String) → lookup d k ≢ err stuck
lookup_ends d k h = elim (Option-cases (get d k)) [
  | inl e ↦ ground (arith, rw (lookup, e) at h)
  | inr (v, e) ↦ ground (arith, rw (lookup, e) at h)
]

module _ (rank : String → ℕ) (fuel : ℕ) (call : Graph → String → Result GraphError Graph)
    (calls : Calls call)
    (ends : (g : Graph) (n : String) → IsRanked g rank → rank n < fuel → call g n ≢ err stuck) where
  abbrev AreBelow : List String → Type 0
  AreBelow l = (n : String) → contains n l ≡ true → rank n < fuel

  assign_text_ends :
      (g : Graph) (x : String) → IsRanked g rank → rank x < fuel → assign_text call g x ≢ err stuck
  unfolding assign_text
  assign_text_ends g x r b e = elim (Bool-cases (has g.state_instances x)) [
    | inl q ↦ ends g x r b (rw (q, assign_text) at e)
    | inr q ↦ ground (arith, rw (q, assign_text) at e)
  ]

  assign_letters_ends :
      (g : Graph) (l : List String)
      → IsRanked g rank
      → AreBelow l
      → assign_letters call g l ≢ err stuck
  unfolding assign_letters
  assign_letters_ends g [] r b e = ground (arith, e)
  assign_letters_ends g (x ∷ l) r b e = elim (err-of_bind (assign_text call g x) _ e) [
    | inl a ↦ assign_text_ends g x r (b x (ground (arith, String_equality.same_iff x x))) a
    | inr (h, a, k) ↦
        assign_letters_ends h l (IsRanked-Grows g h rank (assign_text-Grows call calls g h x a) r)
          (λ n m. b n (ground (arith, m))) k
  ]

  mutual
    unfolding assign_item item_names

    assign_item_ends :
        (g : Graph) (x : Init)
        → IsRanked g rank
        → AreBelow (item_names x)
        → assign_item call g x ≢ err stuck
    assign_item_ends g no_init r b e = ground (arith, e)
    assign_item_ends g (text_init x) r b e =
        assign_text_ends g x r (b x (ground (arith, String_equality.same_iff x x))) e
    assign_item_ends g (address_of (text_init x)) r b e =
        ends g x r (b x (ground (arith, String_equality.same_iff x x))) e
    assign_item_ends g (address_of no_init) r b e = ground (arith, e)
    assign_item_ends g (address_of (address_of a)) r b e = ground (arith, e)
    assign_item_ends g (address_of (list_init l)) r b e = ground (arith, e)
    assign_item_ends g (address_of (other_init n)) r b e = ground (arith, e)
    assign_item_ends g (list_init l) r b e = assign_items_ends g l r b e
    assign_item_ends g (other_init n) r b e = ground (arith, e)

    assign_items_ends :
        (g : Graph) (l : Inits)
        → IsRanked g rank
        → AreBelow (items_names l)
        → assign_items call g l ≢ err stuck
    assign_items_ends g last_init r b e = ground (arith, e)
    assign_items_ends g (next_init x l) r b e = elim (err-of_bind (assign_item call g x) _ e) [
      | inl a ↦
          assign_item_ends g x r
            (λ n m. b n (ground (arith, m, contains-append n (item_names x) (items_names l)))) a
      | inr (h, a, k) ↦
          assign_items_ends h l (IsRanked-Grows g h rank (assign_item-Grows call calls g h x a) r)
            (λ n m. b n (ground (arith, m, contains-append n (item_names x) (items_names l)))) k
    ]

  assign_init_ends :
      (g : Graph) (x : Init)
      → IsRanked g rank
      → AreBelow (init_names x)
      → assign_init call g x ≢ err stuck
  unfolding assign_init init_names
  assign_init_ends g no_init r b e = ground (arith, e)
  assign_init_ends g (text_init x) r b e = assign_letters_ends g (letters x) r b e
  assign_init_ends g (address_of a) r b e = ground (arith, e)
  assign_init_ends g (list_init l) r b e = assign_items_ends g l r b e
  assign_init_ends g (other_init n) r b e = ground (arith, e)

assign_ends :
    (rank : String → ℕ) (fuel : ℕ) (p : String) (g : Graph) (s : String)
    → IsRanked g rank
    → rank s < fuel
    → assign_process_for_state_instance fuel p g s ≢ err stuck
unfolding assign_process_for_state_instance
assign_ends rank zero p g s r b e = omega (arith, b)
assign_ends rank (suc fuel) p g s r b e = elim (err-of_bind (lookup g.state_instances s) _ e) [
  | inl a ↦ lookup_ends g.state_instances s a
  | inr (i, a, k) ↦
      let found = lookup-eq-ok g.state_instances s i a in
      assign_init_ends rank fuel (assign_process_for_state_instance fuel p)
        (λ g h s e. (assign-Grows fuel p g h s e).0) (λ g n r b. assign_ends rank fuel p g n r b)
        (note_process g s i p) i.init
        (IsRanked-Grows g (note_process g s i p) rank (note_process-Grows g s p i found).0 r)
        (λ n m. omega (arith, b, r.falls s n i.init (ground (arith, found)) m)) k
]

assign_all_ends :
    (rank : String → ℕ) (fuel : ℕ) (p : String) (g : Graph) (l : List String)
    → IsRanked g rank
    → ((s : String) → rank s < fuel)
    → assign_all fuel p g l ≢ err stuck
unfolding assign_all
assign_all_ends rank fuel p g [] r b e = ground (arith, e)
assign_all_ends rank fuel p g (s ∷ l) r b e =
    elim (err-of_bind (assign_process_for_state_instance fuel p g s) _ e) [
      | inl a ↦ assign_ends rank fuel p g s r (b s) a
      | inr (h, a, k) ↦
          assign_all_ends rank fuel p h l
            (IsRanked-Grows g h rank (assign-Grows fuel p g h s a).0 r) b k
    ]

place_each_ends :
    (rank : String → ℕ) (fuel : ℕ) (d : Dict Node) (s : Placed)
    → IsRanked s.graph rank
    → ((s : String) → rank s < fuel)
    → place_each fuel d s ≢ err stuck
unfolding place_each
place_each_ends rank fuel [] s r b e = ground (arith, e)
place_each_ends rank fuel ((k, i) ∷ d) s r b e =
    let p = process_at s.graph i.thread in
    let device = device_for s.graph i.thread in
    let g : Graph = record s.graph {
      process2device = put s.graph.process2device p device.0;
      processes = set_union s.graph.processes (p ∷ []);
      devices = set_union s.graph.devices (device.0 ∷ []);
    } in
    let here : IsRanked g rank = record { falls = r.falls } in
    elim (err-of_bind (assign_all fuel p g i.state_args) _ e) [
      | inl a ↦ assign_all_ends rank fuel p g i.state_args here b a
      | inr (h, a, k) ↦
          place_each_ends rank fuel d
            (record s { graph = h; places = put s.places i.name (p, device) })
            (IsRanked-Grows g h rank (assign_all-Grows fuel p g h i.state_args a).0 here) b k
    ]

check_shared_ends : (l : List StateNode) → check_shared l ≢ err stuck
unfolding check_shared has_pointer
check_shared_ends [] e = ground (arith, e)
check_shared_ends (x ∷ l) e = elim (Bool-cases (ltb 1 (length x.processes))) [
  | inr q ↦ check_shared_ends l (rw (q, check_shared) at e)
  | inl q ↦
      bind_avoids (has_pointer x.state.content) _ stuck (pointer_ends x.state.content)
        (λ b. bind_avoids (check (not b) exception) _ stuck (tested b) (λ u. check_shared_ends l))
        (rw (q, check_shared) at e)
]
  where
    pointer_ends : (c : Option String) → has_pointer c ≢ err stuck
    pointer_ends none e = ground (arith, e)
    pointer_ends (some c) e = ground (arith, e)

    tested : (b : Bool) → check (not b) exception ≢ err stuck
    tested true e = ground (arith, e)
    tested false e = ground (arith, e)

-- If each name that the initial value of a state instance may lead to has a lower rank than that
-- instance and the bound is above each rank, `annotate_process_info` does not run out of its bound.
pub annotate_process_info_ends :
    (fuel : ℕ) (g : Graph) (rank : String → ℕ)
    → IsRanked g rank
    → ((s : String) → rank s < fuel)
    → annotate_process_info fuel g ≢ err out_of_fuel
unfolding annotate_process_info
annotate_process_info_ends fuel g rank r b =
    let base = note_master g g.master_process in
    let start : Placed = record { graph = base; places = []; api_processes = [] } in
    bind_avoids (place_each fuel g.instances start) _ stuck
      (place_each_ends rank fuel g.instances start
        (IsRanked-Grows g base rank (note_master-Grows g g.master_process) r) b)
      (λ s.
        bind_avoids (check_shared (values (choose_master s.graph).state_instances)) _ stuck
          (check_shared_ends (values (choose_master s.graph).state_instances)) (λ u q. cc))
