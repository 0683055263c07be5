-- ===== src/Graph/Clean/Unused.antt =====
-- What is left when unused instances are removed.
use floem.Prelude.{
  String, ◌≡◌, refl, sym, subst, ap, ◌∙◌, Bool, true, false, Option, none, some, List, [], ◌∷◌,
  arith, String_equality, if◌then◌else◌, ok, ok-of_bind, ok-injective, Dict, get, get-remove,
  remove, keys, values, contains, contains-keys, IsDistinct, Option-cases, inl, inr, ◌↔◌, ◌==◌,
  ◌&&◌, not, filter, contains-filter, Bool-cases, All, values-All, length, ltb,
}
use floem.Graph.{Node, Graph, Api}
use floem.Graph.Clean.{
  is_unused, unused_names, remove_names, remove_roots, check_threads, remove_unused_elements,
}
use floem.Graph.Clean.Used.{IsUsed, IsUsed-of, is_unused-IsUsed}

get-remove_names :
    (l : List String) (d : Dict Node) (k : String)
    → get (remove_names l d) k ≡ (if contains k l then none else get d k)
unfolding remove_names
get-remove_names [] d k = refl
get-remove_names (n ∷ l) d k = ground (arith, get-remove_names l (remove d n) k, get-remove d n k)

abbrev pub unused_at : List Api → Option Node → Bool
unused_at apis none = false
unused_at apis (some i) = is_unused apis i

contains-unused_names :
    (apis : List Api) (d : Dict Node) (k : String)
    → IsDistinct (keys d)
    → contains k (unused_names apis d) ≡ unused_at apis (get d k)
unfolding unused_names keys get
contains-unused_names apis [] k u = refl
contains-unused_names apis ((n, i) ∷ d) k u = ground (
  arith,
  contains-unused_names apis d k u.1,
  u.0,
  String_equality.same_iff n k,
  λ (e : n ≡ k). ap (λ x. contains x (keys d)) e,
  contains-keys d k,
)

has_thread :
    (l : List Node) (x : Unit {0})
    → check_threads l ≡ ok x
    → All (λ i. (t : String) × (i.thread ≡ some t)) l
unfolding check_threads
has_thread [] x h = tt
has_thread (i ∷ l) x h = elim (Option-cases i.thread) [
  | inl e ↦ absurd (ground (arith, rw (e, check_threads) at h))
  | inr (t, e) ↦ ((t, e), has_thread l x (rw (e, check_threads) at h))
]

contains-remove_roots :
    (l roots out : List String) (k : String)
    → remove_roots l roots ≡ ok out
    → contains k out ≡ (contains k roots && not (contains k l))
unfolding remove_roots
contains-remove_roots [] roots out k h = ground (arith, ap (λ x. contains k x) (ok-injective h))
contains-remove_roots (n ∷ l) roots out k h = elim (Bool-cases (contains n roots)) [
  | inr e ↦ absurd (ground (arith, e, h))
  | inl e ↦
      let left = filter (λ m. not (m == n)) roots in
      let r = contains-remove_roots l left out k (rw (e, remove_roots) at h) in
      ground (
        arith,
        r,
        contains-filter k (λ m. not (m == n)) roots,
        String_equality.same_iff n k,
        String_equality.same_iff k n,
      )
]

get_left :
    (g h : Graph) (resource : Bool) (k : String)
    → IsDistinct (keys g.instances)
    → remove_unused_elements g resource ≡ ok h
    → get h.instances k
      ≡ (if unused_at g.threads_api (get g.instances k) then none else get g.instances k)
unfolding remove_unused_elements
get_left g h resource k u e =
    let names = unused_names g.threads_api g.instances in
    let (roots, _, e) =
      ok-of_bind
        (if ltb 0 (length g.threads_roots)
          then remove_roots names g.threads_roots
          else ok g.threads_roots)
        _ e in
    let (_, _, e) =
      ok-of_bind
        (if resource then check_threads (values (remove_names names g.instances)) else ok tt) _ e in
    ground (
      arith,
      ap (λ (g : Graph). get g.instances k) (ok-injective e),
      get-remove_names names g.instances k,
      contains-unused_names g.threads_api g.instances k u,
    )

roots_left :
    (names roots out : List String) (k : String)
    → (if ltb 0 (length roots) then remove_roots names roots else ok roots) ≡ ok out
    → contains k out ≡ (contains k roots && not (contains k names))
roots_left names [] out k h = ground (arith, ap (λ x. contains k x) (ok-injective h))
roots_left names (r ∷ roots) out k h =
    let e : ltb 0 (length (r ∷ roots)) ≡ true = ground arith in
    contains-remove_roots names (r ∷ roots) out k (rw e at h)

get_roots :
    (g h : Graph) (resource : Bool) (k : String) (i : Node)
    → IsDistinct (keys g.instances)
    → remove_unused_elements g resource ≡ ok h
    → get g.instances k ≡ some i
    → contains k h.threads_roots ≡ (contains k g.threads_roots && not (is_unused g.threads_api i))
unfolding remove_unused_elements
get_roots g h resource k i u e f =
    let names = unused_names g.threads_api g.instances in
    let (roots, r, e) =
      ok-of_bind
        (if ltb 0 (length g.threads_roots)
          then remove_roots names g.threads_roots
          else ok g.threads_roots)
        _ e in
    let (_, _, e) =
      ok-of_bind
        (if resource then check_threads (values (remove_names names g.instances)) else ok tt) _ e in
    sym (ap (λ (g : Graph). contains k g.threads_roots) (ok-injective e))
    ∙ roots_left names g.threads_roots roots k r
    ∙ ap (λ b. contains k g.threads_roots && not b)
        (contains-unused_names g.threads_api g.instances k u ∙ ap (unused_at g.threads_api) f)

-- If no name has two entries and `remove_unused_elements` returns, an instance of the graph is still
-- there, unchanged, exactly if it is used: it has a core, or cleans a queue, or has input ports of
-- which one is connected, or has no input port and a connected output port, or has no ports, or is
-- called by an API function. It is a root of the new graph exactly if it was a root and is used.
pub remove_unused_elements_lem :
    (g h : Graph) (resource : Bool) (k : String) (i : Node)
    → IsDistinct (keys g.instances)
    → remove_unused_elements g resource ≡ ok h
    → get g.instances k ≡ some i
    → ((get h.instances k ≡ some i) ↔ IsUsed g.threads_api i)
      × ((contains k h.threads_roots ≡ true)
          ↔ ((contains k g.threads_roots ≡ true) × IsUsed g.threads_api i))
remove_unused_elements_lem g h resource k i u e f =
    let left =
      subst (λ o. get h.instances k ≡ (if unused_at g.threads_api o then none else o)) f
        (get_left g h resource k u e) in
    let roots = get_roots g h resource k i u e f in
    (
      (
        λ q. elim (Bool-cases (is_unused g.threads_api i)) [
          | inr c ↦ IsUsed-of g.threads_api i c
          | inl c ↦ absurd (ground (arith, q, c, left))
        ],
        λ q. let c = is_unused-IsUsed g.threads_api i q in ground (arith, c, left),
      ),
      (
        λ q. (ground (arith, q, roots), IsUsed-of g.threads_api i (ground (arith, q, roots))),
        λ q.
            let c = is_unused-IsUsed g.threads_api i q.1 in
            let b = q.0 in ground (arith, b, c, roots),
      ),
    )

-- If `remove_unused_elements` with `resource` returns, each instance that is left has a thread.
pub remove_unused_elements_threads :
    (g h : Graph) (k : String) (i : Node)
    → remove_unused_elements g true ≡ ok h
    → get h.instances k ≡ some i
    → (t : String) × (i.thread ≡ some t)
unfolding remove_unused_elements
remove_unused_elements_threads g h k i e f =
    let names = unused_names g.threads_api g.instances in
    let (roots, _, e) =
      ok-of_bind
        (if ltb 0 (length g.threads_roots)
          then remove_roots names g.threads_roots
          else ok g.threads_roots)
        _ e in
    let (x, a, e) = ok-of_bind (check_threads (values (remove_names names g.instances))) _ e in
    values-All (λ i. (t : String) × (i.thread ≡ some t)) (remove_names names g.instances) k i
      (has_thread (values (remove_names names g.instances)) x a)
      (ap (λ (g : Graph). get g.instances k) (ok-injective e) ∙ f)
