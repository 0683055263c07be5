-- ===== src/Threads/Started.antt =====
-- Each thread has one starting instance.
use floem.Prelude.{
  String, ◌≡◌, sym, ap, subst, ◌∙◌, ◌⊎◌, inl, inr, true, none, some, List, [], ◌∷◌, arith, All,
  String_equality, ok, ok-of_bind, ok-injective, Dict, get, put, has, values, get-put, values-All,
  Bool-cases, Option-cases,
}
use floem.Graph.{Node, Graph}
use floem.Graph.Starts.{is_start}
use floem.Threads.{note_start, find_starts, check_apis, check_triggers, check_resources}

-- The instance runs on the thread, and starts it.
pub record IsStart (g : Graph) (t : String) (i : Node) : Type 0 where
  pub on_thread : i.thread ≡ some t
  pub starts : is_start g i ≡ ok true

module _ (g : Graph) where
  -- What `note_start` does, where it returns.
  note_start-cases :
      (i : Node) (d r : Dict Node)
      → note_start g i d ≡ ok r
      → (((t : String) → IsStart g t i → ⊥) × (r ≡ d))
        ⊎ ((t : String) × IsStart g t i × (get d t ≡ none) × (r ≡ put d t i))
  unfolding note_start
  note_start-cases i d r h = elim (Option-cases i.thread) [
    | inl e ↦
        inl (λ t s. ground (arith, e, s.on_thread), sym (ok-injective (rw (e, note_start) at h)))
    | inr (t, e) ↦
        let (b, s, h) = ok-of_bind (is_start g i) _ (rw (e, note_start) at h) in
        elim (Bool-cases b) [
          | inl q ↦ elim (Bool-cases (has d t)) [
            | inl k ↦ absurd (ground (arith, rw (q, k) at h))
            | inr k ↦ inr (
              t,
              record { on_thread = e; starts = s ∙ ap ok q },
              ground (arith, k),
              sym (ok-injective (rw (q, k) at h)),
            )
          ]
          | inr q ↦ inl (λ t k. ground (arith, q, s, k.starts), sym (ok-injective (rw q at h)))
        ]
  ]

  find_starts-keeps :
      (l : List Node) (d r : Dict Node) (t : String) (i : Node)
      → find_starts g l d ≡ ok r
      → get d t ≡ some i
      → get r t ≡ some i
  unfolding find_starts
  find_starts-keeps [] d r t i h e = rw (← (ok-injective h)) e
  find_starts-keeps (j ∷ l) d r t i h e =
      let (c, a, b) = ok-of_bind (note_start g j d) _ h in
      find_starts-keeps l c r t i b (elim (note_start-cases j d c a) [
        | inl (_, same) ↦ rw same e
        | inr (u, s, new, same) ↦ ground (
          arith,
          ap (λ x. get x t) same,
          get-put d u t j,
          String_equality.same_iff u t,
          λ (q : u ≡ t). ap (get d) q,
        )
      ])

  -- Each starting instance is the one that the table has for its thread.
  pub find_starts-All :
      (l : List Node) (d r : Dict Node)
      → find_starts g l d ≡ ok r
      → All (λ i. (t : String) → IsStart g t i → get r t ≡ some i) l
  unfolding find_starts
  find_starts-All [] d r h = tt
  find_starts-All (j ∷ l) d r h =
      let (c, a, b) = ok-of_bind (note_start g j d) _ h in
      (
        λ t s. elim (note_start-cases j d c a) [
          | inl (never, same) ↦ absurd (never t s)
          | inr (u, v, new, same) ↦ find_starts-keeps l c r t j b (
              ground (
                arith,
                ap (λ x. get x t) same,
                get-put d u t j,
                String_equality.same_iff u t,
                s.on_thread,
                v.on_thread,
              ))
        ],
        find_starts-All l c r b,
      )

  -- The table has starting instances of the list, and what it had before.
  pub find_starts-only :
      (P : Node → Type 0) (l : List Node) (d r : Dict Node) (t : String) (i : Node)
      → find_starts g l d ≡ ok r
      → All P l
      → get r t ≡ some i
      → (get d t ≡ some i) ⊎ (P i × IsStart g t i)
  unfolding find_starts
  find_starts-only P [] d r t i h p e = inl (rw (ok-injective h) e)
  find_starts-only P (j ∷ l) d r t i h p e =
      let (c, a, b) = ok-of_bind (note_start g j d) _ h in
      elim (find_starts-only P l c r t i b p.1 e) [
        | inr found ↦ inr found
        | inl e ↦ elim (note_start-cases j d c a) [
          | inl (_, same) ↦ inl (rw (← same) e)
          | inr (u, s, new, same) ↦ elim (Bool-cases (String_equality.same u t)) [
            | inl q ↦
                let found : j ≡ i = ground (arith, e, ap (λ x. get x t) same, get-put d u t j) in
                inr (
                  subst (λ k. P k × IsStart g t k) found
                    (p.0, subst (λ k. IsStart g k j) ((String_equality.same_iff u t).0 q) s))
            | inr q ↦ inl (ground (arith, e, ap (λ x. get x t) same, get-put d u t j))
          ]
        ]
      ]

-- What `check_resources` does, where it returns.
pub check_resources-cases :
    (g h : Graph)
    → check_resources g ≡ ok h
    → (starts : Dict Node) × (find_starts g (values g.instances) [] ≡ ok starts)
      × (check_apis g starts g.threads_api ≡ ok h.threads_api)
      × (check_triggers g starts g.threads_internal ≡ ok h.threads_internal)
unfolding check_resources
check_resources-cases g h e =
    let (starts, a, e) = ok-of_bind (find_starts g (values g.instances) []) _ e in
    let (apis, b, e) = ok-of_bind (check_apis g starts g.threads_api) _ e in
    let (triggers, c, e) = ok-of_bind (check_triggers g starts g.threads_internal) _ e in
    let same = ok-injective e in
    (
      starts,
      a,
      b ∙ ap (λ (h : Graph). ok h.threads_api) same,
      c ∙ ap (λ (h : Graph). ok h.threads_internal) same,
    )

-- If `check_resources` returns, two instances that start one thread are one instance.
pub check_resources-IsStart :
    (g h : Graph) (t n m : String) (i j : Node)
    → check_resources g ≡ ok h
    → get g.instances n ≡ some i
    → get g.instances m ≡ some j
    → IsStart g t i
    → IsStart g t j
    → i ≡ j
check_resources-IsStart g h t n m i j e a b s k =
    let (starts, c, _, _) = check_resources-cases g h e in
    let all = find_starts-All g (values g.instances) [] starts c in
    let first : get starts t ≡ some i =
      values-All (λ i. (t : String) → IsStart g t i → get starts t ≡ some i) g.instances n i all a t
        s in
    let second : get starts t ≡ some j =
      values-All (λ i. (t : String) → IsStart g t i → get starts t ≡ some i) g.instances m j all b t
        k in
    ground (arith, first, second)
