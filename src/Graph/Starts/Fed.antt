-- ===== src/Graph/Starts/Fed.antt =====
-- What starts a thread: an instance that no instance of the thread leads to.
use floem.Prelude.{
  String, ◌≡◌, refl, ap, ◌∙◌, inl, inr, ◌↔◌, true, false, Option, some, List, [], ◌∷◌, All, arith,
  String_equality, ok, ok-of_bind, get, values, Bool-cases, Option-cases,
}
use floem.Graph.{Node, Graph, lookup}
use floem.Graph.Build.{option_text_eq}
use floem.Graph.Starts.{is_queue_clean, fed_by, fed_by_any, is_start}

-- The first name is that of an instance on another thread.
pub record IsElsewhere (g : Graph) (thread : Option String) (edge : String × String) : Type 0 where
  pub node : Node
  pub found : get g.instances edge.0 ≡ some node
  pub other_thread : option_text_eq node.thread thread ≡ false

module _ (g : Graph) (thread : Option String) where
  fed_by-IsElsewhere :
      (l : List (String × String)) → fed_by g thread l ≡ ok false → All (IsElsewhere g thread) l
  unfolding fed_by
  fed_by-IsElsewhere [] h = tt
  fed_by-IsElsewhere ((n, p) ∷ l) h = elim (Option-cases (get g.instances n)) [
    | inl e ↦ absurd (ground (arith, rw (e, fed_by, lookup) at h))
    | inr (i, e) ↦ elim (Bool-cases (option_text_eq i.thread thread)) [
      | inl t ↦ absurd (ground (arith, rw (e, t, fed_by, lookup) at h))
      | inr t ↦ (
        record { node = i; found = e; other_thread = t },
        fed_by-IsElsewhere l (rw (e, t, fed_by, lookup) at h),
      )
    ]
  ]

  IsElsewhere-fed_by :
      (l : List (String × String)) → All (IsElsewhere g thread) l → fed_by g thread l ≡ ok false
  unfolding fed_by
  IsElsewhere-fed_by [] h = refl
  IsElsewhere-fed_by ((n, p) ∷ l) h =
      rw (h.0.found, h.0.other_thread, fed_by, lookup) (IsElsewhere-fed_by l h.1)

  fed_by_any-IsElsewhere :
      (l : List (List (String × String)))
      → fed_by_any g thread l ≡ ok false
      → All (λ k. All (IsElsewhere g thread) k) l
  unfolding fed_by_any
  fed_by_any-IsElsewhere [] h = tt
  fed_by_any-IsElsewhere (k ∷ l) h =
      let (b, e, h) = ok-of_bind (fed_by g thread k) _ h in
      elim (Bool-cases b) [
        | inl t ↦ absurd (ground (arith, rw t at h))
        | inr t ↦ (fed_by-IsElsewhere k (e ∙ ap ok t), fed_by_any-IsElsewhere l (rw t at h))
      ]

  IsElsewhere-fed_by_any :
      (l : List (List (String × String)))
      → All (λ k. All (IsElsewhere g thread) k) l
      → fed_by_any g thread l ≡ ok false
  unfolding fed_by_any
  IsElsewhere-fed_by_any [] h = refl
  IsElsewhere-fed_by_any (k ∷ l) h =
      rw (IsElsewhere-fed_by k h.0, fed_by_any) (IsElsewhere-fed_by_any l h.1)

-- `is_start` returns true exactly if the instance does not clean a queue and each instance that is
-- noted at one of its input ports is there and runs on another thread.
pub is_start-IsElsewhere :
    (g : Graph) (i : Node)
    → (is_start g i ≡ ok true) ↔ (
        (is_queue_clean i ≡ false) × All (λ k. All (IsElsewhere g i.thread) k) (values i.input2ele))
unfolding is_start
is_start-IsElsewhere g i = (
  λ h. elim (Bool-cases (is_queue_clean i)) [
    | inl e ↦ absurd (ground (arith, rw (e, is_start) at h))
    | inr e ↦
        let (b, f, k) =
          ok-of_bind (fed_by_any g i.thread (values i.input2ele)) _ (rw (e, is_start) at h) in
        (e, fed_by_any-IsElsewhere g i.thread (values i.input2ele) (f ∙ ap ok (ground (arith, k))))
  ],
  λ h. rw (h.0, IsElsewhere-fed_by_any g i.thread (values i.input2ele) h.1, is_start) refl,
)
