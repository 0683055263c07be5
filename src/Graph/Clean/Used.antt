-- ===== src/Graph/Clean/Used.antt =====
-- Which instances `remove_unused_elements` of floem/graph.py finds unused.
use floem.Prelude.{
  String, ◌≡◌, refl, ap, true, false, some, List, [], ◌∷◌, arith, String_equality, Dict, contains,
  Option-cases, inl, inr, ◌⊎◌, ◌↔◌, ◌==◌, Bool-cases,
}
use floem.Graph.{
  Node, Api, Port, InPort, Special, clean, plain, to_net, from_net, queue, hton, other,
}
use floem.Graph.Starts.{unused, is_queue_clean}
use floem.Graph.Clean.{called, is_unused}

abbrev pub IsCalled : List Api → String → Type 0
IsCalled [] n = ⊥
IsCalled (a ∷ l) n = (a.call_instance ≡ some n) ⊎ IsCalled l n

-- Why an instance is kept: its kind, a connection of the side that its ports ask for, no ports at all,
-- or an API function that calls it.
pub data IsUsed (apis : List Api) (i : Node) : Type 0 where
  on_core : i.core_id ≡ true → IsUsed apis i
  cleans : i.element.special ≡ clean → IsUsed apis i
  fed :
      {p : Port} {l : List Port} {x : String × List (String × String)}
      {d : Dict (List (String × String))}
      → i.element.inports ≡ p ∷ l
      → i.input2ele ≡ x ∷ d
      → IsUsed apis i
  sends :
      {x : String × (String × InPort)} {d : Dict (String × InPort)}
      → i.element.inports ≡ []
      → i.output2ele ≡ x ∷ d
      → IsUsed apis i
  portless : i.element.inports ≡ [] → i.element.outports ≡ [] → IsUsed apis i
  called_by : IsCalled apis i.name → IsUsed apis i

contains-called :
    (apis : List Api) (n : String) → (contains n (called apis) ≡ true) ↔ IsCalled apis n
unfolding called
contains-called [] n = (λ h. cc, λ x. absurd x)
contains-called (a ∷ l) n = elim (Option-cases a.call_instance) [
  | inl e ↦ rw e (
    λ h. inr ((contains-called l n).0 h),
    λ x. elim x [ inl q ↦ cc | inr q ↦ (contains-called l n).1 q ],
  )
  | inr (m, e) ↦ rw e (
    λ h. elim (Bool-cases (m == n)) [
      | inl q ↦ inl (ap some ((String_equality.same_iff m n).0 q))
      | inr q ↦ inr ((contains-called l n).0 (ground (arith, q, h)))
    ],
    λ x. elim x [
      | inl q ↦
          let same : (m == n) ≡ true = (String_equality.same_iff m n).1 (some_same q) in
          ground (arith, same)
      | inr q ↦ let c = (contains-called l n).1 q in ground (arith, c)
    ],
  )
]
  where
    some_same : {m n : String} → some m ≡ some n → m ≡ n
    some_same h = cc

list_cases {ℓ} : {A : Type ℓ} (l : List A) → (l ≡ []) ⊎ ((x : A) × (k : List A) × (l ≡ x ∷ k))
list_cases [] = inl refl
list_cases (x ∷ l) = inr (x, l, refl)

clean_special : (s : Special) → (elim s [ clean ↦ true | _ ↦ false ]) ≡ true → s ≡ clean
clean_special clean h = refl
clean_special plain h = cc
clean_special to_net h = cc
clean_special from_net h = cc
clean_special (queue q) h = cc
clean_special (hton q) h = cc
clean_special (other q) h = cc

pub IsUsed-of : (apis : List Api) (i : Node) → is_unused apis i ≡ false → IsUsed apis i
unfolding is_unused unused is_queue_clean
IsUsed-of apis i h = elim (Bool-cases (contains i.name (called apis))) [
  | inl c ↦ called_by ((contains-called apis i.name).0 c)
  | inr c ↦ elim (Bool-cases i.core_id) [
    | inl e ↦ on_core e
    | inr e ↦ elim (Bool-cases (is_queue_clean i)) [
      | inl q ↦ cleans (clean_special i.element.special q)
      | inr q ↦ elim (list_cases i.element.inports) [
        | inr (p, l, x) ↦ elim (list_cases i.input2ele) [
          | inr (y, d, z) ↦ fed x z
          | inl z ↦ absurd (ground (arith, c, rw (e, q, x, z, unused) at h))
        ]
        | inl x ↦ elim (list_cases i.element.outports) [
          | inl y ↦ portless x y
          | inr (p, l, y) ↦ elim (list_cases i.output2ele) [
            | inr (w, d, z) ↦ sends x z
            | inl z ↦ absurd (ground (arith, c, rw (e, q, x, y, z, unused) at h))
          ]
        ]
      ]
    ]
  ]
]

pub is_unused-IsUsed : (apis : List Api) (i : Node) → IsUsed apis i → is_unused apis i ≡ false
unfolding is_unused unused is_queue_clean
is_unused-IsUsed apis i (on_core e) = ground (arith, e)
is_unused-IsUsed apis i (cleans e) = rw e (ground arith)
is_unused-IsUsed apis i (fed e f) = rw (e, f) (ground arith)
is_unused-IsUsed apis i (sends e f) = rw (e, f) (ground arith)
is_unused-IsUsed apis i (portless e f) = rw (e, f) (ground arith)
is_unused-IsUsed apis i (called_by c) =
    let e = (contains-called apis i.name).1 c in ground (arith, e)
