-- ===== src/Threads/Order/Paired.antt =====
-- The numbers of the ports that `insert_resource_order` of floem/thread_allocation.py gives out.
use floem.Prelude.{
  ℕ, zero, suc, ◌<◌, String, Option, none, some, List, [], ◌∷◌, ◌++◌, ◌≡◌, refl, sym, subst, ap,
  ap₂, ◌∙◌, ◌⊎◌, inl, inr, length, arith, Dict, get, get-put, String_equality, ◌==◌, if◌then◌else◌,
  Bool-cases, not, contains, ok, ok-of_bind, ok-injective,
}
use floem.Graph.{exception, Before, instance_before, group_before, lookup}
use floem.Graph.Build.{check}
use floem.Threads.Order.{
  Extras, no_extras, entries, append_entry, add_extra, collect_extra, collect_extras,
}

-- The element at a number.
abbrev pub get_elem? {ℓ} : {A : Type ℓ} → List A → ℕ → Option A
get_elem? [] n = none
get_elem? (x ∷ l) zero = some x
get_elem? (x ∷ l) (suc n) = get_elem? l n

module _ {ℓ} {A : Type ℓ} where
  get_elem?-before :
      (l : List A) (x y : A) (n : ℕ) → get_elem? l n ≡ some y → get_elem? (l ++ x ∷ []) n ≡ some y
  get_elem?-before [] x y n h = cc
  get_elem?-before (z ∷ l) x y zero h = h
  get_elem?-before (z ∷ l) x y (suc n) h = get_elem?-before l x y n h

  get_elem?-last : (l : List A) (x : A) → get_elem? (l ++ x ∷ []) (length l) ≡ some x
  get_elem?-last [] x = refl
  get_elem?-last (z ∷ l) x = get_elem?-last l x

  get_elem?-cases :
      (l : List A) (x y : A) (n : ℕ)
      → get_elem? (l ++ x ∷ []) n ≡ some y
      → (get_elem? l n ≡ some y) ⊎ ((n ≡ length l) × (x ≡ y))
  get_elem?-cases [] x y zero h = inr (refl, cc)
  get_elem?-cases [] x y (suc n) h = cc
  get_elem?-cases (z ∷ l) x y zero h = inl h
  get_elem?-cases (z ∷ l) x y (suc n) h = elim (get_elem?-cases l x y n h) [
    | inl e ↦ inl e
    | inr e ↦ inr (ap suc e.0, e.1)
  ]

  pub lt_of_get_elem? : (l : List A) (n : ℕ) (y : A) → get_elem? l n ≡ some y → n < length l
  lt_of_get_elem? [] n y h = cc
  lt_of_get_elem? (x ∷ l) zero y h = omega arith
  lt_of_get_elem? (x ∷ l) (suc n) y h = omega (arith, lt_of_get_elem? l n y h)

abbrev pub Ports : Type 0
Ports = Dict (List (String × ℕ))

-- What a port leads to leads back to it.
abbrev pub Answers : Ports → Ports → Type 0
Answers d e =
    (a b : String) (i j : ℕ)
    → get_elem? (entries d a) i ≡ some (b, j)
    → get_elem? (entries e b) j ≡ some (a, i)

entries-append :
    (d : Ports) (k j : String) (x : String × ℕ)
    → entries (append_entry d k x) j ≡ (if k == j then entries d k ++ x ∷ [] else entries d j)
unfolding entries append_entry
entries-append d k j x = elim (Bool-cases (k == j)) [
  | inl e ↦ rw (entries, append_entry, get-put d k j (entries d k ++ x ∷ []), e) refl
  | inr e ↦ rw (entries, append_entry, get-put d k j (entries d k ++ x ∷ []), e) refl
]

-- An entry stays, and the new one is the last.
kept_entry :
    (d : Ports) (k j : String) (x y : String × ℕ) (n : ℕ)
    → get_elem? (entries d j) n ≡ some y
    → get_elem? (entries (append_entry d k x) j) n ≡ some y
kept_entry d k j x y n h = elim (Bool-cases (k == j)) [
  | inl e ↦
      rw (entries-append d k j x, e)
        (get_elem?-before (entries d k) x y n (
          subst (λ i. get_elem? (entries d i) n ≡ some y) (sym ((String_equality.same_iff k j).0 e))
            h))
  | inr e ↦ rw (entries-append d k j x, e) h
]

new_entry :
    (d : Ports) (k : String) (x : String × ℕ)
    → get_elem? (entries (append_entry d k x) k) (length (entries d k)) ≡ some x
new_entry d k x =
    rw (entries-append d k k x, (String_equality.same_iff k k).1 refl)
      (get_elem?-last (entries d k) x)

-- An entry is an old one or the new one.
entry_cases :
    (d : Ports) (k j : String) (x y : String × ℕ) (n : ℕ)
    → get_elem? (entries (append_entry d k x) j) n ≡ some y
    → (get_elem? (entries d j) n ≡ some y) ⊎ ((k ≡ j) × (n ≡ length (entries d k)) × (x ≡ y))
entry_cases d k j x y n h = elim (Bool-cases (k == j)) [
  | inl e ↦
      let same = (String_equality.same_iff k j).0 e in
      elim (get_elem?-cases (entries d k) x y n (rw (entries-append d k j x, e) at h)) [
        | inl q ↦ inl (subst (λ i. get_elem? (entries d i) n ≡ some y) same q)
        | inr (q, r) ↦ inr (same, q, r)
      ]
  | inr e ↦ inl (rw (entries-append d k j x, e) at h)
]

Answers-append :
    (d e : Ports) (a b : String)
    → Answers d e
    → Answers
        (append_entry d a (b, length (entries e b)))
        (append_entry e b (a, length (entries d a)))
Answers-append d e a b h p q i j r = elim (entry_cases d a p (b, length (entries e b)) (q, j) i r) [
  | inl old ↦ kept_entry e b q (a, length (entries d a)) (p, i) j (h p q i j old)
  | inr (s, t, u) ↦
      let there : String × ℕ → Option (String × ℕ) =
        λ z. get_elem? (entries (append_entry e b (a, length (entries d a))) z.0) z.1 in
      sym (ap there u)
      ∙ new_entry e b (a, length (entries d a))
      ∙ ap some (ap₂ (λ x y. (x, y)) s (sym t))
]

-- Each port that is given out answers the port at its other end, both ways.
abbrev pub IsPaired : Extras → Type 0
IsPaired x = Answers x.outs x.ins × Answers x.ins x.outs

add_extra-IsPaired : (x : Extras) (a b : String) → IsPaired x → IsPaired (add_extra x a b)
unfolding add_extra
add_extra-IsPaired x a b h =
    (Answers-append x.outs x.ins a b h.0, Answers-append x.ins x.outs b a h.1)

collect_extra-IsPaired :
    (points : Dict (List String)) (x y : Extras) (a b : String)
    → IsPaired x
    → collect_extra points x a b ≡ ok y
    → IsPaired y
unfolding collect_extra
collect_extra-IsPaired points x y a b h r =
    let (of_b, s, t) = ok-of_bind (lookup points b) _ r in
    let (u, v, w) = ok-of_bind (check (not (contains a of_b)) exception) _ t in
    let (of_a, m, n) = ok-of_bind (lookup points a) _ w in
    elim (Bool-cases (contains b of_a)) [
      | inl e ↦ subst IsPaired (ok-injective (rw e at n)) h
      | inr e ↦ subst IsPaired (ok-injective (rw e at n)) (add_extra-IsPaired x a b h)
    ]

collected-IsPaired :
    (points : Dict (List String)) (order : List (Before × String)) (x y : Extras)
    → IsPaired x
    → collect_extras points order x ≡ ok y
    → IsPaired y
unfolding collect_extras
collected-IsPaired points [] x y h r = subst IsPaired (ok-injective r) h
collected-IsPaired points ((group_before l, b) ∷ order) x y h r =
    collected-IsPaired points order x y h r
collected-IsPaired points ((instance_before a, b) ∷ order) x y h r =
    let (z, s, t) = ok-of_bind (collect_extra points x a b) _ r in
    collected-IsPaired points order z y (collect_extra-IsPaired points x z a b h s) t

no_extras-IsPaired : IsPaired no_extras
unfolding entries get
no_extras-IsPaired = ((λ a b i j h. cc), λ a b i j h. cc)

-- A port's number is below the count of the ports of its instance.
abbrev pub IsBounded : Ports → Ports → Type 0
IsBounded d e =
    (a b : String) (i j : ℕ) → get_elem? (entries d a) i ≡ some (b, j) → j < length (entries e b)

-- If the collection of `insert_resource_order` returns, the port that an instance gets at a number
-- is connected to a port whose own number is below the count of the ports that the other instance
-- gets, and which is connected to the first port: from the output ports to the input ports, and
-- from the input ports to the output ports.
pub collect_extras-IsPaired :
    (points : Dict (List String)) (order : List (Before × String)) (x : Extras)
    → collect_extras points order no_extras ≡ ok x
    → IsPaired x × IsBounded x.outs x.ins × IsBounded x.ins x.outs
collect_extras-IsPaired points order x r =
    let h = collected-IsPaired points order no_extras x no_extras-IsPaired r in
    (
      h,
      (λ a b i j e. lt_of_get_elem? (entries x.ins b) j (a, i) (h.0 a b i j e)),
      λ a b i j e. lt_of_get_elem? (entries x.outs b) j (a, i) (h.1 a b i j e),
    )
