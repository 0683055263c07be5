-- ===== src/Flow/Merge.antt =====
-- The merge of two pieces that differ in their last part fires what the two fire.
use floem.Prelude.{
  ℕ, ◌+◌, ◌<◌, String, ◌≡◌, refl, sym, ap, subst, inl, inr, true, false, ◌&&◌, ◌||◌, Option, none,
  some, List, [], ◌∷◌, ◌++◌, arith, ℕ_equality, String_equality, length, set_union, set_inter,
  contains, contains-set_union, set_inter-nil, All, IsDistinct, IsDistinct-set_union,
  contains_of_length, All-append, All-filter, ok, ltb, ◌⊎◌, Option-cases,
}
use floem.Flow.{
  InstancePart, Piece, whole, parts, front, last?, part_intersection, without_last, merge_last,
  merge_parts, find_merge, remove_piece,
}
use floem.Flow.Parts.{
  Choice, hits_part, hits_parts, hits, count, fires, hits_parts-front, hits_parts-append,
  hits-parts_eq, hits-piece_eq,
}
use floem.Flow.Equality.{piece_eq_refl}

nil_of_length {ℓ} : {A : Type ℓ} (l : List A) → ltb 0 (length l) ≡ false → l ≡ []
nil_of_length [] h = refl
nil_of_length (x ∷ l) h = ground arith

hits-without_last :
    (ω : Choice) (target : String) (prefix : List InstancePart)
    → hits ω (without_last target prefix) ≡ hits_parts ω prefix
unfolding without_last
hits-without_last ω target [] = refl
hits-without_last ω target (p ∷ l) = refl

All-last {ℓ κ} :
    {A : Type ℓ} (P : A → Type κ) (l : List A) (p : A) → last? l ≡ some p → All P l → P p
All-last P [] p e h = cc
All-last P (x ∷ []) p e h = subst P (cc) h.0
All-last P (x ∷ y ∷ l) p e h = All-last P (y ∷ l) p e h.1

abbrev pub Occurs : Piece → List Piece → Type 0
Occurs x [] = ⊥
Occurs x (y ∷ l) = (x ≡ y) ⊎ Occurs x l

All-front {ℓ κ} : {A : Type ℓ} (P : A → Type κ) (l : List A) → All P l → All P (front l)
All-front P [] h = tt
All-front P (x ∷ []) h = tt
All-front P (x ∷ y ∷ l) h = (h.0, All-front P (y ∷ l) h.1)

merge_parts-cases :
    (target : String) (xs ys : List InstancePart) (z : Piece)
    → merge_parts target xs ys ≡ ok (some z)
    → (p : InstancePart) × (q : InstancePart) × (last? xs ≡ some p)
      × (last? ys ≡ some q)
      × (merge_last target (front xs) p q ≡ ok (some z))
unfolding merge_parts
merge_parts-cases target xs ys z h = elim (Option-cases (last? xs)) [
  | inl e ↦ absurd (ground (arith, e))
  | inr (p, e) ↦ elim (Option-cases (last? ys)) [
    | inl f ↦ absurd (ground (arith, e, f))
    | inr (q, f) ↦ (p, q, e, f, ground (arith, e, f))
  ]
]

-- What the loop of `add` finds stands in the collection.
pub find_merge-Occurs :
    (target : String) (ys : List InstancePart) (l : List Piece) (x z : Piece)
    → find_merge target ys l ≡ ok (some (x, z))
    → Occurs x l
unfolding find_merge
find_merge-Occurs target ys [] x z h = cc
find_merge-Occurs target ys (whole n ∷ l) x z h = inr (find_merge-Occurs target ys l x z h)
find_merge-Occurs target ys (parts xs ∷ l) x z h = ground (arith, find_merge-Occurs target ys l x z)

-- The total of a part is that of its instance, and its ports are a set of ports of the instance.
module _ (total : String → ℕ) where
  pub record IsPart (p : InstancePart) : Type 0 where
    pub same : p.total ≡ total p.instance_name
    pub distinct : IsDistinct p.ports
    pub bounded : All (λ x. x < p.total) p.ports

  abbrev pub IsPiece : Piece → Type 0
  IsPiece (whole n) = Unit
  IsPiece (parts l) = All IsPart l

  abbrev pub IsChoice : Choice → Type 0
  IsChoice ω = (n : String) → ω n < total n

module _ (ω : Choice) (p q : InstancePart) where
  part_intersection-none :
      part_intersection p q ≡ none
      → p.instance_name ≡ q.instance_name
      → (hits_part ω p && hits_part ω q) ≡ false
  unfolding part_intersection
  part_intersection-none h e = ground (
    arith,
    String_equality.same_iff p.instance_name q.instance_name,
    length-set_inter_zero,
    set_inter-nil (ω p.instance_name) p.ports q.ports,
    ap ω e,
    ap (λ k. contains k q.ports) (ap ω e),
  )
    where
      length-set_inter_zero :
          ltb 0 (length (set_inter p.ports q.ports)) ≡ false → set_inter p.ports q.ports ≡ []
      length-set_inter_zero = nil_of_length (set_inter p.ports q.ports)

  hits-set_union :
      p.instance_name ≡ q.instance_name
      → hits_part ω (record p { ports = set_union p.ports q.ports })
        ≡ (hits_part ω p || hits_part ω q)
  hits-set_union e = ground (
    arith,
    contains-set_union (ω p.instance_name) p.ports q.ports,
    ap (λ n. contains (ω n) q.ports) e,
  )

module _ (total : String → ℕ) where
  -- Parts of one instance have one total.
  same_total :
      (p q : InstancePart)
      → IsPart total p
      → IsPart total q
      → p.instance_name ≡ q.instance_name
      → q.total ≡ p.total
  same_total p q hp hq e = cc (hp.same, hq.same, ap total e)

  IsPart-set_union :
      (p q : InstancePart)
      → IsPart total p
      → IsPart total q
      → p.instance_name ≡ q.instance_name
      → IsPart total (record p { ports = set_union p.ports q.ports })
  IsPart-set_union p q hp hq e =
      let t = same_total p q hp hq e in
      let below : All (λ x. x < p.total) q.ports =
        subst (λ n. All (λ x. x < n) q.ports) t hq.bounded in
      record {
        same = hp.same;
        distinct = IsDistinct-set_union p.ports q.ports hp.distinct hq.distinct;
        bounded =
            All-append (λ x. x < p.total) p.ports _ hp.bounded
              (All-filter (λ x. x < p.total) _ q.ports below);
      }

  merge_last-cases :
      (target : String) (prefix : List InstancePart) (p q : InstancePart) (z : Piece)
      → merge_last target prefix p q ≡ ok (some z)
      → (p.instance_name ≡ q.instance_name)
        × ((z ≡ without_last target prefix)
            ⊎ (z ≡ parts (prefix ++ record p { ports = set_union p.ports q.ports } ∷ [])))
  unfolding merge_last
  merge_last-cases target prefix p q z h =
      ground (arith, String_equality.same_iff p.instance_name q.instance_name)

  IsPiece-without_last :
      (target : String) (prefix : List InstancePart)
      → All (IsPart total) prefix
      → IsPiece total (without_last target prefix)
  unfolding without_last
  IsPiece-without_last target [] h = tt
  IsPiece-without_last target (p ∷ l) h = h

  IsPiece-merge_last :
      (target : String) (prefix : List InstancePart) (p q : InstancePart) (z : Piece)
      → All (IsPart total) prefix
      → IsPart total p
      → IsPart total q
      → merge_last target prefix p q ≡ ok (some z)
      → IsPiece total z
  IsPiece-merge_last target prefix p q z hf hp hq h =
      let (e, cases) = merge_last-cases target prefix p q z h in
      elim cases [
        | inl f ↦ subst (IsPiece total) (sym f) (IsPiece-without_last target prefix hf)
        | inr f ↦
            subst (IsPiece total) (sym f)
              (All-append (IsPart total) prefix _ hf (IsPart-set_union p q hp hq e, tt))
      ]

  pub IsPiece-merge_parts :
      (target : String) (xs ys : List InstancePart) (z : Piece)
      → All (IsPart total) xs
      → All (IsPart total) ys
      → merge_parts target xs ys ≡ ok (some z)
      → IsPiece total z
  IsPiece-merge_parts target xs ys z hx hy h =
      let (p, q, e, f, m) = merge_parts-cases target xs ys z h in
      IsPiece-merge_last target (front xs) p q z (All-front (IsPart total) xs hx)
        (All-last (IsPart total) xs p e hx) (All-last (IsPart total) ys q f hy) m

  pub IsPiece-find_merge :
      (target : String) (ys : List InstancePart) (l : List Piece) (x z : Piece)
      → All (IsPart total) ys
      → All (IsPiece total) l
      → find_merge target ys l ≡ ok (some (x, z))
      → IsPiece total z
  unfolding find_merge
  IsPiece-find_merge target ys [] x z hy hl h = cc
  IsPiece-find_merge target ys (whole n ∷ l) x z hy hl h =
      IsPiece-find_merge target ys l x z hy hl.1 h
  IsPiece-find_merge target ys (parts xs ∷ l) x z hy hl h = ground (
    arith,
    IsPiece-merge_parts target xs ys z hl.0 hy,
    IsPiece-find_merge target ys l x z hy hl.1,
  )

  module _ (ω : Choice) (valid : IsChoice total ω) where
    -- With all ports of the instance in the two parts, one of them is hit.
    hits_of_complete :
        (p q : InstancePart)
        → IsPart total p
        → IsPart total q
        → p.instance_name ≡ q.instance_name
        → length (set_union p.ports q.ports) ≡ p.total
        → (hits_part ω p || hits_part ω q) ≡ true
    hits_of_complete p q hp hq e n =
        let u = IsPart-set_union p q hp hq e in
        cc (
          hits-set_union ω p q e,
          contains_of_length p.total (ω p.instance_name) (set_union p.ports q.ports) u.distinct
              u.bounded n (omega (arith, valid p.instance_name, hp.same)),
        )

    count-merge_last :
        (target : String) (prefix : List InstancePart) (p q : InstancePart) (z : Piece)
        → IsPart total p
        → IsPart total q
        → merge_last target prefix p q ≡ ok (some z)
        → count (hits ω z)
          ≡ count (hits_parts ω prefix && hits_part ω p)
            + count (hits_parts ω prefix && hits_part ω q)
    unfolding merge_last
    count-merge_last target prefix p q z hp hq h =
        let u = record p { ports = set_union p.ports q.ports } in
        ground (
          arith,
          String_equality.same_iff p.instance_name q.instance_name,
          part_intersection-none ω p q,
          hits-set_union ω p q,
          hits_of_complete p q hp hq,
          hits-without_last ω target prefix,
          hits_parts-append ω prefix u,
        )

    pub count-merge_parts :
        (target : String) (xs ys : List InstancePart) (z : Piece)
        → All (IsPart total) xs
        → All (IsPart total) ys
        → merge_parts target xs ys ≡ ok (some z)
        → count (hits ω z) ≡ count (hits_parts ω xs) + count (hits_parts ω ys)
    unfolding merge_parts
    count-merge_parts target xs ys z hx hy h = elim (Option-cases (last? xs)) [
      | inl e ↦ ground (arith, ap {B = Option InstancePart} (λ o. o) e)
      | inr (p, e) ↦ elim (Option-cases (last? ys)) [
        | inl f ↦ ground (arith, f)
        | inr (q, f) ↦ ground (
          arith,
          hits-parts_eq ω (front xs) (front ys),
          hits_parts-front ω xs p e,
          hits_parts-front ω ys q f,
          count-merge_last target (front xs) p q z (All-last (IsPart total) xs p e hx)
              (All-last (IsPart total) ys q f hy),
        )
      ]
    ]

    pub fires-remove_piece :
        (x : Piece) (l : List Piece)
        → Occurs x l
        → fires ω (remove_piece x l) + count (hits ω x) ≡ fires ω l
    unfolding remove_piece
    fires-remove_piece x [] h = absurd h
    fires-remove_piece x (y ∷ l) h =
        ground (arith, hits-piece_eq ω y x, piece_eq_refl x, fires-remove_piece x l)

    -- What the loop of `add` finds fires what both pieces fired.
    pub count-find_merge :
        (target : String) (ys : List InstancePart) (l : List Piece) (x z : Piece)
        → All (IsPart total) ys
        → All (IsPiece total) l
        → find_merge target ys l ≡ ok (some (x, z))
        → count (hits ω z) ≡ count (hits ω x) + count (hits_parts ω ys)
    unfolding find_merge
    count-find_merge target ys [] x z hy hl h = cc
    count-find_merge target ys (whole n ∷ l) x z hy hl h =
        count-find_merge target ys l x z hy hl.1 h
    count-find_merge target ys (parts xs ∷ l) x z hy hl h =
        ground (
          arith,
          count-merge_parts target xs ys z hl.0 hy,
          count-find_merge target ys l x z hy hl.1,
        )
