-- ===== src/Prelude/Lists.antt =====
-- Lists with native counts, Python's `in`, and its sets, which are kept as lists.
use Prim.Native.Nat.{ℕ, suc, ◌+◌, ◌≤◌}
use mathlib.Core.Path.{◌≡◌, refl, ap, subst}
use mathlib.Core.Logic.{inl, inr}
use mathlib.Core.Bool.{Bool, true, false, ◌||◌, ◌&&◌, not}
use mathlib.Core.List.{List, [], ◌∷◌, ◌++◌, reverse, reverse-append}
use native.Mathlib.Omega.{arith}
use floem.Prelude.Tests.{Equality, if◌then◌else◌, Bool-cases}

module _ {ℓ} {A : Type ℓ} where
  abbrev pub length : List A → ℕ
  length [] = 0
  length (x ∷ xs) = suc (length xs)

  abbrev pub filter : (A → Bool) → List A → List A
  filter p [] = []
  filter p (x ∷ xs) = if p x then x ∷ filter p xs else filter p xs

  abbrev pub All {κ} : (A → Type κ) → List A → Type κ
  All P [] = Unit
  All P (x ∷ xs) = P x × All P xs

  pub length-append : (xs ys : List A) → length (xs ++ ys) ≡ length xs + length ys
  length-append [] ys = omega arith
  length-append (x ∷ xs) ys = omega (arith, length-append xs ys)

  pub length-filter-le : (p : A → Bool) (xs : List A) → length (filter p xs) ≤ length xs
  length-filter-le p [] = omega arith
  length-filter-le p (x ∷ xs) = ground (arith, length-filter-le p xs)

  pub All-append {κ} : (P : A → Type κ) (xs ys : List A) → All P xs → All P ys → All P (xs ++ ys)
  All-append P [] ys h k = k
  All-append P (x ∷ xs) ys h k = (h.0, All-append P xs ys h.1 k)

  pub All-filter {κ} :
      (P : A → Type κ) (p : A → Bool) (xs : List A) → All P xs → All P (filter p xs)
  All-filter P p [] h = h
  All-filter P p (x ∷ xs) h = elim (Bool-cases (p x)) [
    | inl e ↦ rw e (h.0, All-filter P p xs h.1)
    | inr e ↦ rw e (All-filter P p xs h.1)
  ]

module _ {ℓ} {A : Type ℓ} ⦃e : Equality A⦄ where
  -- `a in xs`
  abbrev pub contains : A → List A → Bool
  contains a [] = false
  contains a (x ∷ xs) = e.same x a || contains a xs

  abbrev pub IsDistinct : List A → Type 0
  IsDistinct [] = Unit
  IsDistinct (x ∷ xs) = (contains x xs ≡ false) × IsDistinct xs

  -- `set(xs).union(ys)` and `set(xs).intersection(ys)`
  abbrev pub set_union : List A → List A → List A
  set_union xs ys = xs ++ filter (λ y. not (contains y xs)) ys

  abbrev pub set_inter : List A → List A → List A
  set_inter xs ys = filter (λ x. contains x ys) xs

  abbrev pub is_subset : List A → List A → Bool
  is_subset [] ys = true
  is_subset (x ∷ xs) ys = contains x ys && is_subset xs ys

  -- `==` on sets
  abbrev pub set_beq : List A → List A → Bool
  set_beq xs ys = is_subset xs ys && is_subset ys xs

  pub contains-append :
      (a : A) (xs ys : List A) → contains a (xs ++ ys) ≡ (contains a xs || contains a ys)
  contains-append a [] ys = refl
  contains-append a (x ∷ xs) ys = ground (arith, contains-append a xs ys)

  pub contains-filter :
      (a : A) (p : A → Bool) (xs : List A) → contains a (filter p xs) ≡ (contains a xs && p a)
  contains-filter a p [] = refl
  contains-filter a p (x ∷ xs) =
      ground (arith, e.same_iff x a, contains-filter a p xs, λ (q : x ≡ a). ap p q)

  pub contains-set_union :
      (a : A) (xs ys : List A) → contains a (set_union xs ys) ≡ (contains a xs || contains a ys)
  contains-set_union a xs ys = ground (
    arith,
    contains-append a xs (filter (λ y. not (contains y xs)) ys),
    contains-filter a (λ y. not (contains y xs)) ys,
  )

  pub contains-set_inter :
      (a : A) (xs ys : List A) → contains a (set_inter xs ys) ≡ (contains a xs && contains a ys)
  contains-set_inter a xs ys = contains-filter a (λ x. contains x ys) xs

  pub contains_of_is_subset :
      (a : A) (xs ys : List A)
      → is_subset xs ys ≡ true
      → contains a xs ≡ true
      → contains a ys ≡ true
  contains_of_is_subset a [] ys h m = cc
  contains_of_is_subset a (x ∷ xs) ys h m =
      ground (arith, e.same_iff x a, contains_of_is_subset a xs ys)

  pub contains-set_beq :
      (a : A) (xs ys : List A) → set_beq xs ys ≡ true → contains a xs ≡ contains a ys
  contains-set_beq a xs ys h =
      ground (arith, contains_of_is_subset a xs ys, contains_of_is_subset a ys xs)

  pub IsDistinct-filter : (p : A → Bool) (xs : List A) → IsDistinct xs → IsDistinct (filter p xs)
  IsDistinct-filter p [] h = h
  IsDistinct-filter p (x ∷ xs) h = elim (Bool-cases (p x)) [
    | inl t ↦ rw t (ground (arith, contains-filter x p xs), IsDistinct-filter p xs h.1)
    | inr t ↦ rw t (IsDistinct-filter p xs h.1)
  ]

  pub IsDistinct-append :
      (xs ys : List A)
      → IsDistinct xs
      → IsDistinct ys
      → ((a : A) → contains a xs ≡ true → contains a ys ≡ false)
      → IsDistinct (xs ++ ys)
  IsDistinct-append [] ys hx hy d = hy
  IsDistinct-append (x ∷ xs) ys hx hy d = (
    ground (arith, contains-append x xs ys, d x, e.same_iff x x),
    IsDistinct-append xs ys hx.1 hy (λ a m. d a (ground arith)),
  )

  pub IsDistinct-set_union :
      (xs ys : List A) → IsDistinct xs → IsDistinct ys → IsDistinct (set_union xs ys)
  IsDistinct-set_union xs ys hx hy =
      IsDistinct-append xs (filter (λ y. not (contains y xs)) ys) hx
        (IsDistinct-filter (λ y. not (contains y xs)) ys hy)
        (λ a m. ground (arith, contains-filter a (λ y. not (contains y xs)) ys))

  pub set_inter-nil :
      (a : A) (xs ys : List A) → set_inter xs ys ≡ [] → (contains a xs && contains a ys) ≡ false
  set_inter-nil a xs ys h = ground (arith, contains-set_inter a xs ys, ap (contains a) h)

  abbrev pub without : A → List A → List A
  without a xs = filter (λ x. not (e.same x a)) xs

  pub length-without-lt :
      (a : A) (xs : List A) → contains a xs ≡ true → suc (length (without a xs)) ≤ length xs
  length-without-lt a [] h = cc
  length-without-lt a (x ∷ xs) h =
      ground (arith, length-without-lt a xs, length-filter-le (λ x. not (e.same x a)) xs)

  -- A set inside another is no larger.
  pub length-le_of_subset :
      (xs ys : List A)
      → IsDistinct xs
      → ((a : A) → contains a xs ≡ true → contains a ys ≡ true)
      → length xs ≤ length ys
  length-le_of_subset [] ys d h = omega arith
  length-le_of_subset (x ∷ xs) ys d h =
      let inside : contains x ys ≡ true = h x (ground (arith, e.same_iff x x)) in
      let rest = length-le_of_subset xs (without x ys) d.1 (λ a m. ground (
        arith,
        h a,
        contains-filter a (λ y. not (e.same y x)) ys,
        e.same_iff a x,
        λ (q : a ≡ x). ap (λ z. contains z xs) q,
      )) in
      omega (arith, rest, length-without-lt x ys inside)

  pub IsDistinct-snoc :
      (xs : List A) (a : A) → IsDistinct xs → contains a xs ≡ false → IsDistinct (xs ++ a ∷ [])
  IsDistinct-snoc xs a d h =
      IsDistinct-append xs (a ∷ []) d (refl, tt)
        (λ b m. ground (arith, e.same_iff a b, λ (q : a ≡ b). ap (λ z. contains z xs) q))

  pub contains-reverse : (a : A) (xs : List A) → contains a (reverse xs) ≡ contains a xs
  contains-reverse a [] = refl
  contains-reverse a (x ∷ xs) =
      rw (reverse-append (x ∷ []) xs)
        (ground (arith, contains-append a (reverse xs) (x ∷ []), contains-reverse a xs))

  pub IsDistinct-reverse : (xs : List A) → IsDistinct xs → IsDistinct (reverse xs)
  IsDistinct-reverse [] d = tt
  IsDistinct-reverse (x ∷ xs) d =
      rw (reverse-append (x ∷ []) xs)
        (IsDistinct-snoc (reverse xs) x (IsDistinct-reverse xs d.1) (rw contains-reverse d.0))

  pub All-of_contains {κ} :
      {P : A → Type κ} (xs : List A) → ((a : A) → contains a xs ≡ true → P a) → All P xs
  All-of_contains [] h = tt
  All-of_contains (x ∷ xs) h =
      (h x (ground (arith, e.same_iff x x)), All-of_contains xs (λ a m. h a (ground (arith, m))))

  pub contains-All {κ} :
      (P : A → Type κ) (a : A) (xs : List A) → All P xs → contains a xs ≡ true → P a
  contains-All P a [] h m = cc
  contains-All P a (x ∷ xs) h m = elim (Bool-cases (e.same x a)) [
    | inl q ↦ subst P ((e.same_iff x a).0 q) h.0
    | inr q ↦ contains-All P a xs h.1 (ground (arith, q))
  ]
