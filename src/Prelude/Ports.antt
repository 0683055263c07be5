-- ===== src/Prelude/Ports.antt =====
-- Counting: a set of n numbers below n holds each of them.
use Prim.Native.Nat.{ℕ, zero, suc, ◌≤◌, ◌<◌}
use mathlib.Core.Path.{◌≡◌, refl, ap}
use mathlib.Core.Logic.{inl, inr}
use mathlib.Core.Bool.{Bool, true, false, not}
use mathlib.Core.List.{List, [], ◌∷◌}
use native.Mathlib.Omega.{arith}
use floem.Prelude.Tests.{ℕ_equality, nat_eq, nat_eq_iff, Bool-cases}
use floem.Prelude.Lists.{
  length, filter, All, contains, IsDistinct, IsDistinct-filter, contains-filter,
}

abbrev others : ℕ → ℕ → Bool
others k x = not (nat_eq x k)

length-others-absent :
    (k : ℕ) (xs : List ℕ) → contains k xs ≡ false → length (filter (others k) xs) ≡ length xs
length-others-absent k [] h = refl
length-others-absent k (x ∷ xs) h = ground (arith, length-others-absent k xs)

-- In a set one element at most goes.
length-others :
    (k : ℕ) (xs : List ℕ) → IsDistinct xs → length xs ≤ suc (length (filter (others k) xs))
length-others k [] h = omega arith
length-others k (x ∷ xs) h =
    ground (arith, length-others-absent k xs, length-others k xs h.1, nat_eq_iff x k)

All-others :
    (k : ℕ) (xs : List ℕ) → All (λ x. x < suc k) xs → All (λ x. x < k) (filter (others k) xs)
All-others k [] h = tt
All-others k (x ∷ xs) h = elim (Bool-cases (others k x)) [
  | inl e ↦ rw e (ground arith, All-others k xs h.1)
  | inr e ↦ rw e (All-others k xs h.1)
]

pub length-le-bound : (n : ℕ) (xs : List ℕ) → IsDistinct xs → All (λ x. x < n) xs → length xs ≤ n
length-le-bound zero [] d h = omega arith
length-le-bound zero (x ∷ xs) d h = absurd (omega arith)
length-le-bound (suc n) xs d h = omega (
  arith,
  length-others n xs d,
  length-le-bound n (filter (others n) xs) (IsDistinct-filter (others n) xs d) (All-others n xs h),
)

length-lt-bound :
    (n p : ℕ) (xs : List ℕ)
    → IsDistinct xs
    → All (λ x. x < n) xs
    → p < n
    → contains p xs ≡ false
    → length xs < n
length-lt-bound zero p xs d h lt m = absurd (omega arith)
length-lt-bound (suc n) p xs d h lt m = elim (Bool-cases (nat_eq p n)) [
  | inl e ↦
      let same : p ≡ n = (nat_eq_iff p n).0 e in
      ground (
        arith,
        length-others-absent n xs,
        ap (λ (k : ℕ). contains k xs) same,
        length-le-bound n (filter (others n) xs) (IsDistinct-filter (others n) xs d)
            (All-others n xs h),
      )
  | inr e ↦ ground (
    arith,
    length-others n xs d,
    contains-filter p (others n) xs,
    nat_eq_iff p n,
    length-lt-bound n p (filter (others n) xs) (IsDistinct-filter (others n) xs d)
        (All-others n xs h),
  )
]

pub contains_of_length :
    (n p : ℕ) (xs : List ℕ)
    → IsDistinct xs
    → All (λ x. x < n) xs
    → length xs ≡ n
    → p < n
    → contains p xs ≡ true
contains_of_length n p xs d h e lt = elim (Bool-cases (contains p xs)) [
  | inl m ↦ m
  | inr m ↦ absurd (omega (arith, length-lt-bound n p xs d h lt m))
]
