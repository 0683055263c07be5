-- ===== src/Threads/Order/Decimal.antt =====
-- `str` of Python, on numbers, as floem/thread_allocation.py uses it in the names of ports.
use Prim.Native.Nat.{◌/◌, ◌%◌}
use Prim.Native.String.{◌++◌ as joined}
use floem.Prelude.{
  ℕ, zero, suc, ◌<◌, String, List, [], ◌∷◌, ◌≡◌, refl, ap, ltb, if◌then◌else◌, arith, inl, inr,
  Bool-cases,
}

abbrev ten_digits : List String
ten_digits = "0" ∷ "1" ∷ "2" ∷ "3" ∷ "4" ∷ "5" ∷ "6" ∷ "7" ∷ "8" ∷ "9" ∷ []

unfoldable digit_of : List String → ℕ → String
digit_of [] n = ""
digit_of (d ∷ l) zero = d
digit_of (d ∷ l) (suc n) = digit_of l n

unfoldable pub digit : ℕ → String
unfolding digit_of
digit n = digit_of ten_digits n

-- The first number bounds the count of digits.
unfoldable decimal : ℕ → ℕ → String
unfolding digit
decimal zero n = ""
decimal (suc fuel) n =
    let rest = decimal fuel (n / 10) in if ltb n 10 then digit n else joined rest (digit (n % 10))

unfoldable pub str : ℕ → String
unfolding decimal
str n = decimal (suc n) n

decimal_enough : (f g n : ℕ) → n < f → n < g → decimal f n ≡ decimal g n
unfolding decimal
decimal_enough zero g n h k = absurd (omega arith)
decimal_enough (suc f) zero n h k = absurd (omega arith)
decimal_enough (suc f) (suc g) n h k = elim (Bool-cases (ltb n 10)) [
  | inl e ↦ rw e refl
  | inr e ↦ rw e (
      ap (λ s. joined s (digit (n % 10)))
        (decimal_enough f g (n / 10) (ground arith) (ground arith)))
]

-- The last digit of a number follows those of its tenth, whatever the bound was.
pub str_lem :
    (n : ℕ) → str n ≡ (if ltb n 10 then digit n else joined (str (n / 10)) (digit (n % 10)))
unfolding str decimal
str_lem n = elim (Bool-cases (ltb n 10)) [
  | inl e ↦ rw e refl
  | inr e ↦ rw e (
      ap (λ s. joined s (digit (n % 10)))
        (decimal_enough n (suc (n / 10)) (n / 10) (ground arith) (omega arith)))
]
