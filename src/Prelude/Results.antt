-- ===== src/Prelude/Results.antt =====
-- A Python call that returns or raises, with a type of exceptions for each component.
use mathlib.Core.Path.{◌≡◌, refl}
use mathlib.Core.Logic.{◌⊎◌, ◌≢◌, inl, inr}

pub data Result {ℓ} (E A : Type ℓ) : Type ℓ where
  ok : A → Result E A
  err : E → Result E A

infixl 5 ◌>>=◌ ◌>>◌
abbrev pub ◌>>=◌ {ℓ} : {E A B : Type ℓ} → Result E A → (A → Result E B) → Result E B
ok a >>= f = f a
err e >>= f = err e

abbrev pub ◌>>◌ {ℓ} : {E A B : Type ℓ} → Result E A → Result E B → Result E B
m >> k = m >>= λ _. k

pub ok-injective {ℓ} : {E A : Type ℓ} {a b : A} → ◌≡◌ {A = Result E A} (ok a) (ok b) → a ≡ b
ok-injective h = cc

-- What a chain of two calls that returned, or raised, has done.
module _ {ℓ} {E A B : Type ℓ} where
  pub ok-of_bind :
      (call : Result E A) (next : A → Result E B) {out : B}
      → (call >>= next) ≡ ok out
      → (a : A) × (call ≡ ok a) × (next a ≡ ok out)
  ok-of_bind (ok a) next h = (a, refl, h)
  ok-of_bind (err e) next h = cc

  pub err-of_bind :
      (call : Result E A) (next : A → Result E B) {e : E}
      → (call >>= next) ≡ err e
      → (call ≡ err e) ⊎ ((a : A) × (call ≡ ok a) × (next a ≡ err e))
  err-of_bind (ok a) next h = inr (a, refl, h)
  err-of_bind (err x) next h = inl (cc)

  -- A chain raises only what one of its calls raises.
  pub bind_avoids :
      (call : Result E A) (next : A → Result E B) (e : E)
      → call ≢ err e
      → ((a : A) → next a ≢ err e)
      → (call >>= next) ≢ err e
  bind_avoids (ok a) next e h k q = k a q
  bind_avoids (err x) next e h k q = h (cc)
