-- ===== src/Prelude/Dicts.antt =====
-- Python's `dict` with text keys, as a list of pairs. Python 2 leaves the order of the keys open:
-- here it is the order of the list, and theorems hold of each list.
use Prim.Native.String.{String}
use mathlib.Core.Path.{◌≡◌, refl, sym, ap, subst}
use mathlib.Core.Logic.{inl, inr}
use mathlib.Core.Bool.{Bool, true, false}
use mathlib.Core.Option.{Option, none, some}
use mathlib.Core.List.{List, [], ◌∷◌}
use native.Mathlib.Omega.{arith}
use floem.Prelude.Tests.{String_equality, ◌==◌, if◌then◌else◌, Bool-cases}
use floem.Prelude.Lists.{contains, All, IsDistinct}

abbrev pub Dict {ℓ} : Type ℓ → Type ℓ
Dict V = List (String × V)

abbrev pub is_some {ℓ} : {A : Type ℓ} → Option A → Bool
is_some none = false
is_some (some a) = true

module _ {ℓ} {V : Type ℓ} where
  -- `d.get(k)`
  unfoldable pub get : Dict V → String → Option V
  get [] k = none
  get ((j, v) ∷ d) k = if j == k then some v else get d k

  -- `d[k] = v`
  unfoldable pub put : Dict V → String → V → Dict V
  put [] k v = (k, v) ∷ []
  put ((j, w) ∷ d) k v = if j == k then (j, v) ∷ d else (j, w) ∷ put d k v

  -- `del d[k]`, of a key that is there
  unfoldable pub remove : Dict V → String → Dict V
  remove [] k = []
  remove ((j, w) ∷ d) k = if j == k then remove d k else (j, w) ∷ remove d k

  -- `d.keys()` and `d.values()`
  unfoldable pub keys : Dict V → List String
  keys [] = []
  keys ((j, w) ∷ d) = j ∷ keys d

  unfoldable pub values : Dict V → List V
  values [] = []
  values ((j, w) ∷ d) = w ∷ values d

  -- `k in d`
  abbrev pub has : Dict V → String → Bool
  has d k = is_some (get d k)

  pub get-put :
      (d : Dict V) (k j : String) (v : V) → get (put d k v) j ≡ (if k == j then some v else get d j)
  unfolding get put
  get-put [] k j v = refl
  get-put ((i, w) ∷ d) k j v = ground (
    arith,
    String_equality.same_iff i k,
    String_equality.same_iff k j,
    String_equality.same_iff i j,
    get-put d k j v,
  )

  pub get-remove :
      (d : Dict V) (k j : String) → get (remove d k) j ≡ (if k == j then none else get d j)
  unfolding get remove
  get-remove [] k j = ground arith
  get-remove ((i, w) ∷ d) k j = ground (
    arith,
    String_equality.same_iff i k,
    String_equality.same_iff k j,
    String_equality.same_iff i j,
    get-remove d k j,
  )

  pub contains-keys : (d : Dict V) (k : String) → contains k (keys d) ≡ has d k
  unfolding get keys
  contains-keys [] k = refl
  contains-keys ((j, w) ∷ d) k = ground (arith, contains-keys d k)

  -- What holds of each entry holds of what a key leads to.
  pub get-All {κ} :
      (P : String → V → Type κ) (d : Dict V) (k : String) (v : V)
      → All (λ p. P p.0 p.1) d
      → get d k ≡ some v
      → P k v
  unfolding get
  get-All P [] k v h e = absurd (ground (arith, e))
  get-All P ((j, w) ∷ d) k v h e = elim (Bool-cases (String_equality.same j k)) [
    | inl q ↦
        let found : w ≡ v = ground (arith, rw (q, get) at e) in
        subst (λ i. P i v) ((String_equality.same_iff j k).0 q) (subst (P j) found h.0)
    | inr q ↦ get-All P d k v h.1 (rw (q, get) at e)
  ]

  pub values-All {κ} :
      (P : V → Type κ) (d : Dict V) (k : String) (v : V) → All P (values d) → get d k ≡ some v → P v
  unfolding get values
  values-All P [] k v h e = absurd (ground (arith, e))
  values-All P ((j, w) ∷ d) k v h e = elim (Bool-cases (String_equality.same j k)) [
    | inl q ↦ let found : w ≡ v = ground (arith, rw (q, get) at e) in subst P found h.0
    | inr q ↦ values-All P d k v h.1 (rw (q, get) at e)
  ]

  pub get-first : (k : String) (v : V) (d : Dict V) → get ((k, v) ∷ d) k ≡ some v
  unfolding get
  get-first k v d = ground (arith, String_equality.same_iff k k)

  pub get-later :
      (k n : String) (w v : V) (d : Dict V)
      → contains k (keys d) ≡ false
      → get d n ≡ some v
      → get ((k, w) ∷ d) n ≡ some v
  unfolding get
  get-later k n w v d new e = ground (
    arith,
    e,
    String_equality.same_iff k n,
    contains-keys d n,
    λ (s : k ≡ n). ap (λ x. contains x (keys d)) s,
  )

  found_in_longer :
      (k : String) (w : V) (d : Dict V)
      → contains k (keys d) ≡ false
      → (l : List V) → All (λ v. (n : String) × (get d n ≡ some v)) l
      → All (λ v. (n : String) × (get ((k, w) ∷ d) n ≡ some v)) l
  found_in_longer k w d new [] h = tt
  found_in_longer k w d new (v ∷ l) h =
      let ((n, e), rest) = h in ((n, get-later k n w v d new e), found_in_longer k w d new l rest)

  -- Without a second entry for a key, each value is what some key leads to.
  pub every_found :
      (d : Dict V) → IsDistinct (keys d) → All (λ v. (k : String) × (get d k ≡ some v)) (values d)
  unfolding keys values
  every_found [] u = tt
  every_found ((k, v) ∷ d) u =
      ((k, get-first k v d), found_in_longer k v d u.0 (values d) (every_found d u.1))

  pub All-put {κ} :
      (P : String × V → Type κ) (d : Dict V) (k : String) (v : V)
      → All P d
      → P (k, v)
      → All P (put d k v)
  unfolding put
  All-put P [] k v h p = (p, tt)
  All-put P ((j, w) ∷ d) k v h p = elim (Bool-cases (String_equality.same j k)) [
    | inl q ↦ rw (q, put) (subst (λ i. P (i, v)) (sym ((String_equality.same_iff j k).0 q)) p, h.1)
    | inr q ↦ rw (q, put) (h.0, All-put P d k v h.1 p)
  ]
