-- ===== src/Graph/Comments/Removed.antt =====
-- What `remove_comment` of floem/graph_ir.py returns.
use Prim.Native.Char.{Char, code}
use Prim.Native.String.{[] as no_letter, ◌∷◌ as letter, count}
use Prim.Native.String.count.{cons}
use floem.Prelude.{
  ℕ, zero, suc, ◌<◌, String, Option, none, some, ◌≡◌, refl, inl, inr, arith, Bool, true, false, ◌⊎◌,
  subst, if◌then◌else◌,
}
use floem.Graph.Comments.{
  after_letter, after_first, then_after, line_comment, block_comment, without_match,
  without_comment, uncomment, remove_comment,
}

-- What is left of a text is shorter than it.
abbrev pub Shortens : (String → Option String) → Type 0
Shortens m = (s t : String) → m s ≡ some t → count t < count s

count-letter : (c : Char) (s : String) → count (letter c s) ≡ suc (count s)
count-letter c s = λ i. cons c s i

count-rest : (c : Char) (s : String) → count s < count (letter c s)
count-rest c s = omega (arith, count-letter c s)

-- A test that gave a text.
if_cases :
    (b : Bool) (s t : String) (o : Option String)
    → (if b then some s else o) ≡ some t
    → (s ≡ t) ⊎ (o ≡ some t)
if_cases true s t o h = inl (cc)
if_cases false s t o h = inr h

-- A choice between two results that gave a text.
pub or_cases :
    (o p : Option String) (t : String)
    → (elim o [ some u ↦ some u | none ↦ p ]) ≡ some t
    → (o ≡ some t) ⊎ (p ≡ some t)
or_cases none p t h = inr h
or_cases (some u) p t h = inl h

pub bind_cases :
    (o : Option String) (k : String → Option String) (t : String)
    → (elim o [ none ↦ none | some u ↦ k u ]) ≡ some t
    → (u : String) × (o ≡ some u) × (k u ≡ some t)
bind_cases none k t h = cc
bind_cases (some u) k t h = (u, refl, h)

after_letter-Shortens : (n : ℕ) → Shortens (after_letter n)
unfolding after_letter
after_letter-Shortens n no_letter t h = cc
after_letter-Shortens n (letter c s) t h = elim (if_cases _ s t none h) [
  | inl e ↦ subst (λ u. count u < count (letter c s)) e (count-rest c s)
  | inr e ↦ cc
]

after_first-Shortens : (n : ℕ) → Shortens (after_first n)
unfolding after_first
after_first-Shortens n no_letter t h = cc
after_first-Shortens n (letter c s) t h = elim (if_cases _ s t (after_first n s) h) [
  | inl e ↦ subst (λ u. count u < count (letter c s)) e (count-rest c s)
  | inr e ↦ omega (arith, count-rest c s, after_first-Shortens n s t e)
]

then_after-Shortens :
    (m k : String → Option String) → Shortens m → Shortens k → Shortens (then_after m k)
then_after-Shortens m k f g s t h =
    let (u, e, q) = bind_cases (m s) k t h in omega (arith, f s u e, g u t q)

pub line_comment-Shortens : Shortens line_comment
unfolding line_comment
line_comment-Shortens =
    then_after-Shortens _ _ (after_letter-Shortens _)
      (then_after-Shortens _ _ (after_letter-Shortens _) (after_first-Shortens _))

pub block_comment-Shortens : Shortens block_comment
unfolding block_comment
block_comment-Shortens = then_after-Shortens _ _ (after_letter-Shortens _) (
    then_after-Shortens _ _ (after_letter-Shortens _)
      (then_after-Shortens _ _ (after_first-Shortens _) (after_letter-Shortens _)))

without_match-Shortens : (m : String → Option String) → Shortens m → Shortens (without_match m)
unfolding without_match
without_match-Shortens m f no_letter t h = cc
without_match-Shortens m f (letter c s) t h = elim (or_cases (m (letter c s)) _ t h) [
  | inl e ↦ f (letter c s) t e
  | inr e ↦
      let (u, q, d) = bind_cases (without_match m s) (λ u. some (letter c u)) t e in
      let d' : letter c u ≡ t = cc in
      subst (λ v. count v < count (letter c s)) d'
        (omega (arith, count-letter c s, count-letter c u, without_match-Shortens m f s u q))
]

without_comment-Shortens : Shortens without_comment
unfolding without_comment
without_comment-Shortens s t h = elim (or_cases (without_match line_comment s) _ t h) [
  | inl e ↦ without_match-Shortens line_comment line_comment-Shortens s t e
  | inr e ↦ without_match-Shortens block_comment block_comment-Shortens s t e
]

clean_after :
    (s : String) (o : Option String) (next : String → String)
    → without_comment s ≡ o
    → ((t : String) → o ≡ some t → without_comment (next t) ≡ none)
    → without_comment (elim o [ none ↦ s | some t ↦ next t ]) ≡ none
clean_after s none next e k = e
clean_after s (some t) next e k = k t refl

uncomment_clean :
    (fuel : ℕ) (s : String) → count s < fuel → without_comment (uncomment fuel s) ≡ none
unfolding uncomment
uncomment_clean zero s h = absurd (omega arith)
uncomment_clean (suc fuel) s h =
    clean_after s (without_comment s) (uncomment fuel) refl
      λ t e. uncomment_clean fuel t (omega (arith, without_comment-Shortens s t e))

pub none_cases :
    (o p : Option String) → (elim o [ some u ↦ some u | none ↦ p ]) ≡ none → (o ≡ none) × (p ≡ none)
none_cases none p h = (refl, h)
none_cases (some u) p h = cc

pub no_match :
    (code : String)
    → (without_match line_comment (remove_comment code) ≡ none)
      × (without_match block_comment (remove_comment code) ≡ none)
unfolding remove_comment without_comment
no_match code = none_cases _ _ (uncomment_clean (suc (count code)) code (omega arith))
