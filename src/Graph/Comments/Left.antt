-- ===== src/Graph/Comments/Left.antt =====
-- What `remove_comment` of floem/graph_ir.py leaves has no comment.
use Prim.Native.Char.{Char, code}
use Prim.Native.String.{[] as no_letter, ◌∷◌ as letter, ◌++◌ as joined, count}
use text.Mathlib.TextLemmas.{nil-append, cons-append, length-nil}
use floem.Prelude.{
  ℕ, suc, String, Option, none, some, ◌≡◌, refl, sym, ap, subst, ◌∙◌, ◌⊎◌, inl, inr, nat_eq_iff,
  arith,
}
use floem.Graph.Comments.{
  after_letter, after_first, then_after, line_comment, block_comment, without_match, remove_comment,
}
use floem.Graph.Comments.Removed.{
  Shortens, line_comment-Shortens, block_comment-Shortens, no_match, none_cases,
}
use floem.Graph.Comments.Cut.{
  Lacks, IsComment, line, block, Cuts, HasComment, line_text, block_text, uncomment-Cuts,
}

-- A comment at the front is found.
after_letter-code :
    (n : ℕ) (c : Char) (s : String) → code c ≡ n → after_letter n (letter c s) ≡ some s
unfolding after_letter
after_letter-code n c s e = rw ((nat_eq_iff (code c) n).1 e) refl

after_first-code :
    (n : ℕ) (l : String) (c : Char) (t : String)
    → Lacks n l
    → code c ≡ n
    → after_first n (joined l (letter c t)) ≡ some t
unfolding after_first
after_first-code n no_letter c t lacks e =
    rw (nil-append (letter c t), after_first, (nat_eq_iff (code c) n).1 e) refl
after_first-code n (letter d l) c t lacks e =
    rw (cons-append d l (letter c t), after_first, lacks.0) (after_first-code n l c t lacks.1 e)

then_found :
    (m k : String → Option String) (s u t : String)
    → m s ≡ some u
    → k u ≡ some t
    → then_after m k s ≡ some t
then_found m k s u t e f = ap (λ o. elim o [ none ↦ none | some v ↦ k v ]) e ∙ f

abbrev slash : String → Option String
slash = after_letter b'/'

abbrev star : String → Option String
star = after_letter b'*'

comment_found :
    (c t : String)
    → IsComment c
    → (line_comment (joined c t) ≡ some t) ⊎ (block_comment (joined c t) ≡ some t)
unfolding line_comment block_comment
comment_found c t (line a b z l is_a is_b lacks is_z) =
    let v = joined l (letter z t) in
    inl (
      ap line_comment (line_text a b z l t)
      ∙ then_found slash (then_after slash (after_first b'\n')) (letter a (letter b v)) (letter b v)
          t (after_letter-code b'/' a (letter b v) is_a)
          (then_found slash (after_first b'\n') (letter b v) v t (after_letter-code b'/' b v is_b)
            (after_first-code b'\n' l z t lacks is_z)))
comment_found c t (block a b y z l is_a is_b lacks is_y is_z) =
    let v = joined l (letter y (letter z t)) in
    inr (
      ap block_comment (block_text a b y z l t)
      ∙ then_found slash (then_after star (then_after (after_first b'*') slash))
          (letter a (letter b v)) (letter b v) t (after_letter-code b'/' a (letter b v) is_a)
          (then_found star (then_after (after_first b'*') slash) (letter b v) v t
            (after_letter-code b'*' b v is_b)
            (then_found (after_first b'*') slash v (letter z t) t
              (after_first-code b'*' l y (letter z t) lacks is_y)
              (after_letter-code b'/' z t is_z))))

no_rest :
    (o : Option String) (c : Char)
    → (elim o [ none ↦ none | some t ↦ some (letter c t) ]) ≡ none
    → o ≡ none
no_rest none c h = refl
no_rest (some t) c h = cc

front_found :
    (m : String → Option String) (s t : String)
    → Shortens m
    → m s ≡ some t
    → without_match m s ≡ none
    → ⊥
unfolding without_match
front_found m no_letter t f e h = omega (arith, f no_letter t e, length-nil)
front_found m (letter c s) t f e h =
    let (none_here, _) = none_cases (m (letter c s)) _ h in
    let q : some t ≡ none = sym e ∙ none_here in cc

-- Where a search finds a match behind some text, it finds one.
match_found :
    (m : String → Option String) (p s t : String)
    → Shortens m
    → m s ≡ some t
    → without_match m (joined p s) ≡ none
    → ⊥
unfolding without_match
match_found m no_letter s t f e h =
    front_found m s t f e (subst (λ r. without_match m r ≡ none) (nil-append s) h)
match_found m (letter c p) s t f e h =
    let h' = subst (λ r. without_match m r ≡ none) (cons-append c p s) h in
    let (_, later) = none_cases (m (letter c (joined p s))) _ h' in
    match_found m p s t f e (no_rest (without_match m (joined p s)) c later)

-- `remove_comment` cuts comments out of the code one after another, and leaves every other letter in its
-- place; and what it returns has no comment left. A comment is two slashes and the rest of a line with
-- its end, or a text without stars between a slash and a star and a star and a slash.
pub remove_comment_lem :
    (code : String) → Cuts code (remove_comment code) × ¬ HasComment (remove_comment code)
unfolding remove_comment
remove_comment_lem code = (
  uncomment-Cuts (suc (count code)) code,
  λ c.
      let (t, x) = c in
      let (no_line, no_block) = no_match code in
      elim (comment_found x.comment x.after x.is_comment) [
        | inl e ↦
            match_found line_comment x.before (joined x.comment x.after) x.after
              line_comment-Shortens e
              (subst (λ s. without_match line_comment s ≡ none) x.whole no_line)
        | inr e ↦
            match_found block_comment x.before (joined x.comment x.after) x.after
              block_comment-Shortens e
              (subst (λ s. without_match block_comment s ≡ none) x.whole no_block)
      ],
)
