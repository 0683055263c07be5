-- ===== src/Graph/Comments/Cut.antt =====
-- Comments of C by an independent description, and that `remove_comment` of floem/graph_ir.py cuts out
-- comments and nothing else.
use Prim.Native.Char.{Char, code}
use Prim.Native.String.{[] as no_letter, ◌∷◌ as letter, ◌++◌ as joined}
use text.Mathlib.TextLemmas.{nil-append, cons-append, append_assoc}
use floem.Prelude.{
  ℕ, zero, suc, String, false, Option, none, some, ◌≡◌, refl, sym, ap, ◌∙◌, inl, inr, nat_eq,
  nat_eq_iff, Bool-cases,
}
use floem.Graph.Comments.{
  after_letter, after_first, line_comment, block_comment, without_match, without_comment, uncomment,
}
use floem.Graph.Comments.Removed.{or_cases, bind_cases}

-- No letter of the text is the one with the code.
abbrev pub Lacks : ℕ → String → Type 0
Lacks n no_letter = Unit
Lacks n (letter c s) = (nat_eq (code c) n ≡ false) × Lacks n s

-- Two slashes and the rest of a line, with its end; or a text without stars between a slash and a
-- star and a star and a slash.
pub data IsComment : String → Type 0 where
  line :
      (a b z : Char) (l : String)
      → code a ≡ b'/'
      → code b ≡ b'/'
      → Lacks b'\n' l
      → code z ≡ b'\n'
      → IsComment (letter a (letter b (joined l (letter z no_letter))))
  block :
      (a b y z : Char) (l : String)
      → code a ≡ b'/'
      → code b ≡ b'*'
      → Lacks b'*' l
      → code y ≡ b'*'
      → code z ≡ b'/'
      → IsComment (letter a (letter b (joined l (letter y (letter z no_letter)))))

-- The text with one comment cut out of it.
pub record IsCut (s t : String) : Type 0 where
  pub before : String
  pub comment : String
  pub after : String
  pub is_comment : IsComment comment
  pub whole : s ≡ joined before (joined comment after)
  pub rest : t ≡ joined before after

-- A chain of cuts.
pub data Cuts : String → String → Type 0 where
  done : {s : String} → Cuts s s
  cut : {s t u : String} → IsCut s t → Cuts t u → Cuts s u

abbrev pub HasComment : String → Type 0
HasComment s = (t : String) × IsCut s t

after_letter-front :
    (n : ℕ) (s t : String)
    → after_letter n s ≡ some t
    → (c : Char) × (code c ≡ n) × (s ≡ letter c t)
unfolding after_letter
after_letter-front n no_letter t h = cc
after_letter-front n (letter c s) t h = elim (Bool-cases (nat_eq (code c) n)) [
  | inl e ↦ (c, (nat_eq_iff (code c) n).0 e, ap (λ u. letter c u) (some_text (rw e at h)))
  | inr e ↦ let q : none ≡ some t = rw e at h in cc
]
  where
    some_text : {u v : String} → some u ≡ some v → u ≡ v
    some_text h = cc

after_first-front :
    (n : ℕ) (s t : String)
    → after_first n s ≡ some t
    → (l : String) × (c : Char) × Lacks n l × (code c ≡ n) × (s ≡ joined l (letter c t))
unfolding after_first
after_first-front n no_letter t h = cc
after_first-front n (letter c s) t h = elim (Bool-cases (nat_eq (code c) n)) [
  | inl e ↦ (
    no_letter,
    c,
    tt,
    (nat_eq_iff (code c) n).0 e,
    ap (λ u. letter c u) (some_text (rw e at h)) ∙ sym (nil-append (letter c t)),
  )
  | inr e ↦
      let (l, d, lacks, is, same) = after_first-front n s t (rw e at h) in
      (
        letter c l,
        d,
        (e, lacks),
        is,
        ap (λ u. letter c u) same ∙ sym (cons-append c l (letter d t)),
      )
]
  where
    some_text : {u v : String} → some u ≡ some v → u ≡ v
    some_text h = cc

pub line_text :
    (a b z : Char) (l t : String)
    → joined (letter a (letter b (joined l (letter z no_letter)))) t
      ≡ letter a (letter b (joined l (letter z t)))
line_text a b z l t = simp (cons-append, nil-append, append_assoc)

pub block_text :
    (a b y z : Char) (l t : String)
    → joined (letter a (letter b (joined l (letter y (letter z no_letter))))) t
      ≡ letter a (letter b (joined l (letter y (letter z t))))
block_text a b y z l t = simp (cons-append, nil-append, append_assoc)

-- What a search finds at the front is a comment.
abbrev Finds : (String → Option String) → Type 0
Finds m = (s t : String) → m s ≡ some t → (c : String) × IsComment c × (s ≡ joined c t)

line_comment-Finds : Finds line_comment
unfolding line_comment
line_comment-Finds s t h =
    let (u, e, h1) = bind_cases (after_letter b'/' s) _ t h in
    let (v, f, h2) = bind_cases (after_letter b'/' u) _ t h1 in
    let (a, is_a, x) = after_letter-front b'/' s u e in
    let (b, is_b, y) = after_letter-front b'/' u v f in
    let (l, z, lacks, is_z, w) = after_first-front b'\n' v t h2 in
    (
      letter a (letter b (joined l (letter z no_letter))),
      line a b z l is_a is_b lacks is_z,
      x ∙ ap (λ k. letter a k) (y ∙ ap (λ k. letter b k) w) ∙ sym (line_text a b z l t),
    )

block_comment-Finds : Finds block_comment
unfolding block_comment
block_comment-Finds s t h =
    let (u, e, h1) = bind_cases (after_letter b'/' s) _ t h in
    let (v, f, h2) = bind_cases (after_letter b'*' u) _ t h1 in
    let (w, i, h3) = bind_cases (after_first b'*' v) _ t h2 in
    let (a, is_a, x) = after_letter-front b'/' s u e in
    let (b, is_b, k) = after_letter-front b'*' u v f in
    let (l, y, lacks, is_y, p) = after_first-front b'*' v w i in
    let (z, is_z, q) = after_letter-front b'/' w t h3 in
    (
      letter a (letter b (joined l (letter y (letter z no_letter)))),
      block a b y z l is_a is_b lacks is_y is_z,
      x
          ∙ ap (λ r. letter a r) (k ∙ ap (λ r. letter b r) (p ∙ ap (λ r. joined l (letter y r)) q))
          ∙ sym (block_text a b y z l t),
    )

without_match-IsCut :
    (m : String → Option String) → Finds m → (s t : String) → without_match m s ≡ some t → IsCut s t
unfolding without_match
without_match-IsCut m f no_letter t h = cc
without_match-IsCut m f (letter c s) t h = elim (or_cases (m (letter c s)) _ t h) [
  | inl e ↦
      let (k, is, same) = f (letter c s) t e in
      record {
        before = no_letter;
        comment = k;
        after = t;
        is_comment = is;
        whole = same ∙ sym (nil-append (joined k t));
        rest = sym (nil-append t);
      }
  | inr e ↦
      let (u, q, d) = bind_cases (without_match m s) (λ u. some (letter c u)) t e in
      let x = without_match-IsCut m f s u q in
      record {
        before = letter c x.before;
        comment = x.comment;
        after = x.after;
        is_comment = x.is_comment;
        whole =
            ap (λ r. letter c r) x.whole ∙ sym (cons-append c x.before (joined x.comment x.after));
        rest =
            sym (some_text d) ∙ ap (λ r. letter c r) x.rest ∙ sym (cons-append c x.before x.after);
      }
]
  where
    some_text : {u v : String} → some u ≡ some v → u ≡ v
    some_text h = cc

without_comment-IsCut : (s t : String) → without_comment s ≡ some t → IsCut s t
unfolding without_comment
without_comment-IsCut s t h = elim (or_cases (without_match line_comment s) _ t h) [
  | inl e ↦ without_match-IsCut line_comment line_comment-Finds s t e
  | inr e ↦ without_match-IsCut block_comment block_comment-Finds s t e
]

Cuts-step :
    (s : String) (o : Option String) (next : String → String)
    → without_comment s ≡ o
    → ((t : String) → Cuts t (next t))
    → Cuts s (elim o [ none ↦ s | some t ↦ next t ])
Cuts-step s none next e k = done
Cuts-step s (some t) next e k = cut (without_comment-IsCut s t e) (k t)

pub uncomment-Cuts : (fuel : ℕ) (s : String) → Cuts s (uncomment fuel s)
unfolding uncomment
uncomment-Cuts zero s = done
uncomment-Cuts (suc fuel) s =
    Cuts-step s (without_comment s) (uncomment fuel) refl (uncomment-Cuts fuel)
