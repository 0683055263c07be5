-- ===== src/Graph/Comments.antt =====
-- floem/graph_ir.py, `remove_comment`. The search of a regular expression is the first place at
-- which it matches.
pub mod Removed
pub mod Cut
pub mod Left
mod Samples
use Prim.Native.Char.{Char, code}
use Prim.Native.String.{[] as no_letter, ◌∷◌ as letter, count}
use floem.Prelude.{ℕ, zero, suc, String, Option, none, some, Bool, if◌then◌else◌, nat_eq}

-- What follows a letter at the front.
unfoldable pub after_letter : ℕ → String → Option String
after_letter n no_letter = none
after_letter n (letter c s) = if nat_eq (code c) n then some s else none

-- What follows the first letter of a kind.
unfoldable pub after_first : ℕ → String → Option String
after_first n no_letter = none
after_first n (letter c s) = if nat_eq (code c) n then some s else after_first n s

abbrev pub then_after : (String → Option String) → (String → Option String) → String → Option String
then_after m k s = elim (m s) [ none ↦ none | some t ↦ k t ]

-- "//[^\n]*\n" and "/\*[^\*]*\*/", at the front of a text: what follows the match.
unfoldable pub line_comment : String → Option String
unfolding after_letter after_first
line_comment = then_after (after_letter b'/') (then_after (after_letter b'/') (after_first b'\n'))

unfoldable pub block_comment : String → Option String
unfolding after_letter after_first
block_comment =
    then_after (after_letter b'/')
      (then_after (after_letter b'*') (then_after (after_first b'*') (after_letter b'/')))

-- A text without the first match.
unfoldable pub without_match : (String → Option String) → String → Option String
without_match m no_letter = none
without_match m (letter c s) =
    let rest = without_match m s in
    elim (m (letter c s)) [
      | some t ↦ some t
      | none ↦ elim rest [ none ↦ none | some t ↦ some (letter c t) ]
    ]

unfoldable pub without_comment : String → Option String
unfolding without_match line_comment block_comment
without_comment s = elim (without_match line_comment s) [
  | some t ↦ some t
  | none ↦ without_match block_comment s
]

-- The first number bounds the depth of the calls.
unfoldable pub uncomment : ℕ → String → String
unfolding without_comment
uncomment zero s = s
uncomment (suc fuel) s = elim (without_comment s) [ none ↦ s | some t ↦ uncomment fuel t ]

-- `remove_comment`: each call has a shorter text.
unfoldable pub remove_comment : String → String
unfolding uncomment
remove_comment code = uncomment (suc (count code)) code
