-- ===== src/Graph/Comments/Samples.antt =====
-- Runs of `remove_comment`, and its theorem at one of them.
use floem.Prelude.{String, ◌≡◌, refl}
use floem.Graph.Comments.{remove_comment}
use floem.Graph.Comments.Cut.{Cuts, HasComment}
use floem.Graph.Comments.Left.{remove_comment_lem}

abbrev commented : String
commented = "int a; // first\nint b; /* second */ b = a / 2;"

commented_run : remove_comment commented ≡ "int a; int b;  b = a / 2;"
unfolding remove_comment
commented_run = refl

-- A comment without its end, or with a star inside, stays.
open_run : remove_comment "a /* b // c" ≡ "a /* b // c"
unfolding remove_comment
open_run = refl

star_run : remove_comment "a /* b * c */" ≡ "a /* b * c */"
unfolding remove_comment
star_run = refl

remove_comment_lem_example :
    Cuts commented (remove_comment commented) × ¬ HasComment (remove_comment commented)
remove_comment_lem_example = remove_comment_lem commented
