-- ===== src/Graph/Build/Samples.antt =====
-- Merging graphs and adding elements: the theorems at inputs that meet their hypotheses.
use floem.Prelude.{◌≡◌, refl, true, false, String_equality, some, [], ◌∷◌, ok, get, put}
use floem.Graph.{Graph}
use floem.Graph.Build.{merge, merged, add_element}
use floem.Graph.Build.Merged.{merge_lem}
use floem.Graph.Build.Added.{add_element_again}
use floem.Graph.Samples.{small, apart, forward, left_node}

merge_run : merge apart small ≡ ok (merged apart small)
unfolding merge
merge_run = refl

merge_lem_example : get (merged apart small).instances "left" ≡ some left_node
unfolding get
merge_lem_example = (merge_lem apart small (merged apart small) "left" merge_run).0

abbrev added : Graph
added = record small { elements = ("Forward", forward) ∷ [] }

add_run : add_element small forward ≡ ok (true, added)
unfolding add_element get put
add_run = refl

add_element_again_example : add_element added forward ≡ ok (false, added)
add_element_again_example = (add_element_again small added forward true "Fork" add_run).2
