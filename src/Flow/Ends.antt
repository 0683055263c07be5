-- ===== src/Flow/Ends.antt =====
-- `FlowCollection.add` ends: each call of itself has one piece less.
use floem.Prelude.{
  ℕ, zero, suc, ◌<◌, String, ◌≡◌, ◌≢◌, refl, Option, none, some, List, [], ◌∷◌, arith, ℕ_equality,
  String_equality, length, Result, ok, err,
}
use floem.Flow.{
  InstancePart, Piece, whole, parts, merge_parts, find_merge, remove_piece, add_within, add,
  FlowCollection, FlowError, out_of_fuel,
}
use floem.Flow.Merge.{Occurs, find_merge-Occurs}
use floem.Flow.Fires.{length-remove_piece}

merge_parts-ends :
    (target : String) (xs ys : List InstancePart) → merge_parts target xs ys ≢ err out_of_fuel
unfolding merge_parts
merge_parts-ends target xs ys = ground arith

find_merge-ends :
    (target : String) (ys : List InstancePart) (l : List Piece)
    → find_merge target ys l ≢ err out_of_fuel
unfolding find_merge
find_merge-ends target ys [] = cc
find_merge-ends target ys (whole n ∷ l) = find_merge-ends target ys l
find_merge-ends target ys (parts xs ∷ l) =
    ground (arith, merge_parts-ends target xs ys, find_merge-ends target ys l)

add_parts-ends :
    (fuel : ℕ) (target : String) (c : List Piece) (ys : List InstancePart)
    (r : Result FlowError (Option (Piece × Piece)))
    → find_merge target ys c ≡ r
    → ((x z : Piece) → Occurs x c → add_within fuel target (remove_piece x c) z ≢ err out_of_fuel)
    → add_within (suc fuel) target c (parts ys) ≢ err out_of_fuel
unfolding add_within
add_parts-ends fuel target c ys (err e) f rest = ground (arith, f, find_merge-ends target ys c)
add_parts-ends fuel target c ys (ok none) f rest = ground (arith, f)
add_parts-ends fuel target c ys (ok (some (x, z))) f rest =
    ground (arith, f, rest x z (find_merge-Occurs target ys c x z f))

add_within-ends :
    (fuel : ℕ) (target : String) (c : List Piece) (y : Piece)
    → length c < fuel
    → add_within fuel target c y ≢ err out_of_fuel
unfolding add_within
add_within-ends zero target c y h = absurd (omega arith)
add_within-ends (suc fuel) target [] (whole n) h = cc
add_within-ends (suc fuel) target (x ∷ c) (whole n) h = cc
add_within-ends (suc fuel) target c (parts ys) h =
    add_parts-ends fuel target c ys (find_merge target ys c) refl λ x z o.
      add_within-ends fuel target (remove_piece x c) z (omega (arith, length-remove_piece x c o))

-- `add` returns or raises: the calls of itself end within the bound.
pub add_ends : (f : FlowCollection) (y : Piece) → add f y ≢ err out_of_fuel
unfolding add
add_ends f y = ground (arith, add_within-ends (suc (length f.collection)) f.target f.collection y)
