-- ===== src/Flow/Equality.antt =====
-- `==` on parts and pieces is reflexive.
use floem.Prelude.{
  ℕ, ◌≡◌, refl, true, List, [], ◌∷◌, arith, nat_eq_iff, ℕ_equality, String_equality, contains,
  is_subset, All,
}
use floem.Flow.{InstancePart, Piece, whole, parts, part_eq, parts_eq, piece_eq}

is_subset_refl : (k xs : List ℕ) → All (λ x. contains x k ≡ true) xs → is_subset xs k ≡ true
is_subset_refl k [] h = refl
is_subset_refl k (x ∷ xs) h = ground (arith, is_subset_refl k xs h.1)

All-contains :
    (k xs : List ℕ)
    → ((x : ℕ) → contains x xs ≡ true → contains x k ≡ true)
    → All (λ x. contains x k ≡ true) xs
All-contains k [] h = tt
All-contains k (x ∷ xs) h =
    (h x (ground (arith, nat_eq_iff x x)), All-contains k xs (λ y m. h y (ground arith)))

pub part_eq_refl : (p : InstancePart) → part_eq p p ≡ true
unfolding part_eq
part_eq_refl p =
    let s = is_subset_refl p.ports p.ports (All-contains p.ports p.ports (λ x m. m)) in
    ground (arith, String_equality.same_iff p.instance_name p.instance_name, s)

pub parts_eq_refl : (l : List InstancePart) → parts_eq l l ≡ true
unfolding parts_eq
parts_eq_refl [] = refl
parts_eq_refl (p ∷ l) = ground (arith, part_eq_refl p, parts_eq_refl l)

pub piece_eq_refl : (x : Piece) → piece_eq x x ≡ true
unfolding piece_eq
piece_eq_refl (whole n) = (String_equality.same_iff n n).1 refl
piece_eq_refl (parts l) = parts_eq_refl l
