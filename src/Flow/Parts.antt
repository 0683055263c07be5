-- ===== src/Flow/Parts.antt =====
-- How often a choice of one input port at each join instance finds its port in a collection.
use floem.Prelude.{
  ℕ, ◌+◌, String, ◌≡◌, refl, ap, Bool, true, false, ◌&&◌, some, List, [], ◌∷◌, ◌++◌, arith,
  ℕ_equality, String_equality, contains, contains-set_beq,
}
use floem.Flow.{InstancePart, Piece, whole, parts, part_eq, parts_eq, piece_eq, front, last?}

-- A run picks one input port of each join instance.
abbrev pub Choice : Type 0
Choice = String → ℕ

abbrev pub count : Bool → ℕ
count true = 1
count false = 0

module _ (ω : Choice) where
  abbrev pub hits_part : InstancePart → Bool
  hits_part p = contains (ω p.instance_name) p.ports

  abbrev pub hits_parts : List InstancePart → Bool
  hits_parts [] = true
  hits_parts (p ∷ l) = hits_part p && hits_parts l

  -- A whole is hit by every choice.
  abbrev pub hits : Piece → Bool
  hits (whole n) = true
  hits (parts l) = hits_parts l

  abbrev pub fires : List Piece → ℕ
  fires [] = 0
  fires (x ∷ l) = count (hits x) + fires l

  pub hits_parts-front :
      (l : List InstancePart) (p : InstancePart)
      → last? l ≡ some p
      → hits_parts l ≡ (hits_parts (front l) && hits_part p)
  hits_parts-front [] p h = cc
  hits_parts-front (x ∷ []) p h = ground (arith, ap hits_part {x = x} {y = p})
  hits_parts-front (x ∷ y ∷ l) p h = ground (arith, hits_parts-front (y ∷ l) p h)

  pub hits_parts-append :
      (l : List InstancePart) (p : InstancePart)
      → hits_parts (l ++ p ∷ []) ≡ (hits_parts l && hits_part p)
  hits_parts-append [] p = ground arith
  hits_parts-append (x ∷ l) p = ground (arith, hits_parts-append l p)

  pub hits-part_eq : (p q : InstancePart) → part_eq p q ≡ true → hits_part p ≡ hits_part q
  unfolding part_eq
  hits-part_eq p q h = ground (
    arith,
    String_equality.same_iff p.instance_name q.instance_name,
    λ (e : p.instance_name ≡ q.instance_name). ap (λ n. contains (ω n) p.ports) e,
    contains-set_beq (ω q.instance_name) p.ports q.ports,
  )

  pub hits-parts_eq : (k l : List InstancePart) → parts_eq k l ≡ true → hits_parts k ≡ hits_parts l
  unfolding parts_eq
  hits-parts_eq [] [] h = refl
  hits-parts_eq (a ∷ k) (b ∷ l) h = ground (arith, hits-part_eq a b, hits-parts_eq k l)
  hits-parts_eq [] (b ∷ l) h = cc
  hits-parts_eq (a ∷ k) [] h = cc

  pub hits-piece_eq : (x y : Piece) → piece_eq x y ≡ true → hits x ≡ hits y
  unfolding piece_eq
  hits-piece_eq (whole a) (whole b) h = refl
  hits-piece_eq (parts a) (parts b) h = hits-parts_eq a b h
  hits-piece_eq (whole a) (parts b) h = cc
  hits-piece_eq (parts a) (whole b) h = cc

  pub fires-append : (k l : List Piece) → fires (k ++ l) ≡ fires k + fires l
  fires-append [] l = omega arith
  fires-append (x ∷ k) l = omega (arith, fires-append k l)
