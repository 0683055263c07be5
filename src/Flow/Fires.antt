-- ===== src/Flow/Fires.antt =====
-- `FlowCollection.add` and `FlowCollection.union` neither lose nor invent what is fired.
use floem.Prelude.{
  ℕ, zero, suc, ◌+◌, String, ◌≡◌, refl, sym, ap, subst, inl, inr, Option, none, some, List, [], ◌∷◌,
  ◌++◌, arith, ℕ_equality, String_equality, Bool-cases, length, All, All-append, Result, ok, err,
  ok-of_bind, ok-injective, ◌⊎◌,
}
use floem.Flow.{
  InstancePart, Piece, whole, parts, piece_eq, find_merge, remove_piece, add_within, add, add_all,
  union, FlowCollection, FlowError,
}
use floem.Flow.Parts.{Choice, hits, count, fires, fires-append}
use floem.Flow.Equality.{piece_eq_refl}
use floem.Flow.Merge.{
  IsPiece, IsChoice, Occurs, IsPiece-find_merge, count-find_merge, find_merge-Occurs,
  fires-remove_piece,
}

pub length-remove_piece :
    (x : Piece) (l : List Piece) → Occurs x l → suc (length (remove_piece x l)) ≡ length l
unfolding remove_piece
length-remove_piece x [] h = absurd h
length-remove_piece x (y ∷ l) h = ground (arith, piece_eq_refl x, length-remove_piece x l)

-- What `add` of a list of parts did, when it returned.
add_parts-cases :
    (fuel : ℕ) (target : String) (c d : List Piece) (ys : List InstancePart)
    (r : Result FlowError (Option (Piece × Piece)))
    → find_merge target ys c ≡ r
    → add_within (suc fuel) target c (parts ys) ≡ ok d
    → (d ≡ c ++ parts ys ∷ [])
      ⊎ ((x : Piece) × (z : Piece) × (find_merge target ys c ≡ ok (some (x, z)))
          × (add_within fuel target (remove_piece x c) z ≡ ok d))
unfolding add_within
add_parts-cases fuel target c d ys (err e) f h = absurd (ground (arith, f))
add_parts-cases fuel target c d ys (ok none) f h = inl (ground (arith, f))
add_parts-cases fuel target c d ys (ok (some (x, z))) f h = inr (x, z, f, ground (arith, f))

module _ (total : String → ℕ) where
  All-remove_piece :
      (x : Piece) (l : List Piece) → All (IsPiece total) l → All (IsPiece total) (remove_piece x l)
  unfolding remove_piece
  All-remove_piece x [] h = tt
  All-remove_piece x (y ∷ l) h = elim (Bool-cases (piece_eq y x)) [
    | inl e ↦ rw e h.1
    | inr e ↦ rw e (h.0, All-remove_piece x l h.1)
  ]

  add_within-IsPiece :
      (fuel : ℕ) (target : String) (c d : List Piece) (y : Piece)
      → All (IsPiece total) c
      → IsPiece total y
      → add_within fuel target c y ≡ ok d
      → All (IsPiece total) d
  unfolding add_within
  add_within-IsPiece zero target c d y hc hy h = cc
  add_within-IsPiece (suc fuel) target [] d (whole n) hc hy h =
      subst (All (IsPiece total)) {x = whole n ∷ []} (cc) (tt, tt)
  add_within-IsPiece (suc fuel) target (x ∷ c) d (whole n) hc hy h = cc
  add_within-IsPiece (suc fuel) target c d (parts ys) hc hy h =
      elim (add_parts-cases fuel target c d ys (find_merge target ys c) refl h) [
        | inl e ↦
            subst (All (IsPiece total)) (sym e)
              (All-append (IsPiece total) c (parts ys ∷ []) hc (hy, tt))
        | inr (x, z, f, g) ↦
            add_within-IsPiece fuel target (remove_piece x c) d z (All-remove_piece x c hc)
              (IsPiece-find_merge total target ys c x z hy hc f) g
      ]

  pub add-IsPiece :
      (f g : FlowCollection) (y : Piece)
      → All (IsPiece total) f.collection
      → IsPiece total y
      → add f y ≡ ok g
      → All (IsPiece total) g.collection
  unfolding add
  add-IsPiece f g y hf hy h =
      let (c, e, r) =
        ok-of_bind (add_within (suc (length f.collection)) f.target f.collection y) _ h in
      subst (λ (k : FlowCollection). All (IsPiece total) k.collection) (ok-injective r)
        (add_within-IsPiece (suc (length f.collection)) f.target f.collection c y hf hy e)

  add_all-IsPiece :
      (f g : FlowCollection) (l : List Piece)
      → All (IsPiece total) f.collection
      → All (IsPiece total) l
      → add_all f l ≡ ok g
      → All (IsPiece total) g.collection
  unfolding add_all
  add_all-IsPiece f g [] hf hl h =
      subst (λ (k : FlowCollection). All (IsPiece total) k.collection) (ok-injective h) hf
  add_all-IsPiece f g (y ∷ l) hf hl h =
      let (k, e, r) = ok-of_bind (add f y) _ h in
      add_all-IsPiece k g l (add-IsPiece f k y hf hl.0 e) hl.1 r

  pub union-IsPiece :
      (f g u : FlowCollection)
      → All (IsPiece total) f.collection
      → All (IsPiece total) g.collection
      → union f g ≡ ok u
      → All (IsPiece total) u.collection
  unfolding union
  union-IsPiece f g u hf hg h =
      let (k, e, r) = ok-of_bind (add_all f g.collection) _ h in
      subst (λ (k : FlowCollection). All (IsPiece total) k.collection) (ok-injective r)
        (add_all-IsPiece f k g.collection hf hg e)

  module _ (ω : Choice) (valid : IsChoice total ω) where
    fires-add_within :
        (fuel : ℕ) (target : String) (c d : List Piece) (y : Piece)
        → All (IsPiece total) c
        → IsPiece total y
        → add_within fuel target c y ≡ ok d
        → fires ω d ≡ fires ω c + count (hits ω y)
    unfolding add_within
    fires-add_within zero target c d y hc hy h = cc
    fires-add_within (suc fuel) target [] d (whole n) hc hy h = ground (arith)
    fires-add_within (suc fuel) target (x ∷ c) d (whole n) hc hy h = cc
    fires-add_within (suc fuel) target c d (parts ys) hc hy h =
        elim (add_parts-cases fuel target c d ys (find_merge target ys c) refl h) [
          | inl e ↦ omega (arith, ap (fires ω) e, fires-append ω c (parts ys ∷ []))
          | inr (x, z, f, g) ↦ omega (
            arith,
            count-find_merge total ω valid target ys c x z hy hc f,
            fires-remove_piece total ω valid x c (find_merge-Occurs target ys c x z f),
            fires-add_within fuel target (remove_piece x c) d z (All-remove_piece x c hc)
                (IsPiece-find_merge total target ys c x z hy hc f) g,
          )
        ]

    -- From valid pieces, `add` fires what the collection and the new piece fire, and no more.
    pub fires-add :
        (f g : FlowCollection) (y : Piece)
        → All (IsPiece total) f.collection
        → IsPiece total y
        → add f y ≡ ok g
        → fires ω g.collection ≡ fires ω f.collection + count (hits ω y)
    unfolding add
    fires-add f g y hf hy h =
        let (c, e, r) =
          ok-of_bind (add_within (suc (length f.collection)) f.target f.collection y) _ h in
        omega (
          arith,
          fires-add_within (suc (length f.collection)) f.target f.collection c y hf hy e,
          ap (λ (k : FlowCollection). fires ω k.collection) (ok-injective r),
        )

    fires-add_all :
        (f g : FlowCollection) (l : List Piece)
        → All (IsPiece total) f.collection
        → All (IsPiece total) l
        → add_all f l ≡ ok g
        → fires ω g.collection ≡ fires ω f.collection + fires ω l
    unfolding add_all
    fires-add_all f g [] hf hl h =
        omega (arith, ap (λ (k : FlowCollection). fires ω k.collection) (ok-injective h))
    fires-add_all f g (y ∷ l) hf hl h =
        let (k, e, r) = ok-of_bind (add f y) _ h in
        omega (
          arith,
          fires-add f k y hf hl.0 e,
          fires-add_all k g l (add-IsPiece f k y hf hl.0 e) hl.1 r,
        )

    -- If `union` returns, each choice of ports finds its port in the result as often as in the
    -- two collections together, for collections of valid pieces.
    pub fires-union :
        (f g u : FlowCollection)
        → All (IsPiece total) f.collection
        → All (IsPiece total) g.collection
        → union f g ≡ ok u
        → fires ω u.collection ≡ fires ω f.collection + fires ω g.collection
    unfolding union
    fires-union f g u hf hg h =
        let (k, e, r) = ok-of_bind (add_all f g.collection) _ h in
        omega (
          arith,
          fires-add_all f k g.collection hf hg e,
          ap (λ (k : FlowCollection). fires ω k.collection) (ok-injective r),
        )
