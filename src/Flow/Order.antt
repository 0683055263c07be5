-- ===== src/Flow/Order.antt =====
-- `FlowCollection.happens_before` orders the calls of output ports.
use floem.Prelude.{
  ℕ, ◌≡◌, ap, ap₂, sym, ◌∙◌, Bool, true, false, arith, ok, ok-of_bind, ok-injective,
}
use floem.Flow.{FlowCollection, last_port, precedes, happens_before}

precedes_irrefl : (t m : ℕ) (g : Bool) → precedes t g m m ≡ false
unfolding precedes
precedes_irrefl t m g = ground arith

precedes_asymm : (t a b : ℕ) (f g : Bool) → precedes t f a b ≡ true → precedes t g b a ≡ false
unfolding precedes
precedes_asymm t a b f g h = ground arith

precedes_trans :
    (t a b c : ℕ) (f g : Bool)
    → precedes t f a b ≡ true
    → precedes t g b c ≡ true
    → precedes t f a c ≡ true
unfolding precedes
precedes_trans t a b c f g h k = ground arith

-- The maxima that a decision of `happens_before` rests on.
happens_before-cases :
    (f g : FlowCollection) (b : Bool)
    → happens_before f g ≡ ok b
    → (m : ℕ) × (n : ℕ) × (last_port 0 f.collection ≡ ok m)
      × (last_port 0 g.collection ≡ ok n)
      × (precedes f.total f.goal m n ≡ b)
unfolding happens_before
happens_before-cases f g b h =
    let (m, e, r) = ok-of_bind (last_port 0 f.collection) _ h in
    let (n, k, s) = ok-of_bind (last_port 0 g.collection) _ r in (m, n, e, k, ok-injective s)

-- Of two collections of one join instance (with one total), at most one happens before the other:
-- if the first does, the test the other way round answers no, without an exception.
pub happens_before_asymm :
    (f g : FlowCollection)
    → f.total ≡ g.total
    → happens_before f g ≡ ok true
    → happens_before g f ≡ ok false
unfolding happens_before
happens_before_asymm f g e h =
    let (m, n, p, q, r) = happens_before-cases f g true h in
    ground
      (arith, p, q, precedes_asymm f.total m n f.goal g.goal r, ap (λ t. precedes t g.goal n m) e)

-- For collections of one join instance (with one total), `happens_before` is transitive: a chain of
-- two answers yes from end to end, without an exception.
pub happens_before_trans :
    (f g h : FlowCollection)
    → f.total ≡ g.total
    → happens_before f g ≡ ok true
    → happens_before g h ≡ ok true
    → happens_before f h ≡ ok true
unfolding happens_before
happens_before_trans f g h e fg gh =
    let (m, n, p, q, r) = happens_before-cases f g true fg in
    let (n', k, p', q', r') = happens_before-cases g h true gh in
    let same : n ≡ n' = ok-injective (sym q ∙ p') in
    let r'' : precedes f.total g.goal n k ≡ true = ap₂ (λ t x. precedes t g.goal x k) e same ∙ r' in
    ground (arith, p, q', precedes_trans f.total m n k f.goal g.goal r r'')
