-- ===== src/Flow.antt =====
-- floem/api_handling.py, the classes `InstancePart` and `FlowCollection`: which input ports of a
-- join instance a part of the graph fires.
pub mod Parts
pub mod Equality
pub mod Merge
pub mod Fires
pub mod Ends
pub mod Order
mod Samples
use floem.Prelude.{
  ℕ, zero, suc, ◌+◌, String, ◌≡◌, Bool, true, false, ◌&&◌, ◌||◌, Option, none, some, List, [], ◌∷◌,
  ◌++◌, nat_eq, ltb, ℕ_equality, String_equality, ◌==◌, if◌then◌else◌, length, set_union, set_inter,
  set_beq, Result, ok, err, ◌>>=◌,
}

-- The exceptions that these methods raise.
pub data FlowError : Type 0 where
  -- "The join instance ... is fired more than once in one run."
  join_twice : FlowError
  -- "Port ... of the join instance ... is fired more than once in one run."
  port_twice : FlowError
  -- `x[-1]` or `l[0]` of an empty list, `max` of an empty set
  no_element : FlowError
  -- a method of `InstancePart` or of `list` on a text
  no_attribute : FlowError
  out_of_fuel : FlowError

pub record InstancePart : Type 0 where
  pub instance_name : String
  pub ports : List ℕ
  pub total : ℕ

-- A piece of data: a name stands for all data, a list for what flows through the join nodes in it.
pub data Piece : Type 0 where
  whole : String → Piece
  parts : List InstancePart → Piece

pub record FlowCollection : Type 0 where
  pub collection : List Piece
  pub target : String
  pub total : ℕ
  pub goal : Bool

-- `InstancePart.__eq__`
unfoldable pub part_eq : InstancePart → InstancePart → Bool
part_eq a b = a.instance_name == b.instance_name && set_beq a.ports b.ports

unfoldable pub parts_eq : List InstancePart → List InstancePart → Bool
parts_eq [] [] = true
parts_eq (a ∷ as') (b ∷ bs) = part_eq a b && parts_eq as' bs
parts_eq _ _ = false

unfoldable pub piece_eq : Piece → Piece → Bool
piece_eq (whole a) (whole b) = a == b
piece_eq (parts a) (parts b) = parts_eq a b
piece_eq _ _ = false

-- What `InstancePart.union` returns: False, the name of the instance, or a part of it.
pub data PartUnion : Type 0 where
  apart : PartUnion
  complete : String → PartUnion
  partial : InstancePart → PartUnion

unfoldable pub part_union : InstancePart → InstancePart → PartUnion
part_union a b =
    if a.instance_name == b.instance_name
    then (if nat_eq (length (set_union a.ports b.ports)) a.total
        then complete a.instance_name
        else partial (record a { ports = set_union a.ports b.ports }))
    else apart

-- `InstancePart.intersection`, with `none` for False
unfoldable pub part_intersection : InstancePart → InstancePart → Option InstancePart
part_intersection a b =
    if a.instance_name == b.instance_name
    then (if ltb 0 (length (set_inter a.ports b.ports))
        then some (record a { ports = set_inter a.ports b.ports })
        else none)
    else none

-- `x[:-1]`
abbrev pub front {ℓ} : {A : Type ℓ} → List A → List A
front [] = []
front (x ∷ []) = []
front (x ∷ y ∷ l) = x ∷ front (y ∷ l)

-- `x[-1]`
abbrev pub last? {ℓ} : {A : Type ℓ} → List A → Option A
last? [] = none
last? (x ∷ []) = some x
last? (x ∷ y ∷ l) = last? (y ∷ l)

-- The same for a text.
abbrev pub str_front : String → String
str_front String.[] = String.[]
str_front (String.◌∷◌ c String.[]) = String.[]
str_front (String.◌∷◌ c (String.◌∷◌ d s)) = String.◌∷◌ c (str_front (String.◌∷◌ d s))

-- The last part is complete: it is dropped, and with nothing before it the data is complete.
unfoldable pub without_last : String → List InstancePart → Piece
without_last target [] = whole target
without_last target (p ∷ l) = parts (p ∷ l)

-- The merge of the piece `x` of the collection with the new piece, if their last parts belong to
-- one instance: the piece that takes the place of both.
unfoldable pub merge_last :
    String → List InstancePart → InstancePart → InstancePart → Result FlowError (Option Piece)
unfolding part_intersection part_union without_last
merge_last target prefix p q = elim (part_intersection p q) [
  | some _ ↦ err port_twice
  | none ↦ elim (part_union p q) [
    | apart ↦ ok none
    | complete _ ↦ ok (some (without_last target prefix))
    | partial r ↦ ok (some (parts (prefix ++ r ∷ [])))
  ]
]

unfoldable pub merge_parts :
    String → List InstancePart → List InstancePart → Result FlowError (Option Piece)
unfolding parts_eq merge_last
merge_parts target xs ys =
    if parts_eq xs ys
    then err port_twice
    else if parts_eq (front xs) (front ys)
    then (elim (last? xs) [
      | none ↦ err no_element
      | some p ↦ elim (last? ys) [
        | none ↦ err no_element
        | some q ↦ merge_last target (front xs) p q
      ]
    ])
    else ok none

-- The loop of `add`: the piece to remove, and the piece to add in place of the new one.
unfoldable pub find_merge :
    String → List InstancePart → List Piece → Result FlowError (Option (Piece × Piece))
find_merge target ys [] = ok none
find_merge target ys (whole n ∷ rest) = find_merge target ys rest
find_merge target ys (parts xs ∷ rest) =
    let later = find_merge target ys rest in
    elim (merge_parts target xs ys) [
      | err e ↦ err e
      | ok none ↦ later
      | ok (some z) ↦ ok (some (parts xs, z))
    ]

-- `self.collection.remove(x)`
unfoldable pub remove_piece : Piece → List Piece → List Piece
remove_piece x [] = []
remove_piece x (y ∷ l) = if piece_eq y x then l else y ∷ remove_piece x l

-- `FlowCollection.add`. The first number bounds the depth of its calls of itself.
unfoldable pub add_within : ℕ → String → List Piece → Piece → Result FlowError (List Piece)
add_within zero target c y = err out_of_fuel
add_within (suc fuel) target c (whole n) = elim c [
  | [] ↦ ok (whole n ∷ [])
  | _ ∷ _ ↦ err join_twice
]
add_within (suc fuel) target c (parts ys) = elim (find_merge target ys c) [
  | err e ↦ err e
  | ok none ↦ ok (c ++ parts ys ∷ [])
  | ok (some (x, z)) ↦ add_within fuel target (remove_piece x c) z
]

-- Each call of itself has one piece less.
unfoldable pub add : FlowCollection → Piece → Result FlowError FlowCollection
add f y = do
  c ← add_within (suc (length f.collection)) f.target f.collection y
  ok (record f { collection = c })

unfoldable pub add_all : FlowCollection → List Piece → Result FlowError FlowCollection
add_all f [] = ok f
add_all f (y ∷ l) = do g ← add f y; add_all g l

-- `FlowCollection.union`. Values are not shared, so `clone` is the identity.
unfoldable pub union : FlowCollection → FlowCollection → Result FlowError FlowCollection
union f g = do h ← add_all f g.collection; ok (record h { goal = f.goal || g.goal })

-- One round of the inner loop of `FlowCollection.intersection`.
unfoldable pub meet : Piece → Piece → Result FlowError (List Piece)
unfolding part_intersection parts_eq
meet (whole a) (whole b) =
    if a == b
    then ok (whole a ∷ [])
    else if str_front a == str_front b
    then err no_attribute
    else ok []
meet (parts xs) (parts ys) =
    if parts_eq xs ys
    then ok (parts xs ∷ [])
    else if parts_eq (front xs) (front ys)
    then (elim (last? xs) [
      | none ↦ err no_element
      | some p ↦ elim (last? ys) [
        | none ↦ err no_element
        | some q ↦ elim (part_intersection p q) [
          | none ↦ ok []
          | some r ↦ ok (parts (front xs ++ r ∷ []) ∷ [])
        ]
      ]
    ])
    else ok []
meet x y = ok []

unfoldable pub meet_row : Piece → List Piece → Result FlowError (List Piece)
unfolding meet
meet_row x [] = ok []
meet_row x (y ∷ l) = do a ← meet x y; b ← meet_row x l; ok (a ++ b)

unfoldable pub meet_all : List Piece → List Piece → Result FlowError (List Piece)
unfolding meet_row
meet_all [] l = ok []
meet_all (x ∷ k) l = do a ← meet_row x l; b ← meet_all k l; ok (a ++ b)

-- `FlowCollection.intersection`
unfoldable pub intersection : FlowCollection → FlowCollection → Result FlowError FlowCollection
intersection f g = do
  c ← meet_all f.collection g.collection
  ok (record f { collection = c; goal = f.goal || g.goal })

-- The loop of `FlowCollection.append`.
unfoldable pub append_each : InstancePart → List Piece → Result FlowError (List Piece)
append_each p [] = ok []
append_each p (whole n ∷ l) = err no_attribute
append_each p (parts xs ∷ l) = do k ← append_each p l; ok (parts (xs ++ p ∷ []) ∷ k)

unfoldable pub append : FlowCollection → InstancePart → Result FlowError FlowCollection
append f p = do c ← append_each p f.collection; ok (record f { collection = c })

-- `FlowCollection.full` and `FlowCollection.empty`
unfoldable pub full : FlowCollection → Bool
full f = elim f.collection [
  | [] ↦ false
  | x ∷ l ↦ elim l [ [] ↦ piece_eq x (whole f.target) | _ ∷ _ ↦ false ]
]

unfoldable pub empty : FlowCollection → Bool
empty f = nat_eq (length f.collection) 0

-- `max` of a set
unfoldable pub max_port : List ℕ → Result FlowError ℕ
max_port [] = err no_element
max_port (p ∷ []) = ok p
max_port (p ∷ q ∷ l) = do m ← max_port (q ∷ l); ok (if ltb m p then p else m)

-- The loops of `happens_before`. Their `max_port` starts at -1: here it is one more, and starts at 0.
unfoldable pub last_port : ℕ → List Piece → Result FlowError ℕ
last_port m [] = ok m
last_port m (whole n ∷ l) = last_port m l
last_port m (parts [] ∷ l) = err no_element
last_port m (parts (p ∷ _) ∷ l) = do
  t ← max_port p.ports
  last_port (if ltb m (suc t) then suc t else m) l

-- The decision of `happens_before` on the two maxima, each one more than in the code.
unfoldable pub precedes : ℕ → Bool → ℕ → ℕ → Bool
precedes total goal mine other =
    if nat_eq other total && ltb 0 mine
    then ltb mine other
    else ltb 0 other && (goal && nat_eq mine 0)

-- `FlowCollection.happens_before`
unfoldable pub happens_before : FlowCollection → FlowCollection → Result FlowError Bool
unfolding precedes
happens_before f g = do
  mine ← last_port 0 f.collection
  other ← last_port 0 g.collection
  ok (precedes f.total f.goal mine other)

-- `FlowCollection(target, total)`, `FlowCollection(target, total, port, goal=True)` and
-- `FlowCollection(target, total, goal=True)`
abbrev pub no_flow : String → ℕ → FlowCollection
no_flow t n = record { collection = []; target = t; total = n; goal = false }

abbrev pub port_flow : String → ℕ → ℕ → FlowCollection
port_flow t n p = record {
  collection = parts (record { instance_name = t; ports = p ∷ []; total = n } ∷ []) ∷ [];
  target = t;
  total = n;
  goal = true;
}

abbrev pub goal_flow : String → ℕ → FlowCollection
goal_flow t n = record { collection = []; target = t; total = n; goal = true }
