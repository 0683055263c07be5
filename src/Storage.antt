-- ===== src/Storage.antt =====
-- floem/program.py, `StorageState`, `PopulateState` and `CompareState`: the states that a run fills or
-- compares, with the instances of the specification and of the implementation.
use Prim.Native.String.{slice, len}
use text.Mathlib.Text.{starts_with}
use floem.Prelude.{
  ℕ, String, ◌&&◌, Option, none, some, List, [], ◌∷◌, ◌++◌, if◌then◌else◌, ltb, Dict, get, put,
}

-- `StorageState`, and the two classes below it: a PopulateState has an interval.
pub record StorageState : Type 0 where
  pub name : String
  pub state_instance : String
  pub state : String
  pub type : String
  pub size : ℕ
  pub func : String
  pub spec_instances : Dict String
  pub impl_instances : Dict String

pub record PopulateState : Type 0 where
  pub storage : StorageState
  pub interval : ℕ
  pub spec_ele_instances : List String
  pub impl_ele_instances : List String

-- `re.match(prefix + '(.+)', instance)` and `m.group(1)`, of a name without a line break
unfoldable pub match_prefix : String → String → Option String
match_prefix prefix instance =
    if starts_with instance prefix && ltb (len prefix) (len instance)
    then some (slice instance (len prefix) (len instance))
    else none

-- `StorageState.add`
unfoldable pub add : StorageState → String → StorageState
unfolding match_prefix
add s instance = elim (match_prefix "_spec_" instance) [
  | some n ↦ record s { spec_instances = put s.spec_instances n instance }
  | none ↦ elim (match_prefix "_impl_" instance) [
    | some n ↦ record s { impl_instances = put s.impl_instances n instance }
    | none ↦ record s { spec_instances = put s.spec_instances instance instance }
  ]
]

-- `PopulateState.add_element_instance`
unfoldable pub add_element_instance : PopulateState → String → PopulateState
unfolding match_prefix
add_element_instance s instance = elim (match_prefix "_spec_" instance) [
  | some n ↦ record s { spec_ele_instances = s.spec_ele_instances ++ instance ∷ [] }
  | none ↦ elim (match_prefix "_impl_" instance) [
    | some n ↦ record s { impl_ele_instances = s.impl_ele_instances ++ instance ∷ [] }
    | none ↦ record s { spec_ele_instances = s.spec_ele_instances ++ instance ∷ [] }
  ]
]

-- `CompareState.clone` and `PopulateState.clone`, which are without instances.
unfoldable pub clone : StorageState → StorageState
clone s = record s { spec_instances = []; impl_instances = [] }

unfoldable pub clone_populate : PopulateState → PopulateState
unfolding clone
clone_populate s = record s {
  storage = clone s.storage;
  spec_ele_instances = [];
  impl_ele_instances = [];
}

-- The state that a key leads to is changed, where there is one.
unfoldable pub change_entry : {A : Type 0} → (A → A) → Dict A → String → Dict A
change_entry f d k = elim (get d k) [ none ↦ d | some a ↦ put d k (f a) ]
