-- ===== src/Workspace.antt =====
-- floem/workspace.py and floem/collection.py: the scopes in which the statements of a program and the
-- declarations of its states are collected. The global variables are a record; the last entry of a
-- Python list that is used as a stack stands first here.
pub mod Scopes
mod Samples
use floem.Prelude.{
  ℕ, String, Bool, true, false, Option, none, some, List, [], ◌∷◌, ◌++◌, ◌==◌, Equality,
  String_equality, if◌then◌else◌, Result, ok, err, ◌>>=◌, Dict, get, put, set_union, length, ltb,
}

pub data WorkspaceError : Type 0 where
  -- `l[-1]` of an empty list, `d['__up__']` of the outermost dictionary
  index_error key_error : WorkspaceError
  -- "Compile error: there are multiple scopes remained."
  scopes_remain : WorkspaceError

-- The statements of floem/program.py: the two that name instances, and the others.
pub data Statement : Type 0 where
  element_instance : String → String → List String → Statement
  connect : String → String → Option String → Option String → Statement
  other : ℕ → Statement

pub record Decl : Type 0 where
  pub object : ℕ
  pub name : String

-- `InstancesCollection`
pub record InstancesCollection : Type 0 where
  pub spec : List String
  pub impl : Option (List String)

abbrev pub no_instances : InstancesCollection
no_instances = record { spec = []; impl = none }

-- A set that is there and not empty, as `if self.impl` tests.
unfoldable pub filled : Option (List String) → Option (List String)
filled none = none
filled (some s) = if ltb 0 (length s) then some s else none

-- `InstancesCollection.add`, `union`, `union_spec` and `union_impl`
unfoldable pub add : InstancesCollection → String → InstancesCollection
unfolding filled
add c x = record {
  spec = set_union c.spec (x ∷ []);
  impl = elim (filled c.impl) [ none ↦ c.impl | some s ↦ some (set_union s (x ∷ [])) ];
}

unfoldable pub union : InstancesCollection → InstancesCollection → InstancesCollection
unfolding filled
union a b = record {
  spec = set_union a.spec b.spec;
  impl = elim (filled a.impl) [
    | some s ↦ elim (filled b.impl) [
      | some t ↦ some (set_union s t)
      | none ↦ some (set_union s b.spec)
    ]
    | none ↦ elim (filled b.impl) [ some t ↦ some t | none ↦ a.impl ]
  ];
}

unfoldable pub union_spec : InstancesCollection → InstancesCollection → InstancesCollection
union_spec a b = record a { spec = set_union a.spec b.spec }

unfoldable pub union_impl : InstancesCollection → InstancesCollection → InstancesCollection
unfolding filled
union_impl a b = record a {
  impl = elim (filled a.impl) [ some s ↦ some (set_union s b.spec) | none ↦ some b.spec ];
}

pub record Workspace : Type 0 where
  pub decls : List (List Decl)
  pub decl_dict : List (Dict Decl)
  pub scope : List (List Statement)
  pub stack : List String
  pub inst_collection : List InstancesCollection

-- `workspace_reset`
abbrev pub workspace_reset : Workspace
workspace_reset = record {
  decls = [] ∷ [];
  decl_dict = [] ∷ [];
  scope = [] ∷ [];
  stack = [];
  inst_collection = no_instances ∷ [];
}

-- The only entry, which `get_last_decl` and `get_last_scope` return.
unfoldable pub only : {A : Type 0} → List A → Result WorkspaceError A
only (x ∷ []) = ok x
only _ = err scopes_remain

unfoldable pub get_last_decl : Workspace → Result WorkspaceError (List Decl)
unfolding only
get_last_decl w = only w.decls

unfoldable pub get_last_scope : Workspace → Result WorkspaceError (List Statement)
unfolding only
get_last_scope w = only w.scope

-- A change of the innermost entry.
unfoldable pub on_last : {A : Type 0} → (A → A) → List A → Result WorkspaceError (List A)
on_last f [] = err index_error
on_last f (x ∷ l) = ok (f x ∷ l)

-- `decl_append`
unfoldable pub decl_append : Workspace → Decl → Result WorkspaceError Workspace
unfolding on_last
decl_append w x = do
  l ← on_last (λ k. k ++ x ∷ []) w.decls
  d ← on_last (λ e. put e x.name x) w.decl_dict
  ok (record w { decls = l; decl_dict = d })

-- `get_decl` in an environment, which links to the one around it
unfoldable pub get_decl : List (Dict Decl) → String → Option Decl
get_decl [] x = none
get_decl (d ∷ up) x = elim (get d x) [ some v ↦ some v | none ↦ get_decl up x ]

unfoldable pub push_decl : Workspace → Workspace
push_decl w = record w { decls = [] ∷ w.decls; decl_dict = [] ∷ w.decl_dict }

-- `pop_decl`: what was declared, and the workspace after it
unfoldable pub pop_decl : Workspace → Result WorkspaceError (List Decl × Workspace)
pop_decl w = elim w.decl_dict [
  | [] ↦ err key_error
  | d ∷ up ↦ elim up [
    | [] ↦ err key_error
    | e ∷ es ↦ elim w.decls [
      | [] ↦ err index_error
      | k ∷ l ↦ ok (k, record w { decls = l; decl_dict = e ∷ es })
    ]
  ]
]

-- The instances that a statement names.
unfoldable pub named_by : Statement → List String
named_by (element_instance e n l) = n ∷ []
named_by (connect a b p q) = a ∷ b ∷ []
named_by (other k) = []

unfoldable pub add_all : InstancesCollection → List String → InstancesCollection
unfolding add
add_all c [] = c
add_all c (x ∷ l) = add_all (add c x) l

-- `scope_append` and `scope_prepend`
unfoldable pub scope_append : Workspace → Statement → Result WorkspaceError Workspace
unfolding on_last add_all named_by
scope_append w x = do
  s ← on_last (λ k. k ++ x ∷ []) w.scope
  c ← on_last (λ k. add_all k (named_by x)) w.inst_collection
  ok (record w { scope = s; inst_collection = c })

unfoldable pub scope_prepend : Workspace → Statement → Result WorkspaceError Workspace
unfolding on_last
scope_prepend w x = do s ← on_last (λ k. x ∷ k) w.scope; ok (record w { scope = s })

-- `push_scope`
unfoldable pub push_scope : Workspace → String → Workspace
push_scope w name = record w {
  scope = [] ∷ w.scope;
  stack = name ∷ w.stack;
  inst_collection = no_instances ∷ w.inst_collection;
}

-- `stack[:-1]`
abbrev pub rest_of {ℓ} : {A : Type ℓ} → List A → List A
rest_of [] = []
rest_of (x ∷ l) = l

-- The last entry, and the others.
unfoldable pub take_last : {A : Type 0} → List A → Result WorkspaceError (A × List A)
take_last [] = err index_error
take_last (x ∷ l) = ok (x, l)

-- `pop_scope`: the statements and the instances of the innermost scope, and the workspace after it
unfoldable pub pop_scope :
    Workspace → Result WorkspaceError ((List Statement × InstancesCollection) × Workspace)
unfolding take_last
pop_scope w = do
  (s, scope) ← take_last w.scope
  (c, collection) ← take_last w.inst_collection
  ok ((s, c), record w { scope = scope; stack = rest_of w.stack; inst_collection = collection })

-- `merge_scope`: the instances of the innermost scope, and the workspace after it
unfoldable pub merge_scope : Workspace → Result WorkspaceError (InstancesCollection × Workspace)
unfolding take_last on_last union
merge_scope w = do
  (s, scope) ← take_last w.scope
  joined ← on_last (λ k. k ++ s) scope
  (c, collection) ← take_last w.inst_collection
  merged ← on_last (λ k. union k c) collection
  ok (c, record w { scope = joined; stack = rest_of w.stack; inst_collection = merged })

-- Several calls of `scope_append`.
unfoldable pub scope_append_all : Workspace → List Statement → Result WorkspaceError Workspace
unfolding scope_append
scope_append_all w [] = ok w
scope_append_all w (x ∷ l) = do v ← scope_append w x; scope_append_all v l
