-- ===== src/Workspace/Samples.antt =====
-- Scopes that are opened and closed: the theorems at concrete workspaces.
use floem.Prelude.{
  String, ◌≡◌, refl, ◌||◌, ◌==◌, String_equality, none, some, List, [], ◌∷◌, if◌then◌else◌, ok,
  ◌>>=◌, contains,
}
use floem.Workspace.{
  named_by, Statement, element_instance, connect, Decl, InstancesCollection, no_instances, add_all,
  Workspace, workspace_reset, scope_append_all, push_scope, pop_scope, merge_scope, decl_append,
  push_decl, pop_decl, get_decl,
}
use floem.Workspace.Scopes.{names, pop_scope-push_scope, merge_scope-push_scope, pop_decl-push_decl}

abbrev two : List Statement
two = element_instance "Forward" "left" [] ∷ connect "src" "left" none none ∷ []

abbrev one : Decl
one = record { object = 0; name = "Counter" }

names_run : names two ≡ "left" ∷ "src" ∷ "left" ∷ []
unfolding named_by
names_run = refl

pop_scope-push_scope_example :
    (scope_append_all (push_scope workspace_reset "inner") two >>= pop_scope)
    ≡ ok ((two, add_all no_instances (names two)), workspace_reset)
pop_scope-push_scope_example = pop_scope-push_scope workspace_reset "inner" two

merge_scope-push_scope_example :
    (v : Workspace) × (d : InstancesCollection) × ((scope_append_all
          (push_scope workspace_reset "inner")
          two
        >>= merge_scope)
      ≡ ok (add_all no_instances (names two), v))
    × (v.scope ≡ two ∷ [])
    × (v.stack ≡ [])
    × (v.inst_collection ≡ d ∷ [])
    × (contains "src" d.spec ≡ (contains {A = String} "src" [] || contains "src" (names two)))
merge_scope-push_scope_example =
    merge_scope-push_scope workspace_reset "inner" "src" [] two [] no_instances [] refl refl

pop_decl-push_decl_example :
    (v : Workspace) × (decl_append (push_decl workspace_reset) one ≡ ok v)
    × (get_decl v.decl_dict "Counter" ≡ (
        if one.name == "Counter" then some one else get_decl workspace_reset.decl_dict "Counter"))
    × (pop_decl v ≡ ok (one ∷ [], workspace_reset))
pop_decl-push_decl_example = pop_decl-push_decl workspace_reset one "Counter" [] [] refl
