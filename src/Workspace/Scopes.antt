-- ===== src/Workspace/Scopes.antt =====
-- What a scope collects, and that it leaves the scopes around it alone.
use floem.Prelude.{
  String, ◌≡◌, refl, sym, ap, ap₂, ◌∙◌, ◌||◌, some, List, [], ◌∷◌, ◌++◌, arith, ◌==◌,
  String_equality, if◌then◌else◌, ok, ◌>>=◌, Dict, get, put, contains, contains-set_union,
  Bool-cases, inl, inr,
}
use floem.Workspace.{
  Statement, Decl, InstancesCollection, no_instances, add, add_all, union, Workspace, on_last,
  take_last, named_by, scope_append, scope_append_all, push_scope, pop_scope, merge_scope,
  decl_append, push_decl, pop_decl, get_decl,
}

-- The instances that several statements name.
abbrev pub names : List Statement → List String
names [] = []
names (x ∷ l) = named_by x ++ names l

abbrev pub within : Workspace → List (List Statement) → List InstancesCollection → Workspace
within w s c = record w { scope = s; inst_collection = c }

add_all-append :
    (c : InstancesCollection) (k l : List String) → add_all c (k ++ l) ≡ add_all (add_all c k) l
unfolding add_all
add_all-append c [] l = refl
add_all-append c (x ∷ k) l = add_all-append (add c x) k l

append_assoc : (a b c : List Statement) → (a ++ b) ++ c ≡ a ++ (b ++ c)
append_assoc [] b c = refl
append_assoc (x ∷ a) b c = ap (λ l. x ∷ l) (append_assoc a b c)

append_nil : (a : List Statement) → a ++ [] ≡ a
append_nil [] = refl
append_nil (x ∷ a) = ap (λ l. x ∷ l) (append_nil a)

scope_append_all-within :
    (w : Workspace) (k : List Statement) (ks : List (List Statement)) (c : InstancesCollection)
    (cs : List InstancesCollection) (l : List Statement)
    → scope_append_all (within w (k ∷ ks) (c ∷ cs)) l
      ≡ ok (within w ((k ++ l) ∷ ks) (add_all c (names l) ∷ cs))
unfolding scope_append_all scope_append on_last add_all
scope_append_all-within w k ks c cs [] =
    ap (λ k. ok (within w (k ∷ ks) (c ∷ cs))) (sym (append_nil k))
scope_append_all-within w k ks c cs (x ∷ l) =
    scope_append_all-within w (k ++ x ∷ []) ks (add_all c (named_by x)) cs l
    ∙ ap₂ (λ k c. ok (within w (k ∷ ks) (c ∷ cs))) (append_assoc k (x ∷ []) l)
        (sym (add_all-append c (named_by x) (names l)))

-- A scope that is opened, filled and closed gives its statements in order with the instances that
-- they name, and the workspace is what it was before.
pub pop_scope-push_scope :
    (w : Workspace) (name : String) (l : List Statement)
    → (scope_append_all (push_scope w name) l >>= pop_scope)
      ≡ ok ((l, add_all no_instances (names l)), w)
unfolding push_scope pop_scope take_last
pop_scope-push_scope w name l =
    ap (λ r. r >>= pop_scope)
      (scope_append_all-within (record w { stack = name ∷ w.stack }) [] w.scope no_instances
        w.inst_collection l)

contains-add_all :
    (x : String) (c : InstancesCollection) (l : List String)
    → contains x (add_all c l).spec ≡ (contains x c.spec || contains x l)
unfolding add_all add
contains-add_all x c [] = ground arith
contains-add_all x c (y ∷ l) =
    ground (arith, contains-add_all x (add c y) l, contains-set_union x c.spec (y ∷ []))

-- An inner scope that is opened, filled and merged adds its statements to those of the scope around
-- it, behind them, and the outer scope has the instances that it had and those that they name.
pub merge_scope-push_scope :
    (w : Workspace) (name x : String) (k l : List Statement) (ks : List (List Statement))
    (c : InstancesCollection) (cs : List InstancesCollection)
    → w.scope ≡ k ∷ ks
    → w.inst_collection ≡ c ∷ cs
    → (v : Workspace) × (d : InstancesCollection) × ((scope_append_all (push_scope w name) l
          >>= merge_scope)
        ≡ ok (add_all no_instances (names l), v))
      × (v.scope ≡ (k ++ l) ∷ ks)
      × (v.stack ≡ w.stack)
      × (v.inst_collection ≡ d ∷ cs)
      × (contains x d.spec ≡ (contains x c.spec || contains x (names l)))
unfolding push_scope merge_scope take_last on_last union
merge_scope-push_scope w name x k l ks c cs e f =
    let inner = add_all no_instances (names l) in
    (
      within w ((k ++ l) ∷ ks) (union c inner ∷ cs),
      union c inner,
      ap (λ r. r >>= merge_scope)
            (scope_append_all-within (record w { stack = name ∷ w.stack }) [] w.scope no_instances
              w.inst_collection l)
          ∙ rw (e, f, merge_scope) refl,
      refl,
      refl,
      refl,
      ground (
        arith,
        contains-set_union x c.spec inner.spec,
        contains-add_all x no_instances (names l),
      ),
    )

-- A scope of declarations gives what was declared, hides the name as long as it is open, and leaves
-- the workspace as it was.
pub pop_decl-push_decl :
    (w : Workspace) (x : Decl) (n : String) (d : Dict Decl) (ds : List (Dict Decl))
    → w.decl_dict ≡ d ∷ ds
    → (v : Workspace) × (decl_append (push_decl w) x ≡ ok v)
      × (get_decl v.decl_dict n ≡ (if x.name == n then some x else get_decl w.decl_dict n))
      × (pop_decl v ≡ ok (x ∷ [], w))
unfolding push_decl decl_append on_last get_decl pop_decl put get
pop_decl-push_decl w x n d ds e = (
  record w { decls = (x ∷ []) ∷ w.decls; decl_dict = ((x.name, x) ∷ []) ∷ w.decl_dict },
  refl,
  elim (Bool-cases (x.name == n)) [ inl q ↦ rw (q, get_decl) refl | inr q ↦ rw (q, get_decl) refl ],
  rw (e, pop_decl) refl,
)
