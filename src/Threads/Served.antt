-- ===== src/Threads/Served.antt =====
-- What `check_resources` writes into the API functions.
use floem.Prelude.{
  String, ◌≡◌, refl, sym, subst, inl, inr, Bool, true, false, Option, none, some, List, [], ◌∷◌,
  ◌++◌, arith, All, ltb, length, list_beq, list_beq_iff, String_equality, if◌then◌else◌, ok,
  ok-of_bind, ok-injective, Dict, get, has, keys, values, contains, IsDistinct, every_found,
}
use floem.Graph.{GraphError, assertion, Node, Graph, Api, lookup}
use floem.Graph.Build.{check}
use floem.Graph.Connect.Linked.{lookup-eq-ok}
use floem.Graph.Walk.Closed.{IsNamed}
use floem.Threads.{
  Return, is_promised, dfs_collect_return, types_port_list, find_starts, check_api, check_apis,
  check_resources,
}
use floem.Threads.Started.{IsStart, find_starts-only, check_resources-cases}
use floem.Threads.Returned.{Gives, IsOpen, nothing, through, dfs_collect_return-Gives}

-- The type, the instance and the port that are returned: none, or those of an open port.
pub data Answers (g : Graph) (thread : String)
    : Option String → Option String → Option String → Type 0 where
  answers_nothing : Answers g thread none none none
  answers :
      {t n q : String} → IsOpen g thread n q (t ∷ []) → Answers g thread (some t) (some n) (some q)

-- The instance that is called runs on the function's thread and starts it, and what the function
-- returns is what an open port of an instance on the thread carries.
pub record IsServed (g : Graph) (a : Api) : Type 0 where
  pub start : String
  pub node : Node
  pub calls : a.call_instance ≡ some start
  pub found : get g.instances start ≡ some node
  pub starts : IsStart g a.name node
  pub returns : Answers g a.name a.return_type a.return_instance a.return_port

check-holds : (b : Bool) (e : GraphError) (u : Unit {0}) → check b e ≡ ok u → b ≡ true
check-holds true e u h = refl
check-holds false e u h = absurd (ground (arith, h))

last_one :
    (before types : List String) (t : String)
    → ltb 0 (length types) ≡ true
    → before ++ types ≡ t ∷ []
    → types ≡ t ∷ []
last_one [] types t h e = e
last_one (x ∷ []) [] t h e = absurd (ground (arith, h))
last_one (x ∷ []) (y ∷ l) t h e = absurd (ground (arith, e))
last_one (x ∷ y ∷ k) l t h e = absurd (ground (arith, e))

not_nothing :
    (before types : List String)
    → ltb 0 (length types) ≡ true
    → list_beq (before ++ types) [] ≡ true
    → ⊥
not_nothing [] [] h e = ground (arith, h)
not_nothing [] (x ∷ l) h e = ground (arith, e)
not_nothing (x ∷ k) l h e = ground (arith, e)

Gives-Answers :
    (g : Graph) (thread : String) (r : Return) (type : Option String)
    → Gives g thread r
    → is_promised type r.types ≡ true
    → Answers g thread type r.instance_name r.port
unfolding is_promised
Gives-Answers g thread r none (nothing e) h = rw e answers_nothing
Gives-Answers g thread r (some t) (nothing e) h = absurd (ground (arith, rw e at h))
Gives-Answers g thread r none (through before types n q e more free) h =
    absurd (not_nothing before types more (rw e at h))
Gives-Answers g thread r (some t) (through before types n q e more free) h = rw e (
    answers (
      subst (IsOpen g thread n q)
        (last_one before types t more ((list_beq_iff (before ++ types) (t ∷ [])).0 (rw e at h)))
        free))

module _ (g : Graph) (u : IsDistinct (keys g.instances)) (named : IsNamed g) (starts : Dict Node)
    (filled : find_starts g (values g.instances) [] ≡ ok starts) where
  started :
      (t : String) (i : Node)
      → get starts t ≡ some i
      → (get g.instances i.name ≡ some i) × IsStart g t i
  unfolding get
  started t i e =
      elim (find_starts-only g (λ v. (k : String) × (get g.instances k ≡ some v))
        (values g.instances) [] starts t i filled (every_found g.instances u) e) [
          | inl none_there ↦ absurd (ground (arith, none_there))
          | inr ((k, f), s) ↦
              (subst (λ k. get g.instances k ≡ some i) (sym (named.at_key k i f)) f, s)
        ]

  check_api-IsServed : (a b : Api) → check_api g starts a ≡ ok b → IsServed g b
  unfolding check_api
  check_api-IsServed a b h =
      let (_, _, h) = ok-of_bind (check (has starts a.name) assertion) _ h in
      let (i, e, h) = ok-of_bind (lookup starts a.name) _ h in
      let (_, _, h) =
        ok-of_bind
          (check
            (if contains i.name g.threads_roots
              then list_beq (types_port_list i.element.inports) a.call_types
              else list_beq a.call_types [])
            assertion)
          _ h in
      let (r, c, h) = ok-of_bind (dfs_collect_return g i.name a.name) _ h in
      let (t, d, h) = ok-of_bind (check (is_promised a.return_type r.types) assertion) _ h in
      let (f, s) = started a.name i (lookup-eq-ok starts a.name i e) in
      subst (IsServed g) (ok-injective h) (record {
        start = i.name;
        node = i;
        calls = refl;
        found = f;
        starts = s;
        returns =
            Gives-Answers g a.name r a.return_type (dfs_collect_return-Gives g i.name a.name r c)
              (check-holds (is_promised a.return_type r.types) assertion t d);
      })

  check_apis-IsServed : (l k : List Api) → check_apis g starts l ≡ ok k → All (IsServed g) k
  unfolding check_apis
  check_apis-IsServed [] k h = subst (All (IsServed g)) (ok-injective h) tt
  check_apis-IsServed (a ∷ l) k h =
      let (b, c, h) = ok-of_bind (check_api g starts a) _ h in
      let (m, d, h) = ok-of_bind (check_apis g starts l) _ h in
      subst (All (IsServed g)) (ok-injective h)
        (check_api-IsServed a b c, check_apis-IsServed l m d)

-- If each instance is stored once, under its name, and `check_resources` returns, each API function
-- of the new graph is served: the instance that it calls is the start of its thread, and what it
-- returns, if anything, is the one type of a port that leads nowhere, of an instance of the thread.
pub check_resources-IsServed :
    (g h : Graph)
    → IsDistinct (keys g.instances)
    → IsNamed g
    → check_resources g ≡ ok h
    → All (IsServed g) h.threads_api
check_resources-IsServed g h u named e =
    let (starts, a, b, _) = check_resources-cases g h e in
    check_apis-IsServed g u named starts a g.threads_api h.threads_api b
