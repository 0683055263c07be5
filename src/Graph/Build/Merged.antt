-- ===== src/Graph/Build/Merged.antt =====
-- What a merged graph holds.
use floem.Prelude.{
  String, ◌≡◌, ap, inl, inr, ◌||◌, none, List, [], ◌∷◌, ◌==◌, arith, String_equality, if◌then◌else◌,
  ok, Dict, get, has, keys, get-put, contains, contains-keys, Option-cases, ok-of_bind,
  ok-injective,
}
use floem.Graph.{Graph, assertion}
use floem.Graph.Build.{merge_key, merge_keys, merge_dict, merge, merged, check, agrees}

module _ {ℓ} {V : Type ℓ} where
  get-merge_key :
      (this other : Dict V) (j k : String)
      → get (merge_key this other j) k
        ≡ (if has this k then get this k else if j == k then get other k else none)
  unfolding merge_key
  get-merge_key this other j k = elim (Option-cases (get other j)) [
    | inl e ↦ ground (arith, e, String_equality.same_iff j k, λ (q : j ≡ k). ap (get other) q)
    | inr (v, e) ↦ ground (
      arith,
      e,
      String_equality.same_iff j k,
      λ (q : j ≡ k). ap (get other) q,
      λ (q : j ≡ k). ap (get this) q,
      get-put this j k v,
    )
  ]

  get-merge_keys :
      (this other : Dict V) (l : List String) (k : String)
      → get (merge_keys this other l) k
        ≡ (if has this k then get this k else if contains k l then get other k else none)
  unfolding merge_keys
  get-merge_keys this other [] k = ground arith
  get-merge_keys this other (j ∷ l) k =
      ground
        (arith, get-merge_key this other j k, get-merge_keys (merge_key this other j) other l k)

  -- A merged dictionary keeps the entries of the first, and has those of the second for other keys.
  pub get-merge_dict :
      (this other : Dict V) (k : String)
      → get (merge_dict this other) k ≡ (if has this k then get this k else get other k)
  unfolding merge_dict
  get-merge_dict this other k =
      ground (arith, get-merge_keys this other (keys other) k, contains-keys other k)

merge-eq-merged : (g h m : Graph) → merge g h ≡ ok m → merged g h ≡ m
unfolding merge
merge-eq-merged g h m e =
    let (_, p, q) =
      ok-of_bind
        (check (h.default_process == "tmp" || g.default_process == h.default_process) assertion) _
        e in
    let (_, r, s) = ok-of_bind (check (agrees g.master_process h.master_process) assertion) _ q in
    ok-injective s

-- If `merge` returns, a name leads to the instance, element, state or thread of the first graph, if
-- it has one of that name, and else to that of the second, if that has one.
pub merge_lem :
    (g h m : Graph) (k : String)
    → merge g h ≡ ok m
    → (get m.instances k ≡ (if has g.instances k then get g.instances k else get h.instances k))
      × (get m.elements k ≡ (if has g.elements k then get g.elements k else get h.elements k))
      × (get m.states k ≡ (if has g.states k then get g.states k else get h.states k))
      × (get m.state_instances k
          ≡ (if has g.state_instances k then get g.state_instances k else get h.state_instances k))
      × (get m.thread2process k
          ≡ (if has g.thread2process k then get g.thread2process k else get h.thread2process k))
unfolding merged
merge_lem g h m k e =
    let same = merge-eq-merged g h m e in
    rw (← same) (
      get-merge_dict g.instances h.instances k,
      get-merge_dict g.elements h.elements k,
      get-merge_dict g.states h.states k,
      get-merge_dict g.state_instances h.state_instances k,
      get-merge_dict g.thread2process h.thread2process k,
    )
