-- ===== src/Joins/Samples.antt =====
-- The covers of a small graph, and the theorems at inputs that meet their hypotheses.
use floem.Prelude.{
  ℕ, ◌<◌, String, ◌≡◌, ◌≢◌, refl, true, ◌==◌, String_equality, none, List, [], ◌∷◌, if◌then◌else◌,
  ok, err, get, put, values, All, get-All, contains-All, Option-cases, Bool-cases, inl, inr, arith,
  length,
}
use floem.Flow.{
  FlowCollection, whole, goal_flow, port_flow, full, empty, union, add, add_all, add_within,
  intersection, meet_all, find_merge, happens_before, max_port, last_port, piece_eq, part_eq,
  merge_parts, remove_piece,
}
use floem.Flow.Parts.{Choice, fires}
use floem.Flow.Merge.{IsChoice}
use floem.Graph.{GraphError}
use floem.Graph.Walk.{targets}
use floem.Graph.Samples.{small, src_node, right_node}
use floem.Joins.{Answer, Marks, dfs_cover, annotate_for_instance, graph}
use floem.Joins.Derived.{Derives, gives, has_flows, no_answer, dfs_cover-Derives, dfs_cover_answers}
use floem.Joins.Valid.{IsCounted}
use floem.Joins.Sums.{PortFlows, fires_of, dfs_cover-fires}
use floem.Joins.Ends.{IsRanked, dfs_cover_ends}
use floem.Joins.Marked.{Flows, GivesNothing, in_part, annotate_for_instance_lem}

abbrev complete : FlowCollection
complete = record { collection = whole "right" ∷ []; target = "right"; total = 2; goal = true }

abbrev covered : Answer
covered = record {
  answer = ("left", port_flow "right" 2 1) ∷ ("src", complete) ∷ [];
  orders = ("left", []) ∷ ("src", ("out2", "out1") ∷ []) ∷ [];
}

cover_run : dfs_cover 4 small "right" 2 "src" none no_answer ≡ ok (goal_flow "right" 2, covered)
unfolding dfs_cover get put intersection meet_all empty union add_all add add_within find_merge
    happens_before last_port max_port full piece_eq part_eq merge_parts remove_piece
cover_run = refl

abbrev inputs : String → ℕ
inputs k = if k == "right" then 2 else 1

small-IsCounted : IsCounted small inputs "right" 2
small-IsCounted = record {
  named = λ k i h. get-All (λ k i. i.name ≡ k) small.instances k i (refl, (refl, (refl, tt))) h;
  counted = λ k i h.
      get-All (λ k i. 0 < length i.element.inports → inputs k ≡ length i.element.inports)
        small.instances k i ((λ p. absurd (omega (arith, p))), ((λ p. refl), ((λ p. refl), tt))) h;
  of_target = refl;
}

-- Port 0 of each join instance.
abbrev port_zero : Choice
port_zero k = 0

port_zero-IsChoice : IsChoice inputs port_zero
port_zero-IsChoice k = elim (Bool-cases (k == "right")) [
  | inl e ↦ ground (arith, e)
  | inr e ↦ ground (arith, e)
]

dfs_cover-Derives_example : Derives small "right" 2 (gives "src" none (goal_flow "right" 2))
dfs_cover-Derives_example =
    dfs_cover-Derives 4 small "right" 2 "src" none covered (goal_flow "right" 2) cover_run

answers_run : Derives small "right" 2 (has_flows "src" complete)
unfolding get
answers_run =
    dfs_cover_answers 4 small "right" 2 "src" "src" none covered (goal_flow "right" 2) complete
      cover_run refl

dfs_cover-fires_example :
    (xs : List FlowCollection) × PortFlows small "right" 2 src_node.output2ele xs
    × (fires port_zero complete.collection ≡ fires_of port_zero xs)
unfolding get
dfs_cover-fires_example =
    dfs_cover-fires 4 small inputs port_zero "right" 2 "src" "src" none covered
      (goal_flow "right" 2) complete src_node small-IsCounted port_zero-IsChoice cover_run refl refl
      refl

abbrev rank : String → ℕ
rank k = if k == "src" then 2 else if k == "left" then 1 else 0

small-IsRanked : IsRanked small rank
unfolding targets values
small-IsRanked = record {
  falls = λ n m h. elim (Option-cases (get small.instances n)) [
    | inl e ↦ absurd (ground (arith, e))
    | inr (i, e) ↦
        let lower =
          get-All (λ k i. All (λ m. rank m < rank k) (targets i)) small.instances n i
            ((omega arith, (omega arith, tt)), ((omega arith, tt), (tt, tt))) e in
        contains-All (λ m. rank m < rank n) m (targets i) lower (ground (arith, e))
  ];
}

dfs_cover_ends_example :
    dfs_cover 3 small "right" 2 "src" none no_answer ≢ err (graph GraphError.out_of_fuel)
dfs_cover_ends_example =
    dfs_cover_ends 3 small rank "right" 2 "src" none no_answer small-IsRanked (omega arith)

abbrev marks : Marks
marks = record {
  state_create = "src" ∷ [];
  func_params = "left" ∷ [];
  join_call = "left" ∷ [];
  orders = covered.orders;
}

mark_run : annotate_for_instance 4 small right_node ("src" ∷ []) ≡ ok marks
unfolding annotate_for_instance get put intersection meet_all empty union add_all add add_within
    find_merge happens_before last_port max_port full piece_eq part_eq merge_parts remove_piece
mark_run = refl

annotate_for_instance_lem_example :
    All (GivesNothing small "right" 2) ("src" ∷ [])
    × All (Flows small "right" 2 full) ("src" ∷ [])
    × All (Flows small "right" 2 in_part) ("left" ∷ [])
annotate_for_instance_lem_example =
    annotate_for_instance_lem 4 small right_node ("src" ∷ []) marks mark_run
