-- ===== src/Flow/Samples.antt =====
-- Runs of the methods of `FlowCollection`, and the theorems at inputs that meet their hypotheses.
use floem.Prelude.{ℕ, ◌+◌, String, ◌≡◌, ◌≢◌, refl, true, false, List, [], ◌∷◌, arith, ok, err}
use floem.Flow.{
  whole, parts, FlowCollection, join_twice, out_of_fuel, port_flow, goal_flow, add, add_all,
  add_within, find_merge, merge_parts, parts_eq, part_eq, remove_piece, piece_eq, last_port,
  max_port, union, happens_before,
}
use floem.Flow.Parts.{Choice, fires}
use floem.Flow.Fires.{fires-union}
use floem.Flow.Ends.{add_ends}
use floem.Flow.Order.{happens_before_asymm, happens_before_trans}

-- Each join instance has three input ports.
abbrev three : String → ℕ
three n = 3

abbrev some_ports : List ℕ → FlowCollection
some_ports ps = record {
  collection = parts (record { instance_name = "j"; ports = ps; total = 3 } ∷ []) ∷ [];
  target = "j";
  total = 3;
  goal = true;
}

abbrev all_ports : FlowCollection
all_ports = record { collection = whole "j" ∷ []; target = "j"; total = 3; goal = true }

union_run : union (some_ports (0 ∷ 2 ∷ [])) (port_flow "j" 3 1) ≡ ok all_ports
unfolding union add_all add add_within find_merge merge_parts remove_piece piece_eq parts_eq part_eq
union_run = refl

abbrev second : Choice
second n = 1

fires-union_example :
    fires second all_ports.collection
    ≡ fires second (some_ports (0 ∷ 2 ∷ [])).collection
      + fires second (port_flow "j" 3 1).collection
fires-union_example =
    fires-union three second (λ n. omega arith) (some_ports (0 ∷ 2 ∷ [])) (port_flow "j" 3 1)
      all_ports
      ((record { same = refl; distinct = (refl, (refl, tt)); bounded = omega arith }, tt), tt)
      ((record { same = refl; distinct = (refl, tt); bounded = omega arith }, tt), tt) union_run

add_ends_example : add (some_ports (0 ∷ [])) (whole "j") ≢ err out_of_fuel
add_ends_example = add_ends (some_ports (0 ∷ [])) (whole "j")

-- All the data after a part of it is refused.
add_refuses : add (some_ports (0 ∷ [])) (whole "j") ≡ err join_twice
unfolding add add_within
add_refuses = refl

-- The first call fires port 0, the second the last port, and a complete call precedes both.
first_run : happens_before (some_ports (0 ∷ [])) (some_ports (2 ∷ [])) ≡ ok true
unfolding happens_before last_port max_port
first_run = refl

complete_run : happens_before (goal_flow "j" 3) (some_ports (0 ∷ [])) ≡ ok true
unfolding happens_before last_port max_port
complete_run = refl

asymm_run : happens_before (some_ports (2 ∷ [])) (some_ports (0 ∷ [])) ≡ ok false
asymm_run = happens_before_asymm (some_ports (0 ∷ [])) (some_ports (2 ∷ [])) refl first_run

happens_before_trans_example : happens_before (goal_flow "j" 3) (some_ports (2 ∷ [])) ≡ ok true
happens_before_trans_example =
    happens_before_trans (goal_flow "j" 3) (some_ports (0 ∷ [])) (some_ports (2 ∷ [])) refl
      complete_run first_run
