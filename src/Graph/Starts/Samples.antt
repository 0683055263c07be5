-- ===== src/Graph/Starts/Samples.antt =====
-- Tests on instances: the theorem at an instance that starts its thread.
use floem.Prelude.{◌≡◌, refl, true, false, String_equality, none, ok, get, ◌↔◌, values, All}
use floem.Graph.Starts.{is_queue_clean, is_start}
use floem.Graph.Starts.Fed.{IsElsewhere, is_start-IsElsewhere}
use floem.Graph.Samples.{small, left_node, right_node}

left_run : is_start small left_node ≡ ok false
unfolding is_start values get
left_run = refl

right_run : is_start small right_node ≡ ok true
unfolding is_start values get
right_run = refl

is_start-IsElsewhere_example : (is_start small right_node ≡ ok true) ↔ (
    (is_queue_clean right_node ≡ false)
    × All (λ k. All (IsElsewhere small none) k) (values right_node.input2ele))
is_start-IsElsewhere_example = is_start-IsElsewhere small right_node
