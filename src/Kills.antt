-- ===== src/Kills.antt =====
-- floem/pipeline_state.py, `join_collect_killset`: the fields of the per-packet state that are
-- defined between an instance and a join instance.
pub mod Defined
pub mod Exact
pub mod Ends
mod Samples
use floem.Prelude.{
  ℕ, zero, suc, String, Bool, true, false, Option, none, some, List, [], ◌∷◌, ◌==◌, Equality,
  String_equality, if◌then◌else◌, Result, ok, err, ◌>>=◌, Dict, get, put, set_union, contains,
}
use floem.Graph.{Fire, all, one, multi, zero_or_one, InPort, Node, Graph}

pub data KillError : Type 0 where
  -- `g.instances[name]` of no instance; a method that `set` does not have; a recursion without end
  key_error attribute_error out_of_fuel : KillError

abbrev pub node_of : Graph → String → Result KillError Node
node_of g n = elim (get g.instances n) [ none ↦ err key_error | some i ↦ ok i ]

-- `ret` of the two loops: what the next instance defines, and what is defined after it.
unfoldable pub next_kills :
    (String → Dict (List String) → Result KillError (List String × Dict (List String)))
    → Graph
    → String
    → Dict (List String)
    → Result KillError (List String × Dict (List String))
next_kills call g next d = do
  i ← node_of g next
  (k, e) ← call next d
  ok (set_union i.element.defs k, e)

-- The loop for an element that fires all output ports.
unfoldable pub kills_of_all :
    (String → Dict (List String) → Result KillError (List String × Dict (List String)))
    → Graph
    → List (String × InPort)
    → List String
    → Dict (List String)
    → Result KillError (List String × Dict (List String))
unfolding next_kills
kills_of_all call g [] kills d = ok (kills, d)
kills_of_all call g ((next, port) ∷ l) kills d = do
  (k, e) ← next_kills call g next d
  kills_of_all call g l (set_union kills k) e

-- The loop for an element that fires one output port, with `first`. Sets have no method `intersect`.
unfoldable pub kills_of_one :
    (String → Dict (List String) → Result KillError (List String × Dict (List String)))
    → Graph
    → List (String × InPort)
    → Bool
    → List String
    → Dict (List String)
    → Result KillError (List String × Dict (List String))
unfolding next_kills
kills_of_one call g [] first kills d = ok (kills, d)
kills_of_one call g ((next, port) ∷ l) true kills d = do
  (k, e) ← next_kills call g next d
  kills_of_one call g l false k e
kills_of_one call g ((next, port) ∷ l) false kills d = do
  (k, e) ← next_kills call g next d
  err attribute_error

unfoldable pub kills_of_fire :
    (String → Dict (List String) → Result KillError (List String × Dict (List String)))
    → Graph
    → Option Fire
    → List (String × InPort)
    → Dict (List String)
    → Result KillError (List String × Dict (List String))
unfolding kills_of_all kills_of_one
kills_of_fire call g (some all) l d = kills_of_all call g l [] d
kills_of_fire call g (some one) l d = kills_of_one call g l true [] d
kills_of_fire call g (some multi) l d = ok ([], d)
kills_of_fire call g (some zero_or_one) l d = ok ([], d)
kills_of_fire call g none l d = ok ([], d)

abbrev pub entries : Node → List (String × InPort)
entries i = outputs i.output2ele
  where
    outputs : Dict (String × InPort) → List (String × InPort)
    outputs [] = []
    outputs ((k, v) ∷ d) = v ∷ outputs d

-- `join_collect_killset`, which returns the set and changes `inst2kill`. The first number bounds the
-- depth of the calls.
unfoldable pub join_collect_killset :
    ℕ
    → Graph
    → String
    → List String
    → String
    → Dict (List String)
    → Result KillError (List String × Dict (List String))
unfolding kills_of_fire
join_collect_killset zero g target scope name d = err out_of_fuel
join_collect_killset (suc fuel) g target scope name d =
    let deeper = (do
      i ← node_of g name
      (k, e) ←
          kills_of_fire (join_collect_killset fuel g target scope) g i.element.output_fire
            (entries i) d
      ok (k, put e name k)) in
    if name == target then ok ([], d) else (elim (get d name) [
      | some k ↦ ok (k, d)
      | none ↦ if contains name scope then deeper else ok ([], d)
    ])
