-- ===== src/Program/Statements.antt =====
-- floem/program.py: the statements of a program and their names, and the parts of
-- `GraphGenerator.interpret` that need the graph only.
use Prim.Native.String.{◌++◌ as joined}
use floem.Prelude.{
  ℕ, String, Bool, true, false, not, ◌&&◌, Option, none, some, List, [], ◌∷◌, ◌==◌, String_equality,
  if◌then◌else◌, Result, ok, ◌>>=◌, ◌>>◌, has, map,
}
use floem.Graph.{
  GraphError, exception, Init, no_init, text_init, address_of, list_init, other_init, Inits,
  last_init, next_init, Special, plain, Element, State, Before, instance_before, group_before,
  Graph, lookup,
}
use floem.Graph.Build.{check}
use floem.Graph.Connect.{set_instance}
use floem.Storage.{StorageState, PopulateState}

-- `MemoryRegion` of floem/graph_ir.py
pub record MemoryRegion : Type 0 where
  pub name : String
  pub size : ℕ
  pub init : Option String

-- The statements, and the lists of them. A thread and a function of the program are named. The types
-- of a function are as `sanitize_type` leaves them, which its constructor calls.
mutual
  pub data Item : Type 0 where
    program : Items → Item
    element : Element → Item
    state : State → Item
    element_instance : String → String → List String → Item
    state_instance : String → String → Init → Item
    connection : String → String → Option String → Option String → Item
    composite : String → Items → Item
    composite_instance : String → String → Item
    internal_trigger : String → Item
    api_function : String → List String → Option String → Option String → List String → Item
    resource_map : String → String → Item
    resource_order : Before → String → Item
    process_map : String → String → Item
    device_map : String → String → List ℕ → Item
    master_process : String → Item
    pipeline_state : String → String → Item
    start_with_core_id : String → Item
    memory_region : MemoryRegion → Item
    populate_state : PopulateState → Item
    compare_state : StorageState → Item

  pub data Items : Type 0 where
    no_items : Items
    next_item : Item → Items → Items

-- `"_".join(l)`
unfoldable pub join_names : List String → String
join_names [] = ""
join_names (a ∷ []) = a
join_names (a ∷ b ∷ l) = joined a (joined "_" (join_names (b ∷ l)))

-- `get_node_name` and `get_resource_name`
unfoldable pub get_node_name : List String → String → String
unfolding join_names
get_node_name [] name = name
get_node_name (a ∷ l) name = joined "_" (joined (join_names (a ∷ l)) (joined "_" name))

unfoldable pub get_resource_name : List String → String → String
unfolding get_node_name
get_resource_name [] name = name
get_resource_name (a ∷ l) name = if a == "impl" then name else get_node_name (a ∷ l) name

-- `GraphGenerator.adjust_init`
unfoldable mutual
  pub adjust_init : Graph → List String → Init → Init
  adjust_init g stack no_init = no_init
  adjust_init g stack (text_init t) =
      text_init (if has g.state_instances (get_node_name stack t) then get_node_name stack t else t)
  adjust_init g stack (address_of a) = address_of (adjust_init g stack a)
  adjust_init g stack (list_init l) = list_init (adjust_inits g stack l)
  adjust_init g stack (other_init n) = other_init n

  pub adjust_inits : Graph → List String → Inits → Inits
  adjust_inits g stack last_init = last_init
  adjust_inits g stack (next_init a l) = next_init (adjust_init g stack a) (adjust_inits g stack l)

-- The part of `interpret` for a resource map: an instance without a special role keeps its thread.
unfoldable pub is_plain : Special → Bool
is_plain plain = true
is_plain _ = false

unfoldable pub map_resource : Graph → String → String → Result GraphError Graph
unfolding is_plain
map_resource g inst resource = do
  i ← lookup g.instances inst
  check
      (not (
        (elim i.thread [ none ↦ false | some t ↦ not (resource == t) ])
        && is_plain i.element.special))
      exception
  ok (set_instance g inst (record i { thread = some resource }))

unfoldable pub start_core : Graph → String → Result GraphError Graph
start_core g inst = do
  i ← lookup g.instances inst
  ok (set_instance g inst (record i { core_id = true }))

unfoldable pub before_name : List String → Before → Before
unfolding get_resource_name
before_name stack (instance_before a) = instance_before (get_resource_name stack a)
before_name stack (group_before l) = group_before (map (get_resource_name stack) l)
