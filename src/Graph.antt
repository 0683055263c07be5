-- ===== src/Graph.antt =====
-- floem/graph_ir.py and floem/graph.py: elements, their instances, and the graph of instances.
pub mod Build
pub mod Connect
pub mod Walk
pub mod Starts
pub mod Clean
pub mod Instances
pub mod Edit
pub mod Comments
pub mod Clone
pub mod Samples
use floem.Prelude.{
  ℕ, zero, suc, String, Bool, true, false, ◌&&◌, Option, none, some, List, [], ◌∷◌, ◌++◌, ◌==◌,
  Equality, String_equality, ×_equality, if◌then◌else◌, length, Result, ok, err, ◌>>=◌, Dict, get,
  list_beq,
}

-- The exceptions of the methods of `Graph`.
pub data GraphError : Type 0 where
  -- a key that a dictionary lacks, an element that a list lacks, a list as a key, None.find
  key_error value_error type_error attribute_error : GraphError
  -- a failed `assert`, or a plain `Exception`
  assertion exception : GraphError
  -- the classes of graph_ir.py
  undefined_instance undefined_port conflict_connection redefine_error : GraphError
  -- a recursion without end
  out_of_fuel : GraphError

-- `Element.output_fire`: how many of its output ports an element fires.
pub data Fire : Type 0 where
  all one zero_or_one multi : Fire

pub record Port : Type 0 where
  pub name : String
  pub argtypes : List String
  pub pipeline : Bool

-- `Element.output_code`: a call for each output port, or a list of conditions with their calls.
pub data OutputCode : Type 0 where
  by_port : Dict String → OutputCode
  by_case : List (String × String) → OutputCode

-- `Element.special`
pub data Special : Type 0 where
  plain clean to_net from_net : Special
  queue : String → Special
  hton : String → Special
  other : String → Special

pub record Element : Type 0 where
  pub name : String
  pub inports : List Port
  pub outports : List Port
  pub code : String
  pub code_cavium : Option String
  pub cleanup : String
  pub state_params : List (String × String)
  pub output_fire : Option Fire
  pub output_code : OutputCode
  pub output_code_cavium : Option OutputCode
  pub special : Special
  pub defs : List String
  pub uses : List String

-- The input ports that an output port leads to: one, or all of an instance that has several.
pub data InPort : Type 0 where
  single : String → InPort
  several : List String → InPort

-- `ElementNode`, an element instance.
pub record Node : Type 0 where
  pub name : String
  pub element : Element
  pub output2ele : Dict (String × InPort)
  pub input2ele : Dict (List (String × String))
  pub state_args : List String
  pub core_id : Bool
  pub thread : Option String
  pub join_ports_same_thread : Option (List Port)

-- The initial value of a state: none (None or False), a text, `AddressOf` a value, a list, or a value
-- of another type, by a number that tells it.
mutual
  pub data Init : Type 0 where
    no_init : Init
    text_init : String → Init
    address_of : Init → Init
    list_init : Inits → Init
    other_init : ℕ → Init

  pub data Inits : Type 0 where
    last_init : Inits
    next_init : Init → Inits → Inits

pub record State : Type 0 where
  pub name : String
  pub content : Option String
  pub init : Init
  pub processes : List String

pub record StateNode : Type 0 where
  pub name : String
  pub state : State
  pub init : Init
  pub processes : List String
  pub buffer_for : Option String

-- `InternalTrigger` and `APIFunction` of floem/program.py. The classes have no `==`: two objects are
-- the same if they are one object, which `object` tells.
pub record Trigger : Type 0 where
  pub object : ℕ
  pub name : String
  pub call_instance : Option String

pub record Api : Type 0 where
  pub object : ℕ
  pub name : String
  pub call_types : List String
  pub return_type : Option String
  pub default_val : Option String
  pub call_instance : Option String
  pub return_instance : Option String
  pub return_port : Option String

-- The first part of an entry of `threads_order`: one instance, or a list of them.
pub data Before : Type 0 where
  instance_before : String → Before
  group_before : List String → Before

-- `Graph`, without the fields that only the code generator reads.
pub record Graph : Type 0 where
  pub elements : Dict Element
  pub instances : Dict Node
  pub states : Dict State
  pub state_instances : Dict StateNode
  pub state_order : List String
  pub state_instance_order : List String
  pub threads_internal : List Trigger
  pub threads_api : List Api
  pub threads_order : List (Before × String)
  pub threads_roots : List String
  pub api_outputs : List String
  pub pipeline_states : Dict String
  pub processes : List String
  pub devices : List String
  pub thread2process : Dict String
  pub thread2device : Dict (String × List ℕ)
  pub process2device : Dict String
  pub default_process : String
  pub master_process : Option String

-- `Port.__eq__` and `Element.__eq__`
unfoldable pub port_eq : Port → Port → Bool
port_eq a b = a.name == b.name && list_beq a.argtypes b.argtypes

unfoldable pub ports_eq : List Port → List Port → Bool
ports_eq [] [] = true
ports_eq (a ∷ k) (b ∷ l) = port_eq a b && ports_eq k l
ports_eq _ _ = false

unfoldable pub element_eq : Element → Element → Bool
unfolding ports_eq port_eq
element_eq a b =
    a.name == b.name
    && (ports_eq a.inports b.inports
        && (ports_eq a.outports b.outports
            && (a.code == b.code && list_beq a.state_params b.state_params)))

-- `d[k]` where the key must be there
abbrev pub lookup : {V : Type 0} → Dict V → String → Result GraphError V
lookup d k = elim (get d k) [ none ↦ err key_error | some v ↦ ok v ]

unfoldable pub port_names : List Port → List String
port_names [] = []
port_names (p ∷ l) = p.name ∷ port_names l

unfoldable pub find_port : String → List Port → Option Port
find_port n [] = none
find_port n (p ∷ l) = if p.name == n then some p else find_port n l
