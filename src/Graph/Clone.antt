-- ===== src/Graph/Clone.antt =====
-- floem/graph_ir.py: `Element.clone`, and the ports without values that are added to an element.
use Prim.Native.String.{[] as no_letter, ◌∷◌ as letter, ◌++◌ as joined}
use floem.Prelude.{
  String, Bool, true, false, Option, none, some, List, [], ◌∷◌, ◌++◌, Result, ok, err, ◌>>=◌, ◌>>◌,
  Dict, put, map,
}
use floem.Graph.{
  GraphError, assertion, type_error, all, OutputCode, by_port, by_case, Port, Element,
}
use floem.Graph.Build.{check}
use floem.Graph.Comments.{remove_comment}

-- The code that `Element.__init__` keeps.
unfoldable pub kept_code : String → String
unfolding remove_comment
kept_code code = joined "  " (remove_comment code)

-- A `code_cavium` that is None or empty stays as it is.
unfoldable pub kept_cavium : Option String → Option String
unfolding kept_code
kept_cavium none = none
kept_cavium (some no_letter) = some ""
kept_cavium (some (letter c s)) = some (kept_code (letter c s))

-- `Element.clone`
unfoldable pub clone_element : Element → String → Element
unfolding kept_code kept_cavium
clone_element e name = record e {
  name = name;
  code = kept_code e.code;
  code_cavium = kept_cavium e.code_cavium;
  defs = [];
  uses = [];
}

abbrev pub empty_port : String → Port
empty_port n = record { name = n; argtypes = []; pipeline = false }

-- `output_code[name] = name + "()"` for each name. A list of conditions has no such key.
unfoldable pub add_calls : Dict String → List String → Dict String
add_calls code [] = code
add_calls code (n ∷ l) = add_calls (put code n (joined n "()")) l

unfoldable pub add_output_code : OutputCode → List String → Result GraphError OutputCode
unfolding add_calls
add_output_code code [] = ok code
add_output_code (by_port d) (n ∷ l) = ok (by_port (add_calls d (n ∷ l)))
add_output_code (by_case c) (n ∷ l) = err type_error

-- Code that is None or empty gets no calls.
unfoldable pub add_output_code_cavium :
    Option OutputCode → List String → Result GraphError (Option OutputCode)
unfolding add_output_code
add_output_code_cavium none l = ok none
add_output_code_cavium (some (by_port [])) l = ok (some (by_port []))
add_output_code_cavium (some (by_case [])) l = ok (some (by_case []))
add_output_code_cavium (some code) l = do c ← add_output_code code l; ok (some c)

unfoldable pub fires_all : Element → Bool
fires_all e = elim e.output_fire [ none ↦ false | some all ↦ true | some _ ↦ false ]

-- `Element.add_empty_outports`
unfoldable pub add_empty_outports : Element → List String → Result GraphError Element
unfolding add_output_code add_output_code_cavium fires_all
add_empty_outports e names = do
  check (fires_all e) assertion
  code ← add_output_code e.output_code names
  cavium ← add_output_code_cavium e.output_code_cavium names
  ok (record e {
    outports = e.outports ++ map empty_port names;
    output_code = code;
    output_code_cavium = cavium;
  })

-- `Element.add_empty_inports`
unfoldable pub add_empty_inports : Element → List String → Element
add_empty_inports e names = record e { inports = e.inports ++ map empty_port names }
