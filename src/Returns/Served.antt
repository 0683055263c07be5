-- ===== src/Returns/Served.antt =====
-- What `annotate_api_info` has checked of each function that returns a value.
use floem.Prelude.{ℕ, String, ◌≡◌, true, false, none, some, List, [], ◌⊎◌, ok, Dict, get, length}
use floem.Flow.{FlowCollection, full, empty}
use floem.Graph.{Node, Api, Graph}
use floem.Returns.{dfs_cover_return, is_given}
use floem.Returns.Sure.{IsSure, MayMiss}

-- The called instance covers all input ports of the return instance. Each run from it reaches the
-- return instance, or the function has a default value, or a run may miss the return instance by a
-- port that leads to an empty cover.
pub record IsServed (fuel : ℕ) (g : Graph) (orders : Dict (List String)) (api : Api) : Type 0 where
  pub target : String
  pub start : String
  pub node : Node
  pub cover : FlowCollection
  pub covers : Dict FlowCollection
  pub returned : api.return_instance ≡ some target
  pub called : api.call_instance ≡ some start
  pub there : get g.instances target ≡ some node
  pub covered :
      dfs_cover_return fuel g target (length node.element.inports) start none []
      ≡ ok (cover, covers)
  pub complete : full cover ≡ true
  pub something : empty cover ≡ false
  pub answered :
      IsSure g target start ⊎ (is_given api.default_val ≡ true) ⊎ MayMiss g orders covers start
