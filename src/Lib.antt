-- ===== src/Lib.antt =====
-- Floem: a compiler for NIC-accelerated network applications (floem/).
--
-- A program is a graph of element instances whose ports are connected. The compiler's passes rewrite
-- and annotate that graph, and its code generator prints C for it. The model covers passes over the
-- graph, with Python's objects as values and its exceptions as results.
--
--   Prelude    lists, sets as lists, tests and results that the other modules share
--   Flow       floem/api_handling.py, `InstancePart` and `FlowCollection`
--   Topo       floem/join_handling.py, `topo_sort` and `order_function_calls`
--   Joins      floem/join_handling.py, `wrap_port`, `dfs_cover` and `annotate_for_instance` with
--              `detail`; `Joins.Derived` is the same computation without the map of answers
--   JoinInfo   floem/join_handling.py, `annotate_join_info` and `clean_minimal_join_info`
--   Graph      floem/graph_ir.py and floem/graph.py: `Port`, `Element`, `ElementNode`, `State`,
--              `StateNode` and `Graph` as records, with the children
--     Build      `merge`, `addState`, `addElement`, `newStateInstance`
--     Connect    `connect`, `disconnect`, and the methods of `ElementNode` that they call
--     Instances  `newElementInstance`, with the ends of `Queue`
--     Comments   `remove_comment`
--     Clone      `Element.clone`, `add_empty_outports`, `add_empty_inports`
--     Edit       `delete_instance`, `deleteElementInstance` and the methods that read or set one field
--     Walk       `find_subgraph`, `find_subgraph_same_thread`, `find_roots`
--     Starts     `is_start`, `check_input_ports`, `process_of_thread`, `device_of_thread`, `unused`
--     Clean      `remove_unused_elements`, `remove_unused_states`
--   Program    floem/program.py, the statements, `get_node_name`, `get_resource_name` and
--              `GraphGenerator` with `program_to_graph_pass`
--   Storage    floem/program.py, `StorageState`, `PopulateState` and `CompareState`
--   Processes  floem/process_handling.py
--   Kills      floem/pipeline_state.py, `join_collect_killset`
--   Returns    floem/api_handling.py, `wrap_port`, `dfs_cover_return`, `mark_return` and
--              `annotate_api_info`
--   Workspace  floem/workspace.py and floem/collection.py: scopes, declarations, `InstancesCollection`
--   Threads    floem/thread_allocation.py, `find_roots`, `check_resources` and `dfs_collect_return` of
--              `ThreadAllocator`; the buffers between threads are not modelled
--     Order      `insert_resource_order` with `insert_ports` and `merge_as_no_join`
--
-- Types of ports are kept as `sanitize_type` of floem/common.py leaves them; where a port is cloned, it
-- is applied again, which changes nothing. The search of a regular expression, in `remove_comment`, is a
-- function of its own for each of the two expressions.
--
-- Sets are lists in which no element matters twice, compared by inclusion both ways. Names are texts;
-- names, types and threads are not empty, as the code takes an empty text for False. A dictionary is a
-- list of pairs; Python 2 leaves its order open, and the theorems hold of each order. An instance refers
-- to others by name, as in the source, so an update of an instance is an update of the graph's
-- dictionary. API functions and triggers are compared as objects, by an object number. An exception
-- ends the compiler, so the objects that it leaves half changed are not modelled.
--
-- The recursions of the code take a bound on their depth, with a theorem that the bound is never met:
-- `FlowCollection.add` has one piece less in each nested call, each nested call of `topo_sort` visits a
-- new port, and each nested call of the walks of `Graph` and of `dfs_collect_return` has one more
-- instance in its set. `dfs_cover`, `dfs_cover_return`, `mark_return` and `join_collect_killset` do not
-- end on a cycle of connections; where the instances have a rank that falls along the connections, their
-- bound is not met if it is above the rank of the root. `interpret` does not end on composites that hold
-- each other in a circle; where composites have a rank that bounds the depth of their statements, its
-- bound is not met. `assign_process_for_state_instance` does not end on state instances initialized with
-- each other in a circle; a rank excludes that. Each call of `remove_comment` has a shorter text, and a
-- number has fewer digits than it counts. `annotate_join_info` passes its bound to `dfs_cover`; what an
-- earlier call has left in `join_partial_order` is an argument of it. What `dfs_cover` appends to
-- `join_partial_order` is kept in a list with the instance's name, and what `annotate_for_instance`
-- appends to the lists of instances is a record of names. In the same way the fields that `mark_return`
-- writes are a record for each instance's name.
--
-- Not modelled: the code generator (codegen*.py), which prints C with templates and regular expressions;
-- the classes of the user's language (dsl.py, net.py, queue.py, cache.py, state.py, library.py), whose
-- bodies are such templates; the expansion of smart queues and caches; the analysis of fields of the
-- per-packet state but for the kill sets; the rewriting of a program by desugaring.py.
mod Prelude
pub mod Flow
pub mod Topo
pub mod Graph
pub mod Storage
pub mod Program
pub mod Processes
pub mod Threads
pub mod Returns
pub mod JoinInfo
pub mod Joins
pub mod Workspace
pub mod Kills
