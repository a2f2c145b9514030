-- ===== src/Incremental/Graph/Records.antt =====
-- Wiring records into the graph and starting groups (src/grafast_py/incremental.py).
use grafast_py.Prelude.{
  ℕ, Bool, Option, none, some, List, [], ◌∷◌, ◌++◌, map, any, has, ◌==◌, if◌then◌else◌,
}
use grafast_py.Incremental.Defs.{
  Revealed, exec_group, stream_rec, Records, CompletedRecord, group_result, Task, await_and_enqueue,
  IncGraph, put_key, update_at, ◌>>=◌, for_each, for_all,
}

abbrev pub enqueue : CompletedRecord → IncGraph → IncGraph
enqueue c graph = record graph { completed_queue = graph.completed_queue ++ c ∷ [] }

abbrev pub add_task : Task → IncGraph → IncGraph
add_task t graph = record graph { tasks = graph.tasks ++ t ∷ [] }

abbrev pub add_child : ℕ → ℕ → IncGraph → IncGraph
add_child p c graph = record graph { node_children = update_at p (put_key c) graph.node_children }

abbrev pub add_pending_group : ℕ → ℕ → IncGraph → IncGraph
add_pending_group r g graph = record graph {
  pending_groups = update_at r (put_key g) graph.pending_groups;
}

-- The graph and the dict `initial_children`, none for None.
abbrev pub Wiring : Type 0
Wiring = IncGraph × Option (List ℕ)

abbrev pub put_initial : ℕ → Wiring → Option Wiring
put_initial r (graph, none) = none
put_initial r (graph, some initial) = some (graph, some (put_key r initial))

-- `_add_deferred_fragment_node` of a record and the chain of its parents
unfoldable pub add_deferred_fragment_node : ℕ → List ℕ → Wiring → Option Wiring
add_deferred_fragment_node r [] (graph, initial) =
    if has graph.root_nodes r then some (graph, initial) else put_initial r (graph, initial)
add_deferred_fragment_node r (p ∷ chain) (graph, initial) =
    if has graph.root_nodes r
    then some (graph, initial)
    else add_deferred_fragment_node p chain (add_child p r graph, initial)

abbrev pub queued : List ℕ → IncGraph → IncGraph
queued results graph = record graph {
  completed_queue = graph.completed_queue ++ map group_result results;
}

module _ (w : Records) where
  open w use {
    is_defer, enclosing, producer, defer_records, eager_result, spec_key, run, is_awaitable,
    result_group, node_count,
  }

  abbrev pub completes_root_node : ℕ → IncGraph → Bool
  completes_root_node g graph = any (λ r. has graph.root_nodes r) (defer_records g)

  -- `_enqueue_run`, and the body of the loop of `_flush_runs` over the batches
  unfoldable pub enqueue_results : List ℕ → IncGraph → IncGraph
  enqueue_results results graph =
      if is_awaitable results
      then add_task (await_and_enqueue results) graph
      else queued results graph

  abbrev pub start_group : Option ℕ → ℕ → IncGraph → IncGraph
  start_group none g graph = record graph { pending_runs = graph.pending_runs ++ g ∷ [] }
  start_group (some result) g graph = enqueue_results (result ∷ []) graph

  unfoldable pub on_execution_group : ℕ → IncGraph → IncGraph
  on_execution_group g graph = start_group (eager_result g) g graph

  -- The batches of groups with one key, in the order of their first members.
  unfoldable pub add_to_batch : ℕ → List (ℕ × List ℕ) → List (ℕ × List ℕ)
  add_to_batch g [] = (spec_key g, g ∷ []) ∷ []
  add_to_batch g ((k, members) ∷ batches) =
      if k == spec_key g
      then (k, members ++ g ∷ []) ∷ batches
      else (k, members) ∷ add_to_batch g batches

  abbrev pub run_batch : ℕ × List ℕ → IncGraph → IncGraph
  run_batch (k, members) graph = enqueue_results (map run members) graph

  unfoldable pub flush_runs : IncGraph → IncGraph
  flush_runs graph =
      for_all run_batch (for_all add_to_batch graph.pending_runs [])
        (record graph { pending_runs = [] })

  abbrev pub wire_fragment : ℕ → Wiring → Option Wiring
  wire_fragment r = add_deferred_fragment_node r (enclosing r)

  abbrev pub wire_group : ℕ → ℕ → Wiring → Option Wiring
  wire_group g r x = do y ← wire_fragment r x; some (add_pending_group r g y.0, y.1)

  abbrev pub wire_stream : ℕ → ℕ → Wiring → Option Wiring
  wire_stream s p x = do y ← wire_fragment p x; some (add_child p s y.0, y.1)

  abbrev pub start_completing : ℕ → Wiring → Wiring
  start_completing g (graph, initial) =
      ((if completes_root_node g graph then on_execution_group g graph else graph), initial)

  -- The body of the loop of `_add_incremental_records`
  unfoldable pub add_record : Option (List ℕ) → Revealed → Wiring → Option Wiring
  add_record parents (exec_group g) x = do
    y ← for_each (wire_group g) (defer_records g) x
    some (start_completing g y)
  add_record none (stream_rec s) x = put_initial s x
  add_record (some parents) (stream_rec s) x = for_each (wire_stream s) parents x

  unfoldable pub add_incremental_records : List Revealed → Option (List ℕ) → Wiring → Option Wiring
  add_incremental_records records parents = for_each (add_record parents) records
