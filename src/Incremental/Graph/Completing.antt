-- ===== src/Incremental/Graph/Completing.antt =====
-- Promoting nodes and completing fragments (src/grafast_py/incremental.py).
use grafast_py.Prelude.{
  ℕ, zero, suc, Bool, true, false, not, Option, none, some, List, [], ◌∷◌, ◌++◌, has, ◌&&◌, ◌==◌,
  if◌then◌else◌,
}
use grafast_py.Incremental.Defs.{
  Revealed, Records, on_stream, IncGraph, empty_buffer, put_key, del_key, update_at, ◌>>=◌, for_all,
}
use grafast_py.Incremental.Pump.{is_filled}
use grafast_py.Incremental.Graph.Records.{
  Wiring, add_incremental_records, add_task, completes_root_node, flush_runs, on_execution_group,
}

-- The variables of `_promote_non_empty_to_root`.
pub record Promotion : Type 0 where
  pub unprocessed : List ℕ
  pub maybe_empty : List ℕ
  pub new_root_nodes : List ℕ
  pub graph : IncGraph

-- The body of `for child in node.children`
abbrev pub discover : ℕ → Promotion → Promotion
discover child p = if has p.maybe_empty child then p else record p {
  unprocessed = p.unprocessed ++ child ∷ [];
  maybe_empty = p.maybe_empty ++ child ∷ [];
}

abbrev pub set_root : ℕ → IncGraph → IncGraph
set_root node graph = record graph { root_nodes = put_key node graph.root_nodes }

abbrev pub remove_root_node : ℕ → IncGraph → IncGraph
remove_root_node node graph = record graph { root_nodes = del_key node graph.root_nodes }

-- A new pump of the stream, which pops what other pumps have left of its queue.
abbrev pub start_pump : ℕ → IncGraph → IncGraph
start_pump stream graph = add_task (on_stream stream empty_buffer none) (record graph {
  restarted = if graph.popped stream == 0 then graph.restarted else put_key stream graph.restarted;
})

abbrev pub promoted_node : ℕ → IncGraph → Promotion → Promotion
promoted_node node graph p = record p {
  new_root_nodes = p.new_root_nodes ++ node ∷ [];
  graph = set_root node graph;
}

module _ (w : Records) where
  open w use {
    is_defer, enclosing, producer, defer_records, eager_result, spec_key, run, is_awaitable,
    result_group, node_count,
  }

  abbrev pub start_unless_running : ℕ → IncGraph → IncGraph
  start_unless_running g graph =
      if completes_root_node w g graph then graph else on_execution_group w g graph

  -- The body of the loop for a node that has been popped.
  unfoldable pub promote_node : ℕ → Promotion → Promotion
  promote_node node p = elim (is_defer node) [
    | true ↦
        if is_filled (p.graph.pending_groups node)
        then promoted_node node (for_all start_unless_running (p.graph.pending_groups node) p.graph)
            p
        else for_all discover (p.graph.node_children node) p
    | false ↦ promoted_node node (start_pump node p.graph) p
  ]

  -- The `while` loop, on fuel.
  unfoldable pub promote : ℕ → Promotion → Promotion
  promote zero p = p
  promote (suc fuel) p = elim p.unprocessed [
    | [] ↦ p
    | node ∷ rest ↦ promote fuel (promote_node node (record p { unprocessed = rest }))
  ]

  unfoldable pub promote_non_empty_to_root : List ℕ → IncGraph → Promotion
  promote_non_empty_to_root nodes graph =
      promote node_count
        (record { unprocessed = nodes; maybe_empty = nodes; new_root_nodes = []; graph = graph })

  abbrev pub promoted_initially : Wiring → Option (List ℕ × IncGraph)
  promoted_initially (graph, none) = none
  promoted_initially (graph, some initial) =
      let p = promote_non_empty_to_root initial graph in
      some (p.new_root_nodes, flush_runs w p.graph)

  unfoldable pub get_new_root_nodes : List Revealed → IncGraph → Option (List ℕ × IncGraph)
  get_new_root_nodes records graph = do
    x ← add_incremental_records w records none (graph, some [])
    promoted_initially x

  abbrev pub record_success : ℕ → ℕ → IncGraph → IncGraph
  record_success result r graph = record graph {
    pending_groups = update_at r (del_key (result_group result)) graph.pending_groups;
    successful_groups = update_at r (put_key result) graph.successful_groups;
  }

  -- `if result.children:`
  abbrev pub add_children : List ℕ → List Revealed → IncGraph → Option IncGraph
  add_children records [] graph = some graph
  add_children records (c ∷ children) graph = do
    x ← add_incremental_records w (c ∷ children) (some records) (graph, none)
    some (flush_runs w x.0)

  -- `children` is `result.children` after the filter.
  unfoldable pub add_completed_group : ℕ → List Revealed → IncGraph → Option IncGraph
  add_completed_group result children graph =
      let records = defer_records (result_group result) in
      add_children records children (for_all (record_success result) records graph)

  -- The result is dropped from the other fragments of its group.
  abbrev pub forget_success : ℕ → IncGraph → IncGraph
  forget_success result graph =
      for_all
        (λ r graph. record graph {
          successful_groups = update_at r (del_key result) graph.successful_groups;
        })
        (defer_records (result_group result)) graph

  -- The dict of children is promoted_node in place.
  abbrev pub promote_children : ℕ → IncGraph → List ℕ × IncGraph
  promote_children r graph =
      let p = promote_non_empty_to_root (graph.node_children r) graph in
      (
        p.new_root_nodes,
        flush_runs w (record p.graph {
          node_children = update_at r (λ _. p.maybe_empty) p.graph.node_children;
        }),
      )

  abbrev pub is_ready : ℕ → IncGraph → Bool
  is_ready r graph = has graph.root_nodes r && not (is_filled (graph.pending_groups r))

  abbrev pub completed_fragment : ℕ → IncGraph → (List ℕ × List ℕ) × IncGraph
  completed_fragment r graph =
      let results = graph.successful_groups r in
      let (new_root_nodes, graph') =
        promote_children r (for_all forget_success results (remove_root_node r graph)) in
      ((new_root_nodes, results), graph')

  -- The new root nodes, the results of the fragment and the graph, none if it is not ready.
  unfoldable pub complete_deferred_fragment : ℕ → IncGraph → Option ((List ℕ × List ℕ) × IncGraph)
  complete_deferred_fragment r graph =
      if is_ready r graph then some (completed_fragment r graph) else none

unfoldable pub remove_deferred_fragment : ℕ → IncGraph → Bool × IncGraph
remove_deferred_fragment r graph =
    if has graph.root_nodes r then (true, remove_root_node r graph) else (false, graph)

-- `del` of a missing key raises.
unfoldable pub remove_stream : ℕ → IncGraph → Option IncGraph
remove_stream s graph = if has graph.root_nodes s then some (remove_root_node s graph) else none

abbrev pub has_next : IncGraph → Bool
has_next graph = is_filled graph.root_nodes
