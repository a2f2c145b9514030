-- ===== src/Samples/Stuck.antt =====
-- Pumps of a stream that is shared, for src/grafast_py/incremental.py: the stream of Samples/Sharing is
-- promoted a second time after it has ended, and run by a pump of its own.
use grafast_py.Prelude.{[], ◌∷◌, has, ◌≡◌, refl, arith, ◌==◌, if◌then◌else◌}
use grafast_py.Completion.Defs.{null}
use grafast_py.Incremental.Defs.{
  IncGraph, new_graph, Records, put_key, del_key, exec_group, for_all, for_each, update_at,
}
use grafast_py.Incremental.Filter.{
  deepest_path, filter_group_children, filter_nulled_records, path_nulled, record_path,
}
use grafast_py.Incremental.Graph.{
  add_completed_group, add_deferred_fragment_node, add_incremental_records, add_record,
  add_to_batch, complete_deferred_fragment, enqueue_results, flush_runs, get_new_root_nodes,
  on_execution_group, promote, promote_node, promote_non_empty_to_root, remove_deferred_fragment,
  remove_stream,
}
use grafast_py.Incremental.Publisher.{
  Response, best_id_and_sub_path, build_response, drain_one, next_entry, receive, fail_fragment,
  handle_completed, handle_execution_group, handle_stream_batch, publish_fragment, run_incremental,
  run_one, run_task, to_pending,
}
use grafast_py.Incremental.Ending.{IsBelow, IsDistinct, promote_non_empty_to_root_ends}
use grafast_py.Incremental.Pump.{flushed}
use grafast_py.Samples.Sharing.{drain_twice, or_new, pump_once, response_of, shared}

-- The fragment 1 has the group 1 as well, which ends later than the stream.
abbrev late : Records
late = record shared {
  defer_records = λ g. if g == 0 then 0 ∷ 1 ∷ [] else 1 ∷ [];
  spec_key = λ g. g;
}

-- The second of two tasks runs on.
abbrev pump_second : Response → Response
pump_second s = elim s.graph.tasks [
  | [] ↦ s
  | t ∷ after ↦ elim after [ [] ↦ s | p ∷ rest ↦ run_one late (t ∷ []) p rest s ]
]

abbrev streamed_late : Response
streamed_late =
    let begun_late = response_of (run_incremental late null (exec_group 0 ∷ exec_group 1 ∷ [])) in
    let revealed = or_new (drain_one late (pump_once late begun_late)) in
    drain_twice late (pump_second (pump_second revealed))

abbrev stuck_late : Response
stuck_late = pump_once late (or_new (drain_one late (pump_once late streamed_late)))

-- The stream is promoted again by the fragment 1: it is a root node, and nothing is left to happen.
stream_is_stuck :
    (streamed_late.graph.root_nodes ≡ 1 ∷ [])
    × (stuck_late.graph.root_nodes ≡ 2 ∷ [])
    × (stuck_late.graph.restarted ≡ 2 ∷ [])
    × (stuck_late.graph.completed_queue ≡ [])
    × (stuck_late.graph.tasks ≡ [])
unfolding run_incremental filter_nulled_records build_response get_new_root_nodes
    add_incremental_records for_each add_record add_deferred_fragment_node put_key has
    on_execution_group promote_non_empty_to_root promote promote_node for_all flush_runs
    add_to_batch enqueue_results to_pending update_at path_nulled record_path deepest_path drain_one
    handle_completed handle_execution_group add_completed_group filter_group_children
    publish_fragment complete_deferred_fragment best_id_and_sub_path del_key receive next_entry
    flushed run_task handle_stream_batch remove_stream fail_fragment remove_deferred_fragment
stream_is_stuck = (refl, refl, refl, refl, refl)

-- The fragment 1 is empty and has the stream 2 as a child.
abbrev nested_graph : IncGraph
nested_graph = record new_graph { node_children = λ r. if r == 1 then 2 ∷ [] else [] }

nested-IsBelow : IsBelow 3 nested_graph
unfolding has
nested-IsBelow r c m = ground arith

nested_promoted : (promote_non_empty_to_root shared (1 ∷ []) nested_graph).new_root_nodes ≡ 2 ∷ []
unfolding promote_non_empty_to_root promote promote_node for_all has put_key
nested_promoted = refl

one-IsDistinct : IsDistinct (1 ∷ [])
unfolding has
one-IsDistinct = (refl, tt)

promote_non_empty_to_root_ends_example :
    (promote_non_empty_to_root shared (1 ∷ []) nested_graph).unprocessed ≡ []
promote_non_empty_to_root_ends_example =
    promote_non_empty_to_root_ends shared (1 ∷ []) nested_graph one-IsDistinct (omega arith, tt)
      nested-IsBelow
