-- ===== src/Samples/Sharing.antt =====
-- A response of src/grafast_py/incremental.py in which the fragments 0 and 1 share the group 0, and a
-- response in which the fragment 0 has two groups of which the first fails. Both reveal the stream 2.
use grafast_py.Prelude.{
  ℕ, true, false, Option, none, some, [], ◌∷◌, has, length, map, ltb, ◌≡◌, refl, arith, ◌==◌,
  if◌then◌else◌,
}
use grafast_py.Completion.Defs.{null}
use grafast_py.Incremental.Defs.{
  Records, StreamItemResult, put_key, await_and_enqueue, del_key, exec_group, for_all, for_each,
  stream_rec, update_at,
}
use grafast_py.Incremental.Failing.{handle_execution_group_raises}
use grafast_py.Incremental.Flying.{IsAnswered}
use grafast_py.Incremental.Liveness.{Reached-IsSettled}
use grafast_py.Incremental.Promises.{nobody}
use grafast_py.Incremental.Waiting.{IsSettled}
use grafast_py.Incremental.Filter.{
  deepest_path, filter_group_children, filter_nulled_records, path_nulled, record_path,
}
use grafast_py.Incremental.Graph.{
  add_completed_group, add_deferred_fragment_node, add_incremental_records, add_record,
  add_to_batch, complete_deferred_fragment, enqueue_results, flush_runs, get_new_root_nodes,
  on_execution_group, promote, promote_node, promote_non_empty_to_root, remove_deferred_fragment,
  remove_stream,
}
use grafast_py.Incremental.Ledger.{IsLedger}
use grafast_py.Incremental.Nesting.{IsNumbered}
use grafast_py.Incremental.Protocol.{Reached-IsLedger}
use grafast_py.Incremental.Publisher.{
  CompletedResult, PendingResult, Reached, Response, begun, best_id_and_sub_path, build_response,
  drain_one, next_entry, receive, fail_fragment, handle_completed, handle_execution_group,
  handle_stream_batch, new_response, publish_fragment, run_incremental, run_one, run_task,
  then_drained, then_ran, to_pending,
}
use grafast_py.Incremental.Pump.{flushed}

abbrev item : ℕ → StreamItemResult
item v = record { item = some v; errors = []; children = [] }

abbrev sentinel : StreamItemResult
sentinel = record { item = none; errors = []; children = [] }

abbrev pub shared : Records
shared = record {
  node_count = 3;
  is_defer = λ r. ltb r 2;
  enclosing = λ _. [];
  node_path = λ _. [];
  label = λ _. none;
  producer = λ _. (false, item 7) ∷ (false, sentinel) ∷ [];
  defer_records = λ g. if g == 0 then 0 ∷ 1 ∷ [] else [];
  eager_result = λ _. none;
  spec_key = λ _. 0;
  run = λ g. g;
  is_awaitable = λ _. true;
  result_group = λ q. q;
  result_path = λ _. [];
  result_data = λ _. null;
  failed = λ _. false;
  result_children = λ q. if q == 0 then stream_rec 2 ∷ [] else [];
}

shared-IsNumbered : IsNumbered shared
shared-IsNumbered = record { chain = λ r. tt; later = λ q. ground arith }

abbrev pub response_of : Option (Option Response) → Response
response_of (some (some s)) = s
response_of _ = new_response

abbrev pub or_new : Option Response → Response
or_new (some s) = s
or_new none = new_response

-- The group is start_group, it has run, and its result is handled.
abbrev begun_shared : Response
begun_shared = response_of (run_incremental shared null (exec_group 0 ∷ []))

abbrev ran_shared : Response
ran_shared = run_one shared [] (await_and_enqueue (0 ∷ [])) [] begun_shared

abbrev completed_shared : Response
completed_shared = or_new (drain_one shared ran_shared)

completed_shared-Reached : Reached shared completed_shared
unfolding run_incremental filter_nulled_records build_response get_new_root_nodes
    add_incremental_records for_each add_record add_deferred_fragment_node put_key has
    on_execution_group promote_non_empty_to_root promote promote_node for_all flush_runs
    add_to_batch enqueue_results to_pending update_at path_nulled record_path deepest_path drain_one
    handle_completed handle_execution_group add_completed_group filter_group_children
    publish_fragment complete_deferred_fragment best_id_and_sub_path del_key receive next_entry
    flushed run_task handle_stream_batch remove_stream fail_fragment remove_deferred_fragment
completed_shared-Reached =
    then_drained
      (then_ran [] [] (await_and_enqueue (0 ∷ [])) (begun null (exec_group 0 ∷ []) refl) refl) refl

Reached-IsLedger_example : IsLedger (λ x. has completed_shared.graph.root_nodes x) completed_shared
Reached-IsLedger_example = Reached-IsLedger shared-IsNumbered completed_shared-Reached

shared-IsAnswered : IsAnswered shared
unfolding has
shared-IsAnswered = record {
  run_group = λ g. refl;
  eager_group = λ g q e. absurd (ground arith);
  fragments = λ g r m. ground arith;
  sentinel = λ s. refl;
}

Reached-IsSettled_example : IsSettled shared nobody nobody completed_shared.graph
Reached-IsSettled_example = Reached-IsSettled shared-IsAnswered completed_shared-Reached

-- Both fragments promote the stream: it is announced as 2 and as 3, and keeps only the id 3.
stream_is_announced_twice :
    (map (λ (p : PendingResult). p.id) completed_shared.pending ≡ 0 ∷ 1 ∷ 2 ∷ 3 ∷ [])
    × (completed_shared.ids 2 ≡ some 3)
unfolding run_incremental filter_nulled_records build_response get_new_root_nodes
    add_incremental_records for_each add_record add_deferred_fragment_node put_key has
    on_execution_group promote_non_empty_to_root promote promote_node for_all flush_runs
    add_to_batch enqueue_results to_pending update_at path_nulled record_path deepest_path drain_one
    handle_completed handle_execution_group add_completed_group filter_group_children
    publish_fragment complete_deferred_fragment best_id_and_sub_path del_key receive next_entry
    flushed run_task handle_stream_batch remove_stream fail_fragment remove_deferred_fragment
stream_is_announced_twice = (refl, refl)

-- The stream has run to its end, by the first of its two pumps.
abbrev pub pump_once : Records → Response → Response
pump_once w s = elim s.graph.tasks [ [] ↦ s | t ∷ after ↦ run_one w [] t after s ]

abbrev pub drain_twice : Records → Response → Response
drain_twice w s = or_new (drain_one w (or_new (drain_one w s)))

abbrev ended_shared : Response
ended_shared = drain_twice shared (pump_once shared (pump_once shared completed_shared))

-- No root node is left, and the id 2 is not completed.
stream_is_left_open :
    (ended_shared.graph.root_nodes ≡ [])
    × (map (λ (c : CompletedResult). c.id) ended_shared.completed ≡ some 0 ∷ some 1 ∷ some 3 ∷ [])
unfolding run_incremental filter_nulled_records build_response get_new_root_nodes
    add_incremental_records for_each add_record add_deferred_fragment_node put_key has
    on_execution_group promote_non_empty_to_root promote promote_node for_all flush_runs
    add_to_batch enqueue_results to_pending update_at path_nulled record_path deepest_path drain_one
    handle_completed handle_execution_group add_completed_group filter_group_children
    publish_fragment complete_deferred_fragment best_id_and_sub_path del_key receive next_entry
    flushed run_task handle_stream_batch remove_stream fail_fragment remove_deferred_fragment
stream_is_left_open = (refl, refl)

-- The groups 0 and 1 belong to the fragment 0. The first fails, the second reveals the stream 2.
abbrev failing : Records
failing = record shared {
  defer_records = λ _. 0 ∷ [];
  spec_key = λ g. g;
  failed = λ q. q == 0;
  result_children = λ q. if q == 1 then stream_rec 2 ∷ [] else [];
}

abbrev begun_failing : Response
begun_failing = response_of (run_incremental failing null (exec_group 0 ∷ exec_group 1 ∷ []))

abbrev dropped : Response
dropped = or_new (
    drain_one failing (
      run_one failing [] (await_and_enqueue (1 ∷ [])) [] (
        run_one failing [] (await_and_enqueue (0 ∷ [])) (await_and_enqueue (1 ∷ []) ∷ [])
          begun_failing)))

dropped-Reached : Reached failing dropped
unfolding run_incremental filter_nulled_records build_response get_new_root_nodes
    add_incremental_records for_each add_record add_deferred_fragment_node put_key has
    on_execution_group promote_non_empty_to_root promote promote_node for_all flush_runs
    add_to_batch enqueue_results to_pending update_at path_nulled record_path deepest_path drain_one
    handle_completed handle_execution_group add_completed_group filter_group_children
    publish_fragment complete_deferred_fragment best_id_and_sub_path del_key receive next_entry
    flushed run_task handle_stream_batch remove_stream fail_fragment remove_deferred_fragment
dropped-Reached =
    then_drained
      (then_ran [] [] (await_and_enqueue (1 ∷ []))
        (then_ran [] (await_and_enqueue (1 ∷ []) ∷ []) (await_and_enqueue (0 ∷ []))
          (begun null (exec_group 0 ∷ exec_group 1 ∷ []) refl) refl)
        refl)
      refl

dropped_queue :
    (has dropped.graph.root_nodes 0 ≡ false) × (length dropped.graph.completed_queue ≡ 1)
unfolding run_incremental filter_nulled_records build_response get_new_root_nodes
    add_incremental_records for_each add_record add_deferred_fragment_node put_key has
    on_execution_group promote_non_empty_to_root promote promote_node for_all flush_runs
    add_to_batch enqueue_results to_pending update_at path_nulled record_path deepest_path drain_one
    handle_completed handle_execution_group add_completed_group filter_group_children
    publish_fragment complete_deferred_fragment best_id_and_sub_path del_key receive next_entry
    flushed run_task handle_stream_batch remove_stream fail_fragment remove_deferred_fragment
dropped_queue = (refl, refl)

revealed_stream : filter_group_children failing 1 (stream_rec 2 ∷ []) ≡ stream_rec 2 ∷ []
unfolding filter_group_children record_path path_nulled
revealed_stream = refl

handle_execution_group_raises_example : handle_execution_group failing 1 dropped ≡ none
handle_execution_group_raises_example =
    handle_execution_group_raises failing 1 0 2 [] [] dropped refl refl dropped_queue.0 refl
      revealed_stream
