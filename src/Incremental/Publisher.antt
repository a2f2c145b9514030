-- ===== src/Incremental/Publisher.antt =====
-- `Publisher` (src/grafast_py/incremental.py): the ids, the handlers of completed records and the
-- events of a response. The lists of the payloads stand one after the other in one list each, and
-- `None` for an empty one is the empty list. A batch is drained one record at a time.
use grafast_py.Prelude.{
  map, true, false, ℕ, suc, String, not, ◌≡◌, ◌&&◌, Option, none, some, List, [], ◌∷◌, ◌++◌, drop,
  length, ltb, ◌==◌, if◌then◌else◌,
}
use grafast_py.Completion.Defs.{FieldPath, Json}
use grafast_py.Incremental.Defs.{
  Arrival, Buffer, StreamItemResult, Revealed, Records, CompletedRecord, group_result, stream_batch,
  Task, await_and_enqueue, on_stream, IncGraph, StreamBatch, new_graph, ◌>>=◌, for_all,
}
use grafast_py.Incremental.Filter.{filter_group_children, filter_nulled_records}
use grafast_py.Incremental.Pump.{add_item, done_batch, flush_before, flushed}
use grafast_py.Incremental.Graph.{
  add_completed_group, complete_deferred_fragment, get_new_root_nodes, queued,
  remove_deferred_fragment, remove_stream,
}

pub record PendingResult : Type 0 where
  pub id : ℕ
  pub path : FieldPath
  pub label : Option String

-- An id is `str(id_)` and none for None.
pub data IncrementalResult : Type 0 where
  defer_result : Option ℕ → FieldPath → ℕ → IncrementalResult
  stream_result : Option ℕ → List ℕ → List ℕ → IncrementalResult

-- `errors` of a failed group are those of its result.
pub data CompletedErrors : Type 0 where
  no_errors : CompletedErrors
  errors_of_group : ℕ → CompletedErrors
  errors_of_stream : List ℕ → CompletedErrors

pub record CompletedResult : Type 0 where
  pub id : Option ℕ
  pub errors : CompletedErrors

-- The state of a response: the graph, the publisher's counter, the ids of the nodes, and what the
-- payloads so far hold.
pub record Response : Type 0 where
  pub graph : IncGraph
  pub next_id : ℕ
  pub ids : ℕ → Option ℕ
  pub pending : List PendingResult
  pub incremental : List IncrementalResult
  pub completed : List CompletedResult

-- `Publisher(context, IncGraph(context))`
abbrev pub new_response : Response
new_response = record {
  graph = new_graph;
  next_id = 0;
  ids = λ _. none;
  pending = [];
  incremental = [];
  completed = [];
}

abbrev pub complete_with : Option ℕ → CompletedErrors → Response → Response
complete_with id errors s = record s {
  completed = s.completed ++ record { id = id; errors = errors } ∷ [];
}

abbrev pub deliver : IncrementalResult → Response → Response
deliver r s = record s { incremental = s.incremental ++ r ∷ [] }

abbrev pub set_id : ℕ → ℕ → (ℕ → Option ℕ) → ℕ → Option ℕ
set_id node id ids x = if node == x then some id else ids x

module _ (w : Records) where
  open w use {node_path, label, defer_records, result_group, result_path, failed, result_children}

  -- The body of the loop of `to_pending`, with `next_id`.
  abbrev pub announce : ℕ → Response → Response
  announce node s = record s {
    next_id = suc s.next_id;
    ids = set_id node s.next_id s.ids;
    pending =
        s.pending ++ record { id = s.next_id; path = node_path node; label = label node } ∷ [];
  }

  unfoldable pub to_pending : List ℕ → Response → Response
  to_pending = for_all announce

  -- `build_response` with the records that `run_incremental` keeps
  abbrev pub announced_in : Response → List ℕ × IncGraph → Response
  announced_in s (new_root_nodes, graph) = to_pending new_root_nodes (record s { graph = graph })

  unfoldable pub build_response : List Revealed → Option Response
  build_response records = do
    x ← get_new_root_nodes w records new_graph
    some (announced_in new_response x)

  -- The id of the fragment with the deepest path so far, and the length of that path.
  abbrev best_of : ℕ → (ℕ → Option ℕ) → ℕ → Option ℕ × ℕ → Option ℕ × ℕ
  best_of initial ids r (best, max_length) = elim (ids r) [
    | none ↦ (best, max_length)
    | some id ↦
        if not (r == initial) && ltb max_length (length (node_path r))
        then (some id, length (node_path r))
        else (best, max_length)
  ]

  unfoldable pub best_id_and_sub_path : ℕ → ℕ → (ℕ → Option ℕ) → Option ℕ × FieldPath
  best_id_and_sub_path initial result ids =
      let (best, max_length) =
        for_all (best_of initial ids) (defer_records (result_group result))
          (ids initial, length (node_path initial)) in
      (best, drop max_length (result_path result))

  abbrev pub deliver_result : ℕ → ℕ → Response → Response
  deliver_result r result s =
      let (id, sub_path) = best_id_and_sub_path r result s.ids in
      deliver (defer_result id sub_path result) s

  -- The body of the loop for a failed group.
  unfoldable pub fail_fragment : ℕ → ℕ → Response → Response
  fail_fragment result r s =
      let (removed, graph) = remove_deferred_fragment r s.graph in
      if removed
      then complete_with (s.ids r) (errors_of_group result) (record s { graph = graph })
      else s

  abbrev pub published : ℕ → Option ((List ℕ × List ℕ) × IncGraph) → Response → Response
  published r none s = s
  published r (some ((new_root_nodes, results), graph)) s =
      let s' = for_all (deliver_result r) results (announced_in s (new_root_nodes, graph)) in
      complete_with (s'.ids r) no_errors s'

  -- The body of the loop for a group that succeeded.
  unfoldable pub publish_fragment : ℕ → Response → Response
  publish_fragment r s = published r (complete_deferred_fragment w r s.graph) s

  abbrev pub publish_group : ℕ → List ℕ → Response → Option Response
  publish_group result records s = do
    graph ←
        add_completed_group w result (filter_group_children w result (result_children result))
          s.graph
    some (for_all publish_fragment records (record s { graph = graph }))

  unfoldable pub handle_execution_group : ℕ → Response → Option Response
  handle_execution_group result s =
      let records = defer_records (result_group result) in
      if failed result
      then some (for_all (fail_fragment result) records s)
      else publish_group result records s

  abbrev pub stream_errors : List ℕ → CompletedErrors
  stream_errors [] = no_errors
  stream_errors (e ∷ es) = errors_of_stream (e ∷ es)

  abbrev pub finish_stream : ℕ → StreamBatch → Response → Option Response
  finish_stream stream batch s = do
    graph ← remove_stream stream s.graph
    some (complete_with (s.ids stream) (stream_errors batch.errors) (record s { graph = graph }))

  abbrev pub reveal : List Revealed → Response → Option Response
  reveal [] s = some s
  reveal (r ∷ rs) s = do x ← get_new_root_nodes w (r ∷ rs) s.graph; some (announced_in s x)

  unfoldable pub handle_stream_batch : ℕ → StreamBatch → Response → Option Response
  handle_stream_batch stream batch s =
      if batch.done
      then finish_stream stream batch s
      else reveal batch.children (deliver (stream_result (s.ids stream) batch.items batch.errors) s)

  unfoldable pub handle_completed : CompletedRecord → Response → Option Response
  handle_completed (group_result result) s = handle_execution_group result s
  handle_completed (stream_batch stream batch) s = handle_stream_batch stream batch s

  abbrev pub with_queue : List CompletedRecord → Response → Response
  with_queue queue s = record s { graph = record (s.graph) { completed_queue = queue } }

  -- `_subscribe` takes the first record of the queue.
  unfoldable pub drain_one : Response → Option Response
  drain_one s = elim s.graph.completed_queue [
    | [] ↦ some s
    | c ∷ queue ↦ handle_completed c (with_queue queue s)
  ]

abbrev pub enqueue_batches : ℕ → List StreamBatch → IncGraph → IncGraph
enqueue_batches s batches graph = record graph {
  completed_queue = graph.completed_queue ++ map (stream_batch s) batches;
}

-- What is left of `stream.producer.queue`.
abbrev pub left : Records → ℕ → IncGraph → List Arrival
left w s graph = drop (graph.popped s) (w.producer s)

-- `queue.pop(0)`
abbrev pub pop : ℕ → IncGraph → IncGraph
pop s graph = record graph { popped = λ t. if s == t then suc (graph.popped t) else graph.popped t }

-- The end of the body of the loop of `_on_stream_items`, from the test for the sentinel on.
unfoldable pub receive : ℕ → Buffer → StreamItemResult → IncGraph → List Task × IncGraph
unfolding flushed
receive s b r graph = elim r.item [
  | none ↦ ([], enqueue_batches s (flushed b ++ done_batch r.errors ∷ []) graph)
  | some item ↦ (on_stream s (add_item item r b) none ∷ [], graph)
]

-- The body up to there, for what is left of the queue: a pending result is awaited.
unfoldable pub next_entry : ℕ → Buffer → List Arrival → IncGraph → List Task × IncGraph
unfolding receive
next_entry s b [] graph = ([], graph)
next_entry s b ((true, r) ∷ queue) graph =
    let (kept, sent) = flush_before true b in
    (on_stream s kept (some r) ∷ [], enqueue_batches s sent (pop s graph))
next_entry s b ((false, r) ∷ queue) graph = receive s b r (pop s graph)

-- A task runs on: the results of a run are enqueued, or the loop of a pump goes round once, up to its
-- await or from it. What runs without an await may be interleaved here as well.
unfoldable pub run_task : Records → Task → IncGraph → List Task × IncGraph
unfolding receive next_entry
run_task w (await_and_enqueue results) graph = ([], queued results graph)
run_task w (on_stream s b none) graph = next_entry s b (left w s graph) graph
run_task w (on_stream s b (some r)) graph = receive s b r graph

-- `run_incremental` over the records that the initial walk captured; the inner none is a plain result.
abbrev pub started_response : Records → List Revealed → Option (Option Response)
started_response w [] = some none
started_response w (r ∷ rs) = build_response w (r ∷ rs) >>= λ s. some (some s)

unfoldable pub run_incremental : Records → Json ℕ → List Revealed → Option (Option Response)
run_incremental w data_root records = started_response w (filter_nulled_records w data_root records)

-- A task between the others has run on.
abbrev pub run_one : Records → List Task → Task → List Task → Response → Response
run_one w before t after s =
    let (kept, graph) = run_task w t s.graph in
    record s { graph = record graph { tasks = before ++ (kept ++ after) } }

-- The responses that come about, whatever the order in which tasks run on and records are handled.
pub data Reached (w : Records) : Response → Type 0 where
  begun :
      {s : Response} (data_root : Json ℕ) (records : List Revealed)
      → run_incremental w data_root records ≡ some (some s)
      → Reached w s
  then_ran :
      {s : Response} (before after : List Task) (t : Task)
      → Reached w s
      → s.graph.tasks ≡ before ++ t ∷ after
      → Reached w (run_one w before t after s)
  then_drained : {s s' : Response} → Reached w s → drain_one w s ≡ some s' → Reached w s'
