-- ===== src/Incremental/Pumping.antt =====
-- The only pump of a stream, run to its end (src/grafast_py/incremental.py): it enqueues the batches of
-- `on_stream_items`.
use grafast_py.Prelude.{ℕ, zero, suc, none, some, List, [], ◌∷◌, ◌++◌, map, ◌≡◌}
use grafast_py.Incremental.Defs.{
  Arrival, Buffer, CompletedRecord, IncGraph, Records, StreamBatch, StreamItemResult, Task,
  stream_batch,
}
use grafast_py.Incremental.Publisher.{next_entry, run_task}
use grafast_py.Incremental.Pump.{add_item, done_batch, flushed, pump}

-- A task that runs on until it is over, with nothing between, on fuel.
unfoldable pub run_through : ℕ → Records → List Task → IncGraph → List Task × IncGraph
unfolding run_task
run_through zero w tasks graph = (tasks, graph)
run_through (suc fuel) w [] graph = ([], graph)
run_through (suc fuel) w (t ∷ others) graph =
    let (kept, graph') = run_task w t graph in run_through fuel w kept graph'

module _ (w : Records) (s : ℕ) where
  -- It is over and has enqueued these.
  abbrev Ends : List CompletedRecord → List Task × IncGraph → Type 0
  Ends records (tasks, graph) = (tasks ≡ []) × (graph.completed_queue ≡ records)

  -- What the loop enqueues from a popped result on.
  abbrev batches_from : Buffer → StreamItemResult → List Arrival → List StreamBatch
  batches_from b r queue = elim r.item [
    | none ↦ flushed b ++ done_batch r.errors ∷ []
    | some item ↦ pump (add_item item r b) queue
  ]

  abbrev records : List StreamBatch → List CompletedRecord
  records = map (stream_batch s)

  -- A pump has gone round once, over this queue.
  abbrev went_round : ℕ → Buffer → IncGraph → List Arrival → List Task × IncGraph
  went_round fuel b graph queue =
      run_through fuel w (next_entry s b queue graph).0 (next_entry s b queue graph).1
