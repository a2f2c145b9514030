-- ===== src/Incremental/Progress.antt =====
-- Every event of a response keeps its root nodes, but for the streams in `restarted`, waiting for
-- something (src/grafast_py/incremental.py).
use grafast_py.Prelude.{
  ℕ, true, false, Option-cases, none, some, List, [], ◌∷◌, has, has-nil, ◌≡◌, refl, subst, sym, ◌∙◌,
  arith, Bool-cases, inl, inr,
}
use grafast_py.Incremental.Defs.{
  Arrival, Buffer, CompletedRecord, IncGraph, Records, Revealed, StreamBatch, StreamItemResult,
  Task, await_and_enqueue, for_all, group_result, new_graph, on_stream, stream_batch,
}
use grafast_py.Incremental.Filter.{filter_group_children}
use grafast_py.Incremental.Flying.{IsAnswered}
use grafast_py.Incremental.Graph.{
  add_children, add_completed_group, get_new_root_nodes, record_success, remove_stream,
}
use grafast_py.Incremental.Handlers.{to_pending-graph}
use grafast_py.Incremental.Keys.{List-cases, bind-some, some-inj}
use grafast_py.Incremental.Promises.{nobody}
use grafast_py.Incremental.Publisher.{
  Response, announced_in, build_response, drain_one, handle_completed, handle_execution_group,
  handle_stream_batch, new_response, left, next_entry, pop, receive, reveal, run_task, with_queue,
}
use grafast_py.Incremental.Settling.{fail_all-IsSettled, publish_all-IsSettled}
use grafast_py.Incremental.Taking.{
  batch-IsAwaited, last_batch-IsAwaited, popped-IsAwaited, record_all-Drops, recorded-IsAwaited,
}
use grafast_py.Incremental.Waiting.{IsSettled, add_children-IsSettled, get_new_root_nodes-IsSettled}

pending_runs-receive :
    (s : ℕ) (b : Buffer) (r : StreamItemResult) (graph : IncGraph)
    → (receive s b r graph).1.pending_runs ≡ graph.pending_runs
unfolding receive
pending_runs-receive s b r graph = elim (Option-cases r.item) [
  | inl last ↦ rw last refl
  | inr (item, more) ↦ rw more refl
]

pending_runs-next_entry :
    (s : ℕ) (b : Buffer) (queue : List Arrival) (graph : IncGraph)
    → (next_entry s b queue graph).1.pending_runs ≡ graph.pending_runs
unfolding next_entry
pending_runs-next_entry s b [] graph = refl
pending_runs-next_entry s b ((true, r) ∷ queue) graph = refl
pending_runs-next_entry s b ((false, r) ∷ queue) graph = pending_runs-receive s b r (pop s graph)

pub pending_runs-run_task :
    (w : Records) (t : Task) (graph : IncGraph)
    → (run_task w t graph).1.pending_runs ≡ graph.pending_runs
unfolding run_task
pending_runs-run_task w (await_and_enqueue results) graph = refl
pending_runs-run_task w (on_stream s b none) graph =
    pending_runs-next_entry s b (left w s graph) graph
pending_runs-run_task w (on_stream s b (some r)) graph = pending_runs-receive s b r graph

module _ (w : Records) (ans : IsAnswered w) where
  abbrev Settled : IncGraph → Type 0
  Settled = IsSettled w nobody nobody

  handle_execution_group-IsSettled :
      (result : ℕ) (queue : List CompletedRecord) (s s' : Response)
      → s.graph.completed_queue ≡ group_result result ∷ queue
      → Settled s.graph
      → handle_execution_group w result (with_queue w queue s) ≡ some s'
      → Settled s'.graph
  unfolding handle_execution_group add_completed_group
  handle_execution_group-IsSettled result queue s s' next h e =
      let ds = w.defer_records (w.result_group result) in
      elim (Bool-cases (w.failed result)) [
        | inl failed ↦
            subst (λ (t : Response). Settled t.graph) (some-inj (rw failed at e))
              (fail_all-IsSettled w result ds (with_queue w queue s) (record {
                awaited = popped-IsAwaited w result queue s.graph next h.awaited;
                flushed = h.flushed;
              }))
        | inr succeeded ↦
            let children = filter_group_children w result (w.result_children result) in
            let marked = for_all (record_success w result) ds (with_queue w queue s).graph in
            let drops = record_all-Drops w result ds (with_queue w queue s).graph in
            let (graph, added, rest) =
              bind-some (add_children w ds children marked) _ (rw succeeded at e) in
            subst (λ (t : Response). Settled t.graph) (some-inj rest)
              (publish_all-IsSettled w ans ds _ (
                add_children-IsSettled w ans (λ r. has ds r) ds children marked graph
                  (record {
                    awaited = recorded-IsAwaited w result queue s.graph marked next drops h.awaited;
                    flushed = drops.runs ∙ h.flushed;
                  })
                  added))
      ]

  announced_in-Settled :
      (s : Response) (nodes : List ℕ) (graph : IncGraph)
      → Settled graph
      → Settled (announced_in w s (nodes, graph)).graph
  announced_in-Settled s nodes graph h =
      subst Settled (sym (to_pending-graph w nodes (record s { graph = graph }))) h

  reveal-IsSettled :
      (records : List Revealed) (s s' : Response)
      → Settled s.graph
      → reveal w records s ≡ some s'
      → Settled s'.graph
  reveal-IsSettled [] s s' h e = subst (λ (t : Response). Settled t.graph) (some-inj e) h
  reveal-IsSettled (r ∷ rs) s s' h e =
      let ((nodes, graph), first, rest) = bind-some (get_new_root_nodes w (r ∷ rs) s.graph) _ e in
      subst (λ (t : Response). Settled t.graph) (some-inj rest)
        (announced_in-Settled s nodes graph
          (get_new_root_nodes-IsSettled w ans nobody (r ∷ rs) s.graph nodes graph h.awaited first))

  handle_stream_batch-IsSettled :
      (t : ℕ) (b : StreamBatch) (queue : List CompletedRecord) (s s' : Response)
      → s.graph.completed_queue ≡ stream_batch t b ∷ queue
      → Settled s.graph
      → handle_stream_batch w t b (with_queue w queue s) ≡ some s'
      → Settled s'.graph
  unfolding handle_stream_batch remove_stream
  handle_stream_batch-IsSettled t b queue s s' next h e = elim (Bool-cases b.done) [
    | inl last ↦ elim (Bool-cases (has s.graph.root_nodes t)) [
      | inl root ↦
          subst (λ (t : Response). Settled t.graph) (some-inj (rw (last, root) at e))
            (record {
              awaited = last_batch-IsAwaited w t b queue s.graph next h.awaited;
              flushed = h.flushed;
            })
      | inr gone ↦ absurd (ground arith)
    ]
    | inr more ↦
        reveal-IsSettled b.children _ s'
          (record {
            awaited = batch-IsAwaited w t b queue s.graph next more h.awaited;
            flushed = h.flushed;
          })
          (rw more at e)
  ]

  handle_completed-IsSettled :
      (c : CompletedRecord) (queue : List CompletedRecord) (s s' : Response)
      → s.graph.completed_queue ≡ c ∷ queue
      → Settled s.graph
      → handle_completed w c (with_queue w queue s) ≡ some s'
      → Settled s'.graph
  unfolding handle_completed
  handle_completed-IsSettled (group_result result) queue s s' next h e =
      handle_execution_group-IsSettled result queue s s' next h e
  handle_completed-IsSettled (stream_batch t b) queue s s' next h e =
      handle_stream_batch-IsSettled t b queue s s' next h e

  pub drain_one-IsSettled :
      (s s' : Response) → Settled s.graph → drain_one w s ≡ some s' → Settled s'.graph
  unfolding drain_one
  drain_one-IsSettled s s' h e = elim (List-cases s.graph.completed_queue) [
    | inl idle ↦ subst (λ (t : Response). Settled t.graph) (some-inj (rw (idle, drain_one) at e)) h
    | inr (c, queue, next) ↦
        handle_completed-IsSettled c queue s s' next h (rw (next, drain_one) at e)
  ]

  pub build_response-IsSettled :
      (records : List Revealed) (s : Response) → build_response w records ≡ some s → Settled s.graph
  unfolding build_response
  build_response-IsSettled records s e =
      let ((nodes, graph), first, rest) = bind-some (get_new_root_nodes w records new_graph) _ e in
      subst (λ (t : Response). Settled t.graph) (some-inj rest)
        (announced_in-Settled new_response nodes graph (
          get_new_root_nodes-IsSettled w ans nobody records new_graph nodes graph
            (record {
              fed = λ r m d n. absurd (ground (arith, has-nil r));
              underway = λ r g m n p. absurd (ground (arith, has-nil r));
              streaming = λ s m d. absurd (ground (arith, has-nil s));
              member = λ r g p. absurd (ground (arith, has-nil g));
              shared = λ r t g p m. absurd (ground (arith, has-nil g));
            })
            first))
