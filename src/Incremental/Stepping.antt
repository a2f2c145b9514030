-- ===== src/Incremental/Stepping.antt =====
-- A task of an incremental response that runs on loses nothing (src/grafast_py/incremental.py).
use grafast_py.Prelude.{
  ℕ, zero, suc, Bool, true, false, ◌||◌, ◌&&◌, none, some, List, [], ◌∷◌, ◌++◌, any, has, drop, map,
  ◌==◌, ◌≡◌, refl, ap, subst, sym, ◌∙◌, arith, Bool-cases, Option-cases, inl, inr,
}
use grafast_py.Incremental.Defs.{
  Arrival, Buffer, IncGraph, Records, StreamBatch, StreamItemResult, Task, await_and_enqueue,
  group_result, on_stream, stream_batch,
}
use grafast_py.Incremental.Extends.{Extends}
use grafast_py.Incremental.Flying.{
  any-append, any-map_results, ends, has_end, is_end_of, is_result_of, is_sentinel, is_streaming,
  is_underway, pumps, runs,
}
use grafast_py.Incremental.Frames.{GraphWires, wires-next_entry, wires-receive}
use grafast_py.Incremental.Publisher.{left, next_entry, pop, receive, run_task}
use grafast_py.Incremental.Pump.{add_item, done_batch, flush_before, flushed}

-- The batches of a stream with the last one among them.
any-flushed :
    (t s : ℕ) (xs : List StreamBatch) (errors : List ℕ)
    → (t == s) ≡ true
    → any (is_end_of s) (map (stream_batch t) (xs ++ done_batch errors ∷ [])) ≡ true
any-flushed t s [] errors h = ground arith
any-flushed t s (x ∷ xs) errors h = ground (arith, any-flushed t s xs errors h)

drop-next :
    {A : Type 0} (n : ℕ) (xs : List A) (x : A) (rest : List A)
    → drop n xs ≡ x ∷ rest
    → drop (suc n) xs ≡ rest
drop-next zero [] x rest e = absurd (cc)
drop-next zero (y ∷ xs) x rest e = cc
drop-next (suc n) [] x rest e = absurd (cc)
drop-next (suc n) (y ∷ xs) x rest e = drop-next n xs x rest e

pub left-pop :
    (w : Records) (s : ℕ) (graph : IncGraph) (x : Arrival) (rest : List Arrival)
    → left w s graph ≡ x ∷ rest
    → left w s (pop s graph) ≡ rest
left-pop w s graph x rest e =
    let here : (s == s) ≡ true = ground arith in
    rw here (drop-next (graph.popped s) (w.producer s) x rest e)

module _ (w : Records) (before after : List Task) where
  abbrev pub ran : List Task × IncGraph → IncGraph
  ran (kept, graph) = record graph { tasks = before ++ (kept ++ after) }

  -- What is on its way besides the task that runs on.
  abbrev others_run : ℕ → IncGraph → Bool
  others_run g graph =
      has graph.pending_runs g
      || (any (is_result_of w g) graph.completed_queue
          || (any (runs w g) before || any (runs w g) after))

  -- The same of a stream, with what the task itself does for it.
  abbrev others_stream : Bool → Bool → ℕ → IncGraph → Bool
  others_stream more own s graph =
      has graph.restarted s
      || (any (is_end_of s) graph.completed_queue
          || (any (pumps more s) before || (own || any (pumps more s) after)))

  module _ (t : ℕ) (b : Buffer) where
    receive-underway :
        (r : StreamItemResult) (graph : IncGraph) (g : ℕ)
        → others_run g graph ≡ true
        → is_underway w g (ran (receive t b r graph)) ≡ true
    unfolding receive
    receive-underway r graph g h = elim (Option-cases r.item) [
      | inl last ↦
          let batches = flushed b ++ done_batch r.errors ∷ [] in
          rw last (
            ground (
              arith,
              any-append (runs w g) before after,
              any-append (is_result_of w g) graph.completed_queue (map (stream_batch t) batches),
            ))
      | inr (item, more) ↦ rw more (
          ground
            (arith, any-append (runs w g) before (on_stream t (add_item item r b) none ∷ after)))
    ]

    receive-streaming :
        (r : StreamItemResult) (graph : IncGraph) (s : ℕ)
        → others_stream (has_end w s graph) ((t == s) && (ends r || has_end w s graph)) s graph
          ≡ true
        → is_streaming w s (ran (receive t b r graph)) ≡ true
    unfolding receive
    receive-streaming r graph s h = elim (Option-cases r.item) [
      | inl last ↦
          let batches = flushed b ++ done_batch r.errors ∷ [] in
          rw last (
            ground (
              arith,
              any-append (pumps (has_end w s graph) s) before after,
              any-append (is_end_of s) graph.completed_queue (map (stream_batch t) batches),
              any-flushed t s (flushed b) r.errors,
            ))
      | inr (item, more) ↦
          let open_end : ends r ≡ false = rw more refl in
          rw more (
            ground (
              arith,
              any-append (pumps (has_end w s graph) s) before
                  (on_stream t (add_item item r b) none ∷ after),
            ))
    ]

    -- After an entry is popped, the sentinel is still in the queue, or it was that entry.
    pop-streaming :
        (pending : Bool) (r : StreamItemResult) (rest : List Arrival) (graph : IncGraph) (s : ℕ)
        → left w t graph ≡ (pending, r) ∷ rest
        → others_stream (has_end w s graph) ((t == s) && has_end w s graph) s graph ≡ true
        → others_stream
            (has_end w s (pop t graph))
            ((t == s) && (ends r || has_end w s (pop t graph)))
            s
            (pop t graph)
          ≡ true
    pop-streaming pending r rest graph s e h = elim (Bool-cases (t == s)) [
      | inl here ↦
          let same : t ≡ s = ground arith in
          let at_s : left w s graph ≡ (pending, r) ∷ rest =
            subst (λ x. left w x graph ≡ (pending, r) ∷ rest) same e in
          let before_pop : has_end w s graph ≡ (ends r || any is_sentinel rest) =
            ap (any is_sentinel) at_s in
          let after_pop : has_end w s (pop t graph) ≡ any is_sentinel rest = rw here (
            ap (any is_sentinel)
              (drop-next (graph.popped s) (w.producer s) (pending, r) rest at_s)) in
          elim (Bool-cases (ends r)) [
            | inl last ↦ rw (here, last) (ground arith)
            | inr more ↦
                let equal : has_end w s graph ≡ has_end w s (pop t graph) =
                  before_pop ∙ rw more (sym after_pop) in
                ground (arith, rw equal at h)
          ]
      | inr there ↦ rw there (ground (arith, rw there at h))
    ]

    next_entry-underway :
        (queue : List Arrival) (graph : IncGraph) (g : ℕ)
        → others_run g graph ≡ true
        → is_underway w g (ran (next_entry t b queue graph)) ≡ true
    unfolding next_entry
    next_entry-underway [] graph g h = ground (arith, any-append (runs w g) before after)
    next_entry-underway ((true, r) ∷ queue) graph g h =
        let (kept, sent) = flush_before true b in
        ground (
          arith,
          any-append (runs w g) before (on_stream t kept (some r) ∷ after),
          any-append (is_result_of w g) graph.completed_queue (map (stream_batch t) sent),
        )
    next_entry-underway ((false, r) ∷ queue) graph g h = receive-underway r (pop t graph) g h

    next_entry-streaming :
        (queue : List Arrival) (graph : IncGraph) (s : ℕ)
        → left w t graph ≡ queue
        → others_stream (has_end w s graph) ((t == s) && has_end w s graph) s graph ≡ true
        → is_streaming w s (ran (next_entry t b queue graph)) ≡ true
    unfolding next_entry
    next_entry-streaming [] graph s e h = elim (Bool-cases (t == s)) [
      | inl here ↦
          let same : t ≡ s = ground arith in
          let drained : has_end w s graph ≡ false =
            ap (any is_sentinel) (subst (λ x. left w x graph ≡ []) same e) in
          ground (arith, any-append (pumps (has_end w s graph) s) before after)
      | inr there ↦ ground (arith, any-append (pumps (has_end w s graph) s) before after)
    ]
    next_entry-streaming ((true, r) ∷ queue) graph s e h =
        let (kept, sent) = flush_before true b in
        let next = pop-streaming true r queue graph s e h in
        ground (
          arith,
          any-append (pumps (has_end w s (pop t graph)) s) before
              (on_stream t kept (some r) ∷ after),
          any-append (is_end_of s) graph.completed_queue (map (stream_batch t) sent),
        )
    next_entry-streaming ((false, r) ∷ queue) graph s e h =
        receive-streaming r (pop t graph) s (pop-streaming false r queue graph s e h)

  pub Extends-run_task :
      (t : Task) (graph : IncGraph)
      → graph.tasks ≡ before ++ t ∷ after
      → Extends w graph (ran (run_task w t graph))
  unfolding run_task
  Extends-run_task (await_and_enqueue results) graph e = record {
    same_roots = refl;
    same_groups = refl;
    underway = λ g h. ground (
      arith,
      ap (any (runs w g)) e,
      any-append (runs w g) before (await_and_enqueue results ∷ after),
      any-append (runs w g) before after,
      any-append (is_result_of w g) graph.completed_queue (map group_result results),
      any-map_results w g results,
    );
    streaming = λ s h. ground (
      arith,
      ap (any (pumps (has_end w s graph) s)) e,
      any-append (pumps (has_end w s graph) s) before (await_and_enqueue results ∷ after),
      any-append (pumps (has_end w s graph) s) before after,
      any-append (is_end_of s) graph.completed_queue (map group_result results),
    );
  }
  Extends-run_task (on_stream t b none) graph e =
      let task = on_stream t b none in
      let same = wires-next_entry t b (left w t graph) graph in
      record {
        same_roots = ap (λ (v : GraphWires). v.0) same;
        same_groups = ap (λ (v : GraphWires). v.2) same;
        underway = λ g h.
            next_entry-underway t b (left w t graph) graph g
              (ground (arith, ap (any (runs w g)) e, any-append (runs w g) before (task ∷ after)));
        streaming = λ s h. next_entry-streaming t b (left w t graph) graph s refl (
            ground (
              arith,
              ap (any (pumps (has_end w s graph) s)) e,
              any-append (pumps (has_end w s graph) s) before (task ∷ after),
            ));
      }
  Extends-run_task (on_stream t b (some r)) graph e =
      let task = on_stream t b (some r) in
      let same = wires-receive t b r graph in
      record {
        same_roots = ap (λ (v : GraphWires). v.0) same;
        same_groups = ap (λ (v : GraphWires). v.2) same;
        underway = λ g h.
            receive-underway t b r graph g
              (ground (arith, ap (any (runs w g)) e, any-append (runs w g) before (task ∷ after)));
        streaming = λ s h. receive-streaming t b r graph s (
            ground (
              arith,
              ap (any (pumps (has_end w s graph) s)) e,
              any-append (pumps (has_end w s graph) s) before (task ∷ after),
            ));
      }
