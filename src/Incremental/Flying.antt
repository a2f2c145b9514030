-- ===== src/Incremental/Flying.antt =====
-- Which groups and streams are on their way in `IncGraph` (src/grafast_py/incremental.py): collected
-- to run, being run, or with a record in the queue.
use grafast_py.Prelude.{
  ℕ, Bool, true, false, ◌&&◌, ◌||◌, Option, none, some, List, [], ◌∷◌, ◌++◌, any, has, has-append,
  has-cons, has-nil, map, ◌==◌, ◌≡◌, refl, sym, ◌∙◌, arith, Bool-cases, inl, inr,
}
use grafast_py.Incremental.Defs.{
  Arrival, CompletedRecord, IncGraph, Records, StreamItemResult, Task, await_and_enqueue, for_all,
  group_result, on_stream, stream_batch,
}
use grafast_py.Incremental.Publisher.{left}
use grafast_py.Incremental.Graph.{
  add_to_batch, enqueue_results, flush_runs, on_execution_group, run_batch, start_group,
}

pub any-append {ℓ} :
    {A : Type ℓ} (p : A → Bool) (xs ys : List A) → any p (xs ++ ys) ≡ (any p xs || any p ys)
any-append p [] ys = refl
any-append p (x ∷ xs) ys = ground (arith, any-append p xs ys)

-- A stream whose last batch is in the queue or to come from a pump.
abbrev pub is_end_of : ℕ → CompletedRecord → Bool
is_end_of s (group_result result) = false
is_end_of s (stream_batch t b) = (t == s) && b.done

abbrev pub ends : StreamItemResult → Bool
ends r = elim r.item [ none ↦ true | some _ ↦ false ]

abbrev pub is_sentinel : Arrival → Bool
is_sentinel (_, r) = ends r

-- A pump of the stream that has popped the sentinel, or will, if it is among `more`.
abbrev pub pumps : Bool → ℕ → Task → Bool
pumps more s (await_and_enqueue results) = false
pumps more s (on_stream t b none) = (t == s) && more
pumps more s (on_stream t b (some r)) = (t == s) && (ends r || more)

module _ (w : Records) where
  abbrev pub has_end : ℕ → IncGraph → Bool
  has_end s graph = any is_sentinel (left w s graph)

  -- The stream is on its way to its end, or was promoted again when its queue had been read.
  abbrev pub is_streaming : ℕ → IncGraph → Bool
  is_streaming s graph =
      has graph.restarted s
      || (any (is_end_of s) graph.completed_queue || any (pumps (has_end s graph) s) graph.tasks)

  abbrev pub is_of : ℕ → ℕ → Bool
  is_of g result = w.result_group result == g

  abbrev pub is_result_of : ℕ → CompletedRecord → Bool
  is_result_of g (group_result result) = is_of g result
  is_result_of g (stream_batch t b) = false

  abbrev pub runs : ℕ → Task → Bool
  runs g (await_and_enqueue results) = any (is_of g) results
  runs g (on_stream t b r) = false

  -- A group whose result is in the queue or to come from a run.
  abbrev pub is_underway : ℕ → IncGraph → Bool
  is_underway g graph =
      has graph.pending_runs g
      || (any (is_result_of g) graph.completed_queue || any (runs g) graph.tasks)

  pub any-map_results :
      (g : ℕ) (results : List ℕ)
      → any (is_result_of g) (map group_result results) ≡ any (is_of g) results
  any-map_results g [] = refl
  any-map_results g (q ∷ results) = ground (arith, any-map_results g results)

  -- Enqueueing results, now or later, puts their groups on their way, and leaves the others there.
  is_underway-enqueue_results :
      (g : ℕ) (results : List ℕ) (graph : IncGraph)
      → is_underway g (enqueue_results w results graph)
        ≡ (is_underway g graph || any (is_of g) results)
  unfolding enqueue_results
  is_underway-enqueue_results g results graph = elim (Bool-cases (w.is_awaitable results)) [
    | inl later ↦
        rw later (ground (arith, any-append (runs g) graph.tasks (await_and_enqueue results ∷ [])))
    | inr now ↦ rw now (
        ground (
          arith,
          any-append (is_result_of g) graph.completed_queue (map group_result results),
          any-map_results g results,
        ))
  ]

  pub is_streaming-enqueue_results :
      (s : ℕ) (results : List ℕ) (graph : IncGraph)
      → is_streaming s graph ≡ true
      → is_streaming s (enqueue_results w results graph) ≡ true
  unfolding enqueue_results
  is_streaming-enqueue_results s results graph h = elim (Bool-cases (w.is_awaitable results)) [
    | inl later ↦ rw later (
        ground (
          arith,
          any-append (pumps (has_end s graph) s) graph.tasks (await_and_enqueue results ∷ []),
        ))
    | inr now ↦
        rw now (
          ground (arith, any-append (is_end_of s) graph.completed_queue (map group_result results)))
  ]

-- What the code relies on: a group's result is its own, groups belong to fragments, and the queue of
-- a stream has a sentinel.
pub record IsAnswered (w : Records) : Type 0 where
  pub run_group : (g : ℕ) → w.result_group (w.run g) ≡ g
  pub eager_group : (g q : ℕ) → w.eager_result g ≡ some q → w.result_group q ≡ g
  pub fragments : (g r : ℕ) → has (w.defer_records g) r ≡ true → w.is_defer r ≡ true
  pub sentinel : (s : ℕ) → any is_sentinel (w.producer s) ≡ true

abbrev in_batch : ℕ → ℕ × List ℕ → Bool
in_batch h (k, members) = has members h

module _ (w : Records) (ans : IsAnswered w) where
  is_underway-start_group :
      (h g : ℕ) (o : Option ℕ) (graph : IncGraph)
      → w.eager_result g ≡ o
      → is_underway w h (start_group w o g graph) ≡ (is_underway w h graph || (g == h))
  is_underway-start_group h g none graph e =
      ground (arith, has-append graph.pending_runs (g ∷ []) h, has-cons g [] h, has-nil h)
  is_underway-start_group h g (some q) graph e =
      let same : w.result_group q ≡ g = ans.eager_group g q e in
      is_underway-enqueue_results w h (q ∷ []) graph ∙ rw same (ground arith)

  pub is_underway-on_execution_group :
      (h g : ℕ) (graph : IncGraph)
      → is_underway w h (on_execution_group w g graph) ≡ (is_underway w h graph || (g == h))
  unfolding on_execution_group
  is_underway-on_execution_group h g graph =
      is_underway-start_group h g (w.eager_result g) graph refl

  any-map_run : (h : ℕ) (members : List ℕ) → any (is_of w h) (map w.run members) ≡ has members h
  any-map_run h [] = sym (has-nil h)
  any-map_run h (g ∷ members) =
      rw (ans.run_group g) (ground (arith, any-map_run h members, has-cons g members h))

  is_underway-run_batches :
      (h : ℕ) (batches : List (ℕ × List ℕ)) (graph : IncGraph)
      → is_underway w h (for_all (run_batch w) batches graph)
        ≡ (is_underway w h graph || any (in_batch h) batches)
  unfolding for_all
  is_underway-run_batches h [] graph = ground arith
  is_underway-run_batches h ((k, members) ∷ batches) graph = ground (
    arith,
    is_underway-run_batches h batches (run_batch w (k, members) graph),
    is_underway-enqueue_results w h (map w.run members) graph,
    any-map_run h members,
  )

  any-add_to_batch :
      (h g : ℕ) (batches : List (ℕ × List ℕ))
      → any (in_batch h) (add_to_batch w g batches) ≡ (any (in_batch h) batches || (g == h))
  unfolding add_to_batch
  any-add_to_batch h g [] = ground (arith, has-cons g [] h, has-nil h)
  any-add_to_batch h g ((k, members) ∷ batches) = ground (
    arith,
    any-add_to_batch h g batches,
    has-append members (g ∷ []) h,
    has-cons g [] h,
    has-nil h,
  )

  any-add_all :
      (h : ℕ) (groups : List ℕ) (batches : List (ℕ × List ℕ))
      → any (in_batch h) (for_all (add_to_batch w) groups batches)
        ≡ (any (in_batch h) batches || has groups h)
  unfolding for_all
  any-add_all h [] batches = ground (arith, has-nil h)
  any-add_all h (g ∷ groups) batches = ground (
    arith,
    any-add_all h groups (add_to_batch w g batches),
    any-add_to_batch h g batches,
    has-cons g groups h,
  )

  pub is_underway-flush_runs :
      (h : ℕ) (graph : IncGraph) → is_underway w h (flush_runs w graph) ≡ is_underway w h graph
  unfolding flush_runs
  is_underway-flush_runs h graph = ground (
    arith,
    is_underway-run_batches h (for_all (add_to_batch w) graph.pending_runs [])
        (record graph { pending_runs = [] }),
    any-add_all h graph.pending_runs [],
    has-nil h,
  )
