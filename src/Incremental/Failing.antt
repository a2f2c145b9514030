-- ===== src/Incremental/Failing.antt =====
-- A nested record that is revealed after its fragment was dropped (src/grafast_py/incremental.py).
use grafast_py.Prelude.{ℕ, false, none, List, [], ◌∷◌, has, ◌≡◌, refl, ap, ◌∙◌}
use grafast_py.Incremental.Defs.{Revealed, Records, IncGraph, for_all, for_each, stream_rec}
use grafast_py.Incremental.Filter.{filter_group_children}
use grafast_py.Incremental.Graph.{
  add_completed_group, add_deferred_fragment_node, add_incremental_records, add_record,
  record_success, wire_stream,
}
use grafast_py.Incremental.Keys.{for_all-keeps}
use grafast_py.Incremental.Publisher.{Response, handle_execution_group}

module _ (w : Records) where
  wire_stream_fails :
      (s d : ℕ) (graph : IncGraph)
      → has graph.root_nodes d ≡ false
      → w.enclosing d ≡ []
      → wire_stream w s d (graph, none) ≡ none
  unfolding add_deferred_fragment_node
  wire_stream_fails s d graph gone top = rw (top, gone) refl

  -- A group that succeeds and reveals a stream, while the first of its fragments is a top-level one
  -- that is no root node any longer, ends the response with an error: the record has no dict to be
  -- put in. A fragment is dropped so when another group of it fails first.
  pub handle_execution_group_raises :
      (result d stream : ℕ) (ds : List ℕ) (children : List Revealed) (s : Response)
      → w.failed result ≡ false
      → w.defer_records (w.result_group result) ≡ d ∷ ds
      → has s.graph.root_nodes d ≡ false
      → w.enclosing d ≡ []
      → filter_group_children w result (w.result_children result) ≡ stream_rec stream ∷ children
      → handle_execution_group w result s ≡ none
  unfolding handle_execution_group add_completed_group add_incremental_records for_each add_record
  handle_execution_group_raises result d stream ds children s ok fragments gone top revealed =
      let same : (for_all (record_success w result) (d ∷ ds) s.graph).root_nodes
          ≡ s.graph.root_nodes =
        for_all-keeps (λ (g : IncGraph). g.root_nodes ≡ s.graph.root_nodes)
          (record_success w result) (λ _ _ e. e) (d ∷ ds) s.graph refl in
      let gone' = ap (λ (roots : List ℕ). has roots d) same ∙ gone in
      rw
        (
          ok,
          fragments,
          revealed,
          wire_stream_fails stream d (for_all (record_success w result) (d ∷ ds) s.graph) gone' top,
        )
        refl
