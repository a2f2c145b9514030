-- ===== src/Incremental/Extends.antt =====
-- The operations of `IncGraph` (src/grafast_py/incremental.py) that lose nothing that is on its way.
use grafast_py.Prelude.{
  ℕ, true, Option, none, some, [], ◌∷◌, map, ◌≡◌, refl, ap, ◌∙◌, arith, Bool-cases, inl, inr,
}
use grafast_py.Incremental.Defs.{IncGraph, Records, for_all}
use grafast_py.Incremental.Flying.{
  IsAnswered, is_streaming, is_streaming-enqueue_results, is_underway, is_underway-flush_runs,
  is_underway-on_execution_group,
}
use grafast_py.Incremental.Frames.{GraphWires, wires-flush_runs, wires-on_execution_group}
use grafast_py.Incremental.Graph.{
  add_to_batch, completes_root_node, flush_runs, on_execution_group, run_batch, start_group,
  start_unless_running,
}
use grafast_py.Incremental.Keys.{for_all-keeps}

-- The same root nodes and pending groups, and what was on its way still is.
pub record Extends (w : Records) (graph graph' : IncGraph) : Type 0 where
  pub same_roots : graph'.root_nodes ≡ graph.root_nodes
  pub same_groups : graph'.pending_groups ≡ graph.pending_groups
  pub underway : (g : ℕ) → is_underway w g graph ≡ true → is_underway w g graph' ≡ true
  pub streaming : (s : ℕ) → is_streaming w s graph ≡ true → is_streaming w s graph' ≡ true

module _ (w : Records) where
  pub Extends-refl : (graph : IncGraph) → Extends w graph graph
  Extends-refl graph = record {
    same_roots = refl;
    same_groups = refl;
    underway = λ g h. h;
    streaming = λ s h. h;
  }

  pub Extends-trans : {a b c : IncGraph} → Extends w a b → Extends w b c → Extends w a c
  Extends-trans p q = record {
    same_roots = q.same_roots ∙ p.same_roots;
    same_groups = q.same_groups ∙ p.same_groups;
    underway = λ g h. q.underway g (p.underway g h);
    streaming = λ s h. q.streaming s (p.streaming s h);
  }

module _ (w : Records) (ans : IsAnswered w) where
  is_streaming-start_group :
      (s g : ℕ) (o : Option ℕ) (graph : IncGraph)
      → is_streaming w s graph ≡ true
      → is_streaming w s (start_group w o g graph) ≡ true
  is_streaming-start_group s g none graph h = h
  is_streaming-start_group s g (some q) graph h = is_streaming-enqueue_results w s (q ∷ []) graph h

  is_streaming-on_execution_group :
      (s g : ℕ) (graph : IncGraph)
      → is_streaming w s graph ≡ true
      → is_streaming w s (on_execution_group w g graph) ≡ true
  unfolding on_execution_group
  is_streaming-on_execution_group s g graph h =
      is_streaming-start_group s g (w.eager_result g) graph h

  is_streaming-flush_runs :
      (s : ℕ) (graph : IncGraph)
      → is_streaming w s graph ≡ true
      → is_streaming w s (flush_runs w graph) ≡ true
  unfolding flush_runs
  is_streaming-flush_runs s graph h =
      for_all-keeps (λ (g : IncGraph). is_streaming w s g ≡ true) (run_batch w)
        (λ (k, members) g m. is_streaming-enqueue_results w s (map w.run members) g m)
        (for_all (add_to_batch w) graph.pending_runs []) (record graph { pending_runs = [] }) h

  pub Extends-on_execution_group :
      (g : ℕ) (graph : IncGraph) → Extends w graph (on_execution_group w g graph)
  Extends-on_execution_group g graph = record {
    same_roots = ap (λ (v : GraphWires). v.0) (wires-on_execution_group w g graph);
    same_groups = ap (λ (v : GraphWires). v.2) (wires-on_execution_group w g graph);
    underway = λ h e. ground (arith, is_underway-on_execution_group w ans h g graph);
    streaming = λ s e. is_streaming-on_execution_group s g graph e;
  }

  pub Extends-flush_runs : (graph : IncGraph) → Extends w graph (flush_runs w graph)
  Extends-flush_runs graph = record {
    same_roots = ap (λ (v : GraphWires). v.0) (wires-flush_runs w graph);
    same_groups = ap (λ (v : GraphWires). v.2) (wires-flush_runs w graph);
    underway = λ h e. is_underway-flush_runs w ans h graph ∙ e;
    streaming = λ s e. is_streaming-flush_runs s graph e;
  }

  pub Extends-start_unless_running :
      (g : ℕ) (graph : IncGraph) → Extends w graph (start_unless_running w g graph)
  Extends-start_unless_running g graph = elim (Bool-cases (completes_root_node w g graph)) [
    | inl running ↦ rw running (Extends-refl w graph)
    | inr idle ↦ rw idle (Extends-on_execution_group g graph)
  ]
