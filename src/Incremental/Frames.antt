-- ===== src/Incremental/Frames.antt =====
-- What starting and running groups leaves alone in `IncGraph` (src/grafast_py/incremental.py): the root
-- nodes and the dicts of the fragments.
use grafast_py.Prelude.{
  ℕ, true, false, Option-cases, Option, none, some, List, [], ◌∷◌, ◌≡◌, refl, ◌∙◌, Bool-cases, inl,
  inr, map,
}
use grafast_py.Incremental.Defs.{
  Arrival, Buffer, StreamItemResult, Records, IncGraph, Task, await_and_enqueue, on_stream, for_all,
}
use grafast_py.Incremental.Graph.{
  add_to_batch, enqueue_results, flush_runs, on_execution_group, run_batch, start_group,
  start_unless_running, completes_root_node,
}
use grafast_py.Incremental.Keys.{for_all-keeps}
use grafast_py.Incremental.Publisher.{left, next_entry, pop, receive, run_task}

-- The parts that only the wiring of records changes.
abbrev pub GraphWires : Type 0
GraphWires = List ℕ × (ℕ → List ℕ) × (ℕ → List ℕ)

abbrev pub wires : IncGraph → GraphWires
wires graph = (graph.root_nodes, graph.node_children, graph.pending_groups)

module _ (w : Records) where
  pub wires-enqueue_results :
      (results : List ℕ) (graph : IncGraph) → wires (enqueue_results w results graph) ≡ wires graph
  unfolding enqueue_results
  wires-enqueue_results results graph = elim (Bool-cases (w.is_awaitable results)) [
    | inl later ↦ rw later refl
    | inr now ↦ rw now refl
  ]

  wires-start_group :
      (o : Option ℕ) (g : ℕ) (graph : IncGraph) → wires (start_group w o g graph) ≡ wires graph
  wires-start_group none g graph = refl
  wires-start_group (some result) g graph = wires-enqueue_results (result ∷ []) graph

  pub wires-on_execution_group :
      (g : ℕ) (graph : IncGraph) → wires (on_execution_group w g graph) ≡ wires graph
  unfolding on_execution_group
  wires-on_execution_group g graph = wires-start_group (w.eager_result g) g graph

  pub wires-flush_runs : (graph : IncGraph) → wires (flush_runs w graph) ≡ wires graph
  unfolding flush_runs
  wires-flush_runs graph =
      for_all-keeps (λ h. wires h ≡ wires graph) (run_batch w)
        (λ (k, members) h e. wires-enqueue_results (map w.run members) h ∙ e)
        (for_all (add_to_batch w) graph.pending_runs []) _ refl

  pub wires-start_unless_running :
      (g : ℕ) (graph : IncGraph) → wires (start_unless_running w g graph) ≡ wires graph
  wires-start_unless_running g graph = elim (Bool-cases (completes_root_node w g graph)) [
    | inl running ↦ rw running refl
    | inr idle ↦ rw idle (wires-on_execution_group g graph)
  ]

pub wires-receive :
    (s : ℕ) (b : Buffer) (r : StreamItemResult) (graph : IncGraph)
    → wires (receive s b r graph).1 ≡ wires graph
unfolding receive
wires-receive s b r graph = elim (Option-cases r.item) [
  | inl last ↦ rw last refl
  | inr (item, more) ↦ rw more refl
]

pub wires-next_entry :
    (s : ℕ) (b : Buffer) (queue : List Arrival) (graph : IncGraph)
    → wires (next_entry s b queue graph).1 ≡ wires graph
unfolding next_entry
wires-next_entry s b [] graph = refl
wires-next_entry s b ((true, r) ∷ queue) graph = refl
wires-next_entry s b ((false, r) ∷ queue) graph = wires-receive s b r (pop s graph)

pub wires-run_task :
    (w : Records) (t : Task) (graph : IncGraph) → wires (run_task w t graph).1 ≡ wires graph
unfolding run_task
wires-run_task w (await_and_enqueue results) graph = refl
wires-run_task w (on_stream s b none) graph = wires-next_entry s b (left w s graph) graph
wires-run_task w (on_stream s b (some r)) graph = wires-receive s b r graph
