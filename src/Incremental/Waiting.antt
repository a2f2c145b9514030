-- ===== src/Incremental/Waiting.antt =====
-- The operations of `IncGraph` (src/grafast_py/incremental.py) leave no root node that waits for nothing,
-- but for the streams in `restarted`.
use grafast_py.Prelude.{
  ℕ, zero, suc, Bool, none, some, List, [], ◌∷◌, map, ◌≡◌, refl, subst, ◌∙◌, Bool-cases, inl, inr,
}
use grafast_py.Incremental.Awaited.{IsAwaited, IsAwaited-Extends}
use grafast_py.Incremental.Wiring.{add_incremental_records-Awaited}
use grafast_py.Incremental.Defs.{IncGraph, Records, Revealed, for_all}
use grafast_py.Incremental.Extends.{Extends, Extends-flush_runs, Extends-refl, Extends-trans}
use grafast_py.Incremental.Flying.{IsAnswered}
use grafast_py.Incremental.Graph.{
  Promotion, Wiring, add_children, add_incremental_records, add_to_batch, completed_fragment,
  enqueue_results, flush_runs, forget_success, get_new_root_nodes, promote,
  promote_non_empty_to_root, promoted_initially, remove_root_node, promote_node, run_batch,
}
use grafast_py.Incremental.Keys.{List-cases, bind-some, for_all-keeps, some-inj}
use grafast_py.Incremental.Promises.{nobody, promote_node-Waits}

-- `_flush_runs` leaves nothing collected.
module _ (w : Records) where
  pending_runs-enqueue_results :
      (results : List ℕ) (graph : IncGraph)
      → (enqueue_results w results graph).pending_runs ≡ graph.pending_runs
  unfolding enqueue_results
  pending_runs-enqueue_results results graph = elim (Bool-cases (w.is_awaitable results)) [
    | inl later ↦ rw later refl
    | inr now ↦ rw now refl
  ]

  pub pending_runs-flush_runs : (graph : IncGraph) → (flush_runs w graph).pending_runs ≡ []
  unfolding flush_runs
  pending_runs-flush_runs graph =
      for_all-keeps (λ (g : IncGraph). g.pending_runs ≡ []) (run_batch w)
        (λ (k, members) g e. pending_runs-enqueue_results (map w.run members) g ∙ e)
        (for_all (add_to_batch w) graph.pending_runs []) _ refl

-- Nothing is collected, and the root nodes wait for something.
pub record IsSettled (w : Records) (hungry grounded : ℕ → Bool) (graph : IncGraph) : Type 0 where
  pub awaited : IsAwaited w hungry grounded graph
  pub flushed : graph.pending_runs ≡ []

module _ (w : Records) (ans : IsAnswered w) (hungry : ℕ → Bool) where
  promote-Awaited :
      (fuel : ℕ) (p : Promotion)
      → IsAwaited w hungry nobody p.graph
      → IsAwaited w hungry nobody (promote w fuel p).graph
  unfolding promote
  promote-Awaited zero p h = h
  promote-Awaited (suc fuel) p h = elim (List-cases p.unprocessed) [
    | inl none_left ↦ rw (none_left, promote) h
    | inr (node, rest, e) ↦
        rw (e, promote)
          (promote-Awaited fuel (promote_node w node (record p { unprocessed = rest }))
            (promote_node-Waits w ans hungry node (record p { unprocessed = rest }) h))
  ]

  flush-IsSettled :
      (graph : IncGraph)
      → IsAwaited w hungry nobody graph
      → IsSettled w hungry nobody (flush_runs w graph)
  flush-IsSettled graph h = record {
    awaited = IsAwaited-Extends w hungry nobody (Extends-flush_runs w ans graph) h;
    flushed = pending_runs-flush_runs w graph;
  }

  promoted_initially-IsSettled :
      (x : Wiring) (new_root_nodes : List ℕ) (graph : IncGraph)
      → IsAwaited w hungry nobody x.0
      → promoted_initially w x ≡ some (new_root_nodes, graph)
      → IsSettled w hungry nobody graph
  unfolding promote_non_empty_to_root
  promoted_initially-IsSettled (g, none) new_root_nodes graph h e = cc
  promoted_initially-IsSettled (g, some initial) new_root_nodes graph h e =
      subst (λ (z : List ℕ × IncGraph). IsSettled w hungry nobody z.1) (some-inj e)
        (flush-IsSettled _ (promote-Awaited w.node_count _ h))

  pub get_new_root_nodes-IsSettled :
      (records : List Revealed) (g : IncGraph) (new_root_nodes : List ℕ) (graph : IncGraph)
      → IsAwaited w hungry nobody g
      → get_new_root_nodes w records g ≡ some (new_root_nodes, graph)
      → IsSettled w hungry nobody graph
  unfolding get_new_root_nodes
  get_new_root_nodes-IsSettled records g new_root_nodes graph h e =
      let (x, first, rest) = bind-some (add_incremental_records w records none (g, some [])) _ e in
      promoted_initially-IsSettled x new_root_nodes graph
        (add_incremental_records-Awaited w ans hungry nobody none records (g, some []) x h first)
        rest

  pub add_children-IsSettled :
      (records : List ℕ) (children : List Revealed) (g graph : IncGraph)
      → IsSettled w hungry nobody g
      → add_children w records children g ≡ some graph
      → IsSettled w hungry nobody graph
  add_children-IsSettled records [] g graph h e = subst (IsSettled w hungry nobody) (some-inj e) h
  add_children-IsSettled records (c ∷ children) g graph h e =
      let (x, first, rest) =
        bind-some (add_incremental_records w (c ∷ children) (some records) (g, none)) _ e in
      subst (IsSettled w hungry nobody) (some-inj rest) (
        flush-IsSettled x.0 (
          add_incremental_records-Awaited w ans hungry nobody (some records) (c ∷ children)
            (g, none) x h.awaited first))

  -- A fragment that is completed gives way to what it promotes.
  pub completed_fragment-IsSettled :
      (r : ℕ) (g : IncGraph)
      → IsAwaited w hungry nobody (remove_root_node r g)
      → IsSettled w hungry nobody (completed_fragment w r g).1
  unfolding promote_non_empty_to_root
  completed_fragment-IsSettled r g h =
      let kept : Extends w (remove_root_node r g)
          (for_all (forget_success w) (g.successful_groups r) (remove_root_node r g)) =
        for_all-keeps (Extends w (remove_root_node r g)) (forget_success w)
          (λ result graph x.
            for_all-keeps (Extends w (remove_root_node r g)) _
              (λ _ graph y. Extends-trans w y (record {
                same_roots = refl;
                same_groups = refl;
                underway = λ _ k. k;
                streaming = λ _ k. k;
              }))
              (w.defer_records (w.result_group result)) graph x)
          (g.successful_groups r) (remove_root_node r g) (Extends-refl w _) in
      let p = promote-Awaited w.node_count _ (IsAwaited-Extends w hungry nobody kept h) in
      flush-IsSettled _ (record {
        fed = p.fed;
        underway = p.underway;
        streaming = p.streaming;
        member = p.member;
        shared = p.shared;
      })
