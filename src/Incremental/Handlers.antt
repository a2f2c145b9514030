-- ===== src/Incremental/Handlers.antt =====
-- Every handler of `Publisher` (src/grafast_py/incremental.py) keeps the ids in step with the root nodes.
use grafast_py.Prelude.{
  ◌<◌, ℕ, Bool, true, false, ◌||◌, some, List, [], ◌∷◌, has, All, All-has, All-keep, ◌≡◌, refl,
  subst, sym, ap, ◌∙◌, arith, Bool-cases, Option-cases, inl, inr,
}
use grafast_py.Incremental.Defs.{
  Revealed, Records, IncGraph, StreamBatch, CompletedRecord, group_result, stream_batch, for_all,
}
use grafast_py.Incremental.Filter.{filter_group_children}
use grafast_py.Incremental.Graph.{
  add_completed_group, complete_deferred_fragment, get_new_root_nodes, remove_deferred_fragment,
  remove_root_node, remove_stream,
}
use grafast_py.Incremental.Keys.{bind-some, for_all-keeps, has-del_key, some-inj}
use grafast_py.Incremental.Ledger.{
  IsLedger, IsLedger-graph, IsLedger-resp, complete-IsLedger, deliver-IsLedger, to_pending-IsLedger,
}
use grafast_py.Incremental.Nesting.{Grows, IsLater, IsNumbered}
use grafast_py.Incremental.Publisher.{
  CompletedErrors, Response, announced_in, complete_with, deliver_result, fail_fragment,
  finish_stream, handle_completed, handle_execution_group, handle_stream_batch, publish_fragment,
  publish_group, published, reveal, stream_errors, to_pending,
}
use grafast_py.Incremental.Roots.{
  Adds, Completes, add_completed_group-IsNested, complete_deferred_fragment-Completes,
  get_new_root_nodes-Adds,
}

-- The open ids are those of the root nodes.
pub record IsProtocol (s : Response) : Type 0 where
  pub ledger : IsLedger (λ x. has s.graph.root_nodes x) s
  pub grows : Grows s.graph.node_children

-- A node that is completed and taken out of the graph.
remove-IsProtocol :
    (r : ℕ) (errors : CompletedErrors) (s : Response)
    → has s.graph.root_nodes r ≡ true
    → IsProtocol s
    → IsProtocol (complete_with (s.ids r) errors (record s { graph = remove_root_node r s.graph }))
remove-IsProtocol r errors s m h = record {
  ledger =
      IsLedger-resp _ _ _ (λ x. sym (has-del_key r s.graph.root_nodes x))
        (IsLedger-graph _ (complete_with (s.ids r) errors s) (remove_root_node r s.graph)
          (complete-IsLedger _ r errors s m h.ledger));
  grows = h.grows;
}

fail_fragment-IsProtocol :
    (w : Records) (result r : ℕ) (s : Response)
    → IsProtocol s
    → IsProtocol (fail_fragment w result r s)
unfolding fail_fragment remove_deferred_fragment
fail_fragment-IsProtocol w result r s h = elim (Bool-cases (has s.graph.root_nodes r)) [
  | inl root ↦ rw root (remove-IsProtocol r _ s root h)
  | inr gone ↦ rw gone h
]

pub to_pending-graph :
    (w : Records) (nodes : List ℕ) (s : Response) → (to_pending w nodes s).graph ≡ s.graph
unfolding to_pending
to_pending-graph w nodes s =
    for_all-keeps (λ (t : Response). t.graph ≡ s.graph) _ (λ _ _ e. e) nodes s refl

pub announced_in-IsProtocol :
    (w : Records) (s : Response) (nodes : List ℕ) (graph : IncGraph)
    → Adds (has s.graph.root_nodes) nodes graph
    → IsProtocol s
    → IsProtocol (announced_in w s (nodes, graph))
announced_in-IsProtocol w s nodes graph (added, grows) h = record {
  ledger =
      IsLedger-resp _ _ _
        (λ x.
          sym (added x)
          ∙ ap (λ (g : IncGraph). has g.root_nodes x)
              (sym (to_pending-graph w nodes (record s { graph = graph }))))
        (to_pending-IsLedger w nodes _ _ (IsLedger-graph _ s graph h.ledger));
  grows =
      subst (λ (g : IncGraph). Grows g.node_children)
        (sym (to_pending-graph w nodes (record s { graph = graph }))) grows;
}

later_absent : (r : ℕ) (nodes : List ℕ) → All (λ x. r < x) nodes → has nodes r ≡ false
later_absent r nodes later = elim (Bool-cases (has nodes r)) [
  | inl there ↦ absurd (omega (arith, All-has (λ x. r < x) nodes r later there))
  | inr absent ↦ absent
]

-- A ledger while the graph is already that of the next state.
abbrev IsBetween : (ℕ → Bool) → IncGraph → Response → Type 0
IsBetween root graph s = IsLedger root s × (s.graph ≡ graph)

published-IsProtocol :
    (w : Records) (r : ℕ) (s : Response) (nodes results : List ℕ) (graph : IncGraph)
    → Completes r s.graph nodes graph
    → IsProtocol s
    → IsProtocol (published w r (some ((nodes, results), graph)) s)
published-IsProtocol w r s nodes results graph (root, (added, grows), later) h =
    let announced = announced_in w s (nodes, graph) in
    let opened = λ (x : ℕ). has s.graph.root_nodes x || has nodes x in
    let (ledger, same) : IsBetween opened graph (for_all (deliver_result w r) results announced) =
      for_all-keeps (IsBetween opened graph) (deliver_result w r)
        (λ result t (l, e). (deliver-IsLedger opened _ t l, e)) results announced
        (
          to_pending-IsLedger w nodes _ _ (IsLedger-graph _ s graph h.ledger),
          to_pending-graph w nodes (record s { graph = graph }),
        ) in
    record {
      ledger =
          IsLedger-resp _ _ _
            (λ x. ground (
              arith,
              added x,
              ap (λ (g : IncGraph). has g.root_nodes x) same,
              later_absent r nodes later,
            ))
            (complete-IsLedger opened r _ _ (ground arith) ledger);
      grows = subst (λ (g : IncGraph). Grows g.node_children) (sym same) grows;
    }

module _ (w : Records) (num : IsNumbered w) where
  publish_fragment-IsProtocol :
      (r : ℕ) (s : Response) → IsProtocol s → IsProtocol (publish_fragment w r s)
  unfolding publish_fragment
  publish_fragment-IsProtocol r s h = elim (Option-cases (complete_deferred_fragment w r s.graph)) [
    | inl waiting ↦ rw waiting h
    | inr (((nodes, results), graph), e) ↦ rw e (
        published-IsProtocol w r s nodes results graph
          (complete_deferred_fragment-Completes w num r s.graph nodes results graph h.grows e) h)
  ]

  publish_group-IsProtocol :
      (result : ℕ) (s s' : Response)
      → IsProtocol s
      → publish_group w result (w.defer_records (w.result_group result)) s ≡ some s'
      → IsProtocol s'
  unfolding filter_group_children
  publish_group-IsProtocol result s s' h e =
      let records = w.defer_records (w.result_group result) in
      let children = filter_group_children w result (w.result_children result) in
      let (graph, added, rest) = bind-some (add_completed_group w result children s.graph) _ e in
      let (same, grows) =
        add_completed_group-IsNested w num result children s.graph graph
          (All-keep (IsLater records) _ (w.result_children result) (num.later result)) h.grows
          added in
      subst IsProtocol (some-inj rest) (
        for_all-keeps IsProtocol (publish_fragment w) publish_fragment-IsProtocol records _
          (record {
            ledger =
                IsLedger-resp _ _ _ (λ x. ap (λ (roots : List ℕ). has roots x) (sym same))
                  (IsLedger-graph _ s graph h.ledger);
            grows = grows;
          }))

  handle_execution_group-IsProtocol :
      (result : ℕ) (s s' : Response)
      → IsProtocol s
      → handle_execution_group w result s ≡ some s'
      → IsProtocol s'
  unfolding handle_execution_group
  handle_execution_group-IsProtocol result s s' h e = elim (Bool-cases (w.failed result)) [
    | inl failed ↦ subst IsProtocol (some-inj (rw failed at e)) (
        for_all-keeps IsProtocol (fail_fragment w result) (fail_fragment-IsProtocol w result)
          (w.defer_records (w.result_group result)) s h)
    | inr succeeded ↦ publish_group-IsProtocol result s s' h (rw succeeded at e)
  ]

  reveal-IsProtocol :
      (records : List Revealed) (s s' : Response)
      → IsProtocol s
      → reveal w records s ≡ some s'
      → IsProtocol s'
  reveal-IsProtocol [] s s' h e = subst IsProtocol (some-inj e) h
  reveal-IsProtocol (r ∷ rs) s s' h e =
      let ((nodes, graph), first, rest) = bind-some (get_new_root_nodes w (r ∷ rs) s.graph) _ e in
      subst IsProtocol (some-inj rest) (
        announced_in-IsProtocol w s nodes graph
          (get_new_root_nodes-Adds w num (r ∷ rs) s.graph nodes graph h.grows first) h)

  finish_stream-IsProtocol :
      (stream : ℕ) (batch : StreamBatch) (s s' : Response)
      → IsProtocol s
      → finish_stream w stream batch s ≡ some s'
      → IsProtocol s'
  unfolding remove_stream
  finish_stream-IsProtocol stream batch s s' h e =
      elim (Bool-cases (has s.graph.root_nodes stream)) [
        | inl root ↦
            subst IsProtocol (some-inj (rw root at e))
              (remove-IsProtocol stream (stream_errors w batch.errors) s root h)
        | inr gone ↦ absurd (ground arith)
      ]

  handle_stream_batch-IsProtocol :
      (stream : ℕ) (batch : StreamBatch) (s s' : Response)
      → IsProtocol s
      → handle_stream_batch w stream batch s ≡ some s'
      → IsProtocol s'
  unfolding handle_stream_batch
  handle_stream_batch-IsProtocol stream batch s s' h e = elim (Bool-cases batch.done) [
    | inl done ↦ finish_stream-IsProtocol stream batch s s' h (rw done at e)
    | inr more ↦
        reveal-IsProtocol batch.children _ s'
          (record { ledger = deliver-IsLedger _ _ s h.ledger; grows = h.grows }) (rw more at e)
  ]

  pub handle_completed-IsProtocol :
      (c : CompletedRecord) (s s' : Response)
      → IsProtocol s
      → handle_completed w c s ≡ some s'
      → IsProtocol s'
  unfolding handle_completed
  handle_completed-IsProtocol (group_result result) s s' h e =
      handle_execution_group-IsProtocol result s s' h e
  handle_completed-IsProtocol (stream_batch stream batch) s s' h e =
      handle_stream_batch-IsProtocol stream batch s s' h e
