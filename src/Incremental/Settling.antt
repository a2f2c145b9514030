-- ===== src/Incremental/Settling.antt =====
-- Handling a result leaves no root node that waits for nothing (src/grafast_py/incremental.py).
use grafast_py.Prelude.{
  ℕ, Bool, true, false, some, List, [], ◌∷◌, has, has-cons, has-nil, ◌==◌, ◌≡◌, subst, sym, ap, ◌∙◌,
  arith, Bool-cases, inl, inr,
}
use grafast_py.Incremental.Awaited.{IsAwaited}
use grafast_py.Incremental.Defs.{IncGraph, Records, del_key, for_all}
use grafast_py.Incremental.Flying.{IsAnswered}
use grafast_py.Incremental.Graph.{
  complete_deferred_fragment, completed_fragment, is_ready, remove_deferred_fragment,
  remove_root_node,
}
use grafast_py.Incremental.Handlers.{to_pending-graph}
use grafast_py.Incremental.Keys.{for_all-keeps, has-del_key}
use grafast_py.Incremental.Promises.{is_filled-found, nobody}
use grafast_py.Incremental.Publisher.{
  Response, announced_in, deliver_result, fail_fragment, publish_fragment, published,
}
use grafast_py.Incremental.Waiting.{IsSettled, completed_fragment-IsSettled}

-- The exceptions that name one fragment fewer.
abbrev Narrows : ℕ → (ℕ → Bool) → (ℕ → Bool) → Type 0
Narrows d before after = (r : ℕ) → (r == d) ≡ false → after r ≡ false → before r ≡ false

cons-Narrows : (d : ℕ) (ds : List ℕ) → Narrows d (λ r. has (d ∷ ds) r) (λ r. has ds r)
cons-Narrows d ds r other rest = ground (arith, has-cons d ds r)

module _ (w : Records) (d : ℕ) (hungry grounded hungry' grounded' : ℕ → Bool) where
  -- A node that is no root node needs no exception.
  absent-IsAwaited :
      (graph : IncGraph)
      → Narrows d hungry hungry'
      → Narrows d grounded grounded'
      → has graph.root_nodes d ≡ false
      → IsAwaited w hungry grounded graph
      → IsAwaited w hungry' grounded' graph
  absent-IsAwaited graph fewer_hungry fewer_grounded gone h =
      let other : (r : ℕ) → has graph.root_nodes r ≡ true → (r == d) ≡ false = λ r m.
        elim (Bool-cases (r == d)) [
          | inl here ↦
              let same : r ≡ d = ground arith in
              let back : has graph.root_nodes d ≡ true =
                ap (λ (r : ℕ). has graph.root_nodes r) (sym same) ∙ m in
              absurd (ground arith)
          | inr there ↦ there
        ] in
      record {
        fed = λ r m e n. h.fed r m e (fewer_hungry r (other r m) n);
        underway = λ r g m n p. h.underway r g m (fewer_grounded r (other r m) n) p;
        streaming = h.streaming;
        member = h.member;
        shared = h.shared;
      }

  removed-IsAwaited :
      (graph : IncGraph)
      → Narrows d hungry hungry'
      → Narrows d grounded grounded'
      → IsAwaited w hungry grounded graph
      → IsAwaited w hungry' grounded' (remove_root_node d graph)
  removed-IsAwaited graph fewer_hungry fewer_grounded h =
      let kept : (r : ℕ)
          → has (del_key d graph.root_nodes) r ≡ true
          → (has graph.root_nodes r ≡ true) × ((r == d) ≡ false) =
        λ r m. (
          ground (arith, has-del_key d graph.root_nodes r),
          ground (arith, has-del_key d graph.root_nodes r),
        ) in
      record {
        fed = λ r m e n. h.fed r (kept r m).0 e (fewer_hungry r (kept r m).1 n);
        underway = λ r g m n p. h.underway r g (kept r m).0 (fewer_grounded r (kept r m).1 n) p;
        streaming = λ s m e. h.streaming s (kept s m).0 e;
        member = h.member;
        shared = h.shared;
      }

module _ (w : Records) where
  fail_fragment-IsSettled :
      (result d : ℕ) (ds : List ℕ) (s : Response)
      → IsSettled w nobody (λ r. has (d ∷ ds) r) s.graph
      → IsSettled w nobody (λ r. has ds r) (fail_fragment w result d s).graph
  unfolding fail_fragment remove_deferred_fragment
  fail_fragment-IsSettled result d ds s h = elim (Bool-cases (has s.graph.root_nodes d)) [
    | inl root ↦ rw root (record {
      awaited =
          removed-IsAwaited w d nobody _ nobody _ s.graph (λ _ _ n. n) (cons-Narrows d ds)
            h.awaited;
      flushed = h.flushed;
    })
    | inr gone ↦ rw gone (record {
      awaited =
          absent-IsAwaited w d nobody _ nobody _ s.graph (λ _ _ n. n) (cons-Narrows d ds) gone
            h.awaited;
      flushed = h.flushed;
    })
  ]

  pub fail_all-IsSettled :
      (result : ℕ) (ds : List ℕ) (s : Response)
      → IsSettled w nobody (λ r. has ds r) s.graph
      → IsSettled w nobody nobody (for_all (fail_fragment w result) ds s).graph
  unfolding for_all
  fail_all-IsSettled result [] s h = record {
    awaited = record {
      fed = h.awaited.fed;
      underway = λ r g m n p. h.awaited.underway r g m (has-nil r) p;
      streaming = h.awaited.streaming;
      member = h.awaited.member;
      shared = h.awaited.shared;
    };
    flushed = h.flushed;
  }
  fail_all-IsSettled result (d ∷ ds) s h =
      fail_all-IsSettled result ds (fail_fragment w result d s)
        (fail_fragment-IsSettled result d ds s h)

  graph-published :
      (r : ℕ) (nodes results : List ℕ) (graph : IncGraph) (s : Response)
      → (published w r (some ((nodes, results), graph)) s).graph ≡ graph
  graph-published r nodes results graph s =
      for_all-keeps (λ (t : Response). t.graph ≡ graph) (deliver_result w r) (λ _ _ e. e) results
        (announced_in w s (nodes, graph)) (to_pending-graph w nodes (record s { graph = graph }))

module _ (w : Records) (ans : IsAnswered w) where
  not_ready-IsAwaited :
      (d : ℕ) (ds : List ℕ) (graph : IncGraph)
      → is_ready w d graph ≡ false
      → IsAwaited w (λ r. has (d ∷ ds) r) nobody graph
      → IsAwaited w (λ r. has ds r) nobody graph
  not_ready-IsAwaited d ds graph unready h = elim (Bool-cases (has graph.root_nodes d)) [
    | inr gone ↦
        absent-IsAwaited w d _ nobody _ nobody graph (cons-Narrows d ds) (λ _ _ n. n) gone h
    | inl root ↦
        let (g, p) = is_filled-found (graph.pending_groups d) (ground arith) in
        record {
          fed = λ r m e n. elim (Bool-cases (r == d)) [
            | inl here ↦
                let same : d ≡ r = ground arith in
                (g, ap (λ (r : ℕ). has (graph.pending_groups r) g) (sym same) ∙ p)
            | inr there ↦ h.fed r m e (cons-Narrows d ds r there n)
          ];
          underway = h.underway;
          streaming = h.streaming;
          member = h.member;
          shared = h.shared;
        }
  ]

  publish_fragment-IsSettled :
      (d : ℕ) (ds : List ℕ) (s : Response)
      → IsSettled w (λ r. has (d ∷ ds) r) nobody s.graph
      → IsSettled w (λ r. has ds r) nobody (publish_fragment w d s).graph
  unfolding publish_fragment complete_deferred_fragment
  publish_fragment-IsSettled d ds s h = elim (Bool-cases (is_ready w d s.graph)) [
    | inl ready ↦ rw ready (
        subst (IsSettled w (λ r. has ds r) nobody)
          (sym (
            graph-published w d (completed_fragment w d s.graph).0.0
              (completed_fragment w d s.graph).0.1 (completed_fragment w d s.graph).1 s))
          (completed_fragment-IsSettled w ans (λ r. has ds r) d s.graph
            (removed-IsAwaited w d _ nobody _ nobody s.graph (cons-Narrows d ds) (λ _ _ n. n)
              h.awaited)))
    | inr unready ↦ rw unready (record {
      awaited = not_ready-IsAwaited d ds s.graph unready h.awaited;
      flushed = h.flushed;
    })
  ]

  pub publish_all-IsSettled :
      (ds : List ℕ) (s : Response)
      → IsSettled w (λ r. has ds r) nobody s.graph
      → IsSettled w nobody nobody (for_all (publish_fragment w) ds s).graph
  unfolding for_all
  publish_all-IsSettled [] s h = record {
    awaited = record {
      fed = λ r m e n. h.awaited.fed r m e (has-nil r);
      underway = h.awaited.underway;
      streaming = h.awaited.streaming;
      member = h.awaited.member;
      shared = h.awaited.shared;
    };
    flushed = h.flushed;
  }
  publish_all-IsSettled (d ∷ ds) s h =
      publish_all-IsSettled ds (publish_fragment w d s) (publish_fragment-IsSettled d ds s h)
