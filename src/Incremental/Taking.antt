-- ===== src/Incremental/Taking.antt =====
-- What taking a record from the queue does to what the root nodes wait for (src/grafast_py/incremental.py).
use grafast_py.Prelude.{
  ℕ, true, false, ◌&&◌, not, List, [], ◌∷◌, any, has, has-cons, has-nil, ◌==◌, ◌≡◌, refl, sym, ap,
  ◌∙◌, arith, Bool-cases, inl, inr,
}
use grafast_py.Incremental.Awaited.{IsAwaited}
use grafast_py.Incremental.Defs.{
  CompletedRecord, IncGraph, Records, StreamBatch, del_key, for_all, group_result, stream_batch,
}
use grafast_py.Incremental.Flying.{is_end_of, is_result_of, is_streaming, is_underway}
use grafast_py.Incremental.Graph.{record_success, remove_root_node}
use grafast_py.Incremental.Keys.{has-del_key, update_at-eq}
use grafast_py.Incremental.Promises.{nobody}

-- The pending groups of these fragments without one group, and nothing else changed.
pub record Drops (w : Records) (g : ℕ) (ds : List ℕ) (graph graph' : IncGraph) : Type 0 where
  groups :
      (r h : ℕ)
      → has (graph'.pending_groups r) h
        ≡ (has (graph.pending_groups r) h && not (has ds r && (h == g)))
  roots : graph'.root_nodes ≡ graph.root_nodes
  queue : graph'.completed_queue ≡ graph.completed_queue
  tasks : graph'.tasks ≡ graph.tasks
  pub runs : graph'.pending_runs ≡ graph.pending_runs
  popped : graph'.popped ≡ graph.popped
  restarted : graph'.restarted ≡ graph.restarted

module _ (w : Records) where
  pub record_all-Drops :
      (result : ℕ) (ds : List ℕ) (graph : IncGraph)
      → Drops w (w.result_group result) ds graph (for_all (record_success w result) ds graph)
  unfolding for_all
  record_all-Drops result [] graph = record {
    groups = λ r h. ground (arith, has-nil r);
    roots = refl;
    queue = refl;
    tasks = refl;
    runs = refl;
    popped = refl;
    restarted = refl;
  }
  record_all-Drops result (d ∷ ds) graph =
      let later = record_all-Drops result ds (record_success w result d graph) in
      record {
        groups = λ r h. ground (
          arith,
          later.groups r h,
          update_at-eq d (del_key (w.result_group result)) graph.pending_groups r,
          has-del_key (w.result_group result) (graph.pending_groups r) h,
          has-cons d ds r,
        );
        roots = later.roots;
        queue = later.queue;
        tasks = later.tasks;
        runs = later.runs;
        popped = later.popped;
        restarted = later.restarted;
      }

  -- A result that is taken from the queue was the last thing that only its own group waited for.
  pub popped-IsAwaited :
      (result : ℕ) (queue : List CompletedRecord) (graph : IncGraph)
      → graph.completed_queue ≡ group_result result ∷ queue
      → IsAwaited w nobody nobody graph
      → IsAwaited w nobody
          (λ r. has (w.defer_records (w.result_group result)) r)
          (record graph { completed_queue = queue })
  popped-IsAwaited result queue graph e h = record {
    fed = h.fed;
    underway = λ r k m n p. elim (Bool-cases (w.result_group result == k)) [
      | inl here ↦
          let same : w.result_group result ≡ k = ground arith in
          let own : has (w.defer_records (w.result_group result)) r ≡ true =
            ap (λ (g : ℕ). has (w.defer_records g) r) same ∙ h.member r k p in
          absurd (ground arith)
      | inr other ↦
          let before : is_underway w k graph ≡ true = h.underway r k m refl p in
          ground (arith, ap (any (is_result_of w k)) e)
    ];
    streaming = λ s m d. ground (arith, h.streaming s m d, ap (any (is_end_of s)) e);
    member = h.member;
    shared = h.shared;
  }

  -- So is a result that succeeded: its group is pending nowhere, and a fragment of it may be done.
  pub recorded-IsAwaited :
      (result : ℕ) (queue : List CompletedRecord) (graph graph' : IncGraph)
      → graph.completed_queue ≡ group_result result ∷ queue
      → Drops w
          (w.result_group result)
          (w.defer_records (w.result_group result))
          (record graph { completed_queue = queue })
          graph'
      → IsAwaited w nobody nobody graph
      → IsAwaited w (λ r. has (w.defer_records (w.result_group result)) r) nobody graph'
  recorded-IsAwaited result queue graph graph' e x h =
      let own = w.defer_records (w.result_group result) in
      let root : (r : ℕ) → has graph'.root_nodes r ≡ has graph.root_nodes r =
        λ r. ap (λ (roots : List ℕ). has roots r) x.roots in
      let way : (k : ℕ)
          → is_underway w k graph' ≡ is_underway w k (record graph { completed_queue = queue }) =
        λ k. rw (x.queue, x.tasks, x.runs) refl in
      let stream : (s : ℕ)
          → is_streaming w s graph' ≡ is_streaming w s (record graph { completed_queue = queue }) =
        λ s. rw (x.queue, x.tasks, x.popped, x.restarted) refl in
      let other : (r k : ℕ)
          → has (graph'.pending_groups r) k ≡ true
          → (w.result_group result == k) ≡ false =
        λ r k p. elim (Bool-cases (w.result_group result == k)) [
          | inl here ↦
              let same : w.result_group result ≡ k = ground arith in
              let old : has (graph.pending_groups r) k ≡ true = ground (arith, x.groups r k) in
              let in_own : has own r ≡ true =
                ap (λ (g : ℕ). has (w.defer_records g) r) same ∙ h.member r k old in
              absurd (ground (arith, x.groups r k))
          | inr there ↦ there
        ] in
      let old : (r k : ℕ)
          → has (graph'.pending_groups r) k ≡ true
          → has (graph.pending_groups r) k ≡ true =
        λ r k p. ground (arith, x.groups r k) in
      record {
        fed = λ r m d n.
            let (k, p) = h.fed r (sym (root r) ∙ m) d refl in (k, ground (arith, x.groups r k));
        underway = λ r k m _ p.
            let before : is_underway w k graph ≡ true =
              h.underway r k (sym (root r) ∙ m) refl (old r k p) in
            way k ∙ ground (arith, ap (any (is_result_of w k)) e, other r k p);
        streaming = λ s m d.
            stream s ∙ ground (arith, h.streaming s (sym (root s) ∙ m) d, ap (any (is_end_of s)) e);
        member = λ r k p. h.member r k (old r k p);
        shared =
            λ r t k p m. ground (arith, x.groups t k, other r k p, h.shared r t k (old r k p) m);
      }

  -- A batch that is not the last of its stream, and the last one, which takes the stream with it.
  pub batch-IsAwaited :
      (t : ℕ) (b : StreamBatch) (queue : List CompletedRecord) (graph : IncGraph)
      → graph.completed_queue ≡ stream_batch t b ∷ queue
      → b.done ≡ false
      → IsAwaited w nobody nobody graph
      → IsAwaited w nobody nobody (record graph { completed_queue = queue })
  batch-IsAwaited t b queue graph e more h = record {
    fed = h.fed;
    underway = λ r k m n p. ground (arith, h.underway r k m n p, ap (any (is_result_of w k)) e);
    streaming = λ s m d. ground (arith, h.streaming s m d, ap (any (is_end_of s)) e);
    member = h.member;
    shared = h.shared;
  }

  pub last_batch-IsAwaited :
      (t : ℕ) (b : StreamBatch) (queue : List CompletedRecord) (graph : IncGraph)
      → graph.completed_queue ≡ stream_batch t b ∷ queue
      → IsAwaited w nobody nobody graph
      → IsAwaited w nobody nobody (remove_root_node t (record graph { completed_queue = queue }))
  last_batch-IsAwaited t b queue graph e h =
      let kept : (r : ℕ)
          → has (del_key t graph.root_nodes) r ≡ true
          → (has graph.root_nodes r ≡ true) × ((r == t) ≡ false) =
        λ r m. (
          ground (arith, has-del_key t graph.root_nodes r),
          ground (arith, has-del_key t graph.root_nodes r),
        ) in
      record {
        fed = λ r m d n. h.fed r (kept r m).0 d n;
        underway = λ r k m n p.
            ground (arith, h.underway r k (kept r m).0 n p, ap (any (is_result_of w k)) e);
        streaming = λ s m d.
            let other : (t == s) ≡ false = ground (arith, (kept s m).1) in
            ground (arith, h.streaming s (kept s m).0 d, ap (any (is_end_of s)) e);
        member = h.member;
        shared = h.shared;
      }
