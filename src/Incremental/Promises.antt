-- ===== src/Incremental/Promises.antt =====
-- Promoted nodes wait for what is on its way (src/grafast_py/incremental.py).
use grafast_py.Prelude.{
  none, drop, ℕ, Bool, true, false, List, [], ◌∷◌, any, has, All, All-has, All-of-has, ◌==◌, ◌≡◌,
  refl, subst, sym, ap, ◌∙◌, arith, Bool-cases, inl, inr,
}
use grafast_py.Incremental.Awaited.{IsAwaited, IsAwaited-Extends}
use grafast_py.Incremental.Defs.{IncGraph, Records, empty_buffer, for_all, on_stream}
use grafast_py.Incremental.Extends.{
  Extends, Extends-refl, Extends-start_unless_running, Extends-trans,
}
use grafast_py.Incremental.Flying.{
  IsAnswered, any-append, has_end, is_sentinel, is_streaming, is_underway,
  is_underway-on_execution_group, pumps, runs,
}
use grafast_py.Incremental.Graph.{
  Promotion, start_pump, completes_root_node, discover, promote_node, set_root,
  start_unless_running,
}
use grafast_py.Incremental.Keys.{for_all-keeps, has-put_key}
use grafast_py.Incremental.Pump.{is_filled}

any-found :
    (p : ℕ → Bool) (xs : List ℕ) → any p xs ≡ true → (x : ℕ) × (has xs x ≡ true) × (p x ≡ true)
unfolding has
any-found p [] h = cc
any-found p (x ∷ xs) h = elim (Bool-cases (p x)) [
  | inl here ↦ (x, ground arith, here)
  | inr there ↦ let (y, m, q) = any-found p xs (ground arith) in (y, ground arith, q)
]

pub is_filled-found : (xs : List ℕ) → is_filled xs ≡ true → (x : ℕ) × (has xs x ≡ true)
unfolding has
is_filled-found [] h = cc
is_filled-found (x ∷ xs) h = (x, ground arith)

abbrev pub nobody : ℕ → Bool
nobody _ = false

module _ (w : Records) (ans : IsAnswered w) (hungry : ℕ → Bool) where
  abbrev pub Waits : IncGraph → Type 0
  Waits = IsAwaited w hungry nobody

  -- After a pending group of any fragment is started unless it runs, it is underway.
  start_unless_running-is_underway :
      (node g : ℕ) (graph : IncGraph)
      → has (graph.pending_groups node) g ≡ true
      → Waits graph
      → is_underway w g (start_unless_running w g graph) ≡ true
  start_unless_running-is_underway node g graph p h =
      elim (Bool-cases (completes_root_node w g graph)) [
        | inl running ↦ rw running (
            let (t, m, root) =
              any-found (λ r. has graph.root_nodes r) (w.defer_records g) running in
            h.underway t g root refl (h.shared node t g p m))
        | inr idle ↦ rw idle (ground (arith, is_underway-on_execution_group w ans g g graph))
      ]

  -- So the pending groups of a fragment are, once they have all been started.
  start_all :
      (node : ℕ) (xs : List ℕ) (graph : IncGraph)
      → All (λ g. has (graph.pending_groups node) g ≡ true) xs
      → Waits graph
      → Extends w graph (for_all (start_unless_running w) xs graph)
        × All (λ g. is_underway w g (for_all (start_unless_running w) xs graph) ≡ true) xs
  unfolding for_all
  start_all node [] graph a h = (Extends-refl w graph, tt)
  start_all node (g ∷ xs) graph (p, a) h =
      let one = Extends-start_unless_running w ans g graph in
      let next = start_unless_running w g graph in
      let (more, all) =
        start_all node xs next
          (subst (λ (groups : ℕ → List ℕ). All (λ g. has (groups node) g ≡ true) xs)
            (sym one.same_groups) a)
          (IsAwaited-Extends w hungry nobody one h) in
      (
        Extends-trans w one more,
        (more.underway g (start_unless_running-is_underway node g graph p h), all),
      )

  -- A new pump loses nothing, and the stream is on its way to its end if its queue has not been read.
  Extends-start_pump : (node : ℕ) (graph : IncGraph) → Extends w graph (start_pump node graph)
  Extends-start_pump node graph =
      let task = on_stream node empty_buffer none in
      record {
        same_roots = refl;
        same_groups = refl;
        underway = λ g h. ground (arith, any-append (runs w g) graph.tasks (task ∷ []));
        streaming = λ s h. elim (Bool-cases (graph.popped node == 0)) [
          | inl unread ↦
              rw unread
                (ground (arith, any-append (pumps (has_end w s graph) s) graph.tasks (task ∷ [])))
          | inr read ↦ rw read (
              ground (
                arith,
                any-append (pumps (has_end w s graph) s) graph.tasks (task ∷ []),
                has-put_key node graph.restarted s,
              ))
        ];
      }

  start_pump-is_streaming :
      (node : ℕ) (graph : IncGraph) → is_streaming w node (start_pump node graph) ≡ true
  start_pump-is_streaming node graph = elim (Bool-cases (graph.popped node == 0)) [
    | inl unread ↦
        let start : graph.popped node ≡ 0 = ground arith in
        let whole : has_end w node graph ≡ true =
          ap (λ n. any is_sentinel (drop n (w.producer node))) start ∙ ans.sentinel node in
        rw unread (
          ground (
            arith,
            any-append (pumps (has_end w node graph) node) graph.tasks
                (on_stream node empty_buffer none ∷ []),
          ))
    | inr read ↦ rw read (ground (arith, has-put_key node graph.restarted node))
  ]

  set_root-Waits :
      (node : ℕ) (graph : IncGraph)
      → (w.is_defer node ≡ true → (g : ℕ) × (has (graph.pending_groups node) g ≡ true))
      → ((g : ℕ) → has (graph.pending_groups node) g ≡ true → is_underway w g graph ≡ true)
      → (w.is_defer node ≡ false → is_streaming w node graph ≡ true)
      → Waits graph
      → Waits (set_root node graph)
  set_root-Waits node graph fed underway streaming h = record {
    fed = λ r m d n. elim (Bool-cases (node == r)) [
      | inl here ↦
          let same : node ≡ r = ground arith in
          subst (λ (r : ℕ). (g : ℕ) × (has (graph.pending_groups r) g ≡ true)) same
            (fed (ap w.is_defer same ∙ d))
      | inr there ↦ h.fed r (ground (arith, has-put_key node graph.root_nodes r)) d n
    ];
    underway = λ r g m n p. elim (Bool-cases (node == r)) [
      | inl here ↦
          let same : node ≡ r = ground arith in
          underway g (ap (λ (r : ℕ). has (graph.pending_groups r) g) same ∙ p)
      | inr there ↦ h.underway r g (ground (arith, has-put_key node graph.root_nodes r)) n p
    ];
    streaming = λ s m d. elim (Bool-cases (node == s)) [
      | inl here ↦
          let same : node ≡ s = ground arith in
          subst (λ (s : ℕ). is_streaming w s graph ≡ true) same (streaming (ap w.is_defer same ∙ d))
      | inr there ↦ h.streaming s (ground (arith, has-put_key node graph.root_nodes s)) d
    ];
    member = h.member;
    shared = h.shared;
  }

  pub promote_node-Waits :
      (node : ℕ) (p : Promotion) → Waits p.graph → Waits (promote_node w node p).graph
  unfolding promote_node
  promote_node-Waits node p h = elim (Bool-cases (w.is_defer node)) [
    | inl defer ↦
        rw (defer, promote_node)
          (elim (Bool-cases (is_filled (p.graph.pending_groups node))) [
            | inl pending ↦
                let (x, all) =
                  start_all node (p.graph.pending_groups node) p.graph
                    (All-of-has _ (p.graph.pending_groups node) (λ g m. m)) h in
                let started =
                  for_all (start_unless_running w) (p.graph.pending_groups node) p.graph in
                let same : (g : ℕ)
                    → has (started.pending_groups node) g ≡ has (p.graph.pending_groups node) g =
                  λ g. ap (λ (groups : ℕ → List ℕ). has (groups node) g) x.same_groups in
                rw pending (
                  set_root-Waits node started
                    (λ _.
                      let (g, m) = is_filled-found (p.graph.pending_groups node) pending in
                      (g, same g ∙ m))
                    (λ g m.
                      All-has (λ g. is_underway w g started ≡ true) (p.graph.pending_groups node) g
                        all (sym (same g) ∙ m))
                    (λ stream. absurd (ground arith)) (IsAwaited-Extends w hungry nobody x h))
            | inr idle ↦ rw idle (
                for_all-keeps (λ (q : Promotion). Waits q.graph) discover
                  (λ c q k. elim (Bool-cases (has q.maybe_empty c)) [
                    | inl seen ↦ rw seen k
                    | inr unseen ↦ rw unseen k
                  ])
                  (p.graph.node_children node) p h)
          ])
    | inr stream ↦
        rw (stream, promote_node)
          (set_root-Waits node (start_pump node p.graph) (λ defer. absurd (ground arith))
            (λ g m. absurd (ground (arith, ans.fragments g node (h.member node g m))))
            (λ _. start_pump-is_streaming node p.graph)
            (IsAwaited-Extends w hungry nobody (Extends-start_pump node p.graph) h))
  ]
