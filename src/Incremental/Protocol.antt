-- ===== src/Incremental/Protocol.antt =====
-- The ids over a whole response (src/grafast_py/incremental.py), whatever the schedule.
use grafast_py.Prelude.{
  some, List, [], ◌∷◌, has, has-nil, ◌≡◌, refl, subst, sym, ap, ◌∙◌, arith, inl, inr,
}
use grafast_py.Incremental.Defs.{Revealed, Records, new_graph}
use grafast_py.Incremental.Frames.{GraphWires, wires-run_task}
use grafast_py.Incremental.Graph.{get_new_root_nodes}
use grafast_py.Incremental.Handlers.{
  IsProtocol, announced_in-IsProtocol, handle_completed-IsProtocol,
}
use grafast_py.Incremental.Keys.{List-cases, bind-some, some-inj}
use grafast_py.Incremental.Ledger.{IsLedger, IsLedger-graph, IsLedger-resp, times, upto}
use grafast_py.Incremental.Nesting.{Grows, IsNumbered}
use grafast_py.Incremental.Publisher.{
  Reached, Response, begun, build_response, drain_one, new_response, run_incremental,
  started_response, then_drained, then_ran, with_queue,
}
use grafast_py.Incremental.Roots.{get_new_root_nodes-Adds}

nothing-Grows : Grows (λ _. [])
nothing-Grows p c m = absurd (ground (arith, has-nil c))

module _ (w : Records) (num : IsNumbered w) where
  drain_one-IsProtocol : (s s' : Response) → IsProtocol s → drain_one w s ≡ some s' → IsProtocol s'
  unfolding drain_one
  drain_one-IsProtocol s s' h e = elim (List-cases s.graph.completed_queue) [
    | inl idle ↦ subst IsProtocol (some-inj (rw (idle, drain_one) at e)) h
    | inr (c, queue, next) ↦
        handle_completed-IsProtocol w num c (with_queue w queue s) s'
          (record { ledger = IsLedger-graph _ s _ h.ledger; grows = h.grows })
          (rw (next, drain_one) at e)
  ]

  build_response-IsProtocol :
      (records : List Revealed) (s : Response) → build_response w records ≡ some s → IsProtocol s
  unfolding build_response upto times
  build_response-IsProtocol records s e =
      let ((nodes, graph), first, rest) = bind-some (get_new_root_nodes w records new_graph) _ e in
      subst IsProtocol (some-inj rest) (
        announced_in-IsProtocol w new_response nodes graph
          (get_new_root_nodes-Adds w num records new_graph nodes graph nothing-Grows first)
          (record {
            ledger = record {
              numbered = refl;
              once = λ i. omega arith;
              unused = λ i le. refl;
              below = λ r i e. absurd (ground arith);
              apart = λ r t i e f. absurd (ground arith);
              still_open = λ r m. absurd (ground (arith, has-nil r));
              latest = λ r i e. absurd (ground arith);
            };
            grows = nothing-Grows;
          }))

  started_response-IsProtocol :
      (records : List Revealed) (s : Response)
      → started_response w records ≡ some (some s)
      → IsProtocol s
  started_response-IsProtocol [] s e = cc
  started_response-IsProtocol (r ∷ rs) s e =
      let (t, built, same) = bind-some (build_response w (r ∷ rs)) _ e in
      build_response-IsProtocol (r ∷ rs) s (built ∙ some-inj same)

  Reached-IsProtocol : {s : Response} → Reached w s → IsProtocol s
  unfolding run_incremental
  Reached-IsProtocol (begun data_root records e) = started_response-IsProtocol _ _ e
  Reached-IsProtocol (then_ran {s} before after t r e) =
      let h = Reached-IsProtocol r in
      record {
        ledger =
            IsLedger-resp _ _ _
              (λ x. ap (λ (v : GraphWires). has v.0 x) (sym (wires-run_task w t s.graph)))
              (IsLedger-graph _ s _ h.ledger);
        grows = subst (λ (v : GraphWires). Grows v.1) (sym (wires-run_task w t s.graph)) h.grows;
      }
  Reached-IsProtocol (then_drained {s} {s'} r e) =
      drain_one-IsProtocol s s' (Reached-IsProtocol r) e

-- Whatever the order in which tasks run on and records are handled, the announced ids are 0, 1, 2
-- and so on in the order of their announcement. No id is completed twice or before it is
-- announced, a root node has an id of its own that is not yet completed, and the last id of any
-- other announced node is completed. So when no root node is left, and with it no next payload,
-- every announced node is completed.
pub Reached-IsLedger :
    {w : Records} {s : Response}
    → IsNumbered w
    → Reached w s
    → IsLedger (λ x. has s.graph.root_nodes x) s
Reached-IsLedger {w} num r = (Reached-IsProtocol w num r).ledger
