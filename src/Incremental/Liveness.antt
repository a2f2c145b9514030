-- ===== src/Incremental/Liveness.antt =====
-- When an incremental response does not get stuck (src/grafast_py/incremental.py).
use grafast_py.Prelude.{some, List, [], ◌∷◌, ◌≡◌, ◌≢◌, ◌⊎◌, ◌∙◌}
use grafast_py.Incremental.Awaited.{IsAwaited-Extends}
use grafast_py.Incremental.Defs.{IncGraph, Records, Revealed}
use grafast_py.Incremental.Stepping.{Extends-run_task}
use grafast_py.Incremental.Flying.{IsAnswered}
use grafast_py.Incremental.Keys.{bind-some, some-inj}
use grafast_py.Incremental.Progress.{
  build_response-IsSettled, drain_one-IsSettled, pending_runs-run_task,
}
use grafast_py.Incremental.Promises.{nobody}
use grafast_py.Incremental.Publisher.{
  Reached, Response, begun, build_response, run_incremental, started_response, then_drained,
  then_ran,
}
use grafast_py.Incremental.Waiting.{IsSettled}

module _ (w : Records) (ans : IsAnswered w) where
  started_response-IsSettled :
      (records : List Revealed) (s : Response)
      → started_response w records ≡ some (some s)
      → IsSettled w nobody nobody s.graph
  started_response-IsSettled [] s e = cc
  started_response-IsSettled (r ∷ rs) s e =
      let (t, built, same) = bind-some (build_response w (r ∷ rs)) _ e in
      build_response-IsSettled w ans (r ∷ rs) s (built ∙ some-inj same)

  events-IsSettled : {s : Response} → Reached w s → IsSettled w nobody nobody s.graph
  unfolding run_incremental
  events-IsSettled (begun data_root records e) = started_response-IsSettled _ _ e
  events-IsSettled (then_ran {s} before after t r e) =
      let h = events-IsSettled r in
      record {
        awaited =
            IsAwaited-Extends w nobody nobody (Extends-run_task w before after t s.graph e)
              h.awaited;
        flushed = pending_runs-run_task w t s.graph ∙ h.flushed;
      }
  events-IsSettled (then_drained {s} {s'} r e) =
      drain_one-IsSettled w ans s s' (events-IsSettled r) e

-- Whatever the order of events, each root node of a reachable response waits for something that is
-- on its way: a fragment has a pending group, each pending group of a root fragment has its result
-- in the queue or to come from a task, and a root stream has its terminal batch in the queue or to
-- come from a pump, unless it was promoted again when its queue had been read. A group is pending in all of its fragments or in none, and no collected group
-- is left unstarted.
pub Reached-IsSettled :
    {w : Records} {s : Response} → IsAnswered w → Reached w s → IsSettled w nobody nobody s.graph
Reached-IsSettled {w} ans r = events-IsSettled w ans r

-- Something can still happen: a record waits to be handled, or a task to run on.
abbrev pub HasWork : IncGraph → Type 0
HasWork graph = (graph.completed_queue ≢ []) ⊎ (graph.tasks ≢ [])
