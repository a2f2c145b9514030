-- ===== src/Serving.antt =====
-- How an operation gets its plan: `plan_operation`, `lookup_cached_plan` and `store_cached_plan` of
-- src/grafast_py/plan.py over the cache of src/grafast_py/cache.py.
--
-- The planning of a document is host code and ranges over all resolvers (`Host`).
pub mod Fresh
use grafast_py.Prelude.{
  ℕ, suc, ◌+◌, Bool, true, false, Option, none, some, List, [], ◌∷◌, ◌==◌, if◌then◌else◌,
}
use grafast_py.Constraints.Defs.{Constraint, RequestFacts, Result, ok, err, constraints_match}
use grafast_py.Constraints.Resolver.{Resolver, run}
use grafast_py.Cache.Defs.{CachedPlan, PlanCache, get, put}

pub record Request (K : Type 0) : Type 0 where
  pub key : K
  pub schema : ℕ
  pub facts : RequestFacts

-- `planner key schema` makes the reads of the directives and of the plan resolvers, in order.
-- `cacheable` is the flag of the finished plan. `customizers_match` is the answer of the
-- customizers of the plan's steps, which are host callables, for a request.
pub record Host (K P : Type 0) : Type 0 where
  pub planner : K → ℕ → Resolver P
  pub cacheable : P → Bool
  pub customizers_match : P → RequestFacts → Bool

-- `next` is the identity of the next `CachedPlan` object.
pub record Server (K P : Type 0) : Type 0 where
  pub cache : PlanCache K P
  pub next : ℕ

-- `if candidate.constraints and not constraints_match(…)`
abbrev pub replay : List Constraint → RequestFacts → Result Bool
replay [] facts = ok true
replay (c ∷ cs) facts = constraints_match (c ∷ cs) facts

module _ {K P : Type 0} (dec : Discrete K) (host : Host K P) where
  -- the `validate` of `lookup_cached_plan`
  unfoldable pub validate : Request K → CachedPlan P → Result Bool
  validate r x =
      if x.schema == r.schema
      then (if host.customizers_match x.triple r.facts
          then replay x.constraints r.facts
          else ok false)
      else ok false

  unfoldable pub lookup_cached_plan :
      Request K → Server K P → Result (Option (CachedPlan P)) × Server K P
  lookup_cached_plan r s =
      let (found, cache') = get dec r.key (some (validate r)) s.cache in
      (found, record s { cache = cache' })

  unfoldable pub store_cached_plan : Request K → P → List Constraint → Server K P → Server K P
  store_cached_plan r p cs s =
      let entry : CachedPlan P = record {
        identity = s.next;
        triple = p;
        schema = r.schema;
        constraints = cs;
      } in
      record s { cache = (put dec r.key entry s.cache).0; next = s.next + 1 }

  -- What planning from scratch gives the request, and what it records.
  abbrev pub plan_fresh : Request K → Result P × List Constraint
  plan_fresh r = run (host.planner r.key r.schema) r.facts []

  -- the rest of `plan_operation` after the plan is built
  abbrev pub keep_fresh :
      Bool → Request K → Result P × List Constraint → Server K P → Result P × Server K P
  keep_fresh on r (err e, cs) s = (err e, s)
  keep_fresh on r (ok p, cs) s =
      let stored = store_cached_plan r p cs s in
      if on then (if host.cacheable p then (ok p, stored) else (ok p, s)) else (ok p, s)

  abbrev pub serve : Request K → Result (Option (CachedPlan P)) × Server K P → Result P × Server K P
  serve r (err e, s) = (err e, s)
  serve r (ok (some x), s) = (ok x.triple, s)
  serve r (ok none, s) = keep_fresh true r (plan_fresh r) s

  -- `cache_plans` is the flag of the configuration.
  unfoldable pub plan_operation : Bool → Request K → Server K P → Result P × Server K P
  plan_operation cache_plans r s =
      if cache_plans then serve r (lookup_cached_plan r s) else keep_fresh false r (plan_fresh r) s

  -- Requests one after the other.
  unfoldable pub plan_all : Bool → List (Request K) → Server K P → List (Result P) × Server K P
  plan_all on [] s = ([], s)
  plan_all on (r ∷ rs) s =
      let (p, s') = plan_operation on r s in let (ps, s'') = plan_all on rs s' in (p ∷ ps, s'')
