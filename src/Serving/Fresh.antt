-- ===== src/Serving/Fresh.antt =====
-- Laws of `plan_operation` (src/grafast_py/plan.py) beside planning from scratch.
use mathlib.Core.Path.{ap₂}
use grafast_py.Prelude.{
  ℕ, Bool, true, false, Option, none, some, List, [], ◌∷◌, map, ◌≡◌, refl, ap, sym, subst, arith,
  ◌==◌, All, Bool-cases, inl, inr,
}
use grafast_py.Constraints.Defs.{Constraint, RequestFacts, Result, ok, err, constraints_match}
use grafast_py.Constraints.Resolver.{Respects, run}
use grafast_py.Constraints.Replay.{run-replay}
use grafast_py.Constraints.Scopes.{IsScoped, run-IsScoped, constraints_match_total}
use grafast_py.Cache.Defs.{CachedPlan}
use grafast_py.Cache.Bounds.{IsValid, put-IsValid}
use grafast_py.Cache.Lookup.{get-IsValid, get_sound, get_returns}
use grafast_py.Serving.{
  Host, Request, Server, replay, validate, lookup_cached_plan, store_cached_plan, plan_fresh,
  keep_fresh, serve, plan_operation, plan_all,
}

replayed :
    (cs : List Constraint) (facts : RequestFacts)
    → replay cs facts ≡ ok true
    → constraints_match cs facts ≡ ok true
unfolding constraints_match
replayed [] facts h = refl
replayed (c ∷ cs) facts h = h

replay_total :
    (cs : List Constraint) (facts : RequestFacts)
    → All IsScoped cs
    → (b : Bool) × (replay cs facts ≡ ok b)
replay_total [] facts h = (true, refl)
replay_total (c ∷ cs) facts h = constraints_match_total (c ∷ cs) facts h

module _ {K P : Type 0} (dec : Discrete K) (host : Host K P) where
  -- The candidate is what planning made of some request.
  abbrev pub IsBuilt : K → CachedPlan P → Type 0
  IsBuilt k x =
      (facts : RequestFacts) × (run (host.planner k x.schema) facts []
        ≡ (ok x.triple, x.constraints))

  abbrev pub Valid : Server K P → Type 0
  Valid s = IsValid dec IsBuilt s.cache

  -- A candidate that validates is the plan of the request.
  serves_fresh :
      (r : Request K) (x : CachedPlan P)
      → Respects (host.planner r.key r.schema)
      → IsBuilt r.key x
      → validate dec host r x ≡ ok true
      → (plan_fresh dec host r).0 ≡ ok x.triple
  unfolding validate
  serves_fresh r x nice (facts, built) h =
      let same_schema : x.schema ≡ r.schema = ground arith in
      let held : replay x.constraints r.facts ≡ ok true = ground arith in
      let here = rw same_schema at built in
      run-replay (host.planner r.key r.schema) facts r.facts x.triple nice (rw here)
        (rw here (replayed x.constraints r.facts held))

  validate_total :
      (r : Request K) (x : CachedPlan P)
      → IsBuilt r.key x
      → (b : Bool) × (validate dec host r x ≡ ok b)
  unfolding validate
  validate_total r x (facts, built) =
      let scoped : All IsScoped x.constraints =
        subst (All IsScoped) (ap (λ b. b.1) built)
          (run-IsScoped (host.planner r.key x.schema) facts) in
      let (b, e) = replay_total x.constraints r.facts scoped in
      elim (Bool-cases (x.schema == r.schema)) [
        | inr other ↦ (false, ground arith)
        | inl same ↦ elim (Bool-cases (host.customizers_match x.triple r.facts)) [
          | inr differ ↦ (false, ground arith)
          | inl match ↦ (b, ground (arith, e))
        ]
      ]

  store-Valid :
      (r : Request K) (p : P) (cs : List Constraint) (s : Server K P)
      → plan_fresh dec host r ≡ (ok p, cs)
      → Valid s
      → Valid (store_cached_plan dec host r p cs s)
  unfolding store_cached_plan
  store-Valid r p cs s e v = put-IsValid dec IsBuilt r.key _ s.cache (r.facts, e) v

  keep_fresh-Valid :
      (on : Bool) (r : Request K) (made : Result P × List Constraint) (s : Server K P)
      → plan_fresh dec host r ≡ made
      → Valid s
      → ((keep_fresh dec host on r made s).0 ≡ made.0) × Valid (keep_fresh dec host on r made s).1
  keep_fresh-Valid on r (err e, cs) s h v = (refl, v)
  keep_fresh-Valid false r (ok p, cs) s h v = (refl, v)
  keep_fresh-Valid true r (ok p, cs) s h v = elim (Bool-cases (host.cacheable p)) [
    | inl yes' ↦ rw yes' (refl, store-Valid r p cs s h v)
    | inr no' ↦ rw no' (refl, v)
  ]

  serve-Valid :
      (r : Request K) (found : Result (Option (CachedPlan P))) (s : Server K P)
      → (o : Option (CachedPlan P)) × (found ≡ ok o)
      → ((x : CachedPlan P) → found ≡ ok (some x) → (plan_fresh dec host r).0 ≡ ok x.triple)
      → Valid s
      → ((serve dec host r (found, s)).0 ≡ (plan_fresh dec host r).0)
        × Valid (serve dec host r (found, s)).1
  serve-Valid r (err e) s (o, p) h v = absurd (cc)
  serve-Valid r (ok none) s _ h v = keep_fresh-Valid true r _ s refl v
  serve-Valid r (ok (some x)) s _ h v = (sym (h x refl), v)

  plan_operation-Valid :
      (on : Bool) (r : Request K) (s : Server K P)
      → Respects (host.planner r.key r.schema)
      → Valid s
      → ((plan_operation dec host on r s).0 ≡ (plan_fresh dec host r).0)
        × Valid (plan_operation dec host on r s).1
  unfolding plan_operation lookup_cached_plan
  plan_operation-Valid false r s nice v = keep_fresh-Valid false r _ s refl v
  plan_operation-Valid true r s nice v =
      serve-Valid r _ _
        (get_returns dec IsBuilt r.key (validate dec host r) s.cache v (validate_total r))
        (λ x e.
          let (built, held) = get_sound dec IsBuilt r.key (validate dec host r) s.cache x v e in
          serves_fresh r x nice built held)
        (get-IsValid dec IsBuilt r.key _ s.cache v)

  -- With caching on or off, from any cache whose candidates were planned, and for planners that do
  -- the same with values that the constraints do not tell apart: each request of a sequence gets
  -- exactly the plan, or the error, that planning from scratch gives it.
  pub plan_all-eq-fresh :
      (on : Bool) (rs : List (Request K)) (s : Server K P)
      → ((k : K) (schema : ℕ) → Respects (host.planner k schema))
      → Valid s
      → (plan_all dec host on rs s).0 ≡ map (λ r. (plan_fresh dec host r).0) rs
  unfolding plan_all
  plan_all-eq-fresh on [] s nice v = refl
  plan_all-eq-fresh on (r ∷ rs) s nice v =
      let (same, v') = plan_operation-Valid on r s (nice r.key r.schema) v in
      ap₂ ◌∷◌ same (plan_all-eq-fresh on rs (plan_operation dec host on r s).1 nice v')
