-- ===== src/Samples/Planning.antt =====
-- Concrete requests for src/grafast_py/constraints.py and for `plan_operation` of
-- src/grafast_py/plan.py.
use native.Mathlib.Decide.{ℕ_discrete}
use grafast_py.Prelude.{ℕ, Bool, true, false, List, [], ◌∷◌, map, All, ◌≡◌, refl, arith}
use grafast_py.Values.{int, pos, str, mapping, Fields, end, field, get}
use grafast_py.Values.Equality.{py_eq, same_type}
use grafast_py.Constraints.Defs.{
  equality, exists, RequestFacts, ok, constraints_match, matches, scope_value, value_at, child,
  values_equal,
}
use grafast_py.Constraints.Gate.{eval_is, variable_contains, read}
use grafast_py.Constraints.Resolver.{Resolver, plan, reads_eval_is, reads_contains, run, Respects}
use grafast_py.Constraints.Replay.{run-replay}
use grafast_py.Constraints.Recorded.{IsSound, constraints_match-run}
use grafast_py.Constraints.Scopes.{IsScoped, run-IsScoped}
use grafast_py.Serving.{Request, Host, Server, plan_fresh, plan_all}
use grafast_py.Serving.Fresh.{plan_all-eq-fresh}

abbrev acme : Fields
acme = field "tenant" (str "acme") end

abbrev with_limit : RequestFacts
with_limit = record {
  variable_values = field "limit" (int (pos 3)) end;
  context_value = mapping acme;
}

abbrev other_limit : RequestFacts
other_limit = record {
  variable_values = field "limit" (int (pos 9)) end;
  context_value = mapping acme;
}

abbrev chosen : Bool → Bool → ℕ
chosen true true = 1
chosen true false = 2
chosen false limited = 3

abbrev planner : Resolver ℕ
planner =
    reads_eval_is "tenant" (str "acme")
      (λ ours. reads_contains "limit" (λ limited. plan (chosen ours limited)))

planner-Respects : Respects planner
planner-Respects = λ ours limited. tt

recorded_lem :
    (run planner with_limit []).1
    ≡ exists "context" ("tenant" ∷ []) true
      ∷ equality "context" ("tenant" ∷ []) (str "acme") true
      ∷ exists "variables" ("limit" ∷ []) true
      ∷ []
unfolding run eval_is variable_contains read get values_equal py_eq same_type
recorded_lem = refl

-- The plan made with one limit is the plan for another.
run-replay_example : (run planner other_limit []).0 ≡ ok 1
unfolding run eval_is variable_contains read get values_equal py_eq same_type constraints_match
    matches scope_value value_at child
run-replay_example = run-replay planner with_limit other_limit 1 planner-Respects refl refl

with_limit-IsSound : IsSound with_limit
unfolding get
with_limit-IsSound = record { variables = (refl, tt, tt); context = (refl, tt, tt) }

constraints_match-run_example : constraints_match (run planner with_limit []).1 with_limit ≡ ok true
constraints_match-run_example = constraints_match-run planner with_limit with_limit-IsSound

run-IsScoped_example : All IsScoped (run planner with_limit []).1
run-IsScoped_example = run-IsScoped planner with_limit

abbrev host : Host ℕ ℕ
host = record {
  planner = λ k schema. planner;
  cacheable = λ p. true;
  customizers_match = λ p facts. true;
}

abbrev empty_server : Server ℕ ℕ
empty_server = record {
  cache = record { max_entries = 2; entries = []; hits = 0; misses = 0; evictions = 0 };
  next = 0;
}

abbrev requests : List (Request ℕ)
requests =
    record { key = 1; schema = 0; facts = with_limit }
    ∷ record { key = 1; schema = 0; facts = other_limit }
    ∷ []

plan_all-eq-fresh_example :
    (plan_all ℕ_discrete host true requests empty_server).0
    ≡ map (λ r. (plan_fresh ℕ_discrete host r).0) requests
plan_all-eq-fresh_example =
    plan_all-eq-fresh ℕ_discrete host true requests empty_server (λ k schema. planner-Respects)
      (record { positive = omega arith; bounded = omega arith; distinct = tt; buckets = tt })
