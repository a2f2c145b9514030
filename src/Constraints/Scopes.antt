-- ===== src/Constraints/Scopes.antt =====
-- Laws of the scopes of recorded constraints (src/grafast_py/constraints.py).
use grafast_py.Prelude.{
  String, Bool, true, false, List, [], ◌∷◌, ◌≡◌, refl, arith, ◌⊎◌, inl, inr, All, All-append,
}
use grafast_py.Values.{Value}
use grafast_py.Constraints.Defs.{
  Constraint, value, equality, exists, keys_of, RequestFacts, Result, ok, err, matches,
  constraints_match, scope_value, ◌>>=◌ as bind_result,
}
use grafast_py.Constraints.Gate.{
  Sink, Reads, ◌>>=◌, lift, note, eval, eval_is, eval_has, variable_item, variable_get,
  variable_contains, variable_iter, variable_len,
}
use grafast_py.Constraints.Resolver.{
  Resolver, plan, raise, reads_eval, reads_eval_is, reads_eval_has, reads_variable,
  reads_variable_get, reads_contains, reads_names, reads_count, run,
}
use grafast_py.Constraints.Reads.{Result-cases}

abbrev scope_of : Constraint → String
scope_of (value s p o) = s
scope_of (equality s p e b) = s
scope_of (exists s p b) = s
scope_of (keys_of s p ks) = s

abbrev pub IsScoped : Constraint → Type 0
IsScoped c = (scope_of c ≡ "context") ⊎ (scope_of c ≡ "variables")

scope_value_total :
    (s : String) (facts : RequestFacts)
    → (s ≡ "context") ⊎ (s ≡ "variables")
    → (v : Value) × (scope_value s facts ≡ ok v)
scope_value_total s facts (inl e) = rw e (unfold scope_value in (_, refl))
scope_value_total s facts (inr e) = rw e (unfold scope_value in (_, refl))

answer_total :
    (r : Result Value) (f : Value → Bool)
    → (v : Value) × (r ≡ ok v)
    → (b : Bool) × (bind_result r (λ v. ok (f v)) ≡ ok b)
answer_total (ok v) f h = (f v, refl)
answer_total (err e) f (v, h) = absurd (cc)

matches_total :
    (c : Constraint) (facts : RequestFacts) → IsScoped c → (b : Bool) × (matches c facts ≡ ok b)
unfolding matches
matches_total (value s p o) facts h =
    answer_total (scope_value s facts) _ (scope_value_total s facts h)
matches_total (equality s p x b) facts h =
    answer_total (scope_value s facts) _ (scope_value_total s facts h)
matches_total (exists s p b) facts h =
    answer_total (scope_value s facts) _ (scope_value_total s facts h)
matches_total (keys_of s p ks) facts h =
    answer_total (scope_value s facts) _ (scope_value_total s facts h)

-- The replay of constraints in known scopes answers, on every request.
pub constraints_match_total :
    (cs : List Constraint) (facts : RequestFacts)
    → All IsScoped cs
    → (b : Bool) × (constraints_match cs facts ≡ ok b)
unfolding constraints_match
constraints_match_total [] facts h = (true, refl)
constraints_match_total (c ∷ cs) facts h =
    go (matches_total c facts h.0) (constraints_match_total cs facts h.1)
  where
    go :
        (b : Bool) × (matches c facts ≡ ok b)
        → (b : Bool) × (constraints_match cs facts ≡ ok b)
        → (b : Bool) × (constraints_match (c ∷ cs) facts ≡ ok b)
    go (true, e) (b, f) = (b, ground arith)
    go (false, e) (b, f) = (false, ground arith)

abbrev Scopes : {A : Type 0} → Reads A → Type 0
Scopes m = (sink : Sink) → All IsScoped sink → All IsScoped (m sink).1

Scopes-lift : {A : Type 0} (r : Result A) → Scopes (lift r)
Scopes-lift r sink h = h

Scopes-note : (c : Constraint) → IsScoped c → Scopes (note c)
Scopes-note c g sink h = All-append IsScoped sink (c ∷ []) h (g, tt)

Scopes-bind :
    {A B : Type 0} (m : Reads A) (k : A → Reads B)
    → Scopes m
    → ((a : A) → Scopes (k a))
    → Scopes (m >>= k)
Scopes-bind m k sm sk sink h = elim (Result-cases (m sink).0) [
  | inl (a, e) ↦ rw e (sk a (m sink).1 (sm sink h))
  | inr (x, e) ↦ rw e (sm sink h)
]

context_refl : ◌≡◌ {A = String} "context" "context"
context_refl = refl

variables_refl : ◌≡◌ {A = String} "variables" "variables"
variables_refl = refl

ruleset scopes_rules =
    (Scopes-bind, Scopes-lift, Scopes-note, inl, inr, context_refl, variables_refl)

module _ (facts : RequestFacts) where
  Scopes-eval : (key : String) → Scopes (eval facts.context_value key)
  unfolding eval
  Scopes-eval key = search scopes_rules

  Scopes-eval_is : (key : String) (e : Value) → Scopes (eval_is facts.context_value key e)
  unfolding eval_is
  Scopes-eval_is key e = search scopes_rules

  Scopes-eval_has : (key : String) → Scopes (eval_has facts.context_value key)
  unfolding eval_has
  Scopes-eval_has key = search scopes_rules

  Scopes-variable_item : (name : String) → Scopes (variable_item facts.variable_values name)
  unfolding variable_item
  Scopes-variable_item name = search scopes_rules

  Scopes-variable_get :
      (name : String) (d : Value) → Scopes (variable_get facts.variable_values name d)
  unfolding variable_get
  Scopes-variable_get name d = search scopes_rules

  Scopes-variable_contains : (name : String) → Scopes (variable_contains facts.variable_values name)
  unfolding variable_contains
  Scopes-variable_contains name = search scopes_rules

  Scopes-variable_iter : Scopes (variable_iter facts.variable_values)
  unfolding variable_iter
  Scopes-variable_iter = search scopes_rules

  Scopes-variable_len : Scopes (variable_len facts.variable_values)
  unfolding variable_len
  Scopes-variable_len = search scopes_rules

  Scopes-run : {R : Type 0} (p : Resolver R) → Scopes (run p facts)
  unfolding run
  Scopes-run (plan r) = λ sink h. h
  Scopes-run (raise e) = λ sink h. h
  Scopes-run (reads_eval key k) = Scopes-bind _ _ (Scopes-eval key) (λ v. Scopes-run (k v))
  Scopes-run (reads_eval_is key e k) =
      Scopes-bind _ _ (Scopes-eval_is key e) (λ b. Scopes-run (k b))
  Scopes-run (reads_eval_has key k) = Scopes-bind _ _ (Scopes-eval_has key) (λ b. Scopes-run (k b))
  Scopes-run (reads_variable name k) =
      Scopes-bind _ _ (Scopes-variable_item name) (λ v. Scopes-run (k v))
  Scopes-run (reads_variable_get name d k) =
      Scopes-bind _ _ (Scopes-variable_get name d) (λ v. Scopes-run (k v))
  Scopes-run (reads_contains name k) =
      Scopes-bind _ _ (Scopes-variable_contains name) (λ b. Scopes-run (k b))
  Scopes-run (reads_names k) = Scopes-bind _ _ Scopes-variable_iter (λ ks. Scopes-run (k ks))
  Scopes-run (reads_count k) = Scopes-bind _ _ Scopes-variable_len (λ n. Scopes-run (k n))

-- Every constraint that planning records is in a known scope.
pub run-IsScoped :
    {R : Type 0} (p : Resolver R) (facts : RequestFacts) → All IsScoped (run p facts []).1
run-IsScoped p facts = Scopes-run facts p [] tt
