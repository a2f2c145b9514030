-- ===== src/Constraints/Replay.antt =====
-- Laws of the replay of recorded constraints on another request (src/grafast_py/constraints.py).
use grafast_py.Prelude.{subst, String, true, [], ◌≡◌, refl, ap, inl, inr, sym, ◌∙◌}
use grafast_py.Values.{Value}
use grafast_py.Constraints.Defs.{RequestFacts, ok, err, constraints_match}
use grafast_py.Constraints.Gate.{
  eval, eval_is, eval_has, variable_item, variable_get, variable_contains, variable_iter,
  variable_len,
}
use grafast_py.Constraints.Resolver.{
  Resolver, plan, raise, reads_eval, reads_eval_is, reads_eval_has, reads_variable,
  reads_variable_get, reads_contains, reads_names, reads_count, run, Respects,
}
use grafast_py.Constraints.Reads.{
  Extends, Extends-bind, Extends-lift, Extends-note, Mirrors, Mirrors-bind,
}
use grafast_py.Constraints.Mirrored.{
  Same, SameOrDefault, SameNames, Mirrors-eval, Mirrors-eval_is, Mirrors-eval_has,
  Mirrors-variable_item, Mirrors-variable_get, Mirrors-variable_contains, Mirrors-variable_iter,
  Mirrors-variable_len,
}

ruleset extends_rules = (Extends-bind, Extends-lift, Extends-note)

module _ (facts : RequestFacts) where
  Extends-eval : (key : String) → Extends (eval facts.context_value key)
  unfolding eval
  Extends-eval key = search extends_rules

  Extends-eval_is : (key : String) (e : Value) → Extends (eval_is facts.context_value key e)
  unfolding eval_is
  Extends-eval_is key e = search extends_rules

  Extends-eval_has : (key : String) → Extends (eval_has facts.context_value key)
  unfolding eval_has
  Extends-eval_has key = search extends_rules

  Extends-variable_item : (name : String) → Extends (variable_item facts.variable_values name)
  unfolding variable_item
  Extends-variable_item name = search extends_rules

  Extends-variable_get :
      (name : String) (d : Value) → Extends (variable_get facts.variable_values name d)
  unfolding variable_get
  Extends-variable_get name d = search extends_rules

  Extends-variable_contains :
      (name : String) → Extends (variable_contains facts.variable_values name)
  unfolding variable_contains
  Extends-variable_contains name = search extends_rules

  Extends-variable_iter : Extends (variable_iter facts.variable_values)
  unfolding variable_iter
  Extends-variable_iter = search extends_rules

  Extends-variable_len : Extends (variable_len facts.variable_values)
  unfolding variable_len
  Extends-variable_len = search extends_rules

  Extends-run : {R : Type 0} (p : Resolver R) → Extends (run p facts)
  unfolding run
  Extends-run (plan r) = Extends-lift (ok r)
  Extends-run {R} (raise e) = Extends-lift {A = R} (err e)
  Extends-run (reads_eval key k) = Extends-bind _ _ (Extends-eval key) (λ v. Extends-run (k v))
  Extends-run (reads_eval_is key e k) =
      Extends-bind _ _ (Extends-eval_is key e) (λ b. Extends-run (k b))
  Extends-run (reads_eval_has key k) =
      Extends-bind _ _ (Extends-eval_has key) (λ b. Extends-run (k b))
  Extends-run (reads_variable name k) =
      Extends-bind _ _ (Extends-variable_item name) (λ v. Extends-run (k v))
  Extends-run (reads_variable_get name d k) =
      Extends-bind _ _ (Extends-variable_get name d) (λ v. Extends-run (k v))
  Extends-run (reads_contains name k) =
      Extends-bind _ _ (Extends-variable_contains name) (λ b. Extends-run (k b))
  Extends-run (reads_names k) = Extends-bind _ _ Extends-variable_iter (λ ks. Extends-run (k ks))
  Extends-run (reads_count k) = Extends-bind _ _ Extends-variable_len (λ n. Extends-run (k n))

module _ {R : Type 0} (f g : RequestFacts) where
  -- The two runs of one resolver, and of two resolvers that are equal.
  abbrev Replays : Resolver R → Type 0
  Replays p = Mirrors g ◌≡◌ (run p f) (run p g)

  along : (p q : Resolver R) → p ≡ q → Replays p → Mirrors g ◌≡◌ (run p f) (run q g)
  along p q e h = subst (λ r. Mirrors g ◌≡◌ (run p f) (run r g)) e h

  Replays-run : (p : Resolver R) → Respects p → Replays p
  unfolding run
  Replays-run (plan r) _ = λ sink sink' a h held. (a, h, refl)
  Replays-run (raise e) _ = λ sink sink' a h held. absurd (cc)
  Replays-run (reads_eval key k) (same, deep) =
      Mirrors-bind g Same ◌≡◌ _ _ _ _ (Mirrors-eval f g key) (λ v. Extends-run f (k v))
        (λ v w e. along (k v) (k w) (sym (same w v e)) (Replays-run (k v) (deep v)))
  Replays-run (reads_eval_is key e k) deep =
      Mirrors-bind g ◌≡◌ ◌≡◌ _ _ _ _ (Mirrors-eval_is f g key e) (λ b. Extends-run f (k b))
        (λ b c e'. along (k b) (k c) (ap k e') (Replays-run (k b) (deep b)))
  Replays-run (reads_eval_has key k) deep =
      Mirrors-bind g ◌≡◌ ◌≡◌ _ _ _ _ (Mirrors-eval_has f g key) (λ b. Extends-run f (k b))
        (λ b c e. along (k b) (k c) (ap k e) (Replays-run (k b) (deep b)))
  Replays-run (reads_variable name k) (same, deep) =
      Mirrors-bind g Same ◌≡◌ _ _ _ _ (Mirrors-variable_item f g name) (λ v. Extends-run f (k v))
        (λ v w e. along (k v) (k w) (sym (same w v e)) (Replays-run (k v) (deep v)))
  Replays-run (reads_variable_get name d k) (same, deep) =
      Mirrors-bind g (SameOrDefault f g) ◌≡◌ _ _ _ _ (Mirrors-variable_get f g name d)
        (λ v. Extends-run f (k v))
        (λ v w e.
          along (k v) (k w) (elim e [ inl p ↦ ap k p | inr p ↦ sym (same w v p) ])
            (Replays-run (k v) (deep v)))
  Replays-run (reads_contains name k) deep =
      Mirrors-bind g ◌≡◌ ◌≡◌ _ _ _ _ (Mirrors-variable_contains f g name) (λ b. Extends-run f (k b))
        (λ b c e. along (k b) (k c) (ap k e) (Replays-run (k b) (deep b)))
  Replays-run (reads_names k) (same, deep) =
      Mirrors-bind g (SameNames f g) ◌≡◌ _ _ _ _ (Mirrors-variable_iter f g)
        (λ ks. Extends-run f (k ks))
        (λ ks ls e. along (k ks) (k ls) (sym (same ls ks e)) (Replays-run (k ks) (deep ks)))
  Replays-run (reads_count k) deep =
      Mirrors-bind g ◌≡◌ ◌≡◌ _ _ _ _ (Mirrors-variable_len f g) (λ n. Extends-run f (k n))
        (λ m n e. along (k m) (k n) (ap k e) (Replays-run (k m) (deep m)))

-- A resolver that does the same with values its constraints do not tell apart, planned on one
-- request with success: if what it recorded holds of another request, planning on that request
-- succeeds with the same plan.
pub run-replay :
    {R : Type 0} (p : Resolver R) (f g : RequestFacts) (r : R)
    → Respects p
    → (run p f []).0 ≡ ok r
    → constraints_match (run p f []).1 g ≡ ok true
    → (run p g []).0 ≡ ok r
run-replay p f g r nice planned held =
    let (r', again, same) = Replays-run f g p nice [] [] r planned held in again ∙ ap ok (sym same)
