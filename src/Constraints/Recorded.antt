-- ===== src/Constraints/Recorded.antt =====
-- Laws of recorded constraints on the request they were recorded on (src/grafast_py/constraints.py).
use grafast_py.Prelude.{
  String, Bool, true, false, Option, none, some, [], ◌∷◌, ◌≡◌, refl, arith, inl, inr, Option-cases,
}
use grafast_py.Values.{Value, mapping, object, get, keys}
use grafast_py.Values.Equality.{
  IsDict, DistinctFields, get-IsDict, py_eq_self, same_type_self, bool_eq,
}
use grafast_py.Constraints.Defs.{
  Constraint, value, equality, exists, keys_of, RequestFacts, Result, ok, matches,
  constraints_match, values_equal, scope_value, value_at, child, is_present, sorted,
}
use grafast_py.Constraints.Gate.{
  Sink, Reads, ◌>>=◌, lift, note, read, eval, eval_is, eval_has, variable_item, variable_get,
  variable_contains, variable_iter, variable_len,
}
use grafast_py.Constraints.Resolver.{
  Resolver, plan, raise, reads_eval, reads_eval_is, reads_eval_has, reads_variable,
  reads_variable_get, reads_contains, reads_names, reads_count, run,
}
use grafast_py.Constraints.Matching.{Holds, Holds-append, Holds-of-matches, texts_equal_self}
use grafast_py.Constraints.Mirrored.{read-eq-ok}
use grafast_py.Constraints.Reads.{Result-cases}

-- Both inputs are made of dictionaries.
pub record IsSound (facts : RequestFacts) : Type 0 where
  pub variables : DistinctFields facts.variable_values
  pub context : IsDict facts.context_value

values_equal_self : (v : Value) → IsDict v → values_equal (some v) (some v) ≡ true
unfolding values_equal
values_equal_self v d = ground (arith, same_type_self v, py_eq_self v d)

child-IsDict : (v w : Value) (k : String) → IsDict v → child v k ≡ some w → IsDict w
unfolding child
child-IsDict (mapping fs) w k d h = get-IsDict k fs w d h
child-IsDict (object i fs) w k d h = get-IsDict k fs w d h
child-IsDict _ w k d h = absurd (cc)

pub bool_eq_self : (b : Bool) → bool_eq b b ≡ true
bool_eq_self true = refl
bool_eq_self false = refl

module _ (facts : RequestFacts) where
  -- What `m` records holds of the request.
  abbrev Notes : {A : Type 0} → Reads A → Type 0
  Notes m = (sink : Sink) → Holds sink facts → Holds (m sink).1 facts

  Notes-lift : {A : Type 0} (r : Result A) → Notes (lift r)
  Notes-lift r sink h = h

  Notes-note : (c : Constraint) → matches c facts ≡ ok true → Notes (note c)
  Notes-note c m sink h = Holds-append sink (c ∷ []) facts h (Holds-of-matches c facts m)

  -- The rest may use how `m` came out.
  Notes-bind :
      {A B : Type 0} (m : Reads A) (k : A → Reads B)
      → Notes m
      → ((a : A) (sink : Sink) → (m sink).0 ≡ ok a → Notes (k a))
      → Notes (m >>= k)
  Notes-bind m k nm nk sink h = elim (Result-cases (m sink).0) [
    | inl (a, e) ↦ rw e (nk a sink e (m sink).1 (nm sink h))
    | inr (x, e) ↦ rw e (nm sink h)
  ]

module _ {facts : RequestFacts} (sound : IsSound facts) where
  observed_self :
      (key : String) (v : Value)
      → read facts.context_value key ≡ ok v
      → matches (value "context" (key ∷ []) (some v)) facts ≡ ok true
  unfolding matches scope_value value_at
  observed_self key v h =
      let found = read-eq-ok facts.context_value key v h in
      ground (
        arith,
        found,
        values_equal_self v (child-IsDict facts.context_value v key sound.context found),
      )

  there_self :
      (key : String) (v : Value)
      → read facts.context_value key ≡ ok v
      → matches (exists "context" (key ∷ []) true) facts ≡ ok true
  unfolding matches scope_value value_at
  there_self key v h = ground (arith, read-eq-ok facts.context_value key v h)

  compared_self :
      (key : String) (v e : Value)
      → read facts.context_value key ≡ ok v
      → matches (equality "context" (key ∷ []) e (values_equal (some v) (some e))) facts ≡ ok true
  unfolding matches scope_value value_at
  compared_self key v e h =
      ground (
        arith,
        read-eq-ok facts.context_value key v h,
        bool_eq_self (values_equal (some v) (some e)),
      )

  Notes-eval : (key : String) → Notes facts (eval facts.context_value key)
  unfolding eval
  Notes-eval key sink h = elim (Result-cases (read facts.context_value key)) [
    | inl (v, e) ↦ rw e (Notes-note facts _ (observed_self key v e) sink h)
    | inr (x, e) ↦ rw e h
  ]

  Notes-eval_is : (key : String) (e : Value) → Notes facts (eval_is facts.context_value key e)
  unfolding eval_is
  Notes-eval_is key expected sink h = elim (Result-cases (read facts.context_value key)) [
    | inl (v, e) ↦ rw e (
        Notes-note facts _ (compared_self key v expected e) _
          (Notes-note facts _ (there_self key v e) sink h))
    | inr (x, e) ↦ rw e h
  ]

  Notes-eval_has : (key : String) → Notes facts (eval_has facts.context_value key)
  unfolding eval_has matches scope_value value_at
  Notes-eval_has key =
      Notes-note facts _ (ground (arith, bool_eq_self (is_present (child facts.context_value key))))

  pub variable_self :
      (name : String) (o : Option Value)
      → get name facts.variable_values ≡ o
      → matches (value "variables" (name ∷ []) o) facts ≡ ok true
  unfolding matches scope_value value_at child values_equal
  variable_self name none h = ground arith
  variable_self name (some v) h =
      ground
        (arith, values_equal_self v (get-IsDict name facts.variable_values v sound.variables h))

  Notes-variable_item : (name : String) → Notes facts (variable_item facts.variable_values name)
  unfolding variable_item
  Notes-variable_item name sink h = elim (Option-cases (get name facts.variable_values)) [
    | inl e ↦ rw e h
    | inr (v, e) ↦ rw e (Notes-note facts _ (variable_self name (some v) e) sink h)
  ]

  Notes-variable_get :
      (name : String) (d : Value) → Notes facts (variable_get facts.variable_values name d)
  unfolding variable_get
  Notes-variable_get name d = Notes-note facts _ (variable_self name _ refl)

  Notes-variable_contains :
      (name : String) → Notes facts (variable_contains facts.variable_values name)
  unfolding variable_contains matches scope_value value_at child
  Notes-variable_contains name =
      Notes-note facts _
        (ground (arith, bool_eq_self (is_present (get name facts.variable_values))))

  names_self :
      matches (keys_of "variables" [] (sorted (keys facts.variable_values))) facts ≡ ok true
  unfolding matches scope_value value_at
  names_self = ground (arith, texts_equal_self (sorted (keys facts.variable_values)))

  Notes-variable_iter : Notes facts (variable_iter facts.variable_values)
  unfolding variable_iter
  Notes-variable_iter = Notes-note facts _ names_self

  Notes-variable_len : Notes facts (variable_len facts.variable_values)
  unfolding variable_len
  Notes-variable_len = Notes-note facts _ names_self

  Notes-run : {R : Type 0} (p : Resolver R) → Notes facts (run p facts)
  unfolding run
  Notes-run (plan r) = λ sink h. h
  Notes-run (raise e) = λ sink h. h
  Notes-run (reads_eval key k) = Notes-bind facts _ _ (Notes-eval key) (λ v _ _. Notes-run (k v))
  Notes-run (reads_eval_is key e k) =
      Notes-bind facts _ _ (Notes-eval_is key e) (λ b _ _. Notes-run (k b))
  Notes-run (reads_eval_has key k) =
      Notes-bind facts _ _ (Notes-eval_has key) (λ b _ _. Notes-run (k b))
  Notes-run (reads_variable name k) =
      Notes-bind facts _ _ (Notes-variable_item name) (λ v _ _. Notes-run (k v))
  Notes-run (reads_variable_get name d k) =
      Notes-bind facts _ _ (Notes-variable_get name d) (λ v _ _. Notes-run (k v))
  Notes-run (reads_contains name k) =
      Notes-bind facts _ _ (Notes-variable_contains name) (λ b _ _. Notes-run (k b))
  Notes-run (reads_names k) = Notes-bind facts _ _ Notes-variable_iter (λ ks _ _. Notes-run (k ks))
  Notes-run (reads_count k) = Notes-bind facts _ _ Notes-variable_len (λ n _ _. Notes-run (k n))

-- Whatever a resolver reads of a request made of dictionaries, whether it plans or raises, the
-- constraints that were recorded hold of that request, and none of them raises.
pub constraints_match-run :
    {R : Type 0} (p : Resolver R) (facts : RequestFacts)
    → IsSound facts
    → constraints_match (run p facts []).1 facts ≡ ok true
constraints_match-run p facts sound = Notes-run sound p [] (unfold constraints_match in refl)
