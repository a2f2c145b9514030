-- ===== src/Constraints/Arguments/Observed.antt =====
-- Laws of the constraints of a field's arguments on the request they were recorded on
-- (src/grafast_py/plan.py).
use grafast_py.Prelude.{
  String, true, Option, none, some, List, [], ◌∷◌, map, All, ◌≡◌, refl, arith, Option-cases, inl,
  inr,
}
use grafast_py.Values.{Value, get}
use grafast_py.Constraints.Defs.{
  Constraint, equality, RequestFacts, ok, matches, constraints_match, values_equal, is_present,
  scope_value, value_at, child, sorted,
}
use grafast_py.Constraints.Matching.{Holds, Holds-append, Holds-of-matches}
use grafast_py.Constraints.Recorded.{IsSound, variable_self, bool_eq_self}
use grafast_py.Constraints.Arguments.{
  EqualityCheck, FieldArgs, one_of, distinct, inlined_names, inlined_variable_args, note_value,
  note_present, note_check, note_checks, note_members, record_field_args_constraints,
}

module _ {facts : RequestFacts} (sound : IsSound facts) where
  Holds-note_values : (ns : List String) → Holds (map (note_value facts.variable_values) ns) facts
  unfolding constraints_match
  Holds-note_values [] = refl
  Holds-note_values (n ∷ ns) =
      Holds-append (note_value facts.variable_values n ∷ []) _ facts
        (Holds-of-matches _ facts (variable_self sound n _ refl)) (Holds-note_values ns)

  matches-note_present :
      (n : String) → matches (note_present facts.variable_values n) facts ≡ ok true
  unfolding matches scope_value value_at child
  matches-note_present n = ground (arith, bool_eq_self (is_present (get n facts.variable_values)))

  Holds-note_present :
      (ns : List String) → Holds (map (note_present facts.variable_values) ns) facts
  unfolding constraints_match
  Holds-note_present [] = refl
  Holds-note_present (n ∷ ns) =
      Holds-append (note_present facts.variable_values n ∷ []) _ facts
        (Holds-of-matches _ facts (matches-note_present n)) (Holds-note_present ns)

  Holds-note_members :
      (args : FieldArgs) (as' : List String)
      → Holds (note_members args facts.variable_values as') facts
  unfolding note_members constraints_match
  Holds-note_members args [] = refl
  Holds-note_members args (a ∷ as') =
      Holds-append (map (note_present facts.variable_values) (one_of (args.variable_sources a))) _
        facts (Holds-note_present (one_of (args.variable_sources a))) (Holds-note_members args as')

-- The outcome of a check is that of its variable, where that is present.
abbrev pub IsHonest : RequestFacts → FieldArgs → EqualityCheck → Type 0
IsHonest facts args c =
    (n : String) (v : Value)
    → args.variable_sources c.arg ≡ some n
    → get n facts.variable_values ≡ some v
    → c.passed ≡ values_equal (some v) (some c.expected)

module _ {facts : RequestFacts} (sound : IsSound facts) (args : FieldArgs) where
  matches-check :
      (c : EqualityCheck) (n : String) (v : Value)
      → IsHonest facts args c
      → args.variable_sources c.arg ≡ some n
      → get n facts.variable_values ≡ some v
      → matches (equality "variables" (n ∷ []) c.expected c.passed) facts ≡ ok true
  unfolding matches scope_value value_at child
  matches-check c n v h e f =
      ground (arith, f, h n v e f, bool_eq_self (values_equal (some v) (some c.expected)))

  Holds-note_check :
      (c : EqualityCheck) (o : Option String)
      → IsHonest facts args c
      → args.variable_sources c.arg ≡ o
      → Holds (note_check facts.variable_values c o) facts
  unfolding constraints_match
  Holds-note_check c none h e = refl
  Holds-note_check c (some n) h e =
      Holds-append (note_present facts.variable_values n ∷ []) _ facts
        (Holds-of-matches _ facts (matches-note_present sound n))
        (elim (Option-cases (get n facts.variable_values)) [
          | inl f ↦ rw f refl
          | inr (v, f) ↦ rw f (Holds-of-matches _ facts (matches-check c n v h e f))
        ])

  Holds-note_checks :
      (cs : List EqualityCheck)
      → All (IsHonest facts args) cs
      → Holds (note_checks args facts.variable_values cs) facts
  unfolding note_checks constraints_match
  Holds-note_checks [] h = refl
  Holds-note_checks (c ∷ cs) (h, hs) =
      Holds-append (note_check facts.variable_values c (args.variable_sources c.arg)) _ facts
        (Holds-note_check c _ h refl) (Holds-note_checks cs hs)

  -- On a request made of dictionaries, where each recorded comparison came out as comparing its
  -- variable does, if that is present: if the constraints recorded so far hold of the request, so
  -- do those with what is recorded of a field's arguments.
  pub Holds-record_field_args_constraints :
      (recorded : List Constraint)
      → Holds recorded facts
      → All (IsHonest facts args) args.equality_checks
      → Holds (record_field_args_constraints recorded args facts.variable_values) facts
  unfolding record_field_args_constraints
  Holds-record_field_args_constraints recorded h honest = Holds-append recorded _ facts h (
      Holds-append
        (map (note_value facts.variable_values)
          (sorted (distinct (inlined_names args (inlined_variable_args args)))))
        _ facts (Holds-note_values sound _)
        (Holds-append (note_checks args facts.variable_values args.equality_checks) _ facts
          (Holds-note_checks args.equality_checks honest) (Holds-note_members sound args _)))
