-- ===== src/Samples/Arguments.antt =====
-- A concrete field with a variable argument for src/grafast_py/schema.py and
-- src/grafast_py/plan.py.
use grafast_py.Prelude.{
  String, true, Option, none, some, List, [], ◌∷◌, str_eq, eq_iff, subst, sym, ◌≡◌, refl, arith,
  if◌then◌else◌,
}
use grafast_py.Values.{int, pos, str, mapping, Fields, end, field, get}
use grafast_py.Constraints.Defs.{RequestFacts, constraints_match}
use grafast_py.Constraints.Matching.{Holds}
use grafast_py.Constraints.Recorded.{IsSound}
use grafast_py.Constraints.Arguments.{init_args, record_field_args_constraints}
use grafast_py.Constraints.Arguments.Accesses.{
  Access, compares, tests, after_all, Tracks, Holds-after_all,
}

abbrev facts : RequestFacts
facts = record { variable_values = field "s" (str "open") end; context_value = mapping end }

abbrev others : RequestFacts
others = record { variable_values = end; context_value = int (pos 4) }

facts-IsSound : IsSound facts
unfolding get
facts-IsSound = record { variables = (refl, tt, tt); context = tt }

abbrev args : Fields
args = field "status" (str "open") end

abbrev source_of : String → Option String
source_of name = if str_eq name "status" then some "s" else none

args-Tracks : Tracks facts args ("status" ∷ []) source_of
unfolding get
args-Tracks name n v e s p =
    let same : str_eq name "status" ≡ true = ground arith in
    let here : name ≡ "status" = (eq_iff name "status").0 same in
    let from : source_of "status" ≡ some n = subst (λ x. source_of x ≡ some n) here s in
    let its : "s" ≡ n = cc in
    subst (λ x. get x args ≡ some v) (sym here)
      (subst (λ x. get x facts.variable_values ≡ some v) (sym its) p)

abbrev accesses : List Access
accesses = compares "status" (str "closed") ∷ tests "status" ∷ []

Holds-after_all_example :
    Holds
      (record_field_args_constraints []
        (after_all accesses (init_args args ("status" ∷ []) source_of []))
        facts.variable_values)
      facts
unfolding constraints_match
Holds-after_all_example =
    Holds-after_all facts accesses [] args ("status" ∷ []) source_of [] facts-IsSound args-Tracks
      refl
