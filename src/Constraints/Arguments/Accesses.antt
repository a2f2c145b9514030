-- ===== src/Constraints/Arguments/Accesses.antt =====
-- A resolver's accesses to the arguments of its field (src/grafast_py/schema.py), one after the
-- other, and laws of what is recorded of them. `eval` is `get`, and `eval_has` is `in`.
use grafast_py.Prelude.{
  String, true, Option, some, List, [], ◌∷◌, All, All-append, ◌≡◌, ◌||◌, any, str_eq, refl,
  Bool-cases, inl, inr,
}
use grafast_py.Values.{Value, Fields, get}
use grafast_py.Constraints.Defs.{Constraint, RequestFacts}
use grafast_py.Constraints.Matching.{Holds}
use grafast_py.Constraints.Recorded.{IsSound}
use grafast_py.Constraints.Arguments.{
  FieldArgs, init_args, arg_is_variable, is_nested, note_literal_read, arg_get, arg_item, arg_raw,
  arg_contains, arg_eval_is, arg_passed, arg_source, record_field_args_constraints,
}
use grafast_py.Constraints.Arguments.Observed.{IsHonest, Holds-record_field_args_constraints}

pub data Access : Type 0 where
  gets : String → Value → Access
  takes : String → Access
  takes_raw : Access
  tests : String → Access
  compares : String → Value → Access
  sources : String → Access

unfoldable pub after : Access → FieldArgs → FieldArgs
unfolding arg_get arg_item arg_raw arg_contains arg_eval_is arg_source
after (gets name default) a = (arg_get name default a).1
after (takes name) a = (arg_item name a).1
after takes_raw a = (arg_raw a).1
after (tests name) a = (arg_contains name a).1
after (compares name expected) a = (arg_eval_is name expected a).1
after (sources name) a = (arg_source name a).1

unfoldable pub after_all : List Access → FieldArgs → FieldArgs
unfolding after
after_all [] a = a
after_all (x ∷ xs) a = after_all xs (after x a)

module _ (facts : RequestFacts) where
  -- An argument that is a variable is coerced to the variable's value, where that is present.
  abbrev pub Tracks : Fields → List String → (String → Option String) → Type 0
  Tracks args variable_args variable_sources =
      (name n : String) (v : Value)
      → any (str_eq name) variable_args ≡ true
      → variable_sources name ≡ some n
      → get n facts.variable_values ≡ some v
      → get name args ≡ some v

  record IsKept (a : FieldArgs) : Type 0 where
    tracks : Tracks a.args a.variable_args a.variable_sources
    honest : All (IsHonest facts a) a.equality_checks

  note_literal_read-IsKept :
      (name : String) (a : FieldArgs) → IsKept a → IsKept (note_literal_read name a)
  unfolding note_literal_read
  note_literal_read-IsKept name a k =
      elim (Bool-cases (arg_is_variable a name || is_nested a name)) [
        | inl e ↦ rw e (record { tracks = k.tracks; honest = k.honest })
        | inr e ↦ rw e k
      ]

  check-IsHonest :
      (name : String) (expected : Value) (a : FieldArgs)
      → IsKept a
      → arg_is_variable a name ≡ true
      → IsHonest facts a
          (record { arg = name; expected = expected; passed = arg_passed name expected a })
  check-IsHonest name expected a k e n v s p = rw (k.tracks name n v e s p) refl

  after-IsKept : (x : Access) (a : FieldArgs) → IsKept a → IsKept (after x a)
  unfolding after arg_get arg_item arg_raw arg_contains arg_eval_is arg_source
  after-IsKept (gets name default) a k = note_literal_read-IsKept name a k
  after-IsKept (takes name) a k = note_literal_read-IsKept name a k
  after-IsKept takes_raw a k = record { tracks = k.tracks; honest = k.honest }
  after-IsKept (tests name) a k = elim (Bool-cases (arg_is_variable a name)) [
    | inl e ↦ rw e (record { tracks = k.tracks; honest = k.honest })
    | inr e ↦ rw e k
  ]
  after-IsKept (compares name expected) a k = elim (Bool-cases (arg_is_variable a name)) [
    | inl e ↦ rw e (record {
      tracks = k.tracks;
      honest =
          All-append (IsHonest facts a) a.equality_checks _ k.honest
            (check-IsHonest name expected a k e, tt);
    })
    | inr e ↦ elim (Bool-cases (is_nested a name)) [
      | inl f ↦ rw (e, f) (record { tracks = k.tracks; honest = k.honest })
      | inr f ↦ rw (e, f) k
    ]
  ]
  after-IsKept (sources name) a k = elim (Bool-cases (is_nested a name)) [
    | inl e ↦ rw (e, after, arg_source) k
    | inr e ↦ elim (Bool-cases (arg_is_variable a name)) [
      | inl f ↦ rw (e, f, after, arg_source) (record { tracks = k.tracks; honest = k.honest })
      | inr f ↦ rw (e, f, after, arg_source) k
    ]
  ]

  after_all-IsKept : (xs : List Access) (a : FieldArgs) → IsKept a → IsKept (after_all xs a)
  unfolding after_all
  after_all-IsKept [] a k = k
  after_all-IsKept (x ∷ xs) a k = after_all-IsKept xs (after x a) (after-IsKept x a k)

-- On a request made of dictionaries, for arguments that are coerced to their variables' values
-- where those are present: after any accesses of a resolver, the constraints recorded of its
-- arguments, behind constraints that hold of the request, hold of it.
pub Holds-after_all :
    (facts : RequestFacts) (xs : List Access) (recorded : List Constraint) (args : Fields)
    (variable_args : List String) (variable_sources : String → Option String)
    (nested_variable_args : List (String × List String))
    → IsSound facts
    → Tracks facts args variable_args variable_sources
    → Holds recorded facts
    → Holds
        (record_field_args_constraints recorded
          (after_all xs (init_args args variable_args variable_sources nested_variable_args))
          facts.variable_values)
        facts
unfolding init_args
Holds-after_all facts xs recorded args vs src nested sound tracks h =
    let k =
      after_all-IsKept facts xs (init_args args vs src nested)
        (record { tracks = tracks; honest = tt }) in
    Holds-record_field_args_constraints sound (after_all xs (init_args args vs src nested)) recorded
      h k.honest
