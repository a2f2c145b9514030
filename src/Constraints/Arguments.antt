-- ===== src/Constraints/Arguments.antt =====
-- The arguments of a field as a plan resolver sees them, `FieldArgs` of src/grafast_py/schema.py,
-- and what planning records of its bookkeeping, `record_field_args_constraints` of
-- src/grafast_py/plan.py. A set is a list.
pub mod Observed
pub mod Accesses
use Prim.Native.String.{◌++◌ as append}
use grafast_py.Prelude.{
  String, Bool, true, false, not, ◌||◌, Option, none, some, List, [], ◌∷◌, ◌++◌, map, any, keep,
  str_eq, if◌then◌else◌,
}
use grafast_py.Values.{Value, null, Fields, get}
use grafast_py.Constraints.Defs.{
  Constraint, value, equality, exists, is_present, sorted, values_equal, Result, ok, err,
  value_error, key_error,
}

-- `arg`, the value that it was compared with, and the outcome.
pub record EqualityCheck : Type 0 where
  pub arg : String
  pub expected : Value
  pub passed : Bool

pub record FieldArgs : Type 0 where
  pub args : Fields
  pub variable_args : List String
  pub variable_sources : String → Option String
  pub nested_variable_args : List (String × List String)
  pub literal_variable_reads : List String
  pub placeholdered_variable_args : List String
  pub membership_checks : List String
  pub equality_checks : List EqualityCheck

unfoldable pub init_args :
    Fields → List String → (String → Option String) → List (String × List String) → FieldArgs
init_args args variable_args variable_sources nested_variable_args = record {
  args = args;
  variable_args = variable_args;
  variable_sources = variable_sources;
  nested_variable_args = nested_variable_args;
  literal_variable_reads = [];
  placeholdered_variable_args = [];
  membership_checks = [];
  equality_checks = [];
}

abbrev pub arg_is_variable : FieldArgs → String → Bool
arg_is_variable a name = any (str_eq name) a.variable_args

-- `nested_variable_args.get(name)`
unfoldable pub nested_of : String → List (String × List String) → Option (List String)
nested_of name [] = none
nested_of name ((k, ns) ∷ l) = if str_eq k name then some ns else nested_of name l

abbrev pub is_some : {A : Type 0} → Option A → Bool
is_some none = false
is_some (some x) = true

abbrev pub is_nested : FieldArgs → String → Bool
is_nested a name = is_some (nested_of name a.nested_variable_args)

-- `_note_literal_read`
unfoldable pub note_literal_read : String → FieldArgs → FieldArgs
unfolding nested_of
note_literal_read name a =
    if arg_is_variable a name || is_nested a name
    then record a { literal_variable_reads = name ∷ a.literal_variable_reads }
    else a

abbrev pub arg_or : Value → Option Value → Value
arg_or default none = default
arg_or default (some v) = v

abbrev pub arg_or_raise : Option Value → Result Value
arg_or_raise none = err key_error
arg_or_raise (some v) = ok v

unfoldable pub arg_get : String → Value → FieldArgs → Value × FieldArgs
unfolding note_literal_read
arg_get name default a = (arg_or default (get name a.args), note_literal_read name a)

unfoldable pub arg_item : String → FieldArgs → Result Value × FieldArgs
unfolding note_literal_read
arg_item name a = (arg_or_raise (get name a.args), note_literal_read name a)

unfoldable pub arg_raw : FieldArgs → Fields × FieldArgs
arg_raw a = (
  a.args,
  record a {
    literal_variable_reads =
        a.literal_variable_reads ++ (a.variable_args ++ map (λ e. e.0) a.nested_variable_args);
  },
)

unfoldable pub inlined_variable_args : FieldArgs → List String
inlined_variable_args a =
    keep (λ n. not (any (str_eq n) a.placeholdered_variable_args)) a.literal_variable_reads

unfoldable pub arg_contains : String → FieldArgs → Bool × FieldArgs
arg_contains name a = (
  is_present (get name a.args),
  if arg_is_variable a name then record a { membership_checks = name ∷ a.membership_checks } else a,
)

-- What `eval_is` compares, and keeps.
abbrev pub arg_passed : String → Value → FieldArgs → Bool
arg_passed name expected a = values_equal (some (arg_or null (get name a.args))) (some expected)

unfoldable pub arg_eval_is : String → Value → FieldArgs → Bool × FieldArgs
unfolding nested_of
arg_eval_is name expected a = (
  arg_passed name expected a,
  if arg_is_variable a name
      then record a {
        equality_checks =
            a.equality_checks
            ++ record { arg = name; expected = expected; passed = arg_passed name expected a } ∷ [];
      }
      else if is_nested a name
      then record a { literal_variable_reads = name ∷ a.literal_variable_reads }
      else a,
)

abbrev pub source_name : String → Option String → String
source_name name none = name
source_name name (some n) = n

unfoldable pub arg_source : String → FieldArgs → Result String × FieldArgs
unfolding nested_of
arg_source name a = if is_nested a name then (err value_error, a) else (
  ok (append "var:" (source_name name (a.variable_sources name))),
  if arg_is_variable a name
      then record a { placeholdered_variable_args = name ∷ a.placeholdered_variable_args }
      else a,
)

abbrev pub one_of : Option String → List String
one_of none = []
one_of (some v) = v ∷ []

-- `nested_variable_args.get(name, frozenset())`
abbrev pub names_of : Option (List String) → List String
names_of none = []
names_of (some ns) = ns

-- A set from the names added to it.
unfoldable pub distinct : List String → List String
distinct [] = []
distinct (n ∷ ns) = let rest = distinct ns in if any (str_eq n) ns then rest else n ∷ rest

unfoldable pub inlined_names : FieldArgs → List String → List String
unfolding nested_of
inlined_names args [] = []
inlined_names args (a ∷ as') =
    one_of (args.variable_sources a)
    ++ (names_of (nested_of a args.nested_variable_args) ++ inlined_names args as')

abbrev pub note_value : Fields → String → Constraint
note_value variable_values n = value "variables" (n ∷ []) (get n variable_values)

abbrev pub note_present : Fields → String → Constraint
note_present variable_values n = exists "variables" (n ∷ []) (is_present (get n variable_values))

-- The presence, and the outcome if the variable is present.
abbrev pub note_check : Fields → EqualityCheck → Option String → List Constraint
note_check variable_values c none = []
note_check variable_values c (some n) =
    note_present variable_values n
    ∷ (if is_present (get n variable_values)
        then equality "variables" (n ∷ []) c.expected c.passed ∷ []
        else [])

unfoldable pub note_checks : FieldArgs → Fields → List EqualityCheck → List Constraint
note_checks args variable_values [] = []
note_checks args variable_values (c ∷ cs) =
    note_check variable_values c (args.variable_sources c.arg)
    ++ note_checks args variable_values cs

unfoldable pub note_members : FieldArgs → Fields → List String → List Constraint
note_members args variable_values [] = []
note_members args variable_values (a ∷ as') =
    map (note_present variable_values) (one_of (args.variable_sources a))
    ++ note_members args variable_values as'

-- `plan.request_constraints` afterwards
unfoldable pub record_field_args_constraints :
    List Constraint → FieldArgs → Fields → List Constraint
unfolding sorted distinct inlined_names inlined_variable_args note_checks note_members
record_field_args_constraints recorded args variable_values =
    recorded
    ++ (map (note_value variable_values)
          (sorted (distinct (inlined_names args (inlined_variable_args args))))
        ++ (note_checks args variable_values args.equality_checks
            ++ note_members args variable_values (sorted args.membership_checks)))
