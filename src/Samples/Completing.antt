-- ===== src/Samples/Completing.antt =====
-- A concrete object plan for src/grafast_py/completion.py and src/grafast_py/execute.py: users with
-- a name, a non-null age and a list of tags.
use grafast_py.Prelude.{
  ℕ, String, true, ◌&&◌, ◌==◌, if◌then◌else◌, Option, none, some, List, [], ◌∷◌, map, ◌≡◌, refl,
  All,
}
use grafast_py.Completion.Defs.{
  Attempt, Batch, Completer, FieldPlans, Key, Parent, Raw, Slot, Types, absent, failed, field,
  index, leaf, list, name, open_at, no_fields, non_null, object, raises, returns, value,
}
use grafast_py.Completion.Loops.{complete_values, execute_object_plan}
use grafast_py.Completion.Reference.{complete_value, complete_fields, object_value}
use grafast_py.Completion.Joins.{IsEach}
use grafast_py.Completion.Raising.{ok, raised, try_complete_values, try_execute_object_plan}
use grafast_py.Completion.Escapes.{
  IsTame, try_complete_values-IsEach, try_execute_object_plan-IsEach,
}
use grafast_py.Completion.Conforms.{Conforms, IsSound, DistinctNames}
use grafast_py.Completion.Sound.{complete_values-Conforms}

abbrev serialize_num : ℕ → ℕ → Attempt ℕ String
serialize_num t v = if v == 13 then raises "unlucky" else returns (some v)

abbrev items_of : ℕ → Option (List (Raw ℕ String))
items_of n = some (value n ∷ absent ∷ value 13 ∷ [])

abbrev types : Types ℕ ℕ ℕ ℕ String
types = record {
  serialize = serialize_num;
  null_result = λ t v. "null result";
  items = items_of;
  is_type_of = λ o v. true;
  invalid_return_type_error = λ o v. "wrong type";
  non_null_error = λ label. label;
  iterable_error = λ label. label;
  serialize_escapes = λ t v. if v == 99 then some "overflow" else none;
  items_escapes = λ v. none;
  is_type_of_escapes = λ o v. none;
}

-- Step 0 gives the user's number, step 1 its age, step 2 its tags.
abbrev read_user : ℕ → ℕ → Parent ℕ → Raw ℕ String
read_user l step p = if (step == 1) && (p.object == 7) then absent else value p.object

abbrev run_users : ℕ → List (Parent ℕ) → ℕ → List (Raw ℕ String)
run_users l ps step = map (read_user l step) ps

abbrev users_entrywise :
    (l : ℕ) (ps : List (Parent ℕ)) (step : ℕ) → run_users l ps step ≡ map (read_user l step) ps
users_entrywise l ps step = refl

abbrev user_fields : FieldPlans ℕ ℕ ℕ
user_fields = field "name" 0 (leaf 1) "User.name" (
    field "age" 1 (non_null (leaf 1)) "User.age"
      (field "tags" 2 (list (leaf 1)) "User.tags" no_fields))

abbrev user_list : Completer ℕ ℕ ℕ
user_list = list (object 0 0 user_fields)

abbrev users_path : List Key
users_path = name "users" ∷ []

abbrev one_list : List (Slot ℕ String)
one_list =
    record { path = users_path; raw = value 4 }
    ∷ record { path = users_path; raw = failed "down" }
    ∷ []

abbrev two_parents : List (Parent ℕ)
two_parents =
    record { path = users_path; object = 4 } ∷ record { path = users_path; object = 7 } ∷ []

-- The first user completes with one caught error; the second has no age and is nulled.
plan_run :
    (execute_object_plan types run_users 0 user_fields two_parents).1
    ≡ record { error = "unlucky"; path = name "users" ∷ name "tags" ∷ index 2 ∷ [] } ∷ []
unfolding execute_object_plan
plan_run = refl

-- A value whose `serialize` raises what is not caught ends the batch.
plan_raises :
    try_execute_object_plan types run_users 0 user_fields
      (record { path = users_path; object = 99 } ∷ two_parents)
    ≡ raised "overflow"
unfolding try_execute_object_plan
plan_raises = refl

try_execute_object_plan-IsEach_example :
    ((b : Batch ℕ String)
      → try_execute_object_plan types run_users 0 user_fields two_parents ≡ ok b
      → IsEach
          (λ p.
            object_value (complete_fields types read_user user_fields (read_user 0)) (open_at p))
          two_parents
          b)
    × (IsTame types
        → (b : Batch ℕ String) × (try_execute_object_plan types run_users 0 user_fields two_parents
            ≡ ok b))
try_execute_object_plan-IsEach_example =
    try_execute_object_plan-IsEach types run_users read_user users_entrywise 0 user_fields
      two_parents

try_complete_values-IsEach_example :
    ((b : Batch ℕ String)
      → try_complete_values types run_users user_list "Query.users" one_list ≡ ok b
      → IsEach (complete_value types read_user user_list "Query.users") one_list b)
    × (IsTame types
        → (b : Batch ℕ String) × (try_complete_values types run_users user_list "Query.users"
              one_list
            ≡ ok b))
try_complete_values-IsEach_example =
    try_complete_values-IsEach types run_users read_user users_entrywise user_list "Query.users"
      one_list

user_list-DistinctNames : DistinctNames user_list
unfolding DistinctNames
user_list-DistinctNames = ((refl, (refl, tt)), (tt, ((refl, tt), (tt, (tt, (tt, tt))))))

complete_values-Conforms_example :
    All
      (IsSound (Conforms user_list))
      (complete_values types run_users user_list "Query.users" one_list).0
complete_values-Conforms_example =
    complete_values-Conforms types read_user run_users users_entrywise user_list "Query.users"
      one_list user_list-DistinctNames
