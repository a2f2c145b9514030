-- ===== src/Constraints/Defs.antt =====
-- The re-checkable notes that a plan keeps about its request: src/grafast_py/constraints.py.
-- `none` of `Option Value` is the ABSENT sentinel. A scope is a text, and a text that names no
-- scope raises, as in the code.

use grafast_py.Prelude.{
  String, Bool, true, false, Option, none, some, List, [], ◌∷◌, str_eq, ◌&&◌, if◌then◌else◌,
}
use Prim.Native.Nat.{Ordering}
use Prim.Native.String.{compare}
use grafast_py.Values.{Value, mapping, object, Fields, get, keys}
use grafast_py.Values.Equality.{py_eq, same_type, bool_eq}

pub data Error : Type 0 where
  value_error key_error attribute_error type_error : Error

pub data Result {ℓ} (A : Type ℓ) : Type ℓ where
  ok : A → Result A
  err : Error → Result A

infixl 5 ◌>>=◌
abbrev pub ◌>>=◌ {ℓ κ} : {A : Type ℓ} {B : Type κ} → Result A → (A → Result B) → Result B
ok a >>= f = f a
err e >>= f = err e

pub record RequestFacts : Type 0 where
  pub variable_values : Fields
  pub context_value : Value

unfoldable pub scope_value : String → RequestFacts → Result Value
scope_value scope facts =
    if str_eq scope "variables"
    then ok (mapping facts.variable_values)
    else if str_eq scope "context"
    then ok facts.context_value
    else err value_error

-- One step of the walk: a mapping by key, anything else by attribute.
unfoldable pub child : Value → String → Option Value
child (mapping fs) k = get k fs
child (object i fs) k = get k fs
child _ k = none

unfoldable pub value_at : Value → List String → Option Value
value_at v [] = some v
value_at v (k ∷ path) = elim (child v k) [ none ↦ none | some w ↦ value_at w path ]

unfoldable pub values_equal : Option Value → Option Value → Bool
values_equal none none = true
values_equal none (some b) = false
values_equal (some a) none = false
values_equal (some a) (some b) = same_type a b && py_eq a b

-- `sorted` of texts.
unfoldable pub insert_sorted : String → List String → List String
insert_sorted k [] = k ∷ []
insert_sorted k (j ∷ ks) = elim (compare k j) [
  | Ordering.gt ↦ j ∷ insert_sorted k ks
  | _ ↦ k ∷ j ∷ ks
]

unfoldable pub sorted : List String → List String
unfolding insert_sorted
sorted [] = []
sorted (k ∷ ks) = insert_sorted k (sorted ks)

unfoldable pub texts_equal : List String → List String → Bool
texts_equal [] [] = true
texts_equal (a ∷ as') (b ∷ bs) = str_eq a b && texts_equal as' bs
texts_equal _ _ = false

pub data Constraint : Type 0 where
  value : (scope : String) (path : List String) (observed : Option Value) → Constraint
  equality : (scope : String) (path : List String) (expected : Value) (passed : Bool) → Constraint
  exists : (scope : String) (path : List String) (present : Bool) → Constraint
  keys_of : (scope : String) (path : List String) (names : List String) → Constraint

abbrev pub is_present : Option Value → Bool
is_present none = false
is_present (some v) = true

abbrev pub has_keys : Option Value → List String → Bool
has_keys (some (mapping fs)) names = texts_equal (sorted (keys fs)) names
has_keys _ names = false

-- The four `matches` methods.
unfoldable pub matches : Constraint → RequestFacts → Result Bool
matches (value scope path observed) facts = do
  root ← scope_value scope facts
  ok (values_equal (value_at root path) observed)
matches (equality scope path expected passed) facts = do
  root ← scope_value scope facts
  ok (bool_eq (values_equal (value_at root path) (some expected)) passed)
matches (exists scope path present) facts = do
  root ← scope_value scope facts
  ok (bool_eq (is_present (value_at root path)) present)
matches (keys_of scope path names) facts = do
  root ← scope_value scope facts
  ok (has_keys (value_at root path) names)

-- `all(…)`: stops at the first constraint that fails, or raises.
unfoldable pub constraints_match : List Constraint → RequestFacts → Result Bool
constraints_match [] facts = ok true
constraints_match (c ∷ cs) facts =
    let rest = constraints_match cs facts in
    matches c facts >>= λ holds. if holds then rest else ok false
