-- ===== src/Constraints/Gate.antt =====
-- What a plan resolver sees of its request: the context gate and the tracked variables of
-- src/grafast_py/constraints.py. A method takes the constraints recorded so far (the sink) and
-- returns its result, or raises, beside the sink after it.
use Prim.Native.String.{◌++◌ as append}
use grafast_py.Prelude.{ℕ, String, Bool, true, Option, none, some, List, [], ◌∷◌, ◌++◌}
use grafast_py.Values.{Value, str, mapping, object, Fields, get, keys}
use grafast_py.Values.Equality.{count_fields}
use grafast_py.Constraints.Defs.{
  Constraint, value, equality, exists, keys_of, Result, ok, err, Error, key_error, attribute_error,
  type_error, child, values_equal, is_present, sorted,
}

abbrev pub Sink : Type 0
Sink = List Constraint

abbrev pub Reads : Type 0 → Type 0
Reads A = Sink → Result A × Sink

abbrev pub continue : {A B : Type 0} → Result A → (A → Reads B) → Reads B
continue (ok a) f sink = f a sink
continue (err e) f sink = (err e, sink)

infixl 5 ◌>>=◌ ◌>>◌
abbrev pub ◌>>=◌ : {A B : Type 0} → Reads A → (A → Reads B) → Reads B
◌>>=◌ m f sink = let (r, sink') = m sink in continue r f sink'

abbrev pub ◌>>◌ : {A B : Type 0} → Reads A → Reads B → Reads B
m >> n = m >>= λ _. n

abbrev pub pure : {A : Type 0} → A → Reads A
pure a sink = (ok a, sink)

abbrev pub lift : {A : Type 0} → Result A → Reads A
lift r sink = (r, sink)

abbrev pub note : Constraint → Reads (Unit {0})
note c sink = (ok tt, sink ++ c ∷ [])

-- The value-less handle to a context entry.
pub record ContextToken : Type 0 where
  pub source : String

-- `bool(token)` raises.
unfoldable pub token_bool : ContextToken → Result Bool
token_bool t = err type_error

-- `gate[key]`: a token, and no constraint. A key that is no text raises.
unfoldable pub gate_item : Value → Reads ContextToken
gate_item (str key) = pure (record { source = append "ctx:" key })
gate_item _ = lift (err type_error)

-- `gate.get(key)`, and `gate.get(key, default)`, which raises.
unfoldable pub gate_get : String → Option Value → Reads ContextToken
gate_get key none = pure (record { source = append "ctx:" key })
gate_get key (some default) = lift (err type_error)

-- `key in gate` and `iter(gate)` raise.
unfoldable pub gate_contains : Value → Reads Bool
gate_contains key = lift (err type_error)

unfoldable pub gate_iter : Reads (List String)
gate_iter = lift (err type_error)

abbrev pub or_raise : Error → Option Value → Result Value
or_raise e none = err e
or_raise e (some v) = ok v

-- `_read`: a missing key or attribute raises.
unfoldable pub read : Value → String → Result Value
read (mapping fs) key = or_raise key_error (get key fs)
read (object i fs) key = or_raise attribute_error (get key fs)
read _ key = err attribute_error

unfoldable pub eval : Value → String → Reads Value
eval context key = do
  v ← lift (read context key)
  note (value "context" (key ∷ []) (some v))
  pure v

unfoldable pub eval_is : Value → String → Value → Reads Bool
eval_is context key expected = do
  v ← lift (read context key)
  let passed = values_equal (some v) (some expected)
  note (exists "context" (key ∷ []) true)
  note (equality "context" (key ∷ []) expected passed)
  pure passed

unfoldable pub eval_has : Value → String → Reads Bool
eval_has context key = do
  let present = is_present (child context key)
  note (exists "context" (key ∷ []) present)
  pure present

-- `info.variable_values[name]`
unfoldable pub variable_item : Fields → String → Reads Value
variable_item values name = do
  v ← lift (or_raise key_error (get name values))
  note (value "variables" (name ∷ []) (some v))
  pure v

abbrev pub or_default : Value → Option Value → Value
or_default default none = default
or_default default (some v) = v

-- `info.variable_values.get(name, default)`
unfoldable pub variable_get : Fields → String → Value → Reads Value
variable_get values name default = do
  note (value "variables" (name ∷ []) (get name values))
  pure (or_default default (get name values))

unfoldable pub variable_contains : Fields → String → Reads Bool
variable_contains values name = do
  note (exists "variables" (name ∷ []) (is_present (get name values)))
  pure (is_present (get name values))

unfoldable pub note_keys : Fields → Reads (Unit {0})
note_keys values = note (keys_of "variables" [] (sorted (keys values)))

unfoldable pub variable_iter : Fields → Reads (List String)
unfolding note_keys
variable_iter values = do note_keys values; pure (keys values)

unfoldable pub variable_len : Fields → Reads ℕ
unfolding note_keys
variable_len values = do note_keys values; pure (count_fields values)
