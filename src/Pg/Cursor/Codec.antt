-- ===== src/Pg/Cursor/Codec.antt =====
-- The cursor codec of src/grafast_py/pg/cursor.py: `order_digest`, `encode_value`,
-- `encode_keyset_cursor` and `decode_keyset_cursor`. JSON, base64, sha256 and the texts of
-- datetimes, decimals and other objects are library code, so they are fields of `Encoding`.
pub mod RoundTrip
use grafast_py.Prelude.{
  ℕ, String, Bool, true, false, Option, none, some, List, [], ◌∷◌, map, length, ◌==◌, str_eq, ◌≡◌,
  if◌then◌else◌,
}
use grafast_py.Values.{ℤ}
use grafast_py.Constraints.Defs.{Result, ok, err, value_error}
use grafast_py.Pg.Ordering.{OrderTerm, Nulls}
use grafast_py.Pg.Cursor.Defs.{effective_nulls}

-- What a cell of a row may hold. `temporal` is a datetime, date or time, `other` any other object.
pub data Cell (T D O : Type 0) : Type 0 where
  null : Cell T D O
  bool : Bool → Cell T D O
  int : ℤ → Cell T D O
  str : String → Cell T D O
  temporal : T → Cell T D O
  decimal : D → Cell T D O
  other : O → Cell T D O

-- A JSON value that `encode_value` makes.
pub data Native : Type 0 where
  null : Native
  bool : Bool → Native
  int : ℤ → Native
  str : String → Native

-- What a decoded text is: an array, whose entries may be any JSON values, or something else.
pub data Json (J : Type 0) : Type 0 where
  array : List J → Json J
  scalar : Json J

-- `dumps` is the cursor of a JSON array, `loads` its reading, which may fail. The code looks into
-- no cursor, so its type is a parameter. The last two fields say that what was written is read
-- again, entry for entry.
pub record Encoding (T D O J S : Type 0) : Type 0 where
  pub iso : T → String
  pub decimal_text : D → String
  pub other_text : O → String
  pub digest : List (String × Bool × Nulls) → String
  pub native : Native → J
  pub as_native : J → Option Native
  pub dumps : List J → S
  pub loads : S → Option (Json J)
  pub as_native-native : (v : Native) → as_native (native v) ≡ some v
  pub loads-dumps : (js : List J) → loads (dumps js) ≡ some (array js)

module _ {T D O J S : Type 0} (lib : Encoding T D O J S) where
  abbrev pub canonical : OrderTerm → String × Bool × Nulls
  canonical t = (t.column, t.descending, effective_nulls t)

  unfoldable pub order_digest : List OrderTerm → String
  order_digest order_terms = lib.digest (map canonical order_terms)

  unfoldable pub encode_value : Cell T D O → Native
  encode_value Cell.null = Native.null
  encode_value (Cell.bool b) = Native.bool b
  encode_value (Cell.int i) = Native.int i
  encode_value (Cell.str s) = Native.str s
  encode_value (temporal t) = Native.str (lib.iso t)
  encode_value (decimal d) = Native.str (lib.decimal_text d)
  encode_value (other o) = Native.str (lib.other_text o)

  -- The loop over the terms; a column that the row does not have raises.
  unfoldable pub payload : List OrderTerm → (String → Option (Cell T D O)) → Result (List J)
  unfolding encode_value
  payload [] row = ok []
  payload (t ∷ ts) row = elim (row t.column) [
    | none ↦ err value_error
    | some v ↦ elim (payload ts row) [
      | err e ↦ err e
      | ok vs ↦ ok (lib.native (encode_value v) ∷ vs)
    ]
  ]

  unfoldable pub encode_keyset_cursor : List OrderTerm → (String → Option (Cell T D O)) → Result S
  unfolding payload order_digest
  encode_keyset_cursor order_terms row = elim (payload order_terms row) [
    | err e ↦ err e
    | ok vs ↦ ok (lib.dumps (lib.native (Native.str (order_digest order_terms)) ∷ vs))
  ]

  -- `digest != expected` for a JSON value and a text
  abbrev pub is_text : Option Native → String → Bool
  is_text (some (Native.str s)) expected = str_eq s expected
  is_text _ expected = false

  abbrev pub accept : List OrderTerm → Option (Json J) → Result (List J)
  accept order_terms none = err value_error
  accept order_terms (some scalar) = err value_error
  accept order_terms (some (array [])) = err value_error
  accept order_terms (some (array (d ∷ values))) =
      if is_text (lib.as_native d) (order_digest order_terms)
      then (if length values == length order_terms then ok values else err value_error)
      else err value_error

  unfoldable pub decode_keyset_cursor : S → List OrderTerm → Result (List J)
  unfolding order_digest
  decode_keyset_cursor cursor order_terms = accept order_terms (lib.loads cursor)
