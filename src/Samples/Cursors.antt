-- ===== src/Samples/Cursors.antt =====
-- Concrete cursors for src/grafast_py/pg/cursor.py: a cursor is the list that it encodes, and an
-- order's digest is its first column, or a mark when that descends.
use grafast_py.Prelude.{
  ap, arith, none, true, String, Bool, Option, some, List, [], ◌∷◌, map, str_eq, ◌≡◌, refl,
  if◌then◌else◌,
}
use grafast_py.Values.{pos}
use grafast_py.Constraints.Defs.{ok, err, value_error}
use grafast_py.Pg.Ordering.{OrderTerm, Nulls, ascending}
use grafast_py.Pg.Cursor.Codec.{
  Cell, Native, array, Encoding, order_digest, encode_value, payload, encode_keyset_cursor,
  decode_keyset_cursor,
}
use grafast_py.Pg.Cursor.Codec.RoundTrip.{
  HasNoCollision, IsSameOrder, encoded, decode-encode, decode_other_order,
}

abbrev first_column : List (String × Bool × Nulls) → String
first_column [] = ""
first_column ((c, descending, n) ∷ ts) = if descending then "-" else c

abbrev plain : Encoding String String String Native (List Native)
plain = record {
  iso = λ t. t;
  decimal_text = λ d. d;
  other_text = λ o. o;
  digest = first_column;
  native = λ v. v;
  as_native = λ v. some v;
  dumps = λ js. js;
  loads = λ js. some (array js);
  as_native-native = λ v. refl;
  loads-dumps = λ js. refl;
}

abbrev CellOfRow : Type 0
CellOfRow = Cell String String String

abbrev row : String → Option CellOfRow
row c = if str_eq c "price" then some (Cell.decimal "9.90") else some (Cell.int (pos 3))

abbrev by_price : List OrderTerm
by_price = ascending "price" ∷ ascending "id" ∷ []

abbrev cells : List CellOfRow
cells = Cell.decimal "9.90" ∷ Cell.int (pos 3) ∷ []

decode-encode_example :
    (cursor : List Native) × (encode_keyset_cursor plain by_price row ≡ ok cursor)
    × (decode_keyset_cursor plain cursor by_price ≡ ok (map (encoded plain) cells))
decode-encode_example = decode-encode plain by_price by_price row cells (refl, (refl, tt)) refl refl

abbrev dearest_first : List OrderTerm
dearest_first = record { column = "price"; descending = true; nulls = none } ∷ ascending "id" ∷ []

other_direction : ¬ IsSameOrder plain by_price dearest_first
other_direction (c, d, n, rest) = absurd (ground arith)

digests_apart : HasNoCollision plain by_price dearest_first
unfolding order_digest
digests_apart e = let same = ap (str_eq "price") e in cc

-- The same columns, the first of them in the other direction.
decode_other_order_example :
    decode_keyset_cursor plain
      (Native.str "price" ∷ Native.str "9.90" ∷ Native.int (pos 3) ∷ [])
      dearest_first
    ≡ err value_error
unfolding encode_keyset_cursor payload order_digest encode_value
decode_other_order_example =
    decode_other_order plain by_price dearest_first row
      (Native.str "price" ∷ Native.str "9.90" ∷ Native.int (pos 3) ∷ []) refl other_direction
      digests_apart
