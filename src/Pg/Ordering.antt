-- ===== src/Pg/Ordering.antt =====
-- src/grafast_py/pg/ordering.py: order terms and their normal form. A loose entry is a column name
-- or a term. Emitting the SQL elements (`order_clauses`) is left to Pg/Cursor/Database, which says
-- what the emitted order means.
use grafast_py.Prelude.{
  String, Bool, false, Option, none, some, List, [], ◌∷◌, ◌++◌, map, any, str_eq, if◌then◌else◌,
}
use grafast_py.Constraints.Defs.{Result, ok, err, value_error}

pub data Nulls : Type 0 where
  nulls_first nulls_last : Nulls

pub record OrderTerm : Type 0 where
  pub column : String
  pub descending : Bool
  pub nulls : Option Nulls

-- The constructor with the check of `__post_init__`.
unfoldable pub order_term : String → Bool → Option String → Result OrderTerm
order_term column descending none =
    ok (record { column = column; descending = descending; nulls = none })
order_term column descending (some s) =
    if str_eq s "first"
    then ok (record { column = column; descending = descending; nulls = some nulls_first })
    else if str_eq s "last"
    then ok (record { column = column; descending = descending; nulls = some nulls_last })
    else err value_error

pub data Entry : Type 0 where
  name : String → Entry
  term : OrderTerm → Entry

-- `OrderTerm(entry)` of a column name.
abbrev pub ascending : String → OrderTerm
ascending c = record { column = c; descending = false; nulls = none }

unfoldable pub as_term : Entry → OrderTerm
as_term (name c) = ascending c
as_term (term t) = t

abbrev pub orders_by : String → List OrderTerm → Bool
orders_by c = any (λ t. str_eq t.column c)

abbrev pub or_floor : String → List OrderTerm → List OrderTerm
or_floor key [] = ascending key ∷ []
or_floor key (t ∷ ts) = t ∷ ts

abbrev pub with_key : String → Bool → List OrderTerm → List OrderTerm
with_key key unique ts =
    if unique then ts else if orders_by key ts then ts else ts ++ ascending key ∷ []

unfoldable pub normalize_order : List Entry → String → Bool → List OrderTerm
unfolding as_term
normalize_order order_by primary_key order_is_unique =
    or_floor primary_key (with_key primary_key order_is_unique (map as_term order_by))
