-- ===== src/Pg/Cursor/Defs.antt =====
-- The keyset predicate of src/grafast_py/pg/cursor.py: `effective_nulls`, `column_after`,
-- `_recursive_after` and `keyset_where`. SQLAlchemy's elements are their syntax; `Expr.override` is
-- a column expression that the caller gives. `none` of a predicate is the IndexError of a value
-- that is missing.
use grafast_py.Prelude.{
  ℕ, ◌+◌, String, Bool, true, false, not, Option, none, some, List, [], ◌∷◌, map, if◌then◌else◌,
}
use grafast_py.Pg.Ordering.{OrderTerm, Nulls, nulls_first, nulls_last}

-- Postgres: ascending puts NULLs last, descending first, unless the term says.
unfoldable pub effective_nulls : OrderTerm → Nulls
effective_nulls t = elim t.nulls [
  | some p ↦ p
  | none ↦ if t.descending then nulls_first else nulls_last
]

unfoldable pub flip : Nulls → Nulls
flip nulls_first = nulls_last
flip nulls_last = nulls_first

-- `_flip_nulls`
unfoldable pub flip_nulls : OrderTerm → Option Nulls
unfolding effective_nulls flip
flip_nulls t = some (flip (effective_nulls t))

unfoldable pub flip_term : OrderTerm → OrderTerm
unfolding flip_nulls
flip_term t = record { column = t.column; descending = not t.descending; nulls = flip_nulls t }

pub data Expr (X : Type 0) : Type 0 where
  column : String → Expr X
  override : X → Expr X

-- A bind parameter with its index, its value and the SQL type that it is cast to, if any.
pub record Bound (J : Type 0) : Type 0 where
  pub index : ℕ
  pub value : Option J
  pub sql_type : Option String

unfoldable pub bind_value : {J : Type 0} → Option J → ℕ → Option String → Bound J
bind_value value index sql_type = record { index = index; value = value; sql_type = sql_type }

pub data Pred (X J : Type 0) : Type 0 where
  ne_self is_null is_not_null : Expr X → Pred X J
  greater less not_distinct : Expr X → Bound J → Pred X J
  or_of and_of : Pred X J → Pred X J → Pred X J

-- One column of the comparison: the term, the cursor's value and its bind.
pub record Rung (X J : Type 0) : Type 0 where
  pub term : OrderTerm
  pub value : Option J
  pub bound : Bound J
  pub expr : Expr X

abbrev pub is_none : {J : Type 0} → Option J → Bool
is_none none = true
is_none (some v) = false

-- `exprs.get(term.column)`, or the column
abbrev pub expr_of : {X : Type 0} → (String → Option X) → String → Expr X
expr_of exprs c = elim (exprs c) [ none ↦ column c | some x ↦ override x ]

module _ {X J : Type 0} where
  -- `column_after`, by direction, placement and whether the cursor's value is NULL
  unfoldable pub after_by : Bool → Nulls → Bool → Expr X → Bound J → Pred X J
  after_by false nulls_last true e b = ne_self e
  after_by false nulls_last false e b = or_of (is_null e) (greater e b)
  after_by false nulls_first true e b = is_not_null e
  after_by false nulls_first false e b = and_of (is_not_null e) (greater e b)
  after_by true nulls_first true e b = is_not_null e
  after_by true nulls_first false e b = and_of (is_not_null e) (less e b)
  after_by true nulls_last true e b = ne_self e
  after_by true nulls_last false e b = or_of (is_null e) (less e b)

  unfoldable pub column_after : Rung X J → Pred X J
  unfolding after_by effective_nulls
  column_after r =
      after_by r.term.descending (effective_nulls r.term) (is_none r.value) r.expr r.bound

  -- `gtI OR (eqI AND rest)`
  unfoldable pub recursive_after : List (Rung X J) → Option (Pred X J)
  unfolding column_after
  recursive_after [] = none
  recursive_after (r ∷ []) = some (column_after r)
  recursive_after (r ∷ s ∷ rs) = elim (recursive_after (s ∷ rs)) [
    | none ↦ none
    | some rest ↦ some (or_of (column_after r) (and_of (not_distinct r.expr r.bound) rest))
  ]

  module _ (types : String → Option String) (exprs : String → Option X) where
    abbrev pub rung_of : OrderTerm → Option J → ℕ → Rung X J
    rung_of t v i = record {
      term = t;
      value = v;
      bound = bind_value v i (types t.column);
      expr = expr_of exprs t.column;
    }

    -- the terms with `values[i]` and `bounds[i]`
    unfoldable pub rungs : ℕ → List OrderTerm → List (Option J) → Option (List (Rung X J))
    unfolding bind_value
    rungs i [] values = some []
    rungs i (t ∷ ts) [] = none
    rungs i (t ∷ ts) (v ∷ values) = elim (rungs (i + 1) ts values) [
      | none ↦ none
      | some rs ↦ some (rung_of t v i ∷ rs)
    ]

    unfoldable pub keyset_where : List OrderTerm → List (Option J) → Bool → Option (Pred X J)
    unfolding rungs recursive_after flip_term
    keyset_where order_terms values after =
        let terms = if after then order_terms else map flip_term order_terms in
        elim (rungs 0 terms values) [ none ↦ none | some rs ↦ recursive_after rs ]
