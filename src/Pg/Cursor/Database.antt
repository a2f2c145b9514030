-- ===== src/Pg/Cursor/Database.antt =====
-- What the keyset predicate of src/grafast_py/pg/cursor.py relies on in the database: three-valued
-- logic, comparisons with NULL, and the order that ORDER BY gives to rows. The evaluation is
-- Postgres', so it is a parameter with the documented laws.
use grafast_py.Prelude.{
  String, Bool, true, false, ◌&&◌, ◌||◌, Option, none, some, List, [], ◌∷◌, ◌≡◌, ◌↔◌, if◌then◌else◌,
}
use grafast_py.Pg.Ordering.{OrderTerm, Nulls, nulls_first, nulls_last}
use grafast_py.Pg.Cursor.Defs.{
  Expr, Bound, Pred, ne_self, is_null, is_not_null, greater, less, not_distinct, or_of, and_of,
  effective_nulls, expr_of,
}

-- SQL's truth values.
pub data Truth : Type 0 where
  holds fails unknown : Truth

abbrev pub sql_or : Truth → Truth → Truth
sql_or holds b = holds
sql_or fails b = b
sql_or unknown holds = holds
sql_or unknown fails = unknown
sql_or unknown unknown = unknown

abbrev pub sql_and : Truth → Truth → Truth
sql_and fails b = fails
sql_and holds b = b
sql_and unknown fails = fails
sql_and unknown holds = unknown
sql_and unknown unknown = unknown

abbrev pub of_bool : Bool → Truth
of_bool true = holds
of_bool false = fails

-- A comparison is unknown where a side is NULL.
abbrev pub compared : {V : Type 0} → (V → V → Bool) → Option V → Option V → Truth
compared f none b = unknown
compared f (some a) none = unknown
compared f (some a) (some b) = of_bool (f a b)

-- IS NOT DISTINCT FROM is two-valued.
abbrev pub same_cells : {V : Type 0} → (V → V → Bool) → Option V → Option V → Bool
same_cells f none none = true
same_cells f none (some b) = false
same_cells f (some a) none = false
same_cells f (some a) (some b) = f a b

abbrev pub null_test : {V : Type 0} → Option V → Bool
null_test none = true
null_test (some a) = false

-- A table's rows with the values of their cells in one total order.
pub record Database (X J V Row : Type 0) : Type 0 where
  pub lt : V → V → Bool
  pub same : V → V → Bool
  pub same_iff : (a b : V) → (same a b ≡ true) ↔ (a ≡ b)
  pub lt_irrefl : (a : V) → lt a a ≡ false
  pub lt_trans : (a b c : V) → lt a b ≡ true → lt b c ≡ true → lt a c ≡ true
  pub lt_total : (a b : V) → lt a b ≡ false → lt b a ≡ false → a ≡ b
  pub cell : Expr X → Row → Option V
  pub bound_cell : Bound J → Option V
  pub eval : Pred X J → Row → Truth
  pub eval_ne_self :
      (e : Expr X) (r : Row)
      → eval (ne_self e) r
        ≡ compared (λ a b. if same a b then false else true) (cell e r) (cell e r)
  pub eval_is_null : (e : Expr X) (r : Row) → eval (is_null e) r ≡ of_bool (null_test (cell e r))
  pub eval_is_not_null :
      (e : Expr X) (r : Row)
      → eval (is_not_null e) r ≡ of_bool (if null_test (cell e r) then false else true)
  pub eval_greater :
      (e : Expr X) (b : Bound J) (r : Row)
      → eval (greater e b) r ≡ compared lt (bound_cell b) (cell e r)
  pub eval_less :
      (e : Expr X) (b : Bound J) (r : Row)
      → eval (less e b) r ≡ compared lt (cell e r) (bound_cell b)
  pub eval_not_distinct :
      (e : Expr X) (b : Bound J) (r : Row)
      → eval (not_distinct e b) r ≡ of_bool (same_cells same (cell e r) (bound_cell b))
  pub eval_or : (p q : Pred X J) (r : Row) → eval (or_of p q) r ≡ sql_or (eval p r) (eval q r)
  pub eval_and : (p q : Pred X J) (r : Row) → eval (and_of p q) r ≡ sql_and (eval p r) (eval q r)

-- Where NULL stands in an order with the placement: whether the first cell comes strictly before
-- the second.
abbrev pub cell_before : {V : Type 0} → (V → V → Bool) → Bool → Nulls → Option V → Option V → Bool
cell_before lt descending p none none = false
cell_before lt descending nulls_first none (some b) = true
cell_before lt descending nulls_last none (some b) = false
cell_before lt descending nulls_first (some a) none = false
cell_before lt descending nulls_last (some a) none = true
cell_before lt descending p (some a) (some b) = if descending then lt b a else lt a b

module _ {X J V Row : Type 0} (db : Database X J V Row) (exprs : String → Option X) where
  abbrev pub at_term : OrderTerm → Row → Option V
  at_term t r = db.cell (expr_of exprs t.column) r

  -- ORDER BY: the first row comes strictly before the second.
  unfoldable pub row_before : List OrderTerm → Row → Row → Bool
  row_before [] r s = false
  row_before (t ∷ ts) r s =
      cell_before db.lt t.descending (effective_nulls t) (at_term t r) (at_term t s)
      || (same_cells db.same (at_term t r) (at_term t s) && row_before ts r s)
