-- ===== src/Samples/Paging.antt =====
-- A small database for src/grafast_py/pg/cursor.py: rows with a nullable rank and an id.
use grafast_py.Prelude.{
  ℕ, String, true, false, Option, none, some, List, [], ◌∷◌, ◌≡◌, refl, arith, ltb, ◌==◌, ==_iff,
  str_eq, if◌then◌else◌,
}
use grafast_py.Values.{ℤ, pos, negsuc}
use grafast_py.Pg.Connection.Defs.{
  Connection, Setting, absent, build_connection, literal, new_connection, page_limit, page_size,
  placeholder,
}
use grafast_py.Pg.Connection.Walk.{IsOrdered, page_through, page_through-map}
use grafast_py.Pg.Connection.Windows.{
  IsWindow, build_connection-IsWindow, in_order, limited, page_of,
}
use grafast_py.Pg.Ordering.{name, ascending, as_term, normalize_order}
use grafast_py.Pg.Cursor.Defs.{
  Expr, column, override, Pred, ne_self, is_null, is_not_null, greater, less, not_distinct, or_of,
  and_of, bind_value, effective_nulls, keyset_where,
}
use grafast_py.Pg.Cursor.Database.{
  Truth, sql_or, sql_and, of_bool, compared, same_cells, null_test, Database, row_before,
}
use grafast_py.Pg.Cursor.Keyset.{Carries, keeps, keyset_where-row_before}
use grafast_py.Pg.Cursor.Pages.{Splits, keyset_where-Splits}

record Row : Type 0 where
  rank : Option ℕ
  id : ℕ

abbrev cell_at : Expr (Unit {0}) → Row → Option ℕ
cell_at (column c) r = if str_eq c "id" then some r.id else r.rank
cell_at (override x) r = r.rank

abbrev eval_at : Pred (Unit {0}) ℕ → Row → Truth
eval_at (ne_self e) r = compared (λ a b. if a == b then false else true) (cell_at e r) (cell_at e r)
eval_at (is_null e) r = of_bool (null_test (cell_at e r))
eval_at (is_not_null e) r = of_bool (if null_test (cell_at e r) then false else true)
eval_at (greater e b) r = compared ltb b.value (cell_at e r)
eval_at (less e b) r = compared ltb (cell_at e r) b.value
eval_at (not_distinct e b) r = of_bool (same_cells ◌==◌ (cell_at e r) b.value)
eval_at (or_of p q) r = sql_or (eval_at p r) (eval_at q r)
eval_at (and_of p q) r = sql_and (eval_at p r) (eval_at q r)

lt_irreflexive : (a : ℕ) → ltb a a ≡ false
lt_irreflexive a = ground arith

lt_transitive : (a b c : ℕ) → ltb a b ≡ true → ltb b c ≡ true → ltb a c ≡ true
lt_transitive a b c h k = ground arith

lt_trichotomy : (a b : ℕ) → ltb a b ≡ false → ltb b a ≡ false → a ≡ b
lt_trichotomy a b h k = ground arith

abbrev table : Database (Unit {0}) ℕ ℕ Row
table = record {
  lt = ltb;
  same = ◌==◌;
  same_iff = ==_iff;
  lt_irrefl = lt_irreflexive;
  lt_trans = lt_transitive;
  lt_total = lt_trichotomy;
  cell = cell_at;
  bound_cell = λ b. b.value;
  eval = eval_at;
  eval_ne_self = λ e r. refl;
  eval_is_null = λ e r. refl;
  eval_is_not_null = λ e r. refl;
  eval_greater = λ e b r. refl;
  eval_less = λ e b r. refl;
  eval_not_distinct = λ e b r. refl;
  eval_or = λ p q r. refl;
  eval_and = λ p q r. refl;
}

abbrev types : String → Option String
types c = some "integer"

abbrev exprs : String → Option (Unit {0})
exprs c = none

abbrev cursor_row : Row
cursor_row = record { rank = none; id = 3 }

keyset_where-row_before_example :
    (p : Pred (Unit {0}) ℕ) × (keyset_where types exprs
        (ascending "rank" ∷ ascending "id" ∷ [])
        (none ∷ some 3 ∷ [])
        true
      ≡ some p)
    × ((row : Row)
        → keeps (eval_at p row)
          ≡ row_before table exprs (ascending "rank" ∷ ascending "id" ∷ []) cursor_row row)
unfolding bind_value
keyset_where-row_before_example =
    keyset_where-row_before table types exprs (ascending "rank") (ascending "id" ∷ [])
      (none ∷ some 3 ∷ []) true cursor_row (refl, refl, (refl, refl, tt))

keyset_where-Splits_example :
    Splits table types exprs "id"
      (normalize_order (name "rank" ∷ []) "id" false)
      (none ∷ some 3 ∷ [])
      cursor_row
unfolding bind_value normalize_order as_term
keyset_where-Splits_example =
    keyset_where-Splits table types exprs (name "rank" ∷ []) "id" (none ∷ some 3 ∷ []) cursor_row
      (refl, refl, (refl, refl, tt))

-- A connection over three rows with the page size 2, forward and reverse.
abbrev ranked : Option ℕ → ℕ → Row
ranked rank id = record { rank = rank; id = id }

abbrev three_rows : List Row
three_rows = ranked (some 1) 1 ∷ ranked (some 1) 2 ∷ ranked none 3 ∷ []

abbrev forward_two : Connection String
forward_two = record {
  order_by = ascending "rank" ∷ ascending "id" ∷ [];
  first = literal (pos 2);
  after = absent;
  last = absent;
  before = absent;
  reversed = false;
}

abbrev last_two : Connection String
last_two = record {
  order_by = ascending "rank" ∷ ascending "id" ∷ [];
  first = absent;
  after = absent;
  last = placeholder "var:n";
  before = absent;
  reversed = true;
}

abbrev two_by_name : String → Option ℤ
two_by_name source = if str_eq source "var:n" then some (pos 2) else none

abbrev row_cursor : Row → List (Option ℕ)
row_cursor r = r.rank ∷ some r.id ∷ []

sized_reverse : page_size last_two two_by_name ≡ some (pos 2)
unfolding page_size
sized_reverse = refl

build_connection-IsWindow_example :
    IsWindow row_cursor
      (λ r. r.id)
      true
      (pos 2)
      three_rows
      false
      false
      (build_connection row_cursor
        (λ r. r.id)
        last_two
        two_by_name
        false
        false
        (limited (page_limit last_two two_by_name) (in_order true three_rows))
        3)
build_connection-IsWindow_example =
    build_connection-IsWindow row_cursor (λ r. r.id) last_two two_by_name (pos 2) three_rows false
      false 3 sized_reverse

-- With `first: -1` the page is empty, and yet has a next page.
abbrev forward_minus_one : Connection String
forward_minus_one = record forward_two { first = literal (negsuc 0) }

minus_one_has_next :
    (page_of row_cursor
      (λ r. r.id)
      forward_minus_one
      (λ _. none)
      three_rows
      false
      false
      3).page_info
    ≡ record {
      has_next_page = true;
      has_previous_page = false;
      start_cursor = none;
      end_cursor = none;
    }
unfolding build_connection page_limit page_size
minus_one_has_next = refl

row_cursor-Carries :
    (r : Row)
    → Carries table types exprs 0 (ascending "rank" ∷ ascending "id" ∷ []) (row_cursor r) r
unfolding bind_value
row_cursor-Carries r = (refl, ground arith, (refl, refl, tt))

sized_forward : page_size forward_two (λ _. none) ≡ some (pos 2)
unfolding page_size
sized_forward = refl

three_rows-IsOrdered :
    IsOrdered (row_before table exprs (ascending "rank" ∷ ascending "id" ∷ [])) three_rows
unfolding IsOrdered row_before effective_nulls
three_rows-IsOrdered = ((refl, (refl, tt)), ((refl, tt), (tt, tt)))

page_through-map_example :
    page_through table types exprs
      (ascending "rank")
      (ascending "id" ∷ [])
      row_cursor
      (λ c. c)
      (λ r. r.id)
      forward_two
      (λ _. none)
      three_rows
      4
      none
    ≡ 1 ∷ 2 ∷ 3 ∷ []
page_through-map_example =
    page_through-map table types exprs (ascending "rank") (ascending "id" ∷ []) row_cursor (λ c. c)
      (λ r. r.id) forward_two (λ _. none) three_rows row_cursor-Carries 2 (omega arith)
      sized_forward refl three_rows-IsOrdered 4 (omega arith)

abbrev no_cursor : Setting String
no_cursor = absent

both_directions_raise :
    new_connection (ascending "id" ∷ []) (literal (pos 2)) no_cursor (literal (pos 2)) no_cursor
    ≡ none
unfolding new_connection
both_directions_raise = refl
