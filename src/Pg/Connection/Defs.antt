-- ===== src/Pg/Connection/Defs.antt =====
-- The page arithmetic of `PgConnectionStep` and the connection that it builds for one parent
-- (src/grafast_py/pg/connection.py, pg/placeholders.py). Aggregates, totals and the placeholders of
-- the request context are left out; the encoder of cursors and the decoder of rows are arguments.
use grafast_py.Prelude.{
  ℕ, zero, suc, ◌-◌, ◌+◌, String, Bool, true, false, ◌&&◌, ◌||◌, Option, none, some, List, [], ◌∷◌,
  map, take, length, ltb, if◌then◌else◌,
}
use mathlib.Core.List.{reverse}
use grafast_py.Values.{ℤ, pos, negsuc}
use grafast_py.Pg.Ordering.{OrderTerm}
use grafast_py.Pg.Cursor.Defs.{flip_term}

-- A page argument: None, a literal, or a `Placeholder` with its source.
pub data Setting (A : Type 0) : Type 0 where
  absent : Setting A
  literal : A → Setting A
  placeholder : String → Setting A

abbrev pub is_given : {A : Type 0} → Setting A → Bool
is_given absent = false
is_given _ = true

-- `resolve_placeholder` of a request variable, None where the request omits it
unfoldable pub resolve_placeholder : {A : Type 0} → Setting A → (String → Option A) → Option A
resolve_placeholder absent values = none
resolve_placeholder (literal a) values = some a
resolve_placeholder (placeholder source) values = values source

pub record Connection (S : Type 0) : Type 0 where
  pub order_by : List OrderTerm
  pub first : Setting ℤ
  pub after : Setting S
  pub last : Setting ℤ
  pub before : Setting S
  pub reversed : Bool

-- The guard of the constructor: forward and reverse arguments together raise, none.
unfoldable pub new_connection :
    {S : Type 0}
    → List OrderTerm
    → Setting ℤ
    → Setting S
    → Setting ℤ
    → Setting S
    → Option (Connection S)
new_connection order_by first after last before =
    let forward_arg = is_given first || is_given after in
    let reverse_arg = is_given last || is_given before in
    if forward_arg && reverse_arg
    then none
    else some (record {
      order_by = order_by;
      first = first;
      after = after;
      last = last;
      before = before;
      reversed = reverse_arg;
    })

unfoldable pub page_size : {S : Type 0} → Connection S → (String → Option ℤ) → Option ℤ
unfolding resolve_placeholder
page_size c values = resolve_placeholder (if c.reversed then c.last else c.first) values

-- `size + 1` of an int, which may be negative: nothing bounds it
abbrev pub plus_one : ℤ → ℤ
plus_one (pos n) = pos (n + 1)
plus_one (negsuc zero) = pos 0
plus_one (negsuc (suc n)) = negsuc n

abbrev pub one_more : Option ℤ → Option ℤ
one_more none = none
one_more (some size) = some (plus_one size)

unfoldable pub page_limit : {S : Type 0} → Connection S → (String → Option ℤ) → Option ℤ
unfolding page_size
page_limit c values = one_more (page_size c values)

unfoldable pub effective_order : {S : Type 0} → Connection S → List OrderTerm
effective_order c = if c.reversed then map flip_term c.order_by else c.order_by

pub record Edge (N C : Type 0) : Type 0 where
  pub node : N
  pub cursor : C

pub record PageInfo (C : Type 0) : Type 0 where
  pub has_next_page : Bool
  pub has_previous_page : Bool
  pub start_cursor : Option C
  pub end_cursor : Option C

pub record Page (N C : Type 0) : Type 0 where
  pub edges : List (Edge N C)
  pub nodes : List N
  pub total_count : ℕ
  pub page_info : PageInfo C

abbrev pub head? : {A : Type 0} → List A → Option A
head? [] = none
head? (x ∷ xs) = some x

abbrev pub last? : {A : Type 0} → List A → Option A
last? [] = none
last? (x ∷ []) = some x
last? (x ∷ y ∷ xs) = last? (y ∷ xs)

abbrev pub cursor_of : {N C : Type 0} → Option (Edge N C) → Option C
cursor_of none = none
cursor_of (some e) = some e.cursor

-- `size < n` for an int and a length
abbrev pub is_below : ℤ → ℕ → Bool
is_below (pos size) n = ltb size n
is_below (negsuc size) n = true

abbrev pub exceeds : Option ℤ → ℕ → Bool
exceeds none n = false
exceeds (some size) n = is_below size n

-- `rows[:size]`: a negative end counts from the back.
abbrev pub sliced : {A : Type 0} → ℤ → List A → List A
sliced (pos size) rows = take size rows
sliced (negsuc size) rows = take (length rows - suc size) rows

abbrev pub cut : {A : Type 0} → Option ℤ → List A → List A
cut none rows = rows
cut (some size) rows = if is_below size (length rows) then sliced size rows else rows

module _ {Row N C : Type 0} (encode : Row → C) (decode : Row → N) where
  abbrev pub edge_of : Row → Edge N C
  edge_of row = record { node = decode row; cursor = encode row }

  -- `after_given` and `before_given` tell whether there are decoded values of that cursor.
  unfoldable pub build_connection :
      {S : Type 0} → Connection S → (String → Option ℤ) → Bool → Bool → List Row → ℕ → Page N C
  build_connection c values after_given before_given rows total =
      let size = page_size c values in
      let has_extra = exceeds size (length rows) in
      let page = if c.reversed then reverse (cut size rows) else cut size rows in
      let edges = map edge_of page in
      record {
        edges = edges;
        nodes = map (λ (e : Edge N C). e.node) edges;
        total_count = total;
        page_info = record {
          has_next_page = (if c.reversed then before_given else has_extra);
          has_previous_page = (if c.reversed then has_extra else after_given);
          start_cursor = cursor_of (head? edges);
          end_cursor = cursor_of (last? edges);
        };
      }
