-- ===== src/Pg/Connection/Windows.antt =====
-- What a page of a connection holds (src/grafast_py/pg/connection.py).
use grafast_py.Prelude.{
  ℕ, zero, suc, ◌≤◌, ◌+◌, ◌-◌, String, Bool, Option, none, some, List, [], ◌∷◌, map, take, drop,
  length, ltb, ◌≡◌, refl, sym, ap, ◌∙◌, arith, Bool-cases, inl, inr, if◌then◌else◌,
}
use mathlib.Core.List.{reverse}
use grafast_py.Values.{ℤ, pos, negsuc}
use grafast_py.Pg.Connection.Defs.{
  Connection, Edge, Page, build_connection, cursor_of, cut, edge_of, exceeds, head?, is_below,
  last?, page_limit, page_size,
}
use grafast_py.Pg.Connection.Lists.{
  length-reverse, ltb-length-take, reverse-take-reverse, take-take-suc, take_whole,
}

module _ {Row N C : Type 0} (encode : Row → C) (decode : Row → N) where
  nodes-edges :
      (rows : List Row)
      → map (λ (e : Edge N C). e.node) (map (edge_of encode decode) rows) ≡ map decode rows
  nodes-edges [] = refl
  nodes-edges (r ∷ rows) = ap (λ l. decode r ∷ l) (nodes-edges rows)

cut-take :
    {A : Type 0} (size : ℕ) (xs : List A)
    → cut (some (pos size)) (take (size + 1) xs) ≡ take size xs
cut-take size xs =
    let next : size + 1 ≡ suc size = omega arith in
    elim (Bool-cases (ltb size (length xs))) [
      | inl more ↦ rw next (rw (ltb-length-take size xs ∙ more) (take-take-suc size xs))
      | inr whole ↦
          let short : length xs ≤ size = ground arith in
          rw next (
            rw (ltb-length-take size xs ∙ whole)
              (take_whole (suc size) xs (omega arith) ∙ sym (take_whole size xs short)))
    ]

exceeds-take :
    {A : Type 0} (size : ℕ) (xs : List A)
    → exceeds (some (pos size)) (length (take (size + 1) xs)) ≡ ltb size (length xs)
exceeds-take size xs =
    let next : size + 1 ≡ suc size = omega arith in rw next (ltb-length-take size xs)

-- The rows that the statement gives for the page: the limit cuts the order of the page, whose rows
-- are counted from 1 (`__rn <= :page_limit`).
abbrev pub limited : {A : Type 0} → Option ℤ → List A → List A
limited none rows = rows
limited (some (pos limit)) rows = take limit rows
limited (some (negsuc limit)) rows = []

abbrev pub in_order : {A : Type 0} → Bool → List A → List A
in_order reversed all = if reversed then reverse all else all

-- The first rows of a forward page, the last ones of a reverse page, in the requested order.
-- A negative size asks for no row.
abbrev pub window : {A : Type 0} → Bool → ℤ → List A → List A
window reversed (pos size) all = if reversed then drop (length all - size) all else take size all
window reversed (negsuc size) all = []

abbrev pub encoded : {Row C : Type 0} → (Row → C) → Option Row → Option C
encoded encode none = none
encoded encode (some row) = some (encode row)

module _ {Row N C : Type 0} (encode : Row → C) (decode : Row → N) where
  start-encoded :
      (rows : List Row)
      → cursor_of (head? (map (edge_of encode decode) rows)) ≡ encoded encode (head? rows)
  start-encoded [] = refl
  start-encoded (r ∷ rows) = refl

  end-encoded :
      (rows : List Row)
      → cursor_of (last? (map (edge_of encode decode) rows)) ≡ encoded encode (last? rows)
  end-encoded [] = refl
  end-encoded (r ∷ []) = refl
  end-encoded (r ∷ t ∷ rows) = end-encoded (t ∷ rows)

-- What a connection says of the rows of one parent.
pub record IsWindow {Row N C : Type 0} (encode : Row → C) (decode : Row → N) (reversed : Bool)
    (size : ℤ) (all : List Row) (after_given before_given : Bool) (page : Page N C) : Type 0 where
  pub nodes : page.nodes ≡ map decode (window reversed size all)
  pub next :
      page.page_info.has_next_page ≡ (if reversed then before_given else is_below size (length all))
  pub previous :
      page.page_info.has_previous_page
      ≡ (if reversed then is_below size (length all) else after_given)
  pub start : page.page_info.start_cursor ≡ encoded encode (head? (window reversed size all))
  pub end : page.page_info.end_cursor ≡ encoded encode (last? (window reversed size all))

module _ {S Row N C : Type 0} (encode : Row → C) (decode : Row → N) (c : Connection S)
    (values : String → Option ℤ) (all : List Row) (after_given before_given : Bool)
    (total : ℕ) where
  abbrev pub page_of : Page N C
  page_of =
      build_connection encode decode c values after_given before_given
        (limited (page_limit c values) (in_order c.reversed all)) total

  window_lem :
      (size : ℕ)
      → page_size c values ≡ some (pos size)
      → IsWindow encode decode c.reversed (pos size) all after_given before_given page_of
  unfolding build_connection page_limit
  window_lem size sized = elim (Bool-cases c.reversed) [
    | inl reverse_page ↦
        let rows : reverse (cut (some (pos size)) (take (size + 1) (reverse all)))
            ≡ drop (length all - size) all =
          ap reverse (cut-take size (reverse all)) ∙ reverse-take-reverse size all in
        rw (sized, reverse_page)
          (record {
            nodes = nodes-edges encode decode _ ∙ ap (map decode) rows;
            next = refl;
            previous = exceeds-take size (reverse all) ∙ ap (ltb size) (length-reverse all);
            start =
                start-encoded encode decode _ ∙ ap (λ (l : List _). encoded encode (head? l)) rows;
            end =
                end-encoded encode decode
                  (reverse (cut (some (pos size)) (take (size + 1) (reverse all))))
                ∙ ap (λ (l : List _). encoded encode (last? l)) rows;
          })
    | inr forward_page ↦
        let rows = cut-take size all in
        rw (sized, forward_page)
          (record {
            nodes = nodes-edges encode decode _ ∙ ap (map decode) rows;
            next = exceeds-take size all;
            previous = refl;
            start =
                start-encoded encode decode _ ∙ ap (λ (l : List _). encoded encode (head? l)) rows;
            end =
                end-encoded encode decode (cut (some (pos size)) (take (size + 1) all))
                ∙ ap (λ (l : List _). encoded encode (last? l)) rows;
          })
  ]

  -- A negative page size, of which the statement keeps no row.
  negative_lem :
      (size : ℕ)
      → page_size c values ≡ some (negsuc size)
      → IsWindow encode decode c.reversed (negsuc size) all after_given before_given page_of
  unfolding build_connection page_limit
  negative_lem zero sized = elim (Bool-cases c.reversed) [
    | inl reverse_page ↦
        rw (sized, reverse_page)
          (record { nodes = refl; next = refl; previous = refl; start = refl; end = refl })
    | inr forward_page ↦
        rw (sized, forward_page)
          (record { nodes = refl; next = refl; previous = refl; start = refl; end = refl })
  ]
  negative_lem (suc size) sized =
      let nothing_left : 0 - suc (suc size) ≡ 0 = omega arith in
      elim (Bool-cases c.reversed) [
        | inl reverse_page ↦
            rw (sized, reverse_page, nothing_left)
              (record { nodes = refl; next = refl; previous = refl; start = refl; end = refl })
        | inr forward_page ↦
            rw (sized, forward_page, nothing_left)
              (record { nodes = refl; next = refl; previous = refl; start = refl; end = refl })
      ]

-- For a page size, the rows of a parent in the requested order, and the statement's rows cut by the
-- limit in the order of the page: the nodes are the first rows forward and the last rows in
-- reverse, in the requested order; the flag on the paging side says whether there are more rows than
-- the size, the other whether a cursor was given; and the cursors are those of the window's ends. With
-- a negative size the page is empty, without cursors, and the flag on the paging side is true whatever
-- rows there are.
pub build_connection-IsWindow :
    {S Row N C : Type 0} (encode : Row → C) (decode : Row → N) (c : Connection S)
    (values : String → Option ℤ) (size : ℤ) (all : List Row) (after_given before_given : Bool)
    (total : ℕ)
    → page_size c values ≡ some size
    → IsWindow encode decode c.reversed size all after_given before_given (
        build_connection encode decode c values after_given before_given
          (limited (page_limit c values) (in_order c.reversed all))
          total)
build_connection-IsWindow encode decode c values (pos size) all after_given before_given total
      sized =
    window_lem encode decode c values all after_given before_given total size sized
build_connection-IsWindow encode decode c values (negsuc size) all after_given before_given total
      sized =
    negative_lem encode decode c values all after_given before_given total size sized
