-- ===== src/Pg/Connection/Walk.antt =====
-- Paging forward through a connection of src/grafast_py/pg/connection.py by its end cursors, with the
-- keyset predicate of src/grafast_py/pg/cursor.py.
use grafast_py.Prelude.{
  ℕ, zero, suc, ◌<◌, String, Bool, true, false, Option, none, some, List, [], ◌∷◌, ◌++◌, map, keep,
  take, drop, length, length-append, ltb, All, ◌≡◌, refl, subst, sym, ap, ◌∙◌, arith, Bool-cases,
  inl, inr, if◌then◌else◌,
}
use mathlib.Core.List.{append_assoc, append-nil, map-append}
use mathlib.Core.Path.{fun_ext}
use grafast_py.Values.{ℤ, pos}
use grafast_py.Pg.Connection.Defs.{Connection, Page, build_connection, last?, page_limit, page_size}
use grafast_py.Pg.Connection.Lists.{take-drop, take_whole}
use grafast_py.Pg.Connection.Windows.{
  encoded, IsWindow, build_connection-IsWindow, in_order, limited,
}
use grafast_py.Pg.Cursor.Database.{Database, row_before}
use grafast_py.Pg.Cursor.Defs.{Pred, keyset_where}
use grafast_py.Pg.Cursor.Keyset.{Carries, keeps, keyset_where-row_before}
use grafast_py.Pg.Cursor.Pages.{row_before-asymm}
use grafast_py.Pg.Ordering.{OrderTerm}

module _ {A : Type 0} (before : A → A → Bool) where
  -- Each row comes before those behind it.
  unfoldable pub IsOrdered : List A → Type 0
  IsOrdered [] = Unit
  IsOrdered (x ∷ xs) = All (λ y. before x y ≡ true) xs × IsOrdered xs

  module _ (asymm : (x y : A) → before x y ≡ true → before y x ≡ false) where
    keep_none_before :
        (l x : A) (suf pre : List A)
        → All (λ y. before x y ≡ true) (pre ++ l ∷ suf)
        → before l x ≡ false
    keep_none_before l x suf [] (h, rest) = asymm x l h
    keep_none_before l x suf (y ∷ pre) (h, rest) = keep_none_before l x suf pre rest

    keep_all : (l : A) (suf : List A) → All (λ y. before l y ≡ true) suf → keep (before l) suf ≡ suf
    keep_all l [] h = refl
    keep_all l (x ∷ suf) (h, rest) = rw (h, keep_all l suf rest) refl

    irreflexive : (l : A) → before l l ≡ false
    irreflexive l = elim (Bool-cases (before l l)) [ inl loop ↦ asymm l l loop | inr ok ↦ ok ]

    -- The rows behind a row of an ordered list are those that come after it.
    pub keep-suffix :
        (l : A) (suf pre : List A)
        → IsOrdered (pre ++ l ∷ suf)
        → keep (before l) (pre ++ l ∷ suf) ≡ suf
    unfolding IsOrdered
    keep-suffix l suf [] (h, rest) = rw (irreflexive l, keep_all l suf h) refl
    keep-suffix l suf (x ∷ pre) (h, rest) =
        rw (keep_none_before l x suf pre h, keep-suffix l suf pre rest) refl

module _ {A : Type 0} where
  last-split :
      (x : A) (xs : List A)
      → (front : List A) × (l : A) × (x ∷ xs ≡ front ++ l ∷ []) × (last? (x ∷ xs) ≡ some l)
  last-split x [] = ([], x, refl, refl)
  last-split x (y ∷ xs) =
      let (front, l, e, last) = last-split y xs in
      (x ∷ front, l, ap (λ (t : List A). x ∷ t) e, last)

  split_at :
      (size : ℕ) (suf : List A)
      → 0 < size
      → size < length suf
      → (front : List A) × (l : A) × (take size suf ≡ front ++ l ∷ [])
        × (last? (take size suf) ≡ some l)
  split_at zero suf h k = absurd (omega arith)
  split_at (suc n) [] h k = absurd (omega arith)
  split_at (suc n) (x ∷ suf) h k = last-split x (take n suf)

  length-drop_lt :
      (size : ℕ) (suf : List A) → 0 < size → size < length suf → length (drop size suf) < length suf
  length-drop_lt size suf h k =
      let e = ap length (take-drop size suf) in
      let both = length-append (take size suf) (drop size suf) in
      let some_taken : 0 < length (take size suf) = taken size suf h k in omega arith
    where
      taken : (size : ℕ) (suf : List A) → 0 < size → size < length suf → 0 < length (take size suf)
      taken zero suf h k = absurd (omega arith)
      taken (suc n) [] h k = absurd (omega arith)
      taken (suc n) (x ∷ suf) h k = omega arith

page_step :
    {N C : Type 0} (page : Page N C) (go_on : Option C → List N) {xs : List N} {b : Bool}
    {cursor : Option C}
    → page.nodes ≡ xs
    → page.page_info.has_next_page ≡ b
    → page.page_info.end_cursor ≡ cursor
    → page.nodes ++ (if page.page_info.has_next_page then go_on page.page_info.end_cursor else [])
      ≡ xs ++ (if b then go_on cursor else [])
page_step page go_on p q r = λ i. p i ++ (if q i then go_on (r i) else [])

module _ {X J V Row N C S : Type 0} (db : Database X J V Row) (types : String → Option String)
    (exprs : String → Option X) (t : OrderTerm) (ts : List OrderTerm) (encode : Row → C)
    (values_of : C → List (Option J)) (decode : Row → N) (c : Connection S)
    (sources : String → Option ℤ) (all : List Row) where
  abbrev rows_kept : Option (Pred X J) → List Row
  rows_kept none = []
  rows_kept (some p) = keep (λ r. keeps (db.eval p r)) all

  -- The rows of the parent that WHERE keeps for a cursor, in the requested order.
  abbrev pub rows_after : Option C → List Row
  rows_after none = all
  rows_after (some cursor) = rows_kept (keyset_where types exprs (t ∷ ts) (values_of cursor) true)

  abbrev given : Option C → Bool
  given none = false
  given (some cursor) = true

  abbrev pub page_after : Option C → Page N C
  page_after cursor =
      build_connection encode decode c sources (given cursor) false
        (limited (page_limit c sources) (in_order c.reversed (rows_after cursor))) (length all)

  -- The nodes of a client that asks for the page after the end cursor as long as there is a next page.
  pub page_through : ℕ → Option C → List N
  page_through zero cursor = []
  page_through (suc fuel) cursor =
      let page = page_after cursor in
      let rest = page_through fuel page.page_info.end_cursor in
      page.nodes ++ (if page.page_info.has_next_page then rest else [])

  module _ (carries : (r : Row) → Carries db types exprs 0 (t ∷ ts) (values_of (encode r)) r)
      (size : ℕ) (positive : 0 < size) (sized : page_size c sources ≡ some (pos size))
      (forward : c.reversed ≡ false) (ordered : IsOrdered (row_before db exprs (t ∷ ts)) all) where
    rows_after-encode :
        (l : Row) → rows_after (some (encode l)) ≡ keep (row_before db exprs (t ∷ ts) l) all
    rows_after-encode l =
        let (p, e, k) =
          keyset_where-row_before db types exprs t ts (values_of (encode l)) true l (carries l) in
        rw e (ap (λ (f : Row → Bool). keep f all) (fun_ext k))

    rows_behind :
        (l : Row) (suf pre : List Row) → all ≡ pre ++ l ∷ suf → rows_after (some (encode l)) ≡ suf
    rows_behind l suf pre e =
        rows_after-encode l
        ∙ ap (keep (row_before db exprs (t ∷ ts) l)) e
        ∙ keep-suffix (row_before db exprs (t ∷ ts)) (row_before-asymm db exprs (t ∷ ts)) l suf pre
            (subst (IsOrdered (row_before db exprs (t ∷ ts))) e ordered)

    page_through-suffix :
        (fuel : ℕ) (cursor : Option C) (suf pre : List Row)
        → rows_after cursor ≡ suf
        → all ≡ pre ++ suf
        → length suf < fuel
        → page_through fuel cursor ≡ map decode suf
    unfolding page_through
    page_through-suffix zero cursor suf pre rows split lt = absurd (omega arith)
    page_through-suffix (suc fuel) cursor suf pre rows split lt =
        let w : IsWindow encode decode c.reversed (pos size) (rows_after cursor) (given cursor)
            false (page_after cursor) =
          build_connection-IsWindow encode decode c sources (pos size) (rows_after cursor)
            (given cursor) false (length all) sized in
        let page = page_after cursor in
        let nodes : page.nodes ≡ map decode (take size suf) = w.nodes ∙ rw (forward, rows) refl in
        let next : page.page_info.has_next_page ≡ ltb size (length suf) =
          w.next ∙ rw (forward, rows) refl in
        let end : page.page_info.end_cursor ≡ encoded encode (last? (take size suf)) =
          w.end ∙ rw (forward, rows) refl in
        elim (Bool-cases (ltb size (length suf))) [
          | inr whole ↦
              page_step page (page_through fuel) nodes (next ∙ whole) end
              ∙ append-nil (map decode (take size suf))
              ∙ ap (map decode) (take_whole size suf (ground arith))
          | inl more ↦
              let further : size < length suf = ground arith in
              let (front, l, taken, last) = split_at size suf positive further in
              let rest = drop size suf in
              let here : all ≡ (pre ++ front) ++ l ∷ rest =
                split
                ∙ ap (λ (s : List Row). pre ++ s)
                    (sym (take-drop size suf)
                      ∙ ap (λ (s : List Row). s ++ rest) taken
                      ∙ append_assoc front (l ∷ []) rest)
                ∙ sym (append_assoc pre front (l ∷ rest)) in
              page_step page (page_through fuel) nodes (next ∙ more)
                (end ∙ ap (encoded encode) last)
              ∙ ap (λ (ns : List N). map decode (take size suf) ++ ns)
                  (page_through-suffix fuel (some (encode l)) rest ((pre ++ front) ++ l ∷ [])
                    (rows_behind l rest (pre ++ front) here)
                    (here ∙ sym (append_assoc (pre ++ front) (l ∷ []) rest))
                    (omega (arith, length-drop_lt size suf positive further)))
              ∙ sym (map-append decode (take size suf) rest)
              ∙ ap (map decode) (take-drop size suf)
        ]

    -- For a positive page size, rows in the order of the connection that no two of them share, and
    -- cursors that carry the values of their rows: a client that pages forward by the end cursors
    -- until there is no next page sees every row once and in order, and asks for no more pages
    -- than there are rows, and one.
    pub page_through-map : (fuel : ℕ) → length all < fuel → page_through fuel none ≡ map decode all
    page_through-map fuel enough = page_through-suffix fuel none all [] refl refl enough
