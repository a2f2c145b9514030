-- ===== src/Pg/Cursor/Pages.antt =====
-- Laws of the forward and the backward keyset predicate of src/grafast_py/pg/cursor.py.
use grafast_py.Prelude.{
  String, Bool, true, false, ◌&&◌, ◌||◌, Option, none, some, List, [], ◌∷◌, ◌++◌, map, ◌≡◌, refl,
  inl, inr, arith, Bool-cases, str_eq, eq_iff, eq_refl,
}
use grafast_py.Pg.Ordering.{
  OrderTerm, Nulls, nulls_first, nulls_last, Entry, as_term, ascending, orders_by, or_floor,
  with_key, normalize_order,
}
use grafast_py.Pg.Cursor.Defs.{Pred, expr_of, effective_nulls, keyset_where}
use grafast_py.Pg.Cursor.Database.{Database, same_cells, cell_before, at_term, row_before}
use grafast_py.Pg.Cursor.Keyset.{keeps, Carries, keyset_where-row_before}

orders_by-append :
    (k : String) (ts us : List OrderTerm)
    → orders_by k (ts ++ us) ≡ (orders_by k ts || orders_by k us)
orders_by-append k [] us = refl
orders_by-append k (t ∷ ts) us = ground (arith, orders_by-append k ts us)

or_floor-orders_by :
    (k : String) (ts : List OrderTerm) → orders_by k ts ≡ true → orders_by k (or_floor k ts) ≡ true
or_floor-orders_by k [] h = absurd (cc)
or_floor-orders_by k (t ∷ ts) h = h

or_floor-front :
    (k : String) (ts : List OrderTerm)
    → (u : OrderTerm) × (us : List OrderTerm) × (or_floor k ts ≡ u ∷ us)
or_floor-front k [] = (ascending k, [], refl)
or_floor-front k (t ∷ ts) = (t, ts, refl)

with_key-orders_by : (k : String) (ts : List OrderTerm) → orders_by k (with_key k false ts) ≡ true
with_key-orders_by k ts = elim (Bool-cases (orders_by k ts)) [
  | inl e ↦ rw e e
  | inr e ↦ rw e (ground (arith, orders_by-append k ts (ascending k ∷ []), eq_refl k))
]

-- Unless the order is declared unique, the normal form orders by the key.
pub normalize_order-orders_by :
    (order_by : List Entry) (key : String)
    → orders_by key (normalize_order order_by key false) ≡ true
unfolding normalize_order
normalize_order-orders_by order_by key =
    or_floor-orders_by key _ (with_key-orders_by key (map as_term order_by))

-- An order is never empty.
pub normalize_order-front :
    (order_by : List Entry) (key : String) (unique : Bool)
    → (t : OrderTerm) × (ts : List OrderTerm) × (normalize_order order_by key unique ≡ t ∷ ts)
unfolding normalize_order
normalize_order-front order_by key unique = or_floor-front key _

module _ {X J V Row : Type 0} (db : Database X J V Row) (exprs : String → Option X) where
  same_refl : (a : V) → db.same a a ≡ true
  same_refl a = (db.same_iff a a).1 refl

  -- Two cells are the same, or one comes before the other; never both.
  cell_total :
      (d : Bool) (p : Nulls) (a b : Option V)
      → cell_before db.lt d p a b ≡ false
      → cell_before db.lt d p b a ≡ false
      → same_cells db.same a b ≡ true
  cell_total d p none none h k = refl
  cell_total d p none (some b) h k = absurd (ground arith)
  cell_total d p (some a) none h k = absurd (ground arith)
  cell_total false p (some a) (some b) h k = (db.same_iff a b).1 (db.lt_total a b h k)
  cell_total true p (some a) (some b) h k = (db.same_iff a b).1 (db.lt_total a b k h)

  lt_not_same :
      (a b : V)
      → db.lt a b ≡ true
      → (db.same a b ≡ false) × (db.same b a ≡ false) × (db.lt b a ≡ false)
  lt_not_same a b h = (
    differ a b h,
    differ',
    elim (Bool-cases (db.lt b a)) [
      | inl e ↦ absurd (cc (db.lt_irrefl a, db.lt_trans a b a h e))
      | inr e ↦ e
    ],
  )
    where
      differ : (c d : V) → db.lt c d ≡ true → db.same c d ≡ false
      differ c d p = elim (Bool-cases (db.same c d)) [
        | inl e ↦ absurd (cc ((db.same_iff c d).0 e, db.lt_irrefl c))
        | inr e ↦ e
      ]

      differ' : db.same b a ≡ false
      differ' = elim (Bool-cases (db.same b a)) [
        | inl e ↦ absurd (cc ((db.same_iff b a).0 e, db.lt_irrefl a))
        | inr e ↦ e
      ]

  cell_strict :
      (d : Bool) (p : Nulls) (a b : Option V)
      → cell_before db.lt d p a b ≡ true
      → (cell_before db.lt d p b a ≡ false) × (same_cells db.same b a ≡ false)
  cell_strict d p none none h = absurd (cc)
  cell_strict d nulls_first none (some b) h = (refl, refl)
  cell_strict d nulls_last none (some b) h = absurd (cc)
  cell_strict d nulls_first (some a) none h = absurd (cc)
  cell_strict d nulls_last (some a) none h = (refl, refl)
  cell_strict false p (some a) (some b) h = let (e, f, g) = lt_not_same a b h in (g, f)
  cell_strict true p (some a) (some b) h = let (e, f, g) = lt_not_same b a h in (g, e)

  asymm_step :
      (t : OrderTerm) (r s : Row) (later later' : Bool)
      → (later ≡ true → later' ≡ false)
      → (cell_before db.lt t.descending
            (effective_nulls t)
            (at_term db exprs t r)
            (at_term db exprs t s)
          || (same_cells db.same (at_term db exprs t r) (at_term db exprs t s) && later))
        ≡ true
      → (cell_before db.lt t.descending
            (effective_nulls t)
            (at_term db exprs t s)
            (at_term db exprs t r)
          || (same_cells db.same (at_term db exprs t s) (at_term db exprs t r) && later'))
        ≡ false
  asymm_step t r s later later' ih h =
      let strict =
        cell_strict t.descending (effective_nulls t) (at_term db exprs t r)
          (at_term db exprs t s) in
      let strict' =
        cell_strict t.descending (effective_nulls t) (at_term db exprs t s)
          (at_term db exprs t r) in
      elim (Bool-cases (
        cell_before db.lt t.descending (effective_nulls t) (at_term db exprs t r)
          (at_term db exprs t s))) [
            | inl e ↦ let (f, g) = strict e in ground (arith, f, g)
            | inr e ↦
                elim (Bool-cases (
                  cell_before db.lt t.descending (effective_nulls t) (at_term db exprs t s)
                    (at_term db exprs t r))) [
                      | inl f ↦ let (g, k) = strict' f in absurd (ground (arith, g, k))
                      | inr f ↦ ground (arith, ih (ground arith))
                    ]
          ]

  pub row_before-asymm :
      (ts : List OrderTerm) (r s : Row)
      → row_before db exprs ts r s ≡ true
      → row_before db exprs ts s r ≡ false
  unfolding row_before
  row_before-asymm [] r s h = refl
  row_before-asymm (t ∷ ts) r s h = asymm_step t r s _ _ (row_before-asymm ts r s) h

  -- Rows that the order does not tell apart agree at each of its columns.
  row_before-total :
      (ts : List OrderTerm) (k : String) (r s : Row)
      → orders_by k ts ≡ true
      → row_before db exprs ts r s ≡ false
      → row_before db exprs ts s r ≡ false
      → same_cells db.same (db.cell (expr_of exprs k) r) (db.cell (expr_of exprs k) s) ≡ true
  unfolding row_before
  row_before-total [] k r s m h g = absurd (cc)
  row_before-total (t ∷ ts) k r s m h g =
      let same =
        cell_total t.descending (effective_nulls t) (at_term db exprs t r) (at_term db exprs t s)
          (ground arith) (ground arith) in
      let same' =
        cell_total t.descending (effective_nulls t) (at_term db exprs t s) (at_term db exprs t r)
          (ground arith) (ground arith) in
      elim (Bool-cases (str_eq t.column k)) [
        | inl e ↦ let p : t.column ≡ k = (eq_iff t.column k).0 e in rw (← p) same
        | inr e ↦
            row_before-total ts k r s (ground arith) (ground (arith, same)) (ground (arith, same'))
      ]

module _ {X J V Row : Type 0} (db : Database X J V Row) (types : String → Option String)
    (exprs : String → Option X) where
  -- The forward and the backward predicate of one cursor, and what they keep together.
  pub record Splits (key : String) (ts : List OrderTerm) (values : List (Option J)) (c : Row)
      : Type 0 where
    pub after : Pred X J
    pub before : Pred X J
    pub built_after : keyset_where types exprs ts values true ≡ some after
    pub built_before : keyset_where types exprs ts values false ≡ some before
    pub apart : (row : Row) → (keeps (db.eval after row) && keeps (db.eval before row)) ≡ false
    pub covers :
        (row : Row)
        → (same_cells db.same (db.cell (expr_of exprs key) c) (db.cell (expr_of exprs key) row)
            || (keeps (db.eval after row) || keeps (db.eval before row)))
          ≡ true

  splits :
      (key : String) (t : OrderTerm) (ts : List OrderTerm) (values : List (Option J)) (c : Row)
      → orders_by key (t ∷ ts) ≡ true
      → Carries db types exprs 0 (t ∷ ts) values c
      → Splits key (t ∷ ts) values c
  splits key t ts values c m h =
      let (p, built_p, after) = keyset_where-row_before db types exprs t ts values true c h in
      let (q, built_q, before) = keyset_where-row_before db types exprs t ts values false c h in
      record {
        after = p;
        before = q;
        built_after = built_p;
        built_before = built_q;
        apart = λ row. elim (Bool-cases (row_before db exprs (t ∷ ts) c row)) [
          | inl f ↦ rw (after row, before row, f, row_before-asymm db exprs (t ∷ ts) c row f) refl
          | inr f ↦ rw (after row, f) refl
        ];
        covers = λ row. elim (Bool-cases (row_before db exprs (t ∷ ts) c row)) [
          | inl f ↦ ground (arith, after row, f)
          | inr f ↦ elim (Bool-cases (row_before db exprs (t ∷ ts) row c)) [
            | inl g ↦ ground (arith, before row, g)
            | inr g ↦ ground (arith, row_before-total db exprs (t ∷ ts) key c row m f g)
          ]
        ];
      }

  -- In a normalised order that is not declared unique, for a cursor that carries a row's values:
  -- both predicates are built, no row is kept by both, and every row whose primary key differs
  -- from the cursor's row is kept by one.
  pub keyset_where-Splits :
      (order_by : List Entry) (key : String) (values : List (Option J)) (c : Row)
      → Carries db types exprs 0 (normalize_order order_by key false) values c
      → Splits key (normalize_order order_by key false) values c
  keyset_where-Splits order_by key values c h =
      let (t, ts, e) = normalize_order-front order_by key false in
      rw e (splits key t ts values c (rw e at (normalize_order-orders_by order_by key)) (rw e at h))
