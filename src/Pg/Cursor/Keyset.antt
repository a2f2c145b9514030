-- ===== src/Pg/Cursor/Keyset.antt =====
-- Laws of one keyset predicate of src/grafast_py/pg/cursor.py.
use grafast_py.Prelude.{
  ℕ, ◌+◌, String, Bool, true, false, not, ◌&&◌, ◌||◌, Option, none, some, List, [], ◌∷◌, map, ◌≡◌,
  refl, ap, ◌∙◌, inl, inr, arith, Bool-cases, if◌then◌else◌,
}
use grafast_py.Pg.Ordering.{OrderTerm, Nulls, nulls_first, nulls_last}
use grafast_py.Pg.Cursor.Defs.{
  Expr, Bound, Pred, ne_self, or_of, and_of, not_distinct, Rung, is_none, expr_of, bind_value,
  effective_nulls, flip, flip_term, after_by, column_after, recursive_after, rung_of, rungs,
  keyset_where,
}
use grafast_py.Pg.Cursor.Database.{
  Truth, holds, fails, unknown, sql_or, sql_and, of_bool, compared, same_cells, null_test, Database,
  cell_before, at_term, row_before,
}

-- WHERE keeps the rows where the predicate is true, not those where it is unknown.
abbrev pub keeps : Truth → Bool
keeps holds = true
keeps fails = false
keeps unknown = false

keeps-or : (a b : Truth) → keeps (sql_or a b) ≡ (keeps a || keeps b)
keeps-or a b = ground arith

keeps-and : (a b : Truth) → keeps (sql_and a b) ≡ (keeps a && keeps b)
keeps-and a b = ground arith

keeps-of_bool : (b : Bool) → keeps (of_bool b) ≡ b
keeps-of_bool b = ground arith

-- Placements and directions reversed, the order is reversed.
cell_before-flip :
    {V : Type 0} (lt : V → V → Bool) (d : Bool) (p : Nulls) (a b : Option V)
    → cell_before lt (not d) (flip p) a b ≡ cell_before lt d p b a
unfolding flip
cell_before-flip lt d p a b = ground arith

effective_nulls-flip_term :
    (t : OrderTerm) → effective_nulls (flip_term t) ≡ flip (effective_nulls t)
unfolding effective_nulls flip_term
effective_nulls-flip_term t = refl

module _ {X J V Row : Type 0} (db : Database X J V Row) (exprs : String → Option X) where
  same_cells_sym : (a b : Option V) → same_cells db.same a b ≡ same_cells db.same b a
  same_cells_sym none none = refl
  same_cells_sym none (some b) = refl
  same_cells_sym (some a) none = refl
  same_cells_sym (some a) (some b) = elim (Bool-cases (db.same a b)) [
    | inl e ↦ let p : a ≡ b = (db.same_iff a b).0 e in rw p
    | inr e ↦ elim (Bool-cases (db.same b a)) [
      | inl f ↦ let p : b ≡ a = (db.same_iff b a).0 f in rw p
      | inr f ↦ cc
    ]
  ]

  -- The order of the flipped terms is the order reversed.
  row_before-flip :
      (ts : List OrderTerm) (r s : Row)
      → row_before db exprs (map flip_term ts) r s ≡ row_before db exprs ts s r
  unfolding row_before flip_term
  row_before-flip [] r s = refl
  row_before-flip (t ∷ ts) r s =
      rw
        (
          effective_nulls-flip_term t,
          same_cells_sym (at_term db exprs t r) (at_term db exprs t s),
          row_before-flip ts r s,
        )
        (ap
          (λ b.
            b
            || (same_cells db.same (at_term db exprs t s) (at_term db exprs t r)
                && row_before db exprs ts s r))
          (cell_before-flip db.lt t.descending (effective_nulls t) (at_term db exprs t r)
            (at_term db exprs t s)))

  -- The database reads the bind of a rung as the cursor row's cell.
  abbrev Fits : Row → OrderTerm → Rung X J → Type 0
  Fits c t r =
      (r.term ≡ t)
      × (r.expr ≡ expr_of exprs t.column)
      × (db.bound_cell r.bound ≡ at_term db exprs t c)
      × (is_none r.value ≡ null_test (at_term db exprs t c))

  -- `col != col` keeps no row.
  ne_self_fails : (e : Expr X) (row : Row) → keeps (db.eval (ne_self e) row) ≡ false
  ne_self_fails e row = rw db.eval_ne_self (by_cell (db.cell e row))
    where
      by_cell :
          (o : Option V) → keeps (compared (λ a b. if db.same a b then false else true) o o) ≡ false
      by_cell none = refl
      by_cell (some a) = rw ((db.same_iff a a).1 refl)

  after_by_lem :
      (d : Bool) (p : Nulls) (v : Option J) (e : Expr X) (b : Bound J) (c : Option V) (row : Row)
      → db.bound_cell b ≡ c
      → is_none v ≡ null_test c
      → keeps (db.eval (after_by d p (is_none v) e b) row) ≡ cell_before db.lt d p c (db.cell e row)
  unfolding after_by
  after_by_lem false nulls_last none e b c row h k = ground (arith, ne_self_fails e row)
  after_by_lem false nulls_last (some v) e b c row h k =
      rw db.eval_or (ground (arith, db.eval_is_null e row, db.eval_greater e b row))
  after_by_lem false nulls_first none e b c row h k = ground (arith, db.eval_is_not_null e row)
  after_by_lem false nulls_first (some v) e b c row h k =
      rw db.eval_and (ground (arith, db.eval_is_not_null e row, db.eval_greater e b row))
  after_by_lem true nulls_last none e b c row h k = ground (arith, ne_self_fails e row)
  after_by_lem true nulls_last (some v) e b c row h k =
      rw db.eval_or (ground (arith, db.eval_is_null e row, db.eval_less e b row))
  after_by_lem true nulls_first none e b c row h k = ground (arith, db.eval_is_not_null e row)
  after_by_lem true nulls_first (some v) e b c row h k =
      rw db.eval_and (ground (arith, db.eval_is_not_null e row, db.eval_less e b row))

  column_after_lem :
      (c row : Row) (t : OrderTerm) (r : Rung X J)
      → Fits c t r
      → keeps (db.eval (column_after r) row)
        ≡ cell_before db.lt t.descending
            (effective_nulls t)
            (at_term db exprs t c)
            (at_term db exprs t row)
  unfolding column_after
  column_after_lem c row t r (e, x, b, v) =
      rw (e, x)
        (after_by_lem t.descending (effective_nulls t) r.value (expr_of exprs t.column) r.bound
          (at_term db exprs t c) row b v)

  -- The rungs of the terms, in order.
  abbrev AllFit : Row → List OrderTerm → List (Rung X J) → Type 0
  AllFit c [] [] = Unit
  AllFit c (t ∷ ts) (r ∷ rs) = Fits c t r × AllFit c ts rs
  AllFit c _ _ = ⊥

  or_step :
      (c row : Row) (t : OrderTerm) (r : Rung X J) (p : Pred X J) (later : Bool)
      → Fits c t r
      → keeps (db.eval p row) ≡ later
      → keeps (db.eval (or_of (column_after r) (and_of (not_distinct r.expr r.bound) p)) row) ≡ (
          cell_before db.lt t.descending
            (effective_nulls t)
            (at_term db exprs t c)
            (at_term db exprs t row)
          || (same_cells db.same (at_term db exprs t c) (at_term db exprs t row) && later))
  or_step c row t r p later f h =
      let (e, x, b, v) = f in
      let same : keeps (db.eval (not_distinct r.expr r.bound) row)
          ≡ same_cells db.same (at_term db exprs t c) (at_term db exprs t row) =
        rw (db.eval_not_distinct, x, b, keeps-of_bool) (same_cells_sym _ _) in
      rw (db.eval_or, keeps-or, db.eval_and, keeps-and) (cc (column_after_lem c row t r f, same, h))

  recursive_after_lem :
      (c : Row) (t : OrderTerm) (ts : List OrderTerm) (rs : List (Rung X J))
      → AllFit c (t ∷ ts) rs
      → (p : Pred X J) × (recursive_after rs ≡ some p)
        × ((row : Row) → keeps (db.eval p row) ≡ row_before db exprs (t ∷ ts) c row)
  unfolding recursive_after row_before
  recursive_after_lem c t [] (r ∷ []) (f, _) =
      (column_after r, refl, λ row. ground (arith, column_after_lem c row t r f))
  recursive_after_lem c t (u ∷ ts) (r ∷ s ∷ rs) (f, fs) =
      let (p, e, h) = recursive_after_lem c u ts (s ∷ rs) fs in
      (
        or_of (column_after r) (and_of (not_distinct r.expr r.bound) p),
        rw (e, recursive_after),
        λ row. or_step c row t r p _ f (h row),
      )
  recursive_after_lem c t [] [] f = absurd f
  recursive_after_lem c t [] (r ∷ s ∷ rs) f = absurd f.1
  recursive_after_lem c t (u ∷ ts) [] f = absurd f
  recursive_after_lem c t (u ∷ ts) (r ∷ []) f = absurd f.1

module _ {X J V Row : Type 0} (db : Database X J V Row) (types : String → Option String)
    (exprs : String → Option X) where
  -- The cursor's values, bound and cast as the code binds them, are read by the database as the
  -- cells of the cursor's row; a value is None where the cell is NULL.
  abbrev pub Carries : ℕ → List OrderTerm → List (Option J) → Row → Type 0
  Carries i [] values c = Unit
  Carries i (t ∷ ts) [] c = ⊥
  Carries i (t ∷ ts) (v ∷ values) c =
      (db.bound_cell (bind_value v i (types t.column)) ≡ at_term db exprs t c)
      × (is_none v ≡ null_test (at_term db exprs t c))
      × Carries (i + 1) ts values c

  rungs_lem :
      (i : ℕ) (ts : List OrderTerm) (values : List (Option J)) (c : Row)
      → Carries i ts values c
      → (rs : List (Rung X J)) × (rungs types exprs i ts values ≡ some rs) × AllFit db exprs c ts rs
  unfolding rungs
  rungs_lem i [] values c h = ([], refl, tt)
  rungs_lem i (t ∷ ts) [] c h = absurd h
  rungs_lem i (t ∷ ts) (v ∷ values) c (b, n, h) =
      let (rs, e, fs) = rungs_lem (i + 1) ts values c h in
      (rung_of types exprs t v i ∷ rs, rw (e, rungs), ((refl, refl, b, n), fs))

  Carries-flip :
      (i : ℕ) (ts : List OrderTerm) (values : List (Option J)) (c : Row)
      → Carries i ts values c
      → Carries i (map flip_term ts) values c
  unfolding flip_term
  Carries-flip i [] values c h = tt
  Carries-flip i (t ∷ ts) [] c h = h
  Carries-flip i (t ∷ ts) (v ∷ values) c (b, n, h) = (b, n, Carries-flip (i + 1) ts values c h)

  -- For an order with a term and a cursor that carries a row's values: the predicate is built, and
  -- WHERE keeps exactly the rows that the order puts strictly after the cursor's row, or for
  -- `after=False` strictly before it; NULLs in either are placed as the order places them.
  pub keyset_where-row_before :
      (t : OrderTerm) (ts : List OrderTerm) (values : List (Option J)) (after : Bool) (c : Row)
      → Carries 0 (t ∷ ts) values c
      → (p : Pred X J) × (keyset_where types exprs (t ∷ ts) values after ≡ some p)
        × ((row : Row)
            → keeps (db.eval p row) ≡ (
                if after
                then row_before db exprs (t ∷ ts) c row
                else row_before db exprs (t ∷ ts) row c))
  unfolding keyset_where
  keyset_where-row_before t ts values true c h =
      let (rs, e, fs) = rungs_lem 0 (t ∷ ts) values c h in
      let (p, q, k) = recursive_after_lem db exprs c t ts rs fs in (p, rw e q, k)
  keyset_where-row_before t ts values false c h =
      let (rs, e, fs) =
        rungs_lem 0 (map flip_term (t ∷ ts)) values c (Carries-flip 0 (t ∷ ts) values c h) in
      let (p, q, k) = recursive_after_lem db exprs c (flip_term t) (map flip_term ts) rs fs in
      (p, rw e q, λ row. k row ∙ row_before-flip db exprs (t ∷ ts) c row)
