-- ===== src/Pg/Cursor/Codec/RoundTrip.antt =====
-- Laws of encoding and decoding a cursor (src/grafast_py/pg/cursor.py).
use grafast_py.Prelude.{
  suc, Bool, Bool-cases, inl, inr, String, false, Option, some, List, [], ◌∷◌, map, length, str_eq,
  eq_iff, eq_refl, ◌≡◌, refl, ap, sym, ◌∙◌, arith,
}
use grafast_py.Constraints.Defs.{Result, ok, err, value_error}
use grafast_py.Pg.Ordering.{Nulls, OrderTerm}
use grafast_py.Pg.Cursor.Defs.{effective_nulls}
use grafast_py.Pg.Cursor.Codec.{
  Cell, Native, array, canonical, Encoding, order_digest, encode_value, payload,
  encode_keyset_cursor, accept, decode_keyset_cursor,
}

module _ {T D O J S : Type 0} (lib : Encoding T D O J S) where
  -- The row has a cell in each column of the order.
  abbrev pub HasCells : List OrderTerm → (String → Option (Cell T D O)) → List (Cell T D O) → Type 0
  HasCells [] row [] = Unit
  HasCells [] row (v ∷ vs) = ⊥
  HasCells (t ∷ ts) row [] = ⊥
  HasCells (t ∷ ts) row (v ∷ vs) = (row t.column ≡ some v) × HasCells ts row vs

  abbrev pub encoded : Cell T D O → J
  encoded v = lib.native (encode_value lib v)

  payload_lem :
      (ts : List OrderTerm) (row : String → Option (Cell T D O)) (vs : List (Cell T D O))
      → HasCells ts row vs
      → (payload lib ts row ≡ ok (map encoded vs)) × (length (map encoded vs) ≡ length ts)
  unfolding payload
  payload_lem [] row [] h = (refl, refl)
  payload_lem [] row (v ∷ vs) h = absurd h
  payload_lem (t ∷ ts) row [] h = absurd h
  payload_lem (t ∷ ts) row (v ∷ vs) (e, h) =
      let (p, n) = payload_lem ts row vs h in (rw (e, payload) (rw p refl), ap suc n)

  accept_own :
      (ts us : List OrderTerm) (values : List J)
      → order_digest lib us ≡ order_digest lib ts
      → length values ≡ length us
      → accept lib us (some (array (lib.native (Native.str (order_digest lib ts)) ∷ values)))
        ≡ ok values
  accept_own ts us values d n =
      rw (lib.as_native-native, d, eq_refl (order_digest lib ts)) (ground (arith, n))

  -- A row with a cell in each column of the order is encoded, and the cursor is decoded under any
  -- order of as many terms with the same digest to the encoded cells.
  pub decode-encode :
      (ts us : List OrderTerm) (row : String → Option (Cell T D O)) (vs : List (Cell T D O))
      → HasCells ts row vs
      → order_digest lib us ≡ order_digest lib ts
      → length us ≡ length ts
      → (cursor : S) × (encode_keyset_cursor lib ts row ≡ ok cursor)
        × (decode_keyset_cursor lib cursor us ≡ ok (map encoded vs))
  unfolding encode_keyset_cursor decode_keyset_cursor
  decode-encode ts us row vs h d n =
      let (p, k) = payload_lem ts row vs h in
      let values = map encoded vs in
      (
        lib.dumps (lib.native (Native.str (order_digest lib ts)) ∷ values),
        rw (p, encode_keyset_cursor) refl,
        rw (lib.loads-dumps) (accept_own ts us values d (k ∙ sym n)),
      )

  -- The same columns in the same directions with NULLs at the same ends.
  abbrev pub IsSameOrder : List OrderTerm → List OrderTerm → Type 0
  IsSameOrder [] [] = Unit
  IsSameOrder [] (u ∷ us) = ⊥
  IsSameOrder (t ∷ ts) [] = ⊥
  IsSameOrder (t ∷ ts) (u ∷ us) =
      (t.column ≡ u.column)
      × (t.descending ≡ u.descending)
      × (effective_nulls t ≡ effective_nulls u)
      × IsSameOrder ts us

  -- The digests of two orders are equal only if what is hashed is.
  abbrev pub HasNoCollision : List OrderTerm → List OrderTerm → Type 0
  HasNoCollision ts us =
      order_digest lib ts ≡ order_digest lib us → map (canonical lib) ts ≡ map (canonical lib) us

  canonical-IsSameOrder :
      (ts us : List OrderTerm) → map (canonical lib) ts ≡ map (canonical lib) us → IsSameOrder ts us
  canonical-IsSameOrder [] [] e = tt
  canonical-IsSameOrder [] (u ∷ us) e = cc
  canonical-IsSameOrder (t ∷ ts) [] e = cc
  canonical-IsSameOrder (t ∷ ts) (u ∷ us) e =
      let first : canonical lib t ≡ canonical lib u = cc in
      let rest : map (canonical lib) ts ≡ map (canonical lib) us = cc in
      (
        ap (λ (x : String × Bool × Nulls). x.0) first,
        ap (λ (x : String × Bool × Nulls). x.1) first,
        ap (λ (x : String × Bool × Nulls). x.2) first,
        canonical-IsSameOrder ts us rest,
      )

  -- A cursor minted for a row under one order is rejected under an order that differs in a column, a
  -- direction, the place of NULLs or the number of terms, unless the digests of the two collide.
  pub decode_other_order :
      (ts us : List OrderTerm) (row : String → Option (Cell T D O)) (cursor : S)
      → encode_keyset_cursor lib ts row ≡ ok cursor
      → ¬ IsSameOrder ts us
      → HasNoCollision ts us
      → decode_keyset_cursor lib cursor us ≡ err value_error
  unfolding encode_keyset_cursor decode_keyset_cursor
  decode_other_order ts us row cursor h differ apart =
      let d : str_eq (order_digest lib ts) (order_digest lib us) ≡ false =
        elim (Bool-cases (str_eq (order_digest lib ts) (order_digest lib us))) [
          | inl same ↦ absurd (
              differ (
                canonical-IsSameOrder ts us
                  (apart ((eq_iff (order_digest lib ts) (order_digest lib us)).0 same))))
          | inr other ↦ other
        ] in
      go d (payload lib ts row) h
    where
      go :
          str_eq (order_digest lib ts) (order_digest lib us) ≡ false
          → (r : Result (List J))
          → ◌≡◌ {A = Result S}
              (elim r [
                | err e ↦ err e
                | ok vs ↦ ok (lib.dumps (lib.native (Native.str (order_digest lib ts)) ∷ vs))
              ])
              (ok cursor)
          → accept lib us (lib.loads cursor) ≡ err value_error
      go d (err e) k = absurd (cc)
      go d (ok vs) k =
          let minted : lib.dumps (lib.native (Native.str (order_digest lib ts)) ∷ vs) ≡ cursor =
            cc in
          rw (← minted, lib.loads-dumps, lib.as_native-native, d) refl
