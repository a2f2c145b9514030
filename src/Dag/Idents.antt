-- ===== src/Dag/Idents.antt =====
-- Laws of the numbering of `order_steps` (src/grafast_py/dag.py).
use grafast_py.Prelude.{
  ℕ, zero, suc, ◌+◌, ◌≤◌, ◌<◌, true, false, Option, none, some, List, [], ◌∷◌, ◌≡◌, arith, leb,
  ◌==◌, length, has, has-nil, has-cons, has_head, has_tail, has-cons_cases, Bool-cases,
  Option-cases, inl, inr, if◌then◌else◌,
}
use grafast_py.Dag.Defs.{Graph, never, find_free, set_ident, used_idents, assign, order_steps}
use grafast_py.Dag.Emit.{IsRanked}
use grafast_py.Dag.Order.{Orders, walk-Orders}

-- How many of the used numbers are at least `n`.
above : ℕ → List ℕ → ℕ
above n [] = 0
above n (u ∷ us) = if leb n u then suc (above n us) else above n us

above-le : (n : ℕ) (us : List ℕ) → above n us ≤ length us
unfolding above
above-le n [] = omega arith
above-le n (u ∷ us) = ground (arith, above-le n us)

above_mono : (n : ℕ) (us : List ℕ) → above (n + 1) us ≤ above n us
unfolding above
above_mono n [] = omega arith
above_mono n (u ∷ us) = ground (arith, above_mono n us)

above-lt : (n : ℕ) (us : List ℕ) → has us n ≡ true → above (n + 1) us < above n us
unfolding above
above-lt n [] h = absurd (cc (has-nil n))
above-lt n (u ∷ us) h = elim (has-cons_cases u us n h) [
  | inl e ↦ ground (arith, above_mono n us)
  | inr e ↦ ground (arith, above-lt n us e)
]

-- With fuel above the number of used numbers that are left, the search ends at a free one.
find_free_lem :
    (fuel : ℕ) (used : List ℕ) (n : ℕ)
    → above n used < fuel
    → has used (find_free fuel used n) ≡ false
unfolding find_free
find_free_lem zero used n h = absurd (omega arith)
find_free_lem (suc fuel) used n h = elim (Bool-cases (has used n)) [
  | inl e ↦ rw e (find_free_lem fuel used (n + 1) (omega (arith, above-lt n used e)))
  | inr e ↦ rw e e
]

fresh : (used : List ℕ) (n : ℕ) → has used (find_free (length used + 1) used n) ≡ false
fresh used n = find_free_lem (length used + 1) used n (omega (arith, above-le n used))

module _ (all : List ℕ) where
  -- Over the ordered steps: no two share an id, and `used` has each one.
  pub record Numbered (ident : ℕ → Option ℕ) (used : List ℕ) : Type 0 where
    pub apart :
        (x y i : ℕ)
        → has all x ≡ true
        → has all y ≡ true
        → ident x ≡ some i
        → ident y ≡ some i
        → x ≡ y
    pub listed : (x i : ℕ) → has all x ≡ true → ident x ≡ some i → has used i ≡ true

  set_ident-Numbered :
      (ident : ℕ → Option ℕ) (used : List ℕ) (a i : ℕ)
      → ident a ≡ none
      → has used i ≡ false
      → Numbered ident used
      → Numbered (set_ident ident a i) (i ∷ used)
  set_ident-Numbered ident used a i unset free v = record {
    apart = λ x y j mx my p q. elim (Bool-cases (a == x)) [
      | inl ex ↦ elim (Bool-cases (a == y)) [
        | inl ey ↦ ground arith
        | inr ey ↦ let taken = v.listed y j my (ground arith) in absurd (ground (arith, taken))
      ]
      | inr ex ↦ elim (Bool-cases (a == y)) [
        | inl ey ↦ let taken = v.listed x j mx (ground arith) in absurd (ground (arith, taken))
        | inr ey ↦ v.apart x y j mx my (ground arith) (ground arith)
      ]
    ];
    listed = λ x j mx p. elim (Bool-cases (a == x)) [
      | inl ex ↦ ground (arith, has-cons i used j)
      | inr ex ↦ has_tail i used j (v.listed x j mx (ground arith))
    ];
  }

  -- What the loop leaves: `rest` are the steps that it has still to pass.
  pub record Numbers (ident ident' : ℕ → Option ℕ) (rest : List ℕ) : Type 0 where
    pub apart' :
        (x y i : ℕ)
        → has all x ≡ true
        → has all y ≡ true
        → ident' x ≡ some i
        → ident' y ≡ some i
        → x ≡ y
    pub keeps : (x i : ℕ) → ident x ≡ some i → ident' x ≡ some i
    pub numbers : (x : ℕ) → has rest x ≡ true → (i : ℕ) × (ident' x ≡ some i)

  assign_lem :
      (rest : List ℕ) (ident : ℕ → Option ℕ) (used : List ℕ) (next : ℕ)
      → Numbered ident used
      → Numbers ident (assign rest ident used next) rest
  unfolding assign
  assign_lem [] ident used next v = record {
    apart' = v.apart;
    keeps = λ x i h. h;
    numbers = λ x h. absurd (cc (has-nil x));
  }
  assign_lem (a ∷ rest) ident used next v = elim (Option-cases (ident a)) [
    | inr (i, e) ↦
        let r = assign_lem rest ident used next v in
        rw (e, assign)
          (record {
            apart' = r.apart';
            keeps = r.keeps;
            numbers = λ x h. elim (has-cons_cases a rest x h) [
              | inl p ↦ (i, r.keeps x i (rw (← p) e))
              | inr p ↦ r.numbers x p
            ];
          })
    | inl e ↦
        let i = find_free (length used + 1) used next in
        let r =
          assign_lem rest (set_ident ident a i) (i ∷ used) i
            (set_ident-Numbered ident used a i e (fresh used next) v) in
        rw (e, assign)
          (record {
            apart' = r.apart';
            keeps = λ x j h. r.keeps x j (ground arith);
            numbers = λ x h. elim (has-cons_cases a rest x h) [
              | inl p ↦ (i, r.keeps x i (ground arith))
              | inr p ↦ r.numbers x p
            ];
          })
  ]

used_idents-has :
    (ident : ℕ → Option ℕ) (xs : List ℕ) (x i : ℕ)
    → has xs x ≡ true
    → ident x ≡ some i
    → has (used_idents ident xs) i ≡ true
unfolding used_idents
used_idents-has ident [] x i h e = absurd (cc (has-nil x))
used_idents-has ident (a ∷ xs) x i h e = elim (has-cons_cases a xs x h) [
  | inl p ↦ rw (p, e, used_idents) (has_head i _)
  | inr p ↦ elim (Option-cases (ident a)) [
    | inl q ↦ rw (q, used_idents) (used_idents-has ident xs x i p e)
    | inr (j, q) ↦ rw (q, used_idents) (has_tail j _ i (used_idents-has ident xs x i p e))
  ]
]

-- On a graph without cycles whose plan ids differ, and with fuel above the rank of the targets,
-- `order_steps` returns the steps that the targets reach, each once and behind its dependencies;
-- afterwards each of them has a plan id, no two the same, and an id that was set stays.
pub order_steps-Orders :
    (fuel : ℕ) (g : Graph) (targets : List ℕ) (rank : ℕ → ℕ)
    → IsRanked g.deps never rank
    → ((t : ℕ) → has targets t ≡ true → rank t < fuel)
    → ((x y i : ℕ) → g.ident x ≡ some i → g.ident y ≡ some i → x ≡ y)
    → (result : List ℕ) × (ident' : ℕ → Option ℕ) × (order_steps fuel g targets
        ≡ some (result, ident'))
      × Orders g.deps never targets result
      × Numbers result g.ident ident' result
unfolding order_steps
order_steps-Orders fuel g targets rank r enough differ =
    let (result, e, o) = walk-Orders fuel g targets rank r enough in
    let used = used_idents g.ident result in
    let start : Numbered result g.ident used = record {
      apart = λ x y i _ _ p q. differ x y i p q;
      listed = λ x i m p. used_idents-has g.ident result x i m p;
    } in
    (
      result,
      assign result g.ident used 0,
      rw (e, order_steps),
      o,
      assign_lem result result g.ident used 0 start,
    )
