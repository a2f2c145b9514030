-- ===== src/Dag/Emit.antt =====
-- Laws of one call of the inner `visit` of src/grafast_py/dag.py.
use grafast_py.Prelude.{
  ℕ, zero, suc, ◌≤◌, ◌<◌, Bool, true, false, Option, none, some, List, [], ◌∷◌, ◌≡◌, refl, ap, ◌≢◌,
  sym, arith, has, has-nil, has-cons, has_head, has_tail, has_init, has_last, has-cons_cases,
  has-snoc_cases, Bool-cases, inl, inr, ◌⊎◌,
}
use grafast_py.Dag.Defs.{Search, mark, emit, visit}
use grafast_py.Dag.Visit.{
  Leads, arrive, through, Placed-snoc, Inv, Grows, Grows-refl, Done, All-imp, FromAny, each_lem,
}

module _ (deps : ℕ → List ℕ) (stops : ℕ → Bool) (rank : ℕ → ℕ) where
  -- Every dependency ranks below its step: the graph has no cycle.
  abbrev pub IsRanked : Type 0
  IsRanked = (a d : ℕ) → has (deps a) d ≡ true → rank d < rank a

  Leads-rank : {a x : ℕ} → IsRanked → Leads deps stops a x → rank x ≤ rank a
  Leads-rank r (arrive e) = omega arith
  Leads-rank r (through {a = a} d e m l) = omega (arith, r a d m, Leads-rank r l)

  module _ (n a : ℕ) (s : Search) (below : rank a < n) (v : Inv deps stops rank n s)
      (new : has s.visited a ≡ false) where
    -- A step that is not the boundary, visited now or before, and not yet searched from.
    settled_before :
        (m x : ℕ)
        → m ≤ n
        → has (mark a s).visited x ≡ true
        → x ≢ a
        → rank x < m
        → stops x ≡ false
        → has s.ordered x ≡ true
    settled_before m x le e other l k = elim (has-cons_cases a s.visited x e) [
      | inl p ↦ absurd (other (sym p))
      | inr p ↦ v.settled x p (omega arith) k
    ]

    mark-Inv : Inv deps stops rank (rank a) (mark a s)
    mark-Inv = record {
      settled = λ x e l k.
          settled_before (rank a) x (omega arith) e
            (λ p. let q : rank x ≡ rank a = ap rank p in omega arith) l k;
      seen = λ x e. has_tail a s.visited x (v.seen x e);
      clean = v.clean;
      placed = v.placed;
    }

    -- The boundary: marked, and neither descended into nor emitted.
    Done-stop :
        stops a ≡ true → Done deps stops rank n (Leads deps stops a) s (some (mark a s)) (a ∷ [])
    Done-stop h = record {
      result = mark a s;
      returns = refl;
      inv = record {
        settled = λ x e l k. settled_before n x (omega arith) e (λ p. cc (ap stops p)) l k;
        seen = λ x e. has_tail a s.visited x (v.seen x e);
        clean = v.clean;
        placed = v.placed;
      };
      grows = record {
        keeps = λ x e. e;
        remembers = λ x e. has_tail a s.visited x e;
        emits = λ x e k m. elim (has-cons_cases a s.visited x e) [
          | inl p ↦ absurd (cc (ap stops p))
          | inr p ↦ absurd (cc)
        ];
        reaches = λ x e k. absurd (cc);
      };
      found = (rw h, tt);
    }

    module _ (r : IsRanked) (free : stops a ≡ false) (o : Option Search)
        (d : Done deps stops rank
          (rank a)
          (FromAny deps stops rank (deps a))
          (mark a s)
          o
          (deps a)) where
      -- No step depends on itself, at any distance.
      not_emitted : has d.result.ordered a ≡ false
      not_emitted = elim (Bool-cases (has d.result.ordered a)) [
        | inr e ↦ e
        | inl e ↦ elim (Bool-cases (has s.ordered a)) [
          | inl p ↦ absurd (cc (v.seen a p))
          | inr p ↦
              let (t, m, l) = d.grows.reaches a e p in
              absurd (omega (arith, r a t m, Leads-rank r l))
        ]
      ]

      marked_cases :
          (x : ℕ)
          → has d.result.visited x ≡ true
          → (has s.visited x ≡ true)
            ⊎ (x ≡ a)
            ⊎ (has s.visited x ≡ false) × (stops x ≡ false → has d.result.ordered x ≡ true)
      marked_cases x e = elim (Bool-cases (has (mark a s).visited x)) [
        | inl p ↦ elim (has-cons_cases a s.visited x p) [
          | inl here ↦ inr (inl (sym here))
          | inr old ↦ inl old
        ]
        | inr p ↦ inr (inr (ground (arith, has-cons a s.visited x), d.grows.emits x e p))
      ]

      emitted :
          (x : ℕ)
          → has d.result.visited x ≡ true
          → (has s.visited x ≡ true → has s.ordered x ≡ true)
          → stops x ≡ false
          → has (emit a d.result).ordered x ≡ true
      emitted x e old k = elim (marked_cases x e) [
        | inl p ↦ has_init d.result.ordered a x (d.grows.keeps x (old p))
        | inr (inl p) ↦ rw p (has_last d.result.ordered a)
        | inr (inr (_, p)) ↦ has_init d.result.ordered a x (p k)
      ]

      emit-Inv : Inv deps stops rank n (emit a d.result)
      emit-Inv = record {
        settled = λ x e l k. emitted x e (λ p. v.settled x p l k) k;
        seen = λ x e. elim (has-snoc_cases d.result.ordered a x e) [
          | inl p ↦ d.inv.seen x p
          | inr p ↦ rw (← p) (d.grows.remembers a (has_head a s.visited))
        ];
        clean = λ x e. elim (has-snoc_cases d.result.ordered a x e) [
          | inl p ↦ d.inv.clean x p
          | inr p ↦ rw (← p) free
        ];
        placed =
            Placed-snoc deps stops [] d.result.ordered a d.inv.placed (rw (has-nil a) not_emitted)
              (All-imp deps stops _ _ (deps a) (λ x e. rw (has-nil x) e) d.found);
      }

      emit-Grows : Grows deps stops rank (Leads deps stops a) s (emit a d.result)
      emit-Grows = record {
        keeps = λ x e. has_init d.result.ordered a x (d.grows.keeps x e);
        remembers = λ x e. d.grows.remembers x (has_tail a s.visited x e);
        emits = λ x e k m. emitted x e (λ p. absurd (cc)) m;
        reaches = λ x e k. elim (has-snoc_cases d.result.ordered a x e) [
          | inl p ↦ let (t, m, l) = d.grows.reaches x p k in through t free m l
          | inr p ↦ rw (← p) (arrive free)
        ];
      }

      Done-emit : Done deps stops rank n (Leads deps stops a) s (some (emit a d.result)) (a ∷ [])
      Done-emit = record {
        result = emit a d.result;
        returns = refl;
        inv = emit-Inv;
        grows = emit-Grows;
        found = (rw (free, has_last d.result.ordered a), tt);
      }

  -- A step that is visited is left alone.
  Done-visited :
      (n a : ℕ) (s : Search)
      → rank a < n
      → Inv deps stops rank n s
      → has s.visited a ≡ true
      → Done deps stops rank n (Leads deps stops a) s (some s) (a ∷ [])
  Done-visited n a s below v e = record {
    result = s;
    returns = refl;
    inv = v;
    grows = Grows-refl deps stops rank _ s;
    found =
        (elim (Bool-cases (stops a)) [ inl k ↦ rw k | inr k ↦ rw (k, v.settled a e below k) ], tt);
  }

  Done-searched :
      (n a : ℕ) (s : Search) (o : Option Search)
      → rank a < n
      → Inv deps stops rank n s
      → has s.visited a ≡ false
      → IsRanked
      → stops a ≡ false
      → Done deps stops rank (rank a) (FromAny deps stops rank (deps a)) (mark a s) o (deps a)
      → Done deps stops rank n
          (Leads deps stops a)
          s
          (elim o [ none ↦ none | some s' ↦ some (emit a s') ])
          (a ∷ [])
  Done-searched n a s o below v new r free d = rw d.returns (Done-emit n a s below v new r free o d)

  -- With fuel above the rank of the step the search returns, keeps the order, and emits the step
  -- or finds it in the boundary.
  pub visit_lem :
      (fuel n a : ℕ) (s : Search)
      → IsRanked
      → rank a < fuel
      → rank a < n
      → Inv deps stops rank n s
      → Done deps stops rank n (Leads deps stops a) s (visit deps stops fuel a s) (a ∷ [])
  unfolding visit
  visit_lem zero n a s r enough below v = absurd (omega arith)
  visit_lem (suc fuel) n a s r enough below v = elim (Bool-cases (has s.visited a)) [
    | inl e ↦ rw (e, visit) (Done-visited n a s below v e)
    | inr e ↦ elim (Bool-cases (stops a)) [
      | inl k ↦ rw (e, k, visit) (Done-stop n a s below v e k)
      | inr k ↦
          rw (e, k, visit)
            (Done-searched n a s _ below v e r k (
              each_lem deps stops rank (visit deps stops fuel) (rank a) (deps a) (mark a s)
                (λ t s' m v'. visit_lem fuel (rank a) t s' r (omega (arith, r a t m)) (r a t m) v')
                (mark-Inv n a s below v e)))
    ]
  ]
