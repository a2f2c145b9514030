-- ===== src/Dag/Order.antt =====
-- Laws of `order_steps_within` and of the walk of `order_steps` (src/grafast_py/dag.py).
use grafast_py.Prelude.{
  ℕ, ◌<◌, Bool, true, false, ◌||◌, some, List, [], ◌∷◌, ◌≡◌, ◌↔◌, ap, arith, has, has-nil, has-cons,
  has-cons_cases, All-has, inl, inr,
}
use grafast_py.Dag.Defs.{
  Graph, each, visit, started, ordered_of, in_boundary, never, order_steps_within, walk,
}
use grafast_py.Dag.Visit.{Leads, arrive, through, Placed, Inv, each_lem}
use grafast_py.Dag.Emit.{IsRanked, visit_lem}

module _ (deps : ℕ → List ℕ) (stops : ℕ → Bool) where
  -- A step that was ordered has each dependency in the boundary or ordered.
  pub Placed-closed :
      (before xs : List ℕ) (x d : ℕ)
      → Placed deps stops before xs
      → has xs x ≡ true
      → has (deps x) d ≡ true
      → (stops d || (has before d || has xs d)) ≡ true
  Placed-closed before [] x d p m e = absurd (cc (has-nil x))
  Placed-closed before (y ∷ ys) x d (q, r, p) m e = elim (has-cons_cases y ys x m) [
    | inl here ↦
        let there =
          All-has (λ c. (stops c || has before c) ≡ true) (deps y) d r (rw (← here) at e) in
        ground (arith, there)
    | inr later ↦
        let there = Placed-closed (y ∷ before) ys x d p later e in
        ground (arith, there, has-cons y before d, has-cons y ys d)
  ]

  -- The result holds the steps reached from the targets, up to the boundary, each once and behind
  -- its dependencies.
  pub record Orders (targets result : List ℕ) : Type 0 where
    pub placed : Placed deps stops [] result
    pub clean : (x : ℕ) → has result x ≡ true → stops x ≡ false
    pub exact :
        (x : ℕ) → (has result x ≡ true) ↔ ((t : ℕ) × (has targets t ≡ true) × Leads deps stops t x)

  module _ (targets result : List ℕ) (placed : Placed deps stops [] result) where
    reached :
        {a x : ℕ} → Leads deps stops a x → (stops a || has result a) ≡ true → has result x ≡ true
    reached (arrive free) h = ground arith
    reached (through {a = a} d free m l) h =
        reached l (rw (has-nil d) at (Placed-closed [] result a d placed (ground arith) m))

  module _ (rank : ℕ → ℕ) where
    started-Inv : (n : ℕ) → Inv deps stops rank n started
    started-Inv n = record {
      settled = λ x e l k. absurd (cc (has-nil x));
      seen = λ x e. absurd (cc (has-nil x));
      clean = λ x e. absurd (cc (has-nil x));
      placed = tt;
    }

    search_lem :
        (fuel : ℕ) (targets : List ℕ)
        → IsRanked deps stops rank
        → ((t : ℕ) → has targets t ≡ true → rank t < fuel)
        → (result : List ℕ) × (ordered_of (each (visit deps stops fuel) targets started)
            ≡ some result)
          × Orders targets result
    search_lem fuel targets r enough =
        let d =
          each_lem deps stops rank (visit deps stops fuel) fuel targets started
            (λ t s m v. visit_lem deps stops rank fuel fuel t s r (enough t m) (enough t m) v)
            (started-Inv fuel) in
        (
          d.result.ordered,
          ap ordered_of d.returns,
          record {
            placed = d.inv.placed;
            clean = d.inv.clean;
            exact = λ x. (
              λ e. d.grows.reaches x e (has-nil x),
              λ (t, m, l).
                  reached targets d.result.ordered d.inv.placed l
                    (All-has (λ c. (stops c || has d.result.ordered c) ≡ true) targets t d.found m),
            );
          },
        )

abbrev pub at_boundary : Graph → List ℕ → ℕ → Bool
at_boundary g ids a = in_boundary ids (g.ident a)

-- On a graph without cycles and with fuel above the rank of the targets, the ordering within a
-- boundary returns exactly the steps that the targets reach without passing the boundary: each
-- once, none of the boundary, and each behind those of its dependencies that are not of it.
pub order_steps_within-Orders :
    (fuel : ℕ) (g : Graph) (targets boundary_ids : List ℕ) (rank : ℕ → ℕ)
    → IsRanked g.deps (at_boundary g boundary_ids) rank
    → ((t : ℕ) → has targets t ≡ true → rank t < fuel)
    → (result : List ℕ) × (order_steps_within fuel g targets boundary_ids ≡ some result)
      × Orders g.deps (at_boundary g boundary_ids) targets result
unfolding order_steps_within
order_steps_within-Orders fuel g targets boundary_ids rank r enough =
    search_lem g.deps (at_boundary g boundary_ids) rank fuel targets r enough

pub walk-Orders :
    (fuel : ℕ) (g : Graph) (targets : List ℕ) (rank : ℕ → ℕ)
    → IsRanked g.deps never rank
    → ((t : ℕ) → has targets t ≡ true → rank t < fuel)
    → (result : List ℕ) × (walk fuel g targets ≡ some result) × Orders g.deps never targets result
unfolding walk
walk-Orders fuel g targets rank r enough = search_lem g.deps never rank fuel targets r enough
