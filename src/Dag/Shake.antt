-- ===== src/Dag/Shake.antt =====
-- Laws of `tree_shake` (src/grafast_py/dag.py).
use grafast_py.Prelude.{
  has-keep, ℕ, zero, suc, ◌<◌, Bool, true, false, ◌&&◌, ◌||◌, not, Option, none, some, List, [],
  ◌∷◌, ◌++◌, keep, has, has-append, has-cons, has-nil, ◌==◌, ◌≡◌, ◌⊎◌, ◌↔◌, refl, ap, ◌∙◌, arith,
  Bool-cases, inl, inr,
}
use grafast_py.Dag.Defs.{Graph, never, order_steps, walk}
use grafast_py.Dag.Emit.{IsRanked}
use grafast_py.Dag.Visit.{Leads, arrive}
use grafast_py.Dag.Order.{Orders, Placed-closed, walk-Orders}
use grafast_py.Dag.Plan.{
  Edges, Plan, graph_of, ids_of, prune, pruned, shake_from, shaken, side_effecting, tree_shake,
}
use grafast_py.Dag.Inverse.{IsInverse, edge_in, has_edge, is_dep}

has_edge-pruned :
    (kept : List ℕ) (edges : Edges) (s i : ℕ)
    → has_edge (keep (λ e. has kept e.0) edges) s i ≡ (has_edge edges s i && has kept s)
has_edge-pruned kept [] s i = refl
has_edge-pruned kept ((t, j) ∷ edges) s i = elim (Bool-cases (t == s)) [
  | inl here ↦
      let same : t ≡ s = ground arith in rw same (ground (arith, has_edge-pruned kept edges s i))
  | inr there ↦ ground (arith, has_edge-pruned kept edges s i)
]

edge_in-pruned :
    (kept : List ℕ) (o : Option Edges) (s i : ℕ)
    → edge_in (pruned kept o) s i ≡ (edge_in o s i && has kept s)
edge_in-pruned kept none s i = refl
edge_in-pruned kept (some edges) s i = has_edge-pruned kept edges s i

is_dep-has : (ds : List ℕ) (i d : ℕ) → is_dep ds i d ≡ true → has ds d ≡ true
is_dep-has [] i d h = cc
is_dep-has (x ∷ ds) zero d h = ground (arith, has-cons x ds d)
is_dep-has (x ∷ ds) (suc i) d h = ground (arith, is_dep-has ds i d h, has-cons x ds d)

module _ (reachable forced writes : List ℕ) (p : Plan) where
  edge_in-prune :
      (s i d : ℕ)
      → edge_in (prune (reachable ++ forced) p.dependents_index d) s i ≡ (
          has (reachable ++ forced) d
          && (edge_in (p.dependents_index d) s i && has (reachable ++ forced) s))
  edge_in-prune s i d = elim (Bool-cases (has (reachable ++ forced) d)) [
    | inl inside ↦ rw inside (edge_in-pruned (reachable ++ forced) (p.dependents_index d) s i)
    | inr outside ↦ rw outside refl
  ]

  shaken-IsInverse :
      IsInverse p
      → ((s i d : ℕ)
          → has (reachable ++ forced) s ≡ true
          → is_dep (p.dependencies s) i d ≡ true
          → has (reachable ++ forced) d ≡ true)
      → IsInverse (shaken reachable forced writes p).0
  shaken-IsInverse inv closed = record {
    inverse = λ s i d.
        rw (edge_in-prune s i d, has-keep (has (reachable ++ forced)) p.steps s, inv.inverse s i d)
          (ground (arith, closed s i d));
  }

ids_of-order_steps :
    (fuel : ℕ) (g : Graph) (targets ordered : List ℕ)
    → walk fuel g targets ≡ some ordered
    → ids_of (order_steps fuel g targets) ≡ some ordered
unfolding order_steps
ids_of-order_steps fuel g targets ordered e = rw (e, order_steps) refl

-- A step that these targets need, on any chain of dependencies.
abbrev pub Needs : Plan → List ℕ → ℕ → Type 0
Needs p targets s = (t : ℕ) × (has targets t ≡ true) × Leads p.dependencies never t s

-- The plan after the shake and the writes that it returns.
pub record IsShaken (consumption_roots : List ℕ) (dedupable : ℕ → Bool) (p : Plan)
    (result : Plan × List ℕ) : Type 0 where
  pub inverse : IsInverse result.0
  pub kept :
      (s : ℕ)
      → (has result.0.steps s ≡ true) ↔ (
          (has p.steps s ≡ true)
          × (Needs p consumption_roots s ⊎ Needs p (side_effecting dedupable p) s))
  pub writes : (s : ℕ) → has p.steps s ≡ true → dedupable s ≡ false → has result.0.steps s ≡ true
  pub orphans :
      (s : ℕ)
      → (has result.1 s ≡ true)
        ↔ (((has p.steps s ≡ true) × (dedupable s ≡ false)) × ¬ Needs p consumption_roots s)

module _ (p : Plan) (targets result : List ℕ) (o : Orders p.dependencies never targets result) where
  -- What an ordering reaches has its dependencies reached.
  closed_under :
      (s i d : ℕ) → has result s ≡ true → is_dep (p.dependencies s) i d ≡ true → has result d ≡ true
  closed_under s i d m e = rw (has-nil d) at (
      Placed-closed p.dependencies never [] result s d o.placed m
        (is_dep-has (p.dependencies s) i d e))

-- On a plan without cycles whose reverse edges are the inverse of its live steps' dependencies, and
-- with fuel above the rank of the roots and the steps, the shake returns; its reverse edges are again
-- that inverse; exactly the steps stay that a consumption root or a side-effecting step needs, so
-- each side-effecting step stays; and exactly the side-effecting steps are returned that no
-- consumption root needs.
pub tree_shake-IsShaken :
    (fuel : ℕ) (consumption_roots : List ℕ) (dedupable : ℕ → Bool) (p : Plan) (rank : ℕ → ℕ)
    → IsRanked p.dependencies never rank
    → ((t : ℕ) → has consumption_roots t ≡ true → rank t < fuel)
    → ((t : ℕ) → has p.steps t ≡ true → rank t < fuel)
    → IsInverse p
    → (result : Plan × List ℕ) × (tree_shake fuel consumption_roots dedupable p ≡ some result)
      × IsShaken consumption_roots dedupable p result
unfolding tree_shake
tree_shake-IsShaken fuel consumption_roots dedupable p rank ranked roots_below steps_below inv =
    let writes = side_effecting dedupable p in
    let write : (s : ℕ) → has writes s ≡ (has p.steps s && not (dedupable s)) =
      λ s. has-keep (λ x. not (dedupable x)) p.steps s in
    let (reachable, e, o) =
      walk-Orders fuel (graph_of p) consumption_roots rank ranked roots_below in
    let (forced, f, q) =
      walk-Orders fuel (graph_of p) writes rank ranked
        (λ t m. steps_below t (ground (arith, write t))) in
    let either : (s : ℕ) → has (reachable ++ forced) s ≡ (has reachable s || has forced s) =
      λ s. has-append reachable forced s in
    let closed : (s i d : ℕ)
        → has (reachable ++ forced) s ≡ true
        → is_dep (p.dependencies s) i d ≡ true
        → has (reachable ++ forced) d ≡ true =
      λ s i d m h. ground (
        arith,
        either s,
        either d,
        closed_under p consumption_roots reachable o s i d,
        closed_under p writes forced q s i d,
      ) in
    let stays : (s : ℕ)
        → has (keep (has (reachable ++ forced)) p.steps) s
          ≡ (has p.steps s && has (reachable ++ forced) s) =
      λ s. has-keep (has (reachable ++ forced)) p.steps s in
    let forced_write : (s : ℕ) → has p.steps s ≡ true → dedupable s ≡ false → has forced s ≡ true =
      λ s m d. (q.exact s).1 (s, ground (arith, write s), arrive refl) in
    (
      shaken reachable forced writes p,
      ap (λ x. shake_from x (ids_of (order_steps fuel (graph_of p) writes)) writes p)
            (ids_of-order_steps fuel (graph_of p) consumption_roots reachable e)
          ∙ ap (λ x. shake_from (some reachable) x writes p)
              (ids_of-order_steps fuel (graph_of p) writes forced f),
      record {
        inverse = shaken-IsInverse reachable forced writes p inv closed;
        kept = λ s. (
          λ m. (
            ground (arith, stays s),
            elim (Bool-cases (has reachable s)) [
              | inl r ↦ inl ((o.exact s).0 r)
              | inr n ↦ inr ((q.exact s).0 (ground (arith, stays s, either s)))
            ],
          ),
          λ (m, needs). elim needs [
            | inl r ↦ let there = (o.exact s).1 r in ground (arith, stays s, either s)
            | inr r ↦ let there = (q.exact s).1 r in ground (arith, stays s, either s)
          ],
        );
        writes = λ s m d. ground (arith, stays s, either s, forced_write s m d);
        orphans = λ s.
            let orphan = has-keep (λ x. not (has reachable x)) writes s in
            (
              λ m. (
                (ground (arith, orphan, write s), ground (arith, orphan, write s)),
                λ needs. let there = (o.exact s).1 needs in absurd (ground (arith, orphan)),
              ),
              λ ((m, d), unneeded). elim (Bool-cases (has reachable s)) [
                | inl r ↦ absurd (unneeded ((o.exact s).0 r))
                | inr n ↦ ground (arith, orphan, write s)
              ],
            );
      },
    )
