-- ===== src/Dag/Rewrites.antt =====
-- The rewrites of a plan (src/grafast_py/dag.py) keep its reverse edges the inverse of the live steps'
-- dependencies.
use grafast_py.Prelude.{
  ℕ, zero, suc, Bool, true, false, ◌&&◌, ◌||◌, not, Option, List, [], ◌∷◌, has, ◌==◌, if◌then◌else◌,
  ◌≡◌, refl, subst, ◌∙◌, arith, Bool-cases, inl, inr,
}
use grafast_py.Dag.Plan.{Edges, Plan, eradicated, move_edges, or_empty, repoint}
use grafast_py.Dag.Inverse.{
  AllThere, IsInverse, dep_from-zero, edge_in, edge_in-or_empty, edge_in-unlink, has_edge,
  has_edge-append, is_dep, is_dep-repoint, is_live, is_there-is_dep,
}

is_dep_once : (ds : List ℕ) (i c d : ℕ) → is_dep ds i c ≡ true → is_dep ds i d ≡ (c == d)
is_dep_once [] i c d h = cc
is_dep_once (x ∷ ds) zero c d h = ground (arith, h)
is_dep_once (x ∷ ds) (suc i) c d h = is_dep_once ds i c d h

edge_in-move_edges :
    (dead survivor : ℕ) (index : ℕ → Option Edges) (d s i : ℕ)
    → (dead == survivor) ≡ false
    → edge_in (move_edges dead survivor index d) s i ≡ (
        if survivor == d
        then (edge_in (index d) s i || edge_in (index dead) s i)
        else (not (dead == d) && edge_in (index d) s i))
edge_in-move_edges dead survivor index d s i ne = elim (Bool-cases (survivor == d)) [
  | inl here ↦
      let same : survivor ≡ d = ground arith in
      let apart : (dead == d) ≡ false = ground arith in
      rw
        (
          here,
          same,
          apart,
          has_edge-append (or_empty (index d)) (or_empty (index dead)) s i,
          edge_in-or_empty (index d) s i,
          edge_in-or_empty (index dead) s i,
        )
        refl
  | inr there ↦ elim (Bool-cases (dead == d)) [
    | inl gone ↦ rw (there, gone) refl
    | inr kept ↦ rw (there, kept) refl
  ]
]

when_moved :
    (l sd dd : Bool)
    → (if sd then ((l && dd) || (l && true)) else (not dd && (l && dd)))
      ≡ (l && (if l && true then sd else dd))
when_moved true true dd = ground arith
when_moved true false true = refl
when_moved true false false = refl
when_moved false true dd = refl
when_moved false false true = refl
when_moved false false false = refl

when_kept :
    (l sd dd x : Bool)
    → (dd ≡ true → x ≡ false)
    → (if sd then ((l && x) || (l && false)) else (not dd && (l && x)))
      ≡ (l && (if l && false then sd else x))
when_kept true true dd x h = ground arith
when_kept true false true x h = rw (h refl) refl
when_kept true false false x h = refl
when_kept false true dd x h = refl
when_kept false false true x h = refl
when_kept false false false x h = refl

module _ (dead survivor : ℕ) (p : Plan) (inv : IsInverse p) (ne : (dead == survivor) ≡ false) where
  abbrev moved : Edges
  moved = or_empty (p.dependents_index dead)

  abbrev rewired : ℕ → List ℕ
  rewired = (repoint survivor (p.is_unary survivor) moved (p.dependencies, p.is_unary)).0

  moved-lem : (s i : ℕ) → has_edge moved s i ≡ (is_live p s && is_dep (p.dependencies s) i dead)
  moved-lem s i = edge_in-or_empty (p.dependents_index dead) s i ∙ inv.inverse s i dead

  AllThere-moved : AllThere survivor (p.is_unary survivor) p.dependencies moved
  AllThere-moved s i e = is_there-is_dep (p.dependencies s) i dead (ground (arith, moved-lem s i))

  is_dep-rewired :
      (s i d : ℕ)
      → is_dep (rewired s) i d
        ≡ (if has_edge moved s i then survivor == d else is_dep (p.dependencies s) i d)
  is_dep-rewired s i d =
      is_dep-repoint survivor (p.is_unary survivor) moved p.dependencies p.is_unary s i d
        AllThere-moved

  edge_in-moved :
      (s i d : ℕ)
      → edge_in (move_edges dead survivor p.dependents_index d) s i
        ≡ (is_live p s && is_dep (rewired s) i d)
  edge_in-moved s i d =
      rw
        (
          edge_in-move_edges dead survivor p.dependents_index d s i ne,
          is_dep-rewired s i d,
          moved-lem s i,
          inv.inverse s i d,
          inv.inverse s i dead,
        )
        (elim (Bool-cases (is_dep (p.dependencies s) i dead)) [
          | inl on ↦
              rw (is_dep_once (p.dependencies s) i dead d on, on)
                (when_moved (is_live p s) (survivor == d) (dead == d))
          | inr off ↦ rw off (
              when_kept (is_live p s) (survivor == d) (dead == d) (is_dep (p.dependencies s) i d)
                (λ e.
                  let same : dead ≡ d = ground arith in
                  subst (λ x. is_dep (p.dependencies s) i x ≡ false) same off))
        ])

  live_after : (s : ℕ) → is_live (eradicated dead survivor p) s ≡ (is_live p s && not (dead == s))
  unfolding has
  live_after s = ground arith

  pub eradicated-IsInverse : IsInverse (eradicated dead survivor p)
  eradicated-IsInverse = record {
    inverse = λ s i d.
        rw
          (
            edge_in-unlink dead 0 (rewired dead) (move_edges dead survivor p.dependents_index) d s
                i,
            dep_from-zero (rewired dead) i d,
            edge_in-moved s i d,
            live_after s,
          )
          (elim (Bool-cases (dead == s)) [
            | inl here ↦ let same : dead ≡ s = ground arith in rw (here, same) (ground arith)
            | inr there ↦ rw there (ground arith)
          ]);
  }
