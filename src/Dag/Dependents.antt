-- ===== src/Dag/Dependents.antt =====
-- `dependents_of` of src/grafast_py/dag.py on the plans that its rewrites reach.
use grafast_py.Prelude.{
  ℕ, Bool, true, false, ◌&&◌, not, List, [], ◌∷◌, has, has-nil, any, ◌==◌, ◌≡◌, ◌↔◌, refl, sym, ◌∙◌,
  arith, Bool-cases, inl, inr,
}
use grafast_py.Dag.Plan.{Edges, Plan, dependents_of, distinct_dependents, or_empty}
use grafast_py.Dag.Inverse.{edge_in-or_empty, has_edge, is_dep, is_live}
use grafast_py.Dag.Reached.{Reached, Reached-IsValid}

abbrev starts : Edges → ℕ → Bool
starts edges s = any (λ e. e.0 == s) edges

has-distinct_dependents :
    (seen : List ℕ) (edges : Edges) (s : ℕ)
    → has (distinct_dependents seen edges) s ≡ (not (has seen s) && starts edges s)
unfolding distinct_dependents has
has-distinct_dependents seen [] s = ground arith
has-distinct_dependents seen ((t, i) ∷ edges) s = elim (Bool-cases (t == s)) [
  | inl here ↦
      let same : t ≡ s = ground arith in
      rw same (
        ground
          (arith, has-distinct_dependents seen edges s, has-distinct_dependents (s ∷ seen) edges s))
  | inr there ↦
      ground
        (arith, has-distinct_dependents seen edges s, has-distinct_dependents (t ∷ seen) edges s)
]

abbrev pub IsOnce : List ℕ → Type 0
IsOnce [] = Unit
IsOnce (x ∷ xs) = (has xs x ≡ false) × IsOnce xs

once_here :
    (seen : List ℕ) (edges : Edges) (t : ℕ) → has (distinct_dependents (t ∷ seen) edges) t ≡ false
unfolding has
once_here seen edges t = ground (arith, has-distinct_dependents (t ∷ seen) edges t)

distinct_dependents-IsOnce :
    (seen : List ℕ) (edges : Edges) → IsOnce (distinct_dependents seen edges)
unfolding distinct_dependents
distinct_dependents-IsOnce seen [] = tt
distinct_dependents-IsOnce seen ((t, i) ∷ edges) = elim (Bool-cases (has seen t)) [
  | inl old ↦ rw old (distinct_dependents-IsOnce seen edges)
  | inr new ↦ rw new (once_here seen edges t, distinct_dependents-IsOnce (t ∷ seen) edges)
]

starts-edge :
    (edges : Edges) (s : ℕ) → starts edges s ≡ true → (i : ℕ) × (has_edge edges s i ≡ true)
starts-edge [] s h = cc
starts-edge ((t, j) ∷ edges) s h = elim (Bool-cases (t == s)) [
  | inl here ↦ (j, ground arith)
  | inr there ↦ let (i, e) = starts-edge edges s (ground arith) in (i, ground arith)
]

edge-starts : (edges : Edges) (s i : ℕ) → has_edge edges s i ≡ true → starts edges s ≡ true
edge-starts [] s i h = cc
edge-starts ((t, j) ∷ edges) s i h = ground (arith, edge-starts edges s i)

-- For a plan that registrations and eradications made, the dependents of a step are, each once, the
-- live steps that have it among their dependencies.
pub dependents_of-IsOnce :
    {p : Plan}
    → Reached p
    → (step : ℕ)
    → IsOnce (dependents_of p step)
      × ((s : ℕ)
          → (has (dependents_of p step) s ≡ true)
            ↔ ((i : ℕ) × ((is_live p s && is_dep (p.dependencies s) i step) ≡ true)))
unfolding dependents_of
dependents_of-IsOnce {p} r step =
    let inv = (Reached-IsValid r).1 in
    let edges = or_empty (p.dependents_index step) in
    let edge : (s i : ℕ) → has_edge edges s i ≡ (is_live p s && is_dep (p.dependencies s) i step) =
      λ s i. edge_in-or_empty (p.dependents_index step) s i ∙ inv.inverse s i step in
    let member : (s : ℕ) → has (distinct_dependents [] edges) s ≡ starts edges s =
      λ s. has-distinct_dependents [] edges s ∙ rw (has-nil s) refl in
    (
      distinct_dependents-IsOnce [] edges,
      λ s. (
        λ h. let (i, e) = starts-edge edges s (sym (member s) ∙ h) in (i, sym (edge s i) ∙ e),
        λ d. member s ∙ edge-starts edges s d.0 (edge s d.0 ∙ d.1),
      ),
    )
