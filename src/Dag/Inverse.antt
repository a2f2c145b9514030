-- ===== src/Dag/Inverse.antt =====
-- The reverse edges of a plan (src/grafast_py/dag.py) are the inverse of the live steps' dependencies.
use grafast_py.Prelude.{
  ℕ, zero, suc, ◌+◌, ◌<◌, Bool, true, false, ◌&&◌, ◌||◌, not, Option, none, some, List, [], ◌∷◌,
  ◌++◌, keep, has, any, get_elem?, ◌==◌, if◌then◌else◌, ◌≡◌, refl, subst, sym, arith, Bool-cases,
  inl, inr,
}
use grafast_py.Dag.Plan.{
  Edges, Plan, add_edge, is_edge, link, or_empty, put_at, repoint, set_nth, unlink, without_edge,
}

abbrev pub has_edge : Edges → ℕ → ℕ → Bool
has_edge edges s i = any (is_edge s i) edges

abbrev pub edge_in : Option Edges → ℕ → ℕ → Bool
edge_in none s i = false
edge_in (some edges) s i = has_edge edges s i

abbrev pub is_at : Option ℕ → ℕ → Bool
is_at none d = false
is_at (some x) d = x == d

-- Dependency `i` is `d`.
abbrev pub is_dep : List ℕ → ℕ → ℕ → Bool
is_dep ds i d = is_at (get_elem? ds i) d

abbrev pub is_live : Plan → ℕ → Bool
is_live p s = has p.steps s && not (has p.dead_ids s)

-- A reverse edge of `d` is a live step's dependency on `d`, and each of these has its edge.
pub record IsInverse (p : Plan) : Type 0 where
  pub inverse :
      (s i d : ℕ)
      → edge_in (p.dependents_index d) s i ≡ (is_live p s && is_dep (p.dependencies s) i d)

pub has_edge-append :
    (xs ys : Edges) (s i : ℕ) → has_edge (xs ++ ys) s i ≡ (has_edge xs s i || has_edge ys s i)
has_edge-append [] ys s i = refl
has_edge-append (x ∷ xs) ys s i = ground (arith, has_edge-append xs ys s i)

pub edge_in-or_empty : (o : Option Edges) (s i : ℕ) → has_edge (or_empty o) s i ≡ edge_in o s i
edge_in-or_empty none s i = refl
edge_in-or_empty (some edges) s i = refl

edge_in-append :
    (o : Option Edges) (e : ℕ × ℕ) (s i : ℕ)
    → has_edge (or_empty o ++ e ∷ []) s i ≡ (edge_in o s i || is_edge s i e)
edge_in-append o e s i =
    rw (has_edge-append (or_empty o) (e ∷ []) s i, edge_in-or_empty o s i) (ground arith)

edge_in-add_edge :
    (k : ℕ) (e : ℕ × ℕ) (index : ℕ → Option Edges) (d s i : ℕ)
    → edge_in (add_edge k e index d) s i ≡ (edge_in (index d) s i || ((k == d) && is_edge s i e))
edge_in-add_edge k e index d s i = elim (Bool-cases (k == d)) [
  | inl here ↦
      let same : k ≡ d = ground arith in rw (here, sym same, edge_in-append (index k) e s i) refl
  | inr there ↦ rw there (ground arith)
]

abbrev pub is_there : List ℕ → ℕ → Bool
is_there [] i = false
is_there (x ∷ ds) zero = true
is_there (x ∷ ds) (suc i) = is_there ds i

is_there-set_nth : (j v : ℕ) (ds : List ℕ) (i : ℕ) → is_there (set_nth j v ds) i ≡ is_there ds i
unfolding set_nth
is_there-set_nth j v [] i = refl
is_there-set_nth zero v (x ∷ ds) zero = refl
is_there-set_nth zero v (x ∷ ds) (suc i) = refl
is_there-set_nth (suc j) v (x ∷ ds) zero = refl
is_there-set_nth (suc j) v (x ∷ ds) (suc i) = is_there-set_nth j v ds i

is_dep-set_nth :
    (j v : ℕ) (ds : List ℕ) (i d : ℕ)
    → is_dep (set_nth j v ds) i d ≡ (if j == i then (is_there ds i && (v == d)) else is_dep ds i d)
unfolding set_nth
is_dep-set_nth j v [] i d = ground arith
is_dep-set_nth zero v (x ∷ ds) zero d = ground arith
is_dep-set_nth zero v (x ∷ ds) (suc i) d = ground arith
is_dep-set_nth (suc j) v (x ∷ ds) zero d = ground arith
is_dep-set_nth (suc j) v (x ∷ ds) (suc i) d = ground (arith, is_dep-set_nth j v ds i d)

pub is_there-is_dep : (ds : List ℕ) (i d : ℕ) → is_dep ds i d ≡ true → is_there ds i ≡ true
is_there-is_dep [] i d h = cc
is_there-is_dep (x ∷ ds) zero d h = refl
is_there-is_dep (x ∷ ds) (suc i) d h = is_there-is_dep ds i d h

-- Dependency `i`, counted from `k`, is `d`.
abbrev pub dep_from : ℕ → List ℕ → ℕ → ℕ → Bool
dep_from k [] i d = false
dep_from k (x ∷ ds) i d = ((k == i) && (x == d)) || dep_from (suc k) ds i d

dep_from_before : (k : ℕ) (ds : List ℕ) (i d : ℕ) → i < k → dep_from k ds i d ≡ false
dep_from_before k [] i d h = refl
dep_from_before k (x ∷ ds) i d h =
    ground (arith, h, dep_from_before (suc k) ds i d (omega (arith, h)))

pub dep_from-is_dep : (k : ℕ) (ds : List ℕ) (i d : ℕ) → dep_from k ds (k + i) d ≡ is_dep ds i d
dep_from-is_dep k [] i d = refl
dep_from-is_dep k (x ∷ ds) zero d =
    ground (arith, dep_from_before (suc k) ds (k + 0) d (omega arith))
dep_from-is_dep k (x ∷ ds) (suc i) d =
    let next : k + suc i ≡ suc k + i = omega arith in
    let skip : (k == (k + suc i)) ≡ false = ground arith in
    rw (skip, next) (dep_from-is_dep (suc k) ds i d)

pub edge_in-link :
    (n k : ℕ) (ds : List ℕ) (index : ℕ → Option Edges) (d s i : ℕ)
    → edge_in (link n k ds index d) s i ≡ (edge_in (index d) s i || ((n == s) && dep_from k ds i d))
unfolding link
edge_in-link n k [] index d s i = ground arith
edge_in-link n k (x ∷ ds) index d s i =
    rw
      (
        edge_in-link n (suc k) ds (add_edge x (n, k) index) d s i,
        edge_in-add_edge x (n, k) index d s i,
      )
      (ground arith)

has_edge-keep :
    (t j : ℕ) (edges : Edges) (s i : ℕ)
    → has_edge (keep (λ e. not (is_edge t j e)) edges) s i
      ≡ (has_edge edges s i && not ((t == s) && (j == i)))
has_edge-keep t j [] s i = refl
has_edge-keep t j (e ∷ edges) s i = ground (arith, has_edge-keep t j edges s i)

edge_in-without_edge :
    (t j : ℕ) (o : Option Edges) (s i : ℕ)
    → edge_in (without_edge t j o) s i ≡ (edge_in o s i && not ((t == s) && (j == i)))
edge_in-without_edge t j none s i = refl
edge_in-without_edge t j (some edges) s i = has_edge-keep t j edges s i

pub edge_in-unlink :
    (t k : ℕ) (ds : List ℕ) (index : ℕ → Option Edges) (d s i : ℕ)
    → edge_in (unlink t k ds index d) s i
      ≡ (edge_in (index d) s i && not ((t == s) && dep_from k ds i d))
unfolding unlink
edge_in-unlink t k [] index d s i = ground arith
edge_in-unlink t k (x ∷ ds) index d s i =
    rw (edge_in-unlink t (suc k) ds (put_at x (without_edge t k (index x)) index) d s i)
      (elim (Bool-cases (x == d)) [
        | inl here ↦
            let same : x ≡ d = ground arith in
            rw (here, same, edge_in-without_edge t k (index d) s i) (ground arith)
        | inr there ↦ rw there (ground arith)
      ])

module _ (survivor : ℕ) (unary : Bool) where
  abbrev pub AllThere : (ℕ → List ℕ) → Edges → Type 0
  AllThere deps moved = (s i : ℕ) → has_edge moved s i ≡ true → is_there (deps s) i ≡ true

  pub is_dep-repoint :
      (moved : Edges) (deps : ℕ → List ℕ) (is_unary : ℕ → Bool) (s i d : ℕ)
      → AllThere deps moved
      → is_dep ((repoint survivor unary moved (deps, is_unary)).0 s) i d
        ≡ (if has_edge moved s i then survivor == d else is_dep (deps s) i d)
  unfolding repoint
  is_dep-repoint [] deps is_unary s i d h = refl
  is_dep-repoint ((t, j) ∷ moved) deps is_unary s i d h =
      let deps1 = put_at t (set_nth j survivor (deps t)) deps in
      let one : is_dep (deps1 s) i d ≡ (
          if is_edge s i (t, j)
          then (is_there (deps s) i && (survivor == d))
          else is_dep (deps s) i d) =
        elim (Bool-cases (t == s)) [
          | inl here ↦
              let same : t ≡ s = ground arith in
              rw (here, same) (is_dep-set_nth j survivor (deps s) i d)
          | inr there ↦ rw there refl
        ] in
      let there1 : AllThere deps1 moved = λ u k e. elim (Bool-cases (t == u)) [
        | inl here ↦
            let same : t ≡ u = ground arith in
            rw (here, same, is_there-set_nth j survivor (deps u) k) (h u k (ground arith))
        | inr there ↦ rw there (h u k (ground arith))
      ] in
      rw
        (
          is_dep-repoint moved deps1 (if unary then is_unary else put_at t false is_unary) s i d
              there1,
          one,
        )
        (ground (arith, h s i))

pub dep_from-zero : (ds : List ℕ) (i d : ℕ) → dep_from 0 ds i d ≡ is_dep ds i d
dep_from-zero ds i d =
    let same : 0 + i ≡ i = omega arith in
    subst (λ j. dep_from 0 ds j d ≡ is_dep ds i d) same (dep_from-is_dep 0 ds i d)
