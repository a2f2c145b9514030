-- ===== src/Steps/Lengths.antt =====
-- Laws of the lengths of the columns of `run_steps` (src/grafast_py/step_model.py).
use grafast_py.Prelude.{
  ℕ, Bool, true, false, some, List, [], ◌∷◌, length, All, ◌≡◌, refl, ◌∙◌, arith, ◌==◌, Bool-cases,
  inl, inr,
}
use grafast_py.Steps.Defs.{
  done, Step, Columns, set_at, gather_cols, store, outcome, call, round, run_async, is_set,
  run_steps,
}
use grafast_py.Steps.Broadcast.{DistinctIdents, IsShareable, run_each, run_steps-run_each}

-- Each known column is there, with an entry for each entry of the bucket.
pub record IsFilled {V : Type 0} (count : ℕ) (known : ℕ → Bool) (results : Columns V) : Type 0 where
  pub column_of :
      (d : ℕ) → known d ≡ true → (c : List V) × (results d ≡ some c) × (length c ≡ count)

gather_cols-IsFilled :
    {V : Type 0} (count : ℕ) (known : ℕ → Bool) (results : Columns V) (ds : List ℕ)
    → IsFilled count known results
    → All (λ d. known d ≡ true) ds
    → (cols : List (List V)) × (gather_cols results false ds ≡ some cols)
      × All (λ c. length c ≡ count) cols
unfolding gather_cols
gather_cols-IsFilled count known results [] h e = ([], refl, tt)
gather_cols-IsFilled count known results (d ∷ ds) h (e, es) =
    let (c, p, n) = h.column_of d e in
    let (cs, q, ns) = gather_cols-IsFilled count known results ds h es in
    (c ∷ cs, rw (p, q) refl, (n, ns))

module _ {V E : Type 0} (is_awaitable : V → Bool) (extra : E) (count : ℕ) where
  -- The step keeps its contract: of columns as long as the bucket it makes one such column.
  abbrev pub KeepsLength : Step V E → Type 0
  KeepsLength s =
      (cols : List (List V))
      → All (λ c. length c ≡ count) cols
      → (out : List V) × (outcome (call is_awaitable extra count false s cols) ≡ done out)
        × (length out ≡ count)

  -- Each step's dependencies are known, or come before it.
  abbrev pub Follows : (ℕ → Bool) → List (Step V E) → Type 0
  Follows known [] = Unit
  Follows known (s ∷ ss) =
      All (λ d. known d ≡ true) s.dependencies × Follows (set_at s.ident true known) ss

  -- What is known once the steps ran.
  abbrev pub with_steps : (ℕ → Bool) → List (Step V E) → ℕ → Bool
  with_steps known [] = known
  with_steps known (s ∷ ss) = with_steps (set_at s.ident true known) ss

  set_at-IsFilled :
      (known : ℕ → Bool) (results : Columns V) (i : ℕ) (c : List V)
      → length c ≡ count
      → IsFilled count known results
      → IsFilled count (set_at i true known) (set_at i (some c) results)
  set_at-IsFilled known results i c n h = record {
    column_of = λ d e. elim (Bool-cases (i == d)) [
      | inl here ↦ (c, rw here refl, n)
      | inr there ↦ rw there (h.column_of d (ground arith))
    ];
  }

  round-IsFilled :
      (known : ℕ → Bool) (results : Columns V) (s : Step V E)
      → KeepsLength s
      → All (λ d. known d ≡ true) s.dependencies
      → IsFilled count known results
      → (results' : Columns V) × (round is_awaitable extra count false results s ≡ done results')
        × IsFilled count (set_at s.ident true known) results'
  unfolding store
  round-IsFilled known results s keeps deps h =
      let (cols, g, ns) = gather_cols-IsFilled count known results s.dependencies h deps in
      let (out, o, n) = keeps cols ns in
      (
        set_at s.ident (some out) results,
        rw (g, o) (ground arith),
        set_at-IsFilled known results s.ident out n h,
      )

  run_each-IsFilled :
      (known : ℕ → Bool) (ss : List (Step V E)) (results : Columns V)
      → All KeepsLength ss
      → Follows known ss
      → IsFilled count known results
      → (results' : Columns V) × (run_each is_awaitable extra count ss results ≡ done results')
        × IsFilled count (with_steps known ss) results'
  unfolding run_async
  run_each-IsFilled known [] results keeps follows h = (results, refl, h)
  run_each-IsFilled known (s ∷ ss) results (keep, keeps) (deps, follows) h =
      let (results', e, h') = round-IsFilled known results s keep deps h in
      let (last, f, k) =
        run_each-IsFilled (set_at s.ident true known) ss results' keeps follows h' in
      (last, rw (e, run_async) f, k)

  -- Steps with distinct ids, each behind its dependencies or these seeded, that keep the length
  -- contract and of which those that may be shared repeat a concrete value, on a seed whose columns
  -- are as long as the bucket: the run returns, with a column of that length for each seeded id
  -- and for each step.
  pub run_steps-IsFilled :
      (ordered_steps : List (Step V E)) (seed : Columns V)
      → DistinctIdents ordered_steps
      → All (IsShareable is_awaitable extra) ordered_steps
      → All KeepsLength ordered_steps
      → Follows (λ i. is_set (seed i)) ordered_steps
      → IsFilled count (λ i. is_set (seed i)) seed
      → (results : Columns V) × (run_steps is_awaitable extra count ordered_steps seed
          ≡ done results)
        × IsFilled count (with_steps (λ i. is_set (seed i)) ordered_steps) results
  run_steps-IsFilled ss seed apart shared keeps follows h =
      let (results, e, k) = run_each-IsFilled (λ i. is_set (seed i)) ss seed keeps follows h in
      (results, run_steps-run_each is_awaitable extra count ss seed apart shared ∙ e, k)
