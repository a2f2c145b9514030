-- ===== src/Samples/Running.antt =====
-- A concrete bucket for src/grafast_py/step_model.py.
use grafast_py.Prelude.{
  ℕ, Bool, true, false, Option, none, some, List, [], ◌∷◌, length, replicate, All, has, map, ◌≡◌,
  refl, ◌==◌, Bool-cases, inl, inr,
}
use grafast_py.Steps.Defs.{done, Output, ready, awaitable, Step, Columns, set_at, is_set, run_steps}
use grafast_py.Steps.Broadcast.{DistinctIdents, IsShareable, Repeats, run_each, run_steps-run_each}
use grafast_py.Steps.Lengths.{IsFilled, KeepsLength, with_steps, run_steps-IsFilled}

abbrev five : ℕ → List (List ℕ) → Option (Unit {0}) → Output ℕ
five n cols extra = ready (replicate n 5)

-- The first dependency's column.
abbrev first_col : ℕ → List (List ℕ) → Option (Unit {0}) → Output ℕ
first_col n [] extra = ready (replicate n 0)
first_col n (c ∷ cols) extra = ready c

abbrev loaded_col : ℕ → List (List ℕ) → Option (Unit {0}) → Output ℕ
loaded_col n [] extra = awaitable (done (replicate n 0))
loaded_col n (c ∷ cols) extra = awaitable (done c)

abbrev constant_step : Step ℕ (Unit {0})
constant_step = record {
  ident = 1;
  dependencies = [];
  is_unary = true;
  is_sync_and_safe = true;
  wants_extra = false;
  execute = five;
}

abbrev derived_step : Step ℕ (Unit {0})
derived_step = record {
  ident = 2;
  dependencies = 1 ∷ [];
  is_unary = true;
  is_sync_and_safe = true;
  wants_extra = false;
  execute = first_col;
}

abbrev load_step : Step ℕ (Unit {0})
load_step = record {
  ident = 3;
  dependencies = 0 ∷ 2 ∷ [];
  is_unary = false;
  is_sync_and_safe = false;
  wants_extra = true;
  execute = loaded_col;
}

abbrev steps : List (Step ℕ (Unit {0}))
steps = constant_step ∷ derived_step ∷ load_step ∷ []

abbrev seed : Columns ℕ
seed = set_at 0 (some (10 ∷ 20 ∷ 30 ∷ [])) (λ i. none)

abbrev is_lazy : ℕ → Bool
is_lazy v = false

abbrev first_of : List ℕ → ℕ
first_of [] = 0
first_of (v ∷ vs) = v

steps-DistinctIdents : DistinctIdents steps
unfolding has
steps-DistinctIdents = (refl, (refl, (refl, tt)))

constant-Repeats : Repeats is_lazy tt constant_step
constant-Repeats = record { value_of = λ vs. 5; repeats = λ n vs. refl; concrete = λ vs. refl }

first_col_repeats :
    (n : ℕ) (vs : List ℕ)
    → first_col n (map (replicate n) vs) none ≡ ready (replicate n (first_of vs))
first_col_repeats n [] = refl
first_col_repeats n (v ∷ vs) = refl

derived-Repeats : Repeats is_lazy tt derived_step
derived-Repeats = record { value_of = first_of; repeats = first_col_repeats; concrete = λ vs. refl }

steps-IsShareable : All (IsShareable is_lazy tt) steps
steps-IsShareable = (λ e. constant-Repeats, (λ e. derived-Repeats, (λ e. absurd (cc), tt)))

run_steps-run_each_example : run_steps is_lazy tt 3 steps seed ≡ run_each is_lazy tt 3 steps seed
run_steps-run_each_example =
    run_steps-run_each is_lazy tt 3 steps seed steps-DistinctIdents steps-IsShareable

constant-KeepsLength : KeepsLength is_lazy tt 3 constant_step
constant-KeepsLength cols h = (5 ∷ 5 ∷ 5 ∷ [], refl, refl)

derived-KeepsLength : KeepsLength is_lazy tt 3 derived_step
derived-KeepsLength [] h = (0 ∷ 0 ∷ 0 ∷ [], refl, refl)
derived-KeepsLength (c ∷ cols) (h, hs) = (c, refl, h)

load-KeepsLength : KeepsLength is_lazy tt 3 load_step
load-KeepsLength [] h = (0 ∷ 0 ∷ 0 ∷ [], refl, refl)
load-KeepsLength (c ∷ cols) (h, hs) = (c, refl, h)

seed-IsFilled : IsFilled 3 (λ i. is_set (seed i)) seed
seed-IsFilled = record { column_of = filled }
  where
    filled : (d : ℕ) → is_set (seed d) ≡ true → (c : List ℕ) × (seed d ≡ some c) × (length c ≡ 3)
    filled d h = elim (Bool-cases (0 == d)) [
      | inl e ↦ (10 ∷ 20 ∷ 30 ∷ [], rw e refl, refl)
      | inr e ↦ absurd (cc (rw e at h))
    ]

run_steps-IsFilled_example :
    (results : Columns ℕ) × (run_steps is_lazy tt 3 steps seed ≡ done results)
    × IsFilled 3 (with_steps is_lazy tt 3 (λ i. is_set (seed i)) steps) results
run_steps-IsFilled_example =
    run_steps-IsFilled is_lazy tt 3 steps seed steps-DistinctIdents steps-IsShareable
      (constant-KeepsLength, (derived-KeepsLength, (load-KeepsLength, tt)))
      (tt, ((refl, tt), ((refl, (refl, tt)), tt))) seed-IsFilled
