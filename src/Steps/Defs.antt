-- ===== src/Steps/Defs.antt =====
-- `run_steps` of src/grafast_py/step_model.py: a list of steps run once each over a bucket of
-- entries. A step's `execute` is code of the step's class or of the host, so it is a field; an
-- awaitable output is what awaiting it gives. The tracing spans and the semaphore are left out.
-- The dictionary of columns is a function, `none` where a key is missing.
use grafast_py.Prelude.{
  ℕ, Bool, true, false, ◌&&◌, not, Option, none, some, List, [], ◌∷◌, length, replicate, ◌==◌, ltb,
  if◌then◌else◌,
}

-- `raised` is an exception of `execute`, or of what it awaits.
pub data Failure : Type 0 where
  assertion_error key_error index_error type_error : Failure
  raised : ℕ → Failure

pub data Ran (A : Type 0) : Type 0 where
  done : A → Ran A
  failed : Failure → Ran A

pub data Output (V : Type 0) : Type 0 where
  ready : List V → Output V
  awaitable : Ran (List V) → Output V
  throws : Failure → Output V

-- `dependencies` holds the ids; `execute` gets the extra argument if the step wants it.
pub record Step (V E : Type 0) : Type 0 where
  pub ident : ℕ
  pub dependencies : List ℕ
  pub is_unary : Bool
  pub is_sync_and_safe : Bool
  pub wants_extra : Bool
  pub execute : ℕ → List (List V) → Option E → Output V

abbrev pub Columns : Type 0 → Type 0
Columns V = ℕ → Option (List V)

abbrev pub set_at : {A : Type 0} → ℕ → A → (ℕ → A) → ℕ → A
set_at k a f x = if k == x then a else f x

module _ {V : Type 0} where
  abbrev pub representative : Option (List V) → Option (List V)
  representative none = none
  representative (some []) = none
  representative (some (v ∷ vs)) = some (v ∷ [])

  abbrev pub gather_one : Columns V → Bool → ℕ → Option (List V)
  gather_one results true d = representative (results d)
  gather_one results false d = results d

  abbrev pub cons_both : Option (List V) → Option (List (List V)) → Option (List (List V))
  cons_both none rest = none
  cons_both (some c) none = none
  cons_both (some c) (some cs) = some (c ∷ cs)

  -- `none` is the KeyError or the IndexError.
  unfoldable pub gather_cols : Columns V → Bool → List ℕ → Option (List (List V))
  gather_cols results unary [] = some []
  gather_cols results unary (d ∷ ds) =
      cons_both (gather_one results unary d) (gather_cols results unary ds)

  -- `is_awaitable` on a value of a column
  module _ (is_awaitable : V → Bool) where
    abbrev pub broadcast : ℕ → List V → Ran (List V)
    broadcast count [] = failed assertion_error
    broadcast count (v ∷ []) =
        if is_awaitable v then failed assertion_error else done (replicate count v)
    broadcast count (v ∷ w ∷ vs) = failed assertion_error

    abbrev pub whole : ℕ → List V → Ran (List V)
    whole count out = if length out == count then done out else failed assertion_error

    abbrev pub kept : Columns V → ℕ → Ran (List V) → Ran (Columns V)
    kept results i (failed e) = failed e
    kept results i (done c) = done (set_at i (some c) results)

    -- `_store`
    unfoldable pub store : Columns V → ℕ → ℕ → List V → Bool → Ran (Columns V)
    store results i count out unary =
        kept results i (if unary then broadcast count out else whole count out)

-- `dep.id in seeded or not unary_here.get(dep.id, False)` of no dependency
abbrev pub all_unary : (ℕ → Bool) → (ℕ → Bool) → List ℕ → Bool
all_unary seeded unary_here [] = true
all_unary seeded unary_here (d ∷ ds) =
    (not (seeded d) && unary_here d) && all_unary seeded unary_here ds

abbrev pub nowhere : ℕ → Bool
nowhere i = false

abbrev pub step_count : Bool → ℕ → ℕ
step_count true count = 1
step_count false count = count

abbrev pub outcome : {V : Type 0} → Output V → Ran (List V)
outcome (ready out) = done out
outcome (awaitable w) = w
outcome (throws e) = failed e

abbrev pub is_set : {V : Type 0} → Option (List V) → Bool
is_set none = false
is_set (some c) = true

module _ {V E : Type 0} where
  abbrev pub effective : (ℕ → Bool) → (ℕ → Bool) → Step V E → Bool
  effective seeded unary_here s =
      (s.is_unary && s.is_sync_and_safe) && all_unary seeded unary_here s.dependencies

  -- The loop of `_bucket_unariness`.
  unfoldable pub narrow : (ℕ → Bool) → List (Step V E) → (ℕ → Bool) → ℕ → Bool
  narrow seeded [] unary_here = unary_here
  narrow seeded (s ∷ ss) unary_here =
      narrow seeded ss (set_at s.ident (effective seeded unary_here s) unary_here)

  unfoldable pub bucket_unariness : List (Step V E) → (ℕ → Bool) → ℕ → ℕ → Bool
  unfolding narrow
  bucket_unariness ordered_steps seeded count =
      if ltb 0 count then narrow seeded ordered_steps nowhere else nowhere

  module _ (is_awaitable : V → Bool) (extra : E) (count : ℕ) where
    abbrev pub call : Bool → Step V E → List (List V) → Output V
    call unary s cols =
        s.execute (step_count unary count) cols (if s.wants_extra then some extra else none)

    abbrev pub store_ran : Bool → Columns V → Step V E → Ran (List V) → Ran (Columns V)
    store_ran unary results s (failed e) = failed e
    store_ran unary results s (done out) = store is_awaitable results s.ident count out unary

    abbrev pub advance : Bool → Columns V → Step V E → Option (List (List V)) → Ran (Columns V)
    advance unary results s none = failed key_error
    advance unary results s (some cols) = store_ran unary results s (outcome (call unary s cols))

    -- One round of the loop of `_run_steps_async`, with `unary_here[step.id]`.
    abbrev pub round : Bool → Columns V → Step V E → Ran (Columns V)
    round unary results s = advance unary results s (gather_cols results unary s.dependencies)

    module _ (unary_here : ℕ → Bool) where
      -- The loop of `_run_steps_async`.
      unfoldable pub run_async : List (Step V E) → Columns V → Ran (Columns V)
      unfolding gather_cols store
      run_async [] results = done results
      run_async (s ∷ ss) results = elim (round (unary_here s.ident) results s) [
        | failed e ↦ failed e
        | done results' ↦ run_async ss results'
      ]

      abbrev pub resume_async : List (Step V E) → Ran (Columns V) → Ran (Columns V)
      resume_async ss (failed e) = failed e
      resume_async ss (done results) = run_async ss results

      -- The loop of `run_steps`, up to the first awaitable output.
      unfoldable pub run_sync : List (Step V E) → Columns V → Ran (Columns V)
      unfolding gather_cols store run_async
      run_sync [] results = done results
      run_sync (s ∷ ss) results = elim (gather_cols results (unary_here s.ident) s.dependencies) [
        | none ↦ failed key_error
        | some cols ↦ elim (call (unary_here s.ident) s cols) [
          | throws e ↦ failed e
          | awaitable w ↦ resume_async ss (store_ran (unary_here s.ident) results s w)
          | ready out ↦ elim (store_ran (unary_here s.ident) results s (done out)) [
            | failed e ↦ failed e
            | done results' ↦ run_sync ss results'
          ]
        ]
      ]

  unfoldable pub run_steps : (V → Bool) → E → ℕ → List (Step V E) → Columns V → Ran (Columns V)
  unfolding run_sync bucket_unariness
  run_steps is_awaitable extra count ordered_steps seed =
      run_sync is_awaitable extra count
        (bucket_unariness ordered_steps (λ i. is_set (seed i)) count) ordered_steps seed
