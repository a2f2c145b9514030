-- ===== src/Steps/Broadcast.antt =====
-- Laws of running a step once for the whole bucket (src/grafast_py/step_model.py).
use grafast_py.Prelude.{
  ℕ, zero, suc, Bool, true, false, ◌&&◌, Option, none, some, List, [], ◌∷◌, map, length-replicate,
  replicate, All, has, ◌≡◌, refl, ap, sym, ◌∙◌, arith, ◌==◌, Bool-cases, inl, inr, ltb,
  if◌then◌else◌,
}
use grafast_py.Steps.Defs.{
  Ran, done, failed, Output, ready, awaitable, throws, Step, Columns, set_at, gather_cols, store,
  kept, all_unary, nowhere, effective, narrow, bucket_unariness, call, store_ran, advance, round,
  run_async, run_sync, resume_async, is_set, run_steps,
}

-- The columns of the dependencies, where each of them repeats a value.
Constant : {V : Type 0} → ℕ → (ℕ → Bool) → Columns V → Type 0
Constant {V} count u results =
    (d : ℕ) → u d ≡ true → (v : V) × (results d ≡ some (replicate count v))

gather_cols-Constant :
    {V : Type 0} (n : ℕ) (seeded u : ℕ → Bool) (results : Columns V) (ds : List ℕ)
    → Constant (suc n) u results
    → all_unary seeded u ds ≡ true
    → (vs : List V) × (gather_cols results true ds ≡ some (map (replicate 1) vs))
      × (gather_cols results false ds ≡ some (map (replicate (suc n)) vs))
unfolding gather_cols Constant
gather_cols-Constant n seeded u results [] h e = ([], refl, refl)
gather_cols-Constant n seeded u results (d ∷ ds) h e =
    let (v, p) = h d (ground arith) in
    let (vs, q, r) = gather_cols-Constant n seeded u results ds h (ground arith) in
    (v ∷ vs, rw (p, q) refl, rw (p, r) refl)

module _ {V E : Type 0} where
  abbrev pub idents : List (Step V E) → List ℕ
  idents = map (λ s. s.ident)

  -- No step has the id of a later one.
  abbrev pub DistinctIdents : List (Step V E) → Type 0
  DistinctIdents [] = Unit
  DistinctIdents (s ∷ ss) = (has (idents ss) s.ident ≡ false) × DistinctIdents ss

  narrow_absent :
      (seeded : ℕ → Bool) (ss : List (Step V E)) (u : ℕ → Bool) (i : ℕ)
      → has (idents ss) i ≡ false
      → narrow seeded ss u i ≡ u i
  unfolding narrow has
  narrow_absent seeded [] u i h = refl
  narrow_absent seeded (s ∷ ss) u i h =
      let later =
        narrow_absent seeded ss (set_at s.ident (effective seeded u s) u) i (ground arith) in
      ground (arith, later)

  module _ (is_awaitable : V → Bool) (extra : E) where
    -- Of values, the step makes one concrete value; of columns that repeat them, the column that
    -- repeats it.
    pub record Repeats (s : Step V E) : Type 0 where
      pub value_of : List V → V
      pub repeats :
          (n : ℕ) (vs : List V)
          → s.execute n (map (replicate n) vs) (if s.wants_extra then some extra else none)
            ≡ ready (replicate n (value_of vs))
      pub concrete : (vs : List V) → is_awaitable (value_of vs) ≡ false

    abbrev pub IsShareable : Step V E → Type 0
    IsShareable s = (s.is_unary && s.is_sync_and_safe) ≡ true → Repeats s

    module _ (u : ℕ → Bool) (count : ℕ) (s : Step V E) (ss : List (Step V E))
        (results : Columns V) where
      abbrev SameRun : List (Step V E) → Columns V → Type 0
      SameRun ts r =
          run_sync is_awaitable extra count u ts r ≡ run_async is_awaitable extra count u ts r

      waited :
          (r : Ran (Columns V))
          → resume_async is_awaitable extra count u ss r ≡ (elim r [
            | failed e ↦ failed e
            | done results' ↦ run_async is_awaitable extra count u ss results'
          ])
      waited (failed e) = refl
      waited (done results') = refl

      after :
          ((r : Columns V) → SameRun ss r)
          → (r : Ran (Columns V))
          → ◌≡◌ {A = Ran (Columns V)}
              (elim r [
                | failed e ↦ failed e
                | done results' ↦ run_sync is_awaitable extra count u ss results'
              ])
              (elim r [
                | failed e ↦ failed e
                | done results' ↦ run_async is_awaitable extra count u ss results'
              ])
      after ih (failed e) = refl
      after ih (done results') = ih results'

      by_output :
          ((r : Columns V) → SameRun ss r)
          → (cols : List (List V)) (o : Output V)
          → gather_cols results (u s.ident) s.dependencies ≡ some cols
          → call is_awaitable extra count (u s.ident) s cols ≡ o
          → SameRun (s ∷ ss) results
      unfolding run_sync run_async
      by_output ih cols (throws e) p q = rw (p, q, run_sync, run_async) refl
      by_output ih cols (awaitable w) p q = rw (p, q, run_sync, run_async) (waited _)
      by_output ih cols (ready out) p q =
          rw (p, q, run_sync, run_async)
            (after ih (store_ran is_awaitable extra count (u s.ident) results s (done out)))

      by_cols :
          ((r : Columns V) → SameRun ss r)
          → (o : Option (List (List V))) → gather_cols results (u s.ident) s.dependencies ≡ o
          → SameRun (s ∷ ss) results
      unfolding run_sync run_async
      by_cols ih none p = rw (p, run_sync, run_async) refl
      by_cols ih (some cols) p = by_output ih cols _ p refl

    run_sync-eq-run_async :
        (u : ℕ → Bool) (count : ℕ) (ss : List (Step V E)) (results : Columns V)
        → run_sync is_awaitable extra count u ss results
          ≡ run_async is_awaitable extra count u ss results
    unfolding run_sync run_async
    run_sync-eq-run_async u count [] results = refl
    run_sync-eq-run_async u count (s ∷ ss) results =
        by_cols u count s ss results (run_sync-eq-run_async u count ss) _ refl

    -- Run once and broadcast, or run over the entries: the same column.
    round_once :
        (n : ℕ) (seeded u : ℕ → Bool) (s : Step V E) (results : Columns V)
        → all_unary seeded u s.dependencies ≡ true
        → Repeats s
        → Constant (suc n) u results
        → (v : V) × (round is_awaitable extra (suc n) true results s
            ≡ done (set_at s.ident (some (replicate (suc n) v)) results))
          × (round is_awaitable extra (suc n) false results s
              ≡ done (set_at s.ident (some (replicate (suc n) v)) results))
    unfolding store
    round_once n seeded u s results e p c =
        let (vs, g, k) = gather_cols-Constant n seeded u results s.dependencies c e in
        (
          p.value_of vs,
          rw (g, p.repeats 1 vs, p.concrete vs) refl,
          rw (k, p.repeats (suc n) vs, length-replicate n (p.value_of vs)) (ground arith),
        )

    -- A column stored under a flag that is not set leaves the repeated columns as they are.
    round_stores :
        (n : ℕ) (flag : Bool) (s : Step V E) (results results' : Columns V)
        → round is_awaitable extra n flag results s ≡ done results'
        → (c : List V) × (set_at s.ident (some c) results ≡ results')
    unfolding store
    round_stores n flag s results results' h = by_cols (gather_cols results flag s.dependencies) h
      where
        by_kept :
            (r : Ran (List V))
            → kept is_awaitable results s.ident r ≡ done results'
            → (c : List V) × (set_at s.ident (some c) results ≡ results')
        by_kept (failed e) k = absurd (cc)
        by_kept (done c) k = (c, cc)

        by_ran :
            (r : Ran (List V))
            → store_ran is_awaitable extra n flag results s r ≡ done results'
            → (c : List V) × (set_at s.ident (some c) results ≡ results')
        by_ran (failed e) k = absurd (cc)
        by_ran (done out) k = by_kept _ k

        by_cols :
            (o : Option (List (List V)))
            → advance is_awaitable extra n flag results s o ≡ done results'
            → (c : List V) × (set_at s.ident (some c) results ≡ results')
        by_cols none k = absurd (cc)
        by_cols (some cols) k = by_ran _ k

    Constant-set_once :
        (n i : ℕ) (u : ℕ → Bool) (v : V) (results : Columns V)
        → Constant n u results
        → Constant n (set_at i true u) (set_at i (some (replicate n v)) results)
    unfolding Constant
    Constant-set_once n i u v results h d e = elim (Bool-cases (i == d)) [
      | inl here ↦ (v, rw here refl)
      | inr there ↦ rw there (h d (ground arith))
    ]

    Constant-set_batch :
        (n i : ℕ) (u : ℕ → Bool) (c : List V) (results : Columns V)
        → Constant n u results
        → Constant n (set_at i false u) (set_at i (some c) results)
    unfolding Constant
    Constant-set_batch n i u c results h d e = elim (Bool-cases (i == d)) [
      | inl here ↦ absurd (ground arith)
      | inr there ↦ rw there (h d (ground arith))
    ]

    run_async-cons :
        (n : ℕ) (flags : ℕ → Bool) (b : Bool) (s : Step V E) (ss : List (Step V E))
        (results : Columns V)
        → flags s.ident ≡ b
        → run_async is_awaitable extra n flags (s ∷ ss) results
          ≡ resume_async is_awaitable extra n flags ss (round is_awaitable extra n b results s)
    unfolding run_async
    run_async-cons n flags b s ss results e =
        go (round is_awaitable extra n (flags s.ident) results s)
        ∙ ap
            (λ c.
              resume_async is_awaitable extra n flags ss (round is_awaitable extra n c results s))
            e
      where
        go :
            (r : Ran (Columns V))
            → ◌≡◌ {A = Ran (Columns V)}
                (elim r [
                  | failed e ↦ failed e
                  | done results' ↦ run_async is_awaitable extra n flags ss results'
                ])
                (resume_async is_awaitable extra n flags ss r)
        go (failed e) = refl
        go (done results') = refl

    resume_each :
        (n : ℕ) (flags : ℕ → Bool) (ss : List (Step V E)) (r : Ran (Columns V))
        → ((results : Columns V)
            → r ≡ done results
            → run_async is_awaitable extra n flags ss results
              ≡ run_async is_awaitable extra n nowhere ss results)
        → resume_async is_awaitable extra n flags ss r
          ≡ resume_async is_awaitable extra n nowhere ss r
    resume_each n flags ss (failed e) h = refl
    resume_each n flags ss (done results) h = h results refl

    run_flagged :
        (n : ℕ) (seeded u : ℕ → Bool) (ss : List (Step V E)) (results : Columns V)
        → DistinctIdents ss
        → All IsShareable ss
        → Constant (suc n) u results
        → run_async is_awaitable extra (suc n) (narrow seeded ss u) ss results
          ≡ run_async is_awaitable extra (suc n) nowhere ss results
    unfolding run_async narrow
    run_flagged n seeded u [] results apart shared c = refl
    run_flagged n seeded u (s ∷ ss) results (new, apart) (share, shared) c =
        let u' = set_at s.ident (effective seeded u s) u in
        let flag : narrow seeded ss u' s.ident ≡ effective seeded u s =
          ground (arith, narrow_absent seeded ss u' s.ident new) in
        let step = run_flagged n seeded u' ss in
        let cons =
          run_async-cons (suc n) (narrow seeded ss u') (effective seeded u s) s ss results flag in
        let each = run_async-cons (suc n) nowhere false s ss results refl in
        elim (Bool-cases (effective seeded u s)) [
          | inl once ↦
              let (v, f, g) =
                round_once n seeded u s results (ground arith) (share (ground arith)) c in
              let ran =
                step (set_at s.ident (some (replicate (suc n) v)) results) apart shared
                  (rw once (Constant-set_once (suc n) s.ident u v results c)) in
              let after : Columns V = set_at s.ident (some (replicate (suc n) v)) results in
              let flagged : round is_awaitable extra (suc n) (effective seeded u s) results s
                  ≡ done after =
                rw once f in
              cons
              ∙ ap (resume_async is_awaitable extra (suc n) (narrow seeded ss u') ss) flagged
              ∙ ran
              ∙ sym (each ∙ ap (resume_async is_awaitable extra (suc n) nowhere ss) g)
          | inr batch ↦
              let same_round = ap (λ b. round is_awaitable extra (suc n) b results s) batch in
              cons
              ∙ ap (resume_async is_awaitable extra (suc n) (narrow seeded ss u') ss) same_round
              ∙ resume_each (suc n) (narrow seeded ss u') ss
                  (round is_awaitable extra (suc n) false results s)
                  (λ r e.
                    let (col, same) = round_stores (suc n) false s results r e in
                    step r apart shared
                      (rw (← same, batch) (Constant-set_batch (suc n) s.ident u col results c)))
              ∙ sym each
        ]

  -- The steps run over all entries of the bucket, awaited in order.
  abbrev pub run_each : (V → Bool) → E → ℕ → List (Step V E) → Columns V → Ran (Columns V)
  run_each is_awaitable extra count = run_async is_awaitable extra count nowhere

  -- Steps with distinct ids, of which those that may be shared repeat a concrete value: running
  -- each once for the bucket where `run_steps` does, and handing over to the asynchronous loop at
  -- the first awaitable, ends as running each step over all the entries does, errors included.
  pub run_steps-run_each :
      (is_awaitable : V → Bool) (extra : E) (count : ℕ) (ordered_steps : List (Step V E))
      (seed : Columns V)
      → DistinctIdents ordered_steps
      → All (IsShareable is_awaitable extra) ordered_steps
      → run_steps is_awaitable extra count ordered_steps seed
        ≡ run_each is_awaitable extra count ordered_steps seed
  unfolding run_steps bucket_unariness
  run_steps-run_each is_awaitable extra zero ss seed apart shared =
      run_sync-eq-run_async is_awaitable extra nowhere zero ss seed
  run_steps-run_each is_awaitable extra (suc n) ss seed apart shared =
      let positive : ltb 0 (suc n) ≡ true = ground arith in
      rw positive (
        run_sync-eq-run_async is_awaitable extra (narrow (λ i. is_set (seed i)) ss nowhere) (suc n)
          ss seed)
      ∙ run_flagged is_awaitable extra n (λ i. is_set (seed i)) nowhere ss seed apart shared
          (unfold Constant in λ d e. absurd (cc))
