-- ===== src/Cache/Interleaving.antt =====
-- Requests that share one cache (src/grafast_py/cache.py). The lock covers each block of `get` and
-- the whole of `put` and `clear`; a request validates its snapshot outside it, so any blocks of
-- other requests may fall between its own.
use grafast_py.Prelude.{
  ℕ, Bool, true, none, some, List, ◌≡◌, arith, All, ◌==◌, if◌then◌else◌, Bool-cases, inl, inr,
}
use grafast_py.Constraints.Defs.{Result, ok, err, Error}
use grafast_py.Cache.Defs.{
  CachedPlan, PlanCache, first_valid, count_miss, snapshot, count_hit, put, clear,
}
use grafast_py.Cache.Bounds.{
  IsValid, first_valid-All, count_hit-IsValid, put-IsValid, snapshot-IsValid,
}
use grafast_py.Cache.Lookup.{snapshot-All, count_miss-IsValid}

-- Where a request stands in `get`.
pub data Phase (K P : Type 0) : Type 0 where
  idle : Phase K P
  checking : K → (CachedPlan P → Result Bool) → List (CachedPlan P) → Phase K P
  served : K → (CachedPlan P → Result Bool) → CachedPlan P → Phase K P

pub record System (K P : Type 0) : Type 0 where
  pub cache : PlanCache K P
  pub phase : ℕ → Phase K P

module _ {K P : Type 0} (dec : Discrete K) where
  abbrev pub move : ℕ → Phase K P → PlanCache K P → System K P → System K P
  move t p c s = record { cache = c; phase = λ u. if u == t then p else s.phase u }

  -- One locked block of one request `t`.
  pub data Step (Q : K → CachedPlan P → Type 0) (s : System K P) : System K P → Type 0 where
    look_found :
        (t : ℕ) (k : K) (validate : CachedPlan P → Result Bool) (b : List (CachedPlan P))
        → (snapshot dec k s.cache).0 ≡ some b
        → Step Q s (move t (checking k validate b) (snapshot dec k s.cache).1 s)
    look_absent :
        (t : ℕ) (k : K)
        → (snapshot dec k s.cache).0 ≡ none
        → Step Q s (move t idle (snapshot dec k s.cache).1 s)
    hit :
        (t : ℕ) (k : K) (validate : CachedPlan P → Result Bool) (b : List (CachedPlan P))
        (x : CachedPlan P)
        → s.phase t ≡ checking k validate b
        → first_valid validate b ≡ ok (some x)
        → Step Q s (move t (served k validate x) (count_hit dec k x s.cache) s)
    miss :
        (t : ℕ) (k : K) (validate : CachedPlan P → Result Bool) (b : List (CachedPlan P))
        → s.phase t ≡ checking k validate b
        → first_valid validate b ≡ ok none
        → Step Q s (move t idle (count_miss s.cache) s)
    raised :
        (t : ℕ) (k : K) (validate : CachedPlan P → Result Bool) (b : List (CachedPlan P))
        (e : Error)
        → s.phase t ≡ checking k validate b
        → first_valid validate b ≡ err e
        → Step Q s (move t idle s.cache s)
    store :
        (t : ℕ) (k : K) (x : CachedPlan P)
        → Q k x
        → Step Q s (move t idle (put dec k x s.cache).0 s)
    drop_all : (t : ℕ) → Step Q s (move t idle (clear s.cache) s)

  pub data Reach (Q : K → CachedPlan P → Type 0) (s : System K P) : System K P → Type 0 where
    here : Reach Q s s
    next : {u v : System K P} → Reach Q s u → Step Q u v → Reach Q s v

  module _ (Q : K → CachedPlan P → Type 0) where
    -- What a phase holds was stored under its key; what is served validates.
    abbrev pub IsHeld : Phase K P → Type 0
    IsHeld idle = Unit
    IsHeld (checking k validate b) = All (Q k) b
    IsHeld (served k validate x) = Q k x × (validate x ≡ ok true)

    pub record IsSafe (s : System K P) : Type 0 where
      pub valid : IsValid dec Q s.cache
      pub held : (t : ℕ) → IsHeld (s.phase t)

    move-IsSafe :
        (t : ℕ) (p : Phase K P) (c : PlanCache K P) (s : System K P)
        → IsSafe s
        → IsValid dec Q c
        → IsHeld p
        → IsSafe (move t p c s)
    move-IsSafe t p c s safe v h = record {
      valid = v;
      held = λ u. elim (Bool-cases (u == t)) [ inl e ↦ rw e h | inr e ↦ rw e (safe.held u) ];
    }

    clear-IsValid : (c : PlanCache K P) → IsValid dec Q c → IsValid dec Q (clear c)
    unfolding clear
    clear-IsValid c v = record {
      positive = v.positive;
      bounded = omega arith;
      distinct = tt;
      buckets = tt;
    }

    pub Step-IsSafe : {s u : System K P} → Step Q s u → IsSafe s → IsSafe u
    Step-IsSafe {s} (look_found t k validate b e) h =
        move-IsSafe t _ _ s h (snapshot-IsValid dec Q k s.cache h.valid)
          (snapshot-All dec Q k s.cache b h.valid e)
    Step-IsSafe {s} (look_absent t k e) h =
        move-IsSafe t idle _ s h (snapshot-IsValid dec Q k s.cache h.valid) tt
    Step-IsSafe {s} (hit t k validate b x e f) h =
        let found = first_valid-All (Q k) validate b x (rw e at (h.held t)) f in
        move-IsSafe t _ _ s h (count_hit-IsValid dec Q k x s.cache found.0 h.valid) found
    Step-IsSafe {s} (miss t k validate b e f) h =
        move-IsSafe t idle _ s h (count_miss-IsValid dec Q s.cache h.valid) tt
    Step-IsSafe {s} (raised t k validate b e p f) h = move-IsSafe t idle _ s h h.valid tt
    Step-IsSafe {s} (store t k x q) h =
        move-IsSafe t idle _ s h (put-IsValid dec Q k x s.cache q h.valid) tt
    Step-IsSafe {s} (drop_all t) h = move-IsSafe t idle _ s h (clear-IsValid s.cache h.valid) tt

    -- From a valid cache, in every interleaving of lookups, stores and clears: the cache keeps its
    -- bounds, and a request is served only a candidate that was stored under its key and that its
    -- own validation accepted.
    pub Reach-IsSafe : {s u : System K P} → IsSafe s → Reach Q s u → IsSafe u
    Reach-IsSafe h here = h
    Reach-IsSafe h (next r st) = Step-IsSafe st (Reach-IsSafe h r)
