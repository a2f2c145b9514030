-- ===== src/Samples/Caching.antt =====
-- Concrete caches for src/grafast_py/cache.py.
use native.Mathlib.Decide.{ℕ_discrete}
use grafast_py.Prelude.{ℕ, ◌+◌, ◌-◌, Bool, true, some, [], ◌∷◌, length, drop, ◌≡◌, refl, arith}
use grafast_py.Prelude.Assoc.{lookup, move_to_end}
use grafast_py.Constraints.Defs.{Result, ok}
use grafast_py.Cache.Defs.{
  CachedPlan, PlanCache, first_valid, one_if, snapshot, count_hit, get, is_over, put,
}
use grafast_py.Cache.Bounds.{IsValid, put-IsValid}
use grafast_py.Cache.Lookup.{get_sound, get-put, put_entries, touched}
use grafast_py.Cache.Interleaving.{
  System, idle, checking, served, move, look_found, hit, store, Reach, here, next, IsSafe,
  Reach-IsSafe,
}

abbrev Stored : ℕ → CachedPlan ℕ → Type 0
Stored k x = x.schema ≡ k

abbrev entry : ℕ → ℕ → CachedPlan ℕ
entry i k = record { identity = i; triple = i; schema = k; constraints = [] }

abbrev empty_cache : PlanCache ℕ ℕ
empty_cache = record { max_entries = 1; entries = []; hits = 0; misses = 0; evictions = 0 }

abbrev one_entry : PlanCache ℕ ℕ
one_entry = record empty_cache { entries = (5, entry 0 5 ∷ []) ∷ [] }

empty_cache-IsValid : IsValid ℕ_discrete Stored empty_cache
empty_cache-IsValid = record {
  positive = omega arith;
  bounded = omega arith;
  distinct = tt;
  buckets = tt;
}

one_entry-IsValid : IsValid ℕ_discrete Stored one_entry
unfolding lookup
one_entry-IsValid = record {
  positive = omega arith;
  bounded = omega arith;
  distinct = (refl, tt);
  buckets = ((omega arith, omega arith, (refl, tt)), tt);
}

abbrev accepts_all : CachedPlan ℕ → Result Bool
accepts_all x = ok true

put-IsValid_example : IsValid ℕ_discrete Stored (put ℕ_discrete 7 (entry 1 7) one_entry).0
put-IsValid_example = put-IsValid ℕ_discrete Stored 7 (entry 1 7) one_entry refl one_entry-IsValid

put_entries_example :
    ((put ℕ_discrete 7 (entry 1 7) one_entry).0.entries
      ≡ drop
          (length (touched ℕ_discrete 7 (entry 1 7) one_entry) - 1)
          (touched ℕ_discrete 7 (entry 1 7) one_entry))
    × ((put ℕ_discrete 7 (entry 1 7) one_entry).0.evictions
        ≡ 0
          + one_if (is_over ℕ_discrete 7 (entry 1 7) one_entry)
          + (length (touched ℕ_discrete 7 (entry 1 7) one_entry) - 1))
put_entries_example = put_entries ℕ_discrete 7 (entry 1 7) one_entry

get-put_example :
    ((get ℕ_discrete 7 (some accepts_all) (put ℕ_discrete 7 (entry 1 7) one_entry).0).0
      ≡ ok (some (entry 1 7)))
    × ((get ℕ_discrete 7 (some accepts_all) (put ℕ_discrete 7 (entry 1 7) one_entry).0).1.hits
        ≡ (put ℕ_discrete 7 (entry 1 7) one_entry).0.hits + 1)
get-put_example = get-put ℕ_discrete 7 accepts_all (entry 1 7) one_entry (omega arith) refl

get_sound_example : Stored 5 (entry 0 5) × (accepts_all (entry 0 5) ≡ ok true)
unfolding get snapshot lookup move_to_end first_valid ℕ_discrete
get_sound_example =
    get_sound ℕ_discrete Stored 5 accepts_all one_entry (entry 0 5) one_entry-IsValid refl

abbrev quiet : System ℕ ℕ
quiet = record { cache = one_entry; phase = λ t. idle }

quiet-IsSafe : IsSafe ℕ_discrete Stored quiet
quiet-IsSafe = record { valid = one_entry-IsValid; held = λ t. tt }

-- Request 0 takes its snapshot, request 1 stores another key, and request 0 records its hit.
abbrev looked : System ℕ ℕ
looked =
    move ℕ_discrete 0 (checking 5 accepts_all (entry 0 5 ∷ [])) (snapshot ℕ_discrete 5 one_entry).1
      quiet

abbrev replaced : System ℕ ℕ
replaced = move ℕ_discrete 1 idle (put ℕ_discrete 7 (entry 1 7) looked.cache).0 looked

abbrev answered : System ℕ ℕ
answered =
    move ℕ_discrete 0 (served 5 accepts_all (entry 0 5))
      (count_hit ℕ_discrete 5 (entry 0 5) replaced.cache) replaced

quiet-Reach : Reach ℕ_discrete Stored quiet answered
unfolding snapshot lookup first_valid ℕ_discrete
quiet-Reach =
    next
      (next (next here (look_found 0 5 accepts_all (entry 0 5 ∷ []) refl))
        (store 1 7 (entry 1 7) refl))
      (hit 0 5 accepts_all (entry 0 5 ∷ []) (entry 0 5) refl refl)

Reach-IsSafe_example : IsSafe ℕ_discrete Stored answered
Reach-IsSafe_example = Reach-IsSafe ℕ_discrete Stored quiet-IsSafe quiet-Reach
