-- ===== src/Loading/Load.antt =====
-- `LoadStep` of src/grafast_py/core_steps.py: the keys of a bucket are loaded by one call.
use grafast_py.Prelude.{
  ℕ, Bool, Option, none, some, List, [], ◌∷◌, ◌++◌, length, get_elem?, replicate, ◌==◌,
  if◌then◌else◌,
}
use grafast_py.Steps.Defs.{
  Output, Ran, ready, awaitable, throws, done, outcome, assertion_error, index_error,
}
use grafast_py.Loading.Defs.{
  ColumnEntry, Called, and_then, each_index, or_index_error, first_entries, poisoned, returned,
  raised,
}

-- What a `load_fn` gives: rows, an awaitable, or an exception.
pub data Loaded (R E : Type 0) : Type 0 where
  rows : List R → Loaded R E
  pending : Called (List R) E → Loaded R E
  refused : E → Loaded R E

-- What it gives in the end.
abbrev pub settled : {R E : Type 0} → Loaded R E → Called (List R) E
settled (rows xs) = returned xs
settled (pending p) = p
settled (refused e) = raised e

-- The equality of hashable keys, and which keys are hashable.
pub record Keys (K : Type 0) : Type 0 where
  pub is_hashable : K → Bool
  pub same : K → K → Bool

-- The slot of a key, the unique keys and the dict of slots after it.
pub record Seat (K : Type 0) : Type 0 where
  pub slot : ℕ
  pub unique_keys : List K
  pub slot_for_key : List (K × ℕ)

module _ {K : Type 0} (keys_of : Keys K) where
  abbrev pub slot_of : K → List (K × ℕ) → Option ℕ
  slot_of k [] = none
  slot_of k ((j, s) ∷ rest) = if keys_of.same j k then some s else slot_of k rest

  abbrev pub seat_hashable : K → List K → List (K × ℕ) → Option ℕ → Seat K
  seat_hashable k unique dict (some s) = record {
    slot = s;
    unique_keys = unique;
    slot_for_key = dict;
  }
  seat_hashable k unique dict none = record {
    slot = length unique;
    unique_keys = unique ++ k ∷ [];
    slot_for_key = (k, length unique) ∷ dict;
  }

  -- One round of the coalescing loop.
  abbrev pub seat : K → List K → List (K × ℕ) → Seat K
  seat k unique dict =
      if keys_of.is_hashable k
      then seat_hashable k unique dict (slot_of k dict)
      else record { slot = length unique; unique_keys = unique ++ k ∷ []; slot_for_key = dict }

  -- The loop: the unique keys and each entry's slot.
  unfoldable pub coalesce : List K → List (K × ℕ) → List K → List K × List ℕ
  coalesce unique dict [] = (unique, [])
  coalesce unique dict (k ∷ ks) =
      let s = seat k unique dict in
      let (final, slots) = coalesce s.unique_keys s.slot_for_key ks in (final, s.slot ∷ slots)

module _ {V E : Type 0} where
  -- `LoadStep._scatter`
  abbrev pub scatter_rows : List (ColumnEntry V E) → List ℕ → ℕ → ℕ → Output (ColumnEntry V E)
  scatter_rows loaded entry_slot count n_keys =
      if length loaded == n_keys
      then or_index_error
          (each_index count (λ i. and_then (get_elem? entry_slot i) (get_elem? loaded)))
      else throws assertion_error

  abbrev pub finish_load :
      List ℕ → ℕ → ℕ → Called (List (ColumnEntry V E)) E → Ran (List (ColumnEntry V E))
  finish_load entry_slot count n_keys (raised e) = done (replicate count (poisoned e))
  finish_load entry_slot count n_keys (returned resolved) =
      outcome (scatter_rows resolved entry_slot count n_keys)

  abbrev pub dispatch : List ℕ → ℕ → ℕ → Loaded (ColumnEntry V E) E → Output (ColumnEntry V E)
  dispatch entry_slot count n_keys (refused e) = ready (replicate count (poisoned e))
  dispatch entry_slot count n_keys (pending p) = awaitable (finish_load entry_slot count n_keys p)
  dispatch entry_slot count n_keys (rows loaded) = scatter_rows loaded entry_slot count n_keys

  module _ {K : Type 0} (keys_of : Keys K) (load_fn : List K → Loaded (ColumnEntry V E) E) where
    abbrev pub load_keys : ℕ → Option (List K) → Output (ColumnEntry V E)
    load_keys count none = throws index_error
    load_keys count (some keys) =
        let (unique, slots) = coalesce keys_of [] [] keys in
        dispatch slots count (length unique) (load_fn unique)

    unfoldable pub load_execute : ℕ → List (List K) → Output (ColumnEntry V E)
    unfolding coalesce
    load_execute count [] = throws index_error
    load_execute count (keys ∷ values) = load_keys count (first_entries count keys)
