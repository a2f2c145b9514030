-- ===== src/Loading/Each.antt =====
-- `EachStep` of src/grafast_py/core_steps.py: the items of all lists go through the mapper's steps in
-- one flat bucket. The sub-run is the parameter `run_items`.
use grafast_py.Prelude.{ℕ, zero, suc, Option, none, some, List, [], ◌∷◌, ◌++◌, map, replicate}
use grafast_py.Steps.Defs.{
  Output, Ran, ready, awaitable, throws, done, failed, outcome, index_error, type_error,
}
use grafast_py.Loading.Defs.{ColumnEntry, and_then, cons_both, held, null, or_index_error, poisoned}

module _ {A : Type 0} where
  abbrev pub add_items : ℕ → Option (List A) → Ran (List (A × ℕ)) → Ran (List (A × ℕ))
  add_items i none rest = failed type_error
  add_items i (some xs) (failed e) = failed e
  add_items i (some xs) (done pairs) = done (map (λ x. (x, i)) xs ++ pairs)

module _ {A E : Type 0} where
  -- `per_parent_lists[i] or []`, and `none` for what is not iterable.
  abbrev pub items_of : ColumnEntry (List A) E → Option (List A)
  items_of null = some []
  items_of (poisoned e) = none
  items_of (held xs) = some xs

  -- The flat items with their owners.
  unfoldable pub explode : ℕ → ℕ → List (ColumnEntry (List A) E) → Ran (List (A × ℕ))
  explode zero i column = done []
  explode (suc n) i [] = failed index_error
  explode (suc n) i (x ∷ column) = add_items i (items_of x) (explode n (suc i) column)

-- `grouped[owner].append(value)`
unfoldable pub append_at : {B : Type 0} → ℕ → B → List (List B) → Option (List (List B))
append_at i y [] = none
append_at zero y (g ∷ groups) = some ((g ++ y ∷ []) ∷ groups)
append_at (suc i) y (g ∷ groups) = cons_both (some g) (append_at i y groups)

module _ {B : Type 0} where
  -- The loop of `regroup`.
  unfoldable pub regroup : List (List B) → List ℕ → List B → Option (List (List B))
  unfolding append_at
  regroup groups [] mapped_col = some groups
  regroup groups (owner ∷ owners) [] = none
  regroup groups (owner ∷ owners) (y ∷ mapped_col) =
      and_then (append_at owner y groups) (λ grouped. regroup grouped owners mapped_col)

  abbrev pub regroup_output : ℕ → List ℕ → Output B → Output (List B)
  regroup_output count owners (throws e) = throws e
  regroup_output count owners (ready col) = or_index_error (regroup (replicate count []) owners col)
  regroup_output count owners (awaitable (failed e)) = awaitable (failed e)
  regroup_output count owners (awaitable (done col)) =
      awaitable (outcome (or_index_error (regroup (replicate count []) owners col)))

module _ {A B : Type 0} (run_items : List A → Output B) where
  abbrev pub each_from : ℕ → Ran (List (A × ℕ)) → Output (List B)
  each_from count (failed e) = throws e
  each_from count (done pairs) =
      regroup_output count (map (λ p. p.1) pairs) (run_items (map (λ p. p.0) pairs))

module _ {A B E : Type 0} (run_items : List A → Output B) where
  unfoldable pub each_execute : ℕ → List (List (ColumnEntry (List A) E)) → Output (List B)
  unfolding explode regroup
  each_execute count [] = throws index_error
  each_execute count (column ∷ values) = each_from run_items count (explode count 0 column)
