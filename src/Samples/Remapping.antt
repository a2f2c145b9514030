-- ===== src/Samples/Remapping.antt =====
-- Concrete remaps for src/grafast_py/dag.py.
use native.Mathlib.Decide.{ℕ_discrete}
use grafast_py.Prelude.{ℕ, ◌<◌, some, [], ◌∷◌, ◌≡◌, refl, arith, ltb, if◌then◌else◌}
use grafast_py.Prelude.Assoc.{lookup}
use grafast_py.Dag.Merges.{Remap, resolve_merged, compose_remaps}
use grafast_py.Dag.Remaps.{moved, Descends, Resolves, moved-compose_remaps, resolve_merged-Resolves}

-- 7 became 5, and 5 became 2.
abbrev merged : Remap
merged = (7, 5) ∷ (5, 2) ∷ []

abbrev later : Remap
later = (2, 1) ∷ []

resolve_merged_lem : resolve_merged 9 merged ≡ some ((7, 2) ∷ (5, 2) ∷ [])
unfolding resolve_merged lookup ℕ_discrete
resolve_merged_lem = refl

moved-compose_remaps_example : moved (compose_remaps merged later) 5 ≡ moved later (moved merged 5)
moved-compose_remaps_example = moved-compose_remaps merged later 5

-- The id itself up to 8, and 0 beyond.
abbrev rank : ℕ → ℕ
rank i = if ltb i 8 then i else 0

merged-Descends : Descends merged rank
unfolding lookup
merged-Descends i j e h = ground arith

rank_bound : (i : ℕ) → rank i < 9
rank_bound i = ground arith

resolve_merged-Resolves_example :
    (out : Remap) × (resolve_merged 9 merged ≡ some out) × Resolves merged rank merged out
resolve_merged-Resolves_example = resolve_merged-Resolves merged rank 9 merged-Descends rank_bound
