-- ===== src/Samples/Rewriting.antt =====
-- A concrete plan for the rewrites of src/grafast_py/dag.py: steps 1 and 2 read step 0, step 3 reads both,
-- and step 2 is merged into step 1.
use grafast_py.Prelude.{
  false, not, ◌==◌, arith, ℕ, ◌<◌, Bool, some, true, List, [], ◌∷◌, has, ◌≡◌, ◌↔◌, refl, ◌&&◌,
}
use grafast_py.Dag.Plan.{
  Plan, dependents_of, eradicate, link, register, shaken, tree_shake, sweep_dead,
}
use grafast_py.Dag.Inverse.{IsInverse, is_dep, is_live}
use grafast_py.Dag.Defs.{never}
use grafast_py.Dag.Emit.{IsRanked}
use grafast_py.Dag.Shake.{IsShaken, tree_shake-IsShaken}
use grafast_py.Dag.Dependents.{IsOnce, dependents_of-IsOnce}
use grafast_py.Dag.Reached.{
  Reached, Reached-IsInverse, new_plan, start, then_eradicate, then_register,
}

abbrev built : Plan
built =
    register (1 ∷ 2 ∷ []) true
      (register (0 ∷ []) true (register (0 ∷ []) true (register [] true new_plan)))

built-Reached : Reached built
built-Reached = then_register _ _ (then_register _ _ (then_register _ _ (then_register _ _ start)))

abbrev merged : Plan
merged = eradicate 2 1 built

two_is_a_step : has built.steps 2 ≡ true
unfolding has
two_is_a_step = refl

merged-Reached : Reached merged
merged-Reached = then_eradicate 2 1 two_is_a_step built-Reached

merged_dependents : dependents_of merged 1 ≡ 3 ∷ []
unfolding dependents_of eradicate link has
merged_dependents = refl

merged_dependencies : merged.dependencies 3 ≡ 1 ∷ 1 ∷ []
unfolding eradicate link
merged_dependencies = refl

Reached-IsInverse_example : IsInverse merged × IsInverse (sweep_dead merged)
Reached-IsInverse_example = Reached-IsInverse merged-Reached

dependents_of-IsOnce_example :
    IsOnce (dependents_of merged 1)
    × ((s : ℕ)
        → (has (dependents_of merged 1) s ≡ true)
          ↔ ((i : ℕ) × ((is_live merged s && is_dep (merged.dependencies s) i 1) ≡ true)))
dependents_of-IsOnce_example = dependents_of-IsOnce merged-Reached 1

-- Step 1 is a write that reads step 0; nothing reads step 2.
abbrev with_write : Plan
with_write = register [] true (register (0 ∷ []) false (register [] true new_plan))

with_write-Reached : Reached with_write
with_write-Reached = then_register _ _ (then_register _ _ (then_register _ _ start))

abbrev dedupable : ℕ → Bool
dedupable s = not (s == 1)

abbrev identity_rank : ℕ → ℕ
identity_rank a = a

with_write-IsRanked : IsRanked with_write.dependencies never identity_rank
unfolding has
with_write-IsRanked a d h = ground arith

below_three : (t : ℕ) → has with_write.steps t ≡ true → t < 3
unfolding has
below_three t h = ground arith

root_below : (t : ℕ) → has (0 ∷ []) t ≡ true → t < 3
unfolding has
root_below t h = ground arith

-- The write stays and is returned, the step that nothing reads goes.
shake_run :
    tree_shake 3 (0 ∷ []) dedupable with_write
    ≡ some (shaken (0 ∷ []) (0 ∷ 1 ∷ []) (1 ∷ []) with_write)
unfolding tree_shake
shake_run = refl

tree_shake-IsShaken_example :
    (result : Plan × List ℕ) × (tree_shake 3 (0 ∷ []) dedupable with_write ≡ some result)
    × IsShaken (0 ∷ []) dedupable with_write result
tree_shake-IsShaken_example =
    tree_shake-IsShaken 3 (0 ∷ []) dedupable with_write identity_rank with_write-IsRanked root_below
      below_three (Reached-IsInverse with_write-Reached).0
