-- ===== src/Dag/Merges.antt =====
-- The remaps of the passes of src/grafast_py/dag.py: `_resolve_merged`, which also is the end of
-- `Plan.deduplicate`, and `_compose_remaps`. A step is its plan id, and a remap is the dictionary
-- from the old ids to the steps. The chase of a chain has fuel, and `none` means that it ran out.
use native.Mathlib.Decide.{ℕ_discrete}
use grafast_py.Prelude.{ℕ, zero, suc, true, false, Option, none, some, List, [], ◌∷◌, ◌==◌}
use grafast_py.Prelude.Assoc.{lookup, set_item}

abbrev pub Remap : Type 0
Remap = List (ℕ × ℕ)

abbrev pub get_id : ℕ → Remap → Option ℕ
get_id i m = lookup ℕ_discrete i m

-- `while final.id in merged and merged[final.id] is not final: final = merged[final.id]`
unfoldable pub chase : ℕ → Remap → ℕ → Option ℕ
chase zero merged final = none
chase (suc fuel) merged final = elim (get_id final merged) [
  | none ↦ some final
  | some next ↦ elim (next == final) [ true ↦ some final | false ↦ chase fuel merged next ]
]

-- The loop of `_resolve_merged` over the items of `merged`.
unfoldable pub resolve_items : ℕ → Remap → Remap → Option Remap
unfolding chase
resolve_items fuel merged [] = some []
resolve_items fuel merged ((old_id, immediate) ∷ rest) = elim (chase fuel merged immediate) [
  | none ↦ none
  | some final ↦ elim (resolve_items fuel merged rest) [
    | none ↦ none
    | some out ↦ some ((old_id, final) ∷ out)
  ]
]

-- `_resolve_merged`
unfoldable pub resolve_merged : ℕ → Remap → Option Remap
unfolding resolve_items
resolve_merged fuel merged = resolve_items fuel merged merged

-- `second.get(mid.id, mid)`
abbrev pub or_self : ℕ → Option ℕ → ℕ
or_self mid none = mid
or_self mid (some final) = final

-- The loop over `first`.
unfoldable pub forward : Remap → Remap → Remap
forward second [] = []
forward second ((old_id, mid) ∷ rest) =
    (old_id, or_self mid (get_id mid second)) ∷ forward second rest

abbrev pub set_default : ℕ → ℕ → Remap → Remap
set_default k v m = elim (get_id k m) [ none ↦ set_item ℕ_discrete k v m | some w ↦ m ]

-- The loop over `second`.
unfoldable pub carry : Remap → Remap → Remap
carry [] composed = composed
carry ((old_id, survivor) ∷ rest) composed = carry rest (set_default old_id survivor composed)

-- `_compose_remaps`
unfoldable pub compose_remaps : Remap → Remap → Remap
unfolding forward carry
compose_remaps first second = carry second (forward second first)
