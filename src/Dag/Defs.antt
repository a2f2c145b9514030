-- ===== src/Dag/Defs.antt =====
-- The orderings of src/grafast_py/dag.py. A step object is a number, its identity; `deps` are its
-- `dependencies`, and `ident` is its plan id, `none` while it is unset (-1). Recursion has fuel,
-- and `none` means that it ran out.
use grafast_py.Prelude.{
  length, ℕ, zero, suc, ◌+◌, Bool, true, false, Option, none, some, List, [], ◌∷◌, ◌++◌, has,
  if◌then◌else◌, ◌==◌,
}

pub record Graph : Type 0 where
  pub deps : ℕ → List ℕ
  pub ident : ℕ → Option ℕ

-- `ordered` and `visited` of the depth-first search.
pub record Search : Type 0 where
  pub ordered : List ℕ
  pub visited : List ℕ

-- A `for` loop whose body may fail.
unfoldable pub each : (ℕ → Search → Option Search) → List ℕ → Search → Option Search
each f [] s = some s
each f (a ∷ as') s = elim (f a s) [ none ↦ none | some s' ↦ each f as' s' ]

abbrev pub mark : ℕ → Search → Search
mark a s = record s { visited = a ∷ s.visited }

abbrev pub emit : ℕ → Search → Search
emit a s = record s { ordered = s.ordered ++ a ∷ [] }

module _ (deps : ℕ → List ℕ) (stops : ℕ → Bool) where
  -- The inner `visit`. `stops` is the boundary test, which `order_steps` does not have.
  unfoldable pub visit : ℕ → ℕ → Search → Option Search
  visit zero a s = none
  visit (suc fuel) a s = elim (has s.visited a) [
    | true ↦ some s
    | false ↦ elim (stops a) [
      | true ↦ some (mark a s)
      | false ↦ elim (each (visit fuel) (deps a) (mark a s)) [
        | none ↦ none
        | some s' ↦ some (emit a s')
      ]
    ]
  ]

abbrev pub started : Search
started = record { ordered = []; visited = [] }

abbrev pub ordered_of : Option Search → Option (List ℕ)
ordered_of none = none
ordered_of (some s) = some s.ordered

abbrev pub never : ℕ → Bool
never a = false

abbrev pub in_boundary : List ℕ → Option ℕ → Bool
in_boundary ids none = false
in_boundary ids (some i) = has ids i

-- `order_steps_within`
unfoldable pub order_steps_within : ℕ → Graph → List ℕ → List ℕ → Option (List ℕ)
unfolding visit each has
order_steps_within fuel g targets boundary_ids =
    ordered_of
      (each (visit g.deps (λ a. in_boundary boundary_ids (g.ident a)) fuel) targets started)

-- The walk of `order_steps`.
unfoldable pub walk : ℕ → Graph → List ℕ → Option (List ℕ)
unfolding visit each has
walk fuel g targets = ordered_of (each (visit g.deps never fuel) targets started)

-- `while next_id in used: next_id += 1`
unfoldable pub find_free : ℕ → List ℕ → ℕ → ℕ
find_free zero used n = n
find_free (suc fuel) used n =
    let later = find_free fuel used (n + 1) in if has used n then later else n

abbrev pub set_ident : (ℕ → Option ℕ) → ℕ → ℕ → ℕ → Option ℕ
set_ident ident a i x = if a == x then some i else ident x

-- `{s.id for s in ordered if s.id >= 0}`
unfoldable pub used_idents : (ℕ → Option ℕ) → List ℕ → List ℕ
used_idents ident [] = []
used_idents ident (a ∷ as') = elim (ident a) [
  | none ↦ used_idents ident as'
  | some i ↦ i ∷ used_idents ident as'
]

-- The loop of `order_steps` that numbers the steps whose id is unset; each search for a free
-- number has the fuel that the used ones can take.
unfoldable pub assign : List ℕ → (ℕ → Option ℕ) → List ℕ → ℕ → ℕ → Option ℕ
assign [] ident used next = ident
assign (a ∷ as') ident used next = elim (ident a) [
  | some i ↦ assign as' ident used next
  | none ↦
      let i = find_free (length used + 1) used next in assign as' (set_ident ident a i) (i ∷ used) i
]

-- `order_steps`: the order, and the plan ids after it.
unfoldable pub order_steps : ℕ → Graph → List ℕ → Option (List ℕ × (ℕ → Option ℕ))
unfolding walk assign find_free used_idents
order_steps fuel g targets = elim (walk fuel g targets) [
  | none ↦ none
  | some ordered ↦ some (ordered, assign ordered g.ident (used_idents g.ident ordered) 0)
]
