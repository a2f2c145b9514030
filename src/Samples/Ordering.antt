-- ===== src/Samples/Ordering.antt =====
-- A concrete graph of steps for src/grafast_py/dag.py.
use grafast_py.Prelude.{
  ℕ, ◌<◌, Bool, true, Option, none, some, List, [], ◌∷◌, ◌≡◌, refl, arith, has, ◌==◌, if◌then◌else◌,
}
use grafast_py.Dag.Defs.{Graph, never, order_steps_within, order_steps}
use grafast_py.Dag.Emit.{IsRanked}
use grafast_py.Dag.Order.{Orders, at_boundary, order_steps_within-Orders}
use grafast_py.Dag.Idents.{Numbers, order_steps-Orders}

abbrev diamond_deps : ℕ → List ℕ
diamond_deps a =
    if a == 4 then 2 ∷ 3 ∷ [] else if a == 3 then 1 ∷ [] else if a == 2 then 1 ∷ [] else []

abbrev diamond_ident : ℕ → Option ℕ
diamond_ident a = if a == 1 then some 0 else none

abbrev diamond : Graph
diamond = record { deps = diamond_deps; ident = diamond_ident }

abbrev identity_rank : ℕ → ℕ
identity_rank a = a

diamond-IsRanked : (stops : ℕ → Bool) → IsRanked diamond_deps stops identity_rank
unfolding has
diamond-IsRanked stops a d h = ground arith

target_bound : (t : ℕ) → has (4 ∷ []) t ≡ true → t < 9
unfolding has
target_bound t h = ground arith

within_lem : order_steps_within 9 diamond (4 ∷ []) (0 ∷ []) ≡ some (2 ∷ 3 ∷ 4 ∷ [])
unfolding order_steps_within
within_lem = refl

order_steps_within-Orders_example :
    (result : List ℕ) × (order_steps_within 9 diamond (4 ∷ []) (0 ∷ []) ≡ some result)
    × Orders diamond_deps (at_boundary diamond (0 ∷ [])) (4 ∷ []) result
order_steps_within-Orders_example =
    order_steps_within-Orders 9 diamond (4 ∷ []) (0 ∷ []) identity_rank
      (diamond-IsRanked (at_boundary diamond (0 ∷ []))) target_bound

ident_apart : (x y i : ℕ) → diamond_ident x ≡ some i → diamond_ident y ≡ some i → x ≡ y
ident_apart x y i p q = ground arith

order_steps-Orders_example :
    (result : List ℕ) × (ident' : ℕ → Option ℕ) × (order_steps 9 diamond (4 ∷ [])
      ≡ some (result, ident'))
    × Orders diamond_deps never (4 ∷ []) result
    × Numbers result diamond_ident ident' result
order_steps-Orders_example =
    order_steps-Orders 9 diamond (4 ∷ []) identity_rank (diamond-IsRanked never) target_bound
      ident_apart
