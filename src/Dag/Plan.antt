-- ===== src/Dag/Plan.antt =====
-- The live steps of `Plan` and its reverse edges (src/grafast_py/dag.py). A step is its plan id. The
-- dict of reverse edges is a function, `none` where a key is missing.
use grafast_py.Dag.Defs.{Graph, order_steps}
use grafast_py.Prelude.{
  ℕ, zero, suc, Bool, false, ◌&&◌, not, Option, none, some, List, [], ◌∷◌, ◌++◌, length, keep, has,
  ◌==◌, if◌then◌else◌,
}

abbrev pub Edges : Type 0
Edges = List (ℕ × ℕ)

pub record Plan : Type 0 where
  pub steps : List ℕ
  pub dead_ids : List ℕ
  pub dependencies : ℕ → List ℕ
  pub is_unary : ℕ → Bool
  pub dependents_index : ℕ → Option Edges

abbrev pub put_at : {A : Type 0} → ℕ → A → (ℕ → A) → ℕ → A
put_at k a f x = if k == x then a else f x

abbrev pub or_empty : Option Edges → Edges
or_empty none = []
or_empty (some edges) = edges

-- `dependent.dependencies[idx] = survivor`
unfoldable pub set_nth : ℕ → ℕ → List ℕ → List ℕ
set_nth i v [] = []
set_nth zero v (d ∷ ds) = v ∷ ds
set_nth (suc i) v (d ∷ ds) = d ∷ set_nth i v ds

abbrev pub add_edge : ℕ → ℕ × ℕ → (ℕ → Option Edges) → ℕ → Option Edges
add_edge k edge index = put_at k (some (or_empty (index k) ++ edge ∷ [])) index

-- The loop of `_register` over the step's dependencies.
unfoldable pub link : ℕ → ℕ → List ℕ → (ℕ → Option Edges) → ℕ → Option Edges
link step idx [] index = index
link step idx (dep ∷ deps) index = link step (suc idx) deps (add_edge dep (step, idx) index)

-- `_register` of a new step whose dependencies are registered: its id and the plan.
abbrev pub register : List ℕ → Bool → Plan → Plan
register deps unary p =
    let n = length p.steps in
    record {
      steps = p.steps ++ n ∷ [];
      dead_ids = p.dead_ids;
      dependencies = put_at n deps p.dependencies;
      is_unary = put_at n unary p.is_unary;
      dependents_index = link n 0 deps p.dependents_index;
    }

abbrev pub Wires : Type 0
Wires = (ℕ → List ℕ) × (ℕ → Bool)

-- The loop of `eradicate` over the moved edges: the dependencies and the unariness.
unfoldable pub repoint : ℕ → Bool → Edges → Wires → Wires
unfolding set_nth
repoint survivor unary [] w = w
repoint survivor unary ((s, i) ∷ moved) (deps, is_unary) = repoint survivor unary moved (
  put_at s (set_nth i survivor (deps s)) deps,
  (if unary then is_unary else put_at s false is_unary),
)

abbrev pub is_edge : ℕ → ℕ → ℕ × ℕ → Bool
is_edge s i (t, j) = (t == s) && (j == i)

abbrev pub without_edge : ℕ → ℕ → Option Edges → Option Edges
without_edge s i none = none
without_edge s i (some edges) = some (keep (λ e. not (is_edge s i e)) edges)

-- The loop of `eradicate` over the dead step's own dependencies.
unfoldable pub unlink : ℕ → ℕ → List ℕ → (ℕ → Option Edges) → ℕ → Option Edges
unlink dead idx [] index = index
unlink dead idx (dep ∷ deps) index =
    unlink dead (suc idx) deps (put_at dep (without_edge dead idx (index dep)) index)

-- The reverse edges with those of the dead step moved to the survivor.
abbrev pub move_edges : ℕ → ℕ → (ℕ → Option Edges) → ℕ → Option Edges
move_edges dead survivor index =
    let moved = or_empty (index dead) in
    let popped = put_at dead none index in
    put_at survivor (some (or_empty (popped survivor) ++ moved)) popped

abbrev pub eradicated : ℕ → ℕ → Plan → Plan
eradicated dead survivor p =
    let (deps, unary) =
      repoint survivor (p.is_unary survivor) (or_empty (p.dependents_index dead))
        (p.dependencies, p.is_unary) in
    record {
      steps = p.steps;
      dead_ids = dead ∷ p.dead_ids;
      dependencies = deps;
      is_unary = unary;
      dependents_index = unlink dead 0 (deps dead) (move_edges dead survivor p.dependents_index);
    }

unfoldable pub eradicate : ℕ → ℕ → Plan → Plan
unfolding repoint unlink
eradicate dead survivor p = if dead == survivor then p else eradicated dead survivor p

-- `_sweep_dead`
unfoldable pub sweep_dead : Plan → Plan
sweep_dead p = record {
  steps = keep (λ s. not (has p.dead_ids s)) p.steps;
  dead_ids = [];
  dependencies = p.dependencies;
  is_unary = p.is_unary;
  dependents_index = p.dependents_index;
}

-- The loop of `dependents_of`, with the steps seen so far.
unfoldable pub distinct_dependents : List ℕ → Edges → List ℕ
distinct_dependents seen [] = []
distinct_dependents seen ((s, i) ∷ edges) =
    let rest = distinct_dependents seen edges in
    let more = distinct_dependents (s ∷ seen) edges in if has seen s then rest else s ∷ more

unfoldable pub dependents_of : Plan → ℕ → List ℕ
unfolding distinct_dependents
dependents_of p step = distinct_dependents [] (or_empty (p.dependents_index step))

abbrev pub pruned : List ℕ → Option Edges → Option Edges
pruned kept none = none
pruned kept (some edges) = some (keep (λ e. has kept e.0) edges)

abbrev pub prune : List ℕ → (ℕ → Option Edges) → ℕ → Option Edges
prune kept index d = if has kept d then pruned kept (index d) else none

abbrev pub graph_of : Plan → Graph
graph_of p = record { deps = p.dependencies; ident = some }

-- `{s.id for s in order_steps(targets)}`: in a plan every id is set.
abbrev pub ids_of : {A : Type 0} → Option (List ℕ × A) → Option (List ℕ)
ids_of none = none
ids_of (some (ordered, ident)) = some ordered

abbrev pub side_effecting : (ℕ → Bool) → Plan → List ℕ
side_effecting dedupable p = keep (λ s. not (dedupable s)) p.steps

-- The trim, once the two reachable sets are there.
abbrev pub shaken : List ℕ → List ℕ → List ℕ → Plan → Plan × List ℕ
shaken reachable forced writes p =
    let kept = reachable ++ forced in
    (
      record {
        steps = keep (has kept) p.steps;
        dead_ids = p.dead_ids;
        dependencies = p.dependencies;
        is_unary = p.is_unary;
        dependents_index = prune kept p.dependents_index;
      },
      keep (λ s. not (has reachable s)) writes,
    )

abbrev pub shake_from : Option (List ℕ) → Option (List ℕ) → List ℕ → Plan → Option (Plan × List ℕ)
shake_from none forced writes p = none
shake_from (some reachable) none writes p = none
shake_from (some reachable) (some forced) writes p = some (shaken reachable forced writes p)

-- `tree_shake` from the consumption roots: the plan, and the side-effecting steps that no root
-- reaches. `none` means that an ordering ran out of fuel.
unfoldable pub tree_shake : ℕ → List ℕ → (ℕ → Bool) → Plan → Option (Plan × List ℕ)
unfolding order_steps
tree_shake fuel consumption_roots dedupable p =
    let writes = side_effecting dedupable p in
    shake_from (ids_of (order_steps fuel (graph_of p) consumption_roots))
      (ids_of (order_steps fuel (graph_of p) writes)) writes p
