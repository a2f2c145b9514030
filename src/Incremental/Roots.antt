-- ===== src/Incremental/Roots.antt =====
-- What the operations of `IncGraph` do to the root nodes (src/grafast_py/incremental.py).
use grafast_py.Prelude.{
  ℕ, ◌<◌, Bool, true, not, ◌&&◌, ◌||◌, none, some, List, [], ◌∷◌, has, All, All-of-has, All-has,
  ◌==◌, ◌≡◌, refl, subst, sym, ap, arith, Bool-cases, inl, inr, &&-true,
}
use grafast_py.Incremental.Defs.{Revealed, Records, IncGraph, del_key, for_all, update_at}
use grafast_py.Incremental.Frames.{GraphWires, wires, wires-flush_runs}
use grafast_py.Incremental.Graph.{
  add_children, add_completed_group, add_incremental_records, complete_deferred_fragment,
  completed_fragment, flush_runs, forget_success, get_new_root_nodes, is_ready, promoted_initially,
  record_success, remove_root_node, Wiring,
}
use grafast_py.Incremental.Keys.{bind-some, for_all-keeps, has-del_key, some-inj, update_at-eq}
use grafast_py.Incremental.Nesting.{
  FitsParents, Grows, IsLater, IsNested, IsNumbered, add_incremental_records-IsNested,
}
use grafast_py.Incremental.Promoting.{promote_non_empty_to_root-IsPromotion}

-- The graph has these root nodes and no others but the new ones.
abbrev pub Adds : (ℕ → Bool) → List ℕ → IncGraph → Type 0
Adds root new_root_nodes graph =
    ((x : ℕ) → has graph.root_nodes x ≡ (root x || has new_root_nodes x))
    × Grows graph.node_children

-- A fragment that is ready was a root node; it is one no longer, and what it promotes is later.
abbrev pub Completes : ℕ → IncGraph → List ℕ → IncGraph → Type 0
Completes r g new_root_nodes graph =
    (has g.root_nodes r ≡ true)
    × Adds (λ x. has g.root_nodes x && not (x == r)) new_root_nodes graph
    × All (λ x. r < x) new_root_nodes

replace-Grows :
    (r : ℕ) (xs : List ℕ) (children : ℕ → List ℕ)
    → All (λ x. r < x) xs
    → Grows children
    → Grows (update_at r (λ _. xs) children)
replace-Grows r xs children later h q d e = elim (Bool-cases (r == q)) [
  | inl here ↦
      let below : r < d =
        All-has (λ x. r < x) xs d later (ground (arith, update_at-eq r (λ _. xs) children q)) in
      ground arith
  | inr there ↦ h q d (ground (arith, update_at-eq r (λ _. xs) children q))
]

module _ (w : Records) (num : IsNumbered w) where
  flush-Adds :
      (root : ℕ → Bool) (new_root_nodes : List ℕ) (graph : IncGraph)
      → Adds root new_root_nodes graph
      → Adds root new_root_nodes (flush_runs w graph)
  flush-Adds root new_root_nodes graph h =
      subst
        (λ (v : GraphWires). ((x : ℕ) → has v.0 x ≡ (root x || has new_root_nodes x)) × Grows v.1)
        (sym (wires-flush_runs w graph)) h

  abbrev Anything : ℕ → Type 0
  Anything _ = Unit {0}

  fits_initially : (records : List Revealed) → All (FitsParents w num [] none) records
  fits_initially [] = tt
  fits_initially (r ∷ rs) = (tt, fits_initially rs)

  promoted_initially-Adds :
      (x : Wiring) (new_root_nodes : List ℕ) (graph : IncGraph)
      → Grows x.0.node_children
      → promoted_initially w x ≡ some (new_root_nodes, graph)
      → Adds (has x.0.root_nodes) new_root_nodes graph
  promoted_initially-Adds (g, none) new_root_nodes graph h e = cc
  promoted_initially-Adds (g, some initial) new_root_nodes graph h e =
      let p =
        promote_non_empty_to_root-IsPromotion w Anything (λ _ _ _ _. tt) g.root_nodes initial g
          (All-of-has Anything initial (λ _ _. tt)) refl h in
      subst (λ (z : List ℕ × IncGraph). Adds (has g.root_nodes) z.0 z.1) (some-inj e)
        (flush-Adds (has g.root_nodes) _ _ (p.added, p.grows))

  pub get_new_root_nodes-Adds :
      (records : List Revealed) (g : IncGraph) (new_root_nodes : List ℕ) (graph : IncGraph)
      → Grows g.node_children
      → get_new_root_nodes w records g ≡ some (new_root_nodes, graph)
      → Adds (has g.root_nodes) new_root_nodes graph
  unfolding get_new_root_nodes
  get_new_root_nodes-Adds records g new_root_nodes graph h e =
      let (x, first, rest) = bind-some (add_incremental_records w records none (g, some [])) _ e in
      let (same, grows) =
        add_incremental_records-IsNested w num g.root_nodes none records (g, some []) x
          (fits_initially records) (refl, h) first in
      subst (λ (roots : List ℕ). Adds (has roots) new_root_nodes graph) same
        (promoted_initially-Adds x new_root_nodes graph grows rest)

  add_children-IsNested :
      (roots records : List ℕ) (children : List Revealed) (g graph : IncGraph)
      → All (IsLater records) children
      → IsNested roots (wires g)
      → add_children w records children g ≡ some graph
      → IsNested roots (wires graph)
  add_children-IsNested roots records [] g graph later h e =
      subst (λ (graph : IncGraph). IsNested roots (wires graph)) (some-inj e) h
  add_children-IsNested roots records (c ∷ children) g graph later h e =
      let (x, first, rest) =
        bind-some (add_incremental_records w (c ∷ children) (some records) (g, none)) _ e in
      let wired =
        add_incremental_records-IsNested w num roots (some records) (c ∷ children) (g, none) x later
          h first in
      subst (λ (graph : IncGraph). IsNested roots (wires graph)) (some-inj rest)
        (subst (IsNested roots) (sym (wires-flush_runs w x.0)) wired)

  pub add_completed_group-IsNested :
      (result : ℕ) (children : List Revealed) (g graph : IncGraph)
      → All (IsLater (w.defer_records (w.result_group result))) children
      → Grows g.node_children
      → add_completed_group w result children g ≡ some graph
      → IsNested g.root_nodes (wires graph)
  unfolding add_completed_group
  add_completed_group-IsNested result children g graph later h e =
      let records = w.defer_records (w.result_group result) in
      add_children-IsNested g.root_nodes records children
        (for_all (record_success w result) records g) graph later
        (for_all-keeps (λ graph. IsNested g.root_nodes (wires graph)) (record_success w result)
          (λ r graph k. k) records g (refl, h))
        e

  completed_fragment-Completes :
      (r : ℕ) (g : IncGraph)
      → has g.root_nodes r ≡ true
      → Grows g.node_children
      → Completes r g (completed_fragment w r g).0.0 (completed_fragment w r g).1
  completed_fragment-Completes r g root h =
      let cut = for_all (forget_success w) (g.successful_groups r) (remove_root_node r g) in
      let kept : wires cut ≡ wires (remove_root_node r g) =
        for_all-keeps (λ graph. wires graph ≡ wires (remove_root_node r g)) (forget_success w)
          (λ result graph e.
            for_all-keeps (λ graph. wires graph ≡ wires (remove_root_node r g)) _ (λ _ _ k. k)
              (w.defer_records (w.result_group result)) graph e)
          (g.successful_groups r) (remove_root_node r g) refl in
      let grows : Grows cut.node_children = subst (λ (v : GraphWires). Grows v.1) (sym kept) h in
      let p =
        promote_non_empty_to_root-IsPromotion w (λ x. r < x) (λ _ _ q lt. omega arith)
          (del_key r g.root_nodes) (cut.node_children r) cut
          (All-of-has (λ x. r < x) (cut.node_children r) (λ c m. grows r c m))
          (ap (λ (v : GraphWires). v.0) kept) grows in
      (
        root,
        flush-Adds _ _ _ (
          λ x. ground (arith, p.added x, has-del_key r g.root_nodes x),
          replace-Grows r _ _ p.known p.grows,
        ),
        p.promoted_node,
      )

  pub complete_deferred_fragment-Completes :
      (r : ℕ) (g : IncGraph) (new_root_nodes results : List ℕ) (graph : IncGraph)
      → Grows g.node_children
      → complete_deferred_fragment w r g ≡ some ((new_root_nodes, results), graph)
      → Completes r g new_root_nodes graph
  unfolding complete_deferred_fragment
  complete_deferred_fragment-Completes r g new_root_nodes results graph h e =
      elim (Bool-cases (is_ready w r g)) [
        | inl ready ↦
            subst (λ (z : (List ℕ × List ℕ) × IncGraph). Completes r g z.0.0 z.1)
              (some-inj (rw ready at e)) (completed_fragment-Completes r g (&&-true _ _ ready).0 h)
        | inr unready ↦ absurd (ground arith)
      ]
