-- ===== src/Incremental/Nesting.antt =====
-- Where the root nodes of src/grafast_py/incremental.py come from: objects are numbered as they are made,
-- so a child has a greater number than its parent, and completing a fragment promotes later nodes.
use grafast_py.Prelude.{
  ℕ, ◌<◌, true, Option, none, some, List, [], ◌∷◌, has, All, ◌≡◌, subst, sym, arith, Bool-cases,
  inl, inr,
}
use grafast_py.Incremental.Defs.{
  Revealed, exec_group, stream_rec, Records, put_key, for_each, update_at,
}
use grafast_py.Incremental.Frames.{GraphWires, wires, wires-on_execution_group}
use grafast_py.Incremental.Graph.{
  add_child, add_deferred_fragment_node, completes_root_node, add_incremental_records, add_record,
  Wiring, start_completing, wire_group, wire_stream,
}
use grafast_py.Incremental.Keys.{bind-some, for_each-keeps, has-put_key, some-inj}

abbrev pub Descends : ℕ → List ℕ → Type 0
Descends r [] = Unit {0}
Descends r (p ∷ chain) = (p < r) × Descends p chain

-- A stream is made after the fragments that reveal it.
abbrev pub IsLater : List ℕ → Revealed → Type 0
IsLater records (exec_group g) = Unit {0}
IsLater records (stream_rec s) = All (λ d. d < s) records

pub record IsNumbered (w : Records) : Type 0 where
  pub chain : (r : ℕ) → Descends r (w.enclosing r)
  pub later :
      (result : ℕ)
      → All (IsLater (w.defer_records (w.result_group result))) (w.result_children result)

abbrev pub Grows : (ℕ → List ℕ) → Type 0
Grows children = (p c : ℕ) → has (children p) c ≡ true → p < c

-- The root nodes are these, and children have greater numbers.
abbrev pub IsNested : List ℕ → GraphWires → Type 0
IsNested roots (r, children, _) = (r ≡ roots) × Grows children

add_child-Grows :
    (p c : ℕ) (children : ℕ → List ℕ)
    → p < c
    → Grows children
    → Grows (update_at p (put_key c) children)
unfolding update_at
add_child-Grows p c children h g q d e = ground (arith, g q d, has-put_key c (children q) d)

add_deferred_fragment_node-IsNested :
    (roots : List ℕ) (r : ℕ) (chain : List ℕ) (x y : Wiring)
    → Descends r chain
    → IsNested roots (wires x.0)
    → add_deferred_fragment_node r chain x ≡ some y
    → IsNested roots (wires y.0)
unfolding add_deferred_fragment_node
add_deferred_fragment_node-IsNested roots r [] (graph, none) y d h e =
    elim (Bool-cases (has graph.root_nodes r)) [
      | inl root ↦ subst (λ (z : Wiring). IsNested roots (wires z.0)) (some-inj (rw root at e)) h
      | inr no_root ↦ absurd (ground arith)
    ]
add_deferred_fragment_node-IsNested roots r [] (graph, some initial) y d h e =
    elim (Bool-cases (has graph.root_nodes r)) [
      | inl root ↦ subst (λ (z : Wiring). IsNested roots (wires z.0)) (some-inj (rw root at e)) h
      | inr no_root ↦
          subst (λ (z : Wiring). IsNested roots (wires z.0)) (some-inj (rw no_root at e)) h
    ]
add_deferred_fragment_node-IsNested roots r (p ∷ chain) (graph, initial) y (lt, d) (h, g) e =
    elim (Bool-cases (has graph.root_nodes r)) [
      | inl root ↦
          subst (λ (z : Wiring). IsNested roots (wires z.0)) (some-inj (rw root at e)) (h, g)
      | inr no_root ↦
          add_deferred_fragment_node-IsNested roots p chain (add_child p r graph, initial) y d
            (h, add_child-Grows p r graph.node_children lt g) (rw no_root at e)
    ]

abbrev HasNoPremise : ℕ → Type 0
HasNoPremise _ = Unit {0}

All-trivial : (xs : List ℕ) → All HasNoPremise xs
All-trivial [] = tt
All-trivial (x ∷ xs) = (tt, All-trivial xs)

module _ (w : Records) (num : IsNumbered w) (roots : List ℕ) where
  abbrev IsWired : Wiring → Type 0
  IsWired x = IsNested roots (wires x.0)

  wire_group-IsNested :
      (g r : ℕ) (x y : Wiring) → IsWired x → wire_group w g r x ≡ some y → IsWired y
  wire_group-IsNested g r x y h e =
      let (z, first, rest) = bind-some (add_deferred_fragment_node r (w.enclosing r) x) _ e in
      subst IsWired (some-inj rest)
        (add_deferred_fragment_node-IsNested roots r (w.enclosing r) x z (num.chain r) h first)

  wire_stream-IsNested :
      (s r : ℕ) (x y : Wiring) → r < s → IsWired x → wire_stream w s r x ≡ some y → IsWired y
  wire_stream-IsNested s r x y lt h e =
      let (z, first, rest) = bind-some (add_deferred_fragment_node r (w.enclosing r) x) _ e in
      let (same, g) =
        add_deferred_fragment_node-IsNested roots r (w.enclosing r) x z (num.chain r) h first in
      subst IsWired (some-inj rest) (same, add_child-Grows r s z.0.node_children lt g)

  start_completing-IsNested : (g : ℕ) (x : Wiring) → IsWired x → IsWired (start_completing w g x)
  start_completing-IsNested g (graph, initial) h =
      elim (Bool-cases (completes_root_node w g graph)) [
        | inl root ↦ rw root (subst (IsNested roots) (sym (wires-on_execution_group w g graph)) h)
        | inr no_root ↦ rw no_root h
      ]

  -- The records are new top-level ones, or the streams are later than the fragments.
  abbrev pub FitsParents : Option (List ℕ) → Revealed → Type 0
  FitsParents none r = Unit {0}
  FitsParents (some parents) r = IsLater parents r

  add_record-IsNested :
      (parents : Option (List ℕ)) (r : Revealed) (x y : Wiring)
      → FitsParents parents r
      → IsWired x
      → add_record w parents r x ≡ some y
      → IsWired y
  unfolding add_record
  add_record-IsNested parents (exec_group g) x y f h e =
      let (z, first, rest) = bind-some (for_each (wire_group w g) (w.defer_records g) x) _ e in
      subst IsWired (some-inj rest) (
        start_completing-IsNested g z (
          for_each-keeps IsWired HasNoPremise (wire_group w g)
            (λ r s s' _ k e'. wire_group-IsNested g r s s' k e') (w.defer_records g) x z
            (All-trivial (w.defer_records g)) h first))
  add_record-IsNested none (stream_rec s) (graph, none) y f h e = cc
  add_record-IsNested none (stream_rec s) (graph, some initial) y f h e =
      subst IsWired (some-inj e) h
  add_record-IsNested (some parents) (stream_rec s) x y f h e =
      for_each-keeps IsWired (λ d. d < s) (wire_stream w s)
        (λ r t t' lt k e'. wire_stream-IsNested s r t t' lt k e') parents x y f h e

  pub add_incremental_records-IsNested :
      (parents : Option (List ℕ)) (records : List Revealed) (x y : Wiring)
      → All (FitsParents parents) records
      → IsWired x
      → add_incremental_records w records parents x ≡ some y
      → IsWired y
  unfolding add_incremental_records
  add_incremental_records-IsNested parents records x y f h e =
      for_each-keeps IsWired (FitsParents parents) (add_record w parents)
        (λ r s s' q k e'. add_record-IsNested parents r s s' q k e') records x y f h e
