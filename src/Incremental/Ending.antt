-- ===== src/Incremental/Ending.antt =====
-- The loop of `_promote_non_empty_to_root` (src/grafast_py/incremental.py) ends within its fuel.
use grafast_py.Prelude.{
  ℕ, zero, suc, ◌+◌, ◌<◌, ◌≤◌, true, false, ◌||◌, List, [], ◌∷◌, ◌++◌, has, has-append, has-cons,
  has-nil, length, length-append, All, All-of-has, ◌==◌, ◌≡◌, refl, subst, sym, ap, ◌∙◌, arith,
  Bool-cases, inl, inr, if◌then◌else◌,
}
use grafast_py.Incremental.Defs.{IncGraph, Records}
use grafast_py.Incremental.Frames.{GraphWires, wires, wires-start_unless_running}
use grafast_py.Incremental.Graph.{
  Promotion, discover, promote, promote_node, promote_non_empty_to_root, start_unless_running,
}
use grafast_py.Incremental.Keys.{List-cases, for_all-keeps, for_all-keeps_each}
use grafast_py.Incremental.Pump.{is_filled}

-- How many numbers below are not in the list.
unseen : ℕ → List ℕ → ℕ
unseen zero xs = 0
unseen (suc n) xs = (if has xs n then 0 else 1) + unseen n xs

unseen-le : (n : ℕ) (xs : List ℕ) → unseen n xs ≤ n
unfolding unseen
unseen-le zero xs = omega arith
unseen-le (suc n) xs = ground (arith, unseen-le n xs)

module _ (x : ℕ) (xs ys : List ℕ) (added : (k : ℕ) → has ys k ≡ (has xs k || (x == k))) where
  unseen_above : (n : ℕ) → n ≤ x → unseen n ys ≡ unseen n xs
  unfolding unseen
  unseen_above zero h = refl
  unseen_above (suc n) h = ground (arith, unseen_above n, added n)

  -- A new member is one number less that is not seen.
  unseen_added : (n : ℕ) → x < n → has xs x ≡ false → unseen n ys + 1 ≡ unseen n xs
  unfolding unseen
  unseen_added zero h e = absurd (omega arith)
  unseen_added (suc n) h e = elim (Bool-cases (x == n)) [
    | inl here ↦
        let same : x ≡ n = ground arith in
        let absent : has xs n ≡ false = sym (ap (has xs) same) ∙ e in
        ground (arith, unseen_above n, added n)
    | inr there ↦ ground (arith, unseen_added n, added n)
  ]

abbrev pub IsDistinct : List ℕ → Type 0
IsDistinct [] = Unit
IsDistinct (x ∷ xs) = (has xs x ≡ false) × IsDistinct xs

unseen-length :
    (n : ℕ) (xs : List ℕ) → IsDistinct xs → All (λ x. x < n) xs → unseen n xs + length xs ≤ n
unseen-length n [] d b = omega (arith, unseen-le n [])
unseen-length n (x ∷ xs) (absent, d) (lt, b) = omega (
  arith,
  unseen_added x xs (x ∷ xs) (λ k. ground (arith, has-cons x xs k)) n lt absent,
  unseen-length n xs d b,
)

-- The nodes that are still to come, seen or not.
abbrev ahead : ℕ → Promotion → ℕ
ahead n p = unseen n p.maybe_empty + length p.unprocessed

abbrev pub IsBelow : ℕ → IncGraph → Type 0
IsBelow n graph = (p c : ℕ) → has (graph.node_children p) c ≡ true → c < n

graph-discover : (child : ℕ) (p : Promotion) → (discover child p).graph ≡ p.graph
graph-discover child p = elim (Bool-cases (has p.maybe_empty child)) [
  | inl seen ↦ rw seen refl
  | inr new ↦ rw new refl
]

discover-ahead : (n child : ℕ) (p : Promotion) → child < n → ahead n (discover child p) ≡ ahead n p
discover-ahead n child p lt = elim (Bool-cases (has p.maybe_empty child)) [
  | inl seen ↦ rw seen refl
  | inr new ↦ rw new (
      omega (
        arith,
        unseen_added child p.maybe_empty (p.maybe_empty ++ child ∷ [])
            (λ k.
              ground
                (arith, has-append p.maybe_empty (child ∷ []) k, has-cons child [] k, has-nil k))
            n lt new,
        length-append p.unprocessed (child ∷ []),
      ))
]

module _ (w : Records) where
  abbrev Keeps : ℕ → Promotion → Promotion → Type 0
  Keeps n p q = (ahead n q ≡ ahead n p) × IsBelow n q.graph

  promote_node-ahead :
      (n node : ℕ) (p : Promotion) → IsBelow n p.graph → Keeps n p (promote_node w node p)
  unfolding promote_node
  promote_node-ahead n node p h = elim (Bool-cases (w.is_defer node)) [
    | inl defer ↦
        rw (defer, promote_node)
          (elim (Bool-cases (is_filled (p.graph.pending_groups node))) [
            | inl pending ↦ rw pending (
              refl,
              subst (λ (v : GraphWires). (q c : ℕ) → has (v.1 q) c ≡ true → c < n)
                  (sym (
                    for_all-keeps (λ g. wires g ≡ wires p.graph) (start_unless_running w)
                      (λ g graph e. wires-start_unless_running w g graph ∙ e)
                      (p.graph.pending_groups node) p.graph refl))
                  h,
            )
            | inr idle ↦ rw idle (
                for_all-keeps_each (Keeps n p) (λ c. c < n) discover
                  (λ c q lt (e, b).
                    (discover-ahead n c q lt ∙ e, subst (IsBelow n) (sym (graph-discover c q)) b))
                  (p.graph.node_children node) p
                  (All-of-has (λ c. c < n) (p.graph.node_children node) (λ c m. h node c m))
                  (refl, h))
          ])
    | inr stream ↦ rw (stream, promote_node) (refl, h)
  ]

  promote-ends :
      (n fuel : ℕ) (p : Promotion)
      → IsBelow n p.graph
      → ahead n p ≤ fuel
      → (promote w fuel p).unprocessed ≡ []
  unfolding promote
  promote-ends n zero p h le = elim (List-cases p.unprocessed) [
    | inl done ↦ done
    | inr (x, rest, e) ↦ absurd (omega (arith, ap length e))
  ]
  promote-ends n (suc fuel) p h le = elim (List-cases p.unprocessed) [
    | inl done ↦ rw (done, promote) done
    | inr (node, rest, e) ↦
        let (same, below) = promote_node-ahead n node (record p { unprocessed = rest }) h in
        rw (e, promote)
          (promote-ends n fuel (promote_node w node (record p { unprocessed = rest })) below
            (omega (arith, ap length e, same)))
  ]

  -- For distinct nodes, when all nodes and children are numbered below the number of nodes, the
  -- fuel is enough: the loop ends by its test, with no node left unprocessed.
  pub promote_non_empty_to_root_ends :
      (nodes : List ℕ) (graph : IncGraph)
      → IsDistinct nodes
      → All (λ x. x < w.node_count) nodes
      → IsBelow w.node_count graph
      → (promote_non_empty_to_root w nodes graph).unprocessed ≡ []
  unfolding promote_non_empty_to_root
  promote_non_empty_to_root_ends nodes graph d b h =
      promote-ends w.node_count w.node_count _ h (unseen-length w.node_count nodes d b)
