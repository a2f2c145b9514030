-- ===== src/Incremental/Promoting.antt =====
-- What `_promote_non_empty_to_root` does to the root nodes (src/grafast_py/incremental.py).
use grafast_py.Prelude.{
  ℕ, zero, suc, ◌<◌, ◌||◌, List, [], ◌∷◌, ◌++◌, has, has-append, has-cons, has-nil, All, All-append,
  All-of-has, ◌==◌, ◌≡◌, refl, subst, sym, ap, ◌∙◌, arith, Bool-cases, inl, inr,
}
use grafast_py.Incremental.Defs.{Records, IncGraph}
use grafast_py.Incremental.Frames.{GraphWires, wires, wires-start_unless_running}
use grafast_py.Incremental.Graph.{
  Promotion, discover, promote, promote_node, promote_non_empty_to_root, promoted_node,
  start_unless_running,
}
use grafast_py.Incremental.Keys.{List-cases, for_all-keeps, for_all-keeps_each, has-put_key}
use grafast_py.Incremental.Nesting.{Grows}
use grafast_py.Incremental.Pump.{is_filled}

-- The new root nodes are all that the promotion adds, and they and the nodes still to come have `Q`.
pub record IsPromotion (Q : ℕ → Type 0) (roots : List ℕ) (p : Promotion) : Type 0 where
  pub waiting : All Q p.unprocessed
  pub known : All Q p.maybe_empty
  pub promoted_node : All Q p.new_root_nodes
  pub added : (x : ℕ) → has p.graph.root_nodes x ≡ (has roots x || has p.new_root_nodes x)
  pub grows : Grows p.graph.node_children

has-snoc : (xs : List ℕ) (k x : ℕ) → has (xs ++ k ∷ []) x ≡ (has xs x || (k == x))
has-snoc xs k x = ground (arith, has-append xs (k ∷ []) x, has-cons k [] x, has-nil x)

module _ (w : Records) (Q : ℕ → Type 0) (up : (p c : ℕ) → Q p → p < c → Q c) (roots : List ℕ) where
  promoted_node-IsPromotion :
      (node : ℕ) (graph : IncGraph) (p : Promotion)
      → wires graph ≡ wires p.graph
      → Q node
      → IsPromotion Q roots p
      → IsPromotion Q roots (promoted_node node graph p)
  promoted_node-IsPromotion node graph p same q h = record {
    waiting = h.waiting;
    known = h.known;
    promoted_node = All-append Q p.new_root_nodes (node ∷ []) h.promoted_node (q, tt);
    added = λ x. ground (
      arith,
      h.added x,
      ap (λ (v : GraphWires). v.0) same,
      has-put_key node graph.root_nodes x,
      has-snoc p.new_root_nodes node x,
    );
    grows = subst (λ (v : GraphWires). Grows v.1) (sym same) h.grows;
  }

  discover-IsPromotion :
      (child : ℕ) (p : Promotion)
      → Q child
      → IsPromotion Q roots p
      → IsPromotion Q roots (discover child p)
  discover-IsPromotion child p q h = elim (Bool-cases (has p.maybe_empty child)) [
    | inl seen ↦ rw seen h
    | inr unseen ↦ rw unseen (record {
      waiting = All-append Q p.unprocessed (child ∷ []) h.waiting (q, tt);
      known = All-append Q p.maybe_empty (child ∷ []) h.known (q, tt);
      promoted_node = h.promoted_node;
      added = h.added;
      grows = h.grows;
    })
  ]

  promote_node-IsPromotion :
      (node : ℕ) (p : Promotion)
      → Q node
      → IsPromotion Q roots p
      → IsPromotion Q roots (promote_node w node p)
  unfolding promote_node
  promote_node-IsPromotion node p q h = elim (Bool-cases (w.is_defer node)) [
    | inl defer ↦
        rw (defer, promote_node)
          (elim (Bool-cases (is_filled (p.graph.pending_groups node))) [
            | inl pending ↦ rw pending (
                promoted_node-IsPromotion node _ p
                  (for_all-keeps (λ g. wires g ≡ wires p.graph) (start_unless_running w)
                    (λ g graph e. wires-start_unless_running w g graph ∙ e)
                    (p.graph.pending_groups node) p.graph refl)
                  q h)
            | inr idle ↦ rw idle (
                for_all-keeps_each (IsPromotion Q roots) Q discover discover-IsPromotion
                  (p.graph.node_children node) p
                  (All-of-has Q (p.graph.node_children node)
                    (λ c m. up node c q (h.grows node c m)))
                  h)
          ])
    | inr stream ↦ rw (stream, promote_node) (promoted_node-IsPromotion node _ p refl q h)
  ]

  promote-IsPromotion :
      (fuel : ℕ) (p : Promotion) → IsPromotion Q roots p → IsPromotion Q roots (promote w fuel p)
  unfolding promote
  promote-IsPromotion zero p h = h
  promote-IsPromotion (suc fuel) p h = elim (List-cases p.unprocessed) [
    | inl none_left ↦ rw (none_left, promote) h
    | inr (node, rest, e) ↦
        let (q, waiting) = subst (All Q) e h.waiting in
        let popped : IsPromotion Q roots (record p { unprocessed = rest }) = record {
          waiting = waiting;
          known = h.known;
          promoted_node = h.promoted_node;
          added = h.added;
          grows = h.grows;
        } in
        rw (e, promote)
          (promote-IsPromotion fuel (promote_node w node (record p { unprocessed = rest }))
            (promote_node-IsPromotion node (record p { unprocessed = rest }) q popped))
  ]

  -- A promotion of nodes with `Q`.
  pub promote_non_empty_to_root-IsPromotion :
      (nodes : List ℕ) (graph : IncGraph)
      → All Q nodes
      → graph.root_nodes ≡ roots
      → Grows graph.node_children
      → IsPromotion Q roots (promote_non_empty_to_root w nodes graph)
  unfolding promote_non_empty_to_root
  promote_non_empty_to_root-IsPromotion nodes graph q same g =
      promote-IsPromotion w.node_count _ (record {
        waiting = q;
        known = q;
        promoted_node = tt;
        added = λ x. ground (arith, has-nil x);
        grows = g;
      })
