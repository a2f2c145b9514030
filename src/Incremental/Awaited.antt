-- ===== src/Incremental/Awaited.antt =====
-- What a response waits for (src/grafast_py/incremental.py): every root node, but for the streams in
-- `restarted`, waits for something that is on its way; and what wiring a group changes.
use grafast_py.Prelude.{
  ℕ, Bool, true, false, ◌&&◌, ◌||◌, none, some, List, [], ◌∷◌, any, has, has-cons, has-nil, ◌==◌,
  ◌≡◌, refl, subst, sym, ap, ◌∙◌, arith, Bool-cases, inl, inr,
}
use grafast_py.Incremental.Defs.{IncGraph, Records, for_each, put_key}
use grafast_py.Incremental.Extends.{Extends, Extends-refl, Extends-trans}
use grafast_py.Incremental.Flying.{is_streaming, is_underway}
use grafast_py.Incremental.Graph.{
  Wiring, add_child, add_deferred_fragment_node, add_pending_group, wire_group,
}
use grafast_py.Incremental.Keys.{bind-some, has-put_key, some-inj, update_at-eq}

-- `hungry` fragments may wait for no group, and `grounded` ones for groups that are not underway.
pub record IsAwaited (w : Records) (hungry grounded : ℕ → Bool) (graph : IncGraph) : Type 0 where
  pub fed :
      (r : ℕ)
      → has graph.root_nodes r ≡ true
      → w.is_defer r ≡ true
      → hungry r ≡ false
      → (g : ℕ) × (has (graph.pending_groups r) g ≡ true)
  pub underway :
      (r g : ℕ)
      → has graph.root_nodes r ≡ true
      → grounded r ≡ false
      → has (graph.pending_groups r) g ≡ true
      → is_underway w g graph ≡ true
  pub streaming :
      (s : ℕ) → has graph.root_nodes s ≡ true → w.is_defer s ≡ false → is_streaming w s graph ≡ true
  pub member : (r g : ℕ) → has (graph.pending_groups r) g ≡ true → has (w.defer_records g) r ≡ true
  pub shared :
      (r t g : ℕ)
      → has (graph.pending_groups r) g ≡ true
      → has (w.defer_records g) t ≡ true
      → has (graph.pending_groups t) g ≡ true

module _ (w : Records) (hungry grounded : ℕ → Bool) where
  pub IsAwaited-Extends :
      {graph graph' : IncGraph}
      → Extends w graph graph'
      → IsAwaited w hungry grounded graph
      → IsAwaited w hungry grounded graph'
  IsAwaited-Extends {graph} {graph'} x h =
      let root : (r : ℕ) → has graph'.root_nodes r ≡ has graph.root_nodes r =
        λ r. ap (λ (roots : List ℕ). has roots r) x.same_roots in
      let group : (r g : ℕ) → has (graph'.pending_groups r) g ≡ has (graph.pending_groups r) g =
        λ r g. ap (λ (groups : ℕ → List ℕ). has (groups r) g) x.same_groups in
      record {
        fed = λ r m d n. let (g, p) = h.fed r (sym (root r) ∙ m) d n in (g, group r g ∙ p);
        underway =
            λ r g m n p. x.underway g (h.underway r g (sym (root r) ∙ m) n (sym (group r g) ∙ p));
        streaming = λ s m d. x.streaming s (h.streaming s (sym (root s) ∙ m) d);
        member = λ r g p. h.member r g (sym (group r g) ∙ p);
        shared = λ r t g p m. group t g ∙ h.shared r t g (sym (group r g) ∙ p) m;
      }

-- A group that has been put among the pending groups of these fragments.
pub record AddsGroup (w : Records) (g : ℕ) (ds : List ℕ) (graph graph' : IncGraph) : Type 0 where
  pub same_roots : graph'.root_nodes ≡ graph.root_nodes
  pub groups :
      (r h : ℕ)
      → has (graph'.pending_groups r) h ≡ (has (graph.pending_groups r) h || ((g == h) && has ds r))
  pub underway : (h : ℕ) → is_underway w h graph ≡ true → is_underway w h graph' ≡ true
  pub streaming : (s : ℕ) → is_streaming w s graph ≡ true → is_streaming w s graph' ≡ true

pub any-of_has :
    (p : ℕ → Bool) (xs : List ℕ) (x : ℕ) → has xs x ≡ true → p x ≡ true → any p xs ≡ true
unfolding has
any-of_has p [] x m h = absurd (ground arith)
any-of_has p (y ∷ xs) x m h = elim (Bool-cases (y == x)) [
  | inl here ↦
      let same : y ≡ x = ground arith in let at_y : p y ≡ true = ap p same ∙ h in ground arith
  | inr there ↦ ground (arith, any-of_has p xs x)
]

module _ (w : Records) where
  pub Extends-add_child : (p c : ℕ) (graph : IncGraph) → Extends w graph (add_child p c graph)
  Extends-add_child p c graph = record {
    same_roots = refl;
    same_groups = refl;
    underway = λ g h. h;
    streaming = λ s h. h;
  }

  pub Extends-add_deferred_fragment_node :
      (r : ℕ) (chain : List ℕ) (x y : Wiring)
      → add_deferred_fragment_node r chain x ≡ some y
      → Extends w x.0 y.0
  unfolding add_deferred_fragment_node
  Extends-add_deferred_fragment_node r [] (graph, none) y e =
      elim (Bool-cases (has graph.root_nodes r)) [
        | inl root ↦
            subst (λ (z : Wiring). Extends w graph z.0) (some-inj (rw root at e))
              (Extends-refl w graph)
        | inr no_root ↦ absurd (ground arith)
      ]
  Extends-add_deferred_fragment_node r [] (graph, some initial) y e =
      elim (Bool-cases (has graph.root_nodes r)) [
        | inl root ↦
            subst (λ (z : Wiring). Extends w graph z.0) (some-inj (rw root at e))
              (Extends-refl w graph)
        | inr no_root ↦
            subst (λ (z : Wiring). Extends w graph z.0) (some-inj (rw no_root at e))
              (Extends-refl w graph)
      ]
  Extends-add_deferred_fragment_node r (p ∷ chain) (graph, initial) y e =
      elim (Bool-cases (has graph.root_nodes r)) [
        | inl root ↦
            subst (λ (z : Wiring). Extends w graph z.0) (some-inj (rw root at e))
              (Extends-refl w graph)
        | inr no_root ↦ Extends-trans w (Extends-add_child p r graph) (
            Extends-add_deferred_fragment_node p chain (add_child p r graph, initial) y
              (rw no_root at e))
      ]

  pub wire_groups-AddsGroup :
      (g : ℕ) (ds : List ℕ) (x y : Wiring)
      → for_each (wire_group w g) ds x ≡ some y
      → AddsGroup w g ds x.0 y.0
  unfolding for_each
  wire_groups-AddsGroup g [] x y e =
      subst (λ (z : Wiring). AddsGroup w g [] x.0 z.0) (some-inj e)
        (record {
          same_roots = refl;
          groups = λ r h. ground (arith, has-nil r);
          underway = λ h k. k;
          streaming = λ s k. k;
        })
  wire_groups-AddsGroup g (d ∷ ds) x y e =
      let (x', wired, rest) = bind-some (wire_group w g d x) (for_each (wire_group w g) ds) e in
      let (z, climbed, put) = bind-some (add_deferred_fragment_node d (w.enclosing d) x) _ wired in
      let first = Extends-add_deferred_fragment_node d (w.enclosing d) x z climbed in
      let later : AddsGroup w g ds (add_pending_group d g z.0) y.0 =
        subst (λ (v : Wiring). AddsGroup w g ds v.0 y.0) (sym (some-inj put))
          (wire_groups-AddsGroup g ds x' y rest) in
      record {
        same_roots = later.same_roots ∙ first.same_roots;
        groups = λ r h. ground (
          arith,
          later.groups r h,
          ap (λ (groups : ℕ → List ℕ). has (groups r) h) first.same_groups,
          update_at-eq d (put_key g) z.0.pending_groups r,
          has-put_key g (z.0.pending_groups r) h,
          has-cons d ds r,
        );
        underway = λ h k. later.underway h (first.underway h k);
        streaming = λ s k. later.streaming s (first.streaming s k);
      }
