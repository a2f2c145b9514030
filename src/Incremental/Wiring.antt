-- ===== src/Incremental/Wiring.antt =====
-- Wiring new records keeps each root node waiting for something (src/grafast_py/incremental.py).
use grafast_py.Prelude.{
  ℕ, Bool, true, ◌&&◌, ◌||◌, Option, none, some, List, [], ◌∷◌, has, All, ◌==◌, ◌≡◌, subst, sym, ap,
  ◌∙◌, arith, Bool-cases, inl, inr,
}
use grafast_py.Incremental.Defs.{IncGraph, Records, Revealed, exec_group, for_each, stream_rec}
use grafast_py.Incremental.Extends.{Extends, Extends-on_execution_group, Extends-refl}
use grafast_py.Incremental.Flying.{IsAnswered, is_underway, is_underway-on_execution_group}
use grafast_py.Incremental.Graph.{
  Wiring, add_deferred_fragment_node, add_incremental_records, add_record, completes_root_node,
  on_execution_group, start_completing, wire_group, wire_stream,
}
use grafast_py.Incremental.Keys.{bind-some, for_each-keeps, some-inj}
use grafast_py.Incremental.Awaited.{
  AddsGroup, Extends-add_child, Extends-add_deferred_fragment_node, IsAwaited, IsAwaited-Extends,
  any-of_has, wire_groups-AddsGroup,
}

module _ (w : Records) (ans : IsAnswered w) (hungry grounded : ℕ → Bool) where
  abbrev Awaited : Wiring → Type 0
  Awaited x = IsAwaited w hungry grounded x.0

  -- A group that is put among the pending ones of all its fragments is started if one of them is a
  -- root node.
  added-IsAwaited :
      (g : ℕ) (a b c : IncGraph)
      → AddsGroup w g (w.defer_records g) a b
      → Extends w b c
      → ((r : ℕ)
          → has (w.defer_records g) r ≡ true
          → has b.root_nodes r ≡ true
          → is_underway w g c ≡ true)
      → IsAwaited w hungry grounded a
      → IsAwaited w hungry grounded c
  added-IsAwaited g a b c add x starts h =
      let root : (r : ℕ) → has c.root_nodes r ≡ has a.root_nodes r =
        λ r. ap (λ (roots : List ℕ). has roots r) (x.same_roots ∙ add.same_roots) in
      let group : (r k : ℕ)
          → has (c.pending_groups r) k
            ≡ (has (a.pending_groups r) k || ((g == k) && has (w.defer_records g) r)) =
        λ r k. ap (λ (groups : ℕ → List ℕ). has (groups r) k) x.same_groups ∙ add.groups r k in
      record {
        fed = λ r m d n.
            let (k, p) = h.fed r (sym (root r) ∙ m) d n in (k, ground (arith, group r k));
        underway = λ r k m n p. elim (Bool-cases (has (a.pending_groups r) k)) [
          | inl old ↦ x.underway k (add.underway k (h.underway r k (sym (root r) ∙ m) n old))
          | inr new ↦
              let fragment : has (w.defer_records g) r ≡ true = ground (arith, group r k) in
              let same : g ≡ k = ground (arith, group r k) in
              let in_b : has b.root_nodes r ≡ true =
                sym (ap (λ (roots : List ℕ). has roots r) x.same_roots) ∙ m in
              subst (λ (k : ℕ). is_underway w k c ≡ true) same (starts r fragment in_b)
        ];
        streaming = λ s m d. x.streaming s (add.streaming s (h.streaming s (sym (root s) ∙ m) d));
        member = λ r k p. elim (Bool-cases (has (a.pending_groups r) k)) [
          | inl old ↦ h.member r k old
          | inr new ↦
              let fragment : has (w.defer_records g) r ≡ true = ground (arith, group r k) in
              let same : g ≡ k = ground (arith, group r k) in
              subst (λ (k : ℕ). has (w.defer_records k) r ≡ true) same fragment
        ];
        shared = λ r t k p m. elim (Bool-cases (has (a.pending_groups r) k)) [
          | inl old ↦ ground (arith, group t k, h.shared r t k old m)
          | inr new ↦
              let same : g ≡ k = ground (arith, group r k) in
              let fragment : has (w.defer_records g) t ≡ true =
                subst (λ (k : ℕ). has (w.defer_records k) t ≡ true) (sym same) m in
              ground (arith, group t k)
        ];
      }

  start_completing-IsAwaited :
      (g : ℕ) (a : IncGraph) (x : Wiring)
      → AddsGroup w g (w.defer_records g) a x.0
      → IsAwaited w hungry grounded a
      → Awaited (start_completing w g x)
  start_completing-IsAwaited g a (b, initial) add h =
      elim (Bool-cases (completes_root_node w g b)) [
        | inl root ↦ rw root (
            added-IsAwaited g a b (on_execution_group w g b) add
              (Extends-on_execution_group w ans g b)
              (λ r m n. ground (arith, is_underway-on_execution_group w ans g g b)) h)
        | inr no_root ↦ rw no_root (
            added-IsAwaited g a b b add (Extends-refl w b)
              (λ r m n.
                absurd
                  (ground (arith, any-of_has (λ r. has b.root_nodes r) (w.defer_records g) r m n)))
              h)
      ]

  abbrev HasNoPremise {ℓ} : {A : Type ℓ} → A → Type 0
  HasNoPremise _ = Unit {0}

  All-trivial {ℓ} : {A : Type ℓ} (xs : List A) → All HasNoPremise xs
  All-trivial [] = tt
  All-trivial (x ∷ xs) = (tt, All-trivial xs)

  wire_stream-Awaited :
      (s p : ℕ) (x y : Wiring) → Awaited x → wire_stream w s p x ≡ some y → Awaited y
  wire_stream-Awaited s p x y h e =
      let (z, climbed, put) = bind-some (add_deferred_fragment_node p (w.enclosing p) x) _ e in
      subst Awaited (some-inj put) (
        IsAwaited-Extends w hungry grounded (Extends-add_child w p s z.0) (
          IsAwaited-Extends w hungry grounded
            (Extends-add_deferred_fragment_node w p (w.enclosing p) x z climbed) h))

  add_record-Awaited :
      (parents : Option (List ℕ)) (r : Revealed) (x y : Wiring)
      → Awaited x
      → add_record w parents r x ≡ some y
      → Awaited y
  unfolding add_record
  add_record-Awaited parents (exec_group g) x y h e =
      let (z, wired, put) = bind-some (for_each (wire_group w g) (w.defer_records g) x) _ e in
      subst Awaited (some-inj put) (
        start_completing-IsAwaited g x.0 z (wire_groups-AddsGroup w g (w.defer_records g) x z wired)
          h)
  add_record-Awaited none (stream_rec s) (graph, none) y h e = cc
  add_record-Awaited none (stream_rec s) (graph, some initial) y h e = subst Awaited (some-inj e) h
  add_record-Awaited (some parents) (stream_rec s) x y h e =
      for_each-keeps Awaited HasNoPremise (wire_stream w s)
        (λ p t t' _ k e'. wire_stream-Awaited s p t t' k e') parents x y (All-trivial parents) h e

  pub add_incremental_records-Awaited :
      (parents : Option (List ℕ)) (records : List Revealed) (x y : Wiring)
      → IsAwaited w hungry grounded x.0
      → add_incremental_records w records parents x ≡ some y
      → IsAwaited w hungry grounded y.0
  unfolding add_incremental_records
  add_incremental_records-Awaited parents records x y h e =
      for_each-keeps Awaited HasNoPremise (add_record w parents)
        (λ r s s' _ k e'. add_record-Awaited parents r s s' k e') records x y (All-trivial records)
        h e
