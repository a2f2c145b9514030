-- ===== src/Completion/Pieces.antt =====
-- The loops of completion (src/grafast_py/completion.py, src/grafast_py/execute.py) one value at a
-- time: the spans of flattened lists, the objects' results put back, a field's column scattered.
use grafast_py.Prelude.{
  length-map, ℕ, ◌+◌, String, Bool, List, [], ◌∷◌, ◌++◌, map, length, take, drop, length-append,
  ◌≡◌, refl, sym, ap, subst, arith,
}
use mathlib.Core.List.{append_assoc, map-append}
use grafast_py.Completion.Defs.{
  Completed, Shape, Slot, Span, Types, collect_lists, invalid, nothing, spread,
}
use grafast_py.Completion.Loops.{add_shape, enforce_all, enforce_non_null, flatten, shape_of}
use grafast_py.Completion.Reference.{Outcome, collected, gather, slots_of}
use grafast_py.Completion.Gather.{gather-append}

module _ {A : Type 0} where
  pub drop-length : (pre xs : List A) → drop (length pre) (pre ++ xs) ≡ xs
  drop-length [] xs = refl
  drop-length (x ∷ pre) xs = drop-length pre xs

  pub take-length :
      {B : Type 0} (F : B → A) (ys : List B) (xs : List A)
      → take (length ys) (map F ys ++ xs) ≡ map F ys
  take-length F [] xs = refl
  take-length F (y ∷ ys) xs = ap (λ l. F y ∷ l) (take-length F ys xs)

module _ {V J T O E : Type 0} (types : Types V J T O E) (label : String)
    (F : Slot V E → Completed J E) where
  pub enforce_all-map :
      (slots : List (Slot V E))
      → enforce_all types label slots (map F slots)
        ≡ map (λ s. enforce_non_null types label s.path (F s)) slots
  unfolding enforce_all
  enforce_all-map [] = refl
  enforce_all-map (s ∷ ss) =
      ap (λ l. enforce_non_null types label s.path (F s) ∷ l) (enforce_all-map ss)

module _ {V J E : Type 0} (nn : Bool) (F : Slot V E → Completed J E) where
  abbrev Splits :
      List (Completed J E) → List (Span E) × List (Slot V E) → List (Outcome J E) → Type 0
  Splits pre (spans, items) os =
      collect_lists nn (pre ++ map F items) spans ≡ (map (λ o. o.0) os, gather (λ o. o.1) os)

  Splits-longer :
      (ss : List (Slot V E)) (pre : List (Completed J E))
      (more : ℕ → List (Span E) × List (Slot V E)) (os : List (Outcome J E))
      → Splits (pre ++ map F ss) (more (length (pre ++ map F ss))) os
      → Splits pre ((more (length pre + length ss)).0, ss ++ (more (length pre + length ss)).1) os
  Splits-longer ss pre more os h =
      let n = length pre + length ss in
      let e : length (pre ++ map F ss) ≡ n =
        omega (arith, length-append pre (map F ss), length-map F ss) in
      rw (map-append F ss (more n).1, sym (append_assoc pre (map F ss) (map F (more n).1)))
        (subst (λ m. Splits (pre ++ map F ss) (more m) os) e h)

  Splits-add_shape :
      (sh : Shape V E) (pre : List (Completed J E)) (more : ℕ → List (Span E) × List (Slot V E))
      (os : List (Outcome J E))
      → ((pre' : List (Completed J E)) → Splits pre' (more (length pre')) os)
      → Splits pre (add_shape (length pre) sh more) (collected nn F sh ∷ os)
  unfolding collect_lists
  Splits-add_shape (invalid b) pre more os ih = rw (ih pre) refl
  Splits-add_shape nothing pre more os ih = rw (ih pre) refl
  Splits-add_shape (spread ss) pre more os ih =
      let rest = Splits-longer ss pre more os (ih (pre ++ map F ss)) in
      let n = length pre + length ss in
      rw
        (
          rest,
          map-append F ss (more n).1,
          drop-length pre (map F ss ++ map F (more n).1),
          take-length F ss (map F (more n).1),
        )
        refl

  module _ {T O : Type 0} (types : Types V J T O E) (label : String) where
    pub collect_lists-flatten :
        (slots : List (Slot V E)) (pre : List (Completed J E))
        → Splits pre
            (flatten types label slots (length pre))
            (map (λ s. collected nn F (shape_of types label s)) slots)
    unfolding flatten collect_lists
    collect_lists-flatten [] pre = refl
    collect_lists-flatten (s ∷ ss) pre =
        Splits-add_shape (shape_of types label s) pre (flatten types label ss)
          (map (λ s. collected nn F (shape_of types label s)) ss) (collect_lists-flatten ss)

module _ {V J T O E : Type 0} (types : Types V J T O E) (label : String) {B : Type 0}
    (f : Slot V E → List B) where
  gather-add_shape :
      (start : ℕ) (sh : Shape V E) (more : ℕ → List (Span E) × List (Slot V E)) (bs : List B)
      → ((n : ℕ) → gather f (more n).1 ≡ bs)
      → gather f (add_shape start sh more).1 ≡ gather f (slots_of sh) ++ bs
  gather-add_shape start (invalid b) more bs ih = ih start
  gather-add_shape start nothing more bs ih = ih start
  gather-add_shape start (spread ss) more bs ih =
      rw (gather-append f ss (more (start + length ss)).1, ih (start + length ss)) refl

  pub gather-flatten :
      (slots : List (Slot V E)) (start : ℕ)
      → gather f (flatten types label slots start).1
        ≡ gather (λ s. gather f (slots_of (shape_of types label s))) slots
  unfolding flatten
  gather-flatten [] start = refl
  gather-flatten (s ∷ ss) start =
      gather-add_shape start (shape_of types label s) (flatten types label ss) _ (gather-flatten ss)
