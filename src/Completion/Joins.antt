-- ===== src/Completion/Joins.antt =====
-- Each loop of completion (src/grafast_py/completion.py, src/grafast_py/execute.py) gives each value
-- its own result, if the inner batch does.
use grafast_py.Prelude.{String, Bool, List, [], ◌∷◌, ◌++◌, map, ◌≡◌, refl, sym, ap, subst, ◌∙◌}
use mathlib.Core.List.{Perm, append_assoc, map-map}
use mathlib.Core.List.Perm
use grafast_py.Completion.Defs.{
  Batch, Entry, Located, Parent, Raw, Slot, Types, Placed, collect_lists, finish_lists,
}
use grafast_py.Completion.Loops.{
  flatten, fresh, opened, place, assemble, fill, live_slots, scatter, if_any, finish_objects,
  shape_of,
}
use grafast_py.Completion.Reference.{Outcome, collected, gather, list_value, object_value, slots_of}
use grafast_py.Completion.Gather.{gather-both, gather-map, gather_congr, perm_of_eq}
use grafast_py.Completion.Pieces.{collect_lists-flatten, gather-flatten}
use grafast_py.Completion.Placing.{
  below, caught, fill-opened, gather-opened, gather-slots_for, one_field, one_field-errors,
  one_field-parent, scatter-slots_for,
}

-- The results of `f` for each, and its errors up to order.
abbrev pub IsEach : {A B E : Type 0} → (A → B × List E) → List A → List B × List E → Type 0
IsEach f xs (bs, es) = (bs ≡ map (λ x. (f x).0) xs) × Perm es (gather (λ x. (f x).1) xs)

module _ {V J E : Type 0} where
  pub if_any-IsEach :
      (f : Slot V E → Outcome J E) (slots : List (Slot V E)) (b : Batch J E)
      → IsEach f slots b
      → IsEach f slots (if_any slots b)
  if_any-IsEach f [] b h = (refl, Perm.refl [])
  if_any-IsEach f (s ∷ ss) b h = h

  pub objects_from :
      (f : Entry V J E → Entry V J E × List (Located E)) (placed : List (Placed V J E))
      (ps : List (Parent V)) (r : List (Entry V J E) × List (Located E))
      → IsEach f (fresh ps) r
      → ((finish_objects placed ps r).0 ≡ fill placed (assemble (map (λ e. (f e).0) (fresh ps))))
        × Perm (finish_objects placed ps r).1 (gather (λ e. (f e).1) (fresh ps))
  objects_from f placed [] (es, errs) (p, q) = (refl, Perm.refl [])
  objects_from f placed (x ∷ ps) (es, errs) (p, q) = (ap (λ l. fill placed (assemble l)) p, q)

  module _ (nn : Bool) (n : String) (G : Slot V E → Outcome J E) (rd : Parent V → Raw V E) where
    pub after_field :
        (es : List (Entry V J E)) (column : List (Raw V E)) (b : Batch J E)
        → column ≡ map (λ e. rd e.parent) es
        → IsEach G (live_slots n es column) b
        → (scatter nn n es b.0
            ≡ (map (λ e. (one_field nn n G rd e).0) es, gather (caught nn n G rd) es))
          × Perm b.1 (gather (below nn n G rd) es)
    after_field es column (cs, errs) h (p, q) = (
      rw (p, h) (scatter-slots_for nn n G rd es),
      Perm.trans q (perm_of_eq (rw h (gather-slots_for nn n G rd es))),
    )

    pub parents_kept :
        (es : List (Entry V J E)) (g : Parent V → Raw V E)
        → map (λ e. g e.parent) es ≡ map (λ e. g e.parent) (map (λ e. (one_field nn n G rd e).0) es)
    parents_kept [] g = refl
    parents_kept (e ∷ es) g = rw (one_field-parent nn n G rd e, parents_kept es g) refl

    field_errors :
        (C : Entry V J E → List (Located E)) (es : List (Entry V J E)) (bs gs : List (Located E))
        → Perm bs (gather (below nn n G rd) es)
        → Perm gs (gather C es)
        → Perm
            (bs ++ (gather (caught nn n G rd) es ++ gs))
            (gather (λ e. (one_field nn n G rd e).1 ++ C e) es)
    field_errors C es bs gs r k =
        let b = below nn n G rd in
        let c = caught nn n G rd in
        Perm.trans (Perm.append r (Perm.append_left (gather c es) k)) (
          Perm.trans (perm_of_eq (sym (append_assoc (gather b es) (gather c es) (gather C es)))) (
            Perm.trans (Perm.append_right (gather C es) (Perm.symm (gather-both b c es))) (
              Perm.trans
                (perm_of_eq
                  (ap (λ l. l ++ gather C es) (sym (gather_congr (one_field-errors nn n G rd) es))))
                (Perm.symm (gather-both (λ e. (one_field nn n G rd e).1) C es)))))

    pub before_rest :
        (rest : Entry V J E → Entry V J E × List (Located E))
        (walk : List (Entry V J E) → List (Entry V J E) × List (Located E))
        (es : List (Entry V J E)) (s : List (Entry V J E) × List (Located E))
        (bs : List (Located E))
        → (s ≡ (map (λ e. (one_field nn n G rd e).0) es, gather (caught nn n G rd) es))
          × Perm bs (gather (below nn n G rd) es)
        → IsEach rest
            (map (λ e. (one_field nn n G rd e).0) es)
            (walk (map (λ e. (one_field nn n G rd e).0) es))
        → IsEach
            (λ e. (
              (rest (one_field nn n G rd e).0).0,
              (one_field nn n G rd e).1 ++ (rest (one_field nn n G rd e).0).1,
            ))
            es
            ((walk s.0).0, bs ++ (s.1 ++ (walk s.0).1))
    before_rest rest walk es s bs (q, r) (h, k) = rw q (
      h ∙ map-map _ _ es,
      field_errors (λ e. (rest (one_field nn n G rd e).0).1) es bs _ r
          (subst (Perm _) (gather-map (λ x. (rest x).1) (λ e. (one_field nn n G rd e).0) es) k),
    )

module _ {V J T O E : Type 0} (types : Types V J T O E) where
  pub finish_lists-IsEach :
      (nn : Bool) (label : String) (f : Slot V E → Outcome J E) (slots : List (Slot V E))
      (b : Batch J E)
      → IsEach f (flatten types label slots 0).1 b
      → IsEach
          (λ s. list_value nn f (shape_of types label s))
          slots
          (finish_lists nn (flatten types label slots 0).0 b)
  finish_lists-IsEach nn label f slots (cs, es) (p, q) =
      let K : Slot V E → Outcome J E = λ s. collected nn (λ x. (f x).0) (shape_of types label s) in
      let spans = (flatten types label slots 0).0 in
      let eq : collect_lists nn cs spans
          ≡ (map (λ o. o.0) (map K slots), gather (λ o. o.1) (map K slots)) =
        rw p (collect_lists-flatten nn (λ x. (f x).0) types label slots []) in
      let A : Slot V E → List (Located E) =
        λ s. gather (λ x. (f x).1) (slots_of (shape_of types label s)) in
      (
        ap (λ r. r.0) eq ∙ map-map (λ o. o.0) K slots,
        Perm.trans (Perm.append_right (collect_lists nn cs spans).1 q) (
            Perm.trans
              (perm_of_eq (
                rw
                  (
                    eq,
                    gather-flatten types label (λ x. (f x).1) slots 0,
                    gather-map (λ (o : Outcome J E). o.1) K slots,
                  )
                  refl))
              (Perm.symm (gather-both A (λ s. (K s).1) slots))),
      )

  pub finish_objects-IsEach :
      (o : O) (f : Entry V J E → Entry V J E × List (Located E)) (slots : List (Slot V E))
      (r : List (Entry V J E) × List (Located E))
      → IsEach f (fresh (opened (map (place types o) slots))) r
      → IsEach
          (λ s. object_value f (place types o s))
          slots
          (finish_objects (map (place types o) slots) (opened (map (place types o) slots)) r)
  finish_objects-IsEach o f slots r h =
      let placed = map (place types o) slots in
      let (p, q) = objects_from f placed (opened placed) r h in
      (
        p ∙ fill-opened f placed ∙ map-map (λ x. (object_value f x).0) (place types o) slots,
        Perm.trans q (
            perm_of_eq (
              gather-opened f placed
              ∙ gather-map (λ x. (object_value f x).1) (place types o) slots)),
      )
