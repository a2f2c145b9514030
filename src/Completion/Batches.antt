-- ===== src/Completion/Batches.antt =====
-- A batch of values is completed like its values, each on its own (src/grafast_py/completion.py,
-- src/grafast_py/execute.py): batching changes neither the results nor the errors' number.
use grafast_py.Prelude.{ℕ, String, List, map, ◌≡◌, refl, sym, ap, ◌∙◌}
use mathlib.Core.List.{map-map, map-id}
use mathlib.Core.List.Perm
use grafast_py.Completion.Defs.{
  Completer, Entry, FieldPlans, Parent, Raw, Slot, Types, field, is_non_null, leaf, list, no_fields,
  non_null, object, open_at, assembled,
}
use grafast_py.Completion.Loops.{
  complete_values, execute_object_plan, flatten, fresh, opened, place, walk_fields, assemble,
  live_slots, scatter, if_any,
}
use grafast_py.Completion.Reference.{complete_fields, complete_value, object_value}
use grafast_py.Completion.Gather.{gather-map, gather_nil, perm_of_eq}
use grafast_py.Completion.Pieces.{enforce_all-map}
use grafast_py.Completion.Placing.{one_field}
use grafast_py.Completion.Joins.{
  IsEach, if_any-IsEach, after_field, parents_kept, before_rest, finish_lists-IsEach,
  finish_objects-IsEach,
}

module _ {V J T O E : Type 0} (types : Types V J T O E) where
  module _ {L : Type 0} (run_layer : L → List (Parent V) → ℕ → List (Raw V E))
      (read : L → ℕ → Parent V → Raw V E)
      (entrywise : (l : L) (ps : List (Parent V)) (step : ℕ)
        → run_layer l ps step ≡ map (read l step) ps) where
    fresh_columns :
        (l : L) (ps : List (Parent V)) (step : ℕ)
        → run_layer l ps step ≡ map (λ e. read l step e.parent) (fresh {J = J} {E = E} ps)
    fresh_columns l ps step =
        entrywise l ps step ∙ sym (map-map (λ (e : Entry V J E). read l step e.parent) _ ps)

    mutual
      unfolding complete_values complete_value

      values-IsEach :
          (c : Completer T O L) (label : String) (slots : List (Slot V E))
          → IsEach
              (complete_value types read c label)
              slots
              (complete_values types run_layer c label slots)
      values-IsEach (leaf t) label slots = (refl, perm_of_eq (sym (gather_nil slots)))
      values-IsEach (non_null c) label slots =
          let (p, q) = values-IsEach c label slots in
          (
            rw p (enforce_all-map types label (λ s. (complete_value types read c label s).0) slots),
            q,
          )
      values-IsEach (list c) label slots =
          finish_lists-IsEach types (is_non_null c) label (complete_value types read c label) slots
            (complete_values types run_layer c label (flatten types label slots 0).1)
            (values-IsEach c label (flatten types label slots 0).1)
      values-IsEach (object o l fs) label slots =
          let parents = opened (map (place types o) slots) in
          finish_objects-IsEach types o (complete_fields types read fs (read l)) slots
            (walk_fields types run_layer fs (run_layer l parents) (fresh parents))
            (fields-IsEach fs (run_layer l parents) (read l) (fresh parents)
              (fresh_columns l parents))

      fields-IsEach :
          (fs : FieldPlans T O L) (store : ℕ → List (Raw V E)) (rd : ℕ → Parent V → Raw V E)
          (es : List (Entry V J E))
          → ((step : ℕ) → store step ≡ map (λ e. rd step e.parent) es)
          → IsEach (complete_fields types read fs rd) es (walk_fields types run_layer fs store es)
      fields-IsEach no_fields store rd es h = (sym (map-id es), perm_of_eq (sym (gather_nil es)))
      fields-IsEach (field n step c label rest) store rd es h =
          let slots = live_slots n es (store step) in
          let b = if_any slots (complete_values types run_layer c label slots) in
          let nn = is_non_null c in
          let G = complete_value types read c label in
          before_rest nn n G (rd step) (complete_fields types read rest rd)
            (walk_fields types run_layer rest store) es (scatter nn n es b.0) b.1
            (after_field nn n G (rd step) es (store step) b (h step) (
              if_any-IsEach G slots (complete_values types run_layer c label slots)
                (values-IsEach c label slots)))
            (fields-IsEach rest store rd (map (λ e. (one_field nn n G (rd step) e).0) es)
              (λ i. h i ∙ parents_kept nn n G (rd step) es (rd i)))

    pub complete_values-IsEach :
        (c : Completer T O L) (label : String) (slots : List (Slot V E))
        → IsEach
            (complete_value types read c label)
            slots
            (complete_values types run_layer c label slots)
    complete_values-IsEach = values-IsEach

    pub execute_object_plan-IsEach :
        (l : L) (fs : FieldPlans T O L) (ps : List (Parent V))
        → IsEach
            (λ p. object_value (complete_fields types read fs (read l)) (open_at p))
            ps
            (execute_object_plan types run_layer l fs ps)
    unfolding execute_object_plan
    execute_object_plan-IsEach l fs ps =
        let (p, q) = fields-IsEach fs (run_layer l ps) (read l) (fresh ps) (fresh_columns l ps) in
        (
          ap assemble p
              ∙ map-map (λ (e : Entry V J E). assembled e.status) _ (fresh ps)
              ∙ map-map _ _ ps,
          Perm.trans q (perm_of_eq (gather-map _ _ ps)),
        )
