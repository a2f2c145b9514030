-- ===== src/Completion/Sound.antt =====
-- Completed values conform to their types (src/grafast_py/completion.py, src/grafast_py/execute.py).
use grafast_py.Prelude.{
  ℕ, String, Bool, true, false, List, map, if◌then◌else◌, ◌≡◌, subst, All, sym,
}
use grafast_py.Completion.Defs.{
  Completer, Entry, FieldPlans, Parent, Raw, Slot, Status, Types, assembled, bubble, dead, empty,
  field, is_non_null, leaf, list, live, no_fields, non_null, object, open_at, settled, absent,
  failed, value, FieldPath, Located,
}
use grafast_py.Completion.Loops.{complete_values, entry_with, place_raw, shape_of}
use grafast_py.Completion.Batches.{complete_values-IsEach}
use grafast_py.Completion.Reference.{complete_fields, complete_value, field_value, object_value}
use grafast_py.Completion.Conforms.{
  Conforms, ConformsFields, DistinctFields, DistinctNames, IsDictWith, IsSound,
}
use grafast_py.Completion.Written.{
  list_value-IsSound, enforce_non_null-IsSound, complete_leaf-IsSound, IsFilled,
  field_value-IsWritten, fill_after, IsFilled-no_fields, null-Conforms, All-IsSound,
}

module _ {V J T O E L : Type 0} (types : Types V J T O E) where
  module _ (o : O) (fs : FieldPlans T O L) (f : Entry V J E → Entry V J E × List (Located E))
      (filled : (p : Parent V)
        → IsFilled fs (live empty) (f (entry_with p (live empty))).0.status) where
    opened-IsSound :
        (s : Status J E)
        → IsFilled fs (live empty) s
        → IsSound (IsDictWith (ConformsFields fs)) (assembled s)
    opened-IsSound (live d) h = h.0
    opened-IsSound (dead b) h = tt

    checked-IsSound :
        (is_one : Bool) (p : Parent V) (b : Located E)
        → IsSound
            (IsDictWith (ConformsFields fs))
            (object_value f (if is_one then open_at p else settled (bubble b))).0
    checked-IsSound true p b = opened-IsSound _ (filled p)
    checked-IsSound false p b = tt

    object_value-IsSound :
        (path : FieldPath) (r : Raw V E)
        → IsSound (IsDictWith (ConformsFields fs)) (object_value f (place_raw types o path r)).0
    object_value-IsSound path absent = tt
    object_value-IsSound path (failed e) = tt
    object_value-IsSound path (value v) = checked-IsSound (types.is_type_of o v) _ _

  module _ (read : L → ℕ → Parent V → Raw V E) where
    mutual
      unfolding complete_value Conforms DistinctNames

      pub complete_value-IsSound :
          (c : Completer T O L) (label : String) (s : Slot V E)
          → DistinctNames c
          → IsSound (Conforms c) (complete_value types read c label s).0
      complete_value-IsSound (leaf t) label s h = complete_leaf-IsSound types t s.path s.raw
      complete_value-IsSound (non_null c) label s h =
          enforce_non_null-IsSound (Conforms c) types label s.path _
            (complete_value-IsSound c label s h)
      complete_value-IsSound (list c) label s h =
          list_value-IsSound (Conforms c) (is_non_null c) (complete_value types read c label)
            (shape_of types label s) (null-Conforms J c) (λ x. complete_value-IsSound c label x h)
      complete_value-IsSound (object o l fs) label s h =
          object_value-IsSound o fs (complete_fields types read fs (read l))
            (λ p. complete_fields-IsFilled fs (read l) (entry_with p (live empty)) h) s.path s.raw

      pub complete_fields-IsFilled :
          (fs : FieldPlans T O L) (store : ℕ → Parent V → Raw V E) (e : Entry V J E)
          → DistinctFields fs
          → IsFilled fs e.status (complete_fields types read fs store e).0.status
      complete_fields-IsFilled no_fields store e h = IsFilled-no_fields T O L e.status
      complete_fields-IsFilled (field n step c label rest) store e (a, (h, hs)) =
          let e' =
            (field_value (is_non_null c) n (complete_value types read c label) e.parent e.status
              (store step e.parent)).0 in
          fill_after n step c label rest e.status e'.status _ a
            (field_value-IsWritten (Conforms c) (is_non_null c) n
              (complete_value types read c label) e.parent e.status (store step e.parent)
              (null-Conforms J c) (λ x. complete_value-IsSound c label x h))
            (complete_fields-IsFilled rest store e' hs)

    module _ (run_layer : L → List (Parent V) → ℕ → List (Raw V E))
        (entrywise : (l : L) (ps : List (Parent V)) (step : ℕ)
          → run_layer l ps step ≡ map (read l step) ps) where
      -- When every layer's step gives each position its own value and the response names of every
      -- object are distinct, each result of `complete_values` that is not a bubble has the shape
      -- of its type: no null at a non-null type, lists of such items, and a dict with every field
      -- of the object under its response name.
      pub complete_values-Conforms :
          (c : Completer T O L) (label : String) (slots : List (Slot V E))
          → DistinctNames c
          → All (IsSound (Conforms c)) (complete_values types run_layer c label slots).0
      complete_values-Conforms c label slots h =
          subst (All (IsSound (Conforms c)))
            (sym (complete_values-IsEach types run_layer read entrywise c label slots).0)
            (All-IsSound (Conforms c) (λ s. (complete_value types read c label s).0)
              (λ s. complete_value-IsSound c label s h) slots)
