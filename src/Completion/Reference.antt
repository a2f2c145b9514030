-- ===== src/Completion/Reference.antt =====
-- What completing one value and filling one object's fields mean, each on its own: the same rules
-- without the batches. `read l step parent` is what a layer's step gives for one parent. The
-- errors of a value are those below it, then those caught at it.
use grafast_py.Prelude.{ℕ, String, Bool, List, [], ◌∷◌, ◌++◌, map}
use grafast_py.Completion.Defs.{
  Completed, Completer, Entry, FieldPlans, Located, Parent, Placed, Raw, Shape, Slot, Status, Types,
  add_key, assembled, bubble, collect_items, collect_list, dead, done, empty, field, invalid,
  is_non_null, leaf, list, live, name, no_fields, non_null, nothing, null, object, open_at, settled,
  spread, write_value,
}
use grafast_py.Completion.Loops.{
  complete_single_leaf, enforce_non_null, entry_with, enumerate, place, shape_of,
}

-- The concatenated lists of all elements, in order.
abbrev pub gather : {A B : Type 0} → (A → List B) → List A → List B
gather f [] = []
gather f (x ∷ xs) = f x ++ gather f xs

abbrev pub Outcome : Type 0 → Type 0 → Type 0
Outcome J E = Completed J E × List (Located E)

-- What one source list makes of its items' results.
abbrev pub collected :
    {V J E : Type 0} → Bool → (Slot V E → Completed J E) → Shape V E → Outcome J E
collected nn F (invalid b) = (bubble b, [])
collected nn F nothing = (done null, [])
collected nn F (spread ss) = collect_list nn (map F ss)

abbrev pub slots_of : {V E : Type 0} → Shape V E → List (Slot V E)
slots_of (spread ss) = ss
slots_of _ = []

module _ {V J E : Type 0} where
  abbrev pub list_value : Bool → (Slot V E → Outcome J E) → Shape V E → Outcome J E
  list_value item_is_non_null f sh =
      let (c, es) = collected item_is_non_null (λ s. (f s).0) sh in
      (c, gather (λ s. (f s).1) (slots_of sh) ++ es)

  abbrev pub object_value :
      (Entry V J E → Entry V J E × List (Located E)) → Placed V J E → Outcome J E
  object_value f (settled c) = (c, [])
  object_value f (open_at p) =
      let (e, es) = f (entry_with p (live empty)) in (assembled e.status, es)

  -- One field of one object, from the field's raw value.
  abbrev pub field_value :
      Bool
      → String
      → (Slot V E → Outcome J E)
      → Parent V
      → Status J E
      → Raw V E
      → Entry V J E × List (Located E)
  field_value nn n f p (dead b) r = (entry_with p (dead b), [])
  field_value nn n f p (live d) r =
      let (c, es) = f (record { path = add_key p.path (name n); raw = r }) in
      let (s, fs) = write_value nn n d c in (entry_with p s, es ++ fs)

module _ {V J T O E L : Type 0} (types : Types V J T O E) (read : L → ℕ → Parent V → Raw V E) where
  unfoldable mutual
    unfolding write_value collect_items enumerate

    pub complete_value : Completer T O L → String → Slot V E → Outcome J E
    complete_value (leaf t) label s = (complete_single_leaf types t s, [])
    complete_value (non_null c) label s =
        let (r, es) = complete_value c label s in (enforce_non_null types label s.path r, es)
    complete_value (list c) label s =
        list_value (is_non_null c) (complete_value c label) (shape_of types label s)
    complete_value (object o l fs) label s =
        object_value (complete_fields fs (read l)) (place types o s)

    pub complete_fields :
        FieldPlans T O L → (ℕ → Parent V → Raw V E) → Entry V J E → Entry V J E × List (Located E)
    complete_fields no_fields store e = (e, [])
    complete_fields (field n step c label rest) store e =
        let (e', es) =
          field_value (is_non_null c) n (complete_value c label) e.parent e.status
            (store step e.parent) in
        let (e'', fs) = complete_fields rest store e' in (e'', es ++ fs)
