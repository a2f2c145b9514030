-- ===== src/Completion/Loops.antt =====
-- The loops of completion (src/grafast_py/completion.py, src/grafast_py/execute.py): a batch of
-- values by its completer, lists flattened into one batch, objects run as one bucket, and each
-- field's column scattered over the live parents. This is what a batch gives when no exception leaves
-- it; the exceptions that do are in Completion/Raising.
use grafast_py.Prelude.{
  ℕ, suc, ◌+◌, String, Bool, Option, none, some, List, [], ◌∷◌, ◌++◌, map, length, if◌then◌else◌,
}
use grafast_py.Completion.Defs.{
  Attempt, Batch, Completed, Completer, Entry, FieldPath, FieldPlans, Located, Parent, Placed, Raw,
  Shape, Slot, Span, Status, Types, absent, add_key, assembled, bubble, collect_lists, dead, done,
  empty, failed, field, finish_lists, index, invalid, is_non_null, leaf, list, live, located, name,
  no_fields, non_null, nothing, null, object, open_at, raises, returns, settled, span, spread,
  value, write_value,
}

module _ {V E : Type 0} where
  unfoldable pub enumerate : FieldPath → ℕ → List (Raw V E) → List (Slot V E)
  enumerate path i [] = []
  enumerate path i (r ∷ rs) =
      record { path = add_key path (index i); raw = r } ∷ enumerate path (suc i) rs

  abbrev pub add_shape :
      ℕ → Shape V E → (ℕ → List (Span E) × List (Slot V E)) → List (Span E) × List (Slot V E)
  add_shape start (invalid b) more = let (spans, items) = more start in (invalid b ∷ spans, items)
  add_shape start nothing more = let (spans, items) = more start in (nothing ∷ spans, items)
  add_shape start (spread ss) more =
      let (spans, items) = more (start + length ss) in (span start (length ss) ∷ spans, ss ++ items)

module _ {V J E : Type 0} where
  unfoldable pub opened : List (Placed V J E) → List (Parent V)
  opened [] = []
  opened (settled c ∷ ps) = opened ps
  opened (open_at p ∷ ps) = p ∷ opened ps

  -- The children's results written back where they came from.
  unfoldable pub fill : List (Placed V J E) → List (Completed J E) → List (Completed J E)
  fill [] cs = []
  fill (settled c ∷ ps) cs = c ∷ fill ps cs
  fill (open_at p ∷ ps) [] = done null ∷ fill ps []
  fill (open_at p ∷ ps) (c ∷ cs) = c ∷ fill ps cs

  -- `FieldCompletion(len(parents))`
  abbrev pub fresh : List (Parent V) → List (Entry V J E)
  fresh = map (λ p. record { parent = p; status = live empty })

  abbrev pub assemble : List (Entry V J E) → List (Completed J E)
  assemble = map (λ e. assembled e.status)

  abbrev pub slot_if_live :
      String → FieldPath → Status J E → Raw V E → List (Slot V E) → List (Slot V E)
  slot_if_live response_name path (live d) r rest =
      record { path = add_key path (name response_name); raw = r } ∷ rest
  slot_if_live response_name path (dead b) r rest = rest

  -- The live entries' values from the field's column.
  unfoldable pub live_slots : String → List (Entry V J E) → List (Raw V E) → List (Slot V E)
  live_slots response_name (e ∷ es) (r ∷ column) =
      slot_if_live response_name e.parent.path e.status r (live_slots response_name es column)
  live_slots response_name _ _ = []

  abbrev pub entry_with : Parent V → Status J E → Entry V J E
  entry_with p s = record { parent = p; status = s }

  -- `scatter`
  abbrev pub scatter_one :
      Bool
      → String
      → Parent V
      → Status J E
      → List (Completed J E)
      → (List (Completed J E) → List (Entry V J E) × List (Located E))
      → List (Entry V J E) × List (Located E)
  scatter_one nn n p (dead b) cs more = let (es, fs) = more cs in (entry_with p (dead b) ∷ es, fs)
  scatter_one nn n p (live d) [] more = let (es, fs) = more [] in (entry_with p (live d) ∷ es, fs)
  scatter_one nn n p (live d) (c ∷ cs) more =
      let (s, gs) = write_value nn n d c in
      let (es, fs) = more cs in (entry_with p s ∷ es, gs ++ fs)

  unfoldable pub scatter :
      Bool
      → String
      → List (Entry V J E)
      → List (Completed J E)
      → List (Entry V J E) × List (Located E)
  unfolding write_value
  scatter nn n [] cs = ([], [])
  scatter nn n (e ∷ es) cs = scatter_one nn n e.parent e.status cs (scatter nn n es)

  -- With no object to recurse into, nothing runs.
  abbrev pub finish_objects :
      List (Placed V J E) → List (Parent V) → List (Entry V J E) × List (Located E) → Batch J E
  finish_objects placed [] (es, fs) = (fill placed [], [])
  finish_objects placed (p ∷ ps) (es, fs) = (fill placed (assemble es), fs)

  abbrev pub if_any : List (Slot V E) → Batch J E → Batch J E
  if_any [] b = ([], [])
  if_any (s ∷ ss) b = b

module _ {V J T O E : Type 0} (types : Types V J T O E) where
  abbrev pub serialized : T → V → FieldPath → Attempt J E → Completed J E
  serialized t v path (returns (some j)) = done (leaf j)
  serialized t v path (returns none) = bubble (located (types.null_result t v) path)
  serialized t v path (raises e) = bubble (located e path)

  -- `complete_single_leaf` with `serialize_leaf`, when `serialize` raises nothing but what is caught
  abbrev pub complete_leaf : T → FieldPath → Raw V E → Completed J E
  complete_leaf t path (failed e) = bubble (located e path)
  complete_leaf t path absent = done null
  complete_leaf t path (value v) = serialized t v path (types.serialize t v)

  abbrev pub complete_single_leaf : T → Slot V E → Completed J E
  complete_single_leaf t s = complete_leaf t s.path s.raw

  abbrev pub enforce_non_null : String → FieldPath → Completed J E → Completed J E
  enforce_non_null label path (bubble b) = bubble b
  enforce_non_null label path (done null) = bubble (located (types.non_null_error label) path)
  enforce_non_null label path (done j) = done j

  unfoldable pub enforce_all :
      String → List (Slot V E) → List (Completed J E) → List (Completed J E)
  enforce_all label (s ∷ ss) (c ∷ cs) = enforce_non_null label s.path c ∷ enforce_all label ss cs
  enforce_all label _ _ = []

  abbrev pub shape_of_items : String → FieldPath → Option (List (Raw V E)) → Shape V E
  shape_of_items label path none = invalid (located (types.iterable_error label) path)
  shape_of_items label path (some rs) = spread (enumerate path 0 rs)

  abbrev pub shape_of_raw : String → FieldPath → Raw V E → Shape V E
  shape_of_raw label path (failed e) = invalid (located e path)
  shape_of_raw label path absent = nothing
  shape_of_raw label path (value v) = shape_of_items label path (types.items v)

  abbrev pub shape_of : String → Slot V E → Shape V E
  shape_of label s = shape_of_raw label s.path s.raw

  -- The loop of `build_list_results`: the spans and the flat items.
  unfoldable pub flatten : String → List (Slot V E) → ℕ → List (Span E) × List (Slot V E)
  unfolding enumerate
  flatten label [] start = ([], [])
  flatten label (s ∷ ss) start = add_shape start (shape_of label s) (flatten label ss)

  -- The loop of `run_object_bucket` with the guard of `run_object_children`.
  abbrev pub place_raw : O → FieldPath → Raw V E → Placed V J E
  place_raw o path (failed e) = settled (bubble (located e path))
  place_raw o path absent = settled (done null)
  place_raw o path (value v) =
      if types.is_type_of o v
      then open_at (record { path = path; object = v })
      else settled (bubble (located (types.invalid_return_type_error o v) path))

  abbrev pub place : O → Slot V E → Placed V J E
  place o s = place_raw o s.path s.raw

  -- The column of each step over a bucket: `run_layer`.
  module _ {L : Type 0} (run_layer : L → List (Parent V) → ℕ → List (Raw V E)) where
    unfoldable mutual
      unfolding enforce_all flatten collect_lists opened fill live_slots scatter

      -- `complete_values`
      pub complete_values : Completer T O L → String → List (Slot V E) → Batch J E
      complete_values (leaf t) label slots = (map (complete_single_leaf t) slots, [])
      complete_values (non_null c) label slots =
          let (cs, es) = complete_values c label slots in (enforce_all label slots cs, es)
      complete_values (list c) label slots =
          let parts = flatten label slots 0 in
          finish_lists (is_non_null c) parts.0 (complete_values c label parts.1)
      complete_values (object o l fs) label slots =
          let placed = map (place o) slots in
          let parents = opened placed in
          finish_objects placed parents (walk_fields fs (run_layer l parents) (fresh parents))

      -- The loop of `walk_output` with `complete_field`.
      pub walk_fields :
          FieldPlans T O L
          → (ℕ → List (Raw V E))
          → List (Entry V J E)
          → List (Entry V J E) × List (Located E)
      walk_fields no_fields store entries = (entries, [])
      walk_fields (field n step c label rest) store entries =
          let slots = live_slots n entries (store step) in
          let (cs, es) = if_any slots (complete_values c label slots) in
          let (entries', fs) = scatter (is_non_null c) n entries cs in
          let (entries'', gs) = walk_fields rest store entries' in (entries'', es ++ (fs ++ gs))

    -- `execute_object_plan`
    unfoldable pub execute_object_plan : L → FieldPlans T O L → List (Parent V) → Batch J E
    unfolding walk_fields
    execute_object_plan l fs parents =
        let (es, errors) = walk_fields fs (run_layer l parents) (fresh parents) in
        (assemble es, errors)
