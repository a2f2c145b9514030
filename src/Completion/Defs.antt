-- ===== src/Completion/Defs.antt =====
-- The completion of a batch of raw values (src/grafast_py/completion.py, the synchronous path) and
-- the walk of an object's fields over a bucket (src/grafast_py/execute.py). The parallel lists of
-- values and paths are one list of slots. The errors that the context collects are returned, in
-- the order in which they are appended. Interfaces and unions, the hoist channel, @defer and
-- @stream are left out.
use grafast_py.Prelude.{
  ℕ, String, Bool, true, false, Option, List, [], ◌∷◌, ◌++◌, take, drop, str_eq, if◌then◌else◌,
}

pub data Key : Type 0 where
  name : String → Key
  index : ℕ → Key

abbrev pub FieldPath : Type 0
FieldPath = List Key

-- `Path(parent, key)`
abbrev pub add_key : FieldPath → Key → FieldPath
add_key path k = path ++ k ∷ []

-- A raw value: None or Undefined, an exception, or an object of the host.
pub data Raw (V E : Type 0) : Type 0 where
  absent : Raw V E
  failed : E → Raw V E
  value : V → Raw V E

-- What `serialize` does: it returns something or None, or raises an exception that is caught, a
-- GraphQLError, a TypeError or a ValueError.
pub data Attempt (J E : Type 0) : Type 0 where
  returns : Option J → Attempt J E
  raises : E → Attempt J E

-- What graphql-core and the host say of leaf types `T` and object types `O`, and the errors that
-- completion makes. `items` is what iterating gives, `none` for what is not iterable. An exception
-- that completion does not catch is told by `serialize_escapes`, `items_escapes` and
-- `is_type_of_escapes`, none where the call lets none out; what the call gives besides is then never
-- looked at (Completion/Raising).
pub record Types (V J T O E : Type 0) : Type 0 where
  pub serialize : T → V → Attempt J E
  pub null_result : T → V → E
  pub items : V → Option (List (Raw V E))
  pub is_type_of : O → V → Bool
  pub serialize_escapes : T → V → Option E
  pub items_escapes : V → Option E
  pub is_type_of_escapes : O → V → Option E
  pub invalid_return_type_error : O → V → E
  pub non_null_error : String → E
  pub iterable_error : String → E

-- `located_error`
pub record Located (E : Type 0) : Type 0 where
  pub error : E
  pub path : FieldPath

mutual
  pub data Json (J : Type 0) : Type 0 where
    null : Json J
    leaf : J → Json J
    array : Items J → Json J
    dict : Dict J → Json J

  pub data Items (J : Type 0) : Type 0 where
    nil : Items J
    cons : Json J → Items J → Items J

  pub data Dict (J : Type 0) : Type 0 where
    empty : Dict J
    entry : String → Json J → Dict J → Dict J

-- `outputs[i][name] = completed`
unfoldable pub set_entry : {J : Type 0} → String → Json J → Dict J → Dict J
set_entry k v empty = entry k v empty
set_entry k v (entry j w d) =
    let rest = set_entry k v d in if str_eq j k then entry j v d else entry j w rest

pub data Completed (J E : Type 0) : Type 0 where
  done : Json J → Completed J E
  bubble : Located E → Completed J E

pub record Slot (V E : Type 0) : Type 0 where
  pub path : FieldPath
  pub raw : Raw V E

-- An object whose fields are completed, at its path.
pub record Parent (V : Type 0) : Type 0 where
  pub path : FieldPath
  pub object : V

-- The completer tree with the object plans at its leaves; `L` are the layers. A field has its
-- response name, the id of its step, its completer and its label.
mutual
  pub data Completer (T O L : Type 0) : Type 0 where
    leaf : T → Completer T O L
    object : O → L → FieldPlans T O L → Completer T O L
    list : Completer T O L → Completer T O L
    non_null : Completer T O L → Completer T O L

  pub data FieldPlans (T O L : Type 0) : Type 0 where
    no_fields : FieldPlans T O L
    field : String → ℕ → Completer T O L → String → FieldPlans T O L → FieldPlans T O L

-- A parent is live with its dict, or was nulled by a bubble.
pub data Status (J E : Type 0) : Type 0 where
  live : Dict J → Status J E
  dead : Located E → Status J E

pub record Entry (V J E : Type 0) : Type 0 where
  pub parent : Parent V
  pub status : Status J E

-- Where a source list's items stand in the flat batch.
pub data Span (E : Type 0) : Type 0 where
  invalid : Located E → Span E
  nothing : Span E
  span : ℕ → ℕ → Span E

pub data Shape (V E : Type 0) : Type 0 where
  invalid : Located E → Shape V E
  nothing : Shape V E
  spread : List (Slot V E) → Shape V E

-- The items of a list, or the bubble of a non-null item.
pub data Collected (J E : Type 0) : Type 0 where
  kept : Items J → Collected J E
  stopped : Located E → Collected J E

pub data Placed (V J E : Type 0) : Type 0 where
  settled : Completed J E → Placed V J E
  open_at : Parent V → Placed V J E

abbrev pub is_non_null : {T O L : Type 0} → Completer T O L → Bool
is_non_null (non_null c) = true
is_non_null _ = false

-- What completion leaves: the results and the errors that were appended.
abbrev pub Batch : Type 0 → Type 0 → Type 0
Batch J E = List (Completed J E) × List (Located E)

abbrev pub located : {E : Type 0} → E → FieldPath → Located E
located e path = record { error = e; path = path }

module _ {J E : Type 0} where
  abbrev pub prepend : Json J → Collected J E → Collected J E
  prepend j (kept js) = kept (cons j js)
  prepend j (stopped b) = stopped b

  abbrev pub of_collected : Collected J E → Completed J E
  of_collected (kept js) = done (array js)
  of_collected (stopped b) = bubble b

  -- The loop over the items of one list in `collect_lists`.
  unfoldable pub collect_items : Bool → List (Completed J E) → Collected J E × List (Located E)
  collect_items item_is_non_null [] = (kept nil, [])
  collect_items item_is_non_null (done j ∷ cs) =
      let (c, es) = collect_items item_is_non_null cs in (prepend j c, es)
  collect_items true (bubble b ∷ cs) = (stopped b, [])
  collect_items false (bubble b ∷ cs) =
      let (c, es) = collect_items false cs in (prepend null c, b ∷ es)

  abbrev pub collect_list : Bool → List (Completed J E) → Completed J E × List (Located E)
  collect_list item_is_non_null cs =
      let (c, es) = collect_items item_is_non_null cs in (of_collected c, es)

  abbrev pub collect_span : Bool → List (Completed J E) → Span E → Completed J E × List (Located E)
  collect_span item_is_non_null completed (invalid b) = (bubble b, [])
  collect_span item_is_non_null completed nothing = (done null, [])
  collect_span item_is_non_null completed (span start n) =
      collect_list item_is_non_null (take n (drop start completed))

  unfoldable pub collect_lists : Bool → List (Completed J E) → List (Span E) → Batch J E
  unfolding collect_items
  collect_lists item_is_non_null completed [] = ([], [])
  collect_lists item_is_non_null completed (s ∷ spans) =
      let (c, es) = collect_span item_is_non_null completed s in
      let (cs, fs) = collect_lists item_is_non_null completed spans in (c ∷ cs, es ++ fs)

  -- `write_value` to a live parent: its status after it, and the error that is appended.
  unfoldable pub write_value :
      Bool → String → Dict J → Completed J E → Status J E × List (Located E)
  unfolding set_entry
  write_value field_is_non_null response_name d (done j) = (live (set_entry response_name j d), [])
  write_value true response_name d (bubble b) = (dead b, [])
  write_value false response_name d (bubble b) = (live (set_entry response_name null d), b ∷ [])

  abbrev pub assembled : Status J E → Completed J E
  assembled (live d) = done (dict d)
  assembled (dead b) = bubble b

  abbrev pub finish_lists : Bool → List (Span E) → Batch J E → Batch J E
  finish_lists nn spans (cs, es) = let (rs, fs) = collect_lists nn cs spans in (rs, es ++ fs)
