-- ===== src/Loading/Nodes.antt =====
-- Relay global ids and `NodeStep` of src/grafast_py/core_steps.py. JSON, base64 and what is a string
-- are the host's.
use grafast_py.Prelude.{
  ℕ, suc, String, Bool, true, false, ◌&&◌, ◌||◌, Option, none, some, List, [], ◌∷◌, ◌++◌, map,
  length, get_elem?, ◌==◌, str_eq, if◌then◌else◌,
}
use grafast_py.Steps.Defs.{Output, awaitable, throws, outcome, assertion_error, index_error}
use grafast_py.Loading.Defs.{
  ColumnEntry, Called, first_entries, null, held, poisoned, returned, raised, or_index_error,
  cons_both,
}
use grafast_py.Loading.Load.{Loaded, settled, refused, pending, rows}

-- `J` are the JSON values of ids, `B` bytes and `S` the strings that ids are. `loads` gives `none` for malformed text and `some none` for what is
-- not an array.
pub record GlobalIds (V E J B S : Type 0) : Type 0 where
  pub dumps : List J → B
  pub loads_text : B → Option (Option (List J))
  pub b64encode : B → S
  pub b64decode : S → Option B
  pub text_of : ColumnEntry V E → Option S
  pub of_text : String → J
  pub as_text : J → Option String
  pub value_error : ColumnEntry V E → E
  pub no_parts_error : String → E
  pub no_loader_error : String → E

-- The key of a node: the bare id, or the parts of a composite id.
pub data NodeKey (J : Type 0) : Type 0 where
  single : J → NodeKey J
  composite : List J → NodeKey J

-- What becomes of an entry: its own error, or a type and a key.
pub data Route (J E : Type 0) : Type 0 where
  error_at : E → Route J E
  routed_to : String → NodeKey J → Route J E

abbrev pub node_key : {J : Type 0} → List J → NodeKey J
node_key (x ∷ []) = single x
node_key xs = composite xs

module _ {J : Type 0} where
  -- `keys_by_type.setdefault(typename, []).append(key)`
  unfoldable pub add_node_key :
      String → NodeKey J → List (String × List (NodeKey J)) → List (String × List (NodeKey J))
  add_node_key n k [] = (n, k ∷ []) ∷ []
  add_node_key n k ((m, ks) ∷ groups) =
      let rest = add_node_key n k groups in
      if str_eq m n then (m, ks ++ k ∷ []) ∷ groups else (m, ks) ∷ rest

  -- The entries by type, in the order in which the types first come.
  unfoldable pub partition :
      {E : Type 0}
      → List (String × List (NodeKey J))
      → List (Route J E)
      → List (String × List (NodeKey J))
  unfolding add_node_key
  partition groups [] = groups
  partition groups (error_at e ∷ rs) = partition groups rs
  partition groups (routed_to n k ∷ rs) = partition (add_node_key n k groups) rs

module _ {V E J B S : Type 0} (ids : GlobalIds V E J B S) where
  abbrev pub encode_global_id : String → List J → Called S E
  encode_global_id typename [] = raised (ids.no_parts_error typename)
  encode_global_id typename (x ∷ parts) =
      returned (ids.b64encode (ids.dumps (ids.of_text typename ∷ x ∷ parts)))

  abbrev pub with_typename : ColumnEntry V E → Option String → List J → Called (String × List J) E
  with_typename global_id none parts = raised (ids.value_error global_id)
  with_typename global_id (some typename) parts = returned (typename, parts)

  abbrev pub of_payload : ColumnEntry V E → Option (Option (List J)) → Called (String × List J) E
  of_payload global_id (some (some (x ∷ y ∷ parts))) =
      with_typename global_id (ids.as_text x) (y ∷ parts)
  of_payload global_id _ = raised (ids.value_error global_id)

  abbrev pub of_body : ColumnEntry V E → Option B → Called (String × List J) E
  of_body global_id none = raised (ids.value_error global_id)
  of_body global_id (some raw) = of_payload global_id (ids.loads_text raw)

  abbrev pub of_string : ColumnEntry V E → Option S → Called (String × List J) E
  of_string global_id none = raised (ids.value_error global_id)
  of_string global_id (some text) = of_body global_id (ids.b64decode text)

  abbrev pub decode_global_id : ColumnEntry V E → Called (String × List J) E
  decode_global_id global_id = of_string global_id (ids.text_of global_id)

  module _ (loaders : String → Option (List (NodeKey J) → Loaded (ColumnEntry V E) E)) where
    abbrev pub route_to :
        String → List J → Option (List (NodeKey J) → Loaded (ColumnEntry V E) E) → Route J E
    route_to typename parts none = error_at (ids.no_loader_error typename)
    route_to typename parts (some loader) = routed_to typename (node_key parts)

    abbrev pub route_decoded : Called (String × List J) E → Route J E
    route_decoded (raised e) = error_at e
    route_decoded (returned (typename, parts)) = route_to typename parts (loaders typename)

    -- One round of the loop that decodes the entries.
    abbrev pub route : ColumnEntry V E → Route J E
    route (poisoned e) = error_at e
    route null = route_decoded (decode_global_id null)
    route (held v) = route_decoded (decode_global_id (held v))

    -- The call of a type's loader; a type without one has no keys.
    abbrev pub call_loader :
        String
        → List (NodeKey J)
        → Option (List (NodeKey J) → Loaded (ColumnEntry V E) E)
        → Loaded (ColumnEntry V E) E
    call_loader n ks none = refused (ids.no_loader_error n)
    call_loader n ks (some loader) = loader ks

    abbrev pub run_loader : String → List (NodeKey J) → Loaded (ColumnEntry V E) E
    run_loader n ks = call_loader n ks (loaders n)

-- What the loaders gave, by type, with the number of keys.
abbrev pub Batches : Type 0 → Type 0 → Type 0
Batches V E = List (String × (ℕ × Loaded (ColumnEntry V E) E))

abbrev pub bump : String → (String → ℕ) → String → ℕ
bump n next_pos m = if str_eq n m then suc (next_pos n) else next_pos m

module _ {V E : Type 0} where
  abbrev pub is_pending : Loaded (ColumnEntry V E) E → Bool
  is_pending (pending p) = true
  is_pending (rows xs) = false
  is_pending (refused e) = false

  unfoldable pub any_pending : Batches V E → Bool
  any_pending [] = false
  any_pending ((n, (c, l)) ∷ bs) = is_pending l || any_pending bs

  abbrev pub is_whole : ℕ → Called (List (ColumnEntry V E)) E → Bool
  is_whole c (raised e) = true
  is_whole c (returned xs) = length xs == c

  -- The check of `_scatter_nodes`: a type's rows are as many as its keys.
  unfoldable pub all_whole : Batches V E → Bool
  all_whole [] = true
  all_whole ((n, (c, l)) ∷ bs) = is_whole c (settled l) && all_whole bs

  unfoldable pub batch_of : String → Batches V E → Option (Called (List (ColumnEntry V E)) E)
  batch_of n [] = none
  batch_of n ((m, (c, l)) ∷ bs) =
      let rest = batch_of n bs in if str_eq m n then some (settled l) else rest

  abbrev pub place_node :
      String
      → (String → ℕ)
      → Option (Called (List (ColumnEntry V E)) E)
      → ((String → ℕ) → Option (List (ColumnEntry V E)))
      → Option (List (ColumnEntry V E))
  place_node n next_pos none rest = none
  place_node n next_pos (some (raised e)) rest = cons_both (some (poisoned e)) (rest next_pos)
  place_node n next_pos (some (returned xs)) rest =
      cons_both (get_elem? xs (next_pos n)) (rest (bump n next_pos))

module _ {V E J : Type 0} where
  -- The loop of `_scatter_nodes`.
  unfoldable pub place_nodes :
      Batches V E → (String → ℕ) → List (Route J E) → Option (List (ColumnEntry V E))
  unfolding batch_of
  place_nodes bs next_pos [] = some []
  place_nodes bs next_pos (error_at e ∷ rs) =
      cons_both (some (poisoned e)) (place_nodes bs next_pos rs)
  place_nodes bs next_pos (routed_to n k ∷ rs) =
      place_node n next_pos (batch_of n bs) (λ pos. place_nodes bs pos rs)

  abbrev pub scatter_nodes : List (Route J E) → Batches V E → Output (ColumnEntry V E)
  scatter_nodes routes bs =
      if all_whole bs
      then or_index_error (place_nodes bs (λ n. 0) routes)
      else throws assertion_error

  abbrev pub finish_nodes : List (Route J E) → Batches V E → Output (ColumnEntry V E)
  finish_nodes routes bs =
      if any_pending bs
      then awaitable (outcome (scatter_nodes routes bs))
      else scatter_nodes routes bs

module _ {V E J B S : Type 0} (ids : GlobalIds V E J B S)
    (loaders : String → Option (List (NodeKey J) → Loaded (ColumnEntry V E) E)) where
  unfoldable pub run_loaders : List (String × List (NodeKey J)) → Batches V E
  run_loaders [] = []
  run_loaders ((n, ks) ∷ groups) =
      (n, (length ks, run_loader ids loaders n ks)) ∷ run_loaders groups

  abbrev pub node_entries : Option (List (ColumnEntry V E)) → Output (ColumnEntry V E)
  node_entries none = throws index_error
  node_entries (some column) =
      let routes = map (route ids loaders) column in
      finish_nodes routes (run_loaders (partition [] routes))

  unfoldable pub node_execute : ℕ → List (List (ColumnEntry V E)) → Output (ColumnEntry V E)
  unfolding partition run_loaders all_whole any_pending place_nodes
  node_execute count [] = throws index_error
  node_execute count (column ∷ values) = node_entries (first_entries count column)
