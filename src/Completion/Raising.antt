-- ===== src/Completion/Raising.antt =====
-- Completion with the exceptions that it does not catch (src/grafast_py/completion.py,
-- src/grafast_py/execute.py). `complete_single_leaf` catches a GraphQLError, a TypeError and a
-- ValueError; any other exception of `serialize`, and every exception of `is_type_of` or of an
-- iteration, leaves the whole batch. What a batch gives when none does is in Completion/Loops.
use grafast_py.Prelude.{map, ℕ, String, Option, none, some, List, [], ◌∷◌, ◌++◌}
use grafast_py.Completion.Defs.{
  Batch, Completer, Entry, FieldPlans, Located, Parent, Placed, Raw, Slot, Types, field,
  finish_lists, is_non_null, leaf, list, no_fields, non_null, object, value,
}
use grafast_py.Completion.Loops.{
  assemble, enforce_all, fill, flatten, fresh, live_slots, opened, place, scatter,
  complete_single_leaf,
}

-- What a call gives: its result, or the exception that it raises.
pub data Raising (A E : Type 0) : Type 0 where
  ok : A → Raising A E
  raised : E → Raising A E

infixl 5 ◌>>=◌
abbrev pub ◌>>=◌ : {A B E : Type 0} → Raising A E → (A → Raising B E) → Raising B E
ok a >>= f = f a
raised e >>= f = raised e

module _ {V E : Type 0} where
  -- The exception that a call on the value of a slot lets out.
  abbrev pub escaping : (V → Option E) → Raw V E → Option E
  escaping escape (value v) = escape v
  escaping escape _ = none

  -- A loop that calls the host once for each value, in order, and goes on with `rest`.
  unfoldable pub call_each :
      {A : Type 0} → (V → Option E) → List (Slot V E) → Raising A E → Raising A E
  call_each escape [] rest = rest
  call_each escape (s ∷ slots) rest = elim (escaping escape s.raw) [
    | none ↦ call_each escape slots rest
    | some e ↦ raised e
  ]

module _ {V J E : Type 0} where
  -- `if slots:` and `if parents:`, where nothing else runs.
  abbrev pub if_any_slot : List (Slot V E) → Raising (Batch J E) E → Raising (Batch J E) E
  if_any_slot [] b = ok ([], [])
  if_any_slot (s ∷ slots) b = b

  abbrev pub run_children :
      List (Placed V J E)
      → List (Parent V)
      → Raising (List (Entry V J E) × List (Located E)) E
      → Raising (Batch J E) E
  run_children placed [] walked = ok (fill placed [], [])
  run_children placed (p ∷ ps) walked = do x ← walked; ok (fill placed (assemble x.0), x.1)

module _ {V J T O E : Type 0} (types : Types V J T O E) where
  module _ {L : Type 0} (run_layer : L → List (Parent V) → ℕ → List (Raw V E)) where
    unfoldable mutual
      unfolding enforce_all flatten opened fill live_slots scatter call_each

      -- `complete_values`
      pub try_complete_values : Completer T O L → String → List (Slot V E) → Raising (Batch J E) E
      try_complete_values (leaf t) label slots =
          call_each (types.serialize_escapes t) slots
            (ok (map (complete_single_leaf types t) slots, []))
      try_complete_values (non_null c) label slots = do
        b ← try_complete_values c label slots
        ok (enforce_all types label slots b.0, b.1)
      try_complete_values (list c) label slots =
          let parts = flatten types label slots 0 in
          let completed = try_complete_values c label parts.1 in
          call_each types.items_escapes slots
            (completed >>= λ b. ok (finish_lists (is_non_null c) parts.0 b))
      try_complete_values (object o l fs) label slots =
          let placed = map (place types o) slots in
          let parents = opened placed in
          call_each (types.is_type_of_escapes o) slots
            (run_children placed parents (try_walk_fields fs (run_layer l parents) (fresh parents)))

      -- The loop of `walk_output` with `complete_field`.
      pub try_walk_fields :
          FieldPlans T O L
          → (ℕ → List (Raw V E))
          → List (Entry V J E)
          → Raising (List (Entry V J E) × List (Located E)) E
      try_walk_fields no_fields store entries = ok (entries, [])
      try_walk_fields (field n step c label rest) store entries = do
        let slots = live_slots n entries (store step)
        b ← if_any_slot slots (try_complete_values c label slots)
        let x = scatter (is_non_null c) n entries b.0
        y ← try_walk_fields rest store x.0
        ok (y.0, b.1 ++ (x.1 ++ y.1))

    -- `execute_object_plan`
    unfoldable pub try_execute_object_plan :
        L → FieldPlans T O L → List (Parent V) → Raising (Batch J E) E
    unfolding try_walk_fields
    try_execute_object_plan l fs parents = do
      x ← try_walk_fields fs (run_layer l parents) (fresh parents)
      ok (assemble x.0, x.1)
