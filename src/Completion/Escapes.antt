-- ===== src/Completion/Escapes.antt =====
-- What completion returns when exceptions may escape (src/grafast_py/completion.py,
-- src/grafast_py/execute.py): nothing but what Completion/Loops gives, and always that if none does.
use grafast_py.Prelude.{
  ℕ, String, Option, none, some, List, [], ◌∷◌, map, ◌≡◌, refl, sym, ap, subst,
}
use grafast_py.Completion.Defs.{
  Batch, Completer, Entry, FieldPlans, Located, Parent, Placed, Raw, Slot, Types, absent, failed,
  field, finish_lists, is_non_null, leaf, list, no_fields, non_null, object, open_at, value,
}
use grafast_py.Completion.Loops.{
  complete_values, execute_object_plan, finish_objects, flatten, fresh, if_any, live_slots, opened,
  place, scatter, walk_fields,
}
use grafast_py.Completion.Reference.{complete_fields, complete_value, object_value}
use grafast_py.Completion.Joins.{IsEach}
use grafast_py.Completion.Batches.{complete_values-IsEach, execute_object_plan-IsEach}
use grafast_py.Completion.Raising.{
  Raising, call_each, escaping, if_any_slot, ok, raised, run_children, try_complete_values,
  try_execute_object_plan, try_walk_fields, ◌>>=◌,
}

-- What is returned is `a`, and something raises only if `T` does not hold.
abbrev pub Agrees : {A E : Type 0} → Type 0 → A → Raising A E → Type 0
Agrees T a (ok b) = b ≡ a
Agrees T a (raised e) = ¬ T

-- No call of the host raises what completion does not catch.
pub record IsTame {V J T O E : Type 0} (types : Types V J T O E) : Type 0 where
  pub serialize : (t : T) (v : V) → types.serialize_escapes t v ≡ none
  pub items : (v : V) → types.items_escapes v ≡ none
  pub is_type_of : (o : O) (v : V) → types.is_type_of_escapes o v ≡ none

module _ {A E : Type 0} (T : Type 0) where
  Agrees-bind :
      {B : Type 0} (r : Raising A E) (f : A → Raising B E) (a : A) (b : B)
      → Agrees T a r
      → Agrees T b (f a)
      → Agrees T b (r >>= f)
  Agrees-bind (ok x) f a b p q = subst (λ y. Agrees T b (f y)) (sym p) q
  Agrees-bind (raised e) f a b p q = p

  Agrees-ok : (r : Raising A E) (a x : A) → Agrees T a r → r ≡ ok x → x ≡ a
  Agrees-ok r a x p e = subst (Agrees T a) e p

  Agrees-returns : (r : Raising A E) (a : A) → Agrees T a r → T → r ≡ ok a
  Agrees-returns (ok x) a p t = ap ok p
  Agrees-returns (raised e) a p t = absurd (p t)

module _ {V E : Type 0} where
  not_escaping :
      (escape : V → Option E) (r : Raw V E) → ((v : V) → escape v ≡ none) → escaping escape r ≡ none
  not_escaping escape absent h = refl
  not_escaping escape (failed e) h = refl
  not_escaping escape (value v) h = h v

module _ {V A E : Type 0} (T : Type 0) where
  Agrees-call_each :
      (escape : V → Option E) (slots : List (Slot V E)) (rest : Raising A E) (a : A)
      → (T → (v : V) → escape v ≡ none)
      → Agrees T a rest
      → Agrees T a (call_each escape slots rest)
  unfolding call_each
  Agrees-call_each escape [] rest a h p = p
  Agrees-call_each escape (s ∷ slots) rest a h p =
      go (escaping escape s.raw) refl (Agrees-call_each escape slots rest a h p)
    where
      go :
          (o : Option E)
          → escaping escape s.raw ≡ o
          → Agrees T a (call_each escape slots rest)
          → Agrees T a (elim o [ none ↦ call_each escape slots rest | some e ↦ raised e ])
      go none e q = q
      go (some x) e q = λ t. absurd (cc (not_escaping escape s.raw (h t)))

module _ {V J E : Type 0} (T : Type 0) where
  Agrees-if_any :
      (slots : List (Slot V E)) (r : Raising (Batch J E) E) (b : Batch J E)
      → Agrees T b r
      → Agrees T (if_any slots b) (if_any_slot slots r)
  Agrees-if_any [] r b p = refl
  Agrees-if_any (s ∷ slots) r b p = p

  Agrees-run_children :
      (placed : List (Placed V J E)) (ps : List (Parent V))
      (r : Raising (List (Entry V J E) × List (Located E)) E)
      (x : List (Entry V J E) × List (Located E))
      → Agrees T x r
      → Agrees T (finish_objects placed ps x) (run_children placed ps r)
  Agrees-run_children placed [] r x p = refl
  Agrees-run_children placed (q ∷ ps) r x p =
      Agrees-bind T r _ x (finish_objects placed (q ∷ ps) x) p refl

module _ {V J T O E : Type 0} (types : Types V J T O E) where
  module _ {L : Type 0} (run_layer : L → List (Parent V) → ℕ → List (Raw V E)) where
    mutual
      unfolding complete_values try_complete_values

      values-Agrees :
          (c : Completer T O L) (label : String) (slots : List (Slot V E))
          → Agrees
              (IsTame types)
              (complete_values types run_layer c label slots)
              (try_complete_values types run_layer c label slots)
      values-Agrees (leaf t) label slots =
          Agrees-call_each (IsTame types) (types.serialize_escapes t) slots _
            (complete_values types run_layer (leaf t) label slots) (λ tame. tame.serialize t) refl
      values-Agrees (non_null c) label slots =
          Agrees-bind (IsTame types) (try_complete_values types run_layer c label slots) _
            (complete_values types run_layer c label slots) _ (values-Agrees c label slots) refl
      values-Agrees (list c) label slots =
          let items = (flatten types label slots 0).1 in
          Agrees-call_each (IsTame types) types.items_escapes slots _ _ (λ tame. tame.items)
            (Agrees-bind (IsTame types) (try_complete_values types run_layer c label items) _
              (complete_values types run_layer c label items)
              (finish_lists (is_non_null c) (flatten types label slots 0).0
                (complete_values types run_layer c label items))
              (values-Agrees c label items) refl)
      values-Agrees (object o l fs) label slots =
          let placed = map (place types o) slots in
          let parents = opened placed in
          Agrees-call_each (IsTame types) (types.is_type_of_escapes o) slots _ _
            (λ tame. tame.is_type_of o)
            (Agrees-run_children (IsTame types) placed parents _ _
              (fields-Agrees fs (run_layer l parents) (fresh parents)))

      fields-Agrees :
          (fs : FieldPlans T O L) (store : ℕ → List (Raw V E)) (es : List (Entry V J E))
          → Agrees
              (IsTame types)
              (walk_fields types run_layer fs store es)
              (try_walk_fields types run_layer fs store es)
      fields-Agrees no_fields store es = refl
      fields-Agrees (field n step c label rest) store es =
          let slots = live_slots n es (store step) in
          let b = if_any slots (complete_values types run_layer c label slots) in
          let x = scatter (is_non_null c) n es b.0 in
          Agrees-bind (IsTame types)
            (if_any_slot slots (try_complete_values types run_layer c label slots)) _ b _
            (Agrees-if_any (IsTame types) slots _ (complete_values types run_layer c label slots)
              (values-Agrees c label slots))
            (Agrees-bind (IsTame types) (try_walk_fields types run_layer rest store x.0) _
              (walk_fields types run_layer rest store x.0) _ (fields-Agrees rest store x.0) refl)

    plan-Agrees :
        (l : L) (fs : FieldPlans T O L) (ps : List (Parent V))
        → Agrees
            (IsTame types)
            (execute_object_plan types run_layer l fs ps)
            (try_execute_object_plan types run_layer l fs ps)
    unfolding execute_object_plan try_execute_object_plan
    plan-Agrees l fs ps =
        Agrees-bind (IsTame types) (try_walk_fields types run_layer fs (run_layer l ps) (fresh ps))
          _ (walk_fields types run_layer fs (run_layer l ps) (fresh ps)) _
          (fields-Agrees fs (run_layer l ps) (fresh ps)) refl

    module _ (read : L → ℕ → Parent V → Raw V E)
        (entrywise : (l : L) (ps : List (Parent V)) (step : ℕ)
          → run_layer l ps step ≡ map (read l step) ps) where
      -- When each step of every layer gives each position of a bucket its own value: a batch that is
      -- completed gives each value the result of completing it on its own, in order, and records the
      -- errors that these record, up to order; and a batch is completed when the host lets no exception
      -- out that completion does not catch.
      pub try_complete_values-IsEach :
          (c : Completer T O L) (label : String) (slots : List (Slot V E))
          → ((b : Batch J E)
              → try_complete_values types run_layer c label slots ≡ ok b
              → IsEach (complete_value types read c label) slots b)
            × (IsTame types
                → (b : Batch J E) × (try_complete_values types run_layer c label slots ≡ ok b))
      try_complete_values-IsEach c label slots =
          let each = complete_values-IsEach types run_layer read entrywise c label slots in
          let agrees = values-Agrees c label slots in
          (
            λ b e.
                subst (IsEach (complete_value types read c label) slots)
                  (sym (Agrees-ok (IsTame types) _ _ b agrees e)) each,
            λ tame. (
              complete_values types run_layer c label slots,
              Agrees-returns (IsTame types) _ _ agrees tame,
            ),
          )

      -- When each step of every layer gives each position of a bucket its own value: an object plan that
      -- returns over a bucket gives each parent the dict, or the bubble, that completing its fields on
      -- their own gives, in order, and records the errors that these record, up to order; and it returns
      -- when the host lets no exception out that completion does not catch.
      pub try_execute_object_plan-IsEach :
          (l : L) (fs : FieldPlans T O L) (ps : List (Parent V))
          → ((b : Batch J E)
              → try_execute_object_plan types run_layer l fs ps ≡ ok b
              → IsEach
                  (λ p. object_value (complete_fields types read fs (read l)) (open_at p))
                  ps
                  b)
            × (IsTame types
                → (b : Batch J E) × (try_execute_object_plan types run_layer l fs ps ≡ ok b))
      try_execute_object_plan-IsEach l fs ps =
          let each = execute_object_plan-IsEach types run_layer read entrywise l fs ps in
          let agrees = plan-Agrees l fs ps in
          (
            λ b e.
                subst
                  (IsEach (λ p. object_value (complete_fields types read fs (read l)) (open_at p))
                    ps)
                  (sym (Agrees-ok (IsTame types) _ _ b agrees e)) each,
            λ tame. (
              execute_object_plan types run_layer l fs ps,
              Agrees-returns (IsTame types) _ _ agrees tame,
            ),
          )
