-- ===== src/Constraints/Mirrored.antt =====
-- Laws of each read of the gate and of the tracked variables (src/grafast_py/constraints.py) under
-- two requests.
use grafast_py.Prelude.{
  String, Bool, true, Option, some, List, [], ◌∷◌, ◌++◌, ◌≡◌, refl, arith, ap, ◌⊎◌, inl, inr,
  Option-cases, length,
}
use grafast_py.Values.{Value, mapping, object, get, keys}
use grafast_py.Values.Equality.{count_fields, bool_eq}
use grafast_py.Constraints.Defs.{
  Constraint, value, equality, exists, keys_of, RequestFacts, ok, matches, values_equal,
  scope_value, value_at, child, is_present, sorted,
}
use grafast_py.Constraints.Gate.{
  Sink, read, eval, eval_is, eval_has, variable_item, variable_get, variable_contains,
  variable_iter, variable_len,
}
use grafast_py.Constraints.Matching.{
  Holds, Holds-append_right, Holds-append_left, matches_of-Holds, length-sorted, length-keys,
  texts_equal→≡,
}
use grafast_py.Constraints.Reads.{Mirrors, Result-cases}

abbrev pub Same : Value → Value → Type 0
Same v w = values_equal (some w) (some v) ≡ true

-- A successful read is the step of the walk that a hit replays.
pub read-eq-ok :
    (context : Value) (key : String) (v : Value)
    → read context key ≡ ok v
    → child context key ≡ some v
unfolding read child
read-eq-ok (mapping fs) key v h = ground arith
read-eq-ok (object i fs) key v h = ground arith
read-eq-ok _ key v h = absurd (cc)

read_of-child :
    (context : Value) (key : String) (v : Value)
    → child context key ≡ some v
    → read context key ≡ ok v
unfolding read child
read_of-child (mapping fs) key v h = ground arith
read_of-child (object i fs) key v h = ground arith
read_of-child _ key v h = absurd (cc)

-- What a constraint on one key of the context says.
module _ (key : String) (facts : RequestFacts) where
  observed_context :
      (o : Option Value)
      → matches (value "context" (key ∷ []) o) facts ≡ ok true
      → values_equal (child facts.context_value key) o ≡ true
  unfolding matches scope_value value_at
  observed_context o h = ground arith

  compared_context :
      (e : Value) (b : Bool)
      → matches (equality "context" (key ∷ []) e b) facts ≡ ok true
      → bool_eq (values_equal (child facts.context_value key) (some e)) b ≡ true
  unfolding matches scope_value value_at
  compared_context e b h = ground arith

  exists_context :
      (b : Bool)
      → matches (exists "context" (key ∷ []) b) facts ≡ ok true
      → bool_eq (is_present (child facts.context_value key)) b ≡ true
  unfolding matches scope_value value_at
  exists_context b h = ground arith

  observed_variable :
      (o : Option Value)
      → matches (value "variables" (key ∷ []) o) facts ≡ ok true
      → values_equal (get key facts.variable_values) o ≡ true
  unfolding matches scope_value value_at child
  observed_variable o h = ground arith

  exists_variable :
      (b : Bool)
      → matches (exists "variables" (key ∷ []) b) facts ≡ ok true
      → bool_eq (is_present (get key facts.variable_values)) b ≡ true
  unfolding matches scope_value value_at child
  exists_variable b h = ground arith

names_variable :
    (names : List String) (facts : RequestFacts)
    → matches (keys_of "variables" [] names) facts ≡ ok true
    → sorted (keys facts.variable_values) ≡ names
unfolding matches scope_value value_at
names_variable names facts h = texts_equal→≡ _ _ (ground arith)

last_matches :
    (sink : Sink) (c : Constraint) (facts : RequestFacts)
    → Holds (sink ++ c ∷ []) facts
    → matches c facts ≡ ok true
last_matches sink c facts h = matches_of-Holds c facts (Holds-append_right sink (c ∷ []) facts h)

-- The reads of one request mirrored by those of another.
module _ (f g : RequestFacts) where
  pub Mirrors-eval :
      (key : String) → Mirrors g Same (eval f.context_value key) (eval g.context_value key)
  unfolding eval values_equal
  Mirrors-eval key sink sink' v h held = elim (Result-cases (read f.context_value key)) [
    | inl (u, e) ↦
        let found = observed_context key g (some u) (last_matches sink _ g (rw e at held)) in
        elim (Option-cases (child g.context_value key)) [
          | inl p ↦ absurd (ground (arith, found))
          | inr (w, p) ↦ (w, ground (arith, read_of-child g.context_value key w p), ground arith)
        ]
    | inr (x, e) ↦ absurd (ground arith)
  ]

  pub Mirrors-eval_is :
      (key : String) (expected : Value)
      → Mirrors g ◌≡◌ (eval_is f.context_value key expected) (eval_is g.context_value key expected)
  unfolding eval_is values_equal
  Mirrors-eval_is key expected sink sink' b h held =
      elim (Result-cases (read f.context_value key)) [
        | inl (u, e) ↦
            let both = rw e at held in
            let compared = compared_context key g expected _ (last_matches _ _ g both) in
            let there =
              exists_context key g true (last_matches sink _ g (Holds-append_left _ _ g both)) in
            elim (Option-cases (child g.context_value key)) [
              | inl p ↦ absurd (ground (arith, there))
              | inr (w, p) ↦
                  (b, ground (arith, read_of-child g.context_value key w p, compared), refl)
            ]
        | inr (x, e) ↦ absurd (ground arith)
      ]

  pub Mirrors-eval_has :
      (key : String) → Mirrors g ◌≡◌ (eval_has f.context_value key) (eval_has g.context_value key)
  unfolding eval_has
  Mirrors-eval_has key sink sink' b h held =
      (b, ground (arith, exists_context key g _ (last_matches sink _ g held)), refl)

  pub Mirrors-variable_item :
      (name : String)
      → Mirrors g Same (variable_item f.variable_values name) (variable_item g.variable_values name)
  unfolding variable_item values_equal
  Mirrors-variable_item name sink sink' v h held =
      elim (Option-cases (get name f.variable_values)) [
        | inl e ↦ absurd (ground arith)
        | inr (u, e) ↦
            let found = observed_variable name g (some u) (last_matches sink _ g (rw e at held)) in
            elim (Option-cases (get name g.variable_values)) [
              | inl p ↦ absurd (ground (arith, found))
              | inr (w, p) ↦ (w, ground arith, ground arith)
            ]
      ]

  abbrev pub SameOrDefault : Value → Value → Type 0
  SameOrDefault v w = (v ≡ w) ⊎ Same v w

  pub Mirrors-variable_get :
      (name : String) (d : Value)
      → Mirrors g SameOrDefault
          (variable_get f.variable_values name d)
          (variable_get g.variable_values name d)
  unfolding variable_get values_equal
  Mirrors-variable_get name d sink sink' v h held =
      let found = observed_variable name g _ (last_matches sink _ g held) in
      elim (Option-cases (get name f.variable_values)) [
        | inl e ↦ elim (Option-cases (get name g.variable_values)) [
          | inl p ↦ (d, ground arith, inl (ground arith))
          | inr (w, p) ↦ absurd (ground (arith, found))
        ]
        | inr (u, e) ↦ elim (Option-cases (get name g.variable_values)) [
          | inl p ↦ absurd (ground (arith, found))
          | inr (w, p) ↦ (w, ground arith, inr (ground (arith, found)))
        ]
      ]

  pub Mirrors-variable_contains :
      (name : String)
      → Mirrors g ◌≡◌
          (variable_contains f.variable_values name)
          (variable_contains g.variable_values name)
  unfolding variable_contains
  Mirrors-variable_contains name sink sink' b h held =
      (b, ground (arith, exists_variable name g _ (last_matches sink _ g held)), refl)

  abbrev pub SameNames : List String → List String → Type 0
  SameNames ks ls = sorted ls ≡ sorted ks

  pub Mirrors-variable_iter :
      Mirrors g SameNames (variable_iter f.variable_values) (variable_iter g.variable_values)
  unfolding variable_iter
  Mirrors-variable_iter sink sink' ks h held =
      let named = names_variable _ g (last_matches sink _ g held) in
      (keys g.variable_values, refl, ground (arith, named))

  pub Mirrors-variable_len :
      Mirrors g ◌≡◌ (variable_len f.variable_values) (variable_len g.variable_values)
  unfolding variable_len
  Mirrors-variable_len sink sink' n h held =
      let named = names_variable _ g (last_matches sink _ g held) in
      let counted : count_fields g.variable_values ≡ count_fields f.variable_values = ground (
        arith,
        ap length named,
        length-sorted (keys g.variable_values),
        length-sorted (keys f.variable_values),
        length-keys g.variable_values,
        length-keys f.variable_values,
      ) in
      (n, ground arith, refl)
