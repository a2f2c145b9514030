-- ===== src/Dag/Remaps.antt =====
-- Laws of the remaps of src/grafast_py/dag.py.
use native.Mathlib.Decide.{ℕ_discrete}
use grafast_py.Prelude.{
  ℕ, zero, suc, ◌<◌, false, Option, none, some, [], ◌∷◌, ◌==◌, ==_iff, ◌≡◌, refl, ap, ◌∙◌, arith,
  Bool-cases, Option-cases, inl, inr, subst,
}
use grafast_py.Prelude.Assoc.{lookup, set_item}
use grafast_py.Dag.Merges.{
  Remap, get_id, chase, resolve_items, resolve_merged, or_self, forward, set_default, carry,
  compose_remaps,
}

-- What a step becomes.
abbrev pub moved : Remap → ℕ → ℕ
moved m i = or_self i (get_id i m)

abbrev or_else : Option ℕ → Option ℕ → Option ℕ
or_else none o = o
or_else (some v) o = some v

abbrev advanced : Remap → Option ℕ → Option ℕ
advanced second none = none
advanced second (some mid) = some (or_self mid (get_id mid second))

get_id-forward :
    (second first : Remap) (i : ℕ)
    → get_id i (forward second first) ≡ advanced second (get_id i first)
unfolding forward lookup
get_id-forward second [] i = refl
get_id-forward second ((k, v) ∷ rest) i = ground (arith, get_id-forward second rest i)

get_id-set_item :
    (k v : ℕ) (m : Remap) (i : ℕ)
    → get_id k m ≡ none
    → get_id i (set_item ℕ_discrete k v m) ≡ or_else (get_id i m) (get_id i ((k, v) ∷ []))
unfolding lookup set_item
get_id-set_item k v [] i h = refl
get_id-set_item k v ((j, w) ∷ m) i h = ground (arith, get_id-set_item k v m i)

get_id-set_default :
    (k v : ℕ) (m : Remap) (i : ℕ)
    → get_id i (set_default k v m) ≡ or_else (get_id i m) (get_id i ((k, v) ∷ []))
unfolding lookup
get_id-set_default k v m i = elim (Option-cases (get_id k m)) [
  | inl e ↦ rw (e, set_default) (get_id-set_item k v m i e)
  | inr (w, e) ↦ rw (e, set_default) (kept_found (get_id i m) w e refl)
]
  where
    kept_found :
        (o : Option ℕ) (w : ℕ)
        → get_id k m ≡ some w
        → get_id i m ≡ o
        → o ≡ or_else o (get_id i ((k, v) ∷ []))
    kept_found (some x) w e p = refl
    kept_found none w e p = elim (Bool-cases (k == i)) [
      | inl here ↦ let same : k ≡ i = ground arith in absurd (cc)
      | inr there ↦ ground arith
    ]

get_id-carry :
    (second m : Remap) (i : ℕ) → get_id i (carry second m) ≡ or_else (get_id i m) (get_id i second)
unfolding carry lookup
get_id-carry [] m i = ground arith
get_id-carry ((k, v) ∷ rest) m i =
    ground (arith, get_id-carry rest (set_default k v m) i, get_id-set_default k v m i)

-- A step remapped by the composition is remapped by the first pass and then by the second.
pub moved-compose_remaps :
    (first second : Remap) (i : ℕ)
    → moved (compose_remaps first second) i ≡ moved second (moved first i)
unfolding compose_remaps
moved-compose_remaps first second i =
    rw (get_id-carry second (forward second first) i, get_id-forward second first i)
      (go (get_id i first))
  where
    go :
        (o : Option ℕ)
        → or_self i (or_else (advanced second o) (get_id i second)) ≡ moved second (or_self i o)
    go none = refl
    go (some mid) = refl

-- The chain of replacements from a step to its last.
pub data Chain (merged : Remap) : ℕ → ℕ → Type 0 where
  unmoved : {i : ℕ} → get_id i merged ≡ none → Chain merged i i
  stays : {i : ℕ} → get_id i merged ≡ some i → Chain merged i i
  link : {i j k : ℕ} → get_id i merged ≡ some j → Chain merged j k → Chain merged i k

module _ (merged : Remap) (rank : ℕ → ℕ) where
  -- A replacement ranks below what it replaces: the replacements make no circle.
  abbrev pub Descends : Type 0
  Descends = (i j : ℕ) → get_id i merged ≡ some j → (j == i) ≡ false → rank j < rank i

  chase_lem :
      (fuel i : ℕ)
      → Descends
      → rank i < fuel
      → (k : ℕ) × (chase fuel merged i ≡ some k) × Chain merged i k
  unfolding chase
  chase_lem zero i d h = absurd (omega arith)
  chase_lem (suc fuel) i d h = elim (Option-cases (get_id i merged)) [
    | inl e ↦ (i, rw (e, chase) refl, unmoved e)
    | inr (j, e) ↦ elim (Bool-cases (j == i)) [
      | inl same ↦
          let p : j ≡ i = (==_iff j i).0 same in
          (i, rw (e, same, chase) refl, stays (e ∙ ap some p))
      | inr other ↦
          let (k, f, c) = chase_lem fuel j d (omega (arith, d i j e other)) in
          (k, rw (e, other, chase) f, link e c)
    ]
  ]

  -- The remap has the items' keys, each with the end of its chain.
  pub record Resolves (items out : Remap) : Type 0 where
    pub absent : (i : ℕ) → get_id i items ≡ none → get_id i out ≡ none
    pub final :
        (i j : ℕ) → get_id i items ≡ some j → (k : ℕ) × (get_id i out ≡ some k) × Chain merged j k

  resolve_items_lem :
      (fuel : ℕ) (items : Remap)
      → Descends
      → ((i : ℕ) → rank i < fuel)
      → (out : Remap) × (resolve_items fuel merged items ≡ some out) × Resolves items out
  unfolding resolve_items lookup
  resolve_items_lem fuel [] d h =
      ([], refl, record { absent = λ i e. refl; final = λ i j e. absurd (cc) })
  resolve_items_lem fuel ((old, new) ∷ rest) d h =
      let (k, f, c) = chase_lem fuel new d (h new) in
      let (out, g, r) = resolve_items_lem fuel rest d h in
      (
        (old, k) ∷ out,
        rw (f, g, resolve_items) refl,
        record {
          absent = λ i e. ground (arith, r.absent i);
          final = λ i j e. elim (Bool-cases (old == i)) [
            | inl here ↦
                let same : new ≡ j = ground arith in
                (k, ground arith, subst (λ x. Chain merged x k) same c)
            | inr there ↦ let (l, p, q) = r.final i j (ground arith) in (l, ground (arith, p), q)
          ];
        },
      )

  -- Replacements without a circle, and fuel above every rank: the resolution returns a remap of
  -- the same ids, each to the end of its chain of replacements.
  pub resolve_merged-Resolves :
      (fuel : ℕ)
      → Descends
      → ((i : ℕ) → rank i < fuel)
      → (out : Remap) × (resolve_merged fuel merged ≡ some out) × Resolves merged out
  unfolding resolve_merged
  resolve_merged-Resolves fuel d h = resolve_items_lem fuel merged d h
