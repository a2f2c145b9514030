-- ===== src/Loading/Coalesce.antt =====
-- Laws of batched loads (src/grafast_py/core_steps.py): one call on the unique keys gives each entry
-- what its own key loads.
use grafast_py.Prelude.{
  ℕ, zero, suc, true, Option, none, some, List, [], ◌∷◌, ◌++◌, map, length, length-map, get_elem?,
  replicate, ◌==◌, ◌≡◌, refl, ap, sym, ◌∙◌, All, arith, Bool-cases, inl, inr, subst,
}
use mathlib.Core.List.{append_assoc, append-nil}
use grafast_py.Steps.Defs.{done, outcome}
use grafast_py.Loading.Defs.{
  ColumnEntry, Called, and_then, each_index, first_entries, poisoned, returned, raised,
}
use grafast_py.Loading.Load.{
  Keys, Loaded, Seat, coalesce, dispatch, finish_load, load_execute, pending, refused, settled,
  rows, seat, seat_hashable, slot_of,
}

module _ {A : Type 0} where
  pub first_entries-length : (xs : List A) → first_entries (length xs) xs ≡ some xs
  first_entries-length [] = refl
  first_entries-length (x ∷ xs) = rw (first_entries-length xs) refl

  -- What is at an index stays there when the list grows.
  pub get_elem?-append :
      (xs ys : List A) (i : ℕ) (x : A) → get_elem? xs i ≡ some x → get_elem? (xs ++ ys) i ≡ some x
  get_elem?-append [] ys i x h = cc
  get_elem?-append (y ∷ xs) ys zero x h = h
  get_elem?-append (y ∷ xs) ys (suc i) x h = get_elem?-append xs ys i x h

  pub get_elem?-end : (xs ys : List A) (x : A) → get_elem? (xs ++ x ∷ ys) (length xs) ≡ some x
  get_elem?-end [] ys x = refl
  get_elem?-end (y ∷ xs) ys x = get_elem?-end xs ys x

  pub get_elem?-map :
      {B : Type 0} (f : A → B) (xs : List A) (i : ℕ) (x : A)
      → get_elem? xs i ≡ some x
      → get_elem? (map f xs) i ≡ some (f x)
  get_elem?-map f [] i x h = cc
  get_elem?-map f (y ∷ xs) zero x h = cc
  get_elem?-map f (y ∷ xs) (suc i) x h = get_elem?-map f xs i x h

module _ {K R : Type 0} (keys_of : Keys K) (f : K → R)
    (lawful : (j k : K) → keys_of.same j k ≡ true → f j ≡ f k) where
  -- Each key of the dict stands in its slot.
  abbrev Seated : List K → List (K × ℕ) → Type 0
  Seated unique = All (λ p. get_elem? unique p.1 ≡ some p.0)

  -- The slot of each entry holds a key that loads what the entry's key loads.
  abbrev pub Serves : List K → List ℕ → List K → Type 0
  Serves final [] [] = Unit
  Serves final (s ∷ slots) (k ∷ ks) =
      ((j : K) × (get_elem? final s ≡ some j) × (f j ≡ f k)) × Serves final slots ks
  Serves final _ _ = ⊥

  Seated-append :
      (unique more : List K) (dict : List (K × ℕ))
      → Seated unique dict
      → Seated (unique ++ more) dict
  Seated-append unique more [] h = tt
  Seated-append unique more ((k, s) ∷ dict) (h, hs) =
      (get_elem?-append unique more s k h, Seated-append unique more dict hs)

  slot_of-Seated :
      (k : K) (unique : List K) (dict : List (K × ℕ)) (s : ℕ)
      → Seated unique dict
      → slot_of keys_of k dict ≡ some s
      → (j : K) × (get_elem? unique s ≡ some j) × (f j ≡ f k)
  slot_of-Seated k unique [] s h e = cc
  slot_of-Seated k unique ((j, t) ∷ dict) s (h, hs) e = elim (Bool-cases (keys_of.same j k)) [
    | inl here ↦
        let t_s : t ≡ s = ground arith in
        (j, subst (λ i. get_elem? unique i ≡ some j) t_s h, lawful j k here)
    | inr there ↦ slot_of-Seated k unique dict s hs (ground arith)
  ]

  -- What one round leaves: the list of unique keys grew, the dict is seated, the slot serves the key.
  abbrev IsSeated : K → List K → Seat K → Type 0
  IsSeated k unique s =
      ((more : List K) × (s.unique_keys ≡ unique ++ more))
      × (Seated s.unique_keys s.slot_for_key
          × ((j : K) × (get_elem? s.unique_keys s.slot ≡ some j) × (f j ≡ f k)))

  seat_hashable-IsSeated :
      (k : K) (unique : List K) (dict : List (K × ℕ)) (o : Option ℕ)
      → slot_of keys_of k dict ≡ o
      → Seated unique dict
      → IsSeated k unique (seat_hashable keys_of k unique dict o)
  seat_hashable-IsSeated k unique dict (some s) e h =
      (([], sym (append-nil unique)), (h, slot_of-Seated k unique dict s h e))
  seat_hashable-IsSeated k unique dict none e h = (
    (k ∷ [], refl),
    (
      (get_elem?-end unique [] k, Seated-append unique (k ∷ []) dict h),
      (k, get_elem?-end unique [] k, refl),
    ),
  )

  seat-IsSeated :
      (k : K) (unique : List K) (dict : List (K × ℕ))
      → Seated unique dict
      → IsSeated k unique (seat keys_of k unique dict)
  seat-IsSeated k unique dict h = elim (Bool-cases (keys_of.is_hashable k)) [
    | inl here ↦ rw here (seat_hashable-IsSeated k unique dict (slot_of keys_of k dict) refl h)
    | inr there ↦ rw there (
      (k ∷ [], refl),
      (Seated-append unique (k ∷ []) dict h, (k, get_elem?-end unique [] k, refl)),
    )
  ]

  coalesce-Serves :
      (unique : List K) (dict : List (K × ℕ)) (ks : List K)
      → Seated unique dict
      → ((more : List K) × ((coalesce keys_of unique dict ks).0 ≡ unique ++ more))
        × Serves (coalesce keys_of unique dict ks).0 (coalesce keys_of unique dict ks).1 ks
  unfolding coalesce
  coalesce-Serves unique dict [] h = (([], sym (append-nil unique)), tt)
  coalesce-Serves unique dict (k ∷ ks) h =
      let s = seat keys_of k unique dict in
      let ((more, p), (d, (j, q, r))) = seat-IsSeated k unique dict h in
      let ((more', p'), serves) = coalesce-Serves s.unique_keys s.slot_for_key ks d in
      (
        (more ++ more', p' ∙ ap (λ l. l ++ more') p ∙ append_assoc unique more more'),
        ((j, rw p' (get_elem?-append s.unique_keys more' s.slot j q), r), serves),
      )

  rows_of_slots :
      (final : List K) (slots : List ℕ) (ks : List K)
      → Serves final slots ks
      → each_index (length ks) (λ i. and_then (get_elem? slots i) (get_elem? (map f final)))
        ≡ some (map f ks)
  rows_of_slots final [] [] h = refl
  rows_of_slots final [] (k ∷ ks) h = absurd h
  rows_of_slots final (s ∷ slots) [] h = absurd h
  rows_of_slots final (s ∷ slots) (k ∷ ks) ((j, p, q), h) =
      rw (rows_of_slots final slots ks h, get_elem?-map f final s j p, q) refl

-- What a batch callback does: it raises, or loads each key on its own.
abbrev pub loads : {K V E : Type 0} → Called (K → ColumnEntry V E) E → K → ColumnEntry V E
loads (returned f) k = f k
loads (raised e) k = poisoned e

abbrev pub answer :
    {K V E : Type 0} → Called (K → ColumnEntry V E) E → List K → Called (List (ColumnEntry V E)) E
answer (returned f) ks = returned (map f ks)
answer (raised e) ks = raised e

map_constant : {A B : Type 0} (b : B) (xs : List A) → replicate (length xs) b ≡ map (λ x. b) xs
map_constant b [] = refl
map_constant b (x ∷ xs) = ap (λ l. b ∷ l) (map_constant b xs)

pub eq_self : (n : ℕ) → (n == n) ≡ true
eq_self n = ground arith

module _ {K V E : Type 0} (keys_of : Keys K) (load_fn : List K → Loaded (ColumnEntry V E) E) where
  outcome-dispatch :
      (slots : List ℕ) (count n : ℕ) (l : Loaded (ColumnEntry V E) E)
      → outcome (dispatch slots count n l) ≡ finish_load slots count n (settled l)
  outcome-dispatch slots count n (rows xs) = refl
  outcome-dispatch slots count n (pending p) = refl
  outcome-dispatch slots count n (refused e) = refl

  dispatch-answer :
      (behaviour : Called (K → ColumnEntry V E) E) (keys : List K)
      → ((j k : K) → keys_of.same j k ≡ true → loads behaviour j ≡ loads behaviour k)
      → (l : Loaded (ColumnEntry V E) E)
      → settled l ≡ answer behaviour (coalesce keys_of [] [] keys).0
      → outcome (
          dispatch
            (coalesce keys_of [] [] keys).1
            (length keys)
            (length (coalesce keys_of [] [] keys).0)
            l)
        ≡ done (map (loads behaviour) keys)
  dispatch-answer (returned f) keys lawful l h =
      let final = (coalesce keys_of [] [] keys).0 in
      let slots = (coalesce keys_of [] [] keys).1 in
      let same : (length (map f final) == length final) ≡ true =
        rw (length-map f final) (eq_self (length final)) in
      rw
        (
          outcome-dispatch slots (length keys) (length final) l,
          h,
          same,
          rows_of_slots keys_of f lawful final slots keys
              (coalesce-Serves keys_of f lawful [] [] keys tt).1,
        )
        refl
  dispatch-answer (raised e) keys lawful l h =
      rw
        (
          outcome-dispatch (coalesce keys_of [] [] keys).1 (length keys)
              (length (coalesce keys_of [] [] keys).0) l,
          h,
        )
        (ap done (map_constant (poisoned e) keys))

  -- When the callback, given any keys, raises one exception or gives each key its own row, at once or
  -- awaited, and keys that are equal have equal rows, a load over a bucket of keys ends with a full
  -- column: each entry has its key's row, or every entry the exception.
  pub load_execute-map :
      (behaviour : Called (K → ColumnEntry V E) E)
      → ((ks : List K) → settled (load_fn ks) ≡ answer behaviour ks)
      → ((j k : K) → keys_of.same j k ≡ true → loads behaviour j ≡ loads behaviour k)
      → (keys : List K)
      → outcome (load_execute keys_of load_fn (length keys) (keys ∷ []))
        ≡ done (map (loads behaviour) keys)
  unfolding load_execute
  load_execute-map behaviour per_key lawful keys = rw (first_entries-length keys) (
      dispatch-answer behaviour keys lawful (load_fn (coalesce keys_of [] [] keys).0)
        (per_key (coalesce keys_of [] [] keys).0))
