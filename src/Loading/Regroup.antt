-- ===== src/Loading/Regroup.antt =====
-- Laws of `EachStep` (src/grafast_py/core_steps.py): the flat bucket is regrouped by parent.
use grafast_py.Prelude.{
  ℕ, suc, Option, none, some, List, [], ◌∷◌, ◌++◌, map, length, length-append, replicate, ◌≡◌, refl,
  ap, sym, ◌∙◌, arith,
}
use mathlib.Core.List.{append_assoc, append-nil}
use grafast_py.Steps.Defs.{Output, Ran, ready, awaitable, throws, done, failed, outcome, type_error}
use grafast_py.Loading.Defs.{ColumnEntry, cons_both, or_index_error}
use grafast_py.Loading.Each.{
  add_items, append_at, each_execute, each_from, explode, items_of, regroup, regroup_output,
}

module _ {A : Type 0} where
  abbrev pairs_from : ℕ → List (List A) → List (A × ℕ)
  pairs_from i [] = []
  pairs_from i (xs ∷ lists) = map (λ x. (x, i)) xs ++ pairs_from (suc i) lists

  abbrev ran_pairs : ℕ → Option (List (List A)) → Ran (List (A × ℕ))
  ran_pairs i none = failed type_error
  ran_pairs i (some lists) = done (pairs_from i lists)

  add_items-ran_pairs :
      (i : ℕ) (o : Option (List A)) (rest : Option (List (List A)))
      → add_items i o (ran_pairs (suc i) rest) ≡ ran_pairs i (cons_both o rest)
  add_items-ran_pairs i none rest = refl
  add_items-ran_pairs i (some xs) none = refl
  add_items-ran_pairs i (some xs) (some lists) = refl

module _ {A E : Type 0} where
  -- The lists of a column, `none` if an entry is not a list.
  abbrev pub all_items : List (ColumnEntry (List A) E) → Option (List (List A))
  all_items [] = some []
  all_items (x ∷ column) = cons_both (items_of x) (all_items column)

  explode-all_items :
      (i : ℕ) (column : List (ColumnEntry (List A) E))
      → explode (length column) i column ≡ ran_pairs i (all_items column)
  unfolding explode
  explode-all_items i [] = refl
  explode-all_items i (x ∷ column) =
      ap (add_items i (items_of x)) (explode-all_items (suc i) column)
      ∙ add_items-ran_pairs i (items_of x) (all_items column)

module _ {B : Type 0} where
  append_at-length :
      (pre post : List (List B)) (g : List B) (y : B)
      → append_at (length pre) y (pre ++ g ∷ post) ≡ some (pre ++ (g ++ y ∷ []) ∷ post)
  unfolding append_at
  append_at-length [] post g y = refl
  append_at-length (p ∷ pre) post g y = rw (append_at-length pre post g y) refl

module _ {A B : Type 0} (g : A → B) where
  owners_of : List (A × ℕ) → List ℕ
  owners_of = map (λ p. p.1)

  mapped : List (A × ℕ) → List B
  mapped ps = map g (map (λ p. p.0) ps)

  regroup_list :
      (xs : List A) (i : ℕ) (more : List (A × ℕ)) (pre post : List (List B)) (ys : List B)
      → length pre ≡ i
      → regroup
          (pre ++ ys ∷ post)
          (owners_of (map (λ x. (x, i)) xs ++ more))
          (mapped (map (λ x. (x, i)) xs ++ more))
        ≡ regroup (pre ++ (ys ++ map g xs) ∷ post) (owners_of more) (mapped more)
  unfolding regroup owners_of mapped
  regroup_list [] i more pre post ys h = rw (append-nil ys) refl
  regroup_list (x ∷ xs) i more pre post ys h =
      rw (sym h, append_at-length pre post ys (g x))
        (regroup_list xs i more pre post (ys ++ g x ∷ []) h
          ∙ rw (append_assoc ys (g x ∷ []) (map g xs)) refl)

  regroup_lists :
      (lists : List (List A)) (i : ℕ) (pre : List (List B))
      → length pre ≡ i
      → regroup
          (pre ++ replicate (length lists) [])
          (owners_of (pairs_from i lists))
          (mapped (pairs_from i lists))
        ≡ some (pre ++ map (map g) lists)
  unfolding regroup owners_of mapped
  regroup_lists [] i pre h = refl
  regroup_lists (xs ∷ lists) i pre h =
      regroup_list xs i (pairs_from (suc i) lists) pre (replicate (length lists) []) [] h
      ∙ ap
          (λ l.
            regroup l (owners_of (pairs_from (suc i) lists)) (mapped (pairs_from (suc i) lists)))
          (sym (append_assoc pre (map g xs ∷ []) (replicate (length lists) [])))
      ∙ regroup_lists lists (suc i) (pre ++ map g xs ∷ [])
          (omega (arith, h, length-append pre (map g xs ∷ [])))
      ∙ ap some (append_assoc pre (map g xs ∷ []) (map (map g) lists))

-- The lists mapped item by item, or the error of an entry that is not a list.
abbrev pub each_list : {A B : Type 0} → (A → B) → Option (List (List A)) → Ran (List (List B))
each_list g none = failed type_error
each_list g (some lists) = done (map (map g) lists)

length-cons_both :
    {A : Type 0} (o : Option A) (rest : Option (List A)) (xs : List A) (n : ℕ)
    → ((ys : List A) → rest ≡ some ys → length ys ≡ n)
    → cons_both o rest ≡ some xs
    → length xs ≡ suc n
length-cons_both none rest xs n h e = cc
length-cons_both (some y) none xs n h e = cc
length-cons_both (some y) (some ys) xs n h e =
    let same : y ∷ ys ≡ xs = cc in rw (sym same) (ap suc (h ys refl))

length-all_items :
    {A E : Type 0} (column : List (ColumnEntry (List A) E)) (lists : List (List A))
    → all_items column ≡ some lists
    → length lists ≡ length column
length-all_items [] lists h = let same : [] ≡ lists = cc in rw (sym same) refl
length-all_items (x ∷ column) lists h =
    length-cons_both (items_of x) (all_items column) lists (length column) (length-all_items column)
      h

module _ {A B : Type 0} (run_items : List A → Output B) (g : A → B)
    (itemwise : (xs : List A) → outcome (run_items xs) ≡ done (map g xs)) where
  outcome-regroup_output :
      (count : ℕ) (owners : List ℕ) (o : Output B) (col : List B)
      → outcome o ≡ done col
      → outcome (regroup_output count owners o)
        ≡ outcome (or_index_error (regroup (replicate count []) owners col))
  outcome-regroup_output count owners (ready xs) col h = let same : xs ≡ col = cc in rw same refl
  outcome-regroup_output count owners (throws e) col h = cc
  outcome-regroup_output count owners (awaitable (failed e)) col h = cc
  outcome-regroup_output count owners (awaitable (done xs)) col h =
      let same : xs ≡ col = cc in rw same refl

  each_from-lists :
      (count : ℕ) (o : Option (List (List A)))
      → ((lists : List (List A)) → o ≡ some lists → length lists ≡ count)
      → outcome (each_from run_items count (ran_pairs 0 o)) ≡ each_list g o
  unfolding owners_of mapped
  each_from-lists count none h = refl
  each_from-lists count (some lists) h =
      outcome-regroup_output count (owners_of g (pairs_from 0 lists))
        (run_items (map (λ p. p.0) (pairs_from 0 lists))) (mapped g (pairs_from 0 lists))
        (itemwise (map (λ p. p.0) (pairs_from 0 lists)))
      ∙ rw (sym (h lists refl), regroup_lists g lists 0 [] refl) refl

  -- When the mapper's steps give each item its own value, at once or awaited, the step ends with each
  -- parent's list mapped item by item, None as the empty list; and if an entry is an exception, it
  -- raises a TypeError for the whole bucket.
  pub each_execute-map :
      {E : Type 0} (column : List (ColumnEntry (List A) E))
      → outcome (each_execute run_items (length column) (column ∷ []))
        ≡ each_list g (all_items column)
  unfolding each_execute
  each_execute-map column =
      rw (explode-all_items 0 column)
        (each_from-lists (length column) (all_items column) (length-all_items column))
