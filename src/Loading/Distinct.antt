-- ===== src/Loading/Distinct.antt =====
-- The keys that a batched load asks for (src/grafast_py/core_steps.py).
use grafast_py.Prelude.{
  length, ℕ, Bool, true, false, ◌&&◌, Option, none, some, List, [], ◌∷◌, ◌++◌, ◌≡◌, refl, All,
  All-append, arith, Bool-cases, inl, inr, ◌⊎◌, subst,
}
use grafast_py.Loading.Load.{Keys, coalesce, seat, seat_hashable, slot_of, Seat}

module _ {K : Type 0} (keys_of : Keys K) where
  -- Two keys that coalescing would merge.
  abbrev pub is_merged : K → K → Bool
  is_merged j k = (keys_of.is_hashable j && keys_of.is_hashable k) && keys_of.same j k

  abbrev pub IsDistinct : List K → Type 0
  IsDistinct [] = Unit
  IsDistinct (j ∷ ks) = All (λ k. is_merged j k ≡ false) ks × IsDistinct ks

  abbrev InDict : K → List (K × ℕ) → Type 0
  InDict j [] = ⊥
  InDict j (p ∷ dict) = (p.0 ≡ j) ⊎ InDict j dict

  abbrev IsCovered : List (K × ℕ) → List K → Type 0
  IsCovered dict = All (λ j. keys_of.is_hashable j ≡ true → InDict j dict)

  IsDistinct-append :
      (u : List K) (k : K)
      → IsDistinct u
      → All (λ j. is_merged j k ≡ false) u
      → IsDistinct (u ++ k ∷ [])
  IsDistinct-append [] k d h = (tt, tt)
  IsDistinct-append (j ∷ u) k (a, d) (h, hs) =
      (All-append (λ x. is_merged j x ≡ false) u (k ∷ []) a (h, tt), IsDistinct-append u k d hs)

  absent_key :
      (j k : K) (dict : List (K × ℕ))
      → slot_of keys_of k dict ≡ none
      → InDict j dict
      → keys_of.same j k ≡ false
  absent_key j k [] e h = absurd h
  absent_key j k ((i, s) ∷ dict) e (inl same) =
      subst (λ x. keys_of.same x k ≡ false) same (ground arith)
  absent_key j k ((i, s) ∷ dict) e (inr h) = absent_key j k dict (ground arith) h

  unmerged :
      (u : List K) (k : K) (dict : List (K × ℕ))
      → slot_of keys_of k dict ≡ none
      → IsCovered dict u
      → All (λ j. is_merged j k ≡ false) u
  unmerged [] k dict e h = tt
  unmerged (j ∷ u) k dict e (h, hs) =
      let here : is_merged j k ≡ false = elim (Bool-cases (keys_of.is_hashable j)) [
        | inl can ↦ rw (absent_key j k dict e (h can)) (ground arith)
        | inr cannot ↦ rw cannot refl
      ] in
      (here, unmerged u k dict e hs)

  unhashable_unmerged :
      (u : List K) (k : K) → keys_of.is_hashable k ≡ false → All (λ j. is_merged j k ≡ false) u
  unhashable_unmerged [] k e = tt
  unhashable_unmerged (j ∷ u) k e = (ground arith, unhashable_unmerged u k e)

  IsCovered-grow :
      (p : K × ℕ) (dict : List (K × ℕ)) (u : List K) → IsCovered dict u → IsCovered (p ∷ dict) u
  IsCovered-grow p dict [] h = tt
  IsCovered-grow p dict (j ∷ u) (h, hs) = ((λ c. inr (h c)), IsCovered-grow p dict u hs)

  abbrev IsGood : Seat K → Type 0
  IsGood s = IsDistinct s.unique_keys × IsCovered s.slot_for_key s.unique_keys

  seat_hashable-IsGood :
      (k : K) (u : List K) (dict : List (K × ℕ)) (o : Option ℕ)
      → slot_of keys_of k dict ≡ o
      → IsDistinct u
      → IsCovered dict u
      → IsGood (seat_hashable keys_of k u dict o)
  seat_hashable-IsGood k u dict (some s) e d c = (d, c)
  seat_hashable-IsGood k u dict none e d c = (
    IsDistinct-append u k d (unmerged u k dict e c),
    All-append _ u (k ∷ []) (IsCovered-grow (k, length u) dict u c) ((λ h. inl refl), tt),
  )

  seat-IsGood :
      (k : K) (u : List K) (dict : List (K × ℕ))
      → IsDistinct u
      → IsCovered dict u
      → IsGood (seat keys_of k u dict)
  seat-IsGood k u dict d c = elim (Bool-cases (keys_of.is_hashable k)) [
    | inl can ↦ rw can (seat_hashable-IsGood k u dict (slot_of keys_of k dict) refl d c)
    | inr cannot ↦ rw cannot (
      IsDistinct-append u k d (unhashable_unmerged u k cannot),
      All-append _ u (k ∷ []) c ((λ h. cc), tt),
    )
  ]

  coalesce-IsDistinct_from :
      (u : List K) (dict : List (K × ℕ)) (ks : List K)
      → IsDistinct u
      → IsCovered dict u
      → IsDistinct (coalesce keys_of u dict ks).0
  unfolding coalesce
  coalesce-IsDistinct_from u dict [] d c = d
  coalesce-IsDistinct_from u dict (k ∷ ks) d c =
      let (d', c') = seat-IsGood k u dict d c in
      coalesce-IsDistinct_from (seat keys_of k u dict).unique_keys
        (seat keys_of k u dict).slot_for_key ks d' c'

  -- No two of the unique keys of a bucket, which are what the callback is given, are hashable and equal.
  pub coalesce-IsDistinct : (keys : List K) → IsDistinct (coalesce keys_of [] [] keys).0
  coalesce-IsDistinct keys = coalesce-IsDistinct_from [] [] keys tt tt
