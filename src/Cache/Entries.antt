-- ===== src/Cache/Entries.antt =====
-- Laws of the entries of a plan cache (src/grafast_py/cache.py): what each step keeps of them.
use mathlib.Core.Logic.{ite}
use grafast_py.Prelude.{
  ℕ, suc, ◌+◌, ◌≤◌, some, List, [], ◌∷◌, ◌++◌, ◌≡◌, refl, arith, length, All, All-append,
  Option-cases, inl, inr,
}
use grafast_py.Prelude.Assoc.{
  lookup, without, set_item, DistinctKeys, without-DistinctKeys, snoc-DistinctKeys,
  lookup_self-without,
}
use grafast_py.Cache.Defs.{CachedPlan, pull, hoist, drop_variant, evict}

abbrev pub Entry : Type 0 → Type 0 → Type 0
Entry K P = K × List (CachedPlan P)

module _ {P : Type 0} where
  length-pull :
      (c : CachedPlan P) (xs r : List (CachedPlan P))
      → pull c xs ≡ some r
      → length xs ≡ suc (length r)
  unfolding pull
  length-pull c [] r h = absurd (cc)
  length-pull c (x ∷ xs) r h = elim (Option-cases (pull c xs)) [
    | inl e ↦ ground arith
    | inr (s, e) ↦ ground (arith, length-pull c xs s e)
  ]

  pub length-hoist : (c : CachedPlan P) (xs : List (CachedPlan P)) → length (hoist c xs) ≡ length xs
  unfolding hoist
  length-hoist c [] = refl
  length-hoist c (x ∷ xs) = elim (Option-cases (pull c xs)) [
    | inl e ↦ ground arith
    | inr (r, e) ↦ ground (arith, length-pull c xs r e)
  ]

  pub length-drop_variant-le :
      (c : CachedPlan P) (xs : List (CachedPlan P)) → length (drop_variant c xs) ≤ length xs
  unfolding drop_variant
  length-drop_variant-le c [] = omega arith
  length-drop_variant-le c (x ∷ xs) = ground (arith, length-drop_variant-le c xs)

module _ {K P : Type 0} where
  pub length-evict-le : (cap : ℕ) (l : List (Entry K P)) → length (evict cap l).0 ≤ cap
  unfolding evict
  length-evict-le cap [] = omega arith
  length-evict-le cap (e ∷ l) = ground (arith, length-evict-le cap l)

  pub length-evict :
      (cap : ℕ) (l : List (Entry K P)) → length (evict cap l).0 + (evict cap l).1 ≡ length l
  unfolding evict
  length-evict cap [] = refl
  length-evict cap (e ∷ l) = ground (arith, length-evict cap l)

  -- While the entries fit, none is evicted.
  pub evict_fits : (cap : ℕ) (l : List (Entry K P)) → length l ≤ cap → evict cap l ≡ (l, 0)
  unfolding evict
  evict_fits cap [] h = refl
  evict_fits cap (e ∷ l) h = ground arith

  pub evict_over :
      (cap : ℕ) (e : Entry K P) (l : List (Entry K P)) → length l ≡ cap → evict cap (e ∷ l) ≡ (l, 1)
  unfolding evict
  evict_over cap e l h = ground (arith, evict_fits cap l)

  pub All-evict :
      (Q : Entry K P → Type 0) (cap : ℕ) (l : List (Entry K P)) → All Q l → All Q (evict cap l).0
  unfolding evict
  All-evict Q cap [] h = tt
  All-evict Q cap (e ∷ l) h = ground (arith, All-evict Q cap l h.1)

module _ {K P : Type 0} (dec : Discrete K) where
  pub evict-DistinctKeys :
      (cap : ℕ) (l : List (Entry K P)) → DistinctKeys dec l → DistinctKeys dec (evict cap l).0
  unfolding evict
  evict-DistinctKeys cap [] d = tt
  evict-DistinctKeys cap (e ∷ l) d = ground (arith, evict-DistinctKeys cap l d.1)

  pub All-without :
      (Q : Entry K P → Type 0) (k : K) (l : List (Entry K P)) → All Q l → All Q (without dec k l)
  unfolding without
  All-without Q k [] h = tt
  All-without Q k (e ∷ l) h = ground (arith, All-without Q k l h.1)

  pub All-lookup :
      (Q : Entry K P → Type 0) (k : K) (l : List (Entry K P)) (b : List (CachedPlan P))
      → All Q l
      → lookup dec k l ≡ some b
      → Q (k, b)
  unfolding lookup
  All-lookup Q k [] b h e = absurd (cc)
  All-lookup Q k ((j, w) ∷ l) b h e = ground (arith, All-lookup Q k l b h.1)

  -- A bucket written at the most recent end, as `put` and a hit leave it.
  pub All-touch :
      (Q : Entry K P → Type 0) (k : K) (b : List (CachedPlan P)) (l : List (Entry K P))
      → All Q l
      → Q (k, b)
      → All Q (without dec k l ++ (k, b) ∷ [])
  All-touch Q k b l h q = All-append Q (without dec k l) _ (All-without Q k l h) (q, tt)

  pub touch-DistinctKeys :
      (k : K) (b : List (CachedPlan P)) (l : List (Entry K P))
      → DistinctKeys dec l
      → DistinctKeys dec (without dec k l ++ (k, b) ∷ [])
  touch-DistinctKeys k b l d =
      snoc-DistinctKeys dec k b _ (lookup_self-without dec k l) (without-DistinctKeys dec k l d)

  pub All-set_item :
      (Q : Entry K P → Type 0) (k : K) (b : List (CachedPlan P)) (l : List (Entry K P))
      → All Q l
      → ((j : K) → j ≡ k → Q (j, b))
      → All Q (set_item dec k b l)
  unfolding set_item
  All-set_item Q k b [] h q = (q k refl, tt)
  All-set_item Q k b ((j, w) ∷ l) h q = elim (dec j k) [
    | yes p ↦ ground (arith, q j p)
    | no p ↦ ground (arith, All-set_item Q k b l h.1 q)
  ]

  -- Writing at a key that is there changes no key.
  pub lookup-set_item :
      (k j : K) (b : List (CachedPlan P)) (l : List (Entry K P))
      → lookup dec j (set_item dec k b l) ≡ ite (dec k j) (some b) (lookup dec j l)
  unfolding lookup set_item
  lookup-set_item k j b [] = refl
  lookup-set_item k j b ((i, w) ∷ l) = ground (arith, lookup-set_item k j b l)

  pub set_item-DistinctKeys :
      (k : K) (b : List (CachedPlan P)) (l : List (Entry K P))
      → DistinctKeys dec l
      → DistinctKeys dec (set_item dec k b l)
  unfolding set_item lookup
  set_item-DistinctKeys k b [] d = (refl, tt)
  set_item-DistinctKeys k b ((j, w) ∷ l) d =
      ground (arith, set_item-DistinctKeys k b l d.1, lookup-set_item k j b l)

  pub length-set_item :
      (k : K) (b b' : List (CachedPlan P)) (l : List (Entry K P))
      → lookup dec k l ≡ some b'
      → length (set_item dec k b l) ≡ length l
  unfolding set_item lookup
  length-set_item k b b' [] e = absurd (cc)
  length-set_item k b b' ((j, w) ∷ l) e = ground (arith, length-set_item k b b' l)
