-- ===== src/Cache/Bounds.antt =====
-- Laws of what the operations of `PlanCache` (src/grafast_py/cache.py) keep: its bounds, and any
-- property `Q` of a key and a candidate.
use grafast_py.Prelude.{
  ℕ, zero, suc, ◌≤◌, ◌<◌, Bool, true, false, some, List, [], ◌∷◌, ◌++◌, ◌≡◌, refl, ap, subst, arith,
  length, ◌==◌, All, All-take, length-take-le, Option-cases, Bool-cases, inl, inr,
}
use grafast_py.Prelude.Assoc.{
  without, DistinctKeys, length-without, length-snoc_one, move_to_end-set_item, move_to_end_found,
}
use grafast_py.Constraints.Defs.{Result, ok, err}
use grafast_py.Cache.Defs.{
  CachedPlan, PlanCache, max_variants_per_key, pull, hoist, drop_variant, first_valid, init,
  bucket_of, snapshot, count_hit, or_empty, fresh_bucket, is_over, kept_bucket, stored, put,
}
use grafast_py.Cache.Entries.{
  Entry, length-hoist, length-evict-le, All-evict, evict-DistinctKeys, All-lookup, All-touch,
  touch-DistinctKeys, All-set_item, set_item-DistinctKeys, length-set_item,
}

module _ {P : Type 0} (R : CachedPlan P → Type 0) where
  All-pull :
      (c : CachedPlan P) (xs r : List (CachedPlan P)) → All R xs → pull c xs ≡ some r → All R r
  unfolding pull
  All-pull c [] r h e = absurd (cc)
  All-pull c (x ∷ xs) r h e = elim (Bool-cases (x.identity == c.identity)) [
    | inl here ↦ let found : xs ≡ r = ground arith in subst (All R) found h.1
    | inr there ↦ elim (Option-cases (pull c xs)) [
      | inl p ↦ absurd (ground arith)
      | inr (s, p) ↦
          let found : x ∷ s ≡ r = ground arith in subst (All R) found (h.0, All-pull c xs s h.1 p)
    ]
  ]

  pub All-hoist :
      (c : CachedPlan P) (xs : List (CachedPlan P)) → All R xs → R c → All R (hoist c xs)
  unfolding hoist
  All-hoist c [] h q = tt
  All-hoist c (x ∷ xs) h q = elim (Option-cases (pull c xs)) [
    | inl e ↦ ground arith
    | inr (r, e) ↦ ground (arith, All-pull c xs r h.1 e)
  ]

  pub All-drop_variant :
      (c : CachedPlan P) (xs : List (CachedPlan P)) → All R xs → All R (drop_variant c xs)
  unfolding drop_variant
  All-drop_variant c [] h = tt
  All-drop_variant c (x ∷ xs) h = ground (arith, All-drop_variant c xs h.1)

  -- What the validation loop returns is in the snapshot, and validates.
  pub first_valid-All :
      (validate : CachedPlan P → Result Bool) (xs : List (CachedPlan P)) (c : CachedPlan P)
      → All R xs
      → first_valid validate xs ≡ ok (some c)
      → R c × (validate c ≡ ok true)
  unfolding first_valid
  first_valid-All validate [] c h e = absurd (cc)
  first_valid-All validate (x ∷ xs) c h e =
      verdict (validate x) refl (first_valid-All validate xs c h.1)
    where
      verdict :
          (r : Result Bool)
          → validate x ≡ r
          → (first_valid validate xs ≡ ok (some c) → R c × (validate c ≡ ok true))
          → R c × (validate c ≡ ok true)
      verdict (err a) p rest = absurd (ground arith)
      verdict (ok true) p rest =
          let same : x ≡ c = ground arith in subst (λ y. R y × (validate y ≡ ok true)) same (h.0, p)
      verdict (ok false) p rest = rest (ground arith)

module _ {K P : Type 0} (dec : Discrete K) (Q : K → CachedPlan P → Type 0) where
  abbrev pub IsBucket : Entry K P → Type 0
  IsBucket e = (0 < length e.1) × (length e.1 ≤ max_variants_per_key) × All (Q e.0) e.1

  pub record IsValid (c : PlanCache K P) : Type 0 where
    pub positive : 0 < c.max_entries
    pub bounded : length c.entries ≤ c.max_entries
    pub distinct : DistinctKeys dec c.entries
    pub buckets : All IsBucket c.entries

  pub init-IsValid : (n : ℕ) (c : PlanCache K P) → init n ≡ ok c → IsValid c
  unfolding init
  init-IsValid zero c e = absurd (cc)
  init-IsValid (suc n) c e =
      let same : record { max_entries = suc n; entries = []; hits = 0; misses = 0; evictions = 0 }
          ≡ c =
        ground arith in
      subst IsValid same
        (record { positive = omega arith; bounded = omega arith; distinct = tt; buckets = tt })

  -- A bucket written at the most recent end.
  touch-IsValid :
      (k : K) (b b' : List (CachedPlan P)) (c c' : PlanCache K P)
      → bucket_of dec k c ≡ some b'
      → IsBucket (k, b)
      → c'.max_entries ≡ c.max_entries
      → c'.entries ≡ without dec k c.entries ++ (k, b) ∷ []
      → IsValid c
      → IsValid c'
  touch-IsValid k b b' c c' e q m t v = record {
    positive = omega arith;
    bounded = omega (
      arith,
      ap length t,
      length-snoc_one dec (without dec k c.entries) (k, b),
      length-without dec k c.entries b' v.distinct e,
    );
    distinct = rw t (touch-DistinctKeys dec k b c.entries v.distinct);
    buckets = rw t (All-touch dec IsBucket k b c.entries v.buckets q);
  }

  pub snapshot-IsValid : (k : K) (c : PlanCache K P) → IsValid c → IsValid (snapshot dec k c).1
  unfolding snapshot
  snapshot-IsValid k c v = elim (Option-cases (bucket_of dec k c)) [
    | inl e ↦
        rw (e, snapshot)
          (record {
            positive = v.positive;
            bounded = v.bounded;
            distinct = v.distinct;
            buckets = v.buckets;
          })
    | inr (b, e) ↦
        rw (e, snapshot)
          (touch-IsValid k b b c _ e (All-lookup dec IsBucket k c.entries b v.buckets e) refl
            (move_to_end_found dec k b c.entries e) v)
  ]

  pub count_hit-IsValid :
      (k : K) (x : CachedPlan P) (c : PlanCache K P)
      → Q k x
      → IsValid c
      → IsValid (count_hit dec k x c)
  unfolding count_hit
  count_hit-IsValid k x c q v = elim (Option-cases (bucket_of dec k c)) [
    | inl e ↦
        rw (e, count_hit)
          (record {
            positive = v.positive;
            bounded = v.bounded;
            distinct = v.distinct;
            buckets = v.buckets;
          })
    | inr (b, e) ↦
        let old = All-lookup dec IsBucket k c.entries b v.buckets e in
        let new : (j : K) → j ≡ k → IsBucket (j, hoist x b) = λ j p.
          rw p (
            rw (length-hoist x b) old.0,
            rw (length-hoist x b) old.1,
            All-hoist (Q k) x b old.2 q,
          ) in
        rw (e, count_hit)
          (record {
            positive = v.positive;
            bounded = rw (length-set_item dec k (hoist x b) b c.entries e) v.bounded;
            distinct = set_item-DistinctKeys dec k (hoist x b) c.entries v.distinct;
            buckets = All-set_item dec IsBucket k (hoist x b) c.entries v.buckets new;
          })
  ]

  old-All : (k : K) (c : PlanCache K P) → IsValid c → All (Q k) (or_empty dec (bucket_of dec k c))
  old-All k c v = elim (Option-cases (bucket_of dec k c)) [
    | inl e ↦ rw e tt
    | inr (b, e) ↦ rw e (All-lookup dec IsBucket k c.entries b v.buckets e).2
  ]

  kept_bucket-IsBucket :
      (k : K) (x : CachedPlan P) (c : PlanCache K P)
      → Q k x
      → IsValid c
      → IsBucket (k, kept_bucket dec k x c)
  unfolding kept_bucket fresh_bucket
  kept_bucket-IsBucket k x c q v =
      let rest = drop_variant x (or_empty dec (bucket_of dec k c)) in
      let all : All (Q k) (x ∷ rest) = (q, All-drop_variant (Q k) x _ (old-All k c v)) in
      elim (Bool-cases (is_over dec k x c)) [
        | inl over ↦
            rw (over, kept_bucket)
              (omega arith, length-take-le 8 (x ∷ rest), All-take (Q k) 8 (x ∷ rest) all)
        | inr fits ↦ rw (fits, kept_bucket) (omega arith, ground arith, all)
      ]

  -- Storing a candidate that has the property keeps a valid cache valid: at least one entry allowed
  -- and no more than allowed, no key twice, and buckets that are not empty, within the cap, and
  -- whose candidates have the property of their key.
  pub put-IsValid :
      (k : K) (x : CachedPlan P) (c : PlanCache K P) → Q k x → IsValid c → IsValid (put dec k x c).0
  unfolding put
  put-IsValid k x c q v =
      let b = kept_bucket dec k x c in
      let written = move_to_end-set_item dec k b c.entries in
      record {
        positive = v.positive;
        bounded = length-evict-le c.max_entries (stored dec k x c);
        distinct =
            evict-DistinctKeys dec c.max_entries _
              (rw written (touch-DistinctKeys dec k b c.entries v.distinct));
        buckets = All-evict IsBucket c.max_entries _ (
            rw written
              (All-touch dec IsBucket k b c.entries v.buckets (kept_bucket-IsBucket k x c q v)));
      }
