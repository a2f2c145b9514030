-- ===== src/Cache/Lookup.antt =====
-- Laws of the answers of `get` and `put` of src/grafast_py/cache.py.
use grafast_py.Prelude.{
  ℕ, suc, ◌+◌, ◌<◌, Bool, true, false, Option, none, some, List, [], ◌∷◌, ◌++◌, ◌≡◌, refl, ap, ◌∙◌,
  arith, length, take, drop, ltb, ◌-◌, All, Bool-cases, inl, inr,
}
use grafast_py.Prelude.Assoc.{
  lookup, without, move_to_end-set_item, lookup_self-without, lookup-append_one,
}
use grafast_py.Constraints.Defs.{Result, ok, err}
use grafast_py.Cache.Defs.{
  CachedPlan, PlanCache, drop_variant, first_valid, accepts, evict, one_if, count_miss, bucket_of,
  snapshot, count_hit, finish, resume, get, or_empty, fresh_bucket, is_over, kept_bucket, put,
}
use grafast_py.Cache.Entries.{Entry, All-lookup}
use grafast_py.Cache.Bounds.{
  IsBucket, IsValid, first_valid-All, snapshot-IsValid, count_hit-IsValid,
}

module _ {K P : Type 0} (dec : Discrete K) (Q : K → CachedPlan P → Type 0) where
  pub count_miss-IsValid : (c : PlanCache K P) → IsValid dec Q c → IsValid dec Q (count_miss c)
  unfolding count_miss
  count_miss-IsValid c v = record {
    positive = v.positive;
    bounded = v.bounded;
    distinct = v.distinct;
    buckets = v.buckets;
  }

  finish-IsValid :
      (k : K) (r : Result (Option (CachedPlan P))) (c : PlanCache K P)
      → ((x : CachedPlan P) → r ≡ ok (some x) → Q k x)
      → IsValid dec Q c
      → IsValid dec Q (finish dec k r c).1
  finish-IsValid k (err e) c q v = v
  finish-IsValid k (ok none) c q v = count_miss-IsValid c v
  finish-IsValid k (ok (some x)) c q v = count_hit-IsValid dec Q k x c (q x refl) v

  pub snapshot-All :
      (k : K) (c : PlanCache K P) (b : List (CachedPlan P))
      → IsValid dec Q c
      → (snapshot dec k c).0 ≡ some b
      → All (Q k) b
  unfolding snapshot
  snapshot-All k c b v e =
      (All-lookup dec (IsBucket dec Q) k c.entries b v.buckets (ground arith)).2

  resume-IsValid :
      (k : K) (validate : Option (CachedPlan P → Result Bool)) (o : Option (List (CachedPlan P)))
      (c : PlanCache K P)
      → ((b : List (CachedPlan P)) → o ≡ some b → All (Q k) b)
      → IsValid dec Q c
      → IsValid dec Q (resume dec k validate o c).1
  resume-IsValid k validate none c q v = v
  resume-IsValid k validate (some b) c q v =
      finish-IsValid k _ c (λ x e. (first_valid-All (Q k) (accepts validate) b x (q b refl) e).0) v

  -- A lookup keeps the cache valid.
  pub get-IsValid :
      (k : K) (validate : Option (CachedPlan P → Result Bool)) (c : PlanCache K P)
      → IsValid dec Q c
      → IsValid dec Q (get dec k validate c).1
  unfolding get
  get-IsValid k validate c v =
      resume-IsValid k validate _ _ (λ b e. snapshot-All k c b v e) (snapshot-IsValid dec Q k c v)

  finish-eq-ok :
      (k : K) (r : Result (Option (CachedPlan P))) (c : PlanCache K P) (x : CachedPlan P)
      → (finish dec k r c).0 ≡ ok (some x)
      → r ≡ ok (some x)
  finish-eq-ok k (err e) c x h = absurd (cc)
  finish-eq-ok k (ok none) c x h = h
  finish-eq-ok k (ok (some y)) c x h = h

  resume_sound :
      (k : K) (validate : CachedPlan P → Result Bool) (o : Option (List (CachedPlan P)))
      (c : PlanCache K P) (x : CachedPlan P)
      → ((b : List (CachedPlan P)) → o ≡ some b → All (Q k) b)
      → (resume dec k (some validate) o c).0 ≡ ok (some x)
      → Q k x × (validate x ≡ ok true)
  resume_sound k validate none c x q h = absurd (cc)
  resume_sound k validate (some b) c x q h =
      first_valid-All (Q k) validate b x (q b refl) (finish-eq-ok k _ c x h)

  -- From a valid cache, a candidate that a lookup returns has the property of candidates under its
  -- key, and validates.
  pub get_sound :
      (k : K) (validate : CachedPlan P → Result Bool) (c : PlanCache K P) (x : CachedPlan P)
      → IsValid dec Q c
      → (get dec k (some validate) c).0 ≡ ok (some x)
      → Q k x × (validate x ≡ ok true)
  unfolding get
  get_sound k validate c x v e = resume_sound k validate _ _ x (λ b p. snapshot-All k c b v p) e

module _ {K P : Type 0} (dec : Discrete K) where
  lookup_last-evict :
      (cap : ℕ) (k : K) (b : List (CachedPlan P)) (l : List (Entry K P))
      → 0 < cap
      → lookup dec k l ≡ none
      → lookup dec k (evict cap (l ++ (k, b) ∷ [])).0 ≡ some b
  unfolding evict lookup
  lookup_last-evict cap k b [] p h = ground arith
  lookup_last-evict cap k b ((j, w) ∷ l) p h =
      ground (arith, lookup_last-evict cap k b l, lookup-append_one dec k k b l)

  -- A stored bucket is what the next lookup finds.
  pub bucket_of-put :
      (k : K) (x : CachedPlan P) (c : PlanCache K P)
      → 0 < c.max_entries
      → bucket_of dec k (put dec k x c).0 ≡ some (kept_bucket dec k x c)
  unfolding put
  bucket_of-put k x c p =
      rw (move_to_end-set_item dec k (kept_bucket dec k x c) c.entries)
        (lookup_last-evict c.max_entries k _ _ p (lookup_self-without dec k c.entries))

  kept_bucket-front :
      (k : K) (x : CachedPlan P) (c : PlanCache K P)
      → (rest : List (CachedPlan P)) × (kept_bucket dec k x c ≡ x ∷ rest)
  unfolding kept_bucket fresh_bucket
  kept_bucket-front k x c =
      let rest = drop_variant x (or_empty dec (bucket_of dec k c)) in
      elim (Bool-cases (is_over dec k x c)) [
        | inl over ↦ (take 7 rest, rw (over, kept_bucket))
        | inr fits ↦ (rest, rw (fits, kept_bucket))
      ]

  hits-count_hit :
      (k : K) (x : CachedPlan P) (c : PlanCache K P) → (count_hit dec k x c).hits ≡ c.hits + 1
  unfolding count_hit
  hits-count_hit k x c = ground arith

  -- The front candidate is tried first.
  get_front :
      (k : K) (validate : CachedPlan P → Result Bool) (x : CachedPlan P)
      (rest : List (CachedPlan P)) (c : PlanCache K P)
      → bucket_of dec k c ≡ some (x ∷ rest)
      → validate x ≡ ok true
      → ((get dec k (some validate) c).0 ≡ ok (some x))
        × ((get dec k (some validate) c).1.hits ≡ c.hits + 1)
  unfolding get snapshot first_valid
  get_front k validate x rest c e h = (
    rw (e, snapshot) (rw (h, first_valid)),
    rw (e, snapshot) (rw (h, first_valid) (hits-count_hit k x _)),
  )

  -- With a positive `max_entries`, the variant stored last is returned to a request for which it
  -- validates, and counts as a hit.
  pub get-put :
      (k : K) (validate : CachedPlan P → Result Bool) (x : CachedPlan P) (c : PlanCache K P)
      → 0 < c.max_entries
      → validate x ≡ ok true
      → ((get dec k (some validate) (put dec k x c).0).0 ≡ ok (some x))
        × ((get dec k (some validate) (put dec k x c).0).1.hits ≡ (put dec k x c).0.hits + 1)
  get-put k validate x c p h =
      let (rest, front) = kept_bucket-front k x c in
      get_front k validate x rest (put dec k x c).0 (bucket_of-put k x c p ∙ ap some front) h

  evict-eq-drop :
      (cap : ℕ) (l : List (Entry K P))
      → ((evict cap l).0 ≡ drop (length l - cap) l) × ((evict cap l).1 ≡ length l - cap)
  unfolding evict
  evict-eq-drop cap [] = ground arith
  evict-eq-drop cap (e ∷ l) = elim (Bool-cases (ltb cap (suc (length l)))) [
    | inl over ↦
        let one_more : suc (length l) - cap ≡ suc (length l - cap) = ground arith in
        let (kept, popped) = evict-eq-drop cap l in
        rw one_more (ground (arith, kept), ground (arith, popped))
    | inr fits ↦
        let none_over : suc (length l) - cap ≡ 0 = ground arith in
        rw none_over (ground arith, ground arith)
  ]

  abbrev pub touched : K → CachedPlan P → PlanCache K P → List (Entry K P)
  touched k x c = without dec k c.entries ++ (k, kept_bucket dec k x c) ∷ []

  -- `put` leaves the `max_entries` most recently used of the entries with the written bucket last,
  -- and counts an eviction for each entry dropped and for a bucket cut at its cap.
  pub put_entries :
      (k : K) (x : CachedPlan P) (c : PlanCache K P)
      → let t = touched k x c in
        ((put dec k x c).0.entries ≡ drop (length t - c.max_entries) t)
        × ((put dec k x c).0.evictions
            ≡ c.evictions + one_if (is_over dec k x c) + (length t - c.max_entries))
  unfolding put
  put_entries k x c =
      let (kept, popped) = evict-eq-drop c.max_entries (touched k x c) in
      rw (move_to_end-set_item dec k (kept_bucket dec k x c) c.entries) (kept, rw popped)

-- If no candidate under the key makes the validation raise, a lookup does not raise.
module _ {K P : Type 0} (dec : Discrete K) (Q : K → CachedPlan P → Type 0) where
  first_valid_returns :
      (validate : CachedPlan P → Result Bool) (xs : List (CachedPlan P))
      → All (λ x. (b : Bool) × (validate x ≡ ok b)) xs
      → (o : Option (CachedPlan P)) × (first_valid validate xs ≡ ok o)
  unfolding first_valid
  first_valid_returns validate [] h = (none, refl)
  first_valid_returns validate (x ∷ xs) (h, t) = verdict h (first_valid_returns validate xs t)
    where
      verdict :
          (b : Bool) × (validate x ≡ ok b)
          → (o : Option (CachedPlan P)) × (first_valid validate xs ≡ ok o)
          → (o : Option (CachedPlan P)) × (first_valid validate (x ∷ xs) ≡ ok o)
      verdict (true, e) rest = (some x, rw (e, first_valid))
      verdict (false, e) (o, p) = (o, rw (e, first_valid) p)

  All-imp :
      (R S : CachedPlan P → Type 0) (xs : List (CachedPlan P))
      → ((x : CachedPlan P) → R x → S x)
      → All R xs
      → All S xs
  All-imp R S [] f h = tt
  All-imp R S (x ∷ xs) f (h, t) = (f x h, All-imp R S xs f t)

  finish_returns :
      (k : K) (o : Option (CachedPlan P)) (c : PlanCache K P) → (finish dec k (ok o) c).0 ≡ ok o
  finish_returns k none c = refl
  finish_returns k (some x) c = refl

  resume_returns :
      (k : K) (validate : CachedPlan P → Result Bool) (b : Option (List (CachedPlan P)))
      (c : PlanCache K P)
      → ((xs : List (CachedPlan P)) → b ≡ some xs → All (Q k) xs)
      → ((x : CachedPlan P) → Q k x → (d : Bool) × (validate x ≡ ok d))
      → (o : Option (CachedPlan P)) × ((resume dec k (some validate) b c).0 ≡ ok o)
  resume_returns k validate none c q v = (none, refl)
  resume_returns k validate (some xs) c q v =
      let (o, e) = first_valid_returns validate xs (All-imp (Q k) _ xs v (q xs refl)) in
      (o, rw e (finish_returns k o c))

  pub get_returns :
      (k : K) (validate : CachedPlan P → Result Bool) (c : PlanCache K P)
      → IsValid dec Q c
      → ((x : CachedPlan P) → Q k x → (d : Bool) × (validate x ≡ ok d))
      → (o : Option (CachedPlan P)) × ((get dec k (some validate) c).0 ≡ ok o)
  unfolding get
  get_returns k validate c v h =
      resume_returns k validate _ _ (λ xs e. snapshot-All dec Q k c xs v e) h
