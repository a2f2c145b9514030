-- ===== src/Cache/Defs.antt =====
-- The bounded LRU of plan variants: `PlanCache` of src/grafast_py/cache.py. The entries stand in
-- the order of the `OrderedDict`, least recently used first. A method returns the cache after it.
-- `get` is its three locked blocks with the validation between them; Cache/Interleaving takes them
-- apart. Keys are any type with a decidable equality, plans any type.
use grafast_py.Prelude.{
  ℕ, ◌+◌, Bool, true, false, Option, none, some, List, [], ◌∷◌, ◌&&◌, length, take, ltb, ◌==◌,
  str_eq, if◌then◌else◌,
}
use grafast_py.Prelude.Assoc.{lookup, set_item, move_to_end}
use grafast_py.Values.{Value, bool}
use grafast_py.Values.Equality.{py_eq, bool_eq}
use grafast_py.Constraints.Defs.{
  Constraint, value, equality, exists, keys_of, Result, ok, err, value_error, texts_equal,
}

abbrev pub max_variants_per_key : ℕ
max_variants_per_key = 8

-- Python's `==` on an observed value: the sentinel equals itself alone.
abbrev pub observed_eq : Option Value → Option Value → Bool
observed_eq none none = true
observed_eq (some a) (some b) = py_eq a b
observed_eq _ _ = false

-- Python's `==` on constraints. A `NamedTuple` is a tuple, so constraints of two classes with as
-- many fields are equal where their fields are, and `True == 1` among the fields.
unfoldable pub constraint_eq : Constraint → Constraint → Bool
constraint_eq (value s p v) (value s' p' v') = str_eq s s' && (texts_equal p p' && observed_eq v v')
constraint_eq (value s p v) (exists s' p' b) =
    str_eq s s' && (texts_equal p p' && observed_eq v (some (bool b)))
constraint_eq (exists s p b) (value s' p' v) =
    str_eq s s' && (texts_equal p p' && observed_eq (some (bool b)) v)
constraint_eq (exists s p b) (exists s' p' b') = str_eq s s' && (texts_equal p p' && bool_eq b b')
constraint_eq (equality s p e b) (equality s' p' e' b') =
    str_eq s s' && (texts_equal p p' && (py_eq e e' && bool_eq b b'))
constraint_eq (keys_of s p ks) (keys_of s' p' ks') =
    str_eq s s' && (texts_equal p p' && texts_equal ks ks')
constraint_eq _ _ = false

unfoldable pub constraints_eq : List Constraint → List Constraint → Bool
unfolding constraint_eq
constraints_eq [] [] = true
constraints_eq (c ∷ cs) (d ∷ ds) = constraint_eq c d && constraints_eq cs ds
constraints_eq _ _ = false

abbrev pub one_if : Bool → ℕ
one_if true = 1
one_if false = 0

-- `triple` is the object plan, the root step and the plan; `identity` and `schema` are what `is`
-- compares.
pub record CachedPlan (P : Type 0) : Type 0 where
  pub identity : ℕ
  pub triple : P
  pub schema : ℕ
  pub constraints : List Constraint

pub record PlanCache (K P : Type 0) : Type 0 where
  pub max_entries : ℕ
  pub entries : List (K × List (CachedPlan P))
  pub hits : ℕ
  pub misses : ℕ
  pub evictions : ℕ

unfoldable pub init : {K P : Type 0} → ℕ → Result (PlanCache K P)
init max_entries =
    if ltb max_entries 1
    then err value_error
    else ok
        (record { max_entries = max_entries; entries = []; hits = 0; misses = 0; evictions = 0 })

module _ {P : Type 0} where
  -- `current is candidate`: the list without it, if it is there
  unfoldable pub pull : CachedPlan P → List (CachedPlan P) → Option (List (CachedPlan P))
  pull c [] = none
  pull c (x ∷ xs) =
      let deeper = pull c xs in
      if x.identity == c.identity
      then some xs
      else (elim deeper [ none ↦ none | some r ↦ some (x ∷ r) ])

  -- the candidate moved to the front of its bucket
  unfoldable pub hoist : CachedPlan P → List (CachedPlan P) → List (CachedPlan P)
  unfolding pull
  hoist c [] = []
  hoist c (x ∷ xs) =
      if x.identity == c.identity
      then x ∷ xs
      else (elim (pull c xs) [ none ↦ x ∷ xs | some r ↦ c ∷ x ∷ r ])

  abbrev pub is_same_variant : CachedPlan P → CachedPlan P → Bool
  is_same_variant new old =
      (old.schema == new.schema) && constraints_eq old.constraints new.constraints

  -- the first candidate with the schema and the constraints of the new one is dropped
  unfoldable pub drop_variant : CachedPlan P → List (CachedPlan P) → List (CachedPlan P)
  drop_variant new [] = []
  drop_variant new (x ∷ xs) =
      let deeper = drop_variant new xs in if is_same_variant new x then xs else x ∷ deeper

  abbrev pub accepts : Option (CachedPlan P → Result Bool) → CachedPlan P → Result Bool
  accepts none c = ok true
  accepts (some validate) c = validate c

  -- the loop over the snapshot: the first candidate that validates; a validation may raise
  unfoldable pub first_valid :
      (CachedPlan P → Result Bool) → List (CachedPlan P) → Result (Option (CachedPlan P))
  first_valid validate [] = ok none
  first_valid validate (c ∷ cs) =
      let rest = first_valid validate cs in
      elim (validate c) [ err e ↦ err e | ok true ↦ ok (some c) | ok false ↦ rest ]

module _ {K P : Type 0} where
  -- `while len(self._entries) > self.max_entries: popitem(last=False)`, with the evictions made
  unfoldable pub evict : ℕ → List (K × List (CachedPlan P)) → List (K × List (CachedPlan P)) × ℕ
  evict cap [] = ([], 0)
  evict cap (e ∷ l) =
      let (rest, n) = evict cap l in if ltb cap (length (e ∷ l)) then (rest, n + 1) else (e ∷ l, 0)

  unfoldable pub count_miss : PlanCache K P → PlanCache K P
  count_miss c = record c { misses = c.misses + 1 }

module _ {K P : Type 0} (dec : Discrete K) where
  abbrev pub bucket_of : K → PlanCache K P → Option (List (CachedPlan P))
  bucket_of key c = lookup dec key c.entries

  -- the first locked block of `get`
  unfoldable pub snapshot : K → PlanCache K P → Option (List (CachedPlan P)) × PlanCache K P
  unfolding count_miss
  snapshot key c = elim (bucket_of key c) [
    | none ↦ (none, count_miss c)
    | some bucket ↦ (some bucket, record c { entries = move_to_end dec key c.entries })
  ]

  -- the locked block of a candidate that validated; the bucket may be gone, and the candidate too
  unfoldable pub count_hit : K → CachedPlan P → PlanCache K P → PlanCache K P
  count_hit key candidate c = elim (bucket_of key c) [
    | none ↦ record c { hits = c.hits + 1 }
    | some bucket ↦ record c {
      entries = set_item dec key (hoist candidate bucket) c.entries;
      hits = c.hits + 1;
    }
  ]

  abbrev pub finish :
      K
      → Result (Option (CachedPlan P))
      → PlanCache K P
      → Result (Option (CachedPlan P)) × PlanCache K P
  finish key (err e) c = (err e, c)
  finish key (ok none) c = (ok none, count_miss c)
  finish key (ok (some candidate)) c = (ok (some candidate), count_hit key candidate c)

  abbrev pub resume :
      K
      → Option (CachedPlan P → Result Bool)
      → Option (List (CachedPlan P))
      → PlanCache K P
      → Result (Option (CachedPlan P)) × PlanCache K P
  resume key validate none c = (ok none, c)
  resume key validate (some candidates) c = finish key (first_valid (accepts validate) candidates) c

  unfoldable pub get :
      K
      → Option (CachedPlan P → Result Bool)
      → PlanCache K P
      → Result (Option (CachedPlan P)) × PlanCache K P
  get key validate c = let (candidates, c') = snapshot key c in resume key validate candidates c'

  abbrev pub or_empty : Option (List (CachedPlan P)) → List (CachedPlan P)
  or_empty none = []
  or_empty (some bucket) = bucket

  -- the bucket with the new variant in front, before the cap is enforced
  unfoldable pub fresh_bucket : K → CachedPlan P → PlanCache K P → List (CachedPlan P)
  fresh_bucket key v c = v ∷ drop_variant v (or_empty (bucket_of key c))

  -- `len(bucket) > MAX_VARIANTS_PER_KEY`
  abbrev pub is_over : K → CachedPlan P → PlanCache K P → Bool
  is_over key v c = ltb max_variants_per_key (length (fresh_bucket key v c))

  -- the bucket as it is stored
  unfoldable pub kept_bucket : K → CachedPlan P → PlanCache K P → List (CachedPlan P)
  kept_bucket key v c =
      if is_over key v c
      then take max_variants_per_key (fresh_bucket key v c)
      else fresh_bucket key v c

  -- the entries before the evictions
  abbrev pub stored : K → CachedPlan P → PlanCache K P → List (K × List (CachedPlan P))
  stored key v c = move_to_end dec key (set_item dec key (kept_bucket key v c) c.entries)

  -- the cache after `put`, and whether the tail of the bucket was dropped (which is logged)
  unfoldable pub put : K → CachedPlan P → PlanCache K P → PlanCache K P × Bool
  put key v c =
      let (entries', popped) = evict c.max_entries (stored key v c) in
      (
        record c {
          entries = entries';
          evictions = c.evictions + one_if (is_over key v c) + popped;
        },
        is_over key v c,
      )

unfoldable pub clear : {K P : Type 0} → PlanCache K P → PlanCache K P
clear c = record c { entries = [] }
