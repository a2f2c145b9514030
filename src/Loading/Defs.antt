-- ===== src/Loading/Defs.antt =====
-- The `execute` methods of src/grafast_py/core_steps.py. A column's entry is None, an exception or
-- another object. What the host's callables do is a `Called`; a list that an entry holds is a list.
use grafast_py.Prelude.{
  ℕ, zero, suc, String, Bool, true, false, Option, none, some, List, [], ◌∷◌, ◌++◌, get_elem?,
  replicate,
}
use grafast_py.Steps.Defs.{Output, ready, throws, index_error}

pub data ColumnEntry (V E : Type 0) : Type 0 where
  null : ColumnEntry V E
  poisoned : E → ColumnEntry V E
  held : V → ColumnEntry V E

-- A call that returns or raises.
pub data Called (A E : Type 0) : Type 0 where
  returned : A → Called A E
  raised : E → Called A E

abbrev pub carry : {V E : Type 0} → Called (ColumnEntry V E) E → ColumnEntry V E
carry (returned x) = x
carry (raised e) = poisoned e

abbrev pub and_then : {A B : Type 0} → Option A → (A → Option B) → Option B
and_then none f = none
and_then (some x) f = f x

abbrev pub cons_both : {A : Type 0} → Option A → Option (List A) → Option (List A)
cons_both (some x) (some xs) = some (x ∷ xs)
cons_both _ _ = none

-- `[g(i) for i in range(count)]`, where `none` is an IndexError.
abbrev pub each_index : {A : Type 0} → ℕ → (ℕ → Option A) → Option (List A)
each_index zero g = some []
each_index (suc n) g = cons_both (g 0) (each_index n (λ i. g (suc i)))

-- The first entries of a column.
abbrev pub first_entries : {A : Type 0} → ℕ → List A → Option (List A)
first_entries count col = each_index count (get_elem? col)

abbrev pub or_index_error : {A : Type 0} → Option (List A) → Output A
or_index_error none = throws index_error
or_index_error (some xs) = ready xs

abbrev pub per_entry : {A B : Type 0} → ℕ → List (List A) → (A → B) → Output B
per_entry count [] f = throws index_error
per_entry count (col ∷ values) f =
    or_index_error (each_index count (λ i. and_then (get_elem? col i) (λ x. some (f x))))

abbrev pub constant_execute : {A : Type 0} → A → ℕ → List (List A) → Output A
constant_execute data_ count values = ready (replicate count data_)

-- Python's lookups on an object: as a dict (`none` for another object), by subscript, by attribute.
pub record Access (V E S : Type 0) : Type 0 where
  pub members : ColumnEntry V E → Option (S → Option (ColumnEntry V E))
  pub subscript : ColumnEntry V E → S → Option (ColumnEntry V E)
  pub attribute : ColumnEntry V E → S → Option (ColumnEntry V E)

module _ {V E S : Type 0} (access : Access V E S) where
  abbrev pub or_attribute :
      ColumnEntry V E → S → Option (ColumnEntry V E) → Option (ColumnEntry V E)
  or_attribute current segment none = access.attribute current segment
  or_attribute current segment (some x) = some x

  abbrev pub lookup_in :
      ColumnEntry V E → S → Option (S → Option (ColumnEntry V E)) → Option (ColumnEntry V E)
  lookup_in current segment (some member) = member segment
  lookup_in current segment none = or_attribute current segment (access.subscript current segment)

  -- One segment of the path; `none` gives the fallback.
  abbrev pub next_segment : ColumnEntry V E → S → Option (ColumnEntry V E)
  next_segment null segment = none
  next_segment (poisoned e) segment = lookup_in (poisoned e) segment (access.members (poisoned e))
  next_segment (held v) segment = lookup_in (held v) segment (access.members (held v))

  abbrev pub or_fallback :
      ColumnEntry V E
      → Option (ColumnEntry V E)
      → (ColumnEntry V E → ColumnEntry V E)
      → ColumnEntry V E
  or_fallback fallback none rest = fallback
  or_fallback fallback (some x) rest = rest x

  unfoldable pub get_in : List S → ColumnEntry V E → ColumnEntry V E → ColumnEntry V E
  get_in [] fallback current = current
  get_in (segment ∷ path) fallback current =
      or_fallback fallback (next_segment current segment) (get_in path fallback)

  abbrev pub access_entry : List S → ColumnEntry V E → ColumnEntry V E → ColumnEntry V E
  access_entry path fallback (poisoned e) = poisoned e
  access_entry path fallback null = get_in path fallback null
  access_entry path fallback (held v) = get_in path fallback (held v)

  abbrev pub access_execute :
      List S → ColumnEntry V E → ℕ → List (List (ColumnEntry V E)) → Output (ColumnEntry V E)
  access_execute path fallback count values = per_entry count values (access_entry path fallback)

module _ {V E : Type 0} where
  -- `LambdaStep._apply`
  abbrev pub apply :
      {W : Type 0}
      → (ColumnEntry V E → Called (ColumnEntry W E) E)
      → ColumnEntry V E
      → ColumnEntry W E
  apply fn (poisoned e) = poisoned e
  apply fn null = carry (fn null)
  apply fn (held v) = carry (fn (held v))

  abbrev pub lambda_execute :
      (ColumnEntry V E → Called (ColumnEntry V E) E)
      → ℕ
      → List (List (ColumnEntry V E))
      → Output (ColumnEntry V E)
  lambda_execute fn count values = per_entry count values (apply fn)

-- `[values[d][i] for d in range(n)]`
unfoldable pub row : {A : Type 0} → ℕ → List (List A) → Option (List A)
row i [] = some []
row i (col ∷ values) = cons_both (get_elem? col i) (row i values)

abbrev pub list_execute : {A : Type 0} → ℕ → List (List A) → Output (List A)
list_execute count values = or_index_error (each_index count (λ i. row i values))

-- `{key: values[d][i] for d, key in enumerate(keys)}`, in the keys' order.
unfoldable pub keyed_row :
    {A : Type 0} → ℕ → List String → List (List A) → Option (List (String × A))
keyed_row i [] values = some []
keyed_row i (key ∷ keys) [] = none
keyed_row i (key ∷ keys) (col ∷ values) =
    cons_both (and_then (get_elem? col i) (λ x. some (key, x))) (keyed_row i keys values)

abbrev pub object_execute :
    {A : Type 0} → List String → ℕ → List (List A) → Output (List (String × A))
object_execute keys count values = or_index_error (each_index count (λ i. keyed_row i keys values))

abbrev pub keep_if : {A : Type 0} → A → Bool → List A → List A
keep_if x true rest = x ∷ rest
keep_if x false rest = rest

-- `list(reversed(entry))`
unfoldable pub reversed : {A : Type 0} → List A → List A
reversed [] = []
reversed (x ∷ xs) = reversed xs ++ x ∷ []

module _ {A E : Type 0} where
  abbrev pub kept_item : A → Called Bool E → Called (List A) E → Called (List A) E
  kept_item x (raised e) rest = raised e
  kept_item x (returned b) (raised e) = raised e
  kept_item x (returned b) (returned rest) = returned (keep_if x b rest)

  -- `[item for item in entry if predicate(item)]`
  unfoldable pub filter_items : (A → Called Bool E) → List A → Called (List A) E
  filter_items predicate [] = returned []
  filter_items predicate (x ∷ xs) = kept_item x (predicate x) (filter_items predicate xs)

  abbrev pub hold : Called (List A) E → ColumnEntry (List A) E
  hold (returned xs) = held xs
  hold (raised e) = poisoned e

  abbrev pub filter_entry : (A → Called Bool E) → ColumnEntry (List A) E → ColumnEntry (List A) E
  filter_entry predicate null = null
  filter_entry predicate (poisoned e) = poisoned e
  filter_entry predicate (held xs) = hold (filter_items predicate xs)

  abbrev pub filter_execute :
      (A → Called Bool E)
      → ℕ
      → List (List (ColumnEntry (List A) E))
      → Output (ColumnEntry (List A) E)
  filter_execute predicate count values = per_entry count values (filter_entry predicate)

  abbrev pub reverse_entry : ColumnEntry (List A) E → ColumnEntry (List A) E
  reverse_entry null = null
  reverse_entry (poisoned e) = poisoned e
  reverse_entry (held xs) = held (reversed xs)

  abbrev pub reverse_execute :
      ℕ → List (List (ColumnEntry (List A) E)) → Output (ColumnEntry (List A) E)
  reverse_execute count values = per_entry count values reverse_entry

module _ {V E : Type 0} where
  abbrev pub first_entry : ColumnEntry (List (ColumnEntry V E)) E → ColumnEntry V E
  first_entry null = null
  first_entry (poisoned e) = poisoned e
  first_entry (held []) = null
  first_entry (held (x ∷ xs)) = x

  abbrev pub first_execute :
      ℕ → List (List (ColumnEntry (List (ColumnEntry V E)) E)) → Output (ColumnEntry V E)
  first_execute count values = per_entry count values first_entry

  abbrev pub last_of : ColumnEntry V E → List (ColumnEntry V E) → ColumnEntry V E
  last_of x [] = x
  last_of x (y ∷ ys) = last_of y ys

  abbrev pub last_entry : ColumnEntry (List (ColumnEntry V E)) E → ColumnEntry V E
  last_entry null = null
  last_entry (poisoned e) = poisoned e
  last_entry (held xs) = last_of null xs

  abbrev pub last_execute :
      ℕ → List (List (ColumnEntry (List (ColumnEntry V E)) E)) → Output (ColumnEntry V E)
  last_execute count values = per_entry count values last_entry
