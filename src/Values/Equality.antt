-- ===== src/Values/Equality.antt =====
-- Python's `==` and `type(a) is type(b)` on values.
use grafast_py.Prelude.{
  subst, inl, inr, Bool-cases, ℕ, suc, String, Bool, true, false, none, some, ◌≡◌, refl, ◌&&◌,
  arith, str_eq, eq_iff, eq_refl, ◌==◌,
}
use grafast_py.Values.{
  ℤ, pos, negsuc, Value, null, bool, int, str, list, mapping, object, Items, nil, cons, Fields, end,
  field, get,
}

abbrev pub int_eq : ℤ → ℤ → Bool
int_eq (pos m) (pos n) = m == n
int_eq (negsuc m) (negsuc n) = m == n
int_eq _ _ = false

abbrev pub bool_eq : Bool → Bool → Bool
bool_eq true b = b
bool_eq false true = false
bool_eq false false = true

-- `True == 1` and `False == 0`.
abbrev pub as_int : Bool → ℤ
as_int true = pos 1
as_int false = pos 0

abbrev pub count_fields : Fields → ℕ
count_fields end = 0
count_fields (field k v fs) = suc (count_fields fs)

-- A dictionary equals another with as many keys that has each of its keys at an equal value,
-- whatever the order; an object equals itself alone, since objects whose class defines `__eq__` are not
-- among the values.
unfoldable mutual
  pub py_eq : Value → Value → Bool
  py_eq null null = true
  py_eq (bool a) (bool b) = bool_eq a b
  py_eq (bool a) (int n) = int_eq (as_int a) n
  py_eq (int n) (bool b) = int_eq n (as_int b)
  py_eq (int m) (int n) = int_eq m n
  py_eq (str s) (str t) = str_eq s t
  py_eq (list xs) (list ys) = eq_items xs ys
  py_eq (mapping fs) (mapping gs) = (count_fields fs == count_fields gs) && eq_fields fs gs
  py_eq (object i fs) (object j gs) = i == j
  py_eq _ _ = false

  pub eq_items : Items → Items → Bool
  eq_items nil nil = true
  eq_items (cons x xs) (cons y ys) = py_eq x y && eq_items xs ys
  eq_items _ _ = false

  pub eq_fields : Fields → Fields → Bool
  eq_fields end gs = true
  eq_fields (field k v fs) gs = elim (get k gs) [
    | none ↦ false
    | some w ↦ py_eq v w && eq_fields fs gs
  ]

-- `type(a) is type(b)`. The classes of host objects are not told apart here; two objects that are
-- equal are one object.
unfoldable pub same_type : Value → Value → Bool
same_type null null = true
same_type (bool a) (bool b) = true
same_type (int m) (int n) = true
same_type (str s) (str t) = true
same_type (list xs) (list ys) = true
same_type (mapping fs) (mapping gs) = true
same_type (object i fs) (object j gs) = true
same_type _ _ = false

-- No key stands twice in a mapping, at any depth.
abbrev mutual
  pub IsDict : Value → Type 0
  IsDict (list xs) = AllDicts xs
  IsDict (mapping fs) = DistinctFields fs
  IsDict (object i fs) = DistinctFields fs
  IsDict _ = Unit

  pub AllDicts : Items → Type 0
  AllDicts nil = Unit
  AllDicts (cons x xs) = IsDict x × AllDicts xs

  pub DistinctFields : Fields → Type 0
  DistinctFields end = Unit
  DistinctFields (field k v fs) = (get k fs ≡ none) × IsDict v × DistinctFields fs

-- Each field of the first mapping is what the second has at its key.
abbrev Holds : Fields → Fields → Type 0
Holds end gs = Unit
Holds (field k v fs) gs = (get k gs ≡ some v) × Holds fs gs

Holds-field :
    (k : String) (v : Value) (fs gs : Fields)
    → get k fs ≡ none
    → DistinctFields fs
    → Holds fs gs
    → Holds fs (field k v gs)
unfolding get
Holds-field k v end gs a d h = tt
Holds-field k v (field j w fs) gs a d h = (
  ground (arith, eq_iff j k, eq_iff k j, h.0),
  Holds-field k v fs gs (ground (arith, eq_iff j k)) d.2 h.1,
)

Holds-self : (fs : Fields) → DistinctFields fs → Holds fs fs
unfolding get
Holds-self end d = tt
Holds-self (field k v fs) d =
    (ground (arith, eq_refl k), Holds-field k v fs fs d.0 d.2 (Holds-self fs d.2))

-- A dictionary, nested ones included, equals itself.
mutual
  unfolding py_eq

  py_eq_refl : (v : Value) → IsDict v → py_eq v v ≡ true
  py_eq_refl null d = refl
  py_eq_refl (bool true) d = refl
  py_eq_refl (bool false) d = refl
  py_eq_refl (int (pos n)) d = ground arith
  py_eq_refl (int (negsuc n)) d = ground arith
  py_eq_refl (str s) d = eq_refl s
  py_eq_refl (list xs) d = eq_items_refl xs d
  py_eq_refl (mapping fs) d = ground (arith, eq_fields_refl fs fs d (Holds-self fs d))
  py_eq_refl (object i fs) d = ground arith

  eq_items_refl : (xs : Items) → AllDicts xs → eq_items xs xs ≡ true
  eq_items_refl nil d = refl
  eq_items_refl (cons x xs) d = ground (arith, py_eq_refl x d.0, eq_items_refl xs d.1)

  eq_fields_refl : (fs gs : Fields) → DistinctFields fs → Holds fs gs → eq_fields fs gs ≡ true
  eq_fields_refl end gs d h = refl
  eq_fields_refl (field k v fs) gs d h =
      ground (arith, h.0, py_eq_refl v d.1, eq_fields_refl fs gs d.2 h.1)

pub py_eq_self : (v : Value) → IsDict v → py_eq v v ≡ true
py_eq_self = py_eq_refl

pub same_type_self : (v : Value) → same_type v v ≡ true
unfolding same_type
same_type_self null = refl
same_type_self _ = refl

-- A value that stands in a dictionary is one whose dictionaries are sound.
pub get-IsDict :
    (k : String) (fs : Fields) (v : Value) → DistinctFields fs → get k fs ≡ some v → IsDict v
unfolding get
get-IsDict k end v d h = absurd (cc)
get-IsDict k (field j w fs) v d h = elim (Bool-cases (str_eq j k)) [
  | inl here ↦ let found : w ≡ v = ground arith in subst IsDict found d.1
  | inr there ↦ get-IsDict k fs v d.2 (ground arith)
]
