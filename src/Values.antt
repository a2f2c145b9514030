-- ===== src/Values.antt =====
-- The values of the host language as the request inputs hold them: GraphQL-coerced variables and
-- the host's context object (src/grafast_py/constraints.py reads both). A mapping is a list of
-- fields in insertion order; any other object is its identity and its attributes. The methods of
-- built-in values are not among the attributes, floats and tuples are left out.
pub mod Equality
use grafast_py.Prelude.{
  ℕ, String, Bool, true, false, Option, none, some, List, [], ◌∷◌, str_eq, if◌then◌else◌,
}

-- `negsuc n` is -(n + 1).
pub data ℤ : Type 0 where
  pos : ℕ → ℤ
  negsuc : ℕ → ℤ

mutual
  pub data Value : Type 0 where
    null : Value
    bool : Bool → Value
    int : ℤ → Value
    str : String → Value
    list : Items → Value
    mapping : Fields → Value
    object : ℕ → Fields → Value

  pub data Items : Type 0 where
    nil : Items
    cons : Value → Items → Items

  pub data Fields : Type 0 where
    end : Fields
    field : String → Value → Fields → Fields

-- `d.get(k)`
unfoldable pub get : String → Fields → Option Value
get k end = none
get k (field j v fs) = if str_eq j k then some v else get k fs

-- The keys in insertion order: `iter(d)`.
unfoldable pub keys : Fields → List String
keys end = []
keys (field k v fs) = k ∷ keys fs
