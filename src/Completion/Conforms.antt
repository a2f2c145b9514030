-- ===== src/Completion/Conforms.antt =====
-- What a completer promises of a completed value (src/grafast_py/completion.py): no null where the
-- type is non-null, the shape of lists, and every field of an object under its response name.
use grafast_py.Prelude.{String, false, Option, none, some, str_eq, if◌then◌else◌, ◌≡◌}
use grafast_py.Completion.Defs.{
  Completed, Completer, Dict, FieldPlans, Items, Json, array, bubble, cons, dict, done, empty,
  entry, field, leaf, list, nil, no_fields, non_null, null, object,
}

module _ {J : Type 0} where
  abbrev pub IsPresent : Json J → Type 0
  IsPresent null = ⊥
  IsPresent _ = Unit

  abbrev pub IsLeaf : Json J → Type 0
  IsLeaf null = Unit
  IsLeaf (leaf x) = Unit
  IsLeaf _ = ⊥

  abbrev pub AllItems : (Json J → Type 0) → Items J → Type 0
  AllItems P nil = Unit
  AllItems P (cons j js) = P j × AllItems P js

  abbrev pub IsListOf : (Json J → Type 0) → Json J → Type 0
  IsListOf P null = Unit
  IsListOf P (array js) = AllItems P js
  IsListOf P _ = ⊥

  abbrev pub IsDictWith : (Dict J → Type 0) → Json J → Type 0
  IsDictWith P null = Unit
  IsDictWith P (dict d) = P d
  IsDictWith P _ = ⊥

  abbrev pub lookup : String → Dict J → Option (Json J)
  lookup k empty = none
  lookup k (entry j v d) = let rest = lookup k d in if str_eq j k then some v else rest

  abbrev pub Found : (Json J → Type 0) → Option (Json J) → Type 0
  Found P none = ⊥
  Found P (some j) = P j

module _ {T O L J : Type 0} where
  unfoldable mutual
    pub Conforms : Completer T O L → Json J → Type 0
    Conforms (leaf t) j = IsLeaf j
    Conforms (non_null c) j = IsPresent j × Conforms c j
    Conforms (list c) j = IsListOf (Conforms c) j
    Conforms (object o l fs) j = IsDictWith (ConformsFields fs) j

    pub ConformsFields : FieldPlans T O L → Dict J → Type 0
    ConformsFields no_fields d = Unit
    ConformsFields (field n step c label rest) d =
        Found (Conforms c) (lookup n d) × ConformsFields rest d

module _ {T O L : Type 0} where
  -- No later field of the same object has this response name.
  abbrev pub IsAbsent : String → FieldPlans T O L → Type 0
  IsAbsent k no_fields = Unit
  IsAbsent k (field n step c label rest) = (str_eq n k ≡ false) × IsAbsent k rest

  -- Response names are distinct in every object below.
  unfoldable mutual
    pub DistinctNames : Completer T O L → Type 0
    DistinctNames (leaf t) = Unit
    DistinctNames (non_null c) = DistinctNames c
    DistinctNames (list c) = DistinctNames c
    DistinctNames (object o l fs) = DistinctFields fs

    pub DistinctFields : FieldPlans T O L → Type 0
    DistinctFields no_fields = Unit
    DistinctFields (field n step c label rest) =
        IsAbsent n rest × (DistinctNames c × DistinctFields rest)

abbrev pub IsSound : {J E : Type 0} → (Json J → Type 0) → Completed J E → Type 0
IsSound P (done j) = P j
IsSound P (bubble b) = Unit
