-- ===== src/Incremental/Filter.antt =====
-- The filter of the records whose enclosing object was nulled (src/grafast_py/incremental.py):
-- `filter_nulled_records`, `filter_group_children`, `_record_path` and `_path_nulled`. That the
-- iterator of a dropped stream is closed is left out.
use grafast_py.Prelude.{
  ℕ, String, zero, suc, ◌<◌, Bool, true, false, not, Option, none, some, List, [], ◌∷◌, drop, take,
  keep, length, ltb, str_eq, ◌≡◌, ◌↔◌, refl, ap, sym, ◌∙◌, arith, Bool-cases, Option-cases, inl,
  inr, if◌then◌else◌,
}
use grafast_py.Completion.Defs.{
  FieldPath, Key, name, index, Json, null, leaf, array, dict, Items, nil, cons, Dict, empty, entry,
}
use grafast_py.Incremental.Defs.{Revealed, exec_group, stream_rec, Records}

unfoldable pub get_item : {J : Type 0} → ℕ → Items J → Option (Json J)
get_item i nil = none
get_item zero (cons x xs) = some x
get_item (suc i) (cons x xs) = get_item i xs

unfoldable pub get_entry : {J : Type 0} → String → Dict J → Option (Json J)
get_entry k empty = none
get_entry k (entry j x d) = if str_eq j k then some x else get_entry k d

-- `node[key]`, none if it raises
unfoldable pub json_child : {J : Type 0} → Json J → Key → Option (Json J)
unfolding get_item get_entry
json_child (array xs) (index i) = get_item i xs
json_child (dict d) (name k) = get_entry k d
json_child _ _ = none

abbrev pub is_null : {J : Type 0} → Json J → Bool
is_null null = true
is_null _ = false

-- `_path_nulled`: the loop over `path[:-1]` and the test after it
unfoldable pub path_nulled : {J : Type 0} → Json J → FieldPath → Bool
path_nulled node [] = false
path_nulled node (key ∷ []) = is_null node
path_nulled node (key ∷ k ∷ path) =
    if is_null node
    then true
    else elim (json_child node key) [ none ↦ false | some child ↦ path_nulled child (k ∷ path) ]

-- The deepest path so far, the first of its length.
unfoldable pub deepest_path : FieldPath → List FieldPath → FieldPath
deepest_path deepest [] = deepest
deepest_path deepest (p ∷ paths) =
    deepest_path (if ltb (length deepest) (length p) then p else deepest) paths

abbrev pub paths_of : Records → List ℕ → List FieldPath
paths_of w [] = []
paths_of w (r ∷ rs) = w.node_path r ∷ paths_of w rs

unfoldable pub record_path : Records → Revealed → FieldPath
record_path w (stream_rec s) = w.node_path s
record_path w (exec_group g) = deepest_path [] (paths_of w (w.defer_records g))

unfoldable pub filter_nulled_records : Records → Json ℕ → List Revealed → List Revealed
filter_nulled_records w data_root =
    keep (λ (r : Revealed). not (path_nulled data_root (record_path w r)))

unfoldable pub filter_group_children : Records → ℕ → List Revealed → List Revealed
filter_group_children w result = keep (λ (r : Revealed).
    not
      (path_nulled (w.result_data result) (drop (length (w.result_path result)) (record_path w r))))

-- The value at a path of the data.
pub data_at : {J : Type 0} → Json J → FieldPath → Option (Json J)
data_at node [] = some node
data_at node (key ∷ path) = elim (json_child node key) [
  | none ↦ none
  | some child ↦ data_at child path
]

-- The value at a strict ancestor of the path is null.
abbrev pub HasNullAncestor : {J : Type 0} → Json J → FieldPath → Type 0
HasNullAncestor node path = (n : ℕ) × (n < length path) × (data_at node (take n path) ≡ some null)

is_null-true : {J : Type 0} (node : Json J) → is_null node ≡ true → node ≡ null
is_null-true null h = refl
is_null-true (leaf x) h = cc
is_null-true (array x) h = cc
is_null-true (dict x) h = cc

data_at-cons :
    {J : Type 0} (node child : Json J) (key : Key) (path : FieldPath)
    → json_child node key ≡ some child
    → data_at node (key ∷ path) ≡ data_at child path
unfolding data_at
data_at-cons node child key path h = rw (h, data_at)

path_nulled-found :
    {J : Type 0} (node : Json J) (path : FieldPath)
    → path_nulled node path ≡ true
    → HasNullAncestor node path
unfolding path_nulled data_at
path_nulled-found node [] h = cc
path_nulled-found node (key ∷ []) h = (0, omega arith, ap some (is_null-true node h))
path_nulled-found node (key ∷ k ∷ path) h = elim (Bool-cases (is_null node)) [
  | inl here ↦ (0, omega arith, ap some (is_null-true node here))
  | inr there ↦ elim (Option-cases (json_child node key)) [
    | inl missing ↦ absurd (ground arith)
    | inr (child, found) ↦
        let (n, le, e) = path_nulled-found child (k ∷ path) (ground arith) in
        (suc n, omega arith, data_at-cons node child key (take n (k ∷ path)) found ∙ e)
  ]
]

null-path_nulled :
    {J : Type 0} (node : Json J) (path : FieldPath) (n : ℕ)
    → n < length path
    → data_at node (take n path) ≡ some null
    → path_nulled node path ≡ true
unfolding path_nulled data_at
null-path_nulled node [] n h e = absurd (omega arith)
null-path_nulled node (key ∷ []) zero h e = let same : node ≡ null = cc in rw same refl
null-path_nulled node (key ∷ []) (suc n) h e = absurd (omega arith)
null-path_nulled node (key ∷ k ∷ path) zero h e = let same : node ≡ null = cc in rw same refl
null-path_nulled node (key ∷ k ∷ path) (suc n) h e = elim (Bool-cases (is_null node)) [
  | inl here ↦ rw here
  | inr there ↦ elim (Option-cases (json_child node key)) [
    | inl missing ↦ absurd (ground arith)
    | inr (child, found) ↦ rw there (
        rw found (
          null-path_nulled child (k ∷ path) n (omega arith)
            (sym (data_at-cons node child key (take n (k ∷ path)) found) ∙ e)))
  ]
]

-- A record is taken for nulled exactly when the value at some strict ancestor of its path is null
-- in the delivered data; a path that leads out of the data is not.
pub path_nulled_iff :
    {J : Type 0} (node : Json J) (path : FieldPath)
    → (path_nulled node path ≡ true) ↔ HasNullAncestor node path
path_nulled_iff node path =
    (path_nulled-found node path, λ (n, le, e). null-path_nulled node path n le e)
