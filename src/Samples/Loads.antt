-- ===== src/Samples/Loads.antt =====
-- Concrete columns for the steps of src/grafast_py/core_steps.py.
use grafast_py.Prelude.{
  ℕ, String, true, ◌==◌, str_eq, Option, none, some, List, [], ◌∷◌, map, ◌≡◌, refl, Bool-cases, inl,
  inr, if◌then◌else◌, ap, arith,
}
use grafast_py.Steps.Defs.{Output, ready, done, outcome}
use grafast_py.Loading.Defs.{ColumnEntry, Called, held, null, returned, raised}
use grafast_py.Loading.Load.{Keys, Loaded, coalesce, load_execute, pending, rows, settled}
use grafast_py.Loading.Coalesce.{answer, load_execute-map}
use grafast_py.Loading.Distinct.{IsDistinct, coalesce-IsDistinct}
use grafast_py.Loading.Nodes.{
  GlobalIds, NodeKey, composite, node_execute, route, run_loader, single, decode_global_id,
}
use grafast_py.Loading.Alignment.{node_execute-map, routed_entry}
use grafast_py.Loading.GlobalId.{RoundTrips, decode_global_id-encode_global_id}
use grafast_py.Loading.Each.{each_execute}
use grafast_py.Loading.Regroup.{all_items, each_execute-map, each_list}

abbrev Cell : Type 0
Cell = ColumnEntry ℕ String

abbrev number_keys : Keys ℕ
number_keys = record { is_hashable = λ k. true; same = λ j k. j == k }

abbrev user_of : ℕ → Cell
user_of k = held k

abbrev load_users : List ℕ → Loaded Cell String
load_users ks = pending (returned (map user_of ks))

abbrev same_user : (j k : ℕ) → (j == k) ≡ true → user_of j ≡ user_of k
same_user j k h = let same : j ≡ k = ground arith in ap user_of same

two_calls : (coalesce number_keys [] [] (3 ∷ 5 ∷ 3 ∷ [])).0 ≡ 3 ∷ 5 ∷ []
unfolding coalesce
two_calls = refl

load_execute-map_example :
    outcome (load_execute number_keys load_users 3 ((3 ∷ 5 ∷ 3 ∷ []) ∷ []))
    ≡ done (map user_of (3 ∷ 5 ∷ 3 ∷ []))
load_execute-map_example =
    load_execute-map number_keys load_users (returned user_of) (λ ks. refl) same_user
      (3 ∷ 5 ∷ 3 ∷ [])

coalesce-IsDistinct_example : IsDistinct number_keys (coalesce number_keys [] [] (3 ∷ 5 ∷ 3 ∷ [])).0
coalesce-IsDistinct_example = coalesce-IsDistinct number_keys (3 ∷ 5 ∷ 3 ∷ [])

abbrev double_items : List ℕ → Output ℕ
double_items xs = ready (map (λ x. x) xs)

abbrev lists : List (ColumnEntry (List ℕ) String)
lists = held (1 ∷ 2 ∷ []) ∷ null ∷ held (3 ∷ []) ∷ []

each_execute-map_example :
    outcome (each_execute double_items 3 (lists ∷ [])) ≡ each_list (λ x. x) (all_items lists)
each_execute-map_example = each_execute-map double_items (λ x. x) (λ xs. refl) lists

-- Ids are lists of texts, and entries hold such ids.
abbrev NodeCell : Type 0
NodeCell = ColumnEntry (List String) String

abbrev id_text : NodeCell → Option (List String)
id_text (held g) = some g
id_text _ = none

abbrev plain_ids : GlobalIds (List String) String String (List String) (List String)
plain_ids = record {
  dumps = λ js. js;
  loads_text = λ b. some (some b);
  b64encode = λ b. b;
  b64decode = λ s. some s;
  text_of = id_text;
  of_text = λ t. t;
  as_text = λ j. some j;
  value_error = λ x. "malformed";
  no_parts_error = λ t. "no parts";
  no_loader_error = λ t. "no loader";
}

abbrev plain_ids-RoundTrips : RoundTrips plain_ids
plain_ids-RoundTrips = record {
  loads-dumps = λ x xs. refl;
  decode-encode = λ s. refl;
  as_text-of_text = λ s. refl;
}

decode_global_id-encode_global_id_example :
    decode_global_id plain_ids (held ("User" ∷ "7" ∷ [])) ≡ returned ("User", "7" ∷ [])
decode_global_id-encode_global_id_example =
    decode_global_id-encode_global_id plain_ids plain_ids-RoundTrips "User" ("7" ∷ [])
      ("User" ∷ "7" ∷ []) (held ("User" ∷ "7" ∷ [])) refl refl

abbrev node_of : String → NodeKey String → NodeCell
node_of n (single j) = held (n ∷ j ∷ [])
node_of n (composite js) = held (n ∷ js)

-- Users load, posts fail.
abbrev node_behaviour : String → Called (NodeKey String → NodeCell) String
node_behaviour n =
    if str_eq n "User"
    then returned (node_of n)
    else if str_eq n "Post"
    then raised "posts are down"
    else raised "no loader"

abbrev node_loaders : String → Option (List (NodeKey String) → Loaded NodeCell String)
node_loaders n =
    if str_eq n "User"
    then some (λ ks. rows (map (node_of n) ks))
    else if str_eq n "Post"
    then some (λ ks. pending (raised "posts are down"))
    else none

node_loaders-behave :
    (n : String) (ks : List (NodeKey String))
    → settled (run_loader plain_ids node_loaders n ks) ≡ answer (node_behaviour n) ks
node_loaders-behave n ks = elim (Bool-cases (str_eq n "User")) [
  | inl user ↦ rw user refl
  | inr other ↦ elim (Bool-cases (str_eq n "Post")) [
    | inl post ↦ rw (other, post) refl
    | inr none_of ↦ rw (other, none_of) refl
  ]
]

abbrev node_column : List NodeCell
node_column =
    held ("User" ∷ "7" ∷ [])
    ∷ held ("Post" ∷ "1" ∷ [])
    ∷ held ("Tag" ∷ "2" ∷ [])
    ∷ null
    ∷ held ("User" ∷ "8" ∷ [])
    ∷ []

node_execute-map_example :
    outcome (node_execute plain_ids node_loaders 5 (node_column ∷ []))
    ≡ done (map (λ x. routed_entry node_behaviour (route plain_ids node_loaders x)) node_column)
node_execute-map_example =
    node_execute-map plain_ids node_loaders node_behaviour node_loaders-behave node_column
