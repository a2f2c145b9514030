-- ===== src/Incremental/Defs.antt =====
-- The records of incremental delivery and the state of `IncGraph` (src/grafast_py/incremental.py). An
-- object is its number: deferred fragments and streams share one numbering, groups and results have
-- one each. A dict that is used as an ordered set is a list of its keys. The completed values and
-- the errors are opaque, and the futures that wake the consumer are left out.
use grafast_py.Prelude.{
  ℕ, String, Bool, not, Option, none, some, List, [], ◌∷◌, ◌++◌, keep, has, ◌==◌, if◌then◌else◌,
}
use grafast_py.Completion.Defs.{FieldPath, Json}

-- An incremental record that a walk reveals.
pub data Revealed : Type 0 where
  exec_group : ℕ → Revealed
  stream_rec : ℕ → Revealed

-- `StreamItemResult`, `item` none for `Undefined`
pub record StreamItemResult : Type 0 where
  pub item : Option ℕ
  pub errors : List ℕ
  pub children : List Revealed

-- An entry of a producer's queue: its result, and whether it is still pending when it is reached.
abbrev pub Arrival : Type 0
Arrival = Bool × StreamItemResult

pub record StreamBatch : Type 0 where
  pub items : List ℕ
  pub errors : List ℕ
  pub children : List Revealed
  pub done : Bool

-- The variables `items`, `errors` and `children` of `_on_stream_items`.
pub record Buffer : Type 0 where
  pub items : List ℕ
  pub errors : List ℕ
  pub children : List Revealed

abbrev pub empty_buffer : Buffer
empty_buffer = record { items = []; errors = []; children = [] }

-- What never changes in the objects. `node_count` bounds the number of fragments and streams. `enclosing` is the chain of parents, innermost first; `run` is
-- the result of running a group, and `is_awaitable` tells whether a run of groups is awaited.
pub record Records : Type 0 where
  pub node_count : ℕ
  pub is_defer : ℕ → Bool
  pub enclosing : ℕ → List ℕ
  pub node_path : ℕ → FieldPath
  pub label : ℕ → Option String
  pub producer : ℕ → List Arrival
  pub defer_records : ℕ → List ℕ
  pub eager_result : ℕ → Option ℕ
  pub spec_key : ℕ → ℕ
  pub run : ℕ → ℕ
  pub is_awaitable : List ℕ → Bool
  pub result_group : ℕ → ℕ
  pub result_path : ℕ → FieldPath
  pub result_data : ℕ → Json ℕ
  pub failed : ℕ → Bool
  pub result_children : ℕ → List Revealed

pub data CompletedRecord : Type 0 where
  group_result : ℕ → CompletedRecord
  stream_batch : ℕ → StreamBatch → CompletedRecord

-- A task: a run whose results it has still to enqueue, or a pump of a stream with its variables and the
-- result that it has popped and awaits.
pub data Task : Type 0 where
  await_and_enqueue : List ℕ → Task
  on_stream : ℕ → Buffer → Option StreamItemResult → Task

-- `node_children`, `pending_groups` and `successful_groups` are the dicts of each fragment. `popped` counts
-- the entries that the pumps of a stream have popped from `stream.producer.queue`, which they share.
-- `restarted` has the streams that were promoted again when their queue had been read; no operation
-- looks at it.
pub record IncGraph : Type 0 where
  pub root_nodes : List ℕ
  pub completed_queue : List CompletedRecord
  pub pending_runs : List ℕ
  pub tasks : List Task
  pub node_children : ℕ → List ℕ
  pub pending_groups : ℕ → List ℕ
  pub successful_groups : ℕ → List ℕ
  pub popped : ℕ → ℕ
  pub restarted : List ℕ

abbrev pub new_graph : IncGraph
new_graph = record {
  root_nodes = [];
  completed_queue = [];
  pending_runs = [];
  tasks = [];
  node_children = λ _. [];
  pending_groups = λ _. [];
  successful_groups = λ _. [];
  popped = λ _. 0;
  restarted = [];
}

-- `d[k] = None`
unfoldable pub put_key : ℕ → List ℕ → List ℕ
put_key k xs = if has xs k then xs else xs ++ k ∷ []

-- `del d[k]`, `d.pop(k, None)`
unfoldable pub del_key : ℕ → List ℕ → List ℕ
del_key k = keep (λ x. not (x == k))

-- The dicts `d` of the fragments with `f` applied to that of `k`.
unfoldable pub update_at : ℕ → (List ℕ → List ℕ) → (ℕ → List ℕ) → ℕ → List ℕ
update_at k f d x = if k == x then f (d x) else d x

infixl 5 ◌>>=◌
abbrev pub ◌>>=◌ {ℓ κ} : {A : Type ℓ} {B : Type κ} → Option A → (A → Option B) → Option B
none >>= f = none
some a >>= f = f a

-- A loop whose body may raise: `none`.
unfoldable pub for_each {ℓ κ} :
    {A : Type ℓ} {S : Type κ} → (A → S → Option S) → List A → S → Option S
for_each f [] s = some s
for_each f (x ∷ xs) s = f x s >>= for_each f xs

-- A loop that cannot raise.
unfoldable pub for_all {ℓ κ} : {A : Type ℓ} {S : Type κ} → (A → S → S) → List A → S → S
for_all f [] s = s
for_all f (x ∷ xs) s = for_all f xs (f x s)
