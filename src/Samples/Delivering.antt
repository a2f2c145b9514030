-- ===== src/Samples/Delivering.antt =====
-- Concrete responses of src/grafast_py/incremental.py.
use grafast_py.Prelude.{ℕ, true, false, none, some, List, [], ◌∷◌, ◌++◌, All, map, ◌≡◌, ◌↔◌, refl}
use grafast_py.Completion.Defs.{FieldPath, Json, name, null, dict, empty, entry}
use grafast_py.Incremental.Defs.{Arrival, StreamItemResult, StreamBatch}
use grafast_py.Incremental.Filter.{HasNullAncestor, path_nulled, path_nulled_iff, json_child}
use grafast_py.Incremental.Pump.{done_batch, on_stream_items, pump}
use grafast_py.Incremental.Pump.Delivery.{IsItems, arrived, contents, on_stream_items-Delivers}

-- Two items at hand, one that is waited for, and the sentinel.
abbrev item : ℕ → StreamItemResult
item v = record { item = some v; errors = []; children = [] }

abbrev sentinel : StreamItemResult
sentinel = record { item = none; errors = []; children = [] }

abbrev three_items : List Arrival
three_items = (false, item 1) ∷ (false, item 2) ∷ (true, item 3) ∷ []

three_items_sent :
    map (λ (b : StreamBatch). b.items) (on_stream_items (three_items ++ (false, sentinel) ∷ []))
    ≡ (1 ∷ 2 ∷ []) ∷ (3 ∷ []) ∷ [] ∷ []
unfolding on_stream_items pump
three_items_sent = refl

on_stream_items-Delivers_example :
    (sent : List StreamBatch) × (on_stream_items (three_items ++ (false, sentinel) ∷ [])
      ≡ sent ++ done_batch [] ∷ [])
    × All IsItems sent
    × (contents sent ≡ arrived three_items)
on_stream_items-Delivers_example =
    on_stream_items-Delivers three_items false sentinel [] ((1, refl), ((2, refl), ((3, refl), tt)))
      refl

-- {"user": null}, and a stream at user.posts
abbrev nulled_user : Json ℕ
nulled_user = dict (entry "user" null empty)

abbrev posts_path : FieldPath
posts_path = name "user" ∷ name "posts" ∷ []

posts_are_nulled : path_nulled nulled_user posts_path ≡ true
unfolding path_nulled json_child
posts_are_nulled = refl

path_nulled_iff_example :
    (path_nulled nulled_user posts_path ≡ true) ↔ HasNullAncestor nulled_user posts_path
path_nulled_iff_example = path_nulled_iff nulled_user posts_path
