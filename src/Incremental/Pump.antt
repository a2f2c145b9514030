-- ===== src/Incremental/Pump.antt =====
-- The pump of a stream, `_on_stream_items` (src/grafast_py/incremental.py): items that are at hand
-- when they are reached share a batch, and a wait flushes the batch first.
pub mod Delivery
use grafast_py.Prelude.{
  ℕ, Bool, true, false, Option, none, some, List, [], ◌∷◌, ◌++◌, ◌&&◌, All, All-append, subst, ◌≡◌,
  ◌≢◌, ◌⊎◌, inl, inr, refl, ap, sym, ◌∙◌, arith, Bool-cases, if◌then◌else◌,
}
use mathlib.Core.List.{append_assoc, append-nil}
use grafast_py.Incremental.Defs.{
  Arrival, Buffer, Revealed, StreamBatch, StreamItemResult, empty_buffer,
}

abbrev pub is_filled : List ℕ → Bool
is_filled [] = false
is_filled (_ ∷ _) = true

abbrev pub items_batch : Buffer → StreamBatch
items_batch b = record { items = b.items; errors = b.errors; children = b.children; done = false }

abbrev pub done_batch : List ℕ → StreamBatch
done_batch errors = record { items = []; errors = errors; children = []; done = true }

-- `if items: enqueue(...)`
unfoldable pub flushed : Buffer → List StreamBatch
flushed b = if is_filled b.items then items_batch b ∷ [] else []

abbrev pub add_item : ℕ → StreamItemResult → Buffer → Buffer
add_item item r b = record {
  items = b.items ++ item ∷ [];
  errors = b.errors ++ r.errors;
  children = b.children ++ r.children;
}

-- The buffer and the batches after the test whether the entry is pending.
abbrev pub flush_before : Bool → Buffer → Buffer × List StreamBatch
flush_before pending b =
    if pending && is_filled b.items then (empty_buffer, items_batch b ∷ []) else (b, [])

-- The batches that the pump enqueues. A queue that ends with no sentinel leaves the buffer unsent.
unfoldable pub pump : Buffer → List Arrival → List StreamBatch
unfolding flushed
pump b [] = []
pump b ((pending, r) ∷ queue) =
    let (kept, sent) = flush_before pending b in
    sent ++ elim r.item [
      | none ↦ flushed kept ++ done_batch r.errors ∷ []
      | some item ↦ pump (add_item item r kept) queue
    ]

unfoldable pub on_stream_items : List Arrival → List StreamBatch
on_stream_items = pump empty_buffer
