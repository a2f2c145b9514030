-- ===== src/Incremental/Pump/Delivery.antt =====
-- What a pump delivers (src/grafast_py/incremental.py): the items that arrive, whatever the waits.
use grafast_py.Prelude.{
  ℕ, Bool, true, false, Option, none, some, List, [], ◌∷◌, ◌++◌, ◌&&◌, All, All-append, subst, ◌≡◌,
  ◌≢◌, ◌⊎◌, inl, inr, refl, ap, sym, ◌∙◌, arith, Bool-cases,
}
use mathlib.Core.List.{append_assoc, append-nil}
use grafast_py.Incremental.Defs.{Arrival, StreamBatch, StreamItemResult}
use grafast_py.Incremental.Pump.{
  Buffer, empty_buffer, is_filled, items_batch, done_batch, flushed, add_item, flush_before, pump,
  on_stream_items,
}

-- What a buffer, a list of batches and a list of entries hold, one after the other.
abbrev join_buffers : Buffer → Buffer → Buffer
join_buffers a b = record {
  items = a.items ++ b.items;
  errors = a.errors ++ b.errors;
  children = a.children ++ b.children;
}

pub contents : List StreamBatch → Buffer
contents [] = empty_buffer
contents (b ∷ batches) =
    join_buffers (record { items = b.items; errors = b.errors; children = b.children })
      (contents batches)

abbrev entry_contents : Option ℕ → StreamItemResult → Buffer
entry_contents none r = empty_buffer
entry_contents (some item) r = record {
  items = item ∷ [];
  errors = r.errors;
  children = r.children;
}

pub arrived : List Arrival → Buffer
arrived [] = empty_buffer
arrived ((_, r) ∷ queue) = join_buffers (entry_contents r.item r) (arrived queue)

abbrev pub HasItem : Arrival → Type 0
HasItem (_, r) = (item : ℕ) × (r.item ≡ some item)

abbrev pub IsItems : StreamBatch → Type 0
IsItems b = (b.items ≢ []) × (b.done ≡ false)

join_assoc :
    (a b c : Buffer) → join_buffers (join_buffers a b) c ≡ join_buffers a (join_buffers b c)
join_assoc a b c = rw (
  append_assoc a.items b.items c.items,
  append_assoc a.errors b.errors c.errors,
  append_assoc a.children b.children c.children,
)

join_empty : (b : Buffer) → join_buffers b empty_buffer ≡ b
join_empty b = rw (append-nil b.items, append-nil b.errors, append-nil b.children)

empty_join : (b : Buffer) → join_buffers empty_buffer b ≡ b
empty_join b = ground arith

contents-append :
    (xs ys : List StreamBatch) → contents (xs ++ ys) ≡ join_buffers (contents xs) (contents ys)
unfolding contents
contents-append [] ys = refl
contents-append (x ∷ xs) ys =
    ap (join_buffers (record { items = x.items; errors = x.errors; children = x.children }))
      (contents-append xs ys)
    ∙ sym (join_assoc _ (contents xs) (contents ys))

-- A buffer with no item is empty.
record IsBuffer (b : Buffer) : Type 0 where
  whole : (is_filled b.items ≡ true) ⊎ (b ≡ empty_buffer)

is_is_filled-ne-nil : (xs : List ℕ) → is_filled xs ≡ true → xs ≢ []
is_is_filled-ne-nil [] h e = cc
is_is_filled-ne-nil (x ∷ xs) h e = cc

-- Batches that hold items, and what they hold.
abbrev Sends : List StreamBatch → Buffer → Type 0
Sends sent b = All IsItems sent × (contents sent ≡ b)

items_batch-Sends : (b : Buffer) → is_filled b.items ≡ true → Sends (items_batch b ∷ []) b
unfolding contents
items_batch-Sends b full = (((is_is_filled-ne-nil b.items full, refl), tt), join_empty b)

flushed-Sends : (b : Buffer) → IsBuffer b → Sends (flushed b) b
unfolding flushed contents
flushed-Sends b h = elim h.whole [
  | inl full ↦ rw full (items_batch-Sends b full)
  | inr e ↦ rw e (tt, refl)
]

Sends-append :
    (xs ys : List StreamBatch) (a b : Buffer)
    → Sends xs a
    → Sends ys b
    → Sends (xs ++ ys) (join_buffers a b)
Sends-append xs ys a b (p, e) (q, f) = (
  All-append IsItems xs ys p q,
  contents-append xs ys ∙ ap (λ c. join_buffers c (contents ys)) e ∙ ap (join_buffers a) f,
)

flush_before-Sends :
    (pending : Bool) (b : Buffer)
    → IsBuffer b
    → IsBuffer (flush_before pending b).0
      × ((before : Buffer) × Sends (flush_before pending b).1 before
          × (join_buffers before (flush_before pending b).0 ≡ b))
unfolding contents
flush_before-Sends pending b h = elim (Bool-cases (pending && is_filled b.items)) [
  | inl wait ↦
      rw wait (record { whole = inr refl }, (b, items_batch-Sends b (ground arith), join_empty b))
  | inr at_hand ↦ rw at_hand (h, (empty_buffer, (tt, refl), refl))
]

is_is_filled-append_one : (xs : List ℕ) (x : ℕ) → is_filled (xs ++ x ∷ []) ≡ true
is_is_filled-append_one [] x = refl
is_is_filled-append_one (y ∷ xs) x = refl

regroup :
    (before kept b e c : Buffer)
    → join_buffers before kept ≡ b
    → join_buffers before (join_buffers (join_buffers kept e) c) ≡ join_buffers b (join_buffers e c)
regroup before kept b e c h =
    ap (join_buffers before) (join_assoc kept e c)
    ∙ sym (join_assoc before kept (join_buffers e c))
    ∙ ap (λ d. join_buffers d (join_buffers e c)) h

module _ (pending : Bool) (last : StreamItemResult) (ended : last.item ≡ none)
    (rest : List Arrival) where
  abbrev Delivers : Buffer → List Arrival → Type 0
  Delivers b queue =
      (sent : List StreamBatch) × (pump b (queue ++ (pending, last) ∷ rest)
        ≡ sent ++ done_batch last.errors ∷ [])
      × Sends sent (join_buffers b (arrived queue))

  pump-Delivers :
      (b : Buffer) (queue : List Arrival) → IsBuffer b → All HasItem queue → Delivers b queue
  unfolding pump arrived
  pump-Delivers b [] h a =
      let (kept_whole, (before, sends, e)) = flush_before-Sends pending b h in
      let kept : Buffer = (flush_before pending b).0 in
      let sent : List StreamBatch = (flush_before pending b).1 in
      (
        sent ++ flushed kept,
        rw ended (sym (append_assoc sent (flushed kept) (done_batch last.errors ∷ []))),
        subst (Sends (sent ++ flushed kept)) (e ∙ sym (join_empty b))
            (Sends-append sent (flushed kept) before kept sends (flushed-Sends kept kept_whole)),
      )
  pump-Delivers b ((wait, r) ∷ queue) h ((item, has_item), a) =
      let (kept_whole, (before, sends, e)) = flush_before-Sends wait b h in
      let kept : Buffer = (flush_before wait b).0 in
      let sent : List StreamBatch = (flush_before wait b).1 in
      let (later, eq, more) =
        pump-Delivers (add_item item r kept) queue
          (record { whole = inl (is_is_filled-append_one kept.items item) }) a in
      (
        sent ++ later,
        rw has_item (ap (λ l. sent ++ l) eq ∙ sym (append_assoc sent later _)),
        rw has_item (
            subst (Sends (sent ++ later))
              (regroup before kept b (entry_contents (some item) r) (arrived queue) e)
              (Sends-append sent later before _ sends more)),
      )

-- A stream whose queue ends in the sentinel is delivered whole: every item, error and revealed
-- record of the entries before it goes out once and in order, in batches that are not empty, and
-- then one terminal batch with the errors of the stream, whatever waits there are between them.
pub on_stream_items-Delivers :
    (queue : List Arrival) (pending : Bool) (last : StreamItemResult) (rest : List Arrival)
    → All HasItem queue
    → last.item ≡ none
    → (sent : List StreamBatch) × (on_stream_items (queue ++ (pending, last) ∷ rest)
        ≡ sent ++ done_batch last.errors ∷ [])
      × All IsItems sent
      × (contents sent ≡ arrived queue)
unfolding on_stream_items
on_stream_items-Delivers queue pending last rest h ended =
    let (sent, e, (all, c)) =
      pump-Delivers pending last ended rest empty_buffer queue (record { whole = inr refl }) h in
    (sent, e, all, c ∙ empty_join (arrived queue))
