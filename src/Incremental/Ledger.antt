-- ===== src/Incremental/Ledger.antt =====
-- The ids of a response (src/grafast_py/incremental.py): which are announced, open and completed, and
-- what announcing a node and completing one do to them.
use grafast_py.Prelude.{
  ℕ, zero, suc, ◌+◌, ◌<◌, ◌≤◌, Bool, true, false, not, ◌&&◌, ◌||◌, Option, none, some, List, [],
  ◌∷◌, ◌++◌, map, has, has-cons, has-nil, ◌==◌, ◌≡◌, ◌⊎◌, refl, subst, sym, ap, ◌∙◌, arith,
  Bool-cases, inl, inr, if◌then◌else◌,
}
use mathlib.Core.List.{map-append}
use mathlib.Core.Path.{fun_ext}
use grafast_py.Incremental.Defs.{IncGraph, Records, for_all}
use grafast_py.Incremental.Publisher.{
  CompletedErrors, CompletedResult, PendingResult, Response, IncrementalResult, announce,
  complete_with, deliver, to_pending,
}

abbrev pub is_id : ℕ → Option ℕ → Bool
is_id i none = false
is_id i (some j) = i == j

-- How often an id is completed.
unfoldable pub times : ℕ → List CompletedResult → ℕ
times i [] = 0
times i (c ∷ cs) = (if is_id i c.id then 1 else 0) + times i cs

-- The numbers below, in order.
unfoldable pub upto : ℕ → List ℕ
upto zero = []
upto (suc n) = upto n ++ n ∷ []

pub record IsLedger (root : ℕ → Bool) (s : Response) : Type 0 where
  pub numbered : map (λ (p : PendingResult). p.id) s.pending ≡ upto s.next_id
  pub once : (i : ℕ) → times i s.completed ≤ 1
  pub unused : (i : ℕ) → s.next_id ≤ i → times i s.completed ≡ 0
  pub below : (r i : ℕ) → s.ids r ≡ some i → i < s.next_id
  pub apart : (r t i : ℕ) → s.ids r ≡ some i → s.ids t ≡ some i → r ≡ t
  pub still_open :
      (r : ℕ) → root r ≡ true → (i : ℕ) × (s.ids r ≡ some i) × (times i s.completed ≡ 0)
  pub latest : (r i : ℕ) → s.ids r ≡ some i → (root r ≡ true) ⊎ (times i s.completed ≡ 1)

times-snoc :
    (i : ℕ) (cs : List CompletedResult) (c : CompletedResult)
    → times i (cs ++ c ∷ []) ≡ times i cs + (if is_id i c.id then 1 else 0)
unfolding times
times-snoc i [] c = omega arith
times-snoc i (d ∷ cs) c = omega (arith, times-snoc i cs c)

module _ (w : Records) (root : ℕ → Bool) where
  announce-IsLedger :
      (node : ℕ) (s : Response)
      → IsLedger root s
      → IsLedger (λ x. root x || (node == x)) (announce w node s)
  unfolding upto
  announce-IsLedger node s h = record {
    numbered = map-append _ s.pending _ ∙ ap (λ l. l ++ s.next_id ∷ []) h.numbered;
    once = h.once;
    unused = λ i le. h.unused i (omega arith);
    below = λ r i e. ground (arith, h.below r i);
    apart = λ r t i e f. ground (arith, h.below r i, h.below t i, h.apart r t i);
    still_open = λ r m. elim (Bool-cases (node == r)) [
      | inl here ↦ rw here (s.next_id, refl, h.unused s.next_id (omega arith))
      | inr there ↦ rw there (h.still_open r (ground arith))
    ];
    latest = λ r i e. elim (Bool-cases (node == r)) [
      | inl here ↦ inl (ground arith)
      | inr there ↦ elim (h.latest r i (rw there at e)) [
        | inl m ↦ inl (ground arith)
        | inr m ↦ inr m
      ]
    ];
  }

-- The ledger is about the nodes as a predicate: one that is equal serves as well.
pub IsLedger-resp :
    (root root' : ℕ → Bool) (s : Response)
    → ((x : ℕ) → root x ≡ root' x)
    → IsLedger root s
    → IsLedger root' s
IsLedger-resp root root' s e h = subst (λ (r : ℕ → Bool). IsLedger r s) (fun_ext e) h

-- Only the ids and what was announced and completed matter.
pub IsLedger-graph :
    (root : ℕ → Bool) (s : Response) (graph : IncGraph)
    → IsLedger root s
    → IsLedger root (record s { graph = graph })
IsLedger-graph root s graph h = record {
  numbered = h.numbered;
  once = h.once;
  unused = h.unused;
  below = h.below;
  apart = h.apart;
  still_open = h.still_open;
  latest = h.latest;
}

pub deliver-IsLedger :
    (root : ℕ → Bool) (r : IncrementalResult) (s : Response)
    → IsLedger root s
    → IsLedger root (deliver r s)
deliver-IsLedger root r s h = record {
  numbered = h.numbered;
  once = h.once;
  unused = h.unused;
  below = h.below;
  apart = h.apart;
  still_open = h.still_open;
  latest = h.latest;
}

-- All the nodes that are announced become open.
pub to_pending-IsLedger :
    (w : Records) (nodes : List ℕ) (root : ℕ → Bool) (s : Response)
    → IsLedger root s
    → IsLedger (λ x. root x || has nodes x) (to_pending w nodes s)
unfolding to_pending for_all
to_pending-IsLedger w [] root s h = IsLedger-resp root _ s (λ x. ground (arith, has-nil x)) h
to_pending-IsLedger w (n ∷ nodes) root s h =
    IsLedger-resp _ _ _ (λ x. ground (arith, has-cons n nodes x))
      (to_pending-IsLedger w nodes _ (announce w n s) (announce-IsLedger w root n s h))

-- Completing an open node with its id closes it, and no other id.
pub complete-IsLedger :
    (root : ℕ → Bool) (r : ℕ) (errors : CompletedErrors) (s : Response)
    → root r ≡ true
    → IsLedger root s
    → IsLedger (λ x. root x && not (x == r)) (complete_with (s.ids r) errors s)
complete-IsLedger root r errors s m h =
    let (id, has_id, not_yet) = h.still_open r m in
    let count : (i : ℕ)
        → times i (s.completed ++ record { id = some id; errors = errors } ∷ [])
          ≡ times i s.completed + (if i == id then 1 else 0) =
      λ i. times-snoc i s.completed (record { id = some id; errors = errors }) in
    rw has_id (record {
      numbered = h.numbered;
      once = λ i. ground (arith, count i, h.once i);
      unused = λ i le. ground (arith, count i, h.unused i, h.below r id);
      below = h.below;
      apart = h.apart;
      still_open = λ t k.
          let (j, has_j, open_j) = h.still_open t (ground arith) in
          (j, has_j, ground (arith, count j, h.apart r t id));
      latest = λ t i e. elim (Bool-cases (t == r)) [
        | inl here ↦
            let same : t ≡ r = ground arith in
            let same_id : some i ≡ some id = sym e ∙ ap s.ids same ∙ has_id in
            let j : i ≡ id = cc in inr (ground (arith, count i))
        | inr there ↦ elim (h.latest t i e) [
          | inl k ↦ inl (ground arith)
          | inr k ↦ inr (ground (arith, count i, ap (λ n. times n s.completed) {x = i} {y = id}))
        ]
      ];
    })
