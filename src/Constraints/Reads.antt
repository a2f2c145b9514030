-- ===== src/Constraints/Reads.antt =====
-- Rules for reads (src/grafast_py/constraints.py) under two requests.
use grafast_py.Prelude.{[], ◌∷◌, ◌++◌, ◌≡◌, refl, ◌⊎◌, inl, inr, sym}
use mathlib.Core.List.{append-nil, append_assoc}
use grafast_py.Constraints.Defs.{Constraint, RequestFacts, Result, ok, err, Error}
use grafast_py.Constraints.Gate.{Sink, Reads, ◌>>=◌, lift, note}
use grafast_py.Constraints.Matching.{Holds, Holds-append_left}

-- The sink only grows.
abbrev pub Extends : {A : Type 0} → Reads A → Type 0
Extends m = (sink : Sink) → (more : Sink) × ((m sink).1 ≡ sink ++ more)

pub Extends-lift : {A : Type 0} (r : Result A) → Extends (lift r)
Extends-lift r sink = ([], sym (append-nil sink))

pub Extends-note : (c : Constraint) → Extends (note c)
Extends-note c sink = (c ∷ [], refl)

module _ {A B : Type 0} where
  continue-Extends :
      (r : Result A) (k : A → Reads B) (sink : Sink)
      → ((a : A) → Extends (k a))
      → (more : Sink) × (((λ (s : Sink). (r, s)) >>= k) sink).1 ≡ sink ++ more
  continue-Extends (ok a) k sink e = e a sink
  continue-Extends (err x) k sink e = ([], sym (append-nil sink))

  pub Extends-bind :
      (m : Reads A) (k : A → Reads B) → Extends m → ((a : A) → Extends (k a)) → Extends (m >>= k)
  Extends-bind m k em ek sink =
      let (more, first) = em sink in
      let (rest, second) = continue-Extends (m sink).0 k (m sink).1 ek in
      (more ++ rest, cc (append_assoc sink more rest))

pub Result-cases :
    {A : Type 0} (r : Result A) → ((a : A) × (r ≡ ok a)) ⊎ ((e : Error) × (r ≡ err e))
Result-cases (ok a) = inl (a, refl)
Result-cases (err e) = inr (e, refl)

-- If `m` returned `a` and what was recorded holds of `facts`, then `n` returns a value related
-- to `a`.
abbrev pub Mirrors : {A : Type 0} → RequestFacts → (A → A → Type 0) → Reads A → Reads A → Type 0
Mirrors {A} facts E m n =
    (sink sink' : Sink) (a : A)
    → (m sink).0 ≡ ok a
    → Holds (m sink).1 facts
    → (a' : A) × ((n sink').0 ≡ ok a') × E a a'

module _ {A B : Type 0} (facts : RequestFacts) where
  pub Mirrors-bind :
      (E : A → A → Type 0) (F : B → B → Type 0) (m n : Reads A) (k l : A → Reads B)
      → Mirrors facts E m n
      → ((a : A) → Extends (k a))
      → ((a a' : A) → E a a' → Mirrors facts F (k a) (l a'))
      → Mirrors facts F (m >>= k) (n >>= l)
  Mirrors-bind E F m n k l hm ek hk sink sink' b h held = elim (Result-cases (m sink).0) [
    | inl (a, e) ↦
        let kept : Holds (k a (m sink).1).1 facts = rw e at held in
        let (rest, grown) = ek a (m sink).1 in
        let (a', first, related) =
          hm sink sink' a e (Holds-append_left (m sink).1 rest facts (rw grown at kept)) in
        let (b', second, related') = hk a a' related (m sink).1 (n sink').1 b (rw e at h) kept in
        (b', rw first second, related')
    | inr (x, e) ↦ absurd (cc)
  ]
