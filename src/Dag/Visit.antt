-- ===== src/Dag/Visit.antt =====
-- Laws of the loop of the depth-first search of src/grafast_py/dag.py.
use grafast_py.Prelude.{
  ℕ, ◌<◌, Bool, true, false, ◌||◌, Option, some, List, [], ◌∷◌, ◌++◌, ◌≡◌, refl, arith, has,
  has-cons, has-nil, has_head, has_tail, All, Bool-cases, inl, inr,
}
use grafast_py.Dag.Defs.{Search, each}

module _ (deps : ℕ → List ℕ) (stops : ℕ → Bool) where
  -- `x` is reached from `a` along dependencies, with no boundary on the way.
  pub data Leads : ℕ → ℕ → Type 0 where
    arrive : {a : ℕ} → stops a ≡ false → Leads a a
    through : {a x : ℕ} (d : ℕ) → stops a ≡ false → has (deps a) d ≡ true → Leads d x → Leads a x

  -- Each step stands behind its dependencies, but for those of the boundary, and stands once.
  abbrev pub Placed : List ℕ → List ℕ → Type 0
  Placed before [] = Unit
  Placed before (x ∷ xs) =
      (has before x ≡ false)
      × All (λ d. (stops d || has before d) ≡ true) (deps x)
      × Placed (x ∷ before) xs

  pub All-imp : (A B : ℕ → Type 0) (xs : List ℕ) → ((x : ℕ) → A x → B x) → All A xs → All B xs
  All-imp A B [] f h = tt
  All-imp A B (x ∷ xs) f (h, t) = (f x h, All-imp A B xs f t)

  pub Placed-snoc :
      (before xs : List ℕ) (a : ℕ)
      → Placed before xs
      → (has before a || has xs a) ≡ false
      → All (λ d. (stops d || (has before d || has xs d)) ≡ true) (deps a)
      → Placed before (xs ++ a ∷ [])
  Placed-snoc before [] a p n h =
      (ground (arith, has-nil a), All-imp _ _ (deps a) (λ d e. ground (arith, has-nil d)) h, tt)
  Placed-snoc before (x ∷ xs) a (q, r, p) n h = (
    q,
    r,
    Placed-snoc (x ∷ before) xs a p (ground (arith, has-cons x xs a, has-cons x before a))
        (All-imp _ _ (deps a) (λ d e. ground (arith, has-cons x xs d, has-cons x before d)) h),
  )

  module _ (rank : ℕ → ℕ) where
    -- What holds between the steps: everything visited of a rank below `n` is emitted.
    pub record Inv (n : ℕ) (s : Search) : Type 0 where
      pub settled :
          (x : ℕ) → has s.visited x ≡ true → rank x < n → stops x ≡ false → has s.ordered x ≡ true
      pub seen : (x : ℕ) → has s.ordered x ≡ true → has s.visited x ≡ true
      pub clean : (x : ℕ) → has s.ordered x ≡ true → stops x ≡ false
      pub placed : Placed [] s.ordered

    -- What a search from the steps with the property `From` adds.
    pub record Grows (From : ℕ → Type 0) (s s' : Search) : Type 0 where
      pub keeps : (x : ℕ) → has s.ordered x ≡ true → has s'.ordered x ≡ true
      pub remembers : (x : ℕ) → has s.visited x ≡ true → has s'.visited x ≡ true
      pub emits :
          (x : ℕ)
          → has s'.visited x ≡ true
          → has s.visited x ≡ false
          → stops x ≡ false
          → has s'.ordered x ≡ true
      pub reaches : (x : ℕ) → has s'.ordered x ≡ true → has s.ordered x ≡ false → From x

    pub Grows-refl : (From : ℕ → Type 0) (s : Search) → Grows From s s
    Grows-refl From s = record {
      keeps = λ x h. h;
      remembers = λ x h. h;
      emits = λ x h k. absurd (ground arith);
      reaches = λ x h k. absurd (ground arith);
    }

    Grows-trans :
        (A B C : ℕ → Type 0) (s t u : Search)
        → ((x : ℕ) → A x → C x)
        → ((x : ℕ) → B x → C x)
        → Grows A s t
        → Grows B t u
        → Grows C s u
    Grows-trans A B C s t u ac bc g h = record {
      keeps = λ x e. h.keeps x (g.keeps x e);
      remembers = λ x e. h.remembers x (g.remembers x e);
      emits = λ x e k m. elim (Bool-cases (has t.visited x)) [
        | inl was ↦ h.keeps x (g.emits x was k m)
        | inr new ↦ h.emits x e new m
      ];
      reaches = λ x e k. elim (Bool-cases (has t.ordered x)) [
        | inl was ↦ ac x (g.reaches x was k)
        | inr new ↦ bc x (h.reaches x e new)
      ];
    }

    -- The outcome of a search.
    pub record Done (n : ℕ) (From : ℕ → Type 0) (s : Search) (o : Option Search) (ts : List ℕ)
        : Type 0 where
      pub result : Search
      pub returns : o ≡ some result
      pub inv : Inv n result
      pub grows : Grows From s result
      pub found : All (λ t. (stops t || has result.ordered t) ≡ true) ts

    abbrev pub FromAny : List ℕ → ℕ → Type 0
    FromAny ts x = (t : ℕ) × (has ts t ≡ true) × Leads t x

    kept_found :
        (s t : Search) (From : ℕ → Type 0) (a : ℕ)
        → Grows From s t
        → (stops a || has s.ordered a) ≡ true
        → (stops a || has t.ordered a) ≡ true
    kept_found s t From a g h = elim (Bool-cases (stops a)) [
      | inl e ↦ rw e
      | inr e ↦ rw e (g.keeps a (ground arith))
    ]

    Done-cons :
        (f : ℕ → Search → Option Search) (n t : ℕ) (ts : List ℕ) (s : Search)
        (first : Done n (Leads t) s (f t s) (t ∷ []))
        → Done n (FromAny ts) first.result (each f ts first.result) ts
        → Done n (FromAny (t ∷ ts)) s (each f (t ∷ ts) s) (t ∷ ts)
    unfolding each
    Done-cons f n t ts s first rest = record {
      result = rest.result;
      returns = rw (first.returns, each) rest.returns;
      inv = rest.inv;
      grows =
          Grows-trans (Leads t) (FromAny ts) _ s first.result rest.result
            (λ x l. (t, has_head t ts, l)) (λ x (u, e, l). (u, has_tail t ts u e, l)) first.grows
            rest.grows;
      found = (kept_found first.result rest.result _ t rest.grows first.found.0, rest.found);
    }

    -- A loop of searches, each of which is right.
    pub each_lem :
        (f : ℕ → Search → Option Search) (n : ℕ) (ts : List ℕ) (s : Search)
        → ((t : ℕ) (s : Search) → has ts t ≡ true → Inv n s → Done n (Leads t) s (f t s) (t ∷ []))
        → Inv n s
        → Done n (FromAny ts) s (each f ts s) ts
    unfolding each
    each_lem f n [] s h v = record {
      result = s;
      returns = refl;
      inv = v;
      grows = Grows-refl _ s;
      found = tt;
    }
    each_lem f n (t ∷ ts) s h v =
        let first = h t s (has_head t ts) v in
        Done-cons f n t ts s first
          (each_lem f n ts first.result (λ u s' e. h u s' (has_tail t ts u e)) first.inv)
