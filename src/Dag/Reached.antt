-- ===== src/Dag/Reached.antt =====
-- The plans that are reached by the rewrites of src/grafast_py/dag.py, and their dependents.
use grafast_py.Prelude.{
  has-keep, ℕ, suc, ◌<◌, Bool, true, false, ◌&&◌, ◌||◌, not, none, List, [], ◌∷◌, ◌++◌, length,
  length-append, has, has-append, has-nil, ◌==◌, if◌then◌else◌, ◌≡◌, refl, ap, subst, sym, ◌∙◌,
  arith, Bool-cases, inl, inr,
}
use grafast_py.Dag.Plan.{Plan, eradicate, eradicated, register, sweep_dead}
use grafast_py.Dag.Inverse.{IsInverse, dep_from-zero, edge_in-link, is_dep, is_live}
use grafast_py.Dag.Rewrites.{eradicated-IsInverse}

-- Steps and dead ids are below the number of steps, so that the next id is new.
pub record IsNumbered (p : Plan) : Type 0 where
  pub below : (s : ℕ) → (has p.steps s || has p.dead_ids s) ≡ true → s < length p.steps

eradicate-IsInverse :
    (dead survivor : ℕ) (p : Plan) → IsInverse p → IsInverse (eradicate dead survivor p)
unfolding eradicate
eradicate-IsInverse dead survivor p inv = elim (Bool-cases (dead == survivor)) [
  | inl same ↦ subst (λ b. IsInverse (if b then p else eradicated dead survivor p)) (sym same) inv
  | inr ne ↦
      subst (λ b. IsInverse (if b then p else eradicated dead survivor p)) (sym ne)
        (eradicated-IsInverse dead survivor p inv ne)
]

eradicate-IsNumbered :
    (dead survivor : ℕ) (p : Plan)
    → has p.steps dead ≡ true
    → IsNumbered p
    → IsNumbered (eradicate dead survivor p)
unfolding eradicate has
eradicate-IsNumbered dead survivor p h num = elim (Bool-cases (dead == survivor)) [
  | inl same ↦ subst (λ b. IsNumbered (if b then p else eradicated dead survivor p)) (sym same) num
  | inr ne ↦
      subst (λ b. IsNumbered (if b then p else eradicated dead survivor p)) (sym ne)
        record {
          below = λ s e. elim (Bool-cases (dead == s)) [
            | inl here ↦
                let at : dead ≡ s = ground arith in
                subst (λ x. x < length p.steps) at (num.below dead (ground arith))
            | inr there ↦ num.below s (ground arith)
          ];
        }
]

has_one : (x s : ℕ) → has (x ∷ []) s ≡ (x == s)
unfolding has
has_one x s = ground arith

live_new :
    (n : ℕ) (p : Plan) (s : ℕ)
    → (has (p.steps ++ n ∷ []) s && not (has p.dead_ids s))
      ≡ (is_live p s || ((n == s) && not (has p.dead_ids s)))
live_new n p s = rw (has-append p.steps (n ∷ []) s, has_one n s) (ground arith)

not_numbered :
    (p : Plan)
    → IsNumbered p
    → (has p.steps (length p.steps) || has p.dead_ids (length p.steps)) ≡ false
not_numbered p num =
    elim (Bool-cases (has p.steps (length p.steps) || has p.dead_ids (length p.steps))) [
      | inl known ↦ absurd (omega (arith, num.below (length p.steps) known))
      | inr unknown ↦ unknown
    ]

register-IsNumbered :
    (deps : List ℕ) (unary : Bool) (p : Plan) → IsNumbered p → IsNumbered (register deps unary p)
register-IsNumbered deps unary p num = record {
  below = λ s e.
      let in_steps : has (p.steps ++ length p.steps ∷ []) s
          ≡ (has p.steps s || (length p.steps == s)) =
        has-append p.steps (length p.steps ∷ []) s
        ∙ ap (λ b. has p.steps s || b) (has_one (length p.steps) s) in
      let size : length (p.steps ++ length p.steps ∷ []) ≡ suc (length p.steps) =
        omega (arith, length-append p.steps (length p.steps ∷ [])) in
      rw size (elim (Bool-cases (length p.steps == s)) [
        | inl here ↦ ground arith
        | inr there ↦ omega (arith, num.below s (ground (arith, in_steps)))
      ]);
}

register-IsInverse :
    (deps : List ℕ) (unary : Bool) (p : Plan)
    → IsNumbered p
    → IsInverse p
    → IsInverse (register deps unary p)
register-IsInverse deps unary p num inv = record {
  inverse = λ s i d.
      rw
        (
          edge_in-link (length p.steps) 0 deps p.dependents_index d s i,
          dep_from-zero deps i d,
          inv.inverse s i d,
          live_new (length p.steps) p s,
        )
        (elim (Bool-cases (length p.steps == s)) [
          | inl here ↦
              let same : length p.steps ≡ s = ground arith in
              let new : (has p.steps s || has p.dead_ids s) ≡ false =
                subst (λ x. (has p.steps x || has p.dead_ids x) ≡ false) same
                  (not_numbered p num) in
              rw here (ground (arith, new))
          | inr there ↦ rw there (ground arith)
        ]);
}

live_swept : (p : Plan) (s : ℕ) → is_live p s ≡ is_live (sweep_dead p) s
unfolding sweep_dead has
live_swept p s = rw (has-keep (λ x. not (has p.dead_ids x)) p.steps s) (ground arith)

sweep_dead-IsInverse : (p : Plan) → IsInverse p → IsInverse (sweep_dead p)
unfolding sweep_dead
sweep_dead-IsInverse p inv = record {
  inverse =
      λ s i d. inv.inverse s i d ∙ ap (λ b. b && is_dep (p.dependencies s) i d) (live_swept p s);
}

abbrev pub new_plan : Plan
new_plan = record {
  steps = [];
  dead_ids = [];
  dependencies = λ s. [];
  is_unary = λ s. false;
  dependents_index = λ s. none;
}

-- The plans that registrations and eradications make, in any order.
pub data Reached : Plan → Type 0 where
  start : Reached new_plan
  then_register :
      {p : Plan} (deps : List ℕ) (unary : Bool) → Reached p → Reached (register deps unary p)
  then_eradicate :
      {p : Plan} (dead survivor : ℕ)
      → has p.steps dead ≡ true
      → Reached p
      → Reached (eradicate dead survivor p)

pub Reached-IsValid : {p : Plan} → Reached p → IsNumbered p × IsInverse p
Reached-IsValid start = (
  record { below = λ s e. absurd (ground (arith, has-nil s)) },
  record { inverse = λ s i d. rw (has-nil s) refl },
)
Reached-IsValid (then_register deps unary r) =
    let (num, inv) = Reached-IsValid r in
    (register-IsNumbered deps unary _ num, register-IsInverse deps unary _ num inv)
Reached-IsValid (then_eradicate dead survivor h r) =
    let (num, inv) = Reached-IsValid r in
    (eradicate-IsNumbered dead survivor _ h num, eradicate-IsInverse dead survivor _ inv)

-- However registrations and eradications of registered steps follow each other, a reverse edge of a step
-- stands for a dependency of a live step on it, and each such dependency has its reverse edge, before
-- and after the dead steps are swept.
pub Reached-IsInverse : {p : Plan} → Reached p → IsInverse p × IsInverse (sweep_dead p)
Reached-IsInverse {p} r = let (num, inv) = Reached-IsValid r in (inv, sweep_dead-IsInverse p inv)
