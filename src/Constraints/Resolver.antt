-- ===== src/Constraints/Resolver.antt =====
-- A plan resolver as the reads that it makes of its request, in order: each read hands its result
-- to the rest. It is host code, so it ranges over all such programs. `run` gives it the gate and
-- the tracked variables that src/grafast_py/plan.py builds for it, over one sink.
use grafast_py.Prelude.{ℕ, String, Bool, true, some, List, ◌≡◌}
use grafast_py.Values.{Value}
use grafast_py.Constraints.Defs.{RequestFacts, Error, err, values_equal, sorted}
use grafast_py.Constraints.Gate.{
  Reads, ◌>>=◌, pure, lift, eval, eval_is, eval_has, variable_item, variable_get, variable_contains,
  variable_iter, variable_len,
}

pub data Resolver (R : Type 0) : Type 0 where
  plan : R → Resolver R
  raise : Error → Resolver R
  reads_eval : String → (Value → Resolver R) → Resolver R
  reads_eval_is : String → Value → (Bool → Resolver R) → Resolver R
  reads_eval_has : String → (Bool → Resolver R) → Resolver R
  reads_variable : String → (Value → Resolver R) → Resolver R
  reads_variable_get : String → Value → (Value → Resolver R) → Resolver R
  reads_contains : String → (Bool → Resolver R) → Resolver R
  reads_names : (List String → Resolver R) → Resolver R
  reads_count : (ℕ → Resolver R) → Resolver R

unfoldable pub run : {R : Type 0} → Resolver R → RequestFacts → Reads R
run (plan r) facts = pure r
run (raise e) facts = lift (err e)
run (reads_eval key f) facts = eval facts.context_value key >>= λ v. run (f v) facts
run (reads_eval_is key e f) facts = eval_is facts.context_value key e >>= λ b. run (f b) facts
run (reads_eval_has key f) facts = eval_has facts.context_value key >>= λ b. run (f b) facts
run (reads_variable name f) facts =
    variable_item facts.variable_values name >>= λ v. run (f v) facts
run (reads_variable_get name d f) facts =
    variable_get facts.variable_values name d >>= λ v. run (f v) facts
run (reads_contains name f) facts =
    variable_contains facts.variable_values name >>= λ b. run (f b) facts
run (reads_names f) facts = variable_iter facts.variable_values >>= λ ks. run (f ks) facts
run (reads_count f) facts = variable_len facts.variable_values >>= λ n. run (f n) facts

-- The resolver does the same with values that the constraints do not tell apart: with equal values
-- of one type, and with one set of names in another order.
abbrev pub Respects : {R : Type 0} → Resolver R → Type 0
Respects (plan r) = Unit
Respects (raise e) = Unit
Respects (reads_eval key f) =
    ((v w : Value) → values_equal (some v) (some w) ≡ true → f v ≡ f w)
    × ((v : Value) → Respects (f v))
Respects (reads_eval_is key e f) = (b : Bool) → Respects (f b)
Respects (reads_eval_has key f) = (b : Bool) → Respects (f b)
Respects (reads_variable name f) =
    ((v w : Value) → values_equal (some v) (some w) ≡ true → f v ≡ f w)
    × ((v : Value) → Respects (f v))
Respects (reads_variable_get name d f) =
    ((v w : Value) → values_equal (some v) (some w) ≡ true → f v ≡ f w)
    × ((v : Value) → Respects (f v))
Respects (reads_contains name f) = (b : Bool) → Respects (f b)
Respects (reads_names f) =
    ((ks ls : List String) → sorted ks ≡ sorted ls → f ks ≡ f ls)
    × ((ks : List String) → Respects (f ks))
Respects (reads_count f) = (n : ℕ) → Respects (f n)
