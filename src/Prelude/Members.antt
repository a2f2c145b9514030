-- ===== src/Prelude/Members.antt =====
-- Membership of numbers in a list as a test: Python's `x in xs` on sets of identities.
use Prim.Native.Nat.{ℕ}
use mathlib.Core.Bool.{Bool, true, false, ◌&&◌, ◌||◌}
use mathlib.Core.List.{List, [], ◌∷◌, ◌++◌}
use mathlib.Core.Logic.{◌⊎◌, inl, inr}
use mathlib.Core.Path.{◌≡◌, refl}
use native.Mathlib.Omega.{arith}
use grafast_py.Prelude.Tests.{◌==◌, ==_iff, Bool-cases}
use grafast_py.Prelude.Lists.{All, keep}

unfoldable pub has : List ℕ → ℕ → Bool
has [] a = false
has (x ∷ xs) a = (x == a) || has xs a

pub has-append : (xs ys : List ℕ) (a : ℕ) → has (xs ++ ys) a ≡ (has xs a || has ys a)
unfolding has
has-append [] ys a = refl
has-append (x ∷ xs) ys a = ground (arith, has-append xs ys a)

pub has-cons : (x : ℕ) (xs : List ℕ) (a : ℕ) → has (x ∷ xs) a ≡ ((x == a) || has xs a)
unfolding has
has-cons x xs a = refl

pub has-nil : (a : ℕ) → has [] a ≡ false
unfolding has
has-nil a = refl

-- What holds of the members of a list holds of each one that is tested.
pub All-has {ℓ} : (P : ℕ → Type ℓ) (xs : List ℕ) (a : ℕ) → All P xs → has xs a ≡ true → P a
unfolding has
All-has P [] a h m = absurd (ground arith)
All-has P (x ∷ xs) a h m = ground (arith, All-has P xs a h.1)

pub All-of-has {ℓ} : (P : ℕ → Type ℓ) (xs : List ℕ) → ((a : ℕ) → has xs a ≡ true → P a) → All P xs
unfolding has
All-of-has P [] h = tt
All-of-has P (x ∷ xs) h = (h x (ground arith), All-of-has P xs (λ a m. h a (ground arith)))

pub has_head : (x : ℕ) (xs : List ℕ) → has (x ∷ xs) x ≡ true
unfolding has
has_head x xs = ground arith

pub has_tail : (x : ℕ) (xs : List ℕ) (a : ℕ) → has xs a ≡ true → has (x ∷ xs) a ≡ true
unfolding has
has_tail x xs a h = ground arith

-- Where a member of an extended list stands.
pub has-cons_cases :
    (x : ℕ) (xs : List ℕ) (a : ℕ) → has (x ∷ xs) a ≡ true → (x ≡ a) ⊎ (has xs a ≡ true)
unfolding has
has-cons_cases x xs a h = elim (Bool-cases (x == a)) [
  | inl e ↦ inl ((==_iff x a).0 e)
  | inr e ↦ inr (ground arith)
]

pub has-snoc_cases :
    (xs : List ℕ) (x a : ℕ) → has (xs ++ x ∷ []) a ≡ true → (has xs a ≡ true) ⊎ (x ≡ a)
has-snoc_cases xs x a h = elim (Bool-cases (has xs a)) [
  | inl e ↦ inl e
  | inr e ↦ inr (ground (arith, has-append xs (x ∷ []) a, has-cons x [] a, has-nil a))
]

pub has_init : (xs : List ℕ) (x a : ℕ) → has xs a ≡ true → has (xs ++ x ∷ []) a ≡ true
has_init xs x a h = ground (arith, has-append xs (x ∷ []) a)

pub has_last : (xs : List ℕ) (x : ℕ) → has (xs ++ x ∷ []) x ≡ true
has_last xs x = ground (arith, has-append xs (x ∷ []) x, has_head x [])

pub has-keep : (q : ℕ → Bool) (xs : List ℕ) (s : ℕ) → has (keep q xs) s ≡ (has xs s && q s)
unfolding has
has-keep q [] s = refl
has-keep q (x ∷ xs) s = elim (Bool-cases (x == s)) [
  | inl here ↦ let same : x ≡ s = ground arith in rw (same) (ground (arith, has-keep q xs s))
  | inr there ↦ ground (arith, has-keep q xs s)
]
