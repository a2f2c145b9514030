-- ===== src/Incremental/Keys.antt =====
-- Laws of the ordered sets and of the loops with which src/grafast_py/incremental.py is modelled.
use grafast_py.Prelude.{
  has-keep, ℕ, not, ◌&&◌, ◌||◌, Option, none, some, List, [], ◌∷◌, has, has-append, has-cons,
  has-nil, ◌==◌, ◌≡◌, ◌⊎◌, inl, inr, All, subst, refl, arith, if◌then◌else◌,
}
use grafast_py.Incremental.Defs.{put_key, del_key, update_at, ◌>>=◌, for_each, for_all}

pub has-put_key : (k : ℕ) (xs : List ℕ) (a : ℕ) → has (put_key k xs) a ≡ (has xs a || (k == a))
unfolding put_key
has-put_key k xs a = ground (arith, has-append xs (k ∷ []) a, has-cons k [] a, has-nil a)

pub has-del_key : (k : ℕ) (xs : List ℕ) (a : ℕ) → has (del_key k xs) a ≡ (has xs a && not (a == k))
unfolding del_key
has-del_key k xs a = has-keep (λ x. not (x == k)) xs a

pub update_at-eq :
    (k : ℕ) (f : List ℕ → List ℕ) (d : ℕ → List ℕ) (x : ℕ)
    → update_at k f d x ≡ (if k == x then f (d x) else d x)
unfolding update_at
update_at-eq k f d x = refl

pub some-inj {ℓ} : {A : Type ℓ} {a b : A} → some a ≡ some b → a ≡ b
some-inj e = cc

pub bind-some {ℓ κ} :
    {A : Type ℓ} {B : Type κ} (o : Option A) (f : A → Option B) {b : B}
    → (o >>= f) ≡ some b
    → (a : A) × (o ≡ some a) × (f a ≡ some b)
bind-some none f e = cc
bind-some (some a) f e = (a, refl, e)

pub List-cases {ℓ} :
    {A : Type ℓ} (xs : List A) → (xs ≡ []) ⊎ ((x : A) × (rest : List A) × (xs ≡ x ∷ rest))
List-cases [] = inl refl
List-cases (x ∷ xs) = inr (x, xs, refl)

-- What the body of a loop keeps, the loop keeps.
module _ {ℓ κ μ} {A : Type ℓ} {S : Type κ} (P : S → Type μ) where
  pub for_each-keeps :
      (Q : A → Type μ) (f : A → S → Option S)
      → ((x : A) (s s' : S) → Q x → P s → f x s ≡ some s' → P s')
      → (xs : List A) (s s' : S) → All Q xs
      → P s
      → for_each f xs s ≡ some s'
      → P s'
  unfolding for_each
  for_each-keeps Q f keeps [] s s' a h e = subst P (some-inj e) h
  for_each-keeps Q f keeps (x ∷ xs) s s' (q, a) h e =
      let (t, first, rest) = bind-some (f x s) (for_each f xs) e in
      for_each-keeps Q f keeps xs t s' a (keeps x s t q h first) rest

  pub for_all-keeps :
      (f : A → S → S)
      → ((x : A) (s : S) → P s → P (f x s))
      → (xs : List A) (s : S) → P s
      → P (for_all f xs s)
  unfolding for_all
  for_all-keeps f keeps [] s h = h
  for_all-keeps f keeps (x ∷ xs) s h = for_all-keeps f keeps xs (f x s) (keeps x s h)

  pub for_all-keeps_each :
      (Q : A → Type μ) (f : A → S → S)
      → ((x : A) (s : S) → Q x → P s → P (f x s))
      → (xs : List A) (s : S) → All Q xs
      → P s
      → P (for_all f xs s)
  unfolding for_all
  for_all-keeps_each Q f keeps [] s a h = h
  for_all-keeps_each Q f keeps (x ∷ xs) s (q, a) h =
      for_all-keeps_each Q f keeps xs (f x s) a (keeps x s q h)
