-- ===== src/Prelude/Assoc.antt =====
-- Python's insertion-ordered dictionaries as lists of pairs: `dict` and `OrderedDict`. Keys have a
-- decidable equality. A lookup takes the first pair with the key.
use Prim.Native.Nat.{◌+◌, ◌≤◌}
use mathlib.Core.List.{List, [], ◌∷◌, ◌++◌}
use mathlib.Core.Logic.{◌≢◌, ite}
use mathlib.Core.Option.{Option, none, some}
use mathlib.Core.Path.{◌≡◌, refl}
use native.Mathlib.Omega.{arith}
use grafast_py.Prelude.Lists.{length}

module _ {ℓ} {K V : Type ℓ} (dec : Discrete K) where
  -- `d.get(k)`
  unfoldable pub lookup : K → List (K × V) → Option V
  lookup k [] = none
  lookup k ((j, v) ∷ l) = ite (dec j k) (some v) (lookup k l)

  -- `del d[k]`, `d.pop(k, None)`
  unfoldable pub without : K → List (K × V) → List (K × V)
  without k [] = []
  without k ((j, v) ∷ l) = let rest = without k l in ite (dec j k) rest ((j, v) ∷ rest)

  -- `d[k] = v`: in place if the key is there, and else at the end
  unfoldable pub set_item : K → V → List (K × V) → List (K × V)
  set_item k v [] = (k, v) ∷ []
  set_item k v ((j, w) ∷ l) =
      let rest = set_item k v l in ite (dec j k) ((j, v) ∷ l) ((j, w) ∷ rest)

  abbrev pub snoc_found : K → Option V → List (K × V) → List (K × V)
  snoc_found k none l = l
  snoc_found k (some v) l = l ++ (k, v) ∷ []

  -- `d.move_to_end(k)` of a key that is there
  unfoldable pub move_to_end : K → List (K × V) → List (K × V)
  move_to_end k l = snoc_found k (lookup k l) (without k l)

  -- No key stands twice: what every dictionary keeps.
  abbrev pub DistinctKeys : List (K × V) → Type ℓ
  DistinctKeys [] = Unit
  DistinctKeys ((k, v) ∷ l) = (lookup k l ≡ none) × DistinctKeys l

  pub lookup-without :
      (k j : K) (l : List (K × V)) → lookup j (without k l) ≡ ite (dec k j) none (lookup j l)
  unfolding lookup without
  lookup-without k j [] = ground arith
  lookup-without k j ((i, v) ∷ l) = ground (arith, lookup-without k j l)

  pub lookup-append_one :
      (k j : K) (v : V) (l : List (K × V))
      → lookup k l ≡ none
      → lookup j (l ++ (k, v) ∷ []) ≡ ite (dec k j) (some v) (lookup j l)
  unfolding lookup
  lookup-append_one k j v [] h = refl
  lookup-append_one k j v ((i, w) ∷ l) h = ground (arith, lookup-append_one k j v l)

  pub length-without-le : (k : K) (l : List (K × V)) → length (without k l) ≤ length l
  unfolding without
  length-without-le k [] = omega arith
  length-without-le k ((j, v) ∷ l) = ground (arith, length-without-le k l)

  pub without_absent : (k : K) (l : List (K × V)) → lookup k l ≡ none → without k l ≡ l
  unfolding lookup without
  without_absent k [] h = refl
  without_absent k ((j, v) ∷ l) h = ground (arith, without_absent k l)

  pub length-without :
      (k : K) (l : List (K × V)) (v : V)
      → DistinctKeys l
      → lookup k l ≡ some v
      → length (without k l) + 1 ≡ length l
  unfolding lookup without
  length-without k [] v d h = cc
  length-without k ((j, w) ∷ l) v (a, d) h =
      ground (arith, length-without k l v d, without_absent k l)

  pub without-DistinctKeys :
      (k : K) (l : List (K × V)) → DistinctKeys l → DistinctKeys (without k l)
  unfolding without
  without-DistinctKeys k [] d = tt
  without-DistinctKeys k ((j, w) ∷ l) (a, d) =
      ground (arith, without-DistinctKeys k l d, lookup-without k j l)

  pub snoc-DistinctKeys :
      (k : K) (v : V) (l : List (K × V))
      → lookup k l ≡ none
      → DistinctKeys l
      → DistinctKeys (l ++ (k, v) ∷ [])
  unfolding lookup
  snoc-DistinctKeys k v [] h d = (refl, tt)
  snoc-DistinctKeys k v ((j, w) ∷ l) h (a, d) =
      ground (arith, snoc-DistinctKeys k v l, lookup-append_one k j v l)

  pub lookup_self-without : (k : K) (l : List (K × V)) → lookup k (without k l) ≡ none
  unfolding lookup without
  lookup_self-without k [] = refl
  lookup_self-without k ((j, v) ∷ l) = ground (arith, lookup_self-without k l)

  lookup_self-set_item : (k : K) (v : V) (l : List (K × V)) → lookup k (set_item k v l) ≡ some v
  unfolding lookup set_item
  lookup_self-set_item k v [] = ground arith
  lookup_self-set_item k v ((j, w) ∷ l) = ground (arith, lookup_self-set_item k v l)

  without-set_item : (k : K) (v : V) (l : List (K × V)) → without k (set_item k v l) ≡ without k l
  unfolding without set_item
  without-set_item k v [] = ground arith
  without-set_item k v ((j, w) ∷ l) = ground (arith, without-set_item k v l)

  -- Writing an entry and moving it to the end is dropping the key and appending the entry.
  pub move_to_end-set_item :
      (k : K) (v : V) (l : List (K × V))
      → move_to_end k (set_item k v l) ≡ without k l ++ (k, v) ∷ []
  unfolding move_to_end
  move_to_end-set_item k v l = rw (lookup_self-set_item k v l, without-set_item k v l)

  pub length-snoc_one : (l : List (K × V)) (e : K × V) → length (l ++ e ∷ []) ≡ length l + 1
  length-snoc_one [] e = refl
  length-snoc_one (x ∷ l) e = omega (arith, length-snoc_one l e)

  pub lookup-IsDrop :
      (k : K) (e : K × V) (l : List (K × V))
      → DistinctKeys (e ∷ l)
      → k ≢ e.0
      → lookup k (e ∷ l) ≡ lookup k l
  unfolding lookup
  lookup-IsDrop k (j, w) l d h = ground arith

  pub move_to_end_found :
      (k : K) (v : V) (l : List (K × V))
      → lookup k l ≡ some v
      → move_to_end k l ≡ without k l ++ (k, v) ∷ []
  unfolding move_to_end
  move_to_end_found k v l h = rw h
