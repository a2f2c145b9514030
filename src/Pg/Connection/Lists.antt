-- ===== src/Pg/Connection/Lists.antt =====
-- Laws of lists for the pages of src/grafast_py/pg/connection.py.
use grafast_py.Prelude.{
  ℕ, zero, suc, ◌-◌, ◌≤◌, List, [], ◌∷◌, ◌++◌, take, drop, length, length-append, ltb, ◌≡◌, refl,
  sym, ap, ◌∙◌, arith,
}
use mathlib.Core.List.{reverse, reverse-append}

fewer : (m n : ℕ) → m - n ≡ suc m - suc n
fewer m n = omega arith

module _ {A : Type 0} where
  pub length-reverse : (xs : List A) → length (reverse xs) ≡ length xs
  length-reverse [] = refl
  length-reverse (x ∷ xs) =
      ap length (reverse-append (x ∷ []) xs)
      ∙ length-append (reverse xs) (x ∷ [])
      ∙ omega (arith, length-reverse xs)

  pub reverse-reverse : (xs : List A) → reverse (reverse xs) ≡ xs
  reverse-reverse [] = refl
  reverse-reverse (x ∷ xs) =
      ap reverse (reverse-append (x ∷ []) xs)
      ∙ reverse-append (reverse xs) (x ∷ [])
      ∙ ap (λ l. x ∷ l) (reverse-reverse xs)

  pub drop-append_one :
      (n : ℕ) (xs : List A) (x : A) → n ≤ length xs → drop n (xs ++ x ∷ []) ≡ drop n xs ++ x ∷ []
  drop-append_one zero xs x h = refl
  drop-append_one (suc n) [] x h = absurd (omega arith)
  drop-append_one (suc n) (y ∷ xs) x h = drop-append_one n xs x (omega arith)

  pub drop_all : (n : ℕ) (xs : List A) → length xs ≤ n → drop n xs ≡ []
  drop_all zero [] h = refl
  drop_all zero (x ∷ xs) h = absurd (omega arith)
  drop_all (suc n) [] h = refl
  drop_all (suc n) (x ∷ xs) h = drop_all n xs (omega arith)

  reverse-take : (n : ℕ) (ys : List A) → reverse (take n ys) ≡ drop (length ys - n) (reverse ys)
  reverse-take zero ys =
      sym (drop_all (length ys - 0) (reverse ys) (omega (arith, length-reverse ys)))
  reverse-take (suc n) [] = sym (drop_all (0 - suc n) [] (omega arith))
  reverse-take (suc n) (y ∷ ys) =
      reverse-append (y ∷ []) (take n ys)
      ∙ ap (λ l. l ++ y ∷ []) (reverse-take n ys)
      ∙ sym (drop-append_one (length ys - n) (reverse ys) y (omega (arith, length-reverse ys)))
      ∙ sym (ap (drop (length ys - n)) (reverse-append (y ∷ []) ys))
      ∙ ap (λ k. drop k (reverse (y ∷ ys))) (fewer (length ys) n)

  -- The first elements from the other end are the last ones.
  pub reverse-take-reverse :
      (n : ℕ) (xs : List A) → reverse (take n (reverse xs)) ≡ drop (length xs - n) xs
  reverse-take-reverse n xs =
      reverse-take n (reverse xs)
      ∙ ap (λ k. drop (k - n) (reverse (reverse xs))) (length-reverse xs)
      ∙ ap (drop (length xs - n)) (reverse-reverse xs)

  pub take-take-suc : (n : ℕ) (xs : List A) → take n (take (suc n) xs) ≡ take n xs
  take-take-suc zero xs = refl
  take-take-suc (suc n) [] = refl
  take-take-suc (suc n) (x ∷ xs) = ap (λ l. x ∷ l) (take-take-suc n xs)

  pub take_whole : (n : ℕ) (xs : List A) → length xs ≤ n → take n xs ≡ xs
  take_whole zero [] h = refl
  take_whole zero (x ∷ xs) h = absurd (omega arith)
  take_whole (suc n) [] h = refl
  take_whole (suc n) (x ∷ xs) h = ap (λ l. x ∷ l) (take_whole n xs (omega arith))

  pub take-drop : (n : ℕ) (xs : List A) → take n xs ++ drop n xs ≡ xs
  take-drop zero xs = refl
  take-drop (suc n) [] = refl
  take-drop (suc n) (x ∷ xs) = ap (λ l. x ∷ l) (take-drop n xs)

  -- One element more than the limit tells whether there are more.
  pub ltb-length-take : (n : ℕ) (xs : List A) → ltb n (length (take (suc n) xs)) ≡ ltb n (length xs)
  ltb-length-take n [] = refl
  ltb-length-take zero (x ∷ xs) = ground arith
  ltb-length-take (suc n) (x ∷ xs) = ground (arith, ltb-length-take n xs)
