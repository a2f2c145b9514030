-- ===== src/Completion/Gather.antt =====
-- Concatenated lists, up to order: the errors of a batch are those of its values.
use grafast_py.Prelude.{List, [], ◌∷◌, ◌++◌, map, ◌≡◌, refl, ap, subst}
use mathlib.Core.List.{Perm, append_assoc, perm_append_comm}
use mathlib.Core.List.Perm
use grafast_py.Completion.Reference.{gather}

module _ {A : Type 0} where
  pub perm_of_eq : {xs ys : List A} → xs ≡ ys → Perm xs ys
  perm_of_eq {xs = xs} e = subst (λ l. Perm xs l) e (Perm.refl xs)

  pub perm_swap_front : (xs ys zs : List A) → Perm (xs ++ (ys ++ zs)) (ys ++ (xs ++ zs))
  perm_swap_front xs ys zs =
      subst (λ l. Perm l (ys ++ (xs ++ zs))) (append_assoc xs ys zs)
        (subst (λ l. Perm (xs ++ ys ++ zs) l) (append_assoc ys xs zs)
          (Perm.append_right zs (perm_append_comm xs ys)))

  pub perm_swap_middle : (a b c d : List A) → Perm (a ++ b ++ (c ++ d)) (a ++ c ++ (b ++ d))
  perm_swap_middle a b c d =
      rw (append_assoc a b (c ++ d), append_assoc a c (b ++ d))
        (Perm.append_left a (perm_swap_front b c d))

module _ {A B : Type 0} where
  pub gather-both :
      (f g : A → List B) (xs : List A)
      → Perm (gather (λ x. f x ++ g x) xs) (gather f xs ++ gather g xs)
  gather-both f g [] = Perm.refl []
  gather-both f g (x ∷ xs) =
      Perm.trans (Perm.append_left (f x ++ g x) (gather-both f g xs))
        (perm_swap_middle (f x) (g x) (gather f xs) (gather g xs))

  pub gather-append :
      (f : A → List B) (xs ys : List A) → gather f (xs ++ ys) ≡ gather f xs ++ gather f ys
  gather-append f [] ys = refl
  gather-append f (x ∷ xs) ys =
      rw (gather-append f xs ys, append_assoc (f x) (gather f xs) (gather f ys)) refl

  pub gather_nil : (xs : List A) → gather {B = B} (λ x. []) xs ≡ []
  gather_nil [] = refl
  gather_nil (x ∷ xs) = gather_nil xs

  pub gather-map :
      {C : Type 0} (f : C → List B) (g : A → C) (xs : List A)
      → gather f (map g xs) ≡ gather (λ x. f (g x)) xs
  gather-map f g [] = refl
  gather-map f g (x ∷ xs) = ap (λ l. f (g x) ++ l) (gather-map f g xs)

  pub gather_congr :
      {f g : A → List B} → ((x : A) → f x ≡ g x) → (xs : List A) → gather f xs ≡ gather g xs
  gather_congr h [] = refl
  gather_congr h (x ∷ xs) = rw (h x, gather_congr h xs) refl
