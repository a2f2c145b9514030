-- ===== src/Loading/ByType.antt =====
-- The entries of a bucket by type (src/grafast_py/core_steps.py, `NodeStep`): the keys of one type, in
-- the order of its entries.
use grafast_py.Prelude.{
  String, Bool, true, false, Option, none, some, List, [], ◌∷◌, ◌++◌, str_eq, if◌then◌else◌, ◌≡◌,
  refl, ap, arith, Bool-cases, inl, inr, eq_iff,
}
use mathlib.Core.List.{append_assoc}
use grafast_py.Loading.Nodes.{NodeKey, Route, add_node_key, error_at, partition, routed_to}

module _ {J : Type 0} where
  -- The keys of one type, in the entries' order.
  abbrev pub keys_if : Bool → NodeKey J → List (NodeKey J) → List (NodeKey J)
  keys_if true k ks = k ∷ ks
  keys_if false k ks = ks

  -- The keys of a type so far, with those that follow.
  abbrev pub plus : Option (List (NodeKey J)) → List (NodeKey J) → Option (List (NodeKey J))
  plus o [] = o
  plus none (k ∷ ks) = some (k ∷ ks)
  plus (some js) (k ∷ ks) = some (js ++ k ∷ ks)

  unfoldable pub keys_of : String → List (String × List (NodeKey J)) → Option (List (NodeKey J))
  keys_of n [] = none
  keys_of n ((m, ks) ∷ groups) = let rest = keys_of n groups in if str_eq m n then some ks else rest

  plus_cons :
      (o : Option (List (NodeKey J))) (k : NodeKey J) (ks : List (NodeKey J))
      → plus (plus o (k ∷ [])) ks ≡ plus o (k ∷ ks)
  plus_cons none k [] = refl
  plus_cons none k (j ∷ ks) = refl
  plus_cons (some js) k [] = refl
  plus_cons (some js) k (j ∷ ks) = ap some (append_assoc js (k ∷ []) (j ∷ ks))

  keys_of-add_node_key :
      (n m : String) (k : NodeKey J) (groups : List (String × List (NodeKey J)))
      → keys_of n (add_node_key m k groups) ≡ plus (keys_of n groups) (keys_if (str_eq m n) k [])
  unfolding keys_of add_node_key
  keys_of-add_node_key n m k [] = elim (Bool-cases (str_eq m n)) [
    | inl here ↦ rw here refl
    | inr there ↦ rw there refl
  ]
  keys_of-add_node_key n m k ((p, ks) ∷ groups) = elim (Bool-cases (str_eq p m)) [
    | inl here ↦ elim (Bool-cases (str_eq m n)) [
      | inl same ↦ rw (here, (eq_iff p m).0 here, same) refl
      | inr other ↦ rw (here, (eq_iff p m).0 here, other) refl
    ]
    | inr there ↦ elim (Bool-cases (str_eq p n)) [
      | inl same ↦
          let ne : str_eq m n ≡ false = ground (arith, eq_iff p m, eq_iff p n, eq_iff m n) in
          rw (there, same, ne) refl
      | inr other ↦ rw (there, other) (keys_of-add_node_key n m k groups)
    ]
  ]

module _ {J E : Type 0} where
  unfoldable pub keys_for : String → List (Route J E) → List (NodeKey J)
  keys_for n [] = []
  keys_for n (error_at e ∷ rs) = keys_for n rs
  keys_for n (routed_to m k ∷ rs) = keys_if (str_eq m n) k (keys_for n rs)

  pub keys_of-partition :
      (n : String) (groups : List (String × List (NodeKey J))) (rs : List (Route J E))
      → keys_of n (partition groups rs) ≡ plus (keys_of n groups) (keys_for n rs)
  unfolding keys_for partition
  keys_of-partition n groups [] = refl
  keys_of-partition n groups (error_at e ∷ rs) = keys_of-partition n groups rs
  keys_of-partition n groups (routed_to m k ∷ rs) = elim (Bool-cases (str_eq m n)) [
    | inl here ↦
        rw
          (
            keys_of-partition n (add_node_key m k groups) rs,
            keys_of-add_node_key n m k groups,
            here,
          )
          (plus_cons (keys_of n groups) k (keys_for n rs))
    | inr there ↦
        rw
          (
            keys_of-partition n (add_node_key m k groups) rs,
            keys_of-add_node_key n m k groups,
            there,
          )
          refl
  ]

  pub keys_for-append :
      (n : String) (ps rs : List (Route J E))
      → keys_for n (ps ++ rs) ≡ keys_for n ps ++ keys_for n rs
  unfolding keys_for
  keys_for-append n [] rs = refl
  keys_for-append n (error_at e ∷ ps) rs = keys_for-append n ps rs
  keys_for-append n (routed_to m k ∷ ps) rs = elim (Bool-cases (str_eq m n)) [
    | inl here ↦ rw (here, keys_for-append n ps rs) refl
    | inr there ↦ rw (there, keys_for-append n ps rs) refl
  ]
