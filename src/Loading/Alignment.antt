-- ===== src/Loading/Alignment.antt =====
-- Laws of `NodeStep` and of global ids (src/grafast_py/core_steps.py): one call for each type gives
-- each entry its own node, and a failure stays with its type or its entry.
use grafast_py.Prelude.{
  ℕ, String, true, Option, none, some, List, [], ◌∷◌, ◌++◌, map, length, length-map, length-append,
  str_eq, ◌≡◌, refl, ap, sym, ◌∙◌, arith, Bool-cases, inl, inr, eq_iff, eq_refl,
}
use mathlib.Core.List.{append_assoc, append-nil, map-map}
use grafast_py.Steps.Defs.{done, outcome}
use grafast_py.Loading.Defs.{ColumnEntry, Called, poisoned, returned, raised}
use grafast_py.Loading.Load.{Loaded, settled}
use grafast_py.Loading.Coalesce.{
  answer, loads, first_entries-length, get_elem?-end, get_elem?-map, eq_self,
}
use grafast_py.Loading.Nodes.{
  Batches, GlobalIds, NodeKey, Route, all_whole, any_pending, batch_of, bump, error_at, is_whole,
  node_execute, partition, place_nodes, route, routed_to, run_loader, run_loaders, scatter_nodes,
  finish_nodes,
}
use grafast_py.Loading.ByType.{keys_for, keys_of, keys_of-partition, keys_for-append, plus}

-- What an entry becomes on its own.
abbrev pub routed_entry :
    {V E J : Type 0}
    → (String → Called (NodeKey J → ColumnEntry V E) E)
    → Route J E
    → ColumnEntry V E
routed_entry behaviour (error_at e) = poisoned e
routed_entry behaviour (routed_to n k) = loads (behaviour n) k

module _ {V E J B S : Type 0} (ids : GlobalIds V E J B S)
    (loaders : String → Option (List (NodeKey J) → Loaded (ColumnEntry V E) E))
    (behaviour : String → Called (NodeKey J → ColumnEntry V E) E)
    (per_type : (n : String) (ks : List (NodeKey J))
      → settled (run_loader ids loaders n ks) ≡ answer (behaviour n) ks) where
  batch_if : String → Option (List (NodeKey J)) → Option (Called (List (ColumnEntry V E)) E)
  batch_if n none = none
  batch_if n (some ks) = some (answer (behaviour n) ks)

  batch_of-run_loaders :
      (n : String) (groups : List (String × List (NodeKey J)))
      → batch_of n (run_loaders ids loaders groups) ≡ batch_if n (keys_of n groups)
  unfolding batch_of run_loaders keys_of batch_if
  batch_of-run_loaders n [] = refl
  batch_of-run_loaders n ((m, ks) ∷ groups) = elim (Bool-cases (str_eq m n)) [
    | inl here ↦ rw (here, per_type m ks, (eq_iff m n).0 here) refl
    | inr there ↦ rw (there, batch_of-run_loaders n groups) refl
  ]

  answer-IsWhole :
      (b : Called (NodeKey J → ColumnEntry V E) E) (ks : List (NodeKey J))
      → is_whole (length ks) (answer b ks) ≡ true
  answer-IsWhole (raised e) ks = refl
  answer-IsWhole (returned f) ks = rw (length-map f ks) (eq_self (length ks))

  run_loaders-whole :
      (groups : List (String × List (NodeKey J)))
      → all_whole (run_loaders ids loaders groups) ≡ true
  unfolding all_whole run_loaders
  run_loaders-whole [] = refl
  run_loaders-whole ((n, ks) ∷ groups) =
      rw (per_type n ks, answer-IsWhole (behaviour n) ks, run_loaders-whole groups) refl

  -- The cursor of each type whose batch came stands behind the entries placed so far.
  abbrev Stands : (String → ℕ) → List (Route J E) → Type 0
  Stands next_pos ps =
      (n : String) (f : NodeKey J → ColumnEntry V E)
      → behaviour n ≡ returned f
      → next_pos n ≡ length (keys_for n ps)

  Stands-bump :
      (next_pos : String → ℕ) (ps : List (Route J E)) (m : String) (k : NodeKey J)
      → Stands next_pos ps
      → Stands (bump m next_pos) (ps ++ routed_to m k ∷ [])
  unfolding keys_for
  Stands-bump next_pos ps m k h n f q = elim (Bool-cases (str_eq m n)) [
    | inl here ↦
        let same : m ≡ n = (eq_iff m n).0 here in
        rw
          (
            keys_for-append n ps (routed_to m k ∷ []),
            here,
            length-append (keys_for n ps) (k ∷ []),
            same,
          )
          (omega (arith, h n f q))
    | inr there ↦
        rw (keys_for-append n ps (routed_to m k ∷ []), there, append-nil (keys_for n ps)) (h n f q)
  ]

  Stands-raised :
      (next_pos : String → ℕ) (ps : List (Route J E)) (m : String) (k : NodeKey J) (e : E)
      → behaviour m ≡ raised e
      → Stands next_pos ps
      → Stands next_pos (ps ++ routed_to m k ∷ [])
  unfolding keys_for
  Stands-raised next_pos ps m k e r h n f q = elim (Bool-cases (str_eq m n)) [
    | inl here ↦
        let both : returned f ≡ raised e = sym q ∙ ap behaviour (sym ((eq_iff m n).0 here)) ∙ r in
        cc
    | inr there ↦
        rw (keys_for-append n ps (routed_to m k ∷ []), there, append-nil (keys_for n ps)) (h n f q)
  ]

  Stands-error :
      (next_pos : String → ℕ) (ps : List (Route J E)) (e : E)
      → Stands next_pos ps
      → Stands next_pos (ps ++ error_at e ∷ [])
  unfolding keys_for
  Stands-error next_pos ps e h n f q =
      rw (keys_for-append n ps (error_at e ∷ []), append-nil (keys_for n ps)) (h n f q)

  plus-none :
      (xs ys : List (NodeKey J)) (k : NodeKey J) → plus none (xs ++ k ∷ ys) ≡ some (xs ++ k ∷ ys)
  plus-none [] ys k = refl
  plus-none (x ∷ xs) ys k = refl

  batch_at :
      (ps rs : List (Route J E)) (n : String) (k : NodeKey J)
      → batch_of n (run_loaders ids loaders (partition [] (ps ++ routed_to n k ∷ rs)))
        ≡ some (answer (behaviour n) (keys_for n ps ++ k ∷ keys_for n rs))
  unfolding keys_for keys_of batch_if
  batch_at ps rs n k =
      rw
        (
          batch_of-run_loaders n (partition [] (ps ++ routed_to n k ∷ rs)),
          keys_of-partition n [] (ps ++ routed_to n k ∷ rs),
          keys_for-append n ps (routed_to n k ∷ rs),
          eq_refl n,
          plus-none (keys_for n ps) (keys_for n rs) k,
        )
        refl

  place_routed :
      (ps rs : List (Route J E)) (next_pos : String → ℕ) (n : String) (k : NodeKey J)
      (b : Called (NodeKey J → ColumnEntry V E) E)
      → behaviour n ≡ b
      → Stands next_pos ps
      → ((pos : String → ℕ)
          → Stands pos (ps ++ routed_to n k ∷ [])
          → place_nodes (run_loaders ids loaders (partition [] (ps ++ routed_to n k ∷ rs))) pos rs
            ≡ some (map (routed_entry behaviour) rs))
      → place_nodes
          (run_loaders ids loaders (partition [] (ps ++ routed_to n k ∷ rs)))
          next_pos
          (routed_to n k ∷ rs)
        ≡ some (map (routed_entry behaviour) (routed_to n k ∷ rs))
  unfolding place_nodes
  place_routed ps rs next_pos n k (raised e) q h rest =
      rw (batch_at ps rs n k, q, rest next_pos (Stands-raised next_pos ps n k e q h)) refl
  place_routed ps rs next_pos n k (returned f) q h rest =
      rw
        (
          batch_at ps rs n k,
          q,
          h n f q,
          rest (bump n next_pos) (Stands-bump next_pos ps n k h),
          get_elem?-map f (keys_for n ps ++ k ∷ keys_for n rs) (length (keys_for n ps)) k
              (get_elem?-end (keys_for n ps) (keys_for n rs) k),
        )
        refl

  place_nodes-each :
      (ps rs : List (Route J E)) (next_pos : String → ℕ)
      → Stands next_pos ps
      → place_nodes (run_loaders ids loaders (partition [] (ps ++ rs))) next_pos rs
        ≡ some (map (routed_entry behaviour) rs)
  unfolding place_nodes
  place_nodes-each ps [] next_pos h = refl
  place_nodes-each ps (error_at e ∷ rs) next_pos h =
      let rest : place_nodes (run_loaders ids loaders (partition [] (ps ++ error_at e ∷ rs)))
            next_pos rs
          ≡ some (map (routed_entry behaviour) rs) =
        rw (sym (append_assoc ps (error_at e ∷ []) rs))
          (place_nodes-each (ps ++ error_at e ∷ []) rs next_pos (Stands-error next_pos ps e h)) in
      rw rest refl
  place_nodes-each ps (routed_to n k ∷ rs) next_pos h =
      place_routed ps rs next_pos n k (behaviour n) refl h (λ pos g.
        rw (sym (append_assoc ps (routed_to n k ∷ []) rs))
          (place_nodes-each (ps ++ routed_to n k ∷ []) rs pos g))

  outcome-finish_nodes :
      (rs : List (Route J E)) (bs : Batches V E)
      → outcome (finish_nodes rs bs) ≡ outcome (scatter_nodes rs bs)
  outcome-finish_nodes rs bs = elim (Bool-cases (any_pending bs)) [
    | inl some_wait ↦ rw some_wait refl
    | inr none_waits ↦ rw none_waits refl
  ]

  nothing_placed : (n : String) → 0 ≡ length (keys_for {J = J} {E = E} n [])
  unfolding keys_for
  nothing_placed n = refl

  -- When each loader, given any keys, raises one exception or gives each key its own node, at once or
  -- awaited, the node step ends with a full column: an entry whose id cannot be decoded or has no
  -- loader has that error, and another entry its node, or the exception of its own type's loader.
  pub node_execute-map :
      (column : List (ColumnEntry V E))
      → outcome (node_execute ids loaders (length column) (column ∷ []))
        ≡ done (map (λ x. routed_entry behaviour (route ids loaders x)) column)
  unfolding node_execute
  node_execute-map column =
      let routes = map (route ids loaders) column in
      rw
        (
          first_entries-length column,
          outcome-finish_nodes routes (run_loaders ids loaders (partition [] routes)),
          run_loaders-whole (partition [] routes),
          place_nodes-each [] routes (λ n. 0) (λ n f q. nothing_placed n),
        )
        (ap done (map-map (routed_entry behaviour) (route ids loaders) column))
