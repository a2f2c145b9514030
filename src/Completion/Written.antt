-- ===== src/Completion/Written.antt =====
-- The shapes that each part of completion leaves (src/grafast_py/completion.py, src/grafast_py/execute.py).
use grafast_py.Prelude.{
  ℕ, String, Bool, true, false, none, some, List, [], ◌∷◌, map, str_eq, ◌≡◌, refl, eq_refl, eq_iff,
  subst, ◌∙◌, All, sym, arith,
}
use grafast_py.Completion.Defs.{
  Collected, Completed, Completer, Dict, FieldPlans, Json, Parent, Raw, Shape, Slot, Status, Types,
  array, bubble, dead, dict, done, empty, entry, field, invalid, is_non_null, kept, leaf, list,
  live, no_fields, non_null, nothing, null, object, of_collected, prepend, returns, raises,
  set_entry, spread, stopped, write_value, Attempt, absent, failed, value, collect_items, FieldPath,
}
use grafast_py.Completion.Loops.{complete_leaf, enforce_non_null, serialized}
use grafast_py.Completion.Reference.{Outcome, field_value, list_value}
use grafast_py.Completion.Conforms.{
  AllItems, Conforms, ConformsFields, Found, IsAbsent, IsLeaf, IsListOf, IsPresent, IsSound, lookup,
}

module _ {J : Type 0} where
  lookup_same : (k : String) (v : Json J) (d : Dict J) → lookup k (set_entry k v d) ≡ some v
  unfolding set_entry
  lookup_same k v empty = rw (eq_refl k) refl
  lookup_same k v (entry j w d) = ground (arith, lookup_same k v d)

  lookup_other :
      (n k : String) (v : Json J) (d : Dict J)
      → str_eq n k ≡ false
      → lookup k (set_entry n v d) ≡ lookup k d
  unfolding set_entry
  lookup_other n k v empty h = rw h refl
  lookup_other n k v (entry j w d) h = ground (arith, lookup_other n k v d h, eq_iff j n)

module _ {J E : Type 0} (P : Json J → Type 0) where
  abbrev IsSoundList : Collected J E → Type 0
  IsSoundList (kept js) = AllItems P js
  IsSoundList (stopped b) = Unit

  -- Items that are not of a non-null type may be null.
  prepend-IsSound :
      (j : Json J) (c : Collected J E) → P j → IsSoundList c → IsSoundList (prepend j c)
  prepend-IsSound j (kept js) h k = (h, k)
  prepend-IsSound j (stopped b) h k = tt

  collect_items-IsSound :
      (nn : Bool) (cs : List (Completed J E))
      → (nn ≡ false → P null)
      → All (IsSound P) cs
      → IsSoundList (collect_items nn cs).0
  unfolding collect_items
  collect_items-IsSound nn [] null_ok h = tt
  collect_items-IsSound nn (done j ∷ cs) null_ok (h, hs) =
      prepend-IsSound j _ h (collect_items-IsSound nn cs null_ok hs)
  collect_items-IsSound true (bubble b ∷ cs) null_ok h = tt
  collect_items-IsSound false (bubble b ∷ cs) null_ok (h, hs) =
      prepend-IsSound null _ (null_ok refl) (collect_items-IsSound false cs null_ok hs)

  of_collected-IsSound : (c : Collected J E) → IsSoundList c → IsSound (IsListOf P) (of_collected c)
  of_collected-IsSound (kept js) h = h
  of_collected-IsSound (stopped b) h = tt

module _ {V J E : Type 0} (P : Json J → Type 0) where
  pub All-IsSound :
      (F : Slot V E → Completed J E)
      → ((s : Slot V E) → IsSound P (F s))
      → (ss : List (Slot V E)) → All (IsSound P) (map F ss)
  All-IsSound F h [] = tt
  All-IsSound F h (s ∷ ss) = (h s, All-IsSound F h ss)

  pub list_value-IsSound :
      (nn : Bool) (f : Slot V E → Outcome J E) (sh : Shape V E)
      → (nn ≡ false → P null)
      → ((s : Slot V E) → IsSound P (f s).0)
      → IsSound (IsListOf P) (list_value nn f sh).0
  list_value-IsSound nn f (invalid b) null_ok h = tt
  list_value-IsSound nn f nothing null_ok h = tt
  list_value-IsSound nn f (spread ss) null_ok h =
      of_collected-IsSound P _ (
        collect_items-IsSound P nn (map (λ s. (f s).0) ss) null_ok
          (All-IsSound (λ s. (f s).0) h ss))

  module _ {T O : Type 0} (types : Types V J T O E) where
    pub enforce_non_null-IsSound :
        (label : String) (path : FieldPath) (c : Completed J E)
        → IsSound P c
        → IsSound (λ j. IsPresent j × P j) (enforce_non_null types label path c)
    enforce_non_null-IsSound label path (bubble b) h = tt
    enforce_non_null-IsSound label path (done null) h = tt
    enforce_non_null-IsSound label path (done (leaf x)) h = (tt, h)
    enforce_non_null-IsSound label path (done (array js)) h = (tt, h)
    enforce_non_null-IsSound label path (done (dict d)) h = (tt, h)

module _ {V J T O E : Type 0} (types : Types V J T O E) where
  serialized-IsSound :
      (t : T) (v : V) (path : FieldPath) (a : Attempt J E)
      → IsSound IsLeaf (serialized types t v path a)
  serialized-IsSound t v path (returns none) = tt
  serialized-IsSound t v path (returns (some j)) = tt
  serialized-IsSound t v path (raises e) = tt

  pub complete_leaf-IsSound :
      (t : T) (path : FieldPath) (r : Raw V E) → IsSound IsLeaf (complete_leaf types t path r)
  complete_leaf-IsSound t path absent = tt
  complete_leaf-IsSound t path (failed e) = tt
  complete_leaf-IsSound t path (value v) = serialized-IsSound t v path (types.serialize t v)

module _ {J E : Type 0} where
  -- What writing one field makes of a status, of which `P` holds: it stays dead, and a
  -- live dict has it and keeps what has another name.
  abbrev pub IsWritten : (Json J → Type 0) → String → Status J E → Status J E → Type 0
  IsWritten P n s (dead b) = Unit
  IsWritten P n (dead b) (live d') = ⊥
  IsWritten P n (live d) (live d') =
      Found P (lookup n d') × ((k : String) → str_eq n k ≡ false → lookup k d' ≡ lookup k d)

module _ {J : Type 0} where
  set_entry-IsWritten :
      (E : Type 0) (P : Json J → Type 0) (n : String) (j : Json J) (d : Dict J)
      → P j
      → IsWritten {E = E} P n (live d) (live (set_entry n j d))
  set_entry-IsWritten E P n j d h =
      (subst (Found P) (sym (lookup_same n j d)) h, λ k. lookup_other n k j d)

module _ {J E : Type 0} where
  write_value-IsWritten :
      (P : Json J → Type 0) (nn : Bool) (n : String) (d : Dict J) (c : Completed J E)
      → (nn ≡ false → P null)
      → IsSound P c
      → IsWritten P n (live d) (write_value nn n d c).0
  unfolding write_value
  write_value-IsWritten P nn n d (done j) null_ok h = set_entry-IsWritten E P n j d h
  write_value-IsWritten P true n d (bubble b) null_ok h = tt
  write_value-IsWritten P false n d (bubble b) null_ok h =
      set_entry-IsWritten E P n null d (null_ok refl)

  pub field_value-IsWritten :
      {V : Type 0} (P : Json J → Type 0) (nn : Bool) (n : String) (f : Slot V E → Outcome J E)
      (p : Parent V) (s : Status J E) (r : Raw V E)
      → (nn ≡ false → P null)
      → ((x : Slot V E) → IsSound P (f x).0)
      → IsWritten P n s (field_value nn n f p s r).0.status
  field_value-IsWritten P nn n f p (dead b) r null_ok h = tt
  field_value-IsWritten P nn n f p (live d) r null_ok h =
      write_value-IsWritten P nn n d _ null_ok (h _)

module _ {T O L J E : Type 0} where
  -- The same for the fields `fs`.
  abbrev pub IsFilled : FieldPlans T O L → Status J E → Status J E → Type 0
  IsFilled fs s (dead b) = Unit
  IsFilled fs (dead b) (live d') = ⊥
  IsFilled fs (live d) (live d') =
      ConformsFields fs d' × ((k : String) → IsAbsent k fs → lookup k d' ≡ lookup k d)

  pub fill_after :
      (n : String) (step : ℕ) (c : Completer T O L) (label : String) (rest : FieldPlans T O L)
      (s s1 s2 : Status J E)
      → IsAbsent n rest
      → IsWritten (Conforms c) n s s1
      → IsFilled rest s1 s2
      → IsFilled (field n step c label rest) s s2
  unfolding Conforms ConformsFields
  fill_after n step c label rest s s1 (dead b) a w f = tt
  fill_after n step c label rest s (dead b) (live d2) a w f = absurd f
  fill_after n step c label rest (dead b) (live d1) (live d2) a w f = absurd w
  fill_after n step c label rest (live d) (live d1) (live d2) a (found, same) (conf, same') =
      ((subst (Found (Conforms c)) (sym (same' n a)) found, conf), λ k h. same' k h.1 ∙ same k h.0)

module _ (T O L : Type 0) {J E : Type 0} where
  pub IsFilled-no_fields : (s : Status J E) → IsFilled {T = T} {O = O} {L = L} no_fields s s
  unfolding ConformsFields
  IsFilled-no_fields (dead b) = tt
  IsFilled-no_fields (live d) = (tt, λ k h. refl)

module _ {T O L : Type 0} (J : Type 0) where
  pub null-Conforms : (c : Completer T O L) → is_non_null c ≡ false → Conforms {J = J} c null
  unfolding Conforms
  null-Conforms (leaf t) h = tt
  null-Conforms (object o l fs) h = tt
  null-Conforms (list c) h = tt
  null-Conforms (non_null c) h = cc
