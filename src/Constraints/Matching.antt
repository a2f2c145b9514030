-- ===== src/Constraints/Matching.antt =====
-- Laws of `constraints_match` of src/grafast_py/constraints.py.
use grafast_py.Prelude.{
  String, true, List, [], ◌∷◌, ◌++◌, ◌≡◌, refl, arith, eq_iff, length, ap, suc,
}
use grafast_py.Values.{Fields, end, field, keys}
use grafast_py.Values.Equality.{count_fields}
use grafast_py.Constraints.Defs.{
  Constraint, RequestFacts, ok, matches, constraints_match, sorted, insert_sorted, texts_equal,
}

abbrev pub Holds : List Constraint → RequestFacts → Type 0
Holds cs facts = constraints_match cs facts ≡ ok true

pub Holds-append_left :
    (cs ds : List Constraint) (facts : RequestFacts) → Holds (cs ++ ds) facts → Holds cs facts
unfolding constraints_match
Holds-append_left [] ds facts h = refl
Holds-append_left (c ∷ cs) ds facts h = ground (arith, Holds-append_left cs ds facts)

pub Holds-append_right :
    (cs ds : List Constraint) (facts : RequestFacts) → Holds (cs ++ ds) facts → Holds ds facts
unfolding constraints_match
Holds-append_right [] ds facts h = h
Holds-append_right (c ∷ cs) ds facts h = ground (arith, Holds-append_right cs ds facts)

pub Holds-append :
    (cs ds : List Constraint) (facts : RequestFacts)
    → Holds cs facts
    → Holds ds facts
    → Holds (cs ++ ds) facts
unfolding constraints_match
Holds-append [] ds facts h k = k
Holds-append (c ∷ cs) ds facts h k = ground (arith, Holds-append cs ds facts)

pub matches_of-Holds :
    (c : Constraint) (facts : RequestFacts) → Holds (c ∷ []) facts → matches c facts ≡ ok true
unfolding constraints_match
matches_of-Holds c facts h = ground arith

pub Holds-of-matches :
    (c : Constraint) (facts : RequestFacts) → matches c facts ≡ ok true → Holds (c ∷ []) facts
unfolding constraints_match
Holds-of-matches c facts h = ground arith

pub texts_equal→≡ : (as' bs : List String) → texts_equal as' bs ≡ true → as' ≡ bs
unfolding texts_equal
texts_equal→≡ [] [] h = refl
texts_equal→≡ [] (b ∷ bs) h = absurd (ground arith)
texts_equal→≡ (a ∷ as') [] h = absurd (ground arith)
texts_equal→≡ (a ∷ as') (b ∷ bs) h = ground (arith, eq_iff a b, texts_equal→≡ as' bs)

pub texts_equal_self : (as' : List String) → texts_equal as' as' ≡ true
unfolding texts_equal
texts_equal_self [] = refl
texts_equal_self (a ∷ as') = ground (arith, eq_iff a a, texts_equal_self as')

length-insert_sorted :
    (k : String) (ks : List String) → length (insert_sorted k ks) ≡ suc (length ks)
unfolding insert_sorted
length-insert_sorted k [] = refl
length-insert_sorted k (j ∷ ks) = ground (arith, length-insert_sorted k ks)

pub length-sorted : (ks : List String) → length (sorted ks) ≡ length ks
unfolding sorted
length-sorted [] = refl
length-sorted (k ∷ ks) = ground (arith, length-insert_sorted k (sorted ks), length-sorted ks)

pub length-keys : (fs : Fields) → length (keys fs) ≡ count_fields fs
unfolding keys
length-keys end = refl
length-keys (field k v fs) = ap suc (length-keys fs)
