-- ===== src/Loading/GlobalId.antt =====
-- Laws of global ids (src/grafast_py/core_steps.py).
use grafast_py.Prelude.{String, some, List, [], ◌∷◌, ◌≡◌, refl}
use grafast_py.Loading.Defs.{ColumnEntry, returned}
use grafast_py.Loading.Nodes.{GlobalIds, decode_global_id, encode_global_id}

-- JSON, URL-safe base64 and strings come back from their encodings.
pub record RoundTrips {V E J B S : Type 0} (ids : GlobalIds V E J B S) : Type 0 where
  pub loads-dumps :
      (x : J) (xs : List J) → ids.loads_text (ids.dumps (x ∷ xs)) ≡ some (some (x ∷ xs))
  pub decode-encode : (s : B) → ids.b64decode (ids.b64encode s) ≡ some s
  pub as_text-of_text : (s : String) → ids.as_text (ids.of_text s) ≡ some s

module _ {V E J B S : Type 0} (ids : GlobalIds V E J B S) (laws : RoundTrips ids) where
  -- An entry that is the string which a typename and some id parts are encoded to is decoded to that
  -- typename and those parts, where JSON, base64 and strings come back from their encodings.
  pub decode_global_id-encode_global_id :
      (typename : String) (parts : List J) (g : S) (x : ColumnEntry V E)
      → encode_global_id ids typename parts ≡ returned g
      → ids.text_of x ≡ some g
      → decode_global_id ids x ≡ returned (typename, parts)
  decode_global_id-encode_global_id typename [] g x h t = cc
  decode_global_id-encode_global_id typename (p ∷ parts) g x h t =
      let same : g ≡ ids.b64encode (ids.dumps (ids.of_text typename ∷ p ∷ parts)) = cc in
      rw
        (
          t,
          same,
          laws.decode-encode (ids.dumps (ids.of_text typename ∷ p ∷ parts)),
          laws.loads-dumps (ids.of_text typename) (p ∷ parts),
          laws.as_text-of_text typename,
        )
        refl
