-- ===== src/Handler/Envelope/Signature.antt =====
-- When the signature of an envelope is accepted.
use zettahealthonramp.Base.{
  ◌≡◌, refl, inl, inr, Option, none, some, [], ◌∷◌, arith, Option-cases, Text, codes, str_eq_iff,
}
use zettahealthonramp.Code.{success, is_zero_iff}
use zettahealthonramp.Handler.World.{
  value, World, public_atkey, key_buffer, public_key, alloc, free,
}
use zettahealthonramp.Handler.Traces.{value-logged}
use zettahealthonramp.Handler.Envelope.{
  item, verify_envelope_signature, verify_decoded, verify_with_key, verify_envelope_signature_from,
}

module _ (W : World) where
  open W use {
    Json, string_value, print, get_public_key, fetched_key, create_public_key, populate_public_key,
    base64_decode, base64_decoded, rsa_verify,
  }

  -- The printed payload carries an RSA signature over SHA-256 by the key published for `atsign`.
  pub record IsSigned (e : Json) (atsign : Option Text) : Type 0 where
    pub signature : Text
    pub payload : Text
    pub signature_is : string_value (item W "signature" e) ≡ some signature
    pub payload_is : print (item W "payload" e) ≡ some payload
    pub hashing_is : string_value (item W "hashingAlgo" e) ≡ some (codes "sha256")
    pub signing_is : string_value (item W "signingAlgo" e) ≡ some (codes "rsa2048")
    pub key_named : create_public_key atsign ≡ success
    pub key_fetched : get_public_key atsign ≡ success
    pub key_read : populate_public_key (fetched_key atsign) ≡ success
    pub decoded : base64_decode signature ≡ success
    pub verified : rsa_verify (fetched_key atsign) payload (base64_decoded signature) ≡ success

  verify_envelope_signature-success :
      (key payload signature : Text) (h s : Option Text)
      → value (verify_envelope_signature W key payload signature h s) ≡ some success
      → (h ≡ some (codes "sha256"))
        × (s ≡ some (codes "rsa2048"))
        × (rsa_verify key payload signature ≡ success)
  unfolding verify_envelope_signature
  verify_envelope_signature-success key payload signature none s e = cc
  verify_envelope_signature-success key payload signature (some h) none e =
      ground (arith, str_eq_iff h (codes "sha256"))
  verify_envelope_signature-success key payload signature (some h) (some s) e = ground (
    arith,
    str_eq_iff h (codes "sha256"),
    str_eq_iff s (codes "rsa2048"),
    is_zero_iff (rsa_verify key payload signature),
  )

  verify_decoded-success :
      (e : Json) (key signature : Text) (payload : Option Text)
      → print (item W "payload" e) ≡ payload
      → value (verify_decoded W e key signature) ≡ some success
      → (t : Text) × (payload ≡ some t)
        × (value (
              verify_envelope_signature W key t signature
                (string_value (item W "hashingAlgo" e))
                (string_value (item W "signingAlgo" e)))
            ≡ some success)
  unfolding verify_decoded
  verify_decoded-success e key signature none h v = ground arith
  verify_decoded-success e key signature (some t) h v = (t, refl, ground arith)

  decoded-success :
      (e : Json) (key : Text)
      → value (verify_with_key W e key) ≡ some success
      → (populate_public_key key ≡ success)
        × (signature : Text) × (string_value (item W "signature" e) ≡ some signature)
        × (base64_decode signature ≡ success)
        × (value (verify_decoded W e key (base64_decoded signature)) ≡ some success)
  unfolding verify_with_key
  decoded-success e key v = elim (Option-cases (string_value (item W "signature" e))) [
    | inl h ↦ absurd (ground (arith, is_zero_iff (populate_public_key key)))
    | inr (s, h) ↦ (
      ground (arith, is_zero_iff (populate_public_key key)),
      s,
      h,
      ground (arith, is_zero_iff (base64_decode s)),
      ground (arith, is_zero_iff (base64_decode s)),
    )
  ]

  with_key-success :
      (e : Json) (atsign : Option Text)
      → value (verify_envelope_signature_from W e atsign) ≡ some success
      → (create_public_key atsign ≡ success)
        × (get_public_key atsign ≡ success)
        × (value (verify_with_key W e (fetched_key atsign)) ≡ some success)
  unfolding verify_envelope_signature_from
  with_key-success e atsign v = ground (
    arith,
    is_zero_iff (create_public_key atsign),
    is_zero_iff (get_public_key atsign),
    value-logged (alloc public_atkey ∷ alloc key_buffer ∷ free public_atkey ∷ alloc public_key ∷ [])
        (verify_with_key W e (fetched_key atsign)),
  )

  -- A signature that is accepted was verified over the printed payload of this envelope, with the
  -- public key that was fetched for the atSign the notification comes from.
  pub verify_envelope_signature_from-IsSigned :
      (e : Json) (atsign : Option Text)
      → value (verify_envelope_signature_from W e atsign) ≡ some success
      → IsSigned e atsign
  verify_envelope_signature_from-IsSigned e atsign v =
      let (key_named, key_fetched, with_key) = with_key-success e atsign v in
      let (key_read, signature, signature_is, decoded, rest) =
        decoded-success e (fetched_key atsign) with_key in
      let (payload, payload_is, checked) =
        verify_decoded-success e (fetched_key atsign) (base64_decoded signature)
          (print (item W "payload" e)) refl rest in
      let (hashing_is, signing_is, verified) =
        verify_envelope_signature-success (fetched_key atsign) payload (base64_decoded signature) _
          _ checked in
      record {
        signature = signature;
        payload = payload;
        signature_is = signature_is;
        payload_is = payload_is;
        hashing_is = hashing_is;
        signing_is = signing_is;
        key_named = key_named;
        key_fetched = key_fetched;
        key_read = key_read;
        decoded = decoded;
        verified = verified;
      }
