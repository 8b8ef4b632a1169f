-- ===== src/Handler/Envelope.antt =====
-- packages/c/sshnpd/src/handler_commons.c: the envelope of a request, its signature and contents.
pub mod Contents
pub mod Signature
use zettahealthonramp.Base.{
  String, not, ◌&&◌, Option, none, some, [], ◌∷◌, if◌then◌else◌, is_some, Text, codes, str_eq,
}
use zettahealthonramp.Code.{is_zero, success, failure, minus_one, ℤ}
use zettahealthonramp.Handler.World.{
  logged, return, ◌>>=◌, ◌>>◌, emit, deref, Notification, World, Trace, decrypted_json, envelope,
  public_atkey, key_buffer, public_key, payload_string, alloc, free, done,
}

pub data PayloadType : Type 0 where
  payload_type_ssh payload_type_npt : PayloadType

module _ (W : World) where
  open W use {
    Json, parse, get_item, is_object, is_string, is_number, is_bool, is_true, is_positive,
    string_value, print, allocates, create_public_key, get_public_key, fetched_key,
    populate_public_key, base64_decode, base64_decoded, rsa_verify,
  }

  unfoldable pub item : String → Json → Json
  item k j = get_item j (codes k)

  -- The flag of the object test is written over by that of the session id; for ssh that one is
  -- written over in its turn.
  unfoldable pub verify_payload_contents : Json → PayloadType → ℤ
  verify_payload_contents payload payload_type_ssh =
      if not (is_bool (item "direct" payload))
      then failure
      else if not (is_true (item "direct" payload))
      then failure
      else if not (is_string (item "host" payload) && is_number (item "port" payload))
      then failure
      else success
  verify_payload_contents payload payload_type_npt =
      if not (
        is_string (item "sessionId" payload)
        && is_string (item "rvdHost" payload)
        && is_number (item "rvdPort" payload)
        && is_string (item "requestedHost" payload)
        && is_number (item "requestedPort" payload)
        && is_positive (item "requestedPort" payload))
      then failure
      else success

  unfoldable pub verify_envelope_contents : Json → PayloadType → ℤ
  unfolding verify_payload_contents
  verify_envelope_contents envelope_json type =
      if not (is_object envelope_json)
      then failure
      else if not (
          is_object (item "payload" envelope_json)
          && is_string (item "signature" envelope_json)
          && is_string (item "hashingAlgo" envelope_json)
          && is_string (item "signingAlgo" envelope_json))
      then failure
      else verify_payload_contents (item "payload" envelope_json) type

  unfoldable pub parse_envelope : Text → Trace (Option Json)
  parse_envelope text = if not (allocates decrypted_json) then return none else elim (parse text) [
    | none ↦ done none (alloc decrypted_json ∷ free decrypted_json ∷ [])
    | some j ↦ done (some j) (alloc decrypted_json ∷ free decrypted_json ∷ alloc envelope ∷ [])
  ]

  unfoldable pub extract_envelope_from_notification : Notification → Trace (Option Json)
  unfolding parse_envelope
  extract_envelope_from_notification n =
      if not n.from_initialized && is_some n.from
      then return none
      else if not n.value_initialized && is_some n.decrypted_value
      then return none
      else (deref n.decrypted_value >>= λ text. parse_envelope text)

  pub signature_code : ℤ → ℤ
  signature_code res = if is_zero res then success else minus_one

  -- The key, the payload, the signature; a null name of an algorithm is followed.
  unfoldable pub verify_envelope_signature :
      Text → Text → Text → Option Text → Option Text → Trace ℤ
  unfolding signature_code
  verify_envelope_signature key payload signature hashing_algo signing_algo =
      deref hashing_algo >>= λ h.
      if not (str_eq h (codes "sha256"))
      then return minus_one
      else (deref signing_algo >>= λ s.
          if not (str_eq s (codes "rsa2048"))
          then return minus_one
          else return (signature_code (rsa_verify key payload signature)))

  -- Once the signature is decoded.
  unfoldable pub verify_decoded : Json → Text → Text → Trace ℤ
  verify_decoded envelope_json key signature = do
    emit (alloc payload_string)
    payload ← deref (print (item "payload" envelope_json))
    res ←
        verify_envelope_signature key payload signature
          (string_value (item "hashingAlgo" envelope_json))
          (string_value (item "signingAlgo" envelope_json))
    emit (free key_buffer)
    emit (free public_key)
    emit (free payload_string)
    return res

  -- Once the public key is there; a null signature is followed.
  unfoldable pub verify_with_key : Json → Text → Trace ℤ
  verify_with_key envelope_json key =
      if not (is_zero (populate_public_key key))
      then return failure
      else (deref (string_value (item "signature" envelope_json)) >>= λ signature.
          if not (is_zero (base64_decode signature))
          then done failure (free key_buffer ∷ [])
          else verify_decoded envelope_json key (base64_decoded signature))

  unfoldable pub verify_envelope_signature_from : Json → Option Text → Trace ℤ
  verify_envelope_signature_from envelope_json requesting_atsign =
      if not (is_zero (create_public_key requesting_atsign))
      then done failure (alloc public_atkey ∷ [])
      else if not (is_zero (get_public_key requesting_atsign))
      then done failure (alloc public_atkey ∷ free public_atkey ∷ [])
      else logged
          (alloc public_atkey ∷ alloc key_buffer ∷ free public_atkey ∷ alloc public_key ∷ [])
          (verify_with_key envelope_json (fetched_key requesting_atsign))
