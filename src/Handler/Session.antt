-- ===== src/Handler/Session.antt =====
-- packages/c/sshnpd/src/handler_commons.c: the auth string for the relay, and the session keys.
pub mod Recovery
use zettahealthonramp.Base.{
  not, ◌&&◌, Option, none, some, List, [], ◌∷◌, ◌==◌, if◌then◌else◌, Text, codes, length, strncmp,
}
use zettahealthonramp.Code.{is_zero, failure}
use zettahealthonramp.Handler.World.{
  logged, return, ◌>>=◌, deref, Event, World, Result, Trace, auth_payload, auth_envelope,
  signing_input, rvd_auth_string, session_aes_key, session_iv, session_aes_key_base64,
  session_iv_base64, client_key, session_aes_key_encrypted, session_iv_encrypted, alloc, free,
  failed, got, done,
}
use zettahealthonramp.Handler.Envelope.{item}

-- The keys of a session in base64: plain for srv, and encrypted for the client.
pub record SessionKeys : Type 0 where
  pub aes_key : Text
  pub iv : Text
  pub aes_key_base64 : Text
  pub iv_base64 : Text

abbrev pub delete_auth : List Event
delete_auth = free auth_payload ∷ free auth_envelope ∷ []

abbrev pub free_keys : List Event
free_keys = free session_aes_key ∷ free session_iv ∷ []

abbrev pub free_key_base64 : List Event
free_key_base64 =
    free client_key ∷ free session_aes_key ∷ free session_iv ∷ free session_aes_key_base64 ∷ []

module _ (W : World) where
  open W use {
    Json, is_string, string_value, string, object, print, allocates, populate_public_key,
    base64_encode, base64_encoded, rsa_sign, rsa_signature, rsa_encrypt, rsa_encrypted,
    generate_key, generated_key, generate_iv, generated_iv,
  }

  -- An envelope around a payload, with the base64 form of its signature.
  unfoldable pub sealed : Json → Text → Json
  sealed payload signature = object (
      (codes "payload", payload)
      ∷ (codes "signature", string (some signature))
      ∷ (codes "hashingAlgo", string (some (codes "sha256")))
      ∷ (codes "signingAlgo", string (some (codes "rsa2048")))
      ∷ [])

  unfoldable pub rvd_auth_payload : Json → Json
  rvd_auth_payload payload = object (
      (codes "sessionId", item W "sessionId" payload)
      ∷ (codes "clientNonce", item W "clientNonce" payload)
      ∷ (codes "rvdNonce", item W "rvdNonce" payload)
      ∷ [])

  -- Once the payload is printed.
  unfoldable pub sign_auth : Json → Text → Trace (Result Text)
  unfolding sealed
  sign_auth payload input =
      if not (is_zero (rsa_sign input))
      then done (failed (rsa_sign input)) delete_auth
      else if not (is_zero (base64_encode (rsa_signature input)))
      then done (failed (base64_encode (rsa_signature input))) delete_auth
      else elim (print (sealed (rvd_auth_payload payload) (base64_encoded (rsa_signature input)))) [
        | none ↦ done (failed failure) delete_auth
        | some s ↦ done (got s) (alloc rvd_auth_string ∷ delete_auth)
      ]

  unfoldable pub create_rvd_auth_string : Json → Trace (Result Text)
  create_rvd_auth_string payload =
      if not (is_string (item W "clientNonce" payload) && is_string (item W "rvdNonce" payload))
      then return (failed failure)
      else logged (alloc auth_payload ∷ alloc auth_envelope ∷ alloc signing_input ∷ []) (
          deref (print (rvd_auth_payload payload)) >>= λ input.
          logged (free signing_input ∷ []) (sign_auth payload input))

  abbrev pub encrypted_key : Text → Text
  encrypted_key pk = rsa_encrypted pk (base64_encoded generated_key)

  abbrev pub encrypted_iv : Text → Text
  encrypted_iv pk = rsa_encrypted pk (base64_encoded generated_iv)

  -- The iv under the client's key, once the session key is encrypted.
  unfoldable pub encrypt_iv : Text → Trace (Result SessionKeys)
  encrypt_iv pk =
      if not (allocates session_iv_encrypted)
      then done (failed failure) free_key_base64
      else if not (is_zero (rsa_encrypt pk (base64_encoded generated_iv)))
      then done (failed (rsa_encrypt pk (base64_encoded generated_iv)))
          (alloc session_iv_encrypted ∷ free session_iv_encrypted ∷ free_key_base64)
      else if not (allocates session_iv_base64)
      then done (failed failure)
          (alloc session_iv_encrypted ∷ free session_iv_encrypted ∷ free_key_base64)
      else if not (is_zero (base64_encode (encrypted_iv pk)))
      then done (failed (base64_encode (encrypted_iv pk))) (
          alloc session_iv_encrypted
          ∷ alloc session_iv_base64
          ∷ free session_iv_encrypted
          ∷ free session_iv_base64
          ∷ free_key_base64)
      else done
          (got (record {
            aes_key = base64_encoded generated_key;
            iv = base64_encoded generated_iv;
            aes_key_base64 = base64_encoded (encrypted_key pk);
            iv_base64 = base64_encoded (encrypted_iv pk);
          }))
          (alloc session_iv_encrypted
            ∷ free client_key
            ∷ alloc session_iv_base64
            ∷ free session_iv_encrypted
            ∷ [])

  -- The session key under the client's key.
  unfoldable pub encrypt_session : Text → Trace (Result SessionKeys)
  encrypt_session pk =
      if not (is_zero (populate_public_key pk))
      then done (failed (populate_public_key pk)) (alloc client_key ∷ free client_key ∷ free_keys)
      else if not (allocates session_aes_key_encrypted)
      then done (failed failure) (alloc client_key ∷ free client_key ∷ free_keys)
      else if not (is_zero (rsa_encrypt pk (base64_encoded generated_key)))
      then done (failed (rsa_encrypt pk (base64_encoded generated_key))) (
          alloc client_key
          ∷ alloc session_aes_key_encrypted
          ∷ free client_key
          ∷ free session_aes_key_encrypted
          ∷ free_keys)
      else if not (allocates session_aes_key_base64)
      then done (failed failure) (
          alloc client_key
          ∷ alloc session_aes_key_encrypted
          ∷ free client_key
          ∷ free session_aes_key_encrypted
          ∷ free_keys)
      else if not (is_zero (base64_encode (encrypted_key pk)))
      then done (failed (base64_encode (encrypted_key pk))) (
          alloc client_key
          ∷ alloc session_aes_key_encrypted
          ∷ alloc session_aes_key_base64
          ∷ free session_aes_key_encrypted
          ∷ free_key_base64)
      else logged
          (alloc client_key
            ∷ alloc session_aes_key_encrypted
            ∷ alloc session_aes_key_base64
            ∷ free session_aes_key_encrypted
            ∷ [])
          (encrypt_iv pk)

  -- The switch on the length of the key's type; `pk` is followed only behind it.
  unfoldable pub check_key_type : Option Text → Text → Trace (Result SessionKeys)
  check_key_type pk pk_type =
      if length pk_type == 7 && not (strncmp 7 pk_type (codes "rsa2048"))
      then (deref pk >>= λ k. encrypt_session k)
      else return (failed failure)

  unfoldable pub setup_rvd_session_encryption : Json → Trace (Result SessionKeys)
  setup_rvd_session_encryption payload =
      if not (
        is_string (item W "clientEphemeralPK" payload)
        && is_string (item W "clientEphemeralPKType" payload))
      then return (failed failure)
      else if not (is_zero generate_key)
      then return (failed generate_key)
      else if not (allocates session_aes_key)
      then return (failed failure)
      else if not (is_zero (base64_encode generated_key))
      then done (failed (base64_encode generated_key))
          (alloc session_aes_key ∷ free session_aes_key ∷ [])
      else if not (is_zero generate_iv)
      then done (failed generate_iv) (alloc session_aes_key ∷ free session_aes_key ∷ [])
      else if not (allocates session_iv)
      then done (failed failure) (alloc session_aes_key ∷ free session_aes_key ∷ [])
      else if not (is_zero (base64_encode generated_iv))
      then done (failed (base64_encode generated_iv))
          (alloc session_aes_key ∷ alloc session_iv ∷ free_keys)
      else logged (alloc session_aes_key ∷ alloc session_iv ∷ []) (
          deref (string_value (item W "clientEphemeralPKType" payload)) >>= λ pk_type.
          check_key_type (string_value (item W "clientEphemeralPK" payload)) pk_type)
