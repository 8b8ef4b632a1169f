-- ===== src/Handler/Releases.antt =====
-- What the request handlers of packages/c/sshnpd/src release of what they allocate.
pub mod Requests
pub mod Leaks
pub mod Response
pub mod Envelopes
use zettahealthonramp.Base.{
  ℕ, ◌+◌, ◌≡◌, not, ◌&&◌, Option, none, some, [], ◌∷◌, arith, is_some, Text,
}
use zettahealthonramp.Code.{is_zero, failure}
use zettahealthonramp.Handler.World.{
  logged, return, ◌>>=◌, deref, hits, Notification, World, Result, envelope, public_atkey,
  key_buffer, public_key, payload_string, auth_payload, auth_envelope, signing_input,
  rvd_auth_string, session_aes_key, session_iv, session_aes_key_base64, session_iv_base64,
  client_key, session_aes_key_encrypted, response_envelope, response_value, response_atkey, keyname,
  atkey_string, notify_params, alloc, free, failed, got,
}
use zettahealthonramp.Handler.Traces.{
  Moves-logged, Moves-done, Moves-if, Moves-bind, Moves-deref_bind, Moves,
}
use zettahealthonramp.Handler.Envelope.{
  item, parse_envelope, extract_envelope_from_notification, verify_envelope_signature,
  verify_decoded, verify_with_key, verify_envelope_signature_from,
}
use zettahealthonramp.Handler.Session.{
  sign_auth, create_rvd_auth_string, encrypt_iv, encrypt_session, check_key_type,
  setup_rvd_session_encryption, SessionKeys,
}
use zettahealthonramp.Handler.Success.{
  clean_json, send_notification, name_response, sign_response, send_success_payload,
}
use zettahealthonramp.Handler.Request.{asked, auth_if_asked, keys_if_asked}

-- A resource that no failure leaks: neither the atkey, buffer and key of the signature's check, nor
-- the plain session keys, nor the name of the response.
pub record IsKept (r : ℕ) : Type 0 where
  pub no_atkey : hits r public_atkey ≡ 0
  pub no_buffer : hits r key_buffer ≡ 0
  pub no_key : hits r public_key ≡ 0
  pub no_aes_key : hits r session_aes_key ≡ 0
  pub no_iv : hits r session_iv ≡ 0
  pub no_name : hits r keyname ≡ 0

abbrev pub nothing {ℓ} : {A : Type ℓ} → A → ℕ
nothing a = 0

-- What is held for a result.
abbrev pub held_text : ℕ → Result Text → ℕ
held_text r (failed c) = 0
held_text r (got s) = hits r rvd_auth_string

abbrev pub held_base64 : ℕ → Result SessionKeys → ℕ
held_base64 r (failed c) = 0
held_base64 r (got k) = hits r session_aes_key_base64 + hits r session_iv_base64

abbrev pub held_auth : ℕ → Result (Option Text) → ℕ
held_auth r (failed c) = 0
held_auth r (got none) = 0
held_auth r (got (some s)) = hits r rvd_auth_string

abbrev pub held_keys : ℕ → Result (Option SessionKeys) → ℕ
held_keys r (failed c) = 0
held_keys r (got none) = 0
held_keys r (got (some s)) = hits r session_aes_key_base64 + hits r session_iv_base64

abbrev pub held_envelope {ℓ} : {A : Type ℓ} → ℕ → Option A → ℕ
held_envelope r none = 0
held_envelope r (some e) = hits r envelope

module _ (W : World) (r : ℕ) where
  open W use {Json, print, get_item}

  sign_auth-Moves :
      (payload : Json) (input : Text)
      → Moves r
          (hits r auth_payload + hits r auth_envelope)
          (held_text r)
          (sign_auth W payload input)
  unfolding sign_auth
  sign_auth-Moves payload input = ground arith

  create_rvd_auth_string-Moves :
      (payload : Json) → Moves r 0 (held_text r) (create_rvd_auth_string W payload)
  unfolding create_rvd_auth_string
  create_rvd_auth_string-Moves payload = Moves-if r 0 _ _ _ _ (Moves-done r 0 _ _ _ (omega arith)) (
      Moves-logged r 0 (hits r auth_payload + (hits r auth_envelope + hits r signing_input)) _
        (alloc auth_payload ∷ alloc auth_envelope ∷ alloc signing_input ∷ []) _ (omega arith)
        (Moves-deref_bind r _ _ _ _ (λ input.
          Moves-logged r _ (hits r auth_payload + hits r auth_envelope) _ (free signing_input ∷ [])
            _ (omega arith) (sign_auth-Moves payload input))))

  module _ (k : IsKept r) where
    encrypt_iv-Moves :
        (pk : Text)
        → Moves r
            (hits r client_key + hits r session_aes_key_base64)
            (held_base64 r)
            (encrypt_iv W pk)
    unfolding encrypt_iv
    encrypt_iv-Moves pk = ground arith

    encrypt_session-Moves : (pk : Text) → Moves r 0 (held_base64 r) (encrypt_session W pk)
    unfolding encrypt_session
    encrypt_session-Moves pk = ground (
      arith,
      encrypt_iv-Moves pk,
      Moves-logged r 0 (hits r client_key + hits r session_aes_key_base64) (held_base64 r)
          (alloc client_key
            ∷ alloc session_aes_key_encrypted
            ∷ alloc session_aes_key_base64
            ∷ free session_aes_key_encrypted
            ∷ [])
          (encrypt_iv W pk),
    )

    check_key_type-Moves :
        (pk : Option Text) (pk_type : Text)
        → Moves r 0 (held_base64 r) (check_key_type W pk pk_type)
    unfolding check_key_type
    check_key_type-Moves pk pk_type =
        Moves-if r 0 (held_base64 r) _ _ _
          (Moves-deref_bind r 0 (held_base64 r) pk _ (λ k. encrypt_session-Moves k))
          (Moves-done r 0 (held_base64 r) (failed failure) [] (omega arith))

    typed-Moves :
        (payload : Json)
        → Moves r 0 (held_base64 r) (
            logged (alloc session_aes_key ∷ alloc session_iv ∷ []) (
              deref (W.string_value (item W "clientEphemeralPKType" payload)) >>= λ pk_type.
              check_key_type W (W.string_value (item W "clientEphemeralPK" payload)) pk_type))
    typed-Moves payload =
        Moves-logged r 0 0 (held_base64 r) (alloc session_aes_key ∷ alloc session_iv ∷ []) _
          (omega arith)
          (Moves-deref_bind r 0 (held_base64 r)
            (W.string_value (item W "clientEphemeralPKType" payload)) _
            (λ t. check_key_type-Moves _ t))

    setup-Moves :
        (payload : Json) → Moves r 0 (held_base64 r) (setup_rvd_session_encryption W payload)
    unfolding setup_rvd_session_encryption
    setup-Moves payload = ground (arith, typed-Moves payload)

    asked_text : (a : Result Text) → Moves r (held_text r a) (held_auth r) (return (asked a))
    asked_text (failed c) = Moves-done r _ (held_auth r) (failed c) [] (omega arith)
    asked_text (got s) = Moves-done r _ (held_auth r) (got (some s)) [] (omega arith)

    asked_keys :
        (a : Result SessionKeys) → Moves r (held_base64 r a) (held_keys r) (return (asked a))
    asked_keys (failed c) = Moves-done r _ (held_keys r) (failed c) [] (omega arith)
    asked_keys (got s) = Moves-done r _ (held_keys r) (got (some s)) [] (omega arith)

    pub auth_if_asked-Moves : (payload : Json) → Moves r 0 (held_auth r) (auth_if_asked W payload)
    unfolding auth_if_asked
    auth_if_asked-Moves payload =
        Moves-if r 0 (held_auth r) _ _ _
          (Moves-bind r 0 (held_text r) (held_auth r) _ _ (create_rvd_auth_string-Moves payload)
            asked_text)
          (Moves-done r 0 (held_auth r) (got none) [] (omega arith))

    pub keys_if_asked-Moves : (payload : Json) → Moves r 0 (held_keys r) (keys_if_asked W payload)
    unfolding keys_if_asked
    keys_if_asked-Moves payload =
        Moves-if r 0 (held_keys r) _ _ _
          (Moves-bind r 0 (held_base64 r) (held_keys r) _ _ (setup-Moves payload) asked_keys)
          (Moves-done r 0 (held_keys r) (got none) [] (omega arith))
