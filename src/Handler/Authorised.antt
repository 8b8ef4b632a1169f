-- ===== src/Handler/Authorised.antt =====
-- When the request handlers of packages/c/sshnpd/src run srv or notify a client.
pub mod Requests
pub mod Outcomes
pub mod Npt
pub mod Completes
pub mod Ssh
use zettahealthonramp.Base.{not, Option, none, some, [], ◌∷◌, arith, Text}
use zettahealthonramp.Code.{is_zero, failure}
use zettahealthonramp.Handler.World.{
  logged, return, ◌>>=◌, deref, Notification, World, Result, public_atkey, key_buffer, public_key,
  payload_string, auth_payload, auth_envelope, signing_input, session_aes_key, session_iv,
  session_aes_key_base64, client_key, session_aes_key_encrypted, alloc, free, failed, got,
}
use zettahealthonramp.Handler.Traces.{
  IsQuiet-done, IsQuiet-logged, IsQuiet-if, IsQuiet-bind, IsQuiet-deref, IsQuiet,
}
use zettahealthonramp.Handler.Envelope.{
  item, parse_envelope, extract_envelope_from_notification, verify_envelope_signature,
  verify_decoded, verify_with_key, verify_envelope_signature_from,
}
use zettahealthonramp.Handler.Session.{
  rvd_auth_payload, sign_auth, create_rvd_auth_string, encrypt_iv, encrypt_session, check_key_type,
  setup_rvd_session_encryption,
}
use zettahealthonramp.Handler.Request.{asked, auth_if_asked, keys_if_asked}

module _ (W : World) where
  open W use {Json, print, string_value}

  verify_envelope_signature-IsQuiet :
      (key payload signature : Text) (h s : Option Text)
      → IsQuiet (verify_envelope_signature W key payload signature h s)
  unfolding verify_envelope_signature
  verify_envelope_signature-IsQuiet key payload signature none s = record { inward = tt }
  verify_envelope_signature-IsQuiet key payload signature (some h) none = ground arith
  verify_envelope_signature-IsQuiet key payload signature (some h) (some s) = ground arith

  verify_decoded-IsQuiet :
      (e : Json) (key signature : Text) → IsQuiet (verify_decoded W e key signature)
  unfolding verify_decoded
  verify_decoded-IsQuiet e key signature =
      IsQuiet-logged (alloc payload_string ∷ []) _ (omega arith) (
        IsQuiet-deref (print (item W "payload" e)) _ (λ payload.
          IsQuiet-bind _ _ (verify_envelope_signature-IsQuiet key payload signature _ _)
            (λ res. ground arith)))

  verify_with_key-IsQuiet : (e : Json) (key : Text) → IsQuiet (verify_with_key W e key)
  unfolding verify_with_key
  verify_with_key-IsQuiet e key =
      IsQuiet-if (not (is_zero (W.populate_public_key key))) _ _ (IsQuiet-done failure [] tt) (
        IsQuiet-deref (string_value (item W "signature" e)) _ (λ signature.
          IsQuiet-if (not (is_zero (W.base64_decode signature))) _ _
            (IsQuiet-done failure (free key_buffer ∷ []) (omega arith))
            (verify_decoded-IsQuiet e key (W.base64_decoded signature))))

  pub verify_envelope_signature_from-IsQuiet :
      (e : Json) (atsign : Option Text) → IsQuiet (verify_envelope_signature_from W e atsign)
  unfolding verify_envelope_signature_from
  verify_envelope_signature_from-IsQuiet e atsign =
      let rest : IsQuiet (
          logged (alloc public_atkey ∷ alloc key_buffer ∷ free public_atkey ∷ alloc public_key ∷ [])
            (verify_with_key W e (W.fetched_key atsign))) =
        IsQuiet-logged
          (alloc public_atkey ∷ alloc key_buffer ∷ free public_atkey ∷ alloc public_key ∷ []) _
          (omega arith) (verify_with_key-IsQuiet e (W.fetched_key atsign)) in
      ground (arith, rest)

  pub extract_envelope-IsQuiet :
      (n : Notification) → IsQuiet (extract_envelope_from_notification W n)
  unfolding extract_envelope_from_notification parse_envelope
  extract_envelope-IsQuiet n = ground arith

  sign_auth-IsQuiet : (payload : Json) (input : Text) → IsQuiet (sign_auth W payload input)
  unfolding sign_auth
  sign_auth-IsQuiet payload input = ground arith

  create_rvd_auth_string-IsQuiet : (payload : Json) → IsQuiet (create_rvd_auth_string W payload)
  unfolding create_rvd_auth_string
  create_rvd_auth_string-IsQuiet payload =
      let rest : IsQuiet (
          deref (print (rvd_auth_payload W payload)) >>= λ input.
          logged (free signing_input ∷ []) (sign_auth W payload input)) =
        IsQuiet-deref _ _ (λ input.
          IsQuiet-logged (free signing_input ∷ []) _ (omega arith)
            (sign_auth-IsQuiet payload input)) in
      IsQuiet-if _ _ _ (IsQuiet-done (failed failure) [] tt) (
        IsQuiet-logged (alloc auth_payload ∷ alloc auth_envelope ∷ alloc signing_input ∷ []) _
          (omega arith) rest)

  encrypt_iv-IsQuiet : (pk : Text) → IsQuiet (encrypt_iv W pk)
  unfolding encrypt_iv
  encrypt_iv-IsQuiet pk = ground arith

  encrypt_session-IsQuiet : (pk : Text) → IsQuiet (encrypt_session W pk)
  unfolding encrypt_session
  encrypt_session-IsQuiet pk = ground (
    arith,
    IsQuiet-logged
        (alloc client_key
          ∷ alloc session_aes_key_encrypted
          ∷ alloc session_aes_key_base64
          ∷ free session_aes_key_encrypted
          ∷ [])
        (encrypt_iv W pk) (omega arith) (encrypt_iv-IsQuiet pk),
  )

  check_key_type-IsQuiet :
      (pk : Option Text) (pk_type : Text) → IsQuiet (check_key_type W pk pk_type)
  unfolding check_key_type
  check_key_type-IsQuiet pk pk_type =
      IsQuiet-if _ _ _ (IsQuiet-deref pk _ encrypt_session-IsQuiet)
        (IsQuiet-done (failed failure) [] tt)

  setup-IsQuiet : (payload : Json) → IsQuiet (setup_rvd_session_encryption W payload)
  unfolding setup_rvd_session_encryption
  setup-IsQuiet payload =
      let rest : IsQuiet (
          logged (alloc session_aes_key ∷ alloc session_iv ∷ []) (
            deref (string_value (item W "clientEphemeralPKType" payload)) >>= λ pk_type.
            check_key_type W (string_value (item W "clientEphemeralPK" payload)) pk_type)) =
        IsQuiet-logged (alloc session_aes_key ∷ alloc session_iv ∷ []) _ (omega arith) (
          IsQuiet-deref (string_value (item W "clientEphemeralPKType" payload)) _
            (λ t. check_key_type-IsQuiet _ t)) in
      ground (arith, rest)

  asked-IsQuiet {ℓ} : {A : Type ℓ} (a : Result A) → IsQuiet (return (asked a))
  asked-IsQuiet (failed c) = IsQuiet-done (failed c) [] tt
  asked-IsQuiet (got s) = IsQuiet-done (got (some s)) [] tt

  pub auth_if_asked-IsQuiet : (payload : Json) → IsQuiet (auth_if_asked W payload)
  unfolding auth_if_asked
  auth_if_asked-IsQuiet payload =
      IsQuiet-if _ _ _ (IsQuiet-bind _ _ (create_rvd_auth_string-IsQuiet payload) asked-IsQuiet)
        (IsQuiet-done (got none) [] tt)

  pub keys_if_asked-IsQuiet : (payload : Json) → IsQuiet (keys_if_asked W payload)
  unfolding keys_if_asked
  keys_if_asked-IsQuiet payload =
      IsQuiet-if _ _ _ (IsQuiet-bind _ _ (setup-IsQuiet payload) asked-IsQuiet)
        (IsQuiet-done (got none) [] tt)
