-- ===== src/Handler/Success.antt =====
-- packages/c/sshnpd/src/handler_commons.c: the response to a client whose session stands.
pub mod Failures
use zettahealthonramp.Base.{not, Option, some, List, [], ◌∷◌, ◌++◌, if◌then◌else◌, Text, codes}
use zettahealthonramp.Code.{is_zero, success, ℤ}
use zettahealthonramp.Handler.World.{
  logged, ◌>>=◌, deref, Event, World, Trace, signing_input, response_envelope, response_value,
  response_atkey, keyname, atkey_string, notify_params, alloc, free, notifies, done,
}
use zettahealthonramp.Handler.Envelope.{item}
use zettahealthonramp.Handler.Session.{sealed}

-- The labels at the end of the function, from the last one up.
abbrev pub clean_json : List Event
clean_json = free response_envelope ∷ free signing_input ∷ []

abbrev pub clean_value : List Event
clean_value = free response_atkey ∷ free response_value ∷ clean_json

abbrev pub clean_notify : List Event
clean_notify = free notify_params ∷ free atkey_string ∷ free keyname ∷ clean_value

unfoldable pub response_name : Text → Text → Text
response_name identifier device = identifier ++ b'.' ∷ device

module _ (W : World) where
  open W use {
    Json, string_value, string, object, print, allocates, base64_encode, base64_encoded, rsa_sign,
    rsa_signature, create_shared_key, atkey_to_string, set_atkey, set_value, set_operation, notify,
  }

  -- A key that was not set up is a null pointer.
  unfoldable pub response_payload : Json → Option Text → Option Text → Json
  response_payload payload key iv = object (
      (codes "status", string (some (codes "connected")))
      ∷ (codes "sessionId", item W "sessionId" payload)
      ∷ (codes "sessionAESKey", string key)
      ∷ (codes "sessionIV", string iv)
      ∷ [])

  -- Once the parameters of the notification are there.
  unfoldable pub send_notification : Text → Option Text → Trace ℤ
  send_notification name response =
      if not (is_zero set_atkey)
      then done set_atkey clean_notify
      else if not (is_zero (set_value response))
      then done (set_value response) clean_notify
      else if not (is_zero set_operation)
      then done set_operation clean_notify
      else if not (is_zero notify)
      then done success clean_notify
      else done success (notifies name response ∷ clean_notify)

  -- Under the name of the response. The failures go to `ret`, and `res` stays 0.
  unfoldable pub name_response : Text → Option Text → Option Text → Trace ℤ
  name_response name response requesting_atsign =
      if not (allocates keyname)
      then done success clean_value
      else if not (is_zero (create_shared_key name requesting_atsign))
      then done success (alloc keyname ∷ clean_value)
      else if not (is_zero atkey_to_string)
      then done success (alloc keyname ∷ free keyname ∷ clean_value)
      else logged (alloc keyname ∷ alloc atkey_string ∷ alloc notify_params ∷ [])
          (send_notification name response)

  -- Once the payload is printed; the length of the identifier is taken without a test.
  unfoldable pub sign_response : Json → Text → Option Text → Json → Text → Trace ℤ
  unfolding response_name
  sign_response payload device requesting_atsign response input =
      if not (is_zero (rsa_sign input))
      then done (rsa_sign input) clean_json
      else if not (is_zero (base64_encode (rsa_signature input)))
      then done (base64_encode (rsa_signature input)) clean_json
      else logged (alloc response_value ∷ alloc response_atkey ∷ []) (
          deref (string_value (item W "sessionId" payload)) >>= λ identifier.
          name_response (response_name identifier device)
            (print (sealed W response (base64_encoded (rsa_signature input)))) requesting_atsign)

  unfoldable pub send_success_payload :
      Json → Text → Option Text → Option Text → Option Text → Trace ℤ
  send_success_payload payload device key iv requesting_atsign =
      logged (alloc response_envelope ∷ alloc signing_input ∷ []) (
        deref (print (response_payload payload key iv)) >>= λ input.
        sign_response payload device requesting_atsign (response_payload payload key iv) input)
