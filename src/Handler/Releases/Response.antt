-- ===== src/Handler/Releases/Response.antt =====
-- What sending the response of packages/c/sshnpd/src/handler_commons.c releases.
use zettahealthonramp.Base.{ℕ, ◌+◌, Option, [], ◌∷◌, arith, Text}
use zettahealthonramp.Handler.World.{
  logged, hits, World, signing_input, response_envelope, response_value, response_atkey, keyname,
  atkey_string, notify_params, alloc,
}
use zettahealthonramp.Handler.Traces.{Moves-logged, Moves-done, Moves-if, Moves-deref_bind, Moves}
use zettahealthonramp.Handler.Envelope.{}
use zettahealthonramp.Handler.Session.{}
use zettahealthonramp.Handler.Success.{
  clean_json, send_notification, name_response, sign_response, send_success_payload,
}
use zettahealthonramp.Handler.Releases.{nothing, IsKept}

module _ (W : World) (r : ℕ) where
  open W use {Json}

  module _ (k : IsKept r) where
    send_notification-Moves :
        (name : Text) (response : Option Text)
        → Moves r
            (hits r notify_params
              + hits r atkey_string
              + hits r response_atkey
              + hits r response_value
              + hits r response_envelope
              + hits r signing_input)
            nothing
            (send_notification W name response)
    unfolding send_notification
    send_notification-Moves name response = ground arith

    name_response-Moves :
        (name : Text) (response from : Option Text)
        → Moves r
            (hits r response_atkey
              + hits r response_value
              + hits r response_envelope
              + hits r signing_input)
            nothing
            (name_response W name response from)
    unfolding name_response
    name_response-Moves name response from =
        let rest : Moves r
            (hits r response_atkey
              + hits r response_value
              + hits r response_envelope
              + hits r signing_input)
            nothing
            (logged (alloc keyname ∷ alloc atkey_string ∷ alloc notify_params ∷ [])
              (send_notification W name response)) =
          Moves-logged r _ _ _ (alloc keyname ∷ alloc atkey_string ∷ alloc notify_params ∷ []) _
            (omega arith) (send_notification-Moves name response) in
        ground (arith, rest)

    sign_response-Moves :
        (payload response : Json) (device input : Text) (from : Option Text)
        → Moves r
            (hits r response_envelope + hits r signing_input)
            nothing
            (sign_response W payload device from response input)
    unfolding sign_response
    sign_response-Moves payload response device input from =
        Moves-if r _ nothing _ _ _
          (Moves-done r _ nothing (W.rsa_sign input) clean_json (omega arith))
          (Moves-if r _ nothing _ _ _
            (Moves-done r _ nothing (W.base64_encode (W.rsa_signature input)) clean_json
              (omega arith))
            (Moves-logged r _ _ nothing (alloc response_value ∷ alloc response_atkey ∷ []) _
              (omega arith)
              (Moves-deref_bind r _ nothing _ _ (λ identifier. name_response-Moves _ _ from))))

    pub send_success_payload-Moves :
        (payload : Json) (device : Text) (key iv from : Option Text)
        → Moves r 0 nothing (send_success_payload W payload device key iv from)
    unfolding send_success_payload
    send_success_payload-Moves payload device key iv from =
        Moves-logged r 0 (hits r response_envelope + hits r signing_input) nothing
          (alloc response_envelope ∷ alloc signing_input ∷ []) _ (omega arith)
          (Moves-deref_bind r _ nothing _ _
            (λ input. sign_response-Moves payload _ device input from))
