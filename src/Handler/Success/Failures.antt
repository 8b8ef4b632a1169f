-- ===== src/Handler/Success/Failures.antt =====
-- What send_success_payload of handler_commons.c answers where no response is sent.
use zettahealthonramp.Base.{
  ◌≡◌, refl, sym, subst, ◌∙◌, false, not, Option, none, some, List, [], ◌∷◌, arith, Text,
}
use zettahealthonramp.Code.{is_zero, success, ℤ}
use zettahealthonramp.PermitOpen.{signed}
use zettahealthonramp.Handler.World.{
  logged, value, ◌>>=◌, deref, Event, World, Trace, signing_input, response_envelope,
  response_value, response_atkey, alloc, done,
}
use zettahealthonramp.Handler.Traces.{
  IsQuiet-done, IsQuiet-logged, IsQuiet-if, IsQuiet-deref, value-logged, IsQuiet,
}
use zettahealthonramp.Handler.Envelope.{item}
use zettahealthonramp.Handler.Session.{sealed}
use zettahealthonramp.Handler.Success.{
  clean_json, clean_notify, response_name, response_payload, send_notification, name_response,
  sign_response, send_success_payload,
}

module _ (W : World) where
  open W use {Json, string_value, print, rsa_signature}

  -- Where the payload has no session id and the response is signed, the length of a null pointer is
  -- taken: the call does not return.
  send_success_payload_unnamed :
      (payload : Json) (device : Text) (key iv from : Option Text) (input : Text)
      → print (response_payload W payload key iv) ≡ some input
      → W.rsa_sign input ≡ success
      → W.base64_encode (rsa_signature input) ≡ success
      → string_value (item W "sessionId" payload) ≡ none
      → value (send_success_payload W payload device key iv from) ≡ none
  unfolding send_success_payload sign_response
  send_success_payload_unnamed payload device key iv from input printed signed encoded unnamed =
      rw (printed, deref) (rw (signed, encoded, unnamed) refl)

  send_notification_unsent :
      (name : Text) (response : Option Text)
      → is_zero W.notify ≡ false
      → W.set_atkey ≡ success
      → ((v : Option Text) → W.set_value v ≡ success)
      → W.set_operation ≡ success
      → send_notification W name response ≡ done success clean_notify
  unfolding send_notification
  send_notification_unsent name response unsent atkey values operation =
      ground (arith, values response)

  module _ (unsent : is_zero W.notify ≡ false) (atkey : W.set_atkey ≡ success)
      (values : (v : Option Text) → W.set_value v ≡ success)
      (operation : W.set_operation ≡ success) where
    name_response_unsent :
        (name : Text) (response from : Option Text)
        → (value (name_response W name response from) ≡ some success)
          × IsQuiet (name_response W name response from)
    unfolding name_response
    name_response_unsent name response from =
        let sent = send_notification_unsent name response unsent atkey values operation in
        (ground (arith, sent), ground (arith, sent))

    named_unsent :
        (device : Text) (v o from : Option Text) (l : List Event) (c : ℤ)
        → value (logged l (deref o >>= λ id. name_response W (response_name id device) v from))
          ≡ some c
        → c ≡ success
    named_unsent device v none from l c h = cc
    named_unsent device v (some id) from l c h =
        let named = name_response_unsent (response_name id device) v from in
        ground (
          arith,
          named,
          value-logged [] (name_response W (response_name id device) v from),
          value-logged l (logged [] (name_response W (response_name id device) v from)),
        )

    sign_response_unsent :
        (payload : Json) (device : Text) (from : Option Text) (response : Json) (input : Text)
        (c : ℤ)
        → W.rsa_sign input ≡ success
        → W.base64_encode (rsa_signature input) ≡ success
        → value (sign_response W payload device from response input) ≡ some c
        → c ≡ success
    unfolding sign_response
    sign_response_unsent payload device from response input c signed encoded h =
        named_unsent device (print (sealed W response (W.base64_encoded (rsa_signature input))))
          (string_value (item W "sessionId" payload)) from
          (alloc response_value ∷ alloc response_atkey ∷ []) c (ground arith)

    sign_response-IsQuiet :
        (payload : Json) (device : Text) (from : Option Text) (response : Json) (input : Text)
        → IsQuiet (sign_response W payload device from response input)
    unfolding sign_response
    sign_response-IsQuiet payload device from response input =
        IsQuiet-if (not (is_zero (W.rsa_sign input))) _ _
          (IsQuiet-done (W.rsa_sign input) clean_json (omega arith))
          (IsQuiet-if (not (is_zero (W.base64_encode (rsa_signature input)))) _ _
            (IsQuiet-done (W.base64_encode (rsa_signature input)) clean_json (omega arith))
            (IsQuiet-logged (alloc response_value ∷ alloc response_atkey ∷ []) _ (omega arith) (
              IsQuiet-deref (string_value (item W "sessionId" payload)) _
                (λ id. (name_response_unsent (response_name id device) _ from).1))))

followed_value {ℓ κ} :
    {A : Type ℓ} {B : Type κ} (l : List Event) (o : Option A) (f : A → Trace B) (a : A) (b : B)
    → o ≡ some a
    → value (logged l (deref o >>= f)) ≡ some b
    → value (f a) ≡ some b
followed_value l none f a b e h = cc
followed_value l (some x) f a b e h =
    let same : x ≡ a = cc in
    subst (λ y. value (f y) ≡ some b) same
      (sym (value-logged [] (f x)) ∙ (sym (value-logged l (logged [] (f x))) ∙ h))

-- Where the client library refuses to send the notification, the response is not sent, and the
-- call still answers 0 once the response is signed: its caller takes it for sent.
send_success_payload_unsent :
    (W : World) (payload : W.Json) (device : Text) (key iv from : Option Text) (input : Text)
    (c : ℤ)
    → is_zero W.notify ≡ false
    → W.set_atkey ≡ success
    → ((v : Option Text) → W.set_value v ≡ success)
    → W.set_operation ≡ success
    → W.print (response_payload W payload key iv) ≡ some input
    → W.rsa_sign input ≡ success
    → W.base64_encode (W.rsa_signature input) ≡ success
    → value (send_success_payload W payload device key iv from) ≡ some c
    → (c ≡ success) × IsQuiet (send_success_payload W payload device key iv from)
unfolding send_success_payload
send_success_payload_unsent W payload device key iv from input c unsent atkey values operation
      printed signed encoded h =
    let later = sign_response W payload device from (response_payload W payload key iv) in
    (
      sign_response_unsent W unsent atkey values operation payload device from
          (response_payload W payload key iv) input c signed encoded
          (followed_value (alloc response_envelope ∷ alloc signing_input ∷ [])
            (W.print (response_payload W payload key iv)) later input c printed h),
      IsQuiet-logged (alloc response_envelope ∷ alloc signing_input ∷ []) _ (omega arith) (
          IsQuiet-deref (W.print (response_payload W payload key iv)) _
            (sign_response-IsQuiet W unsent atkey values operation payload device from _)),
    )
