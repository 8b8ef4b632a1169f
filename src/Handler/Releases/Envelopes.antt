-- ===== src/Handler/Releases/Envelopes.antt =====
-- What reading and checking an envelope in packages/c/sshnpd/src/handler_commons.c releases.
use zettahealthonramp.Base.{ℕ, not, ◌&&◌, Option, none, some, [], ◌∷◌, arith, is_some, Text}
use zettahealthonramp.Code.{is_zero, failure}
use zettahealthonramp.Handler.World.{
  hits, Notification, World, public_atkey, key_buffer, public_key, payload_string, alloc, free,
}
use zettahealthonramp.Handler.Traces.{
  Moves-logged, Moves-done, Moves-if, Moves-bind, Moves-deref_bind, Moves,
}
use zettahealthonramp.Handler.Envelope.{
  item, parse_envelope, extract_envelope_from_notification, verify_envelope_signature,
  verify_decoded, verify_with_key, verify_envelope_signature_from,
}
use zettahealthonramp.Handler.Session.{}
use zettahealthonramp.Handler.Success.{}
use zettahealthonramp.Handler.Releases.{nothing, held_envelope, IsKept}

module _ (W : World) (r : ℕ) where
  open W use {Json, print, get_item}

  module _ (k : IsKept r) where
    verify_envelope_signature-Moves :
        (key payload signature : Text) (h s : Option Text)
        → Moves r
            (hits r payload_string)
            (λ a. hits r payload_string)
            (verify_envelope_signature W key payload signature h s)
    unfolding verify_envelope_signature
    verify_envelope_signature-Moves key payload signature none s = ground arith
    verify_envelope_signature-Moves key payload signature (some h) none = ground arith
    verify_envelope_signature-Moves key payload signature (some h) (some s) = ground arith

    verify_decoded-Moves :
        (e : Json) (key signature : Text) → Moves r 0 nothing (verify_decoded W e key signature)
    unfolding verify_decoded
    verify_decoded-Moves e key signature =
        Moves-logged r 0 (hits r payload_string) nothing (alloc payload_string ∷ []) _ (omega arith)
          (Moves-deref_bind r _ nothing (print (item W "payload" e)) _ (λ payload.
            Moves-bind r (hits r payload_string) (λ a. hits r payload_string) nothing _ _
              (verify_envelope_signature-Moves key payload signature _ _) (λ res. ground arith)))

    verify_with_key-Moves : (e : Json) (key : Text) → Moves r 0 nothing (verify_with_key W e key)
    unfolding verify_with_key
    verify_with_key-Moves e key =
        Moves-if r 0 nothing (not (is_zero (W.populate_public_key key))) _ _
          (Moves-done r 0 nothing failure [] (omega arith))
          (Moves-deref_bind r 0 nothing (W.string_value (item W "signature" e)) _ (λ signature.
            Moves-if r 0 nothing (not (is_zero (W.base64_decode signature))) _ _
              (Moves-done r 0 nothing failure (free key_buffer ∷ []) (omega arith))
              (verify_decoded-Moves e key (W.base64_decoded signature))))

    pub verify_envelope_signature_from-Moves :
        (e : Json) (atsign : Option Text)
        → Moves r 0 nothing (verify_envelope_signature_from W e atsign)
    unfolding verify_envelope_signature_from
    verify_envelope_signature_from-Moves e atsign =
        Moves-if r 0 nothing (not (is_zero (W.create_public_key atsign))) _ _
          (Moves-done r 0 nothing failure (alloc public_atkey ∷ []) (omega arith))
          (Moves-if r 0 nothing (not (is_zero (W.get_public_key atsign))) _ _
            (Moves-done r 0 nothing failure (alloc public_atkey ∷ free public_atkey ∷ [])
              (omega arith))
            (Moves-logged r 0 0 nothing
              (alloc public_atkey ∷ alloc key_buffer ∷ free public_atkey ∷ alloc public_key ∷ []) _
              (omega arith) (verify_with_key-Moves e (W.fetched_key atsign))))

  parse_envelope-Moves : (t : Text) → Moves r 0 (held_envelope r) (parse_envelope W t)
  unfolding parse_envelope
  parse_envelope-Moves t = ground arith

  pub extract_envelope-Moves :
      (n : Notification) → Moves r 0 (held_envelope r) (extract_envelope_from_notification W n)
  unfolding extract_envelope_from_notification
  extract_envelope-Moves n =
      Moves-if r 0 (held_envelope r) (not n.from_initialized && is_some n.from) _ _
        (Moves-done r 0 (held_envelope r) none [] (omega arith))
        (Moves-if r 0 (held_envelope r) (not n.value_initialized && is_some n.decrypted_value) _ _
          (Moves-done r 0 (held_envelope r) none [] (omega arith))
          (Moves-deref_bind r 0 (held_envelope r) n.decrypted_value _ parse_envelope-Moves))
